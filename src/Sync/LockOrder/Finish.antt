-- ===== src/Sync/LockOrder/Finish.antt =====
-- Threads that take their locks in ascending order do not deadlock, and a state in which no thread can
-- run stays as it is.
use cp.Common.{
  find_or_All, ℕ, zero, suc, ◌+◌, ◌≤◌, ◌<◌, ◌≡◌, refl, ◌⊎◌, inl, inr, arith, true, false, List, [],
  ◌∷◌, length, All, occurs, get_or, dec_lt,
}
use cp.Sync.LockOrder.{
  Op, acquire, release, add, store, Thread, State, no_thread, value, execute, step, run, start,
  can_execute, can_run,
}
use cp.Sync.LockOrder.Invariant.{IsOrdered, holders, Inv, Inv-reached}

occurs-above : (l m : ℕ) (hs : List ℕ) → m ≤ l → All (λ h. h < m) hs → occurs l hs ≡ 0
occurs-above l m [] le a = refl
occurs-above l m (h ∷ hs) le a = ground (arith, le, a.0, occurs-above l m hs le a.1)

-- A thread that cannot run holds no lock from `l` on, when the locks above `l` are free.
blocked_below :
    (n l : ℕ) (s : State) (held : List ℕ) (todo : List Op)
    → ((j : ℕ) → l < j → j < n → value s j ≡ 1)
    → IsOrdered n held todo
    → can_execute s todo ≡ false
    → occurs l held ≡ 0
blocked_below n l s [] [] free o c = refl
blocked_below n l s (h ∷ hs) [] free o c = absurd o
blocked_below n l s held (acquire j ∷ todo) free o c = elim (dec_lt l j) [
  | yes g ↦ absurd (ground (arith, free j g o.0, c))
  | no g ↦ occurs-above l j held (omega (arith, g)) o.1
]
blocked_below n l s held (release j ∷ todo) free o c = absurd (cc c)
blocked_below n l s held (add r m ∷ todo) free o c = absurd (cc c)
blocked_below n l s held (store r v m ∷ todo) free o c = absurd (cc c)

none_from :
    (n l : ℕ) (s : State) (ts : List Thread)
    → ((j : ℕ) → l < j → j < n → value s j ≡ 1)
    → All (λ t. IsOrdered n t.held t.todo) ts
    → All (λ t. can_run s t ≡ false) ts
    → holders l ts ≡ 0
none_from n l s [] free o c = refl
none_from n l s (t ∷ ts) free o c =
    omega (arith, blocked_below n l s t.held t.todo free o.0 c.0, none_from n l s ts free o.1 c.1)

-- From the last lock down, all are free.
all_free :
    (n m : ℕ) (s : State)
    → Inv n s
    → All (λ t. can_run s t ≡ false) s.threads
    → (j : ℕ) → n ≤ m + j
    → j < n
    → value s j ≡ 1
all_free n zero s inv c j le lt = absurd (omega (arith, le, lt))
all_free n (suc m) s inv c j le lt =
    let gone =
      none_from n j s s.threads (λ i g b. all_free n m s inv c i (omega (arith, le, g)) b)
        inv.ordered c in
    omega (arith, inv.one_holder j lt, gone)

nothing_left :
    (n : ℕ) (s : State) (held : List ℕ) (todo : List Op)
    → ((j : ℕ) → j < n → value s j ≡ 1)
    → IsOrdered n held todo
    → can_execute s todo ≡ false
    → todo ≡ []
nothing_left n s held [] free o c = refl
nothing_left n s held (acquire j ∷ todo) free o c = absurd (ground (arith, free j o.0, c))
nothing_left n s held (release j ∷ todo) free o c = absurd (cc c)
nothing_left n s held (add r m ∷ todo) free o c = absurd (cc c)
nothing_left n s held (store r v m ∷ todo) free o c = absurd (cc c)

all_finished :
    (n : ℕ) (s : State) (ts : List Thread)
    → ((j : ℕ) → j < n → value s j ≡ 1)
    → All (λ t. IsOrdered n t.held t.todo) ts
    → All (λ t. can_run s t ≡ false) ts
    → All (λ t. t.todo ≡ []) ts
all_finished n s [] free o c = tt
all_finished n s (t ∷ ts) free o c =
    (nothing_left n s t.held t.todo free o.0 c.0, all_finished n s ts free o.1 c.1)

-- For any number of threads and of locks: if each thread takes its locks in ascending order and gives
-- them all up, last taken first, then in every state that a run reaches, some thread can take a step, or
-- every thread has done all its operations and every lock is free.
pub lock_order_progress :
    (n : ℕ) (xs : List ℕ) (programs : List (List Op)) (ks : List ℕ)
    → All (IsOrdered n []) programs
    → let s = run ks (start n xs programs) in
      ((k : ℕ) × (k < length s.threads) × (can_run s (get_or s.threads k no_thread) ≡ true))
      ⊎ (All (λ t. t.todo ≡ []) s.threads × ((l : ℕ) → l < n → value s l ≡ 1))
lock_order_progress n xs programs ks h =
    let s = run ks (start n xs programs) in
    let inv = Inv-reached n xs programs ks h in
    elim (find_or_All (can_run s) s.threads no_thread) [
      | inl f ↦ inl f
      | inr c ↦
          let free : (j : ℕ) → j < n → value s j ≡ 1 =
            λ j b. all_free n n s inv c j (omega arith) b in
          inr (all_finished n s s.threads free inv.ordered c, free)
    ]

execute_blocked :
    (k : ℕ) (held : List ℕ) (todo : List Op) (s : State)
    → can_execute s todo ≡ false
    → execute k held todo s ≡ s
unfolding execute
execute_blocked k held [] s c = refl
execute_blocked k held (acquire l ∷ todo) s c = rw c refl
execute_blocked k held (release l ∷ todo) s c = absurd (cc c)
execute_blocked k held (add r n ∷ todo) s c = absurd (cc c)
execute_blocked k held (store r v n ∷ todo) s c = absurd (cc c)

blocked_at :
    (s : State) (k : ℕ) (ts : List Thread)
    → All (λ t. can_run s t ≡ false) ts
    → can_run s (get_or ts k no_thread) ≡ false
blocked_at s k [] c = refl
blocked_at s zero (t ∷ ts) c = c.0
blocked_at s (suc k) (t ∷ ts) c = blocked_at s k ts c.1

-- A state in which no thread can take a step never changes again.
pub run_stuck : (ks : List ℕ) (s : State) → All (λ t. can_run s t ≡ false) s.threads → run ks s ≡ s
unfolding run step
run_stuck [] s c = refl
run_stuck (k ∷ ks) s c =
    let t = get_or s.threads k no_thread in
    rw (execute_blocked k t.held t.todo s (blocked_at s k s.threads c)) (run_stuck ks s c)
