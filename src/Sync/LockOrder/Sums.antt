-- ===== src/Sync/LockOrder/Sums.antt =====
-- What the shared variables add up to, whatever the order of the steps, when each is only used under a
-- lock.
use cp.Common.{
  ℕ, ◌+◌, ◌-◌, ◌<◌, ◌≡◌, refl, sym, ap, inl, inr, arith, ltb, ◌==◌, if◌then◌else◌, Bool-cases, List,
  [], ◌∷◌, length, total, All, All-set, All-get_or, length-set, total-set, get_or-set, occurs, set,
  get_or,
}
use cp.Sync.LockOrder.{
  Op, acquire, release, add, store, Thread, State, no_thread, move, value, without, execute, step,
  run, start,
}
use cp.Sync.LockOrder.Invariant.{fits, IsOrdered, Inv, Inv-start, Inv-execute}
use cp.Sync.LockOrder.Guards.{
  IsGuarded, IsFresh, AllFresh, IsFresh-IsGuarded, AllFresh-store, AllFresh-start,
}

-- What is still to be added to variable `j`.
abbrev pub pending : ℕ → List Op → ℕ
pending j [] = 0
pending j (acquire l ∷ todo) = pending j todo
pending j (release l ∷ todo) = pending j todo
pending j (add r n ∷ todo) = (if j == r then n else 0) + pending j todo
pending j (store r v n ∷ todo) = (if j == r then n else 0) + pending j todo

abbrev pub pending_in : ℕ → List Thread → ℕ
pending_in j ts = total (λ t. pending j t.todo) ts

-- With `n` locks, and the guards of the variables.
record Sum (n : ℕ) (guard : ℕ → ℕ) (j m : ℕ) (s : State) : Type 0 where
  there : j < length s.variables
  sum : get_or s.variables j 0 + pending_in j s.threads ≡ m
  fresh : AllFresh n guard s

module _ (n : ℕ) (guard : ℕ → ℕ) (j m : ℕ) where
  -- Thread `k` gets this list of locks and this rest, and the variables stay.
  Sum-move :
      (k : ℕ) (held : List ℕ) (todo : List Op) (vs : List ℕ) (s : State)
      → Sum n guard j m s
      → k < length s.threads
      → pending j todo ≡ pending j (get_or s.threads k no_thread).todo
      → IsFresh n guard s.variables held todo
      → Sum n guard j m (move k held todo (record s { values = vs }))
  Sum-move k held todo vs s sum lt e f =
      let v : Thread = record { held = held; todo = todo } in
      record {
        there = sum.there;
        sum =
            omega (arith, sum.sum, e, total-set (λ t. pending j t.todo) s.threads k v no_thread lt);
        fresh = All-set (λ t. IsFresh n guard s.variables t.held t.todo) s.threads k v sum.fresh f;
      }

  IsFresh-at :
      (k : ℕ) (held : List ℕ) (todo : List Op) (s : State)
      → Sum n guard j m s
      → k < length s.threads
      → (get_or s.threads k no_thread).held ≡ held
      → (get_or s.threads k no_thread).todo ≡ todo
      → IsFresh n guard s.variables held todo
  IsFresh-at k held todo s sum lt h e =
      rw (sym h, sym e)
        (All-get_or (λ t. IsFresh n guard s.variables t.held t.todo) s.threads k no_thread lt
          sum.fresh)

  Sum-execute :
      (k : ℕ) (held : List ℕ) (todo : List Op) (s : State)
      → Inv n s
      → Sum n guard j m s
      → (get_or s.threads k no_thread).held ≡ held
      → (get_or s.threads k no_thread).todo ≡ todo
      → Sum n guard j m (execute k held todo s)
  unfolding execute
  Sum-execute k held [] s inv sum h e = sum
  Sum-execute k held (acquire l ∷ todo) s inv sum h e = elim (Bool-cases (ltb 0 (value s l))) [
    | inl free ↦
        let lt = fits k (acquire l ∷ todo) s e (omega arith) in
        let f = IsFresh-at k held (acquire l ∷ todo) s sum lt h e in
        rw free (
          Sum-move k (l ∷ held) todo (set s.values l (value s l - 1)) s sum lt
            (omega (arith, ap (pending j) e))
            (IsFresh-IsGuarded n guard s.variables (l ∷ held) todo f))
    | inr taken ↦ rw taken sum
  ]
  Sum-execute k held (release l ∷ todo) s inv sum h e =
      let lt = fits k (release l ∷ todo) s e (omega arith) in
      let f = IsFresh-at k held (release l ∷ todo) s sum lt h e in
      Sum-move k (without l held) todo (set s.values l (value s l + 1)) s sum lt
        (omega (arith, ap (pending j) e))
        (IsFresh-IsGuarded n guard s.variables (without l held) todo f)
  Sum-execute k held (add r d ∷ todo) s inv sum h e =
      let lt = fits k (add r d ∷ todo) s e (omega arith) in
      let f = IsFresh-at k held (add r d ∷ todo) s sum lt h e in
      Sum-move k held (store r (get_or s.variables r 0) d ∷ todo) s.values s sum lt
        (omega (arith, ap (pending j) e)) (refl, f.0, f.1, f.2)
  Sum-execute k held (store r v d ∷ todo) s inv sum h e =
      let lt = fits k (store r v d ∷ todo) s e (omega arith) in
      let f = IsFresh-at k held (store r v d ∷ todo) s sum lt h e in
      let t : Thread = record { held = held; todo = todo } in
      record {
        there = omega (arith, sum.there, length-set s.variables r (v + d));
        sum = ground (
          arith,
          sum.sum,
          f.0,
          get_or-set s.variables r j (v + d) 0,
          sum.there,
          ap (pending j) e,
          total-set (λ t. pending j t.todo) s.threads k t no_thread lt,
        );
        fresh =
            AllFresh-store n guard k r (v + d) held todo s inv sum.fresh lt f.1
              (omega (arith, f.2, ap (occurs (guard r)) h)) f.3;
      }

  Sum-run : (ks : List ℕ) (s : State) → Inv n s → Sum n guard j m s → Sum n guard j m (run ks s)
  unfolding run step
  Sum-run [] s inv sum = sum
  Sum-run (k ∷ ks) s inv sum =
      let t = get_or s.threads k no_thread in
      Sum-run ks (step k s) (Inv-execute n k t.held t.todo s inv refl refl)
        (Sum-execute k t.held t.todo s inv sum refl refl)

pending-done : (j : ℕ) (ts : List Thread) → All (λ t. t.todo ≡ []) ts → pending_in j ts ≡ 0
pending-done j [] h = refl
pending-done j (t ∷ ts) h = omega (arith, ap (pending j) h.0, pending-done j ts h.1)

pending-start :
    (j : ℕ) (n : ℕ) (xs : List ℕ) (programs : List (List Op))
    → pending_in j (start n xs programs).threads ≡ total (pending j) programs
pending-start j n xs [] = refl
pending-start j n xs (p ∷ ps) = omega (arith, pending-start j n xs ps)

-- If each thread takes its locks in order and adds to each variable only while it holds the lock that
-- guards it: when all have done their operations, in whatever order they ran, each shared variable has
-- grown by all that they add to it, and no update is lost.
pub all_added :
    (n : ℕ) (guard : ℕ → ℕ) (j : ℕ) (xs : List ℕ) (programs : List (List Op)) (ks : List ℕ)
    → All (IsOrdered n []) programs
    → All (IsGuarded n guard []) programs
    → j < length xs
    → All (λ t. t.todo ≡ []) (run ks (start n xs programs)).threads
    → get_or (run ks (start n xs programs)).variables j 0
      ≡ get_or xs j 0 + total (pending j) programs
all_added n guard j xs programs ks order guarded lt done =
    let s = run ks (start n xs programs) in
    let m = get_or xs j 0 + total (pending j) programs in
    let sum = Sum-run n guard j m ks (start n xs programs) (Inv-start n xs programs order) (record {
      there = lt;
      sum = omega (arith, pending-start j n xs programs);
      fresh = AllFresh-start n guard xs programs guarded;
    }) in
    omega (arith, sum.sum, pending-done j s.threads done)
