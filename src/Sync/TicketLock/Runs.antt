-- ===== src/Sync/TicketLock/Runs.antt =====
-- What every run of the ticket lock in note7/synchronization_locks/race_condition.c does.
use cp.Common.{
  find_or_All, ℕ, ◌+◌, ◌*◌, ◌≤◌, ◌<◌, ◌≡◌, refl, ◌⊎◌, inl, inr, arith, Bool, true, false, ltb, ◌==◌,
  List, [], ◌∷◌, length, All, get_or,
}
use cp.Sync.TicketLock.{
  increment_count, Place, outside, waiting, inside, loaded, stored, Thread, State, no_thread, run,
  start,
}
use cp.Sync.TicketLock.Invariant.{
  holds, ticket_weight, inside_weight, stored_weight, num_with, num_inside, num_stored, IsServed,
  IsSound, Inv, ticket_bound,
}
use cp.Sync.TicketLock.Steps.{Inv-run}

Inv-start : Inv start
Inv-start = record {
  one_each = λ j. ground arith;
  ordered = omega arith;
  taken = refl;
  counted = refl;
  served = (tt, (tt, (tt, (tt, tt))));
  sound = (omega arith, (omega arith, (omega arith, (omega arith, tt))));
  four = refl;
}

Inv-reached : (ks : List ℕ) → Inv (run ks start)
Inv-reached ks = Inv-run ks start Inv-start

inside-le-holds : (sv c : ℕ) (p : Place) → IsServed sv c p → inside_weight p ≤ holds sv p
inside-le-holds sv c outside h = omega arith
inside-le-holds sv c (waiting t) h = omega arith
inside-le-holds sv c (inside t) h = ground (arith, h)
inside-le-holds sv c (loaded t v) h = ground (arith, h.0)
inside-le-holds sv c (stored t) h = ground (arith, h)

inside-le-with :
    (sv c : ℕ) (ts : List Thread)
    → All (λ t. IsServed sv c t.place) ts
    → num_inside ts ≤ num_with sv ts
inside-le-with sv c [] h = omega arith
inside-le-with sv c (t ∷ ts) h =
    omega (arith, inside-le-holds sv c t.place h.0, inside-le-with sv c ts h.1)

-- In every state that a run of the 4 threads reaches, at most one is between ticket_lock_lock and
-- ticket_lock_unlock, each ticket is held by at most one, and `counter` is the number of the
-- increments done: none is lost, and no ticket number wraps around.
pub ticket_lock_exclusion :
    (ks : List ℕ)
    → let s = run ks start in
      (num_inside s.threads ≤ 1)
      × ((j : ℕ) → num_with j s.threads ≤ 1)
      × (s.counter ≡ num_stored s.threads)
      × (s.ticket ≤ 4000000)
ticket_lock_exclusion ks =
    let s = run ks start in
    let inv = Inv-reached ks in
    let once : (j : ℕ) → num_with j s.threads ≤ 1 = λ j. ground (arith, inv.one_each j) in
    (
      omega (arith, inside-le-with s.serving s.counter s.threads inv.served, once s.serving),
      once,
      inv.counted,
      ticket_bound s inv,
    )

-- Whether a step of this thread does anything but spin.
abbrev pub can_run : State → Thread → Bool
can_run s t = elim t.place [
  | outside ↦ ltb t.i increment_count
  | waiting my ↦ s.serving == my
  | inside my ↦ true
  | loaded my v ↦ true
  | stored my ↦ true
]

not_served :
    (s : State) (i : ℕ) (p : Place)
    → can_run s (record { i = i; place = p }) ≡ false
    → holds s.serving p ≡ 0
not_served s i outside h = refl
not_served s i (waiting t) h = ground (arith, h)
not_served s i (inside t) h = absurd (cc h)
not_served s i (loaded t v) h = absurd (cc h)
not_served s i (stored t) h = absurd (cc h)

none_served :
    (s : State) (ts : List Thread) → All (λ t. can_run s t ≡ false) ts → num_with s.serving ts ≡ 0
none_served s [] h = refl
none_served s (t ∷ ts) h = omega (arith, not_served s t.i t.place h.0, none_served s ts h.1)

thread_done :
    (s : State) (i : ℕ) (p : Place)
    → ((j : ℕ) → holds j p ≡ 0)
    → i + ticket_weight p ≤ increment_count
    → can_run s (record { i = i; place = p }) ≡ false
    → (i ≡ increment_count) × (stored_weight p ≡ 0)
thread_done s i outside n so h = (ground (arith, so, h), refl)
thread_done s i (waiting t) n so h = absurd (ground (arith, n t))
thread_done s i (inside t) n so h = absurd (cc h)
thread_done s i (loaded t v) n so h = absurd (cc h)
thread_done s i (stored t) n so h = absurd (cc h)

threads_done :
    (s : State) (ts : List Thread)
    → ((j : ℕ) → num_with j ts ≡ 0)
    → All IsSound ts
    → All (λ t. can_run s t ≡ false) ts
    → All (λ t. t.i ≡ increment_count) ts × (num_stored ts ≡ 1000000 * length ts)
threads_done s [] n so h = (tt, refl)
threads_done s (t ∷ ts) n so h =
    let here = thread_done s t.i t.place (λ j. omega (arith, n j)) so.0 h.0 in
    let rest = threads_done s ts (λ j. omega (arith, n j)) so.1 h.1 in
    ((here.0, rest.0), omega (arith, here.0, here.1, rest.1))

all_done :
    (ks : List ℕ)
    → All (λ t. can_run (run ks start) t ≡ false) (run ks start).threads
    → All (λ t. t.i ≡ increment_count) (run ks start).threads × ((run ks start).counter ≡ 4000000)
all_done ks h =
    let s = run ks start in
    let inv = Inv-reached ks in
    let none = none_served s s.threads h in
    let empty : s.ticket ≤ s.serving = ground (arith, none, inv.one_each s.serving, inv.ordered) in
    let free : (j : ℕ) → num_with j s.threads ≡ 0 = λ j. ground (arith, inv.one_each j, empty) in
    let d = threads_done s s.threads free inv.sound h in
    (d.0, omega (arith, d.1, inv.four, inv.counted))

-- In every state that a run reaches, some thread can take a step that is not a spin, or all 4 have
-- done their 1,000,000 increments and `counter` is 4,000,000.
pub ticket_lock_total :
    (ks : List ℕ)
    → let s = run ks start in
      ((k : ℕ) × (k < length s.threads) × (can_run s (get_or s.threads k no_thread) ≡ true))
      ⊎ (All (λ t. t.i ≡ increment_count) s.threads × (s.counter ≡ 4000000))
ticket_lock_total ks =
    let s = run ks start in
    elim (find_or_All (can_run s) s.threads no_thread) [
      | inl f ↦ inl f
      | inr h ↦ inr (all_done ks h)
    ]
