-- ===== src/Sync/TicketLock/Invariant.antt =====
-- The invariant of the ticket lock in note7/synchronization_locks/race_condition.c.
use cp.Common.{
  ℕ, ◌+◌, ◌*◌, ◌≤◌, ◌≡◌, arith, ◌&&◌, ltb, leb, ◌==◌, if◌then◌else◌, List, [], ◌∷◌, length, total,
  All,
}
use cp.Sync.TicketLock.{
  num_threads, increment_count, Place, outside, waiting, inside, loaded, stored, Thread, State,
}

-- 1 for a thread with ticket `j`, with any ticket, in the critical section, or that has stored.
abbrev pub holds : ℕ → Place → ℕ
holds j outside = 0
holds j (waiting t) = if j == t then 1 else 0
holds j (inside t) = if j == t then 1 else 0
holds j (loaded t v) = if j == t then 1 else 0
holds j (stored t) = if j == t then 1 else 0

abbrev pub ticket_weight : Place → ℕ
ticket_weight outside = 0
ticket_weight (waiting t) = 1
ticket_weight (inside t) = 1
ticket_weight (loaded t v) = 1
ticket_weight (stored t) = 1

abbrev pub inside_weight : Place → ℕ
inside_weight outside = 0
inside_weight (waiting t) = 0
inside_weight (inside t) = 1
inside_weight (loaded t v) = 1
inside_weight (stored t) = 1

abbrev pub stored_weight : Place → ℕ
stored_weight outside = 0
stored_weight (waiting t) = 0
stored_weight (inside t) = 0
stored_weight (loaded t v) = 0
stored_weight (stored t) = 1

abbrev pub num_with : ℕ → List Thread → ℕ
num_with j ts = total (λ t. holds j t.place) ts

abbrev pub num_inside : List Thread → ℕ
num_inside ts = total (λ t. inside_weight t.place) ts

-- The tickets taken and the increments done.
abbrev pub num_taken : List Thread → ℕ
num_taken ts = total (λ t. t.i + ticket_weight t.place) ts

abbrev pub num_stored : List Thread → ℕ
num_stored ts = total (λ t. t.i + stored_weight t.place) ts

-- A thread in the critical section is the one served, and what it has loaded is what is there.
abbrev pub IsServed : ℕ → ℕ → Place → Type 0
IsServed serving counter outside = Unit
IsServed serving counter (waiting t) = Unit
IsServed serving counter (inside t) = t ≡ serving
IsServed serving counter (loaded t v) = (t ≡ serving) × (v ≡ counter)
IsServed serving counter (stored t) = t ≡ serving

abbrev pub IsSound : Thread → Type 0
IsSound t = t.i + ticket_weight t.place ≤ increment_count

pub record Inv (s : State) : Type 0 where
  pub one_each :
      (j : ℕ) → num_with j s.threads ≡ (if leb s.serving j && ltb j s.ticket then 1 else 0)
  pub ordered : s.serving ≤ s.ticket
  pub taken : s.ticket ≡ num_taken s.threads
  pub counted : s.counter ≡ num_stored s.threads
  pub served : All (λ t. IsServed s.serving s.counter t.place) s.threads
  pub sound : All IsSound s.threads
  pub four : length s.threads ≡ num_threads

taken-le : (ts : List Thread) → All IsSound ts → num_taken ts ≤ 1000000 * length ts
taken-le [] h = omega arith
taken-le (t ∷ ts) h = omega (arith, h.0, taken-le ts h.1)

-- No ticket number wraps around.
pub ticket_bound : (s : State) → Inv s → s.ticket ≤ 4000000
ticket_bound s inv = omega (arith, taken-le s.threads inv.sound, inv.four, inv.taken)
