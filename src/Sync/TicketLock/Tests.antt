-- ===== src/Sync/TicketLock/Tests.antt =====
-- A concrete run of the ticket lock, and the theorems applied to it.
use cp.Common.{ℕ, ◌≤◌, ◌<◌, ◌≡◌, refl, ◌⊎◌, true, List, [], ◌∷◌, length, All, get_or}
use cp.Sync.TicketLock.{
  no_thread, increment_count, thread_at, increment_with_ticket_lock, run, start,
}
use cp.Sync.TicketLock.Invariant.{num_inside, num_with, num_stored}
use cp.Sync.TicketLock.Runs.{ticket_lock_exclusion, ticket_lock_total, can_run}

-- Threads 1 and 0 take tickets in this order; thread 1 increments, then thread 0 enters.
abbrev schedule : List ℕ
schedule = 1 ∷ 0 ∷ 0 ∷ 1 ∷ 1 ∷ 0 ∷ 1 ∷ 1 ∷ 0 ∷ []

schedule_ends :
    ((run schedule start).counter ≡ 1)
    × ((run schedule start).serving ≡ 1)
    × (num_inside (run schedule start).threads ≡ 1)
unfolding run increment_with_ticket_lock thread_at
schedule_ends = (refl, refl, refl)

ticket_lock_exclusion_example :
    let s = run schedule start in
    (num_inside s.threads ≤ 1)
    × ((j : ℕ) → num_with j s.threads ≤ 1)
    × (s.counter ≡ num_stored s.threads)
    × (s.ticket ≤ 4000000)
ticket_lock_exclusion_example = ticket_lock_exclusion schedule

ticket_lock_total_example :
    let s = run schedule start in
    ((k : ℕ) × (k < length s.threads) × (can_run s (get_or s.threads k no_thread) ≡ true))
    ⊎ (All (λ t. t.i ≡ increment_count) s.threads × (s.counter ≡ 4000000))
ticket_lock_total_example = ticket_lock_total schedule
