-- ===== src/Sync/Locked/Tests.antt =====
-- Concrete runs of threads that increment under a lock, and the theorems applied to them.
use cp.Common.{ℕ, ◌*◌, ◌≤◌, ◌<◌, ◌≡◌, refl, ◌⊎◌, true, List, [], ◌∷◌, length, All, get_or}
use cp.Sync.Locked.{run, start, increment, thread_at, can_run, no_thread}
use cp.Sync.Locked.Locks.{mutex, spinlock, semaphore, mutex-IsLock, semaphore-IsLock}
use cp.Sync.Locked.Invariant.{num_inside, num_stored}
use cp.Sync.Locked.Runs.{locked_exclusion, locked_total}
use cp.Sync.Locked.Programs.{race_condition, binary_semaphore}

-- Thread 1 gets the lock, thread 0 waits; then thread 0 increments too.
abbrev schedule : List ℕ
schedule = 1 ∷ 0 ∷ 1 ∷ 0 ∷ 1 ∷ 1 ∷ 0 ∷ 0 ∷ 0 ∷ 0 ∷ []

schedule_ends :
    ((run semaphore binary_semaphore schedule (start semaphore binary_semaphore)).counter ≡ 2)
    × ((run spinlock race_condition schedule (start spinlock race_condition)).counter ≡ 2)
unfolding run increment thread_at
schedule_ends = (refl, refl)

locked_exclusion_example :
    let s = run semaphore binary_semaphore schedule (start semaphore binary_semaphore) in
    (num_inside s.threads ≤ 1) × (s.counter ≡ num_stored s.threads)
locked_exclusion_example = locked_exclusion semaphore 0 semaphore-IsLock binary_semaphore schedule

locked_total_example :
    let s = run mutex race_condition schedule (start mutex race_condition) in
    ((k : ℕ) × (k < length s.threads)
      × (can_run mutex race_condition s (get_or s.threads k (no_thread mutex race_condition))
          ≡ true))
    ⊎ (All (λ t. t.i ≡ 1000000) s.threads × (s.counter ≡ 4 * 1000000))
locked_total_example = locked_total mutex 1 mutex-IsLock race_condition schedule
