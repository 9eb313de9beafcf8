-- ===== src/Sync/Unlocked/Tests.antt =====
-- Concrete runs of threads with no lock, and the theorems applied to them.
use cp.Common.{ℕ, ◌≤◌, min, ◌≡◌, refl, List, [], ◌∷◌, All}
use cp.Sync.Unlocked.{run, start, worker, thread_at, expected_value, analyze_race_condition}
use cp.Sync.Unlocked.Runs.{num_stored, unlocked_bounds}
use cp.Sync.Unlocked.Lost.{in_step, half_lost}

-- Thread 1 stores what it loaded before thread 0 stored twice.
abbrev schedule : List ℕ
schedule = 1 ∷ 0 ∷ 0 ∷ 0 ∷ 0 ∷ 1 ∷ []

schedule_ends :
    ((run 1000 schedule (start 2)).counter ≡ 1)
    × (num_stored (run 1000 schedule (start 2)).threads ≡ 3)
unfolding run worker thread_at
schedule_ends = (refl, refl)

unlocked_bounds_example :
    let s = run 1000 schedule (start 2) in
    (s.counter ≤ num_stored s.threads) × (min 1 (num_stored s.threads) ≤ s.counter)
unlocked_bounds_example = unlocked_bounds 1000 2 schedule

half_lost_example :
    let s = run 1000 (in_step 1000) (start 2) in
    All (λ t. t.i ≡ 1000) s.threads
    × (analyze_race_condition (expected_value 1000) s.counter ≡ 1000)
half_lost_example = half_lost 1000
