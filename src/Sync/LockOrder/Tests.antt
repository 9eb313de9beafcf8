-- ===== src/Sync/LockOrder/Tests.antt =====
-- Runs of the programs on deadlock.
use cp.Common.{ℕ, ◌<◌, ◌≡◌, refl, ◌⊎◌, true, false, List, [], ◌∷◌, map, length, All, get_or}
use cp.Sync.LockOrder.{acquire, release, no_thread, value, run, start, can_run}
use cp.Sync.LockOrder.Finish.{lock_order_progress}
use cp.Sync.LockOrder.Programs.{
  deadlock_main, deadlock_scenario, resources, consistent_order, safe_mode,
}
use cp.Sync.LockOrder.Safe.{consistent-IsOrdered, safe_mode_total, opposite_order_deadlock}

-- Thread 1, then thread 2, of note7/synchronization_locks/deadlock.c with one order of the locks.
abbrev one_after_the_other : List ℕ
one_after_the_other = 0 ∷ 0 ∷ 0 ∷ 0 ∷ 0 ∷ 0 ∷ 1 ∷ 1 ∷ 1 ∷ 1 ∷ 1 ∷ 1 ∷ []

resources_after :
    (run one_after_the_other (start 2 resources consistent_order)).variables ≡ 115 ∷ 200 ∷ []
unfolding run
resources_after = refl

-- With the opposite orders, thread 1 adds 10 and thread 2 adds 20, and then no thread can run.
scenario_stuck :
    let s = run (0 ∷ 0 ∷ 0 ∷ 1 ∷ 1 ∷ 1 ∷ 0 ∷ 1 ∷ []) deadlock_scenario in
    (s.variables ≡ 110 ∷ 220 ∷ []) × (map (can_run s) s.threads ≡ false ∷ false ∷ [])
unfolding run
scenario_stuck = (refl, refl)

lock_order_progress_example :
    let s = run (1 ∷ 1 ∷ 1 ∷ 0 ∷ []) (start 2 resources consistent_order) in
    ((k : ℕ) × (k < length s.threads) × (can_run s (get_or s.threads k no_thread) ≡ true))
    ⊎ (All (λ t. t.todo ≡ []) s.threads × ((l : ℕ) → l < 2 → value s l ≡ 1))
lock_order_progress_example =
    lock_order_progress 2 resources consistent_order (1 ∷ 1 ∷ 1 ∷ 0 ∷ []) consistent-IsOrdered

safe_mode_total_example :
    let s = run (0 ∷ 1 ∷ 0 ∷ 0 ∷ []) (start 2 (0 ∷ 0 ∷ []) safe_mode) in
    ((k : ℕ) × (k < length s.threads) × (can_run s (get_or s.threads k no_thread) ≡ true))
    ⊎ (All (λ t. t.todo ≡ []) s.threads
        × ((l : ℕ) → l < 2 → value s l ≡ 1)
        × ((j : ℕ) → j < 2 → get_or s.variables j 0 ≡ 20000))
safe_mode_total_example = safe_mode_total (0 ∷ 1 ∷ 0 ∷ 0 ∷ [])

opposite_order_deadlock_example : run (0 ∷ 1 ∷ 0 ∷ 1 ∷ 1 ∷ []) deadlock_main ≡ record {
  values = 0 ∷ 0 ∷ [];
  variables = [];
  threads =
      record { held = 0 ∷ []; todo = acquire 1 ∷ release 1 ∷ release 0 ∷ [] }
      ∷ record { held = 1 ∷ []; todo = acquire 0 ∷ release 0 ∷ release 1 ∷ [] }
      ∷ [];
}
opposite_order_deadlock_example = opposite_order_deadlock (0 ∷ 1 ∷ 1 ∷ [])
