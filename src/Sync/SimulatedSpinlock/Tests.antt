-- ===== src/Sync/SimulatedSpinlock/Tests.antt =====
-- Runs of the simulated spinlock.
use cp.Common.{ℕ, ◌≡◌, refl, arith, List, [], ◌∷◌, ◌++◌, map, replicate}
use cp.Sync.SimulatedSpinlock.{
  increment_counter, increment_with_backoff, testing, inside, run, start,
}
use cp.Sync.SimulatedSpinlock.Exclusion.{at_place, spinlock_no_exclusion}

-- When thread 0 has the lock, thread 1 goes round, and waits longer each time.
waits_longer :
    let s =
      run increment_with_backoff (0 ∷ 0 ∷ 1 ∷ 1 ∷ 1 ∷ 1 ∷ []) (start increment_with_backoff) in
    (map (λ t. t.backoff_time) s.threads ≡ 1 ∷ 4 ∷ 1 ∷ 1 ∷ []) × (s.flag ≡ 1)
unfolding run
waits_longer = (refl, refl)

spinlock_no_exclusion_example :
    (ks : List ℕ) × (ls : List ℕ) × ((run increment_counter ks (start increment_counter)).threads
      ≡ replicate 4 (at_place 0 inside))
    × ((run increment_counter (ks ++ ls) (start increment_counter)).threads
        ≡ replicate 4 (at_place 1 testing))
    × ((run increment_counter (ks ++ ls) (start increment_counter)).counter ≡ 1)
spinlock_no_exclusion_example = spinlock_no_exclusion increment_counter 3 refl (omega arith)
