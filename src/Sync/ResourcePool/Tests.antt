-- ===== src/Sync/ResourcePool/Tests.antt =====
-- Runs of the resource pool.
use cp.Common.{◌+◌, ◌<◌, ◌≡◌, refl, arith, [], ◌∷◌, total, All}
use cp.Sync.ResourcePool.{Program, counting_semaphore, returned, run, start}
use cp.Sync.ResourcePool.Runs.{using, resource_pool_limit, resource_pool_all_served}

-- The fourth worker waits until another has released a resource.
fourth_waits :
    let s = run (0 ∷ 1 ∷ 2 ∷ 3 ∷ 0 ∷ 0 ∷ 3 ∷ 3 ∷ []) (start counting_semaphore) in
    (s.resource_pool ≡ 0) × (s.available ≡ 0 ∷ 0 ∷ [])
unfolding run
fourth_waits = (refl, refl)

resource_pool_limit_example :
    let s = run (0 ∷ 1 ∷ 0 ∷ 3 ∷ []) (start counting_semaphore) in
    (s.resource_pool + total using s.workers ≡ 3) × All (λ v. v < 3) s.available
resource_pool_limit_example = resource_pool_limit counting_semaphore (0 ∷ 1 ∷ 0 ∷ 3 ∷ [])

abbrev two_workers : Program
two_workers = record { num_threads = 2; resource_limit = 1 }

both_served :
    let s = run (1 ∷ 0 ∷ 1 ∷ 1 ∷ 0 ∷ 1 ∷ 0 ∷ 0 ∷ 0 ∷ []) (start two_workers) in
    All (λ w. w ≡ returned) s.workers × (s.resource_pool ≡ 1)
unfolding run
both_served =
    resource_pool_all_served two_workers (1 ∷ 0 ∷ 1 ∷ 1 ∷ 0 ∷ 1 ∷ 0 ∷ 0 ∷ 0 ∷ []) (omega arith)
      (refl, (refl, tt))
