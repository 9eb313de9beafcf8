-- ===== src/Sync/SemaphoreBuffer/Tests.antt =====
-- Runs of the producers and consumers on semaphores.
use cp.Common.{ℕ, ◌+◌, ◌≤◌, ◌≡◌, refl, arith, List, [], ◌∷◌, length, occurs, take}
use cp.Sync.SemaphoreBuffer.{Program, semaphores, start, Step, producer_step, consumer_step, run}
use cp.Sync.SemaphoreBuffer.Invariant.{num_items, num_puts, num_finished}
use cp.Sync.SemaphoreBuffer.Idle.{num_before_full}
use cp.Sync.SemaphoreBuffer.Runs.{items_kept, consumers_left_waiting}

-- Producer 1 puts an item, producer 0 puts another, and consumer 0 takes one.
abbrev steps : List Step
steps =
    producer_step 1
    ∷ producer_step 1
    ∷ producer_step 0
    ∷ producer_step 1
    ∷ consumer_step 0
    ∷ producer_step 0
    ∷ consumer_step 0
    ∷ []

-- The item put last is taken first.
last_in_first_out :
    let s = run semaphores steps (start semaphores) in
    (s.produced ≡ 200 ∷ 100 ∷ []) × (s.consumed ≡ 100 ∷ []) × (s.buffer_index ≡ 1)
unfolding run
last_in_first_out = (refl, refl, refl)

items_kept_example :
    let s = run semaphores steps (start semaphores) in
    let n = s.full + num_items s.consumers + num_puts s.producers in
    (n ≤ 5)
    × (length s.produced ≡ length s.consumed + n)
    × ((j : ℕ) → occurs j s.produced ≡ occurs j s.consumed + occurs j (take n s.buffer))
items_kept_example = items_kept semaphores steps (omega arith)

-- One item, and two consumers.
abbrev small : Program
small = record { buffer_size = 1; num_producers = 1; num_consumers = 2; items_per_producer = 1 }

abbrev all_steps : List Step
all_steps =
    producer_step 0
    ∷ producer_step 0
    ∷ producer_step 0
    ∷ consumer_step 1
    ∷ consumer_step 1
    ∷ consumer_step 1
    ∷ consumer_step 1
    ∷ []

consumers_left_waiting_example :
    let s = run small all_steps (start small) in
    (length s.consumed ≡ 1)
    × (s.total_consumed ≡ 1)
    × (num_finished s.consumers ≡ 1)
    × (num_before_full s.consumers ≡ 1)
    × (s.full ≡ 0)
unfolding run
consumers_left_waiting_example =
    consumers_left_waiting small all_steps (omega arith) (omega arith) (omega arith) (refl, tt)
      (refl, (refl, tt))
