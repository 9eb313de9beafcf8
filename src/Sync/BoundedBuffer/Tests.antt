-- ===== src/Sync/BoundedBuffer/Tests.antt =====
-- Concrete runs of the bounded buffer, and the theorems applied to them.
use cp.Common.{ℕ, zero, suc, ◌≤◌, ◌<◌, ◌≡◌, refl, false, List, [], ◌∷◌, ◌++◌, All}
use cp.Sync.BoundedBuffer.{
  Step, producer_step, consumer_step, run, start, step, produce, consume, can_run, buffer_size,
  bounded_buffer,
}
use cp.Sync.BoundedBuffer.Ring.{items_from}
use cp.Sync.BoundedBuffer.ProducerConsumer.{
  num_items, producer_consumer, buffer_init, items_made, all_consumed,
}
use cp.Sync.BoundedBuffer.Runs.{produced_in_order, no_deadlock}

-- Both consumers wait; then the producers and the consumers take turns.
abbrev p_c : ℕ → ℕ → List Step → List Step
p_c p c es = producer_step p c ∷ consumer_step c p ∷ es

abbrev turns : List Step → List Step
turns es = p_c 0 0 (p_c 1 1 (p_c 2 0 (p_c 0 1 (p_c 1 0 (p_c 2 1 es)))))

abbrev schedule : List Step
schedule = consumer_step 0 0 ∷ consumer_step 1 0 ∷ turns (turns (turns []))

produced_in_order_example :
    let s = run bounded_buffer schedule (start bounded_buffer) in
    (s.count ≤ buffer_size)
    × (s.in_index < buffer_size)
    × (s.out_index < buffer_size)
    × (s.produced ≡ s.consumed ++ items_from s.count s.out_index s.buffer)
produced_in_order_example = produced_in_order bounded_buffer schedule

schedule_stuck :
    All
      (λ t. can_run bounded_buffer.items_per_producer t ≡ false)
      (run bounded_buffer schedule (start bounded_buffer)).producers
    × All
        (λ t. can_run bounded_buffer.items_per_consumer t ≡ false)
        (run bounded_buffer schedule (start bounded_buffer)).consumers
unfolding run step produce consume
schedule_stuck = ((refl, (refl, (refl, tt))), (refl, (refl, tt)))

no_deadlock_example :
    All
      (λ t. t.i ≡ bounded_buffer.items_per_producer)
      (run bounded_buffer schedule (start bounded_buffer)).producers
    × All
        (λ t. t.i ≡ bounded_buffer.items_per_consumer)
        (run bounded_buffer schedule (start bounded_buffer)).consumers
    × ((run bounded_buffer schedule (start bounded_buffer)).count ≡ 0)
no_deadlock_example = no_deadlock bounded_buffer schedule refl schedule_stuck.0 schedule_stuck.1

-- The producer fills the buffer and waits, the consumer empties it, and so on.
abbrev many : ℕ → Step → List Step → List Step
many zero e es = es
many (suc n) e es = e ∷ many n e es

abbrev fill_and_empty : List Step → List Step
fill_and_empty es = many 6 (producer_step 0 0) (many 6 (consumer_step 0 0) es)

abbrev one_each : List Step
one_each = fill_and_empty (fill_and_empty [])

one_each_stuck :
    All (λ t. can_run num_items t ≡ false) (run producer_consumer one_each buffer_init).producers
    × All (λ t. can_run num_items t ≡ false) (run producer_consumer one_each buffer_init).consumers
unfolding run step produce consume
one_each_stuck = ((refl, tt), (refl, tt))

all_consumed_example : (run producer_consumer one_each buffer_init).consumed ≡ items_made num_items
all_consumed_example = all_consumed one_each one_each_stuck.0 one_each_stuck.1
