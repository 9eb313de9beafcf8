-- ===== src/Sync/BoundedBuffer/ConditionExample.antt =====
-- note8/synchronization_locks/condition_variable_example.c, and the same file in
-- note8/lock_implementation: the bounded buffer for two producers and two consumers, with random
-- items.
use cp.Common.{ℕ, ◌%◌}
use cp.Sync.BoundedBuffer.{Config, State, produce, consume, start}

-- `rand k i` is what rand() returns to producer `k` in round `i`.
module _ (rand : ℕ → ℕ → ℕ) where
  abbrev pub condition_variable_example : Config
  condition_variable_example = record {
    num_producers = 2;
    items_per_producer = 20;
    num_consumers = 2;
    items_per_consumer = 20;
    item_of = λ k i. rand k i % 100;
  }

  pub example_producer : ℕ → ℕ → State → State
  unfolding produce
  example_producer k w s = produce condition_variable_example k w s

  pub example_consumer : ℕ → ℕ → State → State
  unfolding consume
  example_consumer k w s = consume condition_variable_example k w s

  abbrev pub example_start : State
  example_start = start condition_variable_example
