-- ===== src/Sync/SemaphoreBuffer.antt =====
-- note10/semaphores/producer_consumer_semaphores.c: producers and consumers on an array with the
-- semaphores `empty`, `full` and `mutex`. A step is one call of sem_wait or sem_post on `empty` or
-- `full`, or what a thread does from where it gets `mutex` or `count_mutex` to where it gives it up. A
-- run is any sequence of steps of any threads.
pub mod Buffer
pub mod Invariant
pub mod Producers
pub mod Consumers
pub mod Steps
pub mod Idle
pub mod Runs
pub mod Tests
use cp.Common.{
  ℕ, ◌+◌, ◌-◌, ◌*◌, ◌%◌, Bool, true, false, ◌&&◌, ltb, leb, if◌then◌else◌, List, [], ◌∷◌, ◌++◌, set,
  get_or, replicate,
}

pub record Program : Type 0 where
  pub buffer_size : ℕ
  pub num_producers : ℕ
  pub num_consumers : ℕ
  pub items_per_producer : ℕ

abbrev pub semaphores : Program
semaphores = record {
  buffer_size = 5;
  num_producers = 2;
  num_consumers = 3;
  items_per_producer = 8;
}

abbrev pub total_items : Program → ℕ
total_items p = p.num_producers * p.items_per_producer

-- A producer is about to wait for an empty slot, has one and is about to get `mutex`, or has put the
-- item and is about to post `full`.
pub data ProducerPlace : Type 0 where
  before_empty : ProducerPlace
  has_slot : ProducerPlace
  has_put : ProducerPlace

-- A consumer is about to wait for an item, has one and is about to get `mutex`, is about to post
-- `empty`, is about to get `count_mutex`, or has left its loop.
pub data ConsumerPlace : Type 0 where
  before_full : ConsumerPlace
  has_item : ConsumerPlace
  has_taken : ConsumerPlace
  before_count : ConsumerPlace
  finished : ConsumerPlace

-- In round `i` of its loop.
pub record Producer : Type 0 where
  pub i : ℕ
  pub place : ProducerPlace

pub record Consumer : Type 0 where
  pub items_consumed : ℕ
  pub place : ConsumerPlace

-- `produced` and `consumed` are the items of the lines printed by the threads, in order.
pub record State : Type 0 where
  pub buffer : List ℕ
  pub buffer_index : ℕ
  pub empty : ℕ
  pub full : ℕ
  pub total_consumed : ℕ
  pub producers : List Producer
  pub consumers : List Consumer
  pub produced : List ℕ
  pub consumed : List ℕ

-- No thread has this number.
abbrev pub no_consumer : Consumer
no_consumer = record { items_consumed = 0; place = finished }

abbrev pub move_producer : ℕ → ℕ → ProducerPlace → State → State
move_producer k i v s = record s { producers = set s.producers k (record { i = i; place = v }) }

abbrev pub move_consumer : ℕ → ℕ → ConsumerPlace → State → State
move_consumer k n v s = record s {
  consumers = set s.consumers k (record { items_consumed = n; place = v });
}

module _ (p : Program) where
  abbrev pub no_producer : Producer
  no_producer = record { i = p.items_per_producer; place = before_empty }

  -- Lines 49-52 of `producer`.
  abbrev pub put_item : ℕ → State → State
  put_item item s = record s {
    buffer = set s.buffer s.buffer_index item;
    buffer_index = (s.buffer_index + 1) % p.buffer_size;
    produced = s.produced ++ (item ∷ []);
  }

  -- The index before `buffer_index`: on ℕ, so 1 is taken away last.
  abbrev pub previous : ℕ → ℕ
  previous index = (index + p.buffer_size - 1) % p.buffer_size

  -- Lines 82-83 of `consumer`.
  abbrev pub take_item : State → State
  take_item s = record s {
    buffer_index = previous s.buffer_index;
    consumed = s.consumed ++ (get_or s.buffer (previous s.buffer_index) 0 ∷ []);
  }

  -- The next step of producer `k`, whose id is `k + 1`, in this round and at this place.
  pub producer_at : ℕ → ℕ → ProducerPlace → State → State
  producer_at k i before_empty s =
      if ltb i p.items_per_producer && ltb 0 s.empty
      then move_producer k i has_slot (record s { empty = s.empty - 1 })
      else s
  producer_at k i has_slot s = move_producer k i has_put (put_item ((k + 1) * 100 + i) s)
  producer_at k i has_put s = move_producer k (i + 1) before_empty (record s { full = s.full + 1 })

  -- The next step of consumer `k`.
  pub consumer_at : ℕ → ℕ → ConsumerPlace → State → State
  consumer_at k n before_full s =
      if ltb 0 s.full then move_consumer k n has_item (record s { full = s.full - 1 }) else s
  consumer_at k n has_item s = move_consumer k n has_taken (take_item s)
  consumer_at k n has_taken s =
      move_consumer k (n + 1) before_count (record s { empty = s.empty + 1 })
  consumer_at k n before_count s =
      let next = if leb (total_items p) (s.total_consumed + 1) then finished else before_full in
      move_consumer k n next (record s { total_consumed = s.total_consumed + 1 })
  consumer_at k n finished s = s

  pub producer : ℕ → State → State
  unfolding producer_at
  producer k s = let t = get_or s.producers k no_producer in producer_at k t.i t.place s

  pub consumer : ℕ → State → State
  unfolding consumer_at
  consumer k s =
      let t = get_or s.consumers k no_consumer in consumer_at k t.items_consumed t.place s

  -- After the semaphores and the threads have been made.
  abbrev pub start : State
  start = record {
    buffer = replicate p.buffer_size 0;
    buffer_index = 0;
    empty = p.buffer_size;
    full = 0;
    total_consumed = 0;
    producers = replicate p.num_producers (record { i = 0; place = before_empty });
    consumers = replicate p.num_consumers (record { items_consumed = 0; place = before_full });
    produced = [];
    consumed = [];
  }

  -- Whether a thread can take a step.
  abbrev pub producer_can_run : State → Producer → Bool
  producer_can_run s t = elim t.place [
    | before_empty ↦ ltb t.i p.items_per_producer && ltb 0 s.empty
    | has_slot ↦ true
    | has_put ↦ true
  ]

  abbrev pub consumer_can_run : State → Consumer → Bool
  consumer_can_run s t = elim t.place [
    | before_full ↦ ltb 0 s.full
    | has_item ↦ true
    | has_taken ↦ true
    | before_count ↦ true
    | finished ↦ false
  ]

-- A step of a producer or of a consumer.
pub data Step : Type 0 where
  producer_step : (k : ℕ) → Step
  consumer_step : (k : ℕ) → Step

module _ (p : Program) where
  pub step : Step → State → State
  unfolding producer consumer
  step (producer_step k) s = producer p k s
  step (consumer_step k) s = consumer p k s

  pub run : List Step → State → State
  unfolding step
  run [] s = s
  run (e ∷ es) s = run es (step e s)
