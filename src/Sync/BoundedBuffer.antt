-- ===== src/Sync/BoundedBuffer.antt =====
-- note9/condition_variables/bounded_buffer.c: producers and consumers on a circular buffer. A step is
-- what one thread does from where it gets `mutex` to where it gives it up, by pthread_mutex_unlock or
-- by waiting: `count`, `in`, `out` and `buffer` are only read and written there. A run is any
-- sequence of steps of any threads.
pub mod Ring
pub mod Threads
pub mod Invariant
pub mod Runs
pub mod ProducerConsumer
pub mod ConditionExample
pub mod Tests
use cp.Common.{
  ℕ, ◌+◌, ◌-◌, ◌*◌, ◌%◌, Bool, true, false, not, ◌&&◌, ltb, ◌==◌, if◌then◌else◌, List, [], ◌∷◌,
  ◌++◌, length, set, get_or, replicate,
}

abbrev pub buffer_size : ℕ
buffer_size = 5

-- Where a thread is: about to lock `mutex` at the start of a round, blocked in pthread_cond_wait, or
-- woken there and about to get `mutex` back.
pub data Place : Type 0 where
  ready : Place
  asleep : Place
  woken : Place

-- A thread in round `i` of its `for` loop.
pub record Thread : Type 0 where
  pub i : ℕ
  pub place : Place

abbrev pub is_asleep : Place → Bool
is_asleep ready = false
is_asleep asleep = true
is_asleep woken = false

-- `produced` and `consumed` are the items of the lines printed by the threads, in order.
pub record State : Type 0 where
  pub buffer : List ℕ
  pub count : ℕ
  pub in_index : ℕ
  pub out_index : ℕ
  pub producers : List Thread
  pub consumers : List Thread
  pub produced : List ℕ
  pub consumed : List ℕ

-- No thread has this number: nothing runs.
abbrev pub no_thread : Thread
no_thread = record { i = 0; place = asleep }

abbrev pub thread_at : List Thread → ℕ → Thread
thread_at ts k = get_or ts k no_thread

-- A thread that can get `mutex`: it has rounds left and is not blocked.
abbrev pub can_run : ℕ → Thread → Bool
can_run limit t = not (is_asleep t.place) && ltb t.i limit

abbrev pub wake_first : List Thread → List Thread
wake_first [] = []
wake_first (t ∷ ts) =
    if is_asleep t.place then record t { place = woken } ∷ ts else t ∷ wake_first ts

abbrev pub is_sleeper : ℕ → List Thread → Bool
is_sleeper k ts = ltb k (length ts) && is_asleep (thread_at ts k).place

abbrev pub wake : ℕ → List Thread → List Thread
wake k ts = set ts k (record (thread_at ts k) { place = woken })

-- pthread_cond_signal wakes one of the threads that wait, if any does: which one is not determined,
-- here by the number `w`. A signal that wakes more is this and spurious wake-ups (`Step`).
abbrev pub signal : ℕ → List Thread → List Thread
signal w ts = if is_sleeper w ts then wake w ts else wake_first ts

-- pthread_cond_wait.
abbrev pub cond_wait : ℕ → List Thread → List Thread
cond_wait k ts = set ts k (record (thread_at ts k) { place = asleep })

abbrev pub next_round : ℕ → List Thread → List Thread
next_round k ts = set ts k (record { i = (thread_at ts k).i + 1; place = ready })

-- How many threads there are, the rounds of their `for` loops, and the item that the producer with the
-- index `k` makes in round `i`.
pub record Config : Type 0 where
  pub num_producers : ℕ
  pub items_per_producer : ℕ
  pub num_consumers : ℕ
  pub items_per_consumer : ℕ
  pub item_of : ℕ → ℕ → ℕ

-- The id of the producer is `k + 1`.
abbrev pub bounded_buffer : Config
bounded_buffer = record {
  num_producers = 3;
  items_per_producer = 6;
  num_consumers = 2;
  items_per_consumer = 9;
  item_of = λ k i. (k + 1) * 100 + i;
}

-- One step: of a producer, of a consumer, or a wake-up with no signal, which POSIX allows.
pub data Step : Type 0 where
  producer_step : (k w : ℕ) → Step
  consumer_step : (k w : ℕ) → Step
  spurious_producer : ℕ → Step
  spurious_consumer : ℕ → Step

abbrev pub spurious : ℕ → List Thread → List Thread
spurious k ts = if is_sleeper k ts then wake k ts else ts

module _ (cfg : Config) where
  open cfg use {num_producers, items_per_producer, num_consumers, items_per_consumer, item_of}

  -- Lines 43-59 of `producer`; the signal wakes consumer `w`.
  pub produce : ℕ → ℕ → State → State
  produce k w s =
      let item = item_of k (thread_at s.producers k).i in
      if not (can_run items_per_producer (thread_at s.producers k))
      then s
      else if s.count == buffer_size
      then record s { producers = cond_wait k s.producers }
      else record s {
        buffer = set s.buffer s.in_index item;
        in_index = (s.in_index + 1) % buffer_size;
        count = s.count + 1;
        consumers = signal w s.consumers;
        producers = next_round k s.producers;
        produced = s.produced ++ (item ∷ []);
      }

  -- Lines 78-94 of `consumer`; the signal wakes producer `w`.
  pub consume : ℕ → ℕ → State → State
  consume k w s =
      let item = get_or s.buffer s.out_index 0 in
      if not (can_run items_per_consumer (thread_at s.consumers k))
      then s
      else if s.count == 0
      then record s { consumers = cond_wait k s.consumers }
      else record s {
        out_index = (s.out_index + 1) % buffer_size;
        count = s.count - 1;
        producers = signal w s.producers;
        consumers = next_round k s.consumers;
        consumed = s.consumed ++ (item ∷ []);
      }

  pub step : Step → State → State
  unfolding produce consume
  step (producer_step k w) s = produce k w s
  step (consumer_step k w) s = consume k w s
  step (spurious_producer k) s = record s { producers = spurious k s.producers }
  step (spurious_consumer k) s = record s { consumers = spurious k s.consumers }

  pub run : List Step → State → State
  unfolding step
  run [] s = s
  run (e ∷ es) s = run es (step e s)

  -- When `main` has created the threads.
  abbrev pub start : State
  start = record {
    buffer = replicate buffer_size 0;
    count = 0;
    in_index = 0;
    out_index = 0;
    producers = replicate num_producers (record { i = 0; place = ready });
    consumers = replicate num_consumers (record { i = 0; place = ready });
    produced = [];
    consumed = [];
  }
