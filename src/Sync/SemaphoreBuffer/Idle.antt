-- ===== src/Sync/SemaphoreBuffer/Idle.antt =====
-- What the counts are when no producer, or no consumer, can take a step.
use cp.Common.{
  ℕ, ◌+◌, ◌*◌, ◌≤◌, ◌<◌, ◌≡◌, refl, arith, false, List, [], ◌∷◌, length, total, All, dec_lt,
}
use cp.Sync.SemaphoreBuffer.{
  Program, ProducerPlace, before_empty, has_slot, has_put, ConsumerPlace, before_full, has_item,
  has_taken, before_count, finished, Producer, Consumer, State, producer_can_run, consumer_can_run,
}
use cp.Sync.SemaphoreBuffer.Invariant.{
  slot_weight, put_weight, item_weight, taken_weight, count_weight, finished_weight, num_slots,
  num_puts, rounds, num_items, num_taken, num_counting, num_finished,
}

-- The consumers that wait for `full`.
abbrev pub full_weight : ConsumerPlace → ℕ
full_weight before_full = 1
full_weight has_item = 0
full_weight has_taken = 0
full_weight before_count = 0
full_weight finished = 0

abbrev pub num_before_full : List Consumer → ℕ
num_before_full ts = total (λ t. full_weight t.place) ts

pub record IdleProducers (p : Program) (s : State) (ts : List Producer) : Type 0 where
  pub slots : num_slots ts ≡ 0
  pub puts : num_puts ts ≡ 0
  pub done : 0 < s.empty → length ts * p.items_per_producer ≤ rounds ts

producer_idle :
    (p : Program) (s : State) (i : ℕ) (v : ProducerPlace)
    → producer_can_run p s (record { i = i; place = v }) ≡ false
    → (slot_weight v ≡ 0)
      × (put_weight v ≡ 0)
      × (0 < s.empty → p.items_per_producer ≤ i + put_weight v)
producer_idle p s i before_empty h = (refl, refl, λ g. ground (arith, h, g))
producer_idle p s i has_slot h = absurd (cc h)
producer_idle p s i has_put h = absurd (cc h)

pub IdleProducers-All :
    (p : Program) (s : State) (ts : List Producer)
    → All (λ t. producer_can_run p s t ≡ false) ts
    → IdleProducers p s ts
IdleProducers-All p s [] h = record { slots = refl; puts = refl; done = λ g. omega arith }
IdleProducers-All p s (t ∷ ts) h =
    let one = producer_idle p s t.i t.place h.0 in
    let rest = IdleProducers-All p s ts h.1 in
    record {
      slots = omega (arith, one.0, rest.slots);
      puts = omega (arith, one.1, rest.puts);
      done = λ g. omega (arith, one.2 g, rest.done g);
    }

pub record IdleConsumers (s : State) (ts : List Consumer) : Type 0 where
  pub items : num_items ts ≡ 0
  pub taken : num_taken ts ≡ 0
  pub counting : num_counting ts ≡ 0
  pub others : num_before_full ts + num_finished ts ≡ length ts
  pub none_left : 0 < num_before_full ts → s.full ≡ 0

consumer_idle :
    (p : Program) (s : State) (n : ℕ) (v : ConsumerPlace)
    → consumer_can_run p s (record { items_consumed = n; place = v }) ≡ false
    → (item_weight v ≡ 0)
      × (taken_weight v ≡ 0)
      × (count_weight v ≡ 0)
      × (full_weight v + finished_weight v ≡ 1)
      × (0 < full_weight v → s.full ≡ 0)
consumer_idle p s n before_full h = (refl, refl, refl, refl, λ g. ground (arith, h))
consumer_idle p s n has_item h = absurd (cc h)
consumer_idle p s n has_taken h = absurd (cc h)
consumer_idle p s n before_count h = absurd (cc h)
consumer_idle p s n finished h = (refl, refl, refl, refl, λ g. absurd (omega (arith, g)))

pub IdleConsumers-All :
    (p : Program) (s : State) (ts : List Consumer)
    → All (λ t. consumer_can_run p s t ≡ false) ts
    → IdleConsumers s ts
IdleConsumers-All p s [] h = record {
  items = refl;
  taken = refl;
  counting = refl;
  others = refl;
  none_left = λ g. absurd (omega (arith, g));
}
IdleConsumers-All p s (t ∷ ts) h =
    let one = consumer_idle p s t.items_consumed t.place h.0 in
    let rest = IdleConsumers-All p s ts h.1 in
    record {
      items = omega (arith, one.0, rest.items);
      taken = omega (arith, one.1, rest.taken);
      counting = omega (arith, one.2, rest.counting);
      others = omega (arith, one.3, rest.others);
      none_left = λ g. elim (dec_lt 0 (full_weight t.place)) [
        | yes y ↦ one.4 y
        | no y ↦ rest.none_left (omega (arith, g, y))
      ];
    }
