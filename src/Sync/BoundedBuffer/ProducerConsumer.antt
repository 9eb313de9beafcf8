-- ===== src/Sync/BoundedBuffer/ProducerConsumer.antt =====
-- note4/thread_management/producer_consumer.c: the bounded buffer with its fields in a struct, for one
-- producer and one consumer.
use cp.Common.{
  ℕ, zero, suc, ◌+◌, ◌<◌, ◌≡◌, refl, sym, ap, ap₂, ◌∙◌, inl, inr, arith, false, ◌==◌, Bool-cases,
  List, [], ◌∷◌, ◌++◌, length, All,
}
use cp.Sync.BoundedBuffer.{
  Config, State, Thread, Step, producer_step, consumer_step, spurious_producer, spurious_consumer,
  thread_at, can_run, next_round, produce, consume, step, run, start, buffer_size,
}
use cp.Sync.BoundedBuffer.Ring.{items_from}
use cp.Sync.BoundedBuffer.Threads.{
  rounds, can_run-fits, Woke-signal, Stirred-spurious, Slept-cond_wait, Passed-next_round,
}
use cp.Sync.BoundedBuffer.Runs.{no_deadlock, produced_in_order}

abbrev pub num_items : ℕ
num_items = 10

abbrev pub producer_consumer : Config
producer_consumer = record {
  num_producers = 1;
  items_per_producer = num_items;
  num_consumers = 1;
  items_per_consumer = num_items;
  item_of = λ k i. i + 1;
}

-- `producer` and `consumer`, from one lock of `mutex` to its unlock or wait.
pub producer : ℕ → State → State
unfolding produce
producer w s = produce producer_consumer 0 w s

pub consumer : ℕ → State → State
unfolding consume
consumer w s = consume producer_consumer 0 w s

abbrev pub buffer_init : State
buffer_init = start producer_consumer

-- The first `n` items.
abbrev pub items_made : ℕ → List ℕ
items_made zero = []
items_made (suc n) = items_made n ++ (suc n ∷ [])

-- What the only producer has made.
record Made (s : State) : Type 0 where
  one : length s.producers ≡ 1
  made : s.produced ≡ items_made (rounds s.producers)

only_round :
    (k : ℕ) (ts : List Thread) → length ts ≡ 1 → k < length ts → (thread_at ts k).i ≡ rounds ts
only_round k [] one lt = absurd (omega (arith, one))
only_round zero (t ∷ []) one lt = omega arith
only_round zero (t ∷ u ∷ ts) one lt = absurd (omega (arith, one))
only_round (suc k) (t ∷ ts) one lt = absurd (omega (arith, one, lt))

Made-produce : (k w : ℕ) (s : State) → Made s → Made (produce producer_consumer k w s)
unfolding produce
Made-produce k w s m =
    let ts = s.producers in
    elim (Bool-cases (can_run num_items (thread_at ts k))) [
      | inl o ↦ elim (Bool-cases (s.count == buffer_size)) [
        | inl full ↦
            let slept = Slept-cond_wait num_items k ts o in
            rw (o, full)
              (record { one = slept.same_length ∙ m.one; made = rw slept.same_rounds m.made })
        | inr room ↦
            let passed = Passed-next_round num_items k ts o in
            let here = only_round k ts m.one (can_run-fits num_items k ts o) in
            let next : rounds (next_round k ts) ≡ suc (rounds ts) =
              omega (arith, passed.more_rounds) in
            let item : (thread_at ts k).i + 1 ≡ suc (rounds ts) = omega (arith, here) in
            rw (o, room)
              (record {
                one = passed.same_length ∙ m.one;
                made = rw next (ap₂ (λ l x. l ++ (x ∷ [])) m.made item);
              })
      ]
      | inr o ↦ rw o m
    ]

Made-consume : (k w : ℕ) (s : State) → Made s → Made (consume producer_consumer k w s)
unfolding consume
Made-consume k w s m = elim (Bool-cases (can_run num_items (thread_at s.consumers k))) [
  | inl o ↦ elim (Bool-cases (s.count == 0)) [
    | inl none_left ↦ rw (o, none_left) (record { one = m.one; made = m.made })
    | inr some_left ↦
        let woke = Woke-signal num_items w s.producers in
        rw (o, some_left)
          (record { one = woke.same_length ∙ m.one; made = rw woke.same_rounds m.made })
  ]
  | inr o ↦ rw o m
]

Made-step : (e : Step) (s : State) → Made s → Made (step producer_consumer e s)
unfolding step
Made-step (producer_step k w) s m = Made-produce k w s m
Made-step (consumer_step k w) s m = Made-consume k w s m
Made-step (spurious_producer k) s m =
    let e = Stirred-spurious num_items k s.producers in
    record { one = e.same_length ∙ m.one; made = rw e.same_rounds m.made }
Made-step (spurious_consumer k) s m = record { one = m.one; made = m.made }

Made-run : (es : List Step) (s : State) → Made s → Made (run producer_consumer es s)
unfolding run
Made-run [] s m = m
Made-run (e ∷ es) s m = Made-run es (step producer_consumer e s) (Made-step e s m)

all_ten : (ts : List Thread) → length ts ≡ 1 → All (λ t. t.i ≡ num_items) ts → rounds ts ≡ 10
all_ten [] one h = absurd (omega (arith, one))
all_ten (t ∷ []) one h = omega (arith, h.0)
all_ten (t ∷ u ∷ ts) one h = absurd (omega (arith, one))

append-nil : (xs : List ℕ) → xs ++ [] ≡ xs
append-nil [] = refl
append-nil (x ∷ xs) = ap (λ l. x ∷ l) (append-nil xs)

-- In every state that a run of producer_consumer.c reaches, the items consumed and then those in the
-- buffer are 1, 2, 3 and so on, in order and each once.
pub consumed_in_order :
    (es : List Step)
    → let s = run producer_consumer es buffer_init in
      s.consumed ++ items_from s.count s.out_index s.buffer ≡ items_made (rounds s.producers)
consumed_in_order es =
    let m = Made-run es buffer_init (record { one = refl; made = refl }) in
    sym (produced_in_order producer_consumer es).3 ∙ m.made

-- In every state that a run of producer_consumer.c reaches and in which neither thread can take a
-- step, the consumer has printed the items 1 to 10, in order.
pub all_consumed :
    (es : List Step)
    → All (λ t. can_run num_items t ≡ false) (run producer_consumer es buffer_init).producers
    → All (λ t. can_run num_items t ≡ false) (run producer_consumer es buffer_init).consumers
    → (run producer_consumer es buffer_init).consumed ≡ items_made num_items
all_consumed es hp hc =
    let s = run producer_consumer es buffer_init in
    let m = Made-run es buffer_init (record { one = refl; made = refl }) in
    let d = no_deadlock producer_consumer es refl hp hc in
    let left : items_from s.count s.out_index s.buffer ≡ [] =
      ap (λ n. items_from n s.out_index s.buffer) d.2 in
    sym (append-nil s.consumed)
    ∙ ap (λ l. s.consumed ++ l) (sym left)
    ∙ consumed_in_order es
    ∙ ap items_made (all_ten s.producers m.one d.0)
