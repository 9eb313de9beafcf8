-- ===== src/Sync/SemaphoreBuffer/Runs.antt =====
-- What holds in every run of note10/semaphores/producer_consumer_semaphores.c, and where it ends.
use cp.Common.{
  All-replicate, length-replicate, total-replicate, ℕ, ◌+◌, ◌-◌, ◌*◌, ◌≤◌, ◌<◌, ◌≡◌, refl, sym, ap,
  arith, false, List, length, All, occurs, take, dec_lt,
}
use cp.Sync.SemaphoreBuffer.{
  Program, total_items, before_empty, before_full, Producer, Consumer, start, producer_can_run,
  consumer_can_run, Step, run,
}
use cp.Sync.SemaphoreBuffer.Invariant.{
  slot_weight, put_weight, item_weight, taken_weight, count_weight, finished_weight, num_puts,
  num_items, num_finished, IsSound, Inv, counted-le, rounds-le,
}
use cp.Sync.SemaphoreBuffer.Idle.{IdleProducers-All, IdleConsumers-All, num_before_full}
use cp.Sync.SemaphoreBuffer.Steps.{Inv-run}
use native.Mathlib.Nat.{zero-mod}

abbrev first_round : Producer
first_round = record { i = 0; place = before_empty }

abbrev no_items : Consumer
no_items = record { items_consumed = 0; place = before_full }

module _ (p : Program) where
  Inv-reached : 0 < total_items p → (es : List Step) → Inv p (run p es (start p))
  Inv-reached some_items es = Inv-run p es (start p) (record {
    n = 0;
    buffer = record {
      as_long = length-replicate p.buffer_size 0;
      fits = omega arith;
      index = sym (zero-mod p.buffer_size);
      items = λ j. refl;
      balance = refl;
    };
    slots = omega (
      arith,
      total-replicate (λ (t : Producer). slot_weight t.place) p.num_producers first_round refl,
      total-replicate (λ (t : Consumer). taken_weight t.place) p.num_consumers no_items refl,
    );
    items = omega (
      arith,
      total-replicate (λ (t : Producer). put_weight t.place) p.num_producers first_round refl,
      total-replicate (λ (t : Consumer). item_weight t.place) p.num_consumers no_items refl,
    );
    counted = omega (
      arith,
      total-replicate (λ (t : Consumer). taken_weight t.place) p.num_consumers no_items refl,
      total-replicate (λ (t : Consumer). count_weight t.place) p.num_consumers no_items refl,
    );
    made = sym (
        total-replicate (λ (t : Producer). t.i + put_weight t.place) p.num_producers first_round
          refl);
    sound = All-replicate (IsSound p.items_per_producer) p.num_producers first_round (omega arith);
    num_p = length-replicate p.num_producers first_round;
    num_c = length-replicate p.num_consumers no_items;
    last = ground (
      arith,
      total-replicate (λ (t : Consumer). finished_weight t.place) p.num_consumers no_items refl,
      some_items,
    );
  })

  -- For any sizes, if there is an item to make: in every state that a run reaches, what has been
  -- consumed and what is in the array are together what has been produced, each item as often; the array
  -- has room for it; and as many items are in it as `full` and the threads between sem_wait and sem_post
  -- count.
  pub items_kept :
      (es : List Step)
      → 0 < total_items p
      → let s = run p es (start p) in
        let n = s.full + num_items s.consumers + num_puts s.producers in
        (n ≤ p.buffer_size)
        × (length s.produced ≡ length s.consumed + n)
        × ((j : ℕ) → occurs j s.produced ≡ occurs j s.consumed + occurs j (take n s.buffer))
  items_kept es some_items =
      let inv = Inv-reached some_items es in
      (
        omega (arith, inv.items, inv.buffer.fits),
        omega (arith, inv.items, inv.buffer.balance),
        rw (inv.items) inv.buffer.items,
      )

  -- For any sizes, if the array has a slot and there is a consumer and an item to make: when no thread
  -- can take a step, every item has been made, consumed and counted, and one consumer has left its loop;
  -- all the others wait for `full`, which is 0.
  pub consumers_left_waiting :
      (es : List Step)
      → 0 < total_items p
      → 0 < p.buffer_size
      → 0 < p.num_consumers
      → (let s = run p es (start p) in All (λ t. producer_can_run p s t ≡ false) s.producers)
      → (let s = run p es (start p) in All (λ t. consumer_can_run p s t ≡ false) s.consumers)
      → let s = run p es (start p) in
        (length s.consumed ≡ total_items p)
        × (s.total_consumed ≡ total_items p)
        × (num_finished s.consumers ≡ 1)
        × (num_before_full s.consumers ≡ p.num_consumers - 1)
        × (s.full ≡ 0)
  consumers_left_waiting es some_items some_slot some_consumer hp hc =
      let s = run p es (start p) in
      let inv = Inv-reached some_items es in
      let ps = IdleProducers-All p s s.producers hp in
      let cs = IdleConsumers-All p s s.consumers hc in
      let limit = ap (λ n. n * p.items_per_producer) inv.num_p in
      let all : s.total_consumed ≡ total_items p = elim (dec_lt 0 (num_before_full s.consumers)) [
        | yes g ↦
            let none_left = cs.none_left g in
            let room : 0 < s.empty = omega (
              arith, none_left, cs.items, cs.taken, ps.puts, ps.slots, inv.slots, inv.items,
              some_slot,
            ) in
            omega (
              arith,
              ps.done room,
              limit,
              inv.made,
              inv.buffer.balance,
              inv.counted,
              inv.items,
              none_left,
              cs.items,
              ps.puts,
              cs.taken,
              cs.counting,
              counted-le p s inv,
            )
        | no g ↦
            ground (arith, g, cs.others, inv.num_c, some_consumer, inv.last, counted-le p s inv)
      ] in
      let one : num_finished s.consumers ≡ 1 = ground (arith, inv.last, all) in
      let consumed : length s.consumed ≡ total_items p =
        omega (arith, inv.counted, cs.taken, cs.counting, all) in
      (
        consumed,
        all,
        one,
        omega (arith, one, cs.others, inv.num_c),
        omega (
          arith,
          consumed,
          inv.buffer.balance,
          inv.made,
          inv.items,
          limit,
          rounds-le p.items_per_producer s.producers inv.sound,
        ),
      )
