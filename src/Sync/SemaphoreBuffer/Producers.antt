-- ===== src/Sync/SemaphoreBuffer/Producers.antt =====
-- Every step of a producer keeps the counts.
use cp.Common.{
  get_or-fits, ℕ, ◌+◌, ◌-◌, ◌*◌, ◌<◌, ◌≡◌, ap, ◌∙◌, inl, inr, arith, ◌&&◌, ltb, Bool-cases, [], ◌∷◌,
  length, All-set, All-get_or, length-append, length-set, total-set, get_or-le-total, set, get_or,
}
use cp.Sync.SemaphoreBuffer.{
  Program, ProducerPlace, before_empty, has_slot, has_put, Producer, State, no_producer, put_item,
  producer_at,
}
use cp.Sync.SemaphoreBuffer.Buffer.{Buffer-put, Buffer-with}
use cp.Sync.SemaphoreBuffer.Invariant.{
  slot_weight, put_weight, num_slots, num_puts, rounds, IsSound, Inv,
}

module _ (p : Program) where
  abbrev pub here : State → ℕ → Producer
  here s k = get_or s.producers k (no_producer p)

  -- The counts after producer `k` moves.
  record Moved (k : ℕ) (t : Producer) (s : State) : Type 0 where
    slots :
        num_slots (set s.producers k t) + slot_weight (here s k).place
        ≡ num_slots s.producers + slot_weight t.place
    puts :
        num_puts (set s.producers k t) + put_weight (here s k).place
        ≡ num_puts s.producers + put_weight t.place
    made :
        rounds (set s.producers k t) + ((here s k).i + put_weight (here s k).place)
        ≡ rounds s.producers + (t.i + put_weight t.place)
    same : length (set s.producers k t) ≡ length s.producers

  Moved-set : (k : ℕ) (t : Producer) (s : State) → k < length s.producers → Moved k t s
  Moved-set k t s lt = record {
    slots = total-set (λ t. slot_weight t.place) s.producers k t (no_producer p) lt;
    puts = total-set (λ t. put_weight t.place) s.producers k t (no_producer p) lt;
    made = total-set (λ t. t.i + put_weight t.place) s.producers k t (no_producer p) lt;
    same = length-set s.producers k t;
  }

  -- Positive for a producer with something to do.
  abbrev busy : Producer → ℕ
  busy t = slot_weight t.place + put_weight t.place + (p.items_per_producer - t.i)

  fits : (k : ℕ) (s : State) → 0 < busy (here s k) → k < length s.producers
  fits k s h = get_or-fits busy s.producers k (no_producer p) (omega arith) h

  pub Inv-producer_at :
      (k : ℕ) (v : ProducerPlace) (s : State)
      → Inv p s
      → (here s k).place ≡ v
      → Inv p (producer_at p k (here s k).i v s)
  unfolding producer_at
  Inv-producer_at k before_empty s inv is =
      elim (Bool-cases (ltb (here s k).i p.items_per_producer && ltb 0 s.empty)) [
        | inl o ↦
            let lt : (here s k).i < p.items_per_producer = ground (arith, o) in
            let f = fits k s (omega (arith, lt)) in
            let t : Producer = record { i = (here s k).i; place = has_slot } in
            let m = Moved-set k t s f in
            rw o (record {
              n = inv.n;
              buffer =
                  Buffer-with p inv.n (set s.producers k t) s.consumers (s.empty - 1) s.full
                    s.total_consumed s inv.buffer;
              slots = ground (arith, o, inv.slots, m.slots, ap slot_weight is);
              items = omega (arith, inv.items, m.puts, ap put_weight is);
              counted = inv.counted;
              made = omega (arith, inv.made, m.made, ap put_weight is);
              sound =
                  All-set (IsSound p.items_per_producer) s.producers k t inv.sound
                    (omega (arith, lt));
              num_p = m.same ∙ inv.num_p;
              num_c = inv.num_c;
              last = inv.last;
            })
        | inr o ↦ rw o inv
      ]
  Inv-producer_at k has_slot s inv is =
      let i = (here s k).i in
      let item = (k + 1) * 100 + i in
      let t : Producer = record { i = i; place = has_put } in
      let f = fits k s (omega (arith, ap slot_weight is)) in
      let m = Moved-set k t s f in
      let o = All-get_or (IsSound p.items_per_producer) s.producers k (no_producer p) f inv.sound in
      let one = get_or-le-total (λ t. slot_weight t.place) s.producers k (no_producer p) f in
      let put =
        Buffer-put p inv.n item s inv.buffer (omega (arith, one, ap slot_weight is, inv.slots)) in
      record {
        n = inv.n + 1;
        buffer =
            Buffer-with p (inv.n + 1) (set s.producers k t) s.consumers s.empty s.full
              s.total_consumed (put_item p item s) put;
        slots = omega (arith, inv.slots, m.slots, ap slot_weight is);
        items = omega (arith, inv.items, m.puts, ap put_weight is);
        counted = inv.counted;
        made =
            omega (arith, inv.made, m.made, ap put_weight is, length-append s.produced (item ∷ []));
        sound =
            All-set (IsSound p.items_per_producer) s.producers k t inv.sound
              (omega (arith, o, ap slot_weight is));
        num_p = m.same ∙ inv.num_p;
        num_c = inv.num_c;
        last = inv.last;
      }
  Inv-producer_at k has_put s inv is =
      let t : Producer = record { i = (here s k).i + 1; place = before_empty } in
      let f = fits k s (omega (arith, ap put_weight is)) in
      let m = Moved-set k t s f in
      let o = All-get_or (IsSound p.items_per_producer) s.producers k (no_producer p) f inv.sound in
      record {
        n = inv.n;
        buffer =
            Buffer-with p inv.n (set s.producers k t) s.consumers s.empty (s.full + 1)
              s.total_consumed s inv.buffer;
        slots = omega (arith, inv.slots, m.slots, ap slot_weight is);
        items = omega (arith, inv.items, m.puts, ap put_weight is);
        counted = inv.counted;
        made = omega (arith, inv.made, m.made, ap put_weight is);
        sound =
            All-set (IsSound p.items_per_producer) s.producers k t inv.sound
              (omega (arith, o, ap put_weight is));
        num_p = m.same ∙ inv.num_p;
        num_c = inv.num_c;
        last = inv.last;
      }
