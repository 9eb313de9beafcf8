-- ===== src/Sync/SemaphoreBuffer/Consumers.antt =====
-- Every step of a consumer keeps the counts.
use cp.Common.{
  get_or-fits, ℕ, ◌+◌, ◌-◌, ◌<◌, ◌≡◌, refl, ap, ◌∙◌, inl, inr, arith, ltb, leb, if◌then◌else◌,
  Bool-cases, [], ◌∷◌, length, length-append, length-set, total-set, get_or-le-total, set, get_or,
}
use cp.Sync.SemaphoreBuffer.{
  Program, total_items, ConsumerPlace, before_full, has_item, has_taken, before_count, finished,
  Consumer, State, no_consumer, move_consumer, previous, take_item, consumer_at,
}
use cp.Sync.SemaphoreBuffer.Buffer.{Buffer-take, Buffer-with}
use cp.Sync.SemaphoreBuffer.Invariant.{
  item_weight, taken_weight, count_weight, finished_weight, num_items, num_taken, num_counting,
  num_finished, Inv, counted-le,
}

module _ (p : Program) where
  abbrev pub there : State → ℕ → Consumer
  there s k = get_or s.consumers k no_consumer

  -- The counts after consumer `k` moves.
  record Turned (k : ℕ) (t : Consumer) (s : State) : Type 0 where
    items :
        num_items (set s.consumers k t) + item_weight (there s k).place
        ≡ num_items s.consumers + item_weight t.place
    taken :
        num_taken (set s.consumers k t) + taken_weight (there s k).place
        ≡ num_taken s.consumers + taken_weight t.place
    counting :
        num_counting (set s.consumers k t) + count_weight (there s k).place
        ≡ num_counting s.consumers + count_weight t.place
    done :
        num_finished (set s.consumers k t) + finished_weight (there s k).place
        ≡ num_finished s.consumers + finished_weight t.place
    same : length (set s.consumers k t) ≡ length s.consumers

  Turned-set : (k : ℕ) (t : Consumer) (s : State) → k < length s.consumers → Turned k t s
  Turned-set k t s lt = record {
    items = total-set (λ t. item_weight t.place) s.consumers k t no_consumer lt;
    taken = total-set (λ t. taken_weight t.place) s.consumers k t no_consumer lt;
    counting = total-set (λ t. count_weight t.place) s.consumers k t no_consumer lt;
    done = total-set (λ t. finished_weight t.place) s.consumers k t no_consumer lt;
    same = length-set s.consumers k t;
  }

  -- Positive before a consumer leaves its loop.
  abbrev going : Consumer → ℕ
  going t = 1 - finished_weight t.place

  is_there : (k : ℕ) (s : State) → finished_weight (there s k).place ≡ 0 → k < length s.consumers
  is_there k s h = get_or-fits going s.consumers k no_consumer refl (omega (arith, h))

  -- The section under `count_mutex`.
  Inv-counted :
      (k : ℕ) (v : ConsumerPlace) (s : State)
      → Inv p s
      → (there s k).place ≡ before_count
      → item_weight v ≡ 0
      → taken_weight v ≡ 0
      → count_weight v ≡ 0
      → finished_weight v ≡ (if leb (total_items p) (s.total_consumed + 1) then 1 else 0)
      → Inv p (
          move_consumer k
            (there s k).items_consumed
            v
            (record s { total_consumed = s.total_consumed + 1 }))
  Inv-counted k v s inv is vi vt vc vf =
      let t : Consumer = record { items_consumed = (there s k).items_consumed; place = v } in
      let f = is_there k s (ap finished_weight is) in
      let m = Turned-set k t s f in
      let one = get_or-le-total (λ t. count_weight t.place) s.consumers k no_consumer f in
      record {
        n = inv.n;
        buffer =
            Buffer-with p inv.n s.producers (set s.consumers k t) s.empty s.full
              (s.total_consumed + 1) s inv.buffer;
        slots = omega (arith, inv.slots, m.taken, ap taken_weight is, vt);
        items = omega (arith, inv.items, m.items, ap item_weight is, vi);
        counted = omega (
          arith,
          inv.counted,
          m.taken,
          m.counting,
          ap taken_weight is,
          ap count_weight is,
          vt,
          vc,
        );
        made = inv.made;
        sound = inv.sound;
        num_p = inv.num_p;
        num_c = m.same ∙ inv.num_c;
        last = ground (
          arith,
          inv.last,
          m.done,
          ap finished_weight is,
          vf,
          one,
          ap count_weight is,
          counted-le p s inv,
        );
      }

  pub Inv-consumer_at :
      (k : ℕ) (v : ConsumerPlace) (s : State)
      → Inv p s
      → (there s k).place ≡ v
      → Inv p (consumer_at p k (there s k).items_consumed v s)
  unfolding consumer_at
  Inv-consumer_at k before_full s inv is = elim (Bool-cases (ltb 0 s.full)) [
    | inl o ↦
        let t : Consumer = record {
          items_consumed = (there s k).items_consumed;
          place = has_item;
        } in
        let m = Turned-set k t s (is_there k s (ap finished_weight is)) in
        rw o (record {
          n = inv.n;
          buffer =
              Buffer-with p inv.n s.producers (set s.consumers k t) s.empty (s.full - 1)
                s.total_consumed s inv.buffer;
          slots = omega (arith, inv.slots, m.taken, ap taken_weight is);
          items = ground (arith, o, inv.items, m.items, ap item_weight is);
          counted =
              omega
                (arith, inv.counted, m.taken, m.counting, ap taken_weight is, ap count_weight is);
          made = inv.made;
          sound = inv.sound;
          num_p = inv.num_p;
          num_c = m.same ∙ inv.num_c;
          last = omega (arith, inv.last, m.done, ap finished_weight is);
        })
    | inr o ↦ rw o inv
  ]
  Inv-consumer_at k has_item s inv is =
      let t : Consumer = record {
        items_consumed = (there s k).items_consumed;
        place = has_taken;
      } in
      let f = is_there k s (ap finished_weight is) in
      let m = Turned-set k t s f in
      let one = get_or-le-total (λ t. item_weight t.place) s.consumers k no_consumer f in
      let pos : 0 < inv.n = omega (arith, one, ap item_weight is, inv.items) in
      let item = get_or s.buffer (previous p s.buffer_index) 0 in
      record {
        n = inv.n - 1;
        buffer =
            Buffer-with p (inv.n - 1) s.producers (set s.consumers k t) s.empty s.full
              s.total_consumed (take_item p s) (Buffer-take p inv.n s inv.buffer pos);
        slots = omega (arith, inv.slots, m.taken, ap taken_weight is, pos);
        items = omega (arith, inv.items, m.items, ap item_weight is, pos);
        counted = omega (
          arith,
          inv.counted,
          m.taken,
          m.counting,
          ap taken_weight is,
          ap count_weight is,
          length-append s.consumed (item ∷ []),
        );
        made = inv.made;
        sound = inv.sound;
        num_p = inv.num_p;
        num_c = m.same ∙ inv.num_c;
        last = omega (arith, inv.last, m.done, ap finished_weight is);
      }
  Inv-consumer_at k has_taken s inv is =
      let t : Consumer = record {
        items_consumed = (there s k).items_consumed + 1;
        place = before_count;
      } in
      let m = Turned-set k t s (is_there k s (ap finished_weight is)) in
      record {
        n = inv.n;
        buffer =
            Buffer-with p inv.n s.producers (set s.consumers k t) (s.empty + 1) s.full
              s.total_consumed s inv.buffer;
        slots = omega (arith, inv.slots, m.taken, ap taken_weight is);
        items = omega (arith, inv.items, m.items, ap item_weight is);
        counted =
            omega (arith, inv.counted, m.taken, m.counting, ap taken_weight is, ap count_weight is);
        made = inv.made;
        sound = inv.sound;
        num_p = inv.num_p;
        num_c = m.same ∙ inv.num_c;
        last = omega (arith, inv.last, m.done, ap finished_weight is);
      }
  Inv-consumer_at k before_count s inv is =
      elim (Bool-cases (leb (total_items p) (s.total_consumed + 1))) [
        | inl o ↦ rw o (Inv-counted k finished s inv is refl refl refl (rw o refl))
        | inr o ↦ rw o (Inv-counted k before_full s inv is refl refl refl (rw o refl))
      ]
  Inv-consumer_at k finished s inv is = inv
