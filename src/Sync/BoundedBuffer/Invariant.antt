-- ===== src/Sync/BoundedBuffer/Invariant.antt =====
-- What holds in every state that a run of note9/condition_variables/bounded_buffer.c reaches.
use cp.Common.{
  append_assoc, ℕ, suc, ◌+◌, ◌-◌, ◌%◌, ◌≤◌, ◌<◌, ◌≡◌, ◌≢◌, refl, sym, ap, subst, ◌∙◌, inl, inr,
  arith, ◌==◌, Bool-cases, List, [], ◌∷◌, ◌++◌, length, All, length-set, set, get_or, replicate,
  zero,
}
use cp.Sync.BoundedBuffer.{
  Thread, State, Step, producer_step, consumer_step, spurious_producer, spurious_consumer,
  thread_at, can_run, cond_wait, Config, spurious, produce, consume, step, run, start, buffer_size,
  ready,
}
use cp.Sync.BoundedBuffer.Ring.{items_from, items_from-put}
use cp.Sync.BoundedBuffer.Threads.{
  num_asleep, num_woken, rounds, IsSound, Woke-signal, Stirred-spurious, Slept-cond_wait,
  Passed-next_round,
}

-- The buffer is a queue of `count` items: what was produced is what was consumed and then the items
-- in the buffer.
pub record Ring (s : State) : Type 0 where
  pub size : length s.buffer ≡ buffer_size
  pub out_below : s.out_index < buffer_size
  pub count_fits : s.count ≤ buffer_size
  pub in_after : s.in_index ≡ (s.out_index + s.count) % buffer_size
  pub fifo : s.produced ≡ s.consumed ++ items_from s.count s.out_index s.buffer

Ring-put :
    (s : State) (item : ℕ)
    → Ring s
    → s.count ≢ buffer_size
    → Ring (record s {
      buffer = set s.buffer s.in_index item;
      in_index = (s.in_index + 1) % buffer_size;
      count = s.count + 1;
      produced = s.produced ++ (item ∷ []);
    })
Ring-put s item r ne =
    let lt : s.count < buffer_size = omega (arith, r.count_fits, ne) in
    let put = items_from-put s.count s.out_index item s.buffer r.out_below lt r.size in
    let one : suc s.count ≡ s.count + 1 = omega arith in
    let put' : items_from (s.count + 1) s.out_index (set s.buffer s.in_index item)
        ≡ items_from s.count s.out_index s.buffer ++ (item ∷ []) =
      subst
        (λ k.
          items_from k s.out_index (set s.buffer s.in_index item)
          ≡ items_from s.count s.out_index s.buffer ++ (item ∷ []))
        one (rw (r.in_after) put) in
    record {
      size = length-set s.buffer s.in_index item ∙ r.size;
      out_below = r.out_below;
      count_fits = omega (arith, lt);
      in_after = omega (arith, r.in_after);
      fifo =
          ap (λ l. l ++ (item ∷ [])) r.fifo
          ∙ append_assoc s.consumed (items_from s.count s.out_index s.buffer) (item ∷ [])
          ∙ ap (λ l. s.consumed ++ l) (sym put');
    }

Ring-take :
    (s : State)
    → Ring s
    → s.count ≢ 0
    → Ring (record s {
      out_index = (s.out_index + 1) % buffer_size;
      count = s.count - 1;
      consumed = s.consumed ++ (get_or s.buffer s.out_index 0 ∷ []);
    })
Ring-take s r ne =
    let n = s.count - 1 in
    let e : s.count ≡ suc n = omega (arith, ne) in
    record {
      size = r.size;
      out_below = omega arith;
      count_fits = omega (arith, r.count_fits);
      in_after = omega (arith, r.in_after, ne);
      fifo =
          r.fifo
          ∙ ap (λ k. s.consumed ++ items_from k s.out_index s.buffer) e
          ∙ sym (
              append_assoc s.consumed (get_or s.buffer s.out_index 0 ∷ [])
                (items_from n ((s.out_index + 1) % buffer_size) s.buffer));
    }

Ring-threads :
    (s : State) (ps cs : List Thread) → Ring s → Ring (record s { producers = ps; consumers = cs })
Ring-threads s ps cs r = record {
  size = r.size;
  out_below = r.out_below;
  count_fits = r.count_fits;
  in_after = r.in_after;
  fifo = r.fifo;
}

-- Threads that have not started.
record Fresh (limit n : ℕ) (ts : List Thread) : Type 0 where
  sound : All (IsSound limit) ts
  no_rounds : rounds ts ≡ 0
  none_asleep : num_asleep ts ≡ 0
  as_many : length ts ≡ n

Fresh-replicate : (limit n : ℕ) → Fresh limit n (replicate n (record { i = 0; place = ready }))
Fresh-replicate limit zero = record {
  sound = tt;
  no_rounds = refl;
  none_asleep = refl;
  as_many = refl;
}
Fresh-replicate limit (suc n) =
    let f = Fresh-replicate limit n in
    record {
      sound = ((omega arith, omega arith), f.sound);
      no_rounds = omega (arith, f.no_rounds);
      none_asleep = omega (arith, f.none_asleep);
      as_many = omega (arith, f.as_many);
    }

module _ (cfg : Config) where
  open cfg use {num_producers, items_per_producer, num_consumers, items_per_consumer, item_of}

  -- The threads. When a producer waits, at least as many are woken as there is room for, and so with
  -- consumers and items: no wake-up is lost.
  pub record Crew (s : State) : Type 0 where
    pub producers_sound : All (IsSound items_per_producer) s.producers
    pub consumers_sound : All (IsSound items_per_consumer) s.consumers
    pub balance : rounds s.producers ≡ rounds s.consumers + s.count
    pub producers_woken : 0 < num_asleep s.producers → buffer_size ≤ s.count + num_woken s.producers
    pub consumers_woken : 0 < num_asleep s.consumers → s.count ≤ num_woken s.consumers
    pub num_p : length s.producers ≡ num_producers
    pub num_c : length s.consumers ≡ num_consumers

  pub record Inv (s : State) : Type 0 where
    pub ring : Ring s
    pub crew : Crew s

  Inv-produce : (k w : ℕ) (s : State) → Inv s → Inv (produce cfg k w s)
  unfolding produce
  Inv-produce k w s inv =
      let ts = s.producers in
      let c = inv.crew in
      elim (Bool-cases (can_run items_per_producer (thread_at ts k))) [
        | inl o ↦ elim (Bool-cases (s.count == buffer_size)) [
          | inl full ↦
              let slept = Slept-cond_wait items_per_producer k ts o in
              rw (o, full)
                (record {
                  ring = Ring-threads s (cond_wait k ts) s.consumers inv.ring;
                  crew = record {
                    producers_sound = slept.sound c.producers_sound;
                    consumers_sound = c.consumers_sound;
                    consumers_woken = c.consumers_woken;
                    num_c = c.num_c;
                    balance = omega (arith, c.balance, slept.same_rounds);
                    producers_woken = λ g. ground (arith, full);
                    num_p = omega (arith, c.num_p, slept.same_length);
                  };
                })
          | inr room ↦
              let passed = Passed-next_round items_per_producer k ts o in
              let woke = Woke-signal items_per_consumer w s.consumers in
              let ne : s.count ≢ buffer_size = ground (arith, room) in
              let r = Ring-put s (item_of k (thread_at ts k).i) inv.ring ne in
              rw (o, room)
                (record {
                  ring = record {
                    size = r.size;
                    out_below = r.out_below;
                    count_fits = r.count_fits;
                    in_after = r.in_after;
                    fifo = r.fifo;
                  };
                  crew = record {
                    producers_sound = passed.sound c.producers_sound;
                    consumers_sound = woke.sound c.consumers_sound;
                    balance = omega (arith, c.balance, passed.more_rounds, woke.same_rounds);
                    producers_woken = λ g. omega (
                      arith,
                      passed.few_less,
                      c.producers_woken (omega (arith, passed.same_asleep, g)),
                    );
                    consumers_woken = λ g.
                        let before : 0 < num_asleep s.consumers =
                          omega (arith, woke.same_sum, woke.no_less, g) in
                        omega (arith, woke.one_more before, c.consumers_woken before);
                    num_p = omega (arith, c.num_p, passed.same_length);
                    num_c = omega (arith, c.num_c, woke.same_length);
                  };
                })
        ]
        | inr o ↦ rw o inv
      ]

  Inv-consume : (k w : ℕ) (s : State) → Inv s → Inv (consume cfg k w s)
  unfolding consume
  Inv-consume k w s inv =
      let ts = s.consumers in
      let c = inv.crew in
      elim (Bool-cases (can_run items_per_consumer (thread_at ts k))) [
        | inl o ↦ elim (Bool-cases (s.count == 0)) [
          | inl none_left ↦
              let slept = Slept-cond_wait items_per_consumer k ts o in
              rw (o, none_left)
                (record {
                  ring = Ring-threads s s.producers (cond_wait k ts) inv.ring;
                  crew = record {
                    consumers_sound = slept.sound c.consumers_sound;
                    producers_sound = c.producers_sound;
                    producers_woken = c.producers_woken;
                    num_p = c.num_p;
                    balance = omega (arith, c.balance, slept.same_rounds);
                    consumers_woken = λ g. ground (arith, none_left);
                    num_c = omega (arith, c.num_c, slept.same_length);
                  };
                })
          | inr some_left ↦
              let passed = Passed-next_round items_per_consumer k ts o in
              let woke = Woke-signal items_per_producer w s.producers in
              let ne : s.count ≢ 0 = ground (arith, some_left) in
              let r = Ring-take s inv.ring ne in
              rw (o, some_left)
                (record {
                  ring = record {
                    size = r.size;
                    out_below = r.out_below;
                    count_fits = r.count_fits;
                    in_after = r.in_after;
                    fifo = r.fifo;
                  };
                  crew = record {
                    producers_sound = woke.sound c.producers_sound;
                    consumers_sound = passed.sound c.consumers_sound;
                    balance = omega (arith, c.balance, passed.more_rounds, woke.same_rounds, ne);
                    producers_woken = λ g.
                        let before : 0 < num_asleep s.producers =
                          omega (arith, woke.same_sum, woke.no_less, g) in
                        omega (arith, woke.one_more before, c.producers_woken before);
                    consumers_woken = λ g. omega (
                      arith,
                      passed.few_less,
                      c.consumers_woken (omega (arith, passed.same_asleep, g)),
                    );
                    num_p = omega (arith, c.num_p, woke.same_length);
                    num_c = omega (arith, c.num_c, passed.same_length);
                  };
                })
        ]
        | inr o ↦ rw o inv
      ]

  Inv-step : (e : Step) (s : State) → Inv s → Inv (step cfg e s)
  unfolding step
  Inv-step (producer_step k w) s inv = Inv-produce k w s inv
  Inv-step (consumer_step k w) s inv = Inv-consume k w s inv
  Inv-step (spurious_producer k) s inv =
      let c = inv.crew in
      let e = Stirred-spurious items_per_producer k s.producers in
      record {
        ring = Ring-threads s (spurious k s.producers) s.consumers inv.ring;
        crew = record {
          producers_sound = e.sound c.producers_sound;
          consumers_sound = c.consumers_sound;
          balance = omega (arith, c.balance, e.same_rounds);
          producers_woken = λ g.
              omega (arith, e.no_less, c.producers_woken (omega (arith, e.same_sum, e.no_less, g)));
          consumers_woken = c.consumers_woken;
          num_p = omega (arith, c.num_p, e.same_length);
          num_c = c.num_c;
        };
      }
  Inv-step (spurious_consumer k) s inv =
      let c = inv.crew in
      let e = Stirred-spurious items_per_consumer k s.consumers in
      record {
        ring = Ring-threads s s.producers (spurious k s.consumers) inv.ring;
        crew = record {
          producers_sound = c.producers_sound;
          consumers_sound = e.sound c.consumers_sound;
          balance = omega (arith, c.balance, e.same_rounds);
          producers_woken = c.producers_woken;
          consumers_woken = λ g.
              omega (arith, e.no_less, c.consumers_woken (omega (arith, e.same_sum, e.no_less, g)));
          num_p = c.num_p;
          num_c = omega (arith, c.num_c, e.same_length);
        };
      }

  Inv-run : (es : List Step) (s : State) → Inv s → Inv (run cfg es s)
  unfolding run
  Inv-run [] s inv = inv
  Inv-run (e ∷ es) s inv = Inv-run es (step cfg e s) (Inv-step e s inv)

  Inv-start : Inv (start cfg)
  Inv-start =
      let p = Fresh-replicate items_per_producer num_producers in
      let q = Fresh-replicate items_per_consumer num_consumers in
      record {
        ring = record {
          size = refl;
          out_below = omega arith;
          count_fits = omega arith;
          in_after = refl;
          fifo = refl;
        };
        crew = record {
          producers_sound = p.sound;
          consumers_sound = q.sound;
          balance = omega (arith, p.no_rounds, q.no_rounds);
          producers_woken = λ g. absurd (omega (arith, g, p.none_asleep));
          consumers_woken = λ g. absurd (omega (arith, g, q.none_asleep));
          num_p = p.as_many;
          num_c = q.as_many;
        };
      }

  pub Inv-reached : (es : List Step) → Inv (run cfg es (start cfg))
  Inv-reached es = Inv-run es (start cfg) Inv-start
