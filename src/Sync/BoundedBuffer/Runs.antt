-- ===== src/Sync/BoundedBuffer/Runs.antt =====
-- What every run of note9/condition_variables/bounded_buffer.c does: in order, and without deadlock.
use native.Mathlib.Nat.{zero-mul, suc-mul}
use cp.Common.{
  sym, ap, ◌∙◌, ℕ, ◌*◌, ◌≤◌, ◌<◌, ◌≡◌, arith, false, List, [], ◌∷◌, ◌++◌, length, All, dec_lt,
}
use cp.Sync.BoundedBuffer.{Thread, Step, can_run, run, start, buffer_size, Config}
use cp.Sync.BoundedBuffer.Ring.{items_from}
use cp.Sync.BoundedBuffer.Threads.{num_asleep, Stuck-All, all_rounds}
use cp.Sync.BoundedBuffer.Invariant.{Inv-reached}

-- In every state that a run reaches, whatever the order of the threads and the choice of the ones
-- that the signals wake: `count` is within the buffer, both indices are inside it, and the items
-- produced are, in order, the items consumed and then the `count` items from `out` on.
pub produced_in_order :
    (cfg : Config) (es : List Step)
    → let s = run cfg es (start cfg) in
      (s.count ≤ buffer_size)
      × (s.in_index < buffer_size)
      × (s.out_index < buffer_size)
      × (s.produced ≡ s.consumed ++ items_from s.count s.out_index s.buffer)
produced_in_order cfg es =
    let r = (Inv-reached cfg es).ring in
    (r.count_fits, omega (arith, r.in_after), r.out_below, r.fifo)

rounds_in_all : (limit : ℕ) (ts : List Thread) → all_rounds limit ts ≡ length ts * limit
rounds_in_all limit [] = sym (zero-mul limit)
rounds_in_all limit (t ∷ ts) = omega (arith, rounds_in_all limit ts, suc-mul (length ts) limit)

same_rounds :
    (cfg : Config) (ps cs : List Thread)
    → cfg.num_producers * cfg.items_per_producer ≡ cfg.num_consumers * cfg.items_per_consumer
    → length ps ≡ cfg.num_producers
    → length cs ≡ cfg.num_consumers
    → all_rounds cfg.items_per_producer ps ≡ all_rounds cfg.items_per_consumer cs
same_rounds cfg ps cs e p c =
    rounds_in_all cfg.items_per_producer ps
    ∙ ap (λ n. n * cfg.items_per_producer) p
    ∙ e
    ∙ sym (ap (λ n. n * cfg.items_per_consumer) c)
    ∙ sym (rounds_in_all cfg.items_per_consumer cs)

-- If the producers make as many items as the consumers take: in every state that a run reaches and in
-- which no thread can take a step, every producer and every
-- consumer has done all its rounds and the buffer is empty: the threads do not deadlock.
pub no_deadlock :
    (cfg : Config) (es : List Step)
    → cfg.num_producers * cfg.items_per_producer ≡ cfg.num_consumers * cfg.items_per_consumer
    → All (λ t. can_run cfg.items_per_producer t ≡ false) (run cfg es (start cfg)).producers
    → All (λ t. can_run cfg.items_per_consumer t ≡ false) (run cfg es (start cfg)).consumers
    → All (λ t. t.i ≡ cfg.items_per_producer) (run cfg es (start cfg)).producers
      × All (λ t. t.i ≡ cfg.items_per_consumer) (run cfg es (start cfg)).consumers
      × ((run cfg es (start cfg)).count ≡ 0)
no_deadlock cfg es even hp hc =
    let s = run cfg es (start cfg) in
    let c = (Inv-reached cfg es).crew in
    let fits = (Inv-reached cfg es).ring.count_fits in
    let p = Stuck-All cfg.items_per_producer s.producers c.producers_sound hp in
    let q = Stuck-All cfg.items_per_consumer s.consumers c.consumers_sound hc in
    let total_p : all_rounds cfg.items_per_producer s.producers
        ≡ all_rounds cfg.items_per_consumer s.consumers =
      same_rounds cfg s.producers s.consumers even c.num_p c.num_c in
    let awake_p : num_asleep s.producers ≡ 0 = elim (dec_lt 0 (num_asleep s.producers)) [
      | yes g ↦
          let full : s.count ≡ 5 = omega (arith, c.producers_woken g, p.none_woken, fits) in
          let awake : num_asleep s.consumers ≡ 0 = elim (dec_lt 0 (num_asleep s.consumers)) [
            | yes f ↦ absurd (omega (arith, c.consumers_woken f, q.none_woken, full))
            | no f ↦ omega (arith, f)
          ] in
          absurd (omega (arith, full, (q.finished awake).1, total_p, c.balance, p.still_missing))
      | no g ↦ omega (arith, g)
    ] in
    let awake_q : num_asleep s.consumers ≡ 0 = elim (dec_lt 0 (num_asleep s.consumers)) [
      | yes g ↦ absurd (
          omega (
            arith,
            c.consumers_woken g,
            q.none_woken,
            q.still_missing,
            total_p,
            (p.finished awake_p).1,
            c.balance,
          ))
      | no g ↦ omega (arith, g)
    ] in
    (
      (p.finished awake_p).0,
      (q.finished awake_q).0,
      omega (arith, (p.finished awake_p).1, (q.finished awake_q).1, total_p, c.balance),
    )
