-- ===== src/Sched/Multicore/Simulate.antt =====
-- The simulations from start to end: `begin` establishes the invariant, and the loop ends.
use cp.Common.{
  ℕ, zero, suc, ◌+◌, ◌%◌, ◌≤◌, ◌<◌, ◌≡◌, refl, sym, subst, ◌∙◌, inl, inr, arith, true, false, ◌&&◌,
  ltb, leb, ◌==◌, if◌then◌else◌, Bool-cases, Option, none, some, List, [], ◌∷◌, length, total, All,
  get_or,
}
use cp.Sched.Multicore.{
  Process, Policy, State, max_cpus, simulation_time, no_process, process_at, put_back, set_up,
  dispatch, continue_with, cpu_body, run_cpu, run_cpus, tick, goes_on, sim_loop, distribute, begin,
  simulate,
}
use cp.Sched.Multicore.Laws.{IsPolicy, current, unfinished, Inv, Inv-sim_loop}

module _ {Q : Type 0} (P : Policy Q) where
  time-put_back : (cpu : ℕ) (s : State Q) (o : Option ℕ) → (put_back P cpu s o).time ≡ s.time
  time-put_back cpu s none = refl
  time-put_back cpu s (some i) = elim (Bool-cases (ltb 0 (process_at P s i).remaining_time)) [
    | inl o ↦ rw o refl
    | inr o ↦ rw o refl
  ]

  time-set_up : (cpu : ℕ) (s : State Q) (o : Option ℕ) → (set_up P cpu s o).time ≡ s.time
  time-set_up cpu s none = refl
  time-set_up cpu s (some i) = refl

  time-dispatch : (cpu : ℕ) (s : State Q) → (dispatch P cpu s).time ≡ s.time
  unfolding dispatch
  time-dispatch cpu s =
      let t = put_back P cpu s (s.cpus cpu).current_proc in
      let next = P.next_process cpu t.queue in
      time-set_up cpu (record t { queue = next.0 }) next.1
      ∙ time-put_back cpu s (s.cpus cpu).current_proc

  time-cpu_body : (cpu : ℕ) (s : State Q) (o : Option ℕ) → (cpu_body P cpu s o).time ≡ s.time
  unfolding continue_with
  time-cpu_body cpu s none = time-dispatch cpu s
  time-cpu_body cpu s (some i) = elim (Bool-cases ((s.cpus cpu).time_slice == 0)) [
    | inl o ↦ rw o (time-dispatch cpu s)
    | inr o ↦ rw o refl
  ]

  time-run_cpus : (left cpu : ℕ) (s : State Q) → (run_cpus P left cpu s).time ≡ s.time
  unfolding run_cpus run_cpu
  time-run_cpus zero cpu s = refl
  time-run_cpus (suc left) cpu s =
      time-run_cpus left (cpu + 1) (run_cpu P cpu s) ∙ time-cpu_body cpu s (current s.cpus cpu)

  time-tick : (s : State Q) → (tick P s).time ≡ s.time + 1
  unfolding tick
  time-tick s = omega (arith, time-run_cpus max_cpus 0 s)

  -- With as much fuel as there is time left, the loop ends by its own test, in time.
  sim_loop_ends :
      (fuel : ℕ) (s : State Q)
      → simulation_time ≤ fuel + s.time
      → s.time ≤ simulation_time
      → (goes_on P (sim_loop P fuel s) ≡ false) × ((sim_loop P fuel s).time ≤ simulation_time)
  unfolding sim_loop
  sim_loop_ends zero s h g = (ground (arith, h), g)
  sim_loop_ends (suc fuel) s h g = elim (Bool-cases (goes_on P s)) [
    | inl o ↦
        let before : s.time < simulation_time = ground (arith, o) in
        let next =
          sim_loop_ends fuel (tick P s) (omega (arith, h, time-tick s))
            (omega (arith, before, time-tick s)) in
        subst
          (λ b.
            let t = elim b as (λ c. State Q) [ true ↦ sim_loop P fuel (tick P s) | false ↦ s ] in
            (goes_on P t ≡ false) × (t.time ≤ simulation_time))
          (sym o) next
    | inr o ↦
        subst
          (λ b.
            let t = elim b as (λ c. State Q) [ true ↦ sim_loop P fuel (tick P s) | false ↦ s ] in
            (goes_on P t ≡ false) × (t.time ≤ simulation_time))
          (sym o) (o, g)
  ]

module _ {Q : Type 0} (P : Policy Q) (held : ℕ → Q → ℕ) (law : IsPolicy P held) where
  held-distribute :
      (i j : ℕ) (ps : List Process) (q : Q)
      → held j (distribute P i ps q).1
        ≡ held j q + (if leb i j && ltb j (i + length ps) then 1 else 0)
  unfolding distribute
  held-distribute i j [] q = ground arith
  held-distribute i j (p ∷ ps) q =
      let q' = P.add_process (i % max_cpus) i q in
      ground
        (arith, held-distribute (i + 1) j ps q', law.held-add j (i % max_cpus) i q (omega arith))

  distribute-unfinished :
      (i j : ℕ) (ps : List Process) (q : Q)
      → All (λ p. 0 < p.burst_time) ps
      → unfinished (get_or (distribute P i ps q).0 j no_process)
        ≡ (if ltb j (length ps) then 1 else 0)
  unfolding distribute
  distribute-unfinished i j [] q h = ground arith
  distribute-unfinished i zero (p ∷ ps) q h = ground (arith, h.0)
  distribute-unfinished i (suc j) (p ∷ ps) q h =
      ground (arith, distribute-unfinished (i + 1) j ps (P.add_process (i % max_cpus) i q) h.1)

  distribute-total :
      (i : ℕ) (ps : List Process) (q : Q)
      → All (λ p. 0 < p.burst_time) ps
      → (total unfinished (distribute P i ps q).0 ≡ length ps)
        × (length (distribute P i ps q).0 ≡ length ps)
  unfolding distribute
  distribute-total i [] q h = (refl, refl)
  distribute-total i (p ∷ ps) q h =
      let rest = distribute-total (i + 1) ps (P.add_process (i % max_cpus) i q) h.1 in
      (ground (arith, rest.0, h.0), omega (arith, rest.1))

  pub Inv-begin : (ps : List Process) → All (λ p. 0 < p.burst_time) ps → Inv P held law (begin P ps)
  unfolding begin
  Inv-begin ps h = record {
    placed = λ j. ground (
      arith,
      held-distribute 0 j ps P.none_queued,
      law.held-none j,
      distribute-unfinished 0 j ps P.none_queued h,
    );
    counted = omega (
      arith,
      (distribute-total 0 ps P.none_queued h).0,
      (distribute-total 0 ps P.none_queued h).1,
    );
  }

  -- For processes that have work, under any policy that keeps what it is given: when the simulation
  -- ends, its loop condition is false, and every process is either completed, and counted so, or
  -- stands exactly once in a queue or on a CPU.
  pub simulate-Inv :
      (ps : List Process)
      → All (λ p. 0 < p.burst_time) ps
      → Inv P held law (simulate P ps) × (goes_on P (simulate P ps) ≡ false)
  unfolding simulate begin
  simulate-Inv ps h = (
    Inv-sim_loop P held law simulation_time (begin P ps) (Inv-begin ps h),
    (sim_loop_ends P simulation_time (begin P ps) (omega arith) (omega arith)).0,
  )
