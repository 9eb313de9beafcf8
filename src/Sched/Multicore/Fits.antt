-- ===== src/Sched/Multicore/Fits.antt =====
-- The arrays of note7/multi_cpu_scheduling/multicore_scheduling.c that hold the queues: no write of a
-- simulation is beyond their end.
use cp.Common.{
  pigeonhole, All_of_occurs, ℕ, zero, suc, ◌+◌, ◌%◌, ◌≤◌, ◌<◌, ◌≡◌, refl, sym, ap, subst, ◌∙◌, inl,
  inr, arith, true, false, ltb, ◌==◌, if◌then◌else◌, Bool-cases, Option, none, some, List, [], ◌∷◌,
  map, length, All, occurs, ℕ_discrete,
}
use cp.Sched.Multicore.{
  Process, Policy, State, max_cpus, max_processes, simulation_time, reset, process_at, put_back,
  set_up, dispatch, continue_with, cpu_body, run_cpu, run_cpus, tick, goes_on, sim_loop, distribute,
  begin, simulate,
}
use cp.Sched.Multicore.Laws.{
  IsPolicy, current, unfinished, at-beyond, Inv, current-alive, Inv-cpu_body, Inv-tick,
}
use cp.Sched.Multicore.Simulate.{Inv-begin}
use cp.Sched.Multicore.Again.{length-reset, given_of-cpu_body, given_of-tick, given_of-begin}
use cp.Sched.Multicore.Policies.{sqms, mqms}
use cp.Sched.Multicore.Policies.Hold.{mqms-IsPolicy, sqms-IsPolicy, occurs_in, occurs-le-occurs_in}

-- The policy that checks the bound of the array, of MAX_PROCESSES entries, before it writes: a process
-- for which there is no room is dropped. `queue_of` is the queue that a CPU adds to.
abbrev pub in_bounds : {Q : Type 0} → (ℕ → Q → List ℕ) → Policy Q → Policy Q
in_bounds queue_of P = record {
  none_queued = P.none_queued;
  add_process =
      λ cpu i q. if ltb (length (queue_of cpu q)) max_processes then P.add_process cpu i q else q;
  next_process = P.next_process;
}

-- What is written as one array is one length.
length-of-reset : (ps qs : List Process) → map reset ps ≡ map reset qs → length ps ≡ length qs
length-of-reset ps qs e = omega (arith, length-reset ps, length-reset qs, ap length e)

module _ {Q : Type 0} (P : Policy Q) (held : ℕ → Q → ℕ) (law : IsPolicy P held)
    (queue_of : ℕ → Q → List ℕ)
    (within : (j cpu : ℕ) (q : Q) → cpu < max_cpus → occurs j (queue_of cpu q) ≤ held j q) where
  abbrev B : Policy Q
  B = in_bounds queue_of P

  -- There is room for a process below `n` that is in no queue, when each of the others is below `n` and
  -- in one queue only.
  add-fits :
      (n cpu i : ℕ) (q : Q)
      → cpu < max_cpus
      → n ≤ max_processes
      → i < n
      → held i q ≡ 0
      → ((j : ℕ) → held j q ≤ 1)
      → ((j : ℕ) → 0 < held j q → j < n)
      → B.add_process cpu i q ≡ P.add_process cpu i q
  add-fits n cpu i q h room lt new once below =
      let l = queue_of cpu q in
      let all : All (λ j. j < n) l =
        All_of_occurs (λ j. j < n) l (λ j g. below j (omega (arith, g, within j cpu q h))) in
      let one : (j : ℕ) → occurs j (i ∷ l) ≤ 1 = λ j. elim (ℕ_discrete j i) [
        | yes e ↦ subst (λ k. occurs k (i ∷ l) ≤ 1) (sym e) (ground (arith, within i cpu q h, new))
        | no ne ↦ ground (arith, ne, within j cpu q h, once j)
      ] in
      let le = pigeonhole n (i ∷ l) (lt, all) one in
      let fits : ltb (length l) max_processes ≡ true = ground (arith, le, room) in rw fits refl

  put_back-fits :
      (cpu : ℕ) (s : State Q) (o : Option ℕ)
      → cpu < max_cpus
      → Inv P held law s
      → length s.procs ≤ max_processes
      → current s.cpus cpu ≡ o
      → put_back B cpu s o ≡ put_back P cpu s o
  put_back-fits cpu s none h inv room e = refl
  put_back-fits cpu s (some i) h inv room e =
      let alive = current-alive P held law cpu i s h inv e in
      let positive : ltb 0 (process_at P s i).remaining_time ≡ true = ground (arith, alive.0) in
      let le : (j : ℕ) → held j s.queue ≤ unfinished (process_at P s j) =
        λ j. omega (arith, inv.placed j) in
      rw positive (
        ap (λ q. record s { queue = q })
          (add-fits (length s.procs) cpu i s.queue h room alive.2 alive.1
            (λ j. ground (arith, le j)) (λ j g. at-beyond s.procs j (omega (arith, le j, g)))))

  set_up-same : (cpu : ℕ) (s : State Q) (o : Option ℕ) → set_up B cpu s o ≡ set_up P cpu s o
  set_up-same cpu s none = refl
  set_up-same cpu s (some i) = refl

  dispatch-fits :
      (cpu : ℕ) (s : State Q)
      → cpu < max_cpus
      → Inv P held law s
      → length s.procs ≤ max_processes
      → dispatch B cpu s ≡ dispatch P cpu s
  unfolding dispatch
  dispatch-fits cpu s h inv room =
      let after : State Q → State Q = λ t.
        set_up B cpu (record t { queue = (P.next_process cpu t.queue).0 })
          (P.next_process cpu t.queue).1 in
      let t = put_back P cpu s (current s.cpus cpu) in
      ap after (put_back-fits cpu s (current s.cpus cpu) h inv room refl)
      ∙ set_up-same cpu (record t { queue = (P.next_process cpu t.queue).0 })
          (P.next_process cpu t.queue).1

  cpu_body-fits :
      (cpu : ℕ) (s : State Q) (o : Option ℕ)
      → cpu < max_cpus
      → Inv P held law s
      → length s.procs ≤ max_processes
      → cpu_body B cpu s o ≡ cpu_body P cpu s o
  unfolding continue_with
  cpu_body-fits cpu s none h inv room = dispatch-fits cpu s h inv room
  cpu_body-fits cpu s (some i) h inv room = elim (Bool-cases ((s.cpus cpu).time_slice == 0)) [
    | inl o ↦ rw o (dispatch-fits cpu s h inv room)
    | inr o ↦ rw o refl
  ]

  run_cpus-fits :
      (left cpu : ℕ) (s : State Q)
      → left + cpu ≤ max_cpus
      → Inv P held law s
      → length s.procs ≤ max_processes
      → run_cpus B left cpu s ≡ run_cpus P left cpu s
  unfolding run_cpus run_cpu
  run_cpus-fits zero cpu s h inv room = refl
  run_cpus-fits (suc left) cpu s h inv room =
      let lt : cpu < max_cpus = omega (arith, h) in
      let t = run_cpu P cpu s in
      let same = length-of-reset t.procs s.procs (given_of-cpu_body P cpu s (current s.cpus cpu)) in
      ap (run_cpus B left (cpu + 1)) (cpu_body-fits cpu s (current s.cpus cpu) lt inv room)
      ∙ run_cpus-fits left (cpu + 1) t (omega (arith, h))
          (Inv-cpu_body P held law cpu s (current s.cpus cpu) lt inv refl)
          (omega (arith, same, room))

  tick-fits :
      (s : State Q) → Inv P held law s → length s.procs ≤ max_processes → tick B s ≡ tick P s
  unfolding tick
  tick-fits s inv room =
      ap {A = State Q} (λ t. record t { time = t.time + 1 })
        (run_cpus-fits max_cpus 0 s (omega arith) inv room)

  sim_loop-fits :
      (fuel : ℕ) (s : State Q)
      → Inv P held law s
      → length s.procs ≤ max_processes
      → sim_loop B fuel s ≡ sim_loop P fuel s
  unfolding sim_loop
  sim_loop-fits zero s inv room = refl
  sim_loop-fits (suc fuel) s inv room =
      elim (goes_on P s)
        as (λ b.
          ◌≡◌ {A = State Q}
            (elim b as (λ c. State Q) [ true ↦ sim_loop B fuel (tick B s) | false ↦ s ])
            (elim b as (λ c. State Q) [ true ↦ sim_loop P fuel (tick P s) | false ↦ s ])) [
              | true ↦
                  let same = length-of-reset (tick P s).procs s.procs (given_of-tick P s) in
                  ap (sim_loop B fuel) (tick-fits s inv room)
                  ∙ sim_loop-fits fuel (tick P s) (Inv-tick P held law s inv)
                      (omega (arith, same, room))
              | false ↦ refl
            ]

  distribute-fits :
      (i : ℕ) (ps : List Process) (q : Q)
      → i + length ps ≤ max_processes
      → ((j : ℕ) → held j q ≡ (if ltb j i then 1 else 0))
      → distribute B i ps q ≡ distribute P i ps q
  unfolding distribute
  distribute-fits i [] q room h = refl
  distribute-fits i (p ∷ ps) q room h =
      let q' = P.add_process (i % max_cpus) i q in
      let fits =
        add-fits (i + 1) (i % max_cpus) i q (omega arith) (omega (arith, room)) (omega arith)
          (ground (arith, h i)) (λ j. ground (arith, h j)) (λ j g. ground (arith, h j, g)) in
      ap (λ q. let r = distribute B (i + 1) ps q in (reset p ∷ r.0, r.1)) fits
      ∙ ap (λ r. (reset p ∷ r.0, r.1))
          (distribute-fits (i + 1) ps q' (omega (arith, room))
            (λ j. ground (arith, h j, law.held-add j (i % max_cpus) i q (omega arith))))

  simulate-fits :
      (ps : List Process)
      → All (λ p. 0 < p.burst_time) ps
      → length ps ≤ max_processes
      → simulate B ps ≡ simulate P ps
  unfolding simulate begin
  simulate-fits ps h room =
      let all =
        distribute-fits 0 ps P.none_queued (omega (arith, room))
          (λ j. ground (arith, law.held-none j)) in
      let same = length-of-reset (begin P ps).procs ps (given_of-begin P ps) in
      ap {A = List Process × Q}
        (λ r. sim_loop B simulation_time (record {
          procs = r.0;
          queue = r.1;
          cpus = λ _. record { current_proc = none; time_slice = 0 };
          time = 0;
          completed = 0;
        }))
        all
      ∙ sim_loop-fits simulation_time (begin P ps) (Inv-begin P held law ps h)
          (omega (arith, same, room))

-- For at most MAX_PROCESSES processes, each with work, the bounds of `global_queue` and of `cpu_queue` make
-- no difference: `simulate_sqms` and `simulate_mqms` end in the states in which they end when every
-- write to a queue, at the start and in the middle of a round of the CPUs too, is left out unless its
-- index is within the array.
pub queue_fits :
    (ps : List Process)
    → All (λ p. 0 < p.burst_time) ps
    → length ps ≤ max_processes
    → (simulate (in_bounds (λ cpu q. q) sqms) ps ≡ simulate sqms ps)
      × (simulate (in_bounds (λ cpu q. q cpu) mqms) ps ≡ simulate mqms ps)
queue_fits ps h room = (
  simulate-fits sqms occurs sqms-IsPolicy (λ cpu q. q) (λ j cpu q lt. omega arith) ps h room,
  simulate-fits mqms occurs_in mqms-IsPolicy (λ cpu q. q cpu)
      (λ j cpu q lt. occurs-le-occurs_in j cpu q lt) ps h room,
)
