-- ===== src/Sched/Multicore/Again.antt =====
-- What a simulation leaves alone, and that its result does not depend on what ran before.
use cp.Common.{
  ℕ, zero, suc, ◌+◌, ◌-◌, ◌%◌, ◌≡◌, refl, sym, ap, ◌∙◌, inl, inr, true, false, ltb, ◌==◌,
  Bool-cases, Option, none, some, List, [], ◌∷◌, map, length, set, get_or,
}
use cp.Sched.Multicore.{
  Process, Policy, State, max_cpus, simulation_time, no_process, simulate_cache_effects, run_unit,
  reset, process_at, put_back, set_up, dispatch, continue_with, cpu_body, run_cpu, run_cpus, tick,
  goes_on, sim_loop, distribute, begin, simulate,
}

map-reset-set :
    (ps : List Process) (i : ℕ) (v : Process)
    → reset v ≡ reset (get_or ps i no_process)
    → map reset (set ps i v) ≡ map reset ps
map-reset-set [] i v h = refl
map-reset-set (p ∷ ps) zero v h = ap (λ x. x ∷ map reset ps) h
map-reset-set (p ∷ ps) (suc i) v h = ap (λ l. reset p ∷ l) (map-reset-set ps i v h)

reset-run_unit : (time : ℕ) (p : Process) → reset (run_unit time p) ≡ reset p
reset-run_unit time p = elim (Bool-cases (p.remaining_time - 1 == 0)) [
  | inl o ↦ rw o refl
  | inr o ↦ rw o refl
]

pub length-reset : (ps : List Process) → length (map reset ps) ≡ length ps
length-reset [] = refl
length-reset (p ∷ ps) = ap suc (length-reset ps)

module _ {Q : Type 0} (P : Policy Q) where
  -- The state's processes without the columns that a simulation writes.
  abbrev given_of : State Q → List Process
  given_of s = map reset s.procs

  given_of-put_back :
      (cpu : ℕ) (s : State Q) (o : Option ℕ) → given_of (put_back P cpu s o) ≡ given_of s
  given_of-put_back cpu s none = refl
  given_of-put_back cpu s (some i) = elim (Bool-cases (ltb 0 (process_at P s i).remaining_time)) [
    | inl o ↦ rw o refl
    | inr o ↦ rw o refl
  ]

  given_of-set_up :
      (cpu : ℕ) (s : State Q) (o : Option ℕ) → given_of (set_up P cpu s o) ≡ given_of s
  given_of-set_up cpu s none = refl
  given_of-set_up cpu s (some i) =
      map-reset-set s.procs i (simulate_cache_effects cpu (process_at P s i)) refl

  given_of-dispatch : (cpu : ℕ) (s : State Q) → given_of (dispatch P cpu s) ≡ given_of s
  unfolding dispatch
  given_of-dispatch cpu s =
      let t = put_back P cpu s (s.cpus cpu).current_proc in
      let next = P.next_process cpu t.queue in
      given_of-set_up cpu (record t { queue = next.0 }) next.1
      ∙ given_of-put_back cpu s (s.cpus cpu).current_proc

  pub given_of-cpu_body :
      (cpu : ℕ) (s : State Q) (o : Option ℕ) → given_of (cpu_body P cpu s o) ≡ given_of s
  unfolding continue_with
  given_of-cpu_body cpu s none = given_of-dispatch cpu s
  given_of-cpu_body cpu s (some i) =
      let p = process_at P s i in
      elim (Bool-cases ((s.cpus cpu).time_slice == 0)) [
        | inl o ↦ rw o (given_of-dispatch cpu s)
        | inr o ↦ rw o (map-reset-set s.procs i (run_unit s.time p) (reset-run_unit s.time p))
      ]

  given_of-run_cpus : (left cpu : ℕ) (s : State Q) → given_of (run_cpus P left cpu s) ≡ given_of s
  unfolding run_cpus run_cpu
  given_of-run_cpus zero cpu s = refl
  given_of-run_cpus (suc left) cpu s =
      given_of-run_cpus left (cpu + 1) (run_cpu P cpu s)
      ∙ given_of-cpu_body cpu s (s.cpus cpu).current_proc

  pub given_of-tick : (s : State Q) → given_of (tick P s) ≡ given_of s
  unfolding tick
  given_of-tick s = given_of-run_cpus max_cpus 0 s

  given_of-sim_loop : (fuel : ℕ) (s : State Q) → given_of (sim_loop P fuel s) ≡ given_of s
  unfolding sim_loop
  given_of-sim_loop zero s = refl
  given_of-sim_loop (suc fuel) s =
      elim (goes_on P s)
        as (λ b.
          given_of (elim b as (λ c. State Q) [ true ↦ sim_loop P fuel (tick P s) | false ↦ s ])
          ≡ given_of s) [
            | true ↦ given_of-sim_loop fuel (tick P s) ∙ given_of-tick s
            | false ↦ refl
          ]

  given_of-distribute : (i : ℕ) (ps : List Process) (q : Q) → (distribute P i ps q).0 ≡ map reset ps
  unfolding distribute
  given_of-distribute i [] q = refl
  given_of-distribute i (p ∷ ps) q =
      ap (λ l. reset p ∷ l) (given_of-distribute (i + 1) ps (P.add_process (i % max_cpus) i q))

  map-reset-reset : (ps : List Process) → map reset (map reset ps) ≡ map reset ps
  map-reset-reset [] = refl
  map-reset-reset (p ∷ ps) = ap (λ l. reset p ∷ l) (map-reset-reset ps)

  distribute-reset :
      (i : ℕ) (ps : List Process) (q : Q) → distribute P i (map reset ps) q ≡ distribute P i ps q
  unfolding distribute
  distribute-reset i [] q = refl
  distribute-reset i (p ∷ ps) q =
      ap (λ r. (reset p ∷ r.0, r.1))
        (distribute-reset (i + 1) ps (P.add_process (i % max_cpus) i q))

  begin-reset : (ps : List Process) → begin P (map reset ps) ≡ begin P ps
  unfolding begin
  begin-reset ps = rw (distribute-reset 0 ps P.none_queued) refl

  pub given_of-begin : (ps : List Process) → given_of (begin P ps) ≡ map reset ps
  unfolding begin
  given_of-begin ps = rw (given_of-distribute 0 ps P.none_queued) (map-reset-reset ps)

  pub given_of-loop :
      (fuel : ℕ) (ps : List Process) → map reset (sim_loop P fuel (begin P ps)).procs ≡ map reset ps
  given_of-loop fuel ps = given_of-sim_loop fuel (begin P ps) ∙ given_of-begin ps

  given_of-simulate : (ps : List Process) → map reset (simulate P ps).procs ≡ map reset ps
  unfolding simulate
  given_of-simulate ps = given_of-loop simulation_time ps

  simulate-reset : (ps : List Process) → simulate P (map reset ps) ≡ simulate P ps
  unfolding simulate
  simulate-reset ps = ap (sim_loop P simulation_time) (begin-reset ps)

-- Whatever two policies are and whatever the processes are, a simulation that starts on what another
-- left ends in the very state in which it ends when it starts on the processes themselves.
pub simulate_after_simulate :
    {Q R : Type 0} (P : Policy Q) (P' : Policy R) (ps : List Process)
    → simulate P (simulate P' ps).procs ≡ simulate P ps
simulate_after_simulate P P' ps =
    sym (simulate-reset P (simulate P' ps).procs)
    ∙ ap (simulate P) (given_of-simulate P' ps)
    ∙ simulate-reset P ps
