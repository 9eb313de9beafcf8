-- ===== src/Sched/Fcfs/Order.antt =====
-- The schedule of FCFS: what each row of the table holds, and that the processes run one at a time.
use cp.Common.{
  ℕ, ◌+◌, ◌-◌, ◌≤◌, ◌≡◌, refl, ap, subst, arith, some, some_injective, List, [], ◌∷◌, All, max, map,
}
use cp.Common.Int.{pos}
use cp.Sched.Fcfs.{Process, start_time, run_all, calculate_times}

-- A row of the finished table: the process started no earlier than it arrived, and waited from its
-- arrival up to that start.
pub record IsDone (p : Process) : Type 0 where
  pub started : p.arrival_time + p.burst_time ≤ p.completion_time
  pub turnaround : p.turnaround_time ≡ pos (p.completion_time - p.arrival_time)
  pub waiting : p.waiting_time ≡ pos (p.completion_time - p.burst_time - p.arrival_time)

-- Each process is run whole after the one before it, from time `t` on, and the CPU is idle between
-- the two only while the next process has not arrived.
abbrev pub RunsFrom : ℕ → List Process → Type 0
RunsFrom t [] = Unit {0}
RunsFrom t (p ∷ ps) =
    (p.completion_time ≡ max t p.arrival_time + p.burst_time) × RunsFrom p.completion_time ps

-- What the scheduler leaves alone.
abbrev pub inputs : Process → ℕ × ℕ × ℕ
inputs p = (p.id, p.arrival_time, p.burst_time)

run_all-IsDone : (t : ℕ) (ps : List Process) → All IsDone (run_all t ps)
unfolding run_all
run_all-IsDone t [] = tt
run_all-IsDone t (p ∷ ps) = (ground arith, run_all-IsDone (start_time t p + p.burst_time) ps)

run_all-RunsFrom : (t : ℕ) (ps : List Process) → RunsFrom t (run_all t ps)
unfolding run_all
run_all-RunsFrom t [] = tt
run_all-RunsFrom t (p ∷ ps) = (ground arith, run_all-RunsFrom (start_time t p + p.burst_time) ps)

run_all-inputs : (t : ℕ) (ps : List Process) → map inputs (run_all t ps) ≡ map inputs ps
unfolding run_all
run_all-inputs t [] = refl
run_all-inputs t (p ∷ ps) =
    ap (λ rest. inputs p ∷ rest) (run_all-inputs (start_time t p + p.burst_time) ps)

-- What `calculate_times` returns has the processes of its argument in the same order; every
-- turnaround time is completion less arrival, every waiting time is turnaround less burst and none
-- is negative; and each process runs whole, as soon as it has arrived and the one before it is done.
pub calculate_times_lem :
    (ps : List Process) {qs : List Process}
    → calculate_times ps ≡ some qs
    → (map inputs qs ≡ map inputs ps) × All IsDone qs × RunsFrom 0 qs
unfolding calculate_times
calculate_times_lem [] h = cc
calculate_times_lem (p ∷ ps) h =
    subst (λ qs. (map inputs qs ≡ map inputs (p ∷ ps)) × All IsDone qs × RunsFrom 0 qs)
      (some_injective h) (run_all-inputs t (p ∷ ps), run_all-IsDone t (p ∷ ps), from_zero)
  where
    t : ℕ
    t = p.arrival_time

    from_zero : RunsFrom 0 (run_all t (p ∷ ps))
    from_zero = let (first, rest) = run_all-RunsFrom t (p ∷ ps) in (ground arith, rest)
