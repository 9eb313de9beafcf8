-- ===== src/Sched/RoundRobin/Tests.antt =====
-- Round robin on the processes of `main`, and the theorems at that input.
use cp.Common.{ℕ, ◌≡◌, ◌≢◌, refl, arith, List, [], ◌∷◌}
use cp.Common.Int.{pos, ◌-ℤ◌}
use cp.Sched.RoundRobin.{Process, process_of, main_processes, round_robin, finished, out_of_fuel}
use cp.Sched.RoundRobin.Ends.{round_robin_terminates}

abbrev done : ℕ → ℕ → ℕ → ℕ → ℕ → Process
done i burst completion waiting first = record (process_of i 0 burst) {
  completion_time = completion;
  turnaround_time = pos completion;
  waiting_time = pos waiting;
  first_run_time = pos first;
}

abbrev main_table : List Process
main_table = done 1 24 30 6 0 ∷ done 2 3 8 5 5 ∷ done 3 3 11 8 8 ∷ []

main_runs : round_robin 40 main_processes 5 ≡ finished main_table 30
unfolding round_robin ◌-ℤ◌
main_runs = refl

-- With a quantum of 0 the loop makes no progress: the bound on the quantum is needed.
zero_quantum : round_robin 40 main_processes 0 ≡ out_of_fuel
unfolding round_robin ◌-ℤ◌
zero_quantum = refl

round_robin_terminates_example : round_robin 34 main_processes 5 ≢ out_of_fuel
round_robin_terminates_example =
    round_robin_terminates 34 main_processes 5 (omega arith) (omega arith)
