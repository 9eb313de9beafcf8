-- ===== src/Sched/Fcfs/Tests.antt =====
-- FCFS on the processes of `main`, and the theorems at that input.
use cp.Common.{ℕ, ◌^◌, ◌<◌, ◌≡◌, refl, arith, some, List, [], ◌∷◌, All, map}
use cp.Common.Int.{pos, ◌-ℤ◌}
use cp.Sched.Fcfs.{Process, process_of, main_processes, calculate_times}
use cp.Sched.Fcfs.Order.{IsDone, RunsFrom, inputs, calculate_times_lem}
use cp.Sched.Fcfs.Lindley.{latest, calculate_times-latest, calculate_times_bounds}

abbrev done : ℕ → ℕ → ℕ → ℕ → Process
done i burst completion waiting = record (process_of i 0 burst) {
  completion_time = completion;
  turnaround_time = pos completion;
  waiting_time = pos waiting;
}

-- The convoy effect of the program's own output: 24, 27 and 30.
abbrev main_table : List Process
main_table = done 1 24 24 0 ∷ done 2 3 27 24 ∷ done 3 3 30 27 ∷ []

main_runs : calculate_times main_processes ≡ some main_table
unfolding calculate_times ◌-ℤ◌
main_runs = refl

calculate_times_lem_example :
    (map inputs main_table ≡ map inputs main_processes)
    × All IsDone main_table
    × RunsFrom 0 main_table
calculate_times_lem_example = calculate_times_lem main_processes main_runs

calculate_times-latest_example : 30 ≡ latest main_processes
calculate_times-latest_example =
    calculate_times-latest main_processes 2 {q = done 3 3 30 27} main_runs refl

calculate_times_bounds_example : 30 < 2 ^ 31
calculate_times_bounds_example =
    calculate_times_bounds 0 main_processes 2 {q = done 3 3 30 27} (omega arith) (omega arith)
      main_runs refl
