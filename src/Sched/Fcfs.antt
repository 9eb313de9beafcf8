-- ===== src/Sched/Fcfs.antt =====
-- note5/cpu_scheduling/schedule_fcfs.c: first come, first served.
pub mod Order
pub mod Lindley
mod Tests
use cp.Common.{ℕ, ◌+◌, if◌then◌else◌, ltb, Option, none, some, List, [], ◌∷◌}
use cp.Common.Int.{ℤ, pos, ◌-ℤ◌}

-- `Process`. The two differences may be negative in C, so they are integers.
pub record Process : Type 0 where
  pub id : ℕ
  pub arrival_time : ℕ
  pub burst_time : ℕ
  pub completion_time : ℕ
  pub turnaround_time : ℤ
  pub waiting_time : ℤ

-- The first lines of the loop: a gap in the arrivals moves the time forward.
abbrev pub start_time : ℕ → Process → ℕ
start_time current_time p = if ltb current_time p.arrival_time then p.arrival_time else current_time

-- One round of the loop: the process with its times filled in, at its start time.
pub complete : ℕ → Process → Process
unfolding ◌-ℤ◌
complete start p =
    let completion = start + p.burst_time in
    let turnaround = pos completion -ℤ pos p.arrival_time in
    record p {
      completion_time = completion;
      turnaround_time = turnaround;
      waiting_time = turnaround -ℤ pos p.burst_time;
    }

-- The loop of `calculate_times` from `current_time` on: the rest of the array, filled in.
pub run_all : ℕ → List Process → List Process
unfolding complete
run_all current_time [] = []
run_all current_time (p ∷ ps) =
    let start = start_time current_time p in complete start p ∷ run_all (start + p.burst_time) ps

-- `calculate_times`. With no process, the read of `processes[0]` is out of range: `none`.
pub calculate_times : List Process → Option (List Process)
unfolding run_all
calculate_times [] = none
calculate_times (p ∷ ps) = some (run_all p.arrival_time (p ∷ ps))

-- The array of `main`.
abbrev pub process_of : ℕ → ℕ → ℕ → Process
process_of i arrival burst = record {
  id = i;
  arrival_time = arrival;
  burst_time = burst;
  completion_time = 0;
  turnaround_time = pos 0;
  waiting_time = pos 0;
}

abbrev pub main_processes : List Process
main_processes = process_of 1 0 24 ∷ process_of 2 0 3 ∷ process_of 3 0 3 ∷ []
