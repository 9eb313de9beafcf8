-- ===== src/Sched/Mlfq/Run/Tests.antt =====
-- The simulation on the processes of `main`, and the theorems at that input.
use cp.Common.{ℕ, ◌≡◌, refl, arith, Option, none, some, List, [], ◌∷◌, map}
use cp.Sched.Mlfq.{Process, State, process_at, get_next_process}
use cp.Sched.Mlfq.Flat.{flat, pop, get_next_process-pop}
use cp.Sched.Mlfq.Invariant.{Inv}
use cp.Sched.Mlfq.Run.{
  Outcome, broken, start, main_processes, loop, run_current, run_mlfq_simulation,
}
use cp.Sched.Mlfq.Run.Next.{Ready}
use cp.Sched.Mlfq.Run.Current.{Ran}
use cp.Sched.Mlfq.Run.Rules.{Follows, run_current_rules}
use cp.Sched.Mlfq.Run.Deferred.{PrintsNegative, response_time_of_io}
use cp.Sched.Mlfq.Run.Work.{Stepped, run_current-Stepped}
use cp.Sched.Mlfq.Run.Ends.{Ends, Inv-start, run_mlfq_simulation-Ends}
use cp.Sched.Mlfq.Run.Missed.{Missed, Keeps, Missed-Keeps, Missed-broken}

-- The final time, the completed processes, and the work that is left of each, for a run that ended by
-- the error branch.
report : Outcome → Option (ℕ × ℕ × List ℕ)
report (broken s) = some (s.current_time, s.completed, map Process.remaining_time s.procs)
report _ = none

-- The program's own data reach the branch that prints "Error: No process to run but not all
-- completed": processes 2, 3 and 5 are missed.
main_breaks :
    report (run_mlfq_simulation 60 main_processes) ≡ some (186, 2, 0 ∷ 3 ∷ 1 ∷ 0 ∷ 15 ∷ [])
unfolding run_mlfq_simulation report
main_breaks = refl

abbrev first : State
first = start main_processes

first-Inv : Inv 0 first
first-Inv = Inv-start main_processes (omega arith) (omega arith)

-- A CPU-bound process, and an I/O-bound one.
first-Ready : Ready 0 first
first-Ready = omega arith

second-Ready : Ready 1 first
second-Ready = omega arith

run_current_rules_example :
    Ran 0 first × Follows 10 (process_at first 0) (process_at (run_current 0 first) 0)
run_current_rules_example = run_current_rules first-Inv first-Ready

response_time_of_io_example : PrintsNegative 1 (run_mlfq_simulation 412 main_processes)
response_time_of_io_example =
    response_time_of_io 412 1 main_processes (omega arith) (omega arith) (omega arith) (omega arith)
      refl (omega arith)

run_current-Stepped_example : Stepped first (run_current 0 first)
run_current-Stepped_example = run_current-Stepped first-Inv first-Ready

run_mlfq_simulation-Ends_example : Ends (run_mlfq_simulation 412 main_processes)
run_mlfq_simulation-Ends_example =
    run_mlfq_simulation-Ends 412 main_processes (omega arith) (omega arith) (omega arith)

-- At time 60, with a boost due and a process in each queue.
abbrev waiting : State
waiting = record first {
  queue0 = record { processes = 1 ∷ []; time_quantum = 10 };
  queue1 = record { processes = 0 ∷ []; time_quantum = 20 };
  queue2 = record { processes = 3 ∷ []; time_quantum = 40 };
  current_time = 60;
}

get_next_process-pop_example :
    (flat (get_next_process waiting).0, (get_next_process waiting).1) ≡ pop (1 ∷ 0 ∷ 3 ∷ [])
get_next_process-pop_example = get_next_process-pop waiting (omega arith) (omega arith)

-- At time 15, when the arrival of process 4 at 10 was passed over.
abbrev late : State
late = record first { current_time = 15 }

late-Inv : Inv 0 late
late-Inv = record {
  few = first-Inv.few;
  once = first-Inv.once;
  queued = λ j h. absurd (omega arith);
  level0 = first-Inv.level0;
  level1 = first-Inv.level1;
  level2 = first-Inv.level2;
  ahead = λ j g h. first-Inv.ahead j g (omega arith);
  quantum0 = refl;
  quantum1 = refl;
  quantum2 = refl;
  counted = first-Inv.counted;
}

late-Missed : Missed 3 late
late-Missed = omega arith

Missed-Keeps_example : Keeps 3 (process_at late 3) (loop 500 late)
Missed-Keeps_example = Missed-Keeps 500 3 late late-Missed

Missed-broken_example : (t : State) × (loop 500 late ≡ broken t)
Missed-broken_example = Missed-broken 500 3 late late-Inv late-Missed (omega arith) (omega arith)
