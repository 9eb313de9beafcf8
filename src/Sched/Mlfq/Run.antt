-- ===== src/Sched/Mlfq/Run.antt =====
-- `run_mlfq_simulation` of note5/multilevel_feedback/mlfq.c, and the numbers that `print_results`
-- computes for a process.
mod Keeps
mod Next
mod Current
mod Work
mod Ends
mod Missed
mod Rules
mod Deferred
mod Tests
use cp.Common.{
  ℕ, zero, suc, ◌+◌, ◌-◌, ◌/◌, Bool, true, false, ◌&&◌, if◌then◌else◌, ltb, leb, ◌==◌, Option, none,
  some, List, [], ◌∷◌, map, length,
}
use cp.Common.Int.{ℤ, pos, unset, is_unset, ◌-ℤ◌}
use cp.Sched.Mlfq.{
  Process, Queue, State, num_queues, queue_at, process_at, put_process, init_queues,
  add_process_to_queue, get_next_process,
}

-- The loop that sets up the processes, on one process.
abbrev pub prepare : Process → Process
prepare p = record p {
  remaining_time = p.burst_time;
  current_queue = 0;
  time_in_current_quantum = 0;
  first_run_time = unset;
}

-- One round of the loop over the arrivals, and the loop: `left` rounds from index `i` on.
pub arrive : ℕ → State → State
unfolding add_process_to_queue
arrive i s =
    if (process_at s i).arrival_time == s.current_time then add_process_to_queue i 0 s else s

pub arrivals : ℕ → ℕ → State → State
unfolding arrive
arrivals zero i s = s
arrivals (suc left) i s = arrivals left (i + 1) (arrive i s)

-- How long a process runs: a fifth of the slice if it is I/O-bound, or the rest of its quantum, and
-- no more than it needs. A queued process has used nothing of its quantum (`Invariant`), so the
-- difference is not negative.
abbrev pub run_time : ℕ → Process → ℕ
run_time time_slice p =
    if p.is_io_bound
    then (if ltb p.remaining_time (time_slice / 5) then p.remaining_time else time_slice / 5)
    else (if ltb p.remaining_time (time_slice - p.time_in_current_quantum)
        then p.remaining_time
        else time_slice - p.time_in_current_quantum)

-- The process after it ran for `r`, from time `now` on.
abbrev pub charge : ℕ → ℕ → Process → Process
charge now r p = record p {
  first_run_time = if is_unset p.first_run_time then pos now else p.first_run_time;
  remaining_time = p.remaining_time - r;
  time_in_current_quantum = p.time_in_current_quantum + r;
}

-- The branch of a completed process.
abbrev pub finish : ℕ → Process → Process
finish now p =
    let turnaround = pos now -ℤ pos p.arrival_time in
    record p {
      completion_time = now;
      turnaround_time = turnaround;
      waiting_time = turnaround -ℤ pos p.burst_time;
    }

abbrev pub io_time : ℕ
io_time = 10

-- The branch of a process that yields for I/O: it re-arrives later.
abbrev pub yield_io : ℕ → Process → Process
yield_io now p = record p { time_in_current_quantum = 0; arrival_time = now + io_time }

abbrev pub next_queue : ℕ → ℕ
next_queue q = if ltb q (num_queues - 1) then q + 1 else q

-- The four branches after the process `i`, now `p`, has run for `r` of its `slice` in queue `q`. The
-- state has the new time, and `p` in its place.
pub settle : ℕ → Process → ℕ → ℕ → ℕ → State → State
settle i p q slice r s =
    if p.remaining_time == 0
    then record (put_process i (finish s.current_time p) s) { completed = s.completed + 1 }
    else if p.is_io_bound && ltb r slice
    then put_process i (yield_io s.current_time p) s
    else if leb slice p.time_in_current_quantum
    then add_process_to_queue i (next_queue q)
        (put_process i (record p { time_in_current_quantum = 0 }) s)
    else add_process_to_queue i q s

-- The branch `current_proc != NULL`.
pub run_current : ℕ → State → State
unfolding settle
run_current i s =
    let p = process_at s i in
    let slice = (queue_at p.current_queue s).time_quantum in
    let r = run_time slice p in
    let p' = charge s.current_time r p in
    settle i p' p.current_queue slice r
      (put_process i p' (record s { current_time = s.current_time + r }))

-- The loop that looks for the next arrival; `none` is -1.
abbrev pub closer : ℕ → Option ℕ → Process → Option ℕ
closer now none p =
    if ltb 0 p.remaining_time && ltb now p.arrival_time then some p.arrival_time else none
closer now (some t) p =
    if ltb 0 p.remaining_time && ltb now p.arrival_time && ltb p.arrival_time t
    then some p.arrival_time
    else some t

pub next_arrival : ℕ → Option ℕ → List Process → Option ℕ
next_arrival now found [] = found
next_arrival now found (p ∷ ps) = next_arrival now (closer now found p) ps

-- Whether the body of the `while` loop goes on or breaks.
pub data Turn : Type 0 where
  again : State → Turn
  stuck : State → Turn

-- The branch with no process to run.
abbrev pub idle : State → Option ℕ → Turn
idle s (some t) = again (record s { current_time = t })
idle s none = stuck s

abbrev pub dispatch : State × Option ℕ → Turn
dispatch (s, some i) = again (run_current i s)
dispatch (s, none) = idle s (next_arrival s.current_time none s.procs)

-- The body of the `while` loop.
pub turn : State → Turn
unfolding arrivals get_next_process run_current next_arrival
turn s = dispatch (get_next_process (arrivals (length s.procs) 0 s))

-- How the `while` loop ends: by its test, by the `break`, or not within the fuel.
pub data Outcome : Type 0 where
  finished : State → Outcome
  broken : State → Outcome
  out_of_fuel : Outcome

abbrev pub resume : (State → Outcome) → Turn → Outcome
resume rest (again s) = rest s
resume rest (stuck s) = broken s

-- `while (completed < n)`.
pub loop : ℕ → State → Outcome
unfolding turn
loop zero s = out_of_fuel
loop (suc fuel) s = elim (ltb s.completed (length s.procs)) [
  | true ↦ resume (λ t. loop fuel t) (turn s)
  | false ↦ finished s
]

-- A queue of a program that has just started.
abbrev pub no_queue : Queue
no_queue = record { processes = []; time_quantum = 0 }

-- The state before the `while` loop, in a program that has just started.
abbrev pub start : List Process → State
start ps = init_queues (record {
  procs = map prepare ps;
  queue0 = no_queue;
  queue1 = no_queue;
  queue2 = no_queue;
  current_time = 0;
  last_boost_time = 0;
  completed = 0;
})

pub run_mlfq_simulation : ℕ → List Process → Outcome
unfolding loop settle add_process_to_queue ◌-ℤ◌
run_mlfq_simulation fuel ps = loop fuel (start ps)

-- `response_time` of `print_results`.
pub response_time : Process → ℤ
unfolding ◌-ℤ◌
response_time p = p.first_run_time -ℤ pos p.arrival_time

-- The array of `main`.
abbrev pub process_of : ℕ → ℕ → ℕ → Bool → Process
process_of i arrival burst io = record {
  id = i;
  arrival_time = arrival;
  burst_time = burst;
  remaining_time = 0;
  current_queue = 0;
  time_in_current_quantum = 0;
  completion_time = 0;
  turnaround_time = pos 0;
  waiting_time = pos 0;
  first_run_time = unset;
  is_io_bound = io;
}

abbrev pub main_processes : List Process
main_processes =
    process_of 1 0 100 false
    ∷ process_of 2 0 5 true
    ∷ process_of 3 0 5 true
    ∷ process_of 4 10 80 false
    ∷ process_of 5 20 15 true
    ∷ []
