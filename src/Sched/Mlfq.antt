-- ===== src/Sched/Mlfq.antt =====
-- note5/multilevel_feedback/mlfq.c: the multi-level feedback queue. note6/mlfq/mlfq_simulation.c
-- has the same functions, word for word but for comments.
pub mod Flat
pub mod Invariant
pub mod Run
use cp.Common.{
  ℕ, zero, suc, ◌-◌, ◌*◌, ◌^◌, Bool, false, if◌then◌else◌, ltb, leb, Option, none, some, List, [],
  ◌∷◌, ◌++◌, length, get_or, set,
}
use cp.Common.Int.{ℤ, pos, unset}

abbrev pub max_processes : ℕ
max_processes = 10

abbrev pub num_queues : ℕ
num_queues = 3

-- `Process`. The fields that are or may become negative are integers.
pub record Process : Type 0 where
  pub id : ℕ
  pub arrival_time : ℕ
  pub burst_time : ℕ
  pub remaining_time : ℕ
  pub current_queue : ℕ
  pub time_in_current_quantum : ℕ
  pub completion_time : ℕ
  pub turnaround_time : ℤ
  pub waiting_time : ℤ
  pub first_run_time : ℤ
  pub is_io_bound : Bool

-- `Queue`: the pointers in use, as indices into the array of processes, so that `count` is the
-- length; and the time quantum.
pub record Queue : Type 0 where
  pub processes : List ℕ
  pub time_quantum : ℕ

-- The array that `run_mlfq_simulation` is given, and the global variables. `boost_interval` is never
-- assigned.
pub record State : Type 0 where
  pub procs : List Process
  pub queue0 : Queue
  pub queue1 : Queue
  pub queue2 : Queue
  pub current_time : ℕ
  pub last_boost_time : ℕ
  pub completed : ℕ

abbrev pub boost_interval : ℕ
boost_interval = 50

-- `queues[q]`, and an assignment to it. Only 0, 1 and 2 are indices.
abbrev pub queue_at : ℕ → State → Queue
queue_at zero s = s.queue0
queue_at (suc zero) s = s.queue1
queue_at (suc (suc q)) s = s.queue2

abbrev pub put_queue : ℕ → Queue → State → State
put_queue zero x s = record s { queue0 = x }
put_queue (suc zero) x s = record s { queue1 = x }
put_queue (suc (suc q)) x s = record s { queue2 = x }

-- What a pointer refers to. A queue holds indices of the array only (`Invariant`), so the default is
-- never read.
abbrev pub no_process : Process
no_process = record {
  id = 0;
  arrival_time = 0;
  burst_time = 0;
  remaining_time = 0;
  current_queue = 0;
  time_in_current_quantum = 0;
  completion_time = 0;
  turnaround_time = pos 0;
  waiting_time = pos 0;
  first_run_time = unset;
  is_io_bound = false;
}

abbrev pub process_at : State → ℕ → Process
process_at s i = get_or s.procs i no_process

abbrev pub put_process : ℕ → Process → State → State
put_process i p s = record s { procs = set s.procs i p }

-- `init_queues`: the quantum of queue `i` is `(1 << i) * 10`.
abbrev pub init_queue : ℕ → Queue
init_queue i = record { processes = []; time_quantum = 2 ^ i * 10 }

abbrev pub init_queues : State → State
init_queues s = record s { queue0 = init_queue 0; queue1 = init_queue 1; queue2 = init_queue 2 }

-- `add_process_to_queue`: a full queue drops the process.
pub add_process_to_queue : ℕ → ℕ → State → State
add_process_to_queue i q s =
    if ltb (length (queue_at q s).processes) max_processes
    then put_queue q (record (queue_at q s) { processes = (queue_at q s).processes ++ (i ∷ []) })
        (put_process i (record (process_at s i) { current_queue = q; time_in_current_quantum = 0 })
          s)
    else s

-- The inner loop of the priority boost, over the pointers of one queue.
pub move_to_top : List ℕ → State → State
unfolding add_process_to_queue
move_to_top [] s = s
move_to_top (i ∷ is) s = move_to_top is (add_process_to_queue i 0 s)

-- One round of the outer loop, for `q` above 0: move the processes of queue `q`, then empty it.
pub boost_queue : ℕ → State → State
unfolding move_to_top
boost_queue q s =
    let moved = move_to_top (queue_at q s).processes s in
    put_queue q (record (queue_at q moved) { processes = [] }) moved

-- The priority boost at the head of `get_next_process`.
pub boost : State → State
unfolding boost_queue
boost s =
    if leb boost_interval (s.current_time - s.last_boost_time)
    then record (boost_queue 2 (boost_queue 1 s)) { last_boost_time = s.current_time }
    else s

-- The search for the first queue that is not empty: the queues after the shift to the left, and the
-- first pointer, `none` for NULL.
abbrev pub take_from : ℕ → State → List ℕ → State × Option ℕ → State × Option ℕ
take_from q s [] later = later
take_from q s (i ∷ is) later = (put_queue q (record (queue_at q s) { processes = is }) s, some i)

pub find_process : State → State × Option ℕ
find_process s =
    take_from 0 s s.queue0.processes
      (take_from 1 s s.queue1.processes (take_from 2 s s.queue2.processes (s, none)))

pub get_next_process : State → State × Option ℕ
unfolding boost find_process
get_next_process s = find_process (boost s)
