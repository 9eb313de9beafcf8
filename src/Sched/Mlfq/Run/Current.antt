-- ===== src/Sched/Mlfq/Run/Current.antt =====
-- One run of a process: how long it runs, and which of the branches it takes.
use cp.Common.{ℕ, zero, suc, ◌+◌, ◌≤◌, ◌<◌, ◌≡◌, ◌≢◌, arith, true, false, get_or-set}
use cp.Sched.Mlfq.{
  Process, State, no_process, queue_at, process_at, put_process, add_process_to_queue,
}
use cp.Sched.Mlfq.Invariant.{Inv}
use cp.Sched.Mlfq.Run.{run_time, charge, finish, yield_io, next_queue, run_current}
use cp.Sched.Mlfq.Run.Next.{Ready}

-- The quantum of the queue that the process came from, and how long it runs.
abbrev pub slice_of : ℕ → State → ℕ
slice_of i s = (queue_at (process_at s i).current_queue s).time_quantum

abbrev pub time_of : ℕ → State → ℕ
time_of i s = run_time (slice_of i s) (process_at s i)

-- The process after its run, and the state with it in place.
abbrev pub charged : ℕ → State → Process
charged i s = charge s.current_time (time_of i s) (process_at s i)

abbrev pub ran : ℕ → State → State
ran i s = put_process i (charged i s) (record s { current_time = s.current_time + time_of i s })

slice-lem :
    {n : ℕ} (s : State) (q : ℕ)
    → Inv n s
    → q ≤ 2
    → (10 ≤ (queue_at q s).time_quantum) × ((queue_at q s).time_quantum ≤ 40)
slice-lem s zero inv h = omega (arith, inv.quantum0)
slice-lem s (suc zero) inv h = omega (arith, inv.quantum1)
slice-lem s (suc (suc zero)) inv h = omega (arith, inv.quantum2)
slice-lem s (suc (suc (suc q))) inv h = absurd (omega arith)

-- Time passes; no more than the slice, and no more than the process needs. A CPU-bound process that
-- is not completed has used its whole slice, an I/O-bound one never has.
pub record Ran (i : ℕ) (s : State) : Type 0 where
  pub positive : 0 < time_of i s
  pub allotted : time_of i s ≤ slice_of i s
  pub needed : time_of i s ≤ (process_at s i).remaining_time
  pub whole :
      (process_at s i).is_io_bound ≡ false
      → time_of i s < (process_at s i).remaining_time
      → time_of i s ≡ slice_of i s
  pub part : (process_at s i).is_io_bound ≡ true → time_of i s < slice_of i s

pub run-Ran : {n i : ℕ} {s : State} → Inv n s → Ready i s → Ran i s
run-Ran {n} {i} {s} inv r = ground (arith, slice-lem s (process_at s i).current_queue inv r.level)

module _ {n i : ℕ} {s : State} (inv : Inv n s) (r : Ready i s) where
  at_self : process_at (ran i s) i ≡ charged i s
  at_self = ground (arith, get_or-set s.procs i i (charged i s) no_process, r.fits)

  -- The process has all that it needed: it is completed.
  pub run_current-finish :
      time_of i s ≡ (process_at s i).remaining_time
      → run_current i s
        ≡ record (put_process i (finish (s.current_time + time_of i s) (charged i s)) (ran i s)) {
          completed = s.completed + 1;
        }
  unfolding run_current
  run_current-finish e = ground arith

  -- It is I/O-bound and not completed: it yields.
  pub run_current-yield :
      time_of i s ≢ (process_at s i).remaining_time
      → (process_at s i).is_io_bound ≡ true
      → run_current i s
        ≡ put_process i (yield_io (s.current_time + time_of i s) (charged i s)) (ran i s)
  unfolding run_current
  run_current-yield ne io = ground (arith, run-Ran inv r)

  -- It is CPU-bound and not completed: it goes to the next lower queue.
  pub run_current-demote :
      time_of i s ≢ (process_at s i).remaining_time
      → (process_at s i).is_io_bound ≡ false
      → run_current i s
        ≡ add_process_to_queue i
            (next_queue (process_at s i).current_queue)
            (put_process i (record (charged i s) { time_in_current_quantum = 0 }) (ran i s))
  unfolding run_current
  run_current-demote ne cpu = ground (arith, run-Ran inv r)
