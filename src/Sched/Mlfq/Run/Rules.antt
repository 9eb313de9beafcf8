-- ===== src/Sched/Mlfq/Run/Rules.antt =====
-- The rules of the feedback queue, for one run of a process.
use cp.Common.{
  ℕ, ◌+◌, ◌-◌, ◌<◌, min, ◌≡◌, ◌≢◌, ◌⊎◌, inl, inr, arith, true, false, Bool-cases, length-set,
  get_or-set_self, set-set, set, get_or, ℕ_discrete,
}
use cp.Common.Int.{pos, ◌-ℤ◌}
use cp.Sched.Mlfq.{Process, State, no_process, process_at}
use cp.Sched.Mlfq.Flat.{add-Added}
use cp.Sched.Mlfq.Invariant.{Inv, flat-room_of_new}
use cp.Sched.Mlfq.Run.{finish, yield_io, io_time, next_queue, run_current}
use cp.Sched.Mlfq.Run.Work.{queue_room}
use cp.Sched.Mlfq.Run.Next.{Ready}
use cp.Sched.Mlfq.Run.Current.{
  time_of, charged, Ran, run-Ran, run_current-finish, run_current-yield, run_current-demote,
}

-- The process `p` before its run and `q` after it, which ended at `now`: it is completed.
pub record IsCompleted (now : ℕ) (p q : Process) : Type 0 where
  pub none_left : q.remaining_time ≡ 0
  pub completion : q.completion_time ≡ now
  pub turnaround : q.turnaround_time ≡ pos (now - p.arrival_time)
  pub waiting : q.waiting_time ≡ pos (now - p.arrival_time) -ℤ pos p.burst_time

-- Rule 4b: it yields for I/O at its level, to come back later.
pub record IsYielded (now : ℕ) (p q : Process) : Type 0 where
  pub io : p.is_io_bound ≡ true
  pub left : 0 < q.remaining_time
  pub level : q.current_queue ≡ p.current_queue
  pub returns : q.arrival_time ≡ now + io_time

-- Rule 4a: it used its whole quantum and goes one level down, from the lowest to the lowest.
pub record IsDemoted (p q : Process) : Type 0 where
  pub cpu : p.is_io_bound ≡ false
  pub left : 0 < q.remaining_time
  pub level : q.current_queue ≡ min (p.current_queue + 1) 2
  pub anew : q.time_in_current_quantum ≡ 0
  pub arrival : q.arrival_time ≡ p.arrival_time

abbrev pub Follows : ℕ → Process → Process → Type 0
Follows now p q = IsCompleted now p q ⊎ (IsYielded now p q ⊎ IsDemoted p q)

module _ {n i : ℕ} {s : State} (inv : Inv n s) (r : Ready i s) where
  abbrev now : ℕ
  now = s.current_time + time_of i s

  at_put : (p : Process) → get_or (set s.procs i p) i no_process ≡ p
  at_put p = get_or-set_self s.procs i p no_process r.fits

  finish-IsCompleted :
      time_of i s ≡ (process_at s i).remaining_time
      → IsCompleted now (process_at s i) (finish now (charged i s))
  unfolding ◌-ℤ◌
  finish-IsCompleted e = ground (arith, r.arrived)

  yield_io-IsYielded :
      time_of i s ≢ (process_at s i).remaining_time
      → (process_at s i).is_io_bound ≡ true
      → IsYielded now (process_at s i) (yield_io now (charged i s))
  yield_io-IsYielded ne io = ground (arith, run-Ran inv r)

  run_current-IsDemoted :
      time_of i s ≢ (process_at s i).remaining_time
      → (process_at s i).is_io_bound ≡ false
      → IsDemoted (process_at s i) (process_at (run_current i s) i)
  run_current-IsDemoted ne cpu =
      let l = next_queue (process_at s i).current_queue in
      let p : Process = record (charged i s) { time_in_current_quantum = 0 } in
      let t : State = record s { procs = set s.procs i p; current_time = now } in
      let a =
        add-Added i l t (ground (arith, r.level))
          (omega (arith, queue_room l t, flat-room_of_new i inv r.fits r.absent))
          (omega (arith, length-set s.procs i p, r.fits)) in
      rw (run_current-demote inv r ne cpu, set-set, a.proc i, at_put p)
        (ground (arith, run-Ran inv r, r.level))

  -- With the invariant, the process that runs keeps to the rules. It runs for more than no time, for
  -- no more than its slice and no more than it needs; then it is completed with its times filled in,
  -- or is I/O-bound and yields at its level, or is CPU-bound and goes down one level.
  pub run_current_rules : Ran i s × Follows now (process_at s i) (process_at (run_current i s) i)
  run_current_rules = (
    run-Ran inv r,
    elim (ℕ_discrete (time_of i s) (process_at s i).remaining_time) [
      | yes e ↦ inl (rw (run_current-finish inv r e, set-set, at_put) (finish-IsCompleted e))
      | no ne ↦ elim (Bool-cases (process_at s i).is_io_bound) [
        | inl io ↦
            inr
              (inl (rw (run_current-yield inv r ne io, set-set, at_put) (yield_io-IsYielded ne io)))
        | inr cpu ↦ inr (inr (run_current-IsDemoted ne cpu))
      ]
    ],
  )
