-- ===== src/Sched/Mlfq/Run/Work.antt =====
-- A run of a process keeps the invariant, and the clock moves by the work that it does.
use cp.Common.{
  ℕ, zero, suc, ◌+◌, ◌≤◌, ◌<◌, ◌≡◌, ◌≢◌, ◌∙◌, inl, inr, arith, true, false, Bool-cases, [], ◌∷◌,
  length, total, length-set, total-set, get_or-set, set-set, occurs, occurs-append, set, ℕ_discrete,
}
use cp.Sched.Mlfq.{
  max_processes, Process, State, no_process, queue_at, process_at, add_process_to_queue,
}
use cp.Sched.Mlfq.Flat.{flat, length-flat, Added, add-Added}
use cp.Sched.Mlfq.Invariant.{unfinished, IsQueued, Inv, occurs-Added, occurs-flat, flat-room_of_new}
use cp.Sched.Mlfq.Run.{run_current}
use cp.Sched.Mlfq.Run.Keeps.{total-same}
use cp.Sched.Mlfq.Run.Next.{Ready}
use cp.Sched.Mlfq.Run.Current.{
  time_of, charged, run-Ran, run_current-finish, run_current-yield, run_current-demote,
}

abbrev pub work : State → ℕ
work s = total Process.remaining_time s.procs

-- The state with process `i` replaced, at a later time.
abbrev later : ℕ → State → Process → ℕ → ℕ → State
later i s p now c = record s { procs = set s.procs i p; current_time = now; completed = c }

-- What a replacement needs: some work is done, and the count of completed processes is kept.
record IsLater (i : ℕ) (s : State) (p : Process) (now c : ℕ) : Type 0 where
  forward : s.current_time < now
  done : s.current_time + (process_at s i).remaining_time ≡ now + p.remaining_time
  count : c + unfinished p ≡ s.completed + unfinished (process_at s i)
  arrives : now ≤ p.arrival_time → 0 < p.remaining_time

module _ {n i : ℕ} {s : State} (p : Process) (now c : ℕ) (inv : Inv n s) (r : Ready i s)
    (l : IsLater i s p now c) where
  abbrev u : State
  u = later i s p now c

  other : (j : ℕ) → j ≢ i → process_at u j ≡ process_at s j
  other j h = ground (arith, get_or-set s.procs i j p no_process)

  self : process_at u i ≡ p
  self = ground (arith, get_or-set s.procs i i p no_process, r.fits)

  ne_of_queued : (j : ℕ) → 0 < occurs j (flat s) → j ≢ i
  ne_of_queued j h e = absurd (ground (arith, r.absent))

  IsQueued-later : (j : ℕ) → 0 < occurs j (flat u) → IsQueued 0 u j
  IsQueued-later j h =
      ground (arith, inv.queued j, other j (ne_of_queued j h), length-set s.procs i p)

  Inv-later : Inv 0 u
  Inv-later = record {
    few = omega (arith, inv.few, length-set s.procs i p);
    once = inv.once;
    queued = IsQueued-later;
    level0 = λ j h.
        ground (arith, inv.level0 j, other j (ne_of_queued j (omega (arith, occurs-flat j s))));
    level1 = λ j h.
        ground (arith, inv.level1 j, other j (ne_of_queued j (omega (arith, occurs-flat j s))));
    level2 = λ j h.
        ground (arith, inv.level2 j, other j (ne_of_queued j (omega (arith, occurs-flat j s))));
    ahead = λ j g h. ground (arith, inv.ahead j, other j, self, length-set s.procs i p);
    quantum0 = inv.quantum0;
    quantum1 = inv.quantum1;
    quantum2 = inv.quantum2;
    counted = omega (
      arith,
      inv.counted,
      l.count,
      length-set s.procs i p,
      total-set unfinished s.procs i p no_process r.fits,
    );
  }

  work-later : now + work u ≡ s.current_time + work s
  work-later = omega (arith, l.done, total-set Process.remaining_time s.procs i p no_process r.fits)

-- A process that waits in no queue goes to queue `l`.
module _ {i l : ℕ} {s t : State} (inv : Inv 0 s) (a : Added i l s t) where
  Inv-add :
      l ≤ 2
      → i < length s.procs
      → occurs i (flat s) ≡ 0
      → 0 < (process_at s i).remaining_time
      → (process_at s i).arrival_time < s.current_time
      → Inv 0 t
  Inv-add low fits absent alive past = record {
    few = omega (arith, inv.few, a.globals.size);
    once = λ j. ground (arith, inv.once j, occurs-Added j low a);
    queued = λ j h. ground (arith, inv.queued j, a.proc j, a.globals, occurs-Added j low a);
    level0 = λ j h. ground (
      arith,
      inv.level0 j,
      a.proc j,
      a.top,
      occurs-flat j s,
      occurs-append j s.queue0.processes (i ∷ []),
    );
    level1 = λ j h. ground (
      arith,
      inv.level1 j,
      a.proc j,
      a.middle,
      occurs-flat j s,
      occurs-append j s.queue1.processes (i ∷ []),
    );
    level2 = λ j h. ground (
      arith,
      inv.level2 j,
      a.proc j,
      a.bottom,
      occurs-flat j s,
      occurs-append j s.queue2.processes (i ∷ []),
    );
    ahead = λ j g h. ground (arith, inv.ahead j, a.proc j, a.globals);
    quantum0 = ground (arith, inv.quantum0, a.top);
    quantum1 = ground (arith, inv.quantum1, a.middle);
    quantum2 = ground (arith, inv.quantum2, a.bottom);
    counted = omega (
      arith,
      inv.counted,
      a.globals,
      total-same unfinished s.procs t.procs a.globals.size (λ j. ground (arith, a.proc j)),
    );
  }

  work-add : work t ≡ work s
  work-add =
      total-same Process.remaining_time s.procs t.procs a.globals.size
        (λ j. ground (arith, a.proc j))

pub queue_room : (l : ℕ) (s : State) → length (queue_at l s).processes ≤ length (flat s)
queue_room zero s = omega (arith, length-flat s)
queue_room (suc zero) s = omega (arith, length-flat s)
queue_room (suc (suc l)) s = omega (arith, length-flat s)

-- One run: the invariant holds again at the head of the loop, and the clock has moved by the work
-- done, which is more than none.
pub record Stepped (s u : State) : Type 0 where
  pub inv : Inv 0 u
  pub size : length u.procs ≡ length s.procs
  pub forward : s.current_time < u.current_time
  pub work_done : u.current_time + work u ≡ s.current_time + work s

Stepped-add :
    {i l : ℕ} {s t : State}
    → Stepped s t
    → l ≤ 2
    → i < length t.procs
    → occurs i (flat t) ≡ 0
    → 0 < (process_at t i).remaining_time
    → (process_at t i).arrival_time < t.current_time
    → Stepped s (add_process_to_queue i l t)
Stepped-add {i} {l} {s} {t} st low fits absent alive past =
    let room : length (queue_at l t).processes < max_processes =
      omega (arith, queue_room l t, flat-room_of_new i st.inv fits absent) in
    let a = add-Added i l t low room fits in
    record {
      inv = Inv-add st.inv a low fits absent alive past;
      size = a.globals.size ∙ st.size;
      forward = omega (arith, a.globals.time, st.forward);
      work_done = omega (arith, a.globals.time, work-add st.inv a, st.work_done);
    }

module _ {n i : ℕ} {s : State} (inv : Inv n s) (r : Ready i s) where
  Stepped-later : {p : Process} {now c : ℕ} → IsLater i s p now c → Stepped s (later i s p now c)
  Stepped-later {p} {now} {c} l = record {
    inv = Inv-later p now c inv r l;
    size = length-set s.procs i p;
    forward = l.forward;
    work_done = work-later p now c inv r l;
  }

  abbrev now : ℕ
  now = s.current_time + time_of i s

  Stepped-finish : time_of i s ≡ (process_at s i).remaining_time → Stepped s (run_current i s)
  Stepped-finish e =
      rw (run_current-finish inv r e, set-set) (Stepped-later (ground (arith, run-Ran inv r)))

  Stepped-yield :
      time_of i s ≢ (process_at s i).remaining_time
      → (process_at s i).is_io_bound ≡ true
      → Stepped s (run_current i s)
  Stepped-yield ne io =
      rw (run_current-yield inv r ne io, set-set) (Stepped-later (ground (arith, run-Ran inv r)))

  Stepped-demote :
      time_of i s ≢ (process_at s i).remaining_time
      → (process_at s i).is_io_bound ≡ false
      → Stepped s (run_current i s)
  Stepped-demote ne cpu =
      let q = (process_at s i).current_queue in
      let p : Process = record (charged i s) { time_in_current_quantum = 0 } in
      let l : IsLater i s p now s.completed = ground (arith, run-Ran inv r) in
      let st = Stepped-later l in
      rw (run_current-demote inv r ne cpu, set-set)
        (Stepped-add st (ground (arith, r.level)) (rw st.size r.fits) r.absent
          (ground (arith, self p now s.completed inv r l, run-Ran inv r))
          (ground (arith, self p now s.completed inv r l, run-Ran inv r, r.arrived)))

-- Whatever the branch.
pub run_current-Stepped : {n i : ℕ} {s : State} → Inv n s → Ready i s → Stepped s (run_current i s)
run_current-Stepped {n} {i} {s} inv r =
    elim (ℕ_discrete (time_of i s) (process_at s i).remaining_time) [
      | yes e ↦ Stepped-finish inv r e
      | no ne ↦ elim (Bool-cases (process_at s i).is_io_bound) [
        | inl io ↦ Stepped-yield inv r ne io
        | inr cpu ↦ Stepped-demote inv r ne cpu
      ]
    ]
