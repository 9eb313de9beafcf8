-- ===== src/Sched/Mlfq/Run/Deferred.antt =====
-- The response times that `print_results` of note5/multilevel_feedback/mlfq.c computes for I/O-bound
-- processes.
use cp.Common.{
  ℕ, zero, suc, ◌+◌, ◌-◌, ◌*◌, ◌≤◌, ◌<◌, ◌≡◌, ◌≢◌, refl, sym, subst, ◌⊎◌, inl, inr, arith, true,
  ltb, Bool-cases, Option, none, some, List, [], ◌∷◌, map, length, total, All, length-set,
  get_or-set_self, get_or-set_ne, set-set, set, get_or, ℕ_discrete,
}
use cp.Common.Int.{pos, negsuc, unset, ◌-ℤ◌}
use cp.Sched.Mlfq.{max_processes, Process, State, no_process, process_at, get_next_process}
use cp.Sched.Mlfq.Flat.{add-Added}
use cp.Sched.Mlfq.Invariant.{Inv, flat-room_of_new}
use cp.Sched.Mlfq.Run.{
  arrivals, prepare, yield_io, finish, next_queue, run_current, next_arrival, Turn, again, stuck,
  idle, dispatch, turn, Outcome, finished, broken, out_of_fuel, resume, loop, start,
  run_mlfq_simulation, response_time,
}
use cp.Sched.Mlfq.Run.Keeps.{Requeued, Requeued-trans, arrivals-AllArrived}
use cp.Sched.Mlfq.Run.Next.{Ready, get_next_process-Next}
use cp.Sched.Mlfq.Run.Work.{queue_room}
use cp.Sched.Mlfq.Run.Current.{
  time_of, charged, run_current-finish, run_current-yield, run_current-demote,
}
use cp.Sched.Mlfq.Run.Ends.{TurnOk, turn-TurnOk, Ends, Inv-start, run_mlfq_simulation-Ends}

-- An I/O-bound process that needs more than a fifth of the first quantum: it has
-- not run, or its arrival time is past the start of its first run.
abbrev pub IsDeferred : Process → Type 0
IsDeferred p =
    (p.is_io_bound ≡ true)
    × (2 < p.burst_time)
    × (((p.first_run_time ≡ unset) × (p.remaining_time ≡ p.burst_time))
        ⊎ ((f : ℕ) × (p.first_run_time ≡ pos f) × (f < p.arrival_time)))

-- It is at the top level.
abbrev pub IsTop : Process → Type 0
IsTop p = IsDeferred p × (p.current_queue ≡ 0)

response_time-negative : (p : Process) → IsDeferred p → (n : ℕ) × (response_time p ≡ negsuc n)
unfolding response_time ◌-ℤ◌
response_time-negative p (io, big, inl (first, whole)) = (p.arrival_time, rw first (ground arith))
response_time-negative p (io, big, inr (f, first, late)) =
    (p.arrival_time - f - 1, rw first (ground (arith, late)))

IsTop-Requeued :
    {s t : State} (i : ℕ) → Requeued s t → IsTop (process_at s i) → IsTop (process_at t i)
IsTop-Requeued i q (d, top) = (subst IsDeferred (sym (q.proc i)) d, q.top i top)

-- Another process runs.
run_current_other :
    {n j : ℕ} {s : State} (i : ℕ)
    → Inv n s
    → Ready j s
    → j ≢ i
    → process_at (run_current j s) i ≡ process_at s i
run_current_other {n} {j} {s} i inv r ne =
    let now = s.current_time + time_of j s in
    let at : (p : Process) → get_or (set s.procs j p) i no_process ≡ process_at s i =
      λ p. get_or-set_ne s.procs j i p no_process ne in
    elim (ℕ_discrete (time_of j s) (process_at s j).remaining_time) [
      | yes e ↦ rw (run_current-finish inv r e, set-set) (at (finish now (charged j s)))
      | no more ↦ elim (Bool-cases (process_at s j).is_io_bound) [
        | inl io ↦ rw (run_current-yield inv r more io, set-set) (at (yield_io now (charged j s)))
        | inr cpu ↦
            let l = next_queue (process_at s j).current_queue in
            let p : Process = record (charged j s) { time_in_current_quantum = 0 } in
            let t : State = record s { procs = set s.procs j p; current_time = now } in
            let a =
              add-Added j l t (ground (arith, r.level))
                (omega (arith, queue_room l t, flat-room_of_new j inv r.fits r.absent))
                (omega (arith, length-set s.procs j p, r.fits)) in
            rw (run_current-demote inv r more cpu, set-set, a.proc i) (ground (arith, at p, ne))
      ]
    ]

IsTop-finish :
    {n i : ℕ} {s : State}
    → Inv n s
    → Ready i s
    → time_of i s ≡ (process_at s i).remaining_time
    → IsTop (process_at s i)
    → IsTop (finish (s.current_time + time_of i s) (charged i s))
IsTop-finish {n} {i} {s} inv r e ((io, big, inl (first, whole)), top) =
    absurd (ground (arith, inv.quantum0))
IsTop-finish {n} {i} {s} inv r e ((io, big, inr (f, first, late)), top) =
    ((io, big, inr (f, rw first refl, late)), top)

IsTop-yield :
    {n i : ℕ} {s : State}
    → Inv n s
    → Ready i s
    → IsTop (process_at s i)
    → IsTop (yield_io (s.current_time + time_of i s) (charged i s))
IsTop-yield {n} {i} {s} inv r ((io, big, inl (first, whole)), top) =
    ((io, big, inr (s.current_time, rw first refl, omega arith)), top)
IsTop-yield {n} {i} {s} inv r ((io, big, inr (f, first, late)), top) =
    ((io, big, inr (f, rw first refl, omega (arith, r.arrived, late))), top)

-- It runs itself.
run_current_self :
    {n i : ℕ} {s : State}
    → Inv n s
    → Ready i s
    → IsTop (process_at s i)
    → IsTop (process_at (run_current i s) i)
run_current_self {n} {i} {s} inv r h =
    let now = s.current_time + time_of i s in
    let at : (p : Process) → get_or (set s.procs i p) i no_process ≡ p =
      λ p. get_or-set_self s.procs i p no_process r.fits in
    elim (ℕ_discrete (time_of i s) (process_at s i).remaining_time) [
      | yes e ↦
          rw (run_current-finish inv r e, set-set, at (finish now (charged i s)))
            (IsTop-finish inv r e h)
      | no more ↦
          rw (run_current-yield inv r more h.0.0, set-set, at (yield_io now (charged i s)))
            (IsTop-yield inv r h)
    ]

IsTop-run_current :
    {n j : ℕ} {s : State} (i : ℕ)
    → Inv n s
    → Ready j s
    → IsTop (process_at s i)
    → IsTop (process_at (run_current j s) i)
IsTop-run_current {n} {j} {s} i inv r h = elim (ℕ_discrete j i) [
  | yes e ↦
      subst (λ k. IsTop (process_at s k) → IsTop (process_at (run_current j s) k)) e
        (run_current_self inv r) h
  | no ne ↦ subst IsTop (sym (run_current_other i inv r ne)) h
]

-- A turn leaves it so.
abbrev IsTopAfter : ℕ → Turn → Type 0
IsTopAfter i (again t) = IsTop (process_at t i)
IsTopAfter i (stuck t) = IsTop (process_at t i)

IsTop-idle :
    (i : ℕ) (s : State) (next : Option ℕ) → IsTop (process_at s i) → IsTopAfter i (idle s next)
IsTop-idle i s none h = h
IsTop-idle i s (some t) h = h

IsTop-turn : (i : ℕ) (s : State) → Inv 0 s → IsTop (process_at s i) → IsTopAfter i (turn s)
unfolding turn
IsTop-turn i s inv h =
    let a = arrivals-AllArrived (length s.procs) 0 s inv (omega arith) in
    let t = arrivals (length s.procs) 0 s in
    let next = get_next_process-Next t a.inv in
    let h' = IsTop-Requeued i (Requeued-trans a.arrived.requeued next.requeued) h in
    after (get_next_process t) next.inv next.ready h'
  where
    after :
        {n : ℕ} (r : State × Option ℕ)
        → Inv n r.0
        → ((j : ℕ) → r.1 ≡ some j → Ready j r.0)
        → IsTop (process_at r.0 i)
        → IsTopAfter i (dispatch r)
    after (t, none) inv ready h = IsTop-idle i t (next_arrival t.current_time none t.procs) h
    after (t, some j) inv ready h = IsTop-run_current i inv (ready j refl) h

-- The process in the state that a run ends with, if it ends.
abbrev IsTopIn : ℕ → Outcome → Type 0
IsTopIn i (finished s) = IsTop (process_at s i)
IsTopIn i (broken s) = IsTop (process_at s i)
IsTopIn i out_of_fuel = Unit

IsTop-resume :
    (i : ℕ) (s : State) (rest : State → Outcome) (next : Turn)
    → ((t : State) → Inv 0 t → IsTop (process_at t i) → IsTopIn i (rest t))
    → TurnOk s next
    → IsTopAfter i next
    → IsTopIn i (resume rest next)
IsTop-resume i s rest (again t) ih (inl st) h = ih t st.inv h
IsTop-resume i s rest (again t) ih (inr w) h = ih t w.inv h
IsTop-resume i s rest (stuck t) ih ok h = h

IsTop-loop : (fuel i : ℕ) (s : State) → Inv 0 s → IsTop (process_at s i) → IsTopIn i (loop fuel s)
unfolding loop
IsTop-loop zero i s inv h = tt
IsTop-loop (suc fuel) i s inv h = elim (Bool-cases (ltb s.completed (length s.procs))) [
  | inr e ↦ rw (e, loop) h
  | inl e ↦
      rw (e, loop)
        (IsTop-resume i s (λ t. loop fuel t) (turn s) (λ t. IsTop-loop fuel i t) (turn-TurnOk s inv)
          (IsTop-turn i s inv h))
]

prepare-at :
    (ps : List Process) (i : ℕ)
    → i < length ps
    → get_or (map prepare ps) i no_process ≡ prepare (get_or ps i no_process)
prepare-at [] i h = absurd (omega (arith, h))
prepare-at (p ∷ ps) zero h = refl
prepare-at (p ∷ ps) (suc i) h = prepare-at ps i (omega (arith, h))

-- The response time that is printed for process `i` when the simulation has ended, by the test of its
-- loop or by the `break`, is negative.
abbrev pub PrintsNegative : ℕ → Outcome → Type 0
PrintsNegative i (finished s) = (n : ℕ) × (response_time (process_at s i) ≡ negsuc n)
PrintsNegative i (broken s) = (n : ℕ) × (response_time (process_at s i) ≡ negsuc n)
PrintsNegative i out_of_fuel = ⊥

PrintsNegative-of : (i : ℕ) (o : Outcome) → Ends o → IsTopIn i o → PrintsNegative i o
PrintsNegative-of i (finished s) e h = response_time-negative (process_at s i) h.0
PrintsNegative-of i (broken s) e h = response_time-negative (process_at s i) h.0
PrintsNegative-of i out_of_fuel e h = e

-- With at most 10 processes and bursts above 0, `run_mlfq_simulation` ends within twice the sum of the
-- bursts and two rounds, and the response time that `print_results` then computes for an I/O-bound
-- process with a burst above 2, a fifth of the first quantum, is negative: its arrival time was
-- overwritten with the end of an I/O, or it has never run and its first run is still -1.
pub response_time_of_io :
    (fuel i : ℕ) (ps : List Process)
    → length ps ≤ max_processes
    → All (λ p. 0 < p.burst_time) ps
    → 2 * total Process.burst_time ps + 1 < fuel
    → i < length ps
    → (get_or ps i no_process).is_io_bound ≡ true
    → 2 < (get_or ps i no_process).burst_time
    → PrintsNegative i (run_mlfq_simulation fuel ps)
unfolding run_mlfq_simulation
response_time_of_io fuel i ps few bursts h fits io big =
    PrintsNegative-of i (run_mlfq_simulation fuel ps)
      (run_mlfq_simulation-Ends fuel ps few bursts h)
      (IsTop-loop fuel i (start ps) (Inv-start ps few bursts)
        (rw (prepare-at ps i fits) ((io, big, inl (refl, refl)), refl)))
