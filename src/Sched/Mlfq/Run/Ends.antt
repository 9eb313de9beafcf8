-- ===== src/Sched/Mlfq/Run/Ends.antt =====
-- The `while` loop of the simulation ends: by its test with every process completed, or by its
-- `break` with processes that never come back.
use cp.Common.{
  Option-cases, ℕ, zero, suc, ◌+◌, ◌*◌, ◌≤◌, ◌<◌, ◌≡◌, refl, ap, ◌∙◌, ◌⊎◌, inl, inr, arith, false,
  ltb, Bool-cases, Option, none, some, List, [], ◌∷◌, map, length, total, All, All-get_or, occurs,
  get_or,
}
use cp.Sched.Mlfq.{max_processes, Process, State, no_process, process_at, get_next_process}
use cp.Sched.Mlfq.Flat.{flat}
use cp.Sched.Mlfq.Invariant.{unfinished, Inv}
use cp.Sched.Mlfq.Run.{
  prepare, run_current, closer, next_arrival, Turn, again, stuck, idle, dispatch, turn, Outcome,
  finished, broken, out_of_fuel, resume, loop, start, run_mlfq_simulation,
}
use cp.Sched.Mlfq.Run.Keeps.{total-same, Requeued, Requeued-trans, arrivals-AllArrived}
use cp.Sched.Mlfq.Run.Next.{get_next_process-Next}
use cp.Sched.Mlfq.Run.Work.{work, Stepped, run_current-Stepped}

-- Some process is queued, or arrives now.
abbrev pub Awake : State → Type 0
Awake s =
    (j : ℕ) × (j < length s.procs)
    × ((0 < occurs j (flat s)) ⊎ ((process_at s j).arrival_time ≡ s.current_time))

-- The idle branch: the clock moves to an arrival of a process that still needs the CPU.
pub record Waited (s u : State) : Type 0 where
  pub inv : Inv 0 u
  work_same : work u ≡ work s
  awake : Awake u

-- The `break`: no process is queued, and none that needs the CPU is to arrive.
pub record Stopped (s u : State) : Type 0 where
  pub size : length u.procs ≡ length s.procs
  pub completed : u.completed ≡ s.completed
  pub counted : u.completed + total unfinished u.procs ≡ length u.procs
  pub none_queued : flat u ≡ []
  pub none_coming : All (λ p. (p.remaining_time ≡ 0) ⊎ (p.arrival_time ≤ u.current_time)) u.procs

abbrev pub TurnOk : State → Turn → Type 0
TurnOk s (again u) = Stepped s u ⊎ Waited s u
TurnOk s (stuck u) = Stopped s u

record IsNext (now t : ℕ) (p : Process) : Type 0 where
  arrival : p.arrival_time ≡ t
  future : now < t
  alive : 0 < p.remaining_time

closer-some :
    (now : ℕ) (found : Option ℕ) (p : Process) (t : ℕ)
    → closer now found p ≡ some t
    → (found ≡ some t) ⊎ IsNext now t p
closer-some now none p t e = ground arith
closer-some now (some u) p t e = ground arith

closer-none :
    (now : ℕ) (found : Option ℕ) (p : Process)
    → closer now found p ≡ none
    → (found ≡ none) × ((p.remaining_time ≡ 0) ⊎ (p.arrival_time ≤ now))
closer-none now none p e = ground arith
closer-none now (some u) p e = ground arith

work-Requeued : {s t : State} → Requeued s t → work t ≡ work s
work-Requeued {s} {t} q =
    total-same Process.remaining_time s.procs t.procs q.globals.size (λ j. ground (arith, q.proc j))

-- The next arrival, if there is one, is that of a process that needs the CPU.
next_arrival-some :
    (now : ℕ) (found : Option ℕ) (ps : List Process) (t : ℕ)
    → next_arrival now found ps ≡ some t
    → (found ≡ some t)
      ⊎ ((j : ℕ) × (j < length ps)
          × ((get_or ps j no_process).arrival_time ≡ t)
          × (now < t)
          × (0 < (get_or ps j no_process).remaining_time))
unfolding next_arrival
next_arrival-some now found [] t e = inl e
next_arrival-some now found (p ∷ ps) t e =
    elim (next_arrival-some now (closer now found p) ps t e) [
      | inl h ↦ elim (closer-some now found p t h) [
        | inl same ↦ inl same
        | inr c ↦ inr (0, omega arith, c.arrival, c.future, c.alive)
      ]
      | inr (j, lt, at, future, alive) ↦ inr (suc j, omega arith, at, future, alive)
    ]

-- It lies in the future.
pub next_arrival-future :
    (now : ℕ) (ps : List Process) (t : ℕ) → next_arrival now none ps ≡ some t → now < t
next_arrival-future now ps t e = elim (next_arrival-some now none ps t e) [
  | inl h ↦ cc
  | inr (j, lt, at, future, alive) ↦ future
]

next_arrival-none :
    (now : ℕ) (found : Option ℕ) (ps : List Process)
    → next_arrival now found ps ≡ none
    → (found ≡ none) × All (λ p. (p.remaining_time ≡ 0) ⊎ (p.arrival_time ≤ now)) ps
unfolding next_arrival
next_arrival-none now found [] e = (e, tt)
next_arrival-none now found (p ∷ ps) e =
    let (h, rest) = next_arrival-none now (closer now found p) ps e in
    let c = closer-none now found p h in (c.0, (c.1, rest))

Stepped-Requeued : {s t u : State} → Requeued s t → Stepped t u → Stepped s u
Stepped-Requeued {s} {t} q st = record {
  inv = st.inv;
  size = st.size ∙ q.globals.size;
  forward = omega (arith, st.forward, q.globals.time);
  work_done = omega (arith, st.work_done, q.globals.time, work-Requeued q);
}

Waited-next :
    {n a : ℕ} {s t : State}
    → Inv n t
    → Requeued s t
    → flat t ≡ []
    → (none ≡ some a)
      ⊎ ((j : ℕ) × (j < length t.procs)
          × ((process_at t j).arrival_time ≡ a)
          × (t.current_time < a)
          × (0 < (process_at t j).remaining_time))
    → Waited s (record t { current_time = a })
Waited-next inv q none_queued (inl e) = cc
Waited-next {n} {a} {s} {t} inv q none_queued (inr (j, fits, at, future, alive)) = record {
  inv = record {
    few = inv.few;
    once = inv.once;
    queued = λ k h. absurd (not_queued_of_nil k h);
    level0 = inv.level0;
    level1 = inv.level1;
    level2 = inv.level2;
    ahead = λ k g h. inv.ahead k g (omega arith);
    quantum0 = inv.quantum0;
    quantum1 = inv.quantum1;
    quantum2 = inv.quantum2;
    counted = inv.counted;
  };
  work_same = work-Requeued q;
  awake = (j, fits, inr at);
}
  where
    not_queued_of_nil : (k : ℕ) → 0 < occurs k (flat t) → ⊥
    not_queued_of_nil k h = ground arith

-- The idle branch, with no process in the queues.
idle-TurnOk :
    {n : ℕ} {s t : State}
    → Inv n t
    → Requeued s t
    → flat t ≡ []
    → TurnOk s (idle t (next_arrival t.current_time none t.procs))
idle-TurnOk {n} {s} {t} inv q none_queued =
    elim (Option-cases (next_arrival t.current_time none t.procs)) [
      | inl e ↦ rw e record {
        size = q.globals.size;
        completed = q.globals.completed;
        counted = inv.counted;
        none_queued = none_queued;
        none_coming = (next_arrival-none t.current_time none t.procs e).1;
      }
      | inr (a, e) ↦
          rw e (
            inr (Waited-next inv q none_queued (next_arrival-some t.current_time none t.procs a e)))
    ]

-- The rest of the body, after the arrivals.
dispatch-TurnOk :
    {n : ℕ} {s t : State} → Inv n t → Requeued s t → TurnOk s (dispatch (get_next_process t))
dispatch-TurnOk {n} {s} {t} inv q =
    let next = get_next_process-Next t inv in
    let q' = Requeued-trans q next.requeued in
    elim (Option-cases (get_next_process t).1) [
      | inl e ↦ rw e (idle-TurnOk next.inv q' (next.empty e).1)
      | inr (i, e) ↦
          rw e (inl (Stepped-Requeued q' (run_current-Stepped next.inv (next.ready i e))))
    ]

-- If a process is queued, one runs.
dispatch-Stepped :
    {n : ℕ} {s t : State} (j : ℕ)
    → Inv n t
    → Requeued s t
    → 0 < occurs j (flat t)
    → (u : State) × (dispatch (get_next_process t) ≡ again u) × Stepped s u
dispatch-Stepped {n} {s} {t} j inv q here =
    let next = get_next_process-Next t inv in
    elim (Option-cases (get_next_process t).1) [
      | inl e ↦ absurd (ground (arith, (next.empty e).0))
      | inr (i, e) ↦ (
        run_current i (get_next_process t).0,
        rw e,
        Stepped-Requeued (Requeued-trans q next.requeued)
            (run_current-Stepped next.inv (next.ready i e)),
      )
    ]

pub turn-TurnOk : (s : State) → Inv 0 s → TurnOk s (turn s)
unfolding turn
turn-TurnOk s inv =
    let a = arrivals-AllArrived (length s.procs) 0 s inv (omega arith) in
    dispatch-TurnOk a.inv a.arrived.requeued

turn-Stepped : (s : State) → Inv 0 s → Awake s → (u : State) × (turn s ≡ again u) × Stepped s u
unfolding turn
turn-Stepped s inv (j, fits, why) =
    let a = arrivals-AllArrived (length s.procs) 0 s inv (omega arith) in
    dispatch-Stepped j a.inv a.arrived.requeued (elim why [
      | inl old ↦ omega (arith, a.arrived.grown j)
      | inr now ↦ a.caught j (omega arith) fits now
    ])

-- How a run ends. By the test of the loop: every process is completed. By the `break`: a process is
-- left that needs the CPU, none is queued, and the arrival of each that is left has passed.
pub record IsAbandoned (s : State) : Type 0 where
  pub left : 0 < total unfinished s.procs
  pub none_queued : flat s ≡ []
  pub passed : All (λ p. (p.remaining_time ≡ 0) ⊎ (p.arrival_time ≤ s.current_time)) s.procs

abbrev pub Ends : Outcome → Type 0
Ends (finished s) = total unfinished s.procs ≡ 0
Ends (broken s) = IsAbandoned s
Ends out_of_fuel = ⊥

-- With `fuel` rounds left every state of the invariant ends, if the fuel is twice its work and one
-- more for a state in which no process can run at once.
abbrev pub EndsWithin : ℕ → (State → Outcome) → Type 0
EndsWithin fuel rest =
    ((s : State) → Inv 0 s → 2 * work s + 1 < fuel → Ends (rest s))
    × ((s : State) → Inv 0 s → Awake s → 2 * work s < fuel → Ends (rest s))

resume-Ends :
    {fuel : ℕ} (s : State) (rest : State → Outcome) (next : Turn)
    → EndsWithin fuel rest
    → TurnOk s next
    → s.completed < length s.procs
    → 2 * work s < fuel
    → Ends (resume rest next)
resume-Ends s rest (again u) ih (inl st) more h =
    ih.0 u st.inv (omega (arith, st.forward, st.work_done))
resume-Ends s rest (again u) ih (inr w) more h = ih.1 u w.inv w.awake (omega (arith, w.work_same))
resume-Ends s rest (stuck u) ih ok more h = record {
  left = omega (arith, ok.size, ok.completed, ok.counted);
  none_queued = ok.none_queued;
  passed = ok.none_coming;
}

finished-Ends :
    (s : State) → Inv 0 s → ltb s.completed (length s.procs) ≡ false → total unfinished s.procs ≡ 0
finished-Ends s inv e = ground (arith, inv.counted)

pub loop-Ends : (fuel : ℕ) → EndsWithin fuel (loop fuel)
unfolding loop
loop-Ends zero = (λ s inv h. absurd (omega arith), λ s inv a h. absurd (omega arith))
loop-Ends (suc fuel) = (
  λ s inv h. elim (Bool-cases (ltb s.completed (length s.procs))) [
    | inl more ↦
        rw (more, loop)
          (resume-Ends s (λ t. loop fuel t) (turn s) (loop-Ends fuel) (turn-TurnOk s inv)
            (ground arith) (omega arith))
    | inr e ↦ rw (e, loop) (finished-Ends s inv e)
  ],
  λ s inv a h. elim (Bool-cases (ltb s.completed (length s.procs))) [
    | inl more ↦
        let (u, e, st) = turn-Stepped s inv a in
        rw (more, e, loop) ((loop-Ends fuel).0 u st.inv (omega (arith, st.forward, st.work_done)))
    | inr e ↦ rw (e, loop) (finished-Ends s inv e)
  ],
)

All-prepare :
    (ps : List Process)
    → All (λ p. 0 < p.burst_time) ps
    → All (λ p. 0 < p.remaining_time) (map prepare ps)
All-prepare [] h = tt
All-prepare (p ∷ ps) h = (h.0, All-prepare ps h.1)

unfinished-prepare :
    (ps : List Process)
    → All (λ p. 0 < p.burst_time) ps
    → total unfinished (map prepare ps) ≡ length ps
unfinished-prepare [] h = refl
unfinished-prepare (p ∷ ps) h = ground (arith, unfinished-prepare ps h.1)

pub length-prepare : (ps : List Process) → length (map prepare ps) ≡ length ps
length-prepare [] = refl
length-prepare (p ∷ ps) = ap suc (length-prepare ps)

work-prepare :
    (ps : List Process)
    → total Process.remaining_time (map prepare ps) ≡ total Process.burst_time ps
work-prepare [] = refl
work-prepare (p ∷ ps) = omega (arith, work-prepare ps)

pub Inv-start :
    (ps : List Process)
    → length ps ≤ max_processes
    → All (λ p. 0 < p.burst_time) ps
    → Inv 0 (start ps)
Inv-start ps few bursts = record {
  few = omega (arith, length-prepare ps);
  once = λ j. omega arith;
  queued = λ j h. absurd (omega arith);
  level0 = λ j h. absurd (omega arith);
  level1 = λ j h. absurd (omega arith);
  level2 = λ j h. absurd (omega arith);
  ahead = λ j g h.
      All-get_or (λ p. 0 < p.remaining_time) (map prepare ps) j no_process g
        (All-prepare ps bursts);
  quantum0 = refl;
  quantum1 = refl;
  quantum2 = refl;
  counted = omega (arith, unfinished-prepare ps bursts, length-prepare ps);
}

-- With at most 10 processes and bursts above 0, `run_mlfq_simulation` ends within twice the sum of
-- the bursts and two rounds: with every process completed, or by its error branch, with nothing
-- queued and the arrival of each process that is left in the past.
pub run_mlfq_simulation-Ends :
    (fuel : ℕ) (ps : List Process)
    → length ps ≤ max_processes
    → All (λ p. 0 < p.burst_time) ps
    → 2 * total Process.burst_time ps + 1 < fuel
    → Ends (run_mlfq_simulation fuel ps)
unfolding run_mlfq_simulation
run_mlfq_simulation-Ends fuel ps few bursts h =
    (loop-Ends fuel).0 (start ps) (Inv-start ps few bursts) (omega (arith, work-prepare ps))
