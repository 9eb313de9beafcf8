-- ===== src/Sched/Mlfq/Run/Missed.antt =====
-- A process whose arrival time is passed over never runs again.
use cp.Common.{
  ℕ, zero, suc, ◌+◌, ◌*◌, ◌<◌, ◌≡◌, ◌≢◌, refl, ap, ◌∙◌, inl, inr, arith, Bool, true, false, ◌&&◌,
  ltb, leb, ◌==◌, if◌then◌else◌, Bool-cases, Option, none, some, List, [], ◌∷◌, length, total,
  get_or-set, occurs, occurs-append, get_or, ℕ_discrete,
}
use cp.Sched.Mlfq.Run.Ends.{next_arrival-future, Ends, loop-Ends}
use cp.Sched.Mlfq.Invariant.{Inv, unfinished}
use cp.Sched.Mlfq.Run.Work.{work}
use cp.Sched.Mlfq.{
  Process, State, no_process, queue_at, put_queue, put_process, process_at, add_process_to_queue,
  move_to_top, boost_queue, boost, find_process, get_next_process,
}
use cp.Sched.Mlfq.Run.{
  arrive, arrivals, settle, run_current, next_arrival, Turn, again, stuck, idle, dispatch, turn,
  Outcome, finished, broken, out_of_fuel, resume, loop, yield_io, finish, next_queue, charge,
  run_time,
}

-- In no queue, and due at a time that the clock has passed.
pub record Missed (i : ℕ) (s : State) : Type 0 where
  pub passed : (process_at s i).arrival_time < s.current_time
  pub nowhere :
      (occurs i s.queue0.processes ≡ 0)
      × (occurs i s.queue1.processes ≡ 0)
      × (occurs i s.queue2.processes ≡ 0)

-- Still missed, and the process itself as it was.
record Still (i : ℕ) (s t : State) : Type 0 where
  missed : Missed i t
  same : process_at t i ≡ process_at s i

Still-refl : {i : ℕ} {s : State} → Missed i s → Still i s s
Still-refl m = record { missed = m; same = refl }

Still-trans : {i : ℕ} {s t u : State} → Still i s t → Still i t u → Still i s u
Still-trans a b = record { missed = b.missed; same = b.same ∙ a.same }

Still-add : (i j q : ℕ) (s : State) → j ≢ i → Missed i s → Still i s (add_process_to_queue j q s)
unfolding add_process_to_queue
Still-add i j zero s ne m = ground (
  arith,
  get_or-set s.procs j i
      (record (process_at s j) { current_queue = 0; time_in_current_quantum = 0 }) no_process,
  occurs-append i s.queue0.processes (j ∷ []),
)
Still-add i j (suc zero) s ne m = ground (
  arith,
  get_or-set s.procs j i
      (record (process_at s j) { current_queue = 1; time_in_current_quantum = 0 }) no_process,
  occurs-append i s.queue1.processes (j ∷ []),
)
Still-add i j (suc (suc q)) s ne m = ground (
  arith,
  get_or-set s.procs j i
      (record (process_at s j) { current_queue = suc (suc q); time_in_current_quantum = 0 })
      no_process,
  occurs-append i s.queue2.processes (j ∷ []),
)

Still-arrive : (i j : ℕ) (s : State) → Missed i s → Still i s (arrive j s)
unfolding arrive
Still-arrive i j s m = elim (ℕ_discrete j i) [
  | yes e ↦ ground arith
  | no ne ↦ ground (arith, Still-add i j 0 s ne m)
]

Still-arrivals : (i left j : ℕ) (s : State) → Missed i s → Still i s (arrivals left j s)
unfolding arrivals
Still-arrivals i zero j s m = Still-refl m
Still-arrivals i (suc left) j s m =
    let a = Still-arrive i j s m in
    Still-trans a (Still-arrivals i left (j + 1) (arrive j s) a.missed)

Still-move :
    (i : ℕ) (is : List ℕ) (s : State) → occurs i is ≡ 0 → Missed i s → Still i s (move_to_top is s)
unfolding move_to_top
Still-move i [] s h m = Still-refl m
Still-move i (j ∷ is) s h m =
    let a = Still-add i j 0 s (λ e. ground arith) m in
    Still-trans a (Still-move i is (add_process_to_queue j 0 s) (ground arith) a.missed)

Still-clear :
    (i q : ℕ) (s : State)
    → Missed i s
    → Still i s (put_queue q (record (queue_at q s) { processes = [] }) s)
Still-clear i zero s m = ground arith
Still-clear i (suc zero) s m = ground arith
Still-clear i (suc (suc q)) s m = ground arith

occurs-queue_at : (i q : ℕ) (s : State) → Missed i s → occurs i (queue_at q s).processes ≡ 0
occurs-queue_at i zero s m = m.nowhere.0
occurs-queue_at i (suc zero) s m = m.nowhere.1
occurs-queue_at i (suc (suc q)) s m = m.nowhere.2

Still-boost_queue : (i q : ℕ) (s : State) → Missed i s → Still i s (boost_queue q s)
unfolding boost_queue
Still-boost_queue i q s m =
    let a = Still-move i (queue_at q s).processes s (occurs-queue_at i q s m) m in
    Still-trans a (Still-clear i q (move_to_top (queue_at q s).processes s) a.missed)

Still-boost : (i : ℕ) (s : State) → Missed i s → Still i s (boost s)
unfolding boost
Still-boost i s m =
    let a = Still-boost_queue i 1 s m in
    let b = Still-boost_queue i 2 (boost_queue 1 s) a.missed in ground arith

-- The search takes another process.
Still-find :
    (i : ℕ) (s : State) → Missed i s → Still i s (find_process s).0 × ((find_process s).1 ≢ some i)
unfolding find_process
Still-find i s m = ground arith

Still-if :
    {i : ℕ} {s x y : State} (b : Bool) → Still i s x → Still i s y → Still i s (if b then x else y)
Still-if true a c = a
Still-if false a c = c

Still-put :
    (i j c : ℕ) (p : Process) (s : State)
    → j ≢ i
    → Missed i s
    → Still i s (put_process j p (record s { completed = c }))
Still-put i j c p s ne m = ground (arith, get_or-set s.procs j i p no_process)

Still-settle :
    (i j : ℕ) (p : Process) (q slice r : ℕ) (s : State)
    → j ≢ i
    → Missed i s
    → Still i s (settle j p q slice r s)
unfolding settle
Still-settle i j p q slice r s ne m =
    let a = Still-put i j s.completed (record p { time_in_current_quantum = 0 }) s ne m in
    Still-if (p.remaining_time == 0)
      (Still-put i j (s.completed + 1) (finish s.current_time p) s ne m)
      (Still-if (p.is_io_bound && ltb r slice)
        (Still-put i j s.completed (yield_io s.current_time p) s ne m)
        (Still-if (leb slice p.time_in_current_quantum)
          (Still-trans a (Still-add i j (next_queue q) _ ne a.missed)) (Still-add i j q s ne m)))

Still-run_current : (i j : ℕ) (s : State) → j ≢ i → Missed i s → Still i s (run_current j s)
unfolding run_current
Still-run_current i j s ne m =
    let p = process_at s j in
    let slice = (queue_at p.current_queue s).time_quantum in
    let r = run_time slice p in
    let p' = charge s.current_time r p in
    let t : State = record s { current_time = s.current_time + r } in
    let timed : Missed i t = record { passed = omega (arith, m.passed); nowhere = m.nowhere } in
    let a = Still-put i j s.completed p' t ne timed in
    let b = Still-settle i j p' p.current_queue slice r (put_process j p' t) ne a.missed in
    record { missed = b.missed; same = b.same ∙ a.same }

-- What a turn leaves of a process that was missed.
abbrev StillAfter : ℕ → State → Turn → Type 0
StillAfter i s (again t) = Still i s t
StillAfter i s (stuck t) = Still i s t

Still-idle :
    (i : ℕ) (s : State) (next : Option ℕ)
    → Missed i s
    → ((t : ℕ) → next ≡ some t → s.current_time < t)
    → StillAfter i s (idle s next)
Still-idle i s none m later = Still-refl m
Still-idle i s (some t) m later = record {
  missed = record { passed = omega (arith, m.passed, later t refl); nowhere = m.nowhere };
  same = refl;
}

StillAfter-trans :
    {i : ℕ} {s t : State} (next : Turn) → Still i s t → StillAfter i t next → StillAfter i s next
StillAfter-trans (again u) a b = Still-trans a b
StillAfter-trans (stuck u) a b = Still-trans a b

Still-dispatch :
    (i : ℕ) (s : State) (next : Option ℕ)
    → Missed i s
    → next ≢ some i
    → StillAfter i s (dispatch (s, next))
Still-dispatch i s none m ne =
    Still-idle i s (next_arrival s.current_time none s.procs) m
      (next_arrival-future s.current_time s.procs)
Still-dispatch i s (some j) m ne = Still-run_current i j s (λ e. ne (ap some e)) m

Still-turn : (i : ℕ) (s : State) → Missed i s → StillAfter i s (turn s)
unfolding turn get_next_process
Still-turn i s m =
    let a = Still-arrivals i (length s.procs) 0 s m in
    let t = arrivals (length s.procs) 0 s in
    let b = Still-boost i t a.missed in
    let (c, ne) = Still-find i (boost t) b.missed in
    StillAfter-trans (dispatch (find_process (boost t))) (Still-trans a (Still-trans b c))
      (Still-dispatch i (find_process (boost t)).0 (find_process (boost t)).1 c.missed ne)

-- The process in the state that a run ends with, if it ends.
abbrev pub Keeps : ℕ → Process → Outcome → Type 0
Keeps i p (finished s) = process_at s i ≡ p
Keeps i p (broken s) = process_at s i ≡ p
Keeps i p out_of_fuel = Unit

after :
    (fuel i : ℕ) (s : State) (next : Turn)
    → StillAfter i s next
    → ((t : State) → Missed i t → Keeps i (process_at t i) (loop fuel t))
    → Keeps i (process_at s i) (resume (λ t. loop fuel t) next)
after fuel i s (again t) a rest = rw (← a.same) (rest t a.missed)
after fuel i s (stuck t) a rest = a.same

-- A process that waits in no queue when the clock is past its arrival time is never run again: from
-- any such state, however long the loop runs, the process ends as it was.
pub Missed-Keeps : (fuel i : ℕ) (s : State) → Missed i s → Keeps i (process_at s i) (loop fuel s)
unfolding loop
Missed-Keeps zero i s m = tt
Missed-Keeps (suc fuel) i s m = elim (Bool-cases (ltb s.completed (length s.procs))) [
  | inr e ↦ rw (e, loop) refl
  | inl e ↦ rw (e, loop) (after fuel i s (turn s) (Still-turn i s m) (λ t. Missed-Keeps fuel i t))
]

remaining_of_none_left :
    (ps : List Process) (i : ℕ)
    → total unfinished ps ≡ 0
    → (get_or ps i no_process).remaining_time ≡ 0
remaining_of_none_left [] i h = refl
remaining_of_none_left (p ∷ ps) zero h = ground arith
remaining_of_none_left (p ∷ ps) (suc i) h = remaining_of_none_left ps i (omega arith)

broken_of :
    (i : ℕ) (p : Process) (o : Outcome)
    → 0 < p.remaining_time
    → Ends o
    → Keeps i p o
    → (t : State) × (o ≡ broken t)
broken_of i p (finished t) h e k = absurd (ground (arith, remaining_of_none_left t.procs i e))
broken_of i p (broken t) h e k = (t, refl)
broken_of i p out_of_fuel h e k = absurd e

-- A simulation in which a process that still needs the CPU was missed does not complete: from any
-- state of the invariant with such a process the loop ends, and by its error branch.
pub Missed-broken :
    (fuel i : ℕ) (s : State)
    → Inv 0 s
    → Missed i s
    → 0 < (process_at s i).remaining_time
    → 2 * work s + 1 < fuel
    → (t : State) × (loop fuel s ≡ broken t)
Missed-broken fuel i s inv m alive h =
    broken_of i (process_at s i) (loop fuel s) alive ((loop-Ends fuel).0 s inv h)
      (Missed-Keeps fuel i s m)
