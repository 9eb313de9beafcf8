-- ===== src/Sched/Mlfq/Flat.antt =====
-- The three queues as one line of processes: adding, the priority boost, and taking the next one.
use cp.Common.{
  ℕ, zero, suc, ◌+◌, ◌-◌, ◌≤◌, ◌<◌, ◌≡◌, refl, ap, ◌∙◌, inl, inr, arith, ltb, leb, ◌==◌,
  if◌then◌else◌, Bool-cases, Option, none, some, List, [], ◌∷◌, ◌++◌, length, All, length-append,
  length-set, get_or-set, occurs, dec_le,
}
use mathlib.Core.List.{append-nil, append_assoc}
use cp.Sched.Mlfq.{
  max_processes, Process, Queue, State, boost_interval, queue_at, put_queue, no_process, process_at,
  add_process_to_queue, move_to_top, boost, find_process, get_next_process,
}

-- All the queued processes, in the order in which they are taken if none is added.
abbrev pub flat : State → List ℕ
flat s = s.queue0.processes ++ (s.queue1.processes ++ s.queue2.processes)

abbrev pub requeue : ℕ → Process → Process
requeue q p = record p { current_queue = q; time_in_current_quantum = 0 }

-- What adding leaves alone.
pub record SameGlobals (s t : State) : Type 0 where
  pub time : t.current_time ≡ s.current_time
  pub completed : t.completed ≡ s.completed
  pub size : length t.procs ≡ length s.procs

abbrev pub push : Queue → ℕ → Queue
push x i = record x { processes = x.processes ++ (i ∷ []) }

-- One process goes behind those of queue `q`, at level `q` and with its quantum anew.
pub record Added (i q : ℕ) (s t : State) : Type 0 where
  pub globals : SameGlobals s t
  pub boosted : t.last_boost_time ≡ s.last_boost_time
  pub top : t.queue0 ≡ (if q == 0 then push s.queue0 i else s.queue0)
  pub middle : t.queue1 ≡ (if q == 1 then push s.queue1 i else s.queue1)
  pub bottom : t.queue2 ≡ (if q == 2 then push s.queue2 i else s.queue2)
  pub proc :
      (j : ℕ) → process_at t j ≡ (if i == j then requeue q (process_at s j) else process_at s j)

pub add-Added :
    (i q : ℕ) (s : State)
    → q ≤ 2
    → length (queue_at q s).processes < max_processes
    → i < length s.procs
    → Added i q s (add_process_to_queue i q s)
unfolding add_process_to_queue
add-Added i zero s h room fits = record {
  globals = ground (arith, length-set s.procs i (requeue 0 (process_at s i)));
  boosted = ground arith;
  top = ground arith;
  middle = ground arith;
  bottom = ground arith;
  proc = λ j. ground (arith, get_or-set s.procs i j (requeue 0 (process_at s i)) no_process);
}
add-Added i (suc zero) s h room fits = record {
  globals = ground (arith, length-set s.procs i (requeue 1 (process_at s i)));
  boosted = ground arith;
  top = ground arith;
  middle = ground arith;
  bottom = ground arith;
  proc = λ j. ground (arith, get_or-set s.procs i j (requeue 1 (process_at s i)) no_process);
}
add-Added i (suc (suc zero)) s h room fits = record {
  globals = ground (arith, length-set s.procs i (requeue 2 (process_at s i)));
  boosted = ground arith;
  top = ground arith;
  middle = ground arith;
  bottom = ground arith;
  proc = λ j. ground (arith, get_or-set s.procs i j (requeue 2 (process_at s i)) no_process);
}
add-Added i (suc (suc (suc q))) s h room fits = absurd (omega arith)

-- The processes of `is` go behind those of queue 0, in their order; their level becomes 0 and their
-- quantum starts anew. Nothing else changes.
pub record Moved (is : List ℕ) (s t : State) : Type 0 where
  pub globals : SameGlobals s t
  pub boosted : t.last_boost_time ≡ s.last_boost_time
  pub top : t.queue0 ≡ record (s.queue0) { processes = s.queue0.processes ++ is }
  pub middle : t.queue1 ≡ s.queue1
  pub bottom : t.queue2 ≡ s.queue2
  pub proc :
      (j : ℕ)
      → process_at t j
        ≡ (if ltb 0 (occurs j is) then requeue 0 (process_at s j) else process_at s j)

Moved-cons :
    {i : ℕ} {is : List ℕ} {s t u : State} → Added i 0 s t → Moved is t u → Moved (i ∷ is) s u
Moved-cons {i} {is} {s} a m = record {
  globals = omega arith;
  boosted = omega arith;
  top = ground (arith, append_assoc s.queue0.processes (i ∷ []) is);
  middle = ground arith;
  bottom = ground arith;
  proc = λ j. ground (arith, a.proc j, m.proc j);
}

fits_over : {m n : ℕ} (is : List ℕ) → m ≡ n → All (λ i. i < n) is → All (λ i. i < m) is
fits_over is e h = rw e h

pub move_to_top-Moved :
    (is : List ℕ) (s : State)
    → length s.queue0.processes + length is ≤ max_processes
    → All (λ i. i < length s.procs) is
    → Moved is s (move_to_top is s)
unfolding move_to_top
move_to_top-Moved [] s room fits = record {
  globals = ground arith;
  boosted = refl;
  top = ground (arith, append-nil s.queue0.processes);
  middle = refl;
  bottom = refl;
  proc = λ j. refl;
}
move_to_top-Moved (i ∷ is) s room fits =
    let a = add-Added i 0 s (omega arith) (omega arith) fits.0 in
    Moved-cons a (
      move_to_top-Moved is (add_process_to_queue i 0 s)
        (ground (arith, a.top, length-append s.queue0.processes (i ∷ [])))
        (fits_over is a.globals.size fits.1))

-- The boost moves queue 1, then queue 2, behind queue 0.
pub record Boosted (s t : State) : Type 0 where
  pub globals : SameGlobals s t
  pub boosted : t.last_boost_time ≡ s.current_time
  pub top : t.queue0 ≡ record (s.queue0) { processes = flat s }
  pub middle : t.queue1 ≡ record (s.queue1) { processes = [] }
  pub bottom : t.queue2 ≡ record (s.queue2) { processes = [] }
  pub proc :
      (j : ℕ)
      → process_at t j ≡ (
          if ltb 0 (occurs j s.queue1.processes + occurs j s.queue2.processes)
          then requeue 0 (process_at s j)
          else process_at s j)

abbrev pub IsDue : State → Type 0
IsDue s = boost_interval ≤ s.current_time - s.last_boost_time

All_append_left {ℓ κ} : {A : Type ℓ} (P : A → Type κ) (xs ys : List A) → All P (xs ++ ys) → All P xs
All_append_left P [] ys h = tt
All_append_left P (x ∷ xs) ys h = (h.0, All_append_left P xs ys h.1)

All_append_right {ℓ κ} :
    {A : Type ℓ} (P : A → Type κ) (xs ys : List A) → All P (xs ++ ys) → All P ys
All_append_right P [] ys h = h
All_append_right P (x ∷ xs) ys h = All_append_right P xs ys h.1

pub length-flat :
    (s : State)
    → length (flat s)
      ≡ length s.queue0.processes + length s.queue1.processes + length s.queue2.processes
length-flat s = omega (
  arith,
  length-append s.queue0.processes (s.queue1.processes ++ s.queue2.processes),
  length-append s.queue1.processes s.queue2.processes,
)

Boosted-Moved :
    (s t u : State) (is : List ℕ)
    → is ≡ s.queue2.processes
    → Moved s.queue1.processes s t
    → Moved is (put_queue 1 (record (queue_at 1 t) { processes = [] }) t) u
    → Boosted s (record (put_queue 2 (record (queue_at 2 u) { processes = [] }) u) {
      last_boost_time = s.current_time;
    })
Boosted-Moved s t u is e a b = record {
  globals = omega arith;
  boosted = refl;
  top = ground (arith, append_assoc s.queue0.processes s.queue1.processes s.queue2.processes);
  middle = ground arith;
  bottom = ground arith;
  proc = λ j. ground (arith, a.proc j, b.proc j);
}

pub boost-Boosted :
    (s : State)
    → length (flat s) ≤ max_processes
    → All (λ i. i < length s.procs) (flat s)
    → IsDue s
    → Boosted s (boost s)
unfolding boost
boost-Boosted s room fits due =
    elim (Bool-cases (leb boost_interval (s.current_time - s.last_boost_time))) [
      | inl e ↦ rw e (Boosted-Moved s t _ t.queue2.processes (ap Queue.processes a.bottom) a b)
      | inr e ↦ absurd (ground arith)
    ]
  where
    is1 : List ℕ
    is1 = s.queue1.processes

    below : All (λ i. i < length s.procs) (s.queue1.processes ++ s.queue2.processes)
    below = All_append_right _ s.queue0.processes _ fits

    t : State
    t = move_to_top is1 s

    a : Moved is1 s t
    a = move_to_top-Moved is1 s (omega (arith, length-flat s)) (All_append_left _ is1 _ below)

    t' : State
    t' = put_queue 1 (record (queue_at 1 t) { processes = [] }) t

    fits2 : All (λ i. i < length t'.procs) t'.queue2.processes
    fits2 = rw (a.bottom, a.globals.size) (All_append_right _ is1 _ below)

    b : Moved t.queue2.processes t' (move_to_top t.queue2.processes t')
    b =
        move_to_top-Moved t.queue2.processes t'
          (ground (arith, length-flat s, a.top, a.bottom, length-append s.queue0.processes is1))
          fits2

pub boost_not_due : (s : State) → ¬ IsDue s → boost s ≡ s
unfolding boost
boost_not_due s h = ground arith

pub boost-flat :
    (s : State)
    → length (flat s) ≤ max_processes
    → All (λ i. i < length s.procs) (flat s)
    → flat (boost s) ≡ flat s
boost-flat s room fits = elim (dec_le boost_interval (s.current_time - s.last_boost_time)) [
  | yes due ↦
      let b = boost-Boosted s room fits due in rw (b.top, b.middle, b.bottom) (append-nil (flat s))
  | no early ↦ rw (boost_not_due s early)
]

-- Taking the first of the line.
abbrev pub pop : List ℕ → List ℕ × Option ℕ
pop [] = ([], none)
pop (i ∷ is) = (is, some i)

-- The search takes the first process of the line, and changes nothing but the queue it is in.
pub record Found (s t : State) (next : Option ℕ) : Type 0 where
  pub globals : SameGlobals s t
  pub procs : t.procs ≡ s.procs
  pub boosted : t.last_boost_time ≡ s.last_boost_time
  pub quantum0 : t.queue0.time_quantum ≡ s.queue0.time_quantum
  pub quantum1 : t.queue1.time_quantum ≡ s.queue1.time_quantum
  pub quantum2 : t.queue2.time_quantum ≡ s.queue2.time_quantum
  pub kept0 : (j : ℕ) → occurs j t.queue0.processes ≤ occurs j s.queue0.processes
  pub kept1 : (j : ℕ) → occurs j t.queue1.processes ≤ occurs j s.queue1.processes
  pub kept2 : (j : ℕ) → occurs j t.queue2.processes ≤ occurs j s.queue2.processes
  pub first : (flat t, next) ≡ pop (flat s)

pub find-Found : (s : State) → Found s (find_process s).0 (find_process s).1
unfolding find_process
find-Found s = ground arith

-- `get_next_process` takes the first process of the line: with at most 10 queued processes the
-- priority boost drops none and keeps their order.
pub get_next_process-pop :
    (s : State)
    → length (flat s) ≤ max_processes
    → All (λ i. i < length s.procs) (flat s)
    → (flat (get_next_process s).0, (get_next_process s).1) ≡ pop (flat s)
unfolding get_next_process
get_next_process-pop s room fits = (find-Found (boost s)).first ∙ ap pop (boost-flat s room fits)
