-- ===== src/Sched/Mlfq/Run/Keeps.antt =====
-- The arrivals and `get_next_process` keep the invariant.
use cp.Common.{
  ℕ, zero, suc, ◌+◌, ◌≤◌, ◌<◌, ◌≡◌, ◌≢◌, refl, ◌∙◌, arith, true, false, ◌==◌, List, [], ◌∷◌, length,
  total, occurs, occurs-append, get_or, dec_lt, ℕ_discrete,
}
use cp.Sched.Mlfq.{max_processes, Process, State, no_process, process_at}
use cp.Sched.Mlfq.Flat.{flat, length-flat, requeue, SameGlobals, Added, add-Added}
use cp.Sched.Mlfq.Invariant.{unfinished, IsQueued, Inv, occurs-Added, occurs-flat, flat-room_of_new}
use cp.Sched.Mlfq.Run.{arrive, arrivals}

==_of_eq : {a b : ℕ} → a ≡ b → (a == b) ≡ true
==_of_eq h = ground arith

==_of_ne : {a b : ℕ} → a ≢ b → (a == b) ≡ false
==_of_ne h = ground arith

-- Arrays of one length that agree on a weight at every index have one total.
pub total-same :
    (w : Process → ℕ) (ps qs : List Process)
    → length qs ≡ length ps
    → ((j : ℕ) → w (get_or qs j no_process) ≡ w (get_or ps j no_process))
    → total w qs ≡ total w ps
total-same w [] [] h e = refl
total-same w [] (q ∷ qs) h e = absurd (omega arith)
total-same w (p ∷ ps) [] h e = absurd (omega arith)
total-same w (p ∷ ps) (q ∷ qs) h e =
    omega (arith, e 0, total-same w ps qs (omega arith) (λ j. e (suc j)))

module _ {i : ℕ} {s : State} (inv : Inv i s) where
  -- Process `i` arrives at the top.
  IsQueued-Added :
      {t : State}
      → Added i 0 s t
      → i < length s.procs
      → (process_at s i).arrival_time ≡ s.current_time
      → (j : ℕ) → 0 < occurs j (flat t)
      → IsQueued (i + 1) t j
  IsQueued-Added {t} a fits now j h =
      ground (arith, inv.queued j, a.proc j, a.globals, occurs-Added j (omega arith) a, inv.ahead i)

  Inv-Added :
      {t : State}
      → Added i 0 s t
      → i < length s.procs
      → (process_at s i).arrival_time ≡ s.current_time
      → occurs i (flat s) ≡ 0
      → Inv (i + 1) t
  Inv-Added {t} a fits now new = record {
    few = omega (arith, inv.few, a.globals.size);
    once = λ j. ground (arith, inv.once j, occurs-Added j (omega arith) a);
    queued = IsQueued-Added a fits now;
    level0 = λ j h.
        ground (arith, inv.level0 j, a.proc j, a.top, occurs-append j s.queue0.processes (i ∷ []));
    level1 = λ j h. ground (arith, inv.level1 j, a.proc j, a.middle, occurs-flat j s);
    level2 = λ j h. ground (arith, inv.level2 j, a.proc j, a.bottom, occurs-flat j s);
    ahead = λ j g h. ground (arith, inv.ahead j, a.proc j, a.globals);
    quantum0 = ground (arith, inv.quantum0, a.top);
    quantum1 = ground (arith, inv.quantum1, a.middle);
    quantum2 = ground (arith, inv.quantum2, a.bottom);
    counted = omega (
      arith,
      inv.counted,
      a.globals,
      total-same unfinished s.procs t.procs a.globals.size (λ j. ground (arith, a.proc j)),
    );
  }

  -- Process `i` does not arrive now.
  Inv-suc : Inv (i + 1) s
  Inv-suc = record {
    few = inv.few;
    once = inv.once;
    queued = λ j h. ground (arith, inv.queued j);
    level0 = inv.level0;
    level1 = inv.level1;
    level2 = inv.level2;
    ahead = inv.ahead;
    quantum0 = inv.quantum0;
    quantum1 = inv.quantum1;
    quantum2 = inv.quantum2;
    counted = inv.counted;
  }

  -- What arrives now is in no queue yet.
  not_queued : (process_at s i).arrival_time ≡ s.current_time → occurs i (flat s) ≡ 0
  not_queued now = elim (dec_lt 0 (occurs i (flat s))) [
    | yes h ↦ absurd (ground (arith, inv.queued i h))
    | no h ↦ omega arith
  ]

pub arrive-Inv : (i : ℕ) (s : State) → Inv i s → i < length s.procs → Inv (i + 1) (arrive i s)
unfolding arrive
arrive-Inv i s inv fits = elim (ℕ_discrete (process_at s i).arrival_time s.current_time) [
  | yes now ↦
      let new = not_queued inv now in
      let room : length s.queue0.processes < max_processes =
        omega (arith, flat-room_of_new i inv fits new, length-flat s) in
      rw (==_of_eq now) (Inv-Added inv (add-Added i 0 s (omega arith) room fits) fits now new)
  | no later ↦ rw (==_of_ne later) (Inv-suc inv)
]

-- Only levels and quanta differ, and what is at the top level stays there.
pub record Requeued (s t : State) : Type 0 where
  pub globals : SameGlobals s t
  pub proc : (j : ℕ) → requeue 0 (process_at t j) ≡ requeue 0 (process_at s j)
  pub top : (j : ℕ) → (process_at s j).current_queue ≡ 0 → (process_at t j).current_queue ≡ 0

pub Requeued-trans : {s t u : State} → Requeued s t → Requeued t u → Requeued s u
Requeued-trans a b = record {
  globals = omega arith;
  proc = λ j. b.proc j ∙ a.proc j;
  top = λ j h. b.top j (a.top j h);
}

-- What a round of the arrivals does to the queues.
pub record Arrived (i : ℕ) (s t : State) : Type 0 where
  pub requeued : Requeued s t
  pub boosted : t.last_boost_time ≡ s.last_boost_time
  pub grown : (j : ℕ) → occurs j (flat s) ≤ occurs j (flat t)

arrive-Arrived :
    (i : ℕ) (s : State)
    → Inv i s
    → i < length s.procs
    → Arrived i s (arrive i s)
      × ((process_at s i).arrival_time ≡ s.current_time → 0 < occurs i (flat (arrive i s)))
unfolding arrive
arrive-Arrived i s inv fits = elim (ℕ_discrete (process_at s i).arrival_time s.current_time) [
  | yes now ↦
      let new = not_queued inv now in
      let room : length s.queue0.processes < max_processes =
        omega (arith, flat-room_of_new i inv fits new, length-flat s) in
      let a = add-Added i 0 s (omega arith) room fits in
      rw (==_of_eq now) (
        record {
          requeued = record {
            globals = a.globals;
            proc = λ j. ground (arith, a.proc j);
            top = λ j h. ground (arith, a.proc j);
          };
          boosted = a.boosted;
          grown = λ j. omega (arith, occurs-Added j (omega arith) a);
        },
        λ _. ground (arith, occurs-Added i (omega arith) a),
      )
  | no later ↦ rw (==_of_ne later) (
    record {
      requeued = record { globals = omega arith; proc = λ j. refl; top = λ j h. h };
      boosted = refl;
      grown = λ j. omega arith;
    },
    λ now. absurd (later now),
  )
]

Arrived-trans : {i k : ℕ} {s t u : State} → Arrived i s t → Arrived k t u → Arrived i s u
Arrived-trans a b = record {
  requeued = Requeued-trans a.requeued b.requeued;
  boosted = b.boosted ∙ a.boosted;
  grown = λ j. omega (arith, a.grown j, b.grown j);
}

-- What the loop over the arrivals does from index `i` on: every process that arrives now at an index
-- it visits is queued.
pub record AllArrived (i : ℕ) (s t : State) : Type 0 where
  pub inv : Inv (length s.procs) t
  pub arrived : Arrived i s t
  pub caught :
      (j : ℕ)
      → i ≤ j
      → j < length s.procs
      → (process_at s j).arrival_time ≡ s.current_time
      → 0 < occurs j (flat t)

AllArrived-cons :
    {i : ℕ} {s t u : State}
    → Arrived i s t
    → ((process_at s i).arrival_time ≡ s.current_time → 0 < occurs i (flat t))
    → AllArrived (i + 1) t u
    → AllArrived i s u
AllArrived-cons {i} {s} {t} {u} a self rest = record {
  inv = rw (← a.requeued.globals.size) rest.inv;
  arrived = Arrived-trans a rest.arrived;
  caught = λ j le lt now. elim (ℕ_discrete i j) [
    | yes e ↦ ground (arith, self, rest.arrived.grown j)
    | no ne ↦ rest.caught j (omega arith) (omega arith) (ground (arith, a.requeued.proc j))
  ];
}

pub arrivals-AllArrived :
    (left i : ℕ) (s : State)
    → Inv i s
    → i + left ≡ length s.procs
    → AllArrived i s (arrivals left i s)
unfolding arrivals
arrivals-AllArrived zero i s inv e = record {
  inv = (let e' : i ≡ length s.procs = omega arith in rw (← e') inv);
  arrived = record {
    requeued = record { globals = omega arith; proc = λ j. refl; top = λ j h. h };
    boosted = refl;
    grown = λ j. omega arith;
  };
  caught = λ j le lt now. absurd (omega arith);
}
arrivals-AllArrived (suc left) i s inv e =
    let fits : i < length s.procs = omega arith in
    let (a, self) = arrive-Arrived i s inv fits in
    AllArrived-cons a self
      (arrivals-AllArrived left (i + 1) (arrive i s) (arrive-Inv i s inv fits) (omega arith))
