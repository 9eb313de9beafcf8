-- ===== src/Sched/Mlfq/Run/Next.antt =====
-- `get_next_process` keeps the invariant, and returns a process that is ready to run.
use cp.Common.{
  ℕ, ◌+◌, ◌-◌, ◌≤◌, ◌<◌, ◌≡◌, refl, sym, ◌∙◌, arith, ◌==◌, if◌then◌else◌, Option, none, some, List,
  [], ◌∷◌, length, occurs, dec_le,
}
use cp.Sched.Mlfq.{boost_interval, State, process_at, boost, find_process, get_next_process}
use cp.Sched.Mlfq.Flat.{
  flat, Boosted, boost-Boosted, boost_not_due, Found, find-Found, pop, get_next_process-pop,
}
use cp.Sched.Mlfq.Invariant.{unfinished, Inv, occurs-flat, flat-fits, flat-room}
use cp.Sched.Mlfq.Run.Keeps.{Requeued, Requeued-trans, total-same}

-- The process that is about to run: it waits in no queue, and has used nothing of its quantum.
pub record Ready (i : ℕ) (s : State) : Type 0 where
  pub fits : i < length s.procs
  pub alive : 0 < (process_at s i).remaining_time
  pub arrived : (process_at s i).arrival_time ≤ s.current_time
  pub anew : (process_at s i).time_in_current_quantum ≡ 0
  pub level : (process_at s i).current_queue ≤ 2
  pub absent : occurs i (flat s) ≡ 0

occurs-Boosted : {s t : State} (j : ℕ) → Boosted s t → occurs j (flat t) ≡ occurs j (flat s)
occurs-Boosted {s} {t} j b =
    ground (arith, b.top, b.middle, b.bottom, occurs-flat j s, occurs-flat j t)

Boosted-Requeued : {s t : State} → Boosted s t → Requeued s t
Boosted-Requeued b = record {
  globals = b.globals;
  proc = λ j. ground (arith, b.proc j);
  top = λ j h. ground (arith, b.proc j);
}

Boosted-Inv : {n : ℕ} {s t : State} → Inv n s → Boosted s t → Inv n t
Boosted-Inv {n} {s} {t} inv b = record {
  few = omega (arith, inv.few, b.globals.size);
  once = λ j. omega (arith, inv.once j, occurs-Boosted j b);
  queued = λ j h. ground (arith, inv.queued j, b.proc j, b.globals, occurs-Boosted j b);
  level0 = λ j h. ground (arith, inv.level0 j, b.proc j, b.top, occurs-flat j s);
  level1 = λ j h. ground (arith, b.middle);
  level2 = λ j h. ground (arith, b.bottom);
  ahead = λ j g h. ground (arith, inv.ahead j, b.proc j, b.globals);
  quantum0 = ground (arith, inv.quantum0, b.top);
  quantum1 = ground (arith, inv.quantum1, b.middle);
  quantum2 = ground (arith, inv.quantum2, b.bottom);
  counted = omega (
    arith,
    inv.counted,
    b.globals,
    total-same unfinished s.procs t.procs b.globals.size (λ j. ground (arith, b.proc j)),
  );
}

boost-keeps : {n : ℕ} (s : State) → Inv n s → Inv n (boost s) × Requeued s (boost s)
boost-keeps s inv = elim (dec_le boost_interval (s.current_time - s.last_boost_time)) [
  | yes due ↦
      let b = boost-Boosted s (flat-room inv) (flat-fits inv) due in
      (Boosted-Inv inv b, Boosted-Requeued b)
  | no early ↦
      rw (boost_not_due s early)
        (inv, record { globals = omega arith; proc = λ j. refl; top = λ j h. h })
]

pop-eq-some :
    (xs ys : List ℕ) (i : ℕ) → ◌≡◌ {A = List ℕ × Option ℕ} (ys, some i) (pop xs) → xs ≡ i ∷ ys
pop-eq-some [] ys i e = ground arith
pop-eq-some (x ∷ xs) ys i e = ground arith

pop-eq-none :
    (xs ys : List ℕ) → ◌≡◌ {A = List ℕ × Option ℕ} (ys, none) (pop xs) → (xs ≡ []) × (ys ≡ [])
pop-eq-none [] ys e = (refl, ground arith)
pop-eq-none (x ∷ xs) ys e = ground arith

-- The line shrinks at its head only.
occurs-Found :
    {i : ℕ} {s t : State} (j : ℕ)
    → Found s t (some i)
    → occurs j (flat s) ≡ occurs j (flat t) + (if j == i then 1 else 0)
occurs-Found {i} {s} {t} j f = rw (pop-eq-some (flat s) (flat t) i f.first) (omega arith)

module _ {n : ℕ} {s t : State} {next : Option ℕ} (inv : Inv n s) (f : Found s t next) where
  Found-Inv : Inv n t
  Found-Inv = record {
    few = ground (arith, inv.few);
    once = λ j.
        omega
          (arith, inv.once j, occurs-flat j s, occurs-flat j t, f.kept0 j, f.kept1 j, f.kept2 j);
    queued = λ j h.
        ground
          (arith, inv.queued j, occurs-flat j s, occurs-flat j t, f.kept0 j, f.kept1 j, f.kept2 j);
    level0 = λ j h. ground (arith, inv.level0 j, f.kept0 j);
    level1 = λ j h. ground (arith, inv.level1 j, f.kept1 j);
    level2 = λ j h. ground (arith, inv.level2 j, f.kept2 j);
    ahead = λ j g h. ground (arith, inv.ahead j);
    quantum0 = f.quantum0 ∙ inv.quantum0;
    quantum1 = f.quantum1 ∙ inv.quantum1;
    quantum2 = f.quantum2 ∙ inv.quantum2;
    counted = ground (arith, inv.counted);
  }

Found-Ready : {n i : ℕ} {s t : State} → Inv n s → Found s t (some i) → Ready i t
Found-Ready {n} {i} {s} {t} inv f =
    let here : 0 < occurs i (flat s) = ground (arith, occurs-Found i f) in
    let q = inv.queued i here in
    record {
      fits = ground (arith, q);
      alive = ground (arith, q);
      arrived = ground (arith, q);
      anew = ground (arith, q);
      level = ground (arith, inv.level0 i, inv.level1 i, inv.level2 i, occurs-flat i s);
      absent = ground (arith, inv.once i, occurs-Found i f);
    }

-- What `get_next_process` gives: nothing if the line is empty, or a process that is ready.
pub record Next (n : ℕ) (s t : State) (next : Option ℕ) : Type 0 where
  pub inv : Inv n t
  pub requeued : Requeued s t
  pub ready : (i : ℕ) → next ≡ some i → Ready i t
  pub empty : next ≡ none → (flat s ≡ []) × (flat t ≡ [])

Ready-Found :
    {n i : ℕ} {s t : State} {next : Option ℕ} → Inv n s → Found s t next → next ≡ some i → Ready i t
Ready-Found inv f e = Found-Ready inv (rw e at f)

pub get_next_process-Next :
    {n : ℕ} (s : State) → Inv n s → Next n s (get_next_process s).0 (get_next_process s).1
unfolding get_next_process
get_next_process-Next s inv =
    let (inv', requeued) = boost-keeps s inv in
    let f = find-Found (boost s) in
    record {
      inv = Found-Inv inv' f;
      requeued =
          Requeued-trans requeued
            (record { globals = f.globals; proc = λ j. ground arith; top = λ j h. ground arith });
      ready = λ i e. Ready-Found inv' f e;
      empty = λ e. pop-eq-none (flat s) (flat (find_process (boost s)).0) (
          (λ k. (flat (find_process (boost s)).0, sym e k))
          ∙ get_next_process-pop s (flat-room inv) (flat-fits inv));
    }
