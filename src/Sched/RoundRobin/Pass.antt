-- ===== src/Sched/RoundRobin/Pass.antt =====
-- One pass of the `for` loop: time, work, and the count of completed processes.
use cp.Common.{
  ℕ, suc, ◌+◌, ◌≤◌, ◌<◌, ◌≡◌, refl, ap, ◌⊎◌, inl, arith, true, false, ltb, ◌==◌, if◌then◌else◌,
  List, [], ◌∷◌, map, length, total, All,
}
use cp.Sched.RoundRobin.{Process, Clock, visit, prepare, run_pass, closer, next_arrival}

-- 1 for a process that still needs the CPU.
abbrev pub unfinished : Process → ℕ
unfinished p = if p.remaining_time == 0 then 0 else 1

-- 1 for a process that has not arrived at time `t`.
abbrev pub coming : ℕ → Process → ℕ
coming t p = if ltb t p.arrival_time then 1 else 0

abbrev pub work : List Process → ℕ
work = total Process.remaining_time

-- A visit that finds the process not runnable leaves everything as it is.
pub record Skipped (p : Process) (c : Clock) (q : Process) (d : Clock) : Type 0 where
  pub same : q ≡ p
  pub clock : d ≡ c
  pub reason : (c.current_time < p.arrival_time) ⊎ (p.remaining_time ≡ 0)

-- What one visit does: the clock moves by the work done, and the counts agree.
pub record IsVisit (quantum : ℕ) (p : Process) (c : Clock) (q : Process) (d : Clock) : Type 0 where
  pub arrival : q.arrival_time ≡ p.arrival_time
  pub burst : q.burst_time ≡ p.burst_time
  pub id : q.id ≡ p.id
  pub time : d.current_time + q.remaining_time ≡ c.current_time + p.remaining_time
  pub forward : c.current_time ≤ d.current_time
  pub counted : d.completed + unfinished q ≡ c.completed + unfinished p
  pub effect :
      Skipped p c q d ⊎ ((d.idle ≡ false) × (0 < quantum → q.remaining_time < p.remaining_time))

pub visit-IsVisit :
    (quantum : ℕ) (p : Process) (c : Clock)
    → IsVisit quantum p c (visit quantum p c).0 (visit quantum p c).1
unfolding visit
visit-IsVisit quantum p c = ground arith

pub total-coming-anti :
    (t u : ℕ) (ps : List Process) → t ≤ u → total (coming u) ps ≤ total (coming t) ps
total-coming-anti t u [] h = omega arith
total-coming-anti t u (p ∷ ps) h = ground (arith, total-coming-anti t u ps h)

-- The same for a pass. A pass that leaves the clock idle has changed nothing, and no process was
-- runnable; another one has done some work.
pub record IsPass (quantum : ℕ) (ps : List Process) (c : Clock) (qs : List Process) (d : Clock)
    : Type 0 where
  pub same_length : length qs ≡ length ps
  pub time : d.current_time + work qs ≡ c.current_time + work ps
  pub forward : c.current_time ≤ d.current_time
  pub less : work qs ≤ work ps
  pub counted : d.completed + total unfinished qs ≡ c.completed + total unfinished ps
  pub future : (t : ℕ) → total (coming t) qs ≡ total (coming t) ps
  pub quiet :
      d.idle ≡ true
      → (c.idle ≡ true)
        × (d.current_time ≡ c.current_time)
        × (d.completed ≡ c.completed)
        × All (λ p. (d.current_time < p.arrival_time) ⊎ (p.remaining_time ≡ 0)) qs
  pub busy : 0 < quantum → c.idle ≡ true → d.idle ≡ false → work qs < work ps

IsPass-cons :
    {quantum : ℕ} {p q : Process} {ps qs : List Process} {c d e : Clock}
    → IsVisit quantum p c q d
    → IsPass quantum ps d qs e
    → IsPass quantum (p ∷ ps) c (q ∷ qs) e
IsPass-cons first rest = record {
  same_length = omega arith;
  time = omega arith;
  forward = omega arith;
  less = ground arith;
  counted = omega arith;
  future = λ t. ground (arith, rest.future t);
  quiet = λ h. ground arith;
  busy = λ hq hc hd. ground arith;
}

pub run_pass-IsPass :
    (quantum : ℕ) (ps : List Process) (c : Clock)
    → IsPass quantum ps c (run_pass quantum ps c).0 (run_pass quantum ps c).1
unfolding run_pass
run_pass-IsPass quantum [] c = ground arith
run_pass-IsPass quantum (p ∷ ps) c =
    IsPass-cons (visit-IsVisit quantum p c) (run_pass-IsPass quantum ps (visit quantum p c).1)

-- The next arrival is the start value, or a time after `now` at which fewer processes are to come.
pub next_arrival-later :
    (now least : ℕ) (ps : List Process)
    → (next_arrival now least ps ≡ least)
      ⊎ ((now < next_arrival now least ps)
          × (total (coming (next_arrival now least ps)) ps < total (coming now) ps))
unfolding next_arrival
next_arrival-later now least [] = inl refl
next_arrival-later now least (p ∷ ps) =
    let next = next_arrival now (closer now least p) ps in
    ground (arith, next_arrival-later now (closer now least p) ps, total-coming-anti now next ps)

next_arrival-le : (now least : ℕ) (ps : List Process) → next_arrival now least ps ≤ least
unfolding next_arrival
next_arrival-le now least [] = omega arith
next_arrival-le now least (p ∷ ps) = ground (arith, next_arrival-le now (closer now least p) ps)

-- If no arrival is found below `least`, every process with an arrival below `least` has arrived.
pub next_arrival-none :
    (now least : ℕ) (ps : List Process)
    → next_arrival now least ps ≡ least
    → All (λ p. p.arrival_time < least) ps
    → All (λ p. p.arrival_time ≤ now) ps
unfolding next_arrival
next_arrival-none now least [] e all = tt
next_arrival-none now least (p ∷ ps) e all =
    let below = next_arrival-le now (closer now least p) ps in
    let same : closer now least p ≡ least = ground arith in
    (ground arith, next_arrival-none now least ps (rw same at e) all.1)

-- The next arrival is that of some process, or the start value.
pub next_arrival-bound :
    (now least a : ℕ) (ps : List Process)
    → All (λ p. p.arrival_time ≤ a) ps
    → (next_arrival now least ps ≡ least) ⊎ (next_arrival now least ps ≤ a)
unfolding next_arrival
next_arrival-bound now least a [] all = inl refl
next_arrival-bound now least a (p ∷ ps) all =
    ground (arith, next_arrival-bound now (closer now least p) a ps all.1)

pub work-prepare : (ps : List Process) → work (map prepare ps) ≡ total Process.burst_time ps
work-prepare [] = refl
work-prepare (p ∷ ps) = omega (arith, work-prepare ps)

pub length-prepare : (ps : List Process) → length (map prepare ps) ≡ length ps
length-prepare [] = refl
length-prepare (p ∷ ps) = ap suc (length-prepare ps)

pub total-coming-le : (t : ℕ) (ps : List Process) → total (coming t) ps ≤ length ps
total-coming-le t [] = omega arith
total-coming-le t (p ∷ ps) = ground (arith, total-coming-le t ps)
