-- ===== src/Sched/RoundRobin/Table.antt =====
-- What each row of the round robin table holds, while the simulation runs and at its end.
use cp.Common.{ℕ, ◌+◌, ◌-◌, ◌≤◌, ◌<◌, ◌≡◌, refl, ap, ap₂, ◌⊎◌, arith, List, [], ◌∷◌, map, All}
use cp.Common.Int.{pos, pos_part, unset, ◌-ℤ◌}
use cp.Sched.RoundRobin.{Process, Clock, visit, run_pass, prepare}
use cp.Sched.RoundRobin.Pass.{visit-IsVisit, run_pass-IsPass}

-- A completed process: it ran from its first run time on, and its three times fit together. None of
-- the differences is negative.
pub record IsDone (p : Process) : Type 0 where
  pub first : p.first_run_time ≡ pos (pos_part p.first_run_time)
  pub responded : p.arrival_time ≤ pos_part p.first_run_time
  pub completed : pos_part p.first_run_time + p.burst_time ≤ p.completion_time
  pub turnaround : p.turnaround_time ≡ pos (p.completion_time - p.arrival_time)
  pub waiting : p.waiting_time ≡ pos (p.completion_time - p.arrival_time - p.burst_time)

-- A process that has run: what it has executed fits between its first run and `t`.
pub record HasRun (t : ℕ) (p : Process) : Type 0 where
  pub set : p.first_run_time ≡ pos (pos_part p.first_run_time)
  pub arrived : p.arrival_time ≤ pos_part p.first_run_time
  pub fits : pos_part p.first_run_time + p.burst_time ≤ t + p.remaining_time

pub record Row (t : ℕ) (p : Process) : Type 0 where
  pub least : p.remaining_time ≤ p.burst_time
  pub first : ((p.first_run_time ≡ unset) × (p.remaining_time ≡ p.burst_time)) ⊎ HasRun t p
  pub done : p.remaining_time ≡ 0 → 0 < p.burst_time → IsDone p × (p.completion_time ≤ t)

visit-Row :
    (quantum : ℕ) (p : Process) (c : Clock)
    → Row c.current_time p
    → Row (visit quantum p c).1.current_time (visit quantum p c).0
unfolding visit ◌-ℤ◌
visit-Row quantum p c r = ground arith

Row-mono : {t u : ℕ} (p : Process) → t ≤ u → Row t p → Row u p
Row-mono p h r = record {
  least = r.least;
  first = ground arith;
  done = λ a b. ground (arith, r.done a b);
}

pub Rows_mono : {t u : ℕ} (ps : List Process) → t ≤ u → All (Row t) ps → All (Row u) ps
Rows_mono [] h rs = tt
Rows_mono (p ∷ ps) h rs = (Row-mono p h rs.0, Rows_mono ps h rs.1)

pub run_pass-Rows :
    (quantum : ℕ) (ps : List Process) (c : Clock)
    → All (Row c.current_time) ps
    → All (Row (run_pass quantum ps c).1.current_time) (run_pass quantum ps c).0
unfolding run_pass
run_pass-Rows quantum [] c rs = tt
run_pass-Rows quantum (p ∷ ps) c rs =
    let d = (visit quantum p c).1 in
    (
      Row-mono _ (run_pass-IsPass quantum ps d).forward (visit-Row quantum p c rs.0),
      run_pass-Rows quantum ps d (Rows_mono ps (visit-IsVisit quantum p c).forward rs.1),
    )

pub prepare-Rows : (ps : List Process) → All (Row 0) (map prepare ps)
prepare-Rows [] = tt
prepare-Rows (p ∷ ps) = (ground arith, prepare-Rows ps)

-- What the scheduler leaves alone.
abbrev pub inputs : Process → ℕ × ℕ × ℕ
inputs p = (p.id, p.arrival_time, p.burst_time)

pub run_pass-inputs :
    (quantum : ℕ) (ps : List Process) (c : Clock)
    → map inputs (run_pass quantum ps c).0 ≡ map inputs ps
unfolding run_pass
run_pass-inputs quantum [] c = refl
run_pass-inputs quantum (p ∷ ps) c =
    let v = visit quantum p c in
    ap₂ ◌∷◌ (ground (arith, visit-IsVisit quantum p c)) (run_pass-inputs quantum ps v.1)

pub prepare-inputs : (ps : List Process) → map inputs (map prepare ps) ≡ map inputs ps
prepare-inputs [] = refl
prepare-inputs (p ∷ ps) = ap (λ rest. inputs p ∷ rest) (prepare-inputs ps)
