-- ===== src/Sched/RoundRobin/Ends.antt =====
-- The `while` loop of round robin ends, and by its test: enough fuel, and the final table.
use cp.Common.{
  ℕ, zero, suc, ◌+◌, ◌≤◌, ◌<◌, ◌≡◌, ◌≢◌, refl, ◌⊎◌, inl, inr, arith, true, false, ltb, ◌==◌,
  Bool-cases, List, map, length, total, All,
}
use cp.Sched.RoundRobin.{
  Process, Clock, Turn, again, stuck, Outcome, finished, broken, out_of_fuel, resume, run_pass,
  next_arrival, int_max, turn, loop, round_robin, prepare,
}
use cp.Sched.RoundRobin.Pass.{
  work-prepare, total-coming-le, length-prepare, total-coming-anti, work, coming, unfinished,
  run_pass-IsPass, next_arrival-later,
}
use cp.Sched.RoundRobin.Table.{IsDone, Row, inputs}

-- What falls in every round: the work left, and the processes still to come.
abbrev measure : List Process → Clock → ℕ
measure ps c = work ps + total (coming c.current_time) ps

-- The rule for the loop: an invariant that each round keeps while the measure falls.
module _ (quantum n : ℕ) (Inv : List Process → Clock → Type 0) (Post : Outcome → Type 0) where
  abbrev After : ℕ → Turn → Type 0
  After m (again ps c) = Inv ps c × (measure ps c < m)
  After m (stuck ps c) = Post (broken ps c.current_time)

  resume-Post :
      (m : ℕ) (rest : List Process → Clock → Outcome) (next : Turn)
      → After m next
      → ((ps : List Process) (c : Clock) → Inv ps c → measure ps c < m → Post (rest ps c))
      → Post (resume rest next)
  resume-Post m rest (again ps c) h r = r ps c h.0 h.1
  resume-Post m rest (stuck ps c) h r = h

  loop_rule :
      ((ps : List Process) (c : Clock)
        → Inv ps c
        → c.completed < n
        → After (measure ps c) (turn quantum ps c))
      → ((ps : List Process) (c : Clock)
          → Inv ps c
          → n ≤ c.completed
          → Post (finished ps c.current_time))
      → (fuel : ℕ) (ps : List Process) (c : Clock) → measure ps c < fuel
      → Inv ps c
      → Post (loop fuel quantum n ps c)
  unfolding loop
  loop_rule step stop zero ps c h inv = absurd (omega arith)
  loop_rule step stop (suc fuel) ps c h inv = elim (Bool-cases (ltb c.completed n)) [
    | inl more ↦
        rw (more, loop)
          (resume-Post (measure ps c) _ (turn quantum ps c) (step ps c inv (ground arith))
            (λ ps' c' inv' fall. loop_rule step stop fuel ps' c' (omega arith) inv'))
    | inr enough ↦ rw (enough, loop) (stop ps c inv (ground arith))
  ]

-- The strict side of `next_arrival-later`.
fall : {m k : ℕ} {A B : Type 0} → (m ≡ k) ⊎ (A × B) → m ≢ k → B
fall (inl e) ne = absurd (ne e)
fall (inr h) ne = h.1

-- The three ways that a round ends after its pass; each that goes on leaves less to do.
module _ (quantum n : ℕ) (Inv : List Process → Clock → Type 0) (Post : Outcome → Type 0) where
  turn_rule :
      (ps : List Process) (c : Clock)
      → let (qs, d) = run_pass quantum ps (record c { idle = true }) in
        let next = next_arrival d.current_time int_max qs in
        0 < quantum
        → (d.idle ≡ false → Inv qs d)
        → (d.idle ≡ true → next ≢ int_max → Inv qs (record d { current_time = next; idle = true }))
        → (d.idle ≡ true → next ≡ int_max → Post (broken qs d.current_time))
        → After quantum n Inv Post (measure ps c) (turn quantum ps c)
  unfolding turn
  turn_rule ps c pos_q busy waited over =
      let (qs, d) = run_pass quantum ps (record c { idle = true }) in
      let next = next_arrival d.current_time int_max qs in
      let pass = run_pass-IsPass quantum ps (record c { idle = true }) in
      elim (Bool-cases d.idle) [
        | inr e ↦ rw e (
          busy e,
          omega (
            arith,
            pass.busy pos_q refl e,
            pass.future c.current_time,
            total-coming-anti c.current_time d.current_time qs pass.forward,
          ),
        )
        | inl e ↦ elim (Bool-cases (next == int_max)) [
          | inl none_left ↦ rw (e, none_left) (over e (ground arith))
          | inr some_left ↦
              rw (e, some_left)
                (
                  waited e (ground arith),
                  omega (
                    arith,
                    pass.less,
                    pass.future c.current_time,
                    total-coming-anti c.current_time d.current_time qs pass.forward,
                    fall (next_arrival-later d.current_time int_max qs) (ground arith),
                  ),
                )
        ]
      ]

-- With a quantum above 0, `round_robin` ends within as many rounds as there are units of work and
-- processes, whatever their bursts and arrivals.
pub round_robin_terminates :
    (fuel : ℕ) (ps : List Process) (quantum : ℕ)
    → 0 < quantum
    → total Process.burst_time ps + length ps < fuel
    → round_robin fuel ps quantum ≢ out_of_fuel
unfolding round_robin
round_robin_terminates fuel ps quantum pos_q h =
    loop_rule quantum (length ps) (λ _ _. Unit {0}) (λ o. o ≢ out_of_fuel)
      (λ qs c _ _.
        turn_rule quantum (length ps) (λ _ _. Unit {0}) (λ o. o ≢ out_of_fuel) qs c pos_q (λ _. tt)
          (λ _ _. tt) (λ _ _. cc))
      (λ qs c _ _. cc) fuel (map prepare ps) _
      (omega (arith, work-prepare ps, total-coming-le 0 (map prepare ps), length-prepare ps)) tt

-- The table at the end: the same processes in the same order, each with no work left and its times
-- filled in, and the final time within `latest + work`.
pub record IsComplete (latest : ℕ) (src ps : List Process) (now : ℕ) : Type 0 where
  pub kept : map inputs ps ≡ map inputs src
  pub done : All IsDone ps
  pub completed : All (λ p. p.completion_time ≤ now) ps
  pub in_time : now ≤ latest + total Process.burst_time src

abbrev pub Finishes : ℕ → List Process → Outcome → Type 0
Finishes latest src (finished ps now) = IsComplete latest src ps now
Finishes latest src (broken ps now) = ⊥
Finishes latest src out_of_fuel = ⊥

record Inv (latest n : ℕ) (src ps : List Process) (c : Clock) : Type 0 where
  counted : c.completed + total unfinished ps ≡ n
  rows : All (Row c.current_time) ps
  kept : map inputs ps ≡ map inputs src
  in_time : c.current_time + work ps ≤ latest + total Process.burst_time src
  little : work ps ≤ total Process.burst_time src

module _ (quantum latest : ℕ) (src : List Process) (pos_q : 0 < quantum)
    (early : All (λ p. p.arrival_time ≤ latest) src) (before_max : latest < int_max)
    (bursts : All (λ p. 0 < p.burst_time) src) where
  abbrev Kept : List Process → Clock → Type 0
  Kept = Inv latest (length src) src
