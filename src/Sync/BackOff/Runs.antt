-- ===== src/Sync/BackOff/Runs.antt =====
-- What holds in every run of the two threads, and that they can always still finish.
use cp.Common.{
  append_assoc, ℕ, zero, suc, ◌+◌, ◌*◌, ◌≤◌, ◌≡◌, refl, sym, ap, subst, ◌∙◌, inl, arith, Bool, true,
  false, List, [], ◌∷◌, ◌++◌, replicate,
}
use cp.Sync.BackOff.{Style, outside, Side, State, swap, step, step_of, run, start}
use cp.Sync.BackOff.Invariant.{
  first_weight, second_weight, added, Inv, Inv-swap, Inv-run, Inv-start,
}
use cp.Sync.BackOff.Finish.{alone, settle, get_through}

abbrev pub IsFinished : Style → Side → Type 0
IsFinished st t = (t.i ≡ st.rounds) × (t.place ≡ outside) × (t.lock ≡ 1)

run-append :
    (st1 st2 : Style) (bs cs : List Bool) (s : State)
    → run st1 st2 (bs ++ cs) s ≡ run st1 st2 cs (run st1 st2 bs s)
unfolding run
run-append st1 st2 [] cs s = refl
run-append st1 st2 (b ∷ bs) cs s = run-append st1 st2 bs cs (step_of st1 st2 b s)

alone-step : (st : Style) (n : ℕ) (s : State) → alone st n (step st s) ≡ step st (alone st n s)
unfolding alone
alone-step st zero s = refl
alone-step st (suc n) s = ap (step st) (alone-step st n s)

-- The steps of one thread as a run.
run-first : (st1 st2 : Style) (n : ℕ) (s : State) → run st1 st2 (replicate n true) s ≡ alone st1 n s
unfolding run step_of alone
run-first st1 st2 zero s = refl
run-first st1 st2 (suc n) s = run-first st1 st2 n (step st1 s) ∙ alone-step st1 n s

run-second :
    (st1 st2 : Style) (n : ℕ) (s : State)
    → run st1 st2 (replicate n false) s ≡ swap (alone st2 n (swap s))
unfolding run step_of alone
run-second st1 st2 zero s = refl
run-second st1 st2 (suc n) s =
    run-second st1 st2 n (swap (step st2 (swap s))) ∙ ap swap (alone-step st2 n (swap s))

module _ (st1 st2 : Style) (r1 r2 : ℕ) where
  Inv-reached : (bs : List Bool) → Inv st1 st2 r1 r2 (run st1 st2 bs (start r1 r2))
  Inv-reached bs = Inv-run st1 st2 r1 r2 bs (start r1 r2) (Inv-start st1 st2 r1 r2)

  -- From a state in which the second thread has no lock.
  finish_both :
      (bs : List Bool)
      → (run st1 st2 bs (start r1 r2)).other.place ≡ outside
      → (cs : List Bool) × (let s = run st1 st2 (bs ++ cs) (start r1 r2) in
          IsFinished st1 s.me × IsFinished st2 s.other)
  finish_both bs away =
      let s = run st1 st2 bs (start r1 r2) in
      let one = get_through st1 st2 r1 r2 s (Inv-reached bs) away in
      let bs1 = replicate one.n true in
      let e1 : run st1 st2 (bs ++ bs1) (start r1 r2) ≡ alone st1 one.n s =
        run-append st1 st2 bs bs1 (start r1 r2) ∙ run-first st1 st2 one.n s in
      let s1 = run st1 st2 (bs ++ bs1) (start r1 r2) in
      let out1 : s1.me.place ≡ outside = ap (λ u. u.me.place) e1 ∙ one.place in
      let inv1 = Inv-swap st1 st2 r1 r2 s1 (Inv-reached (bs ++ bs1)) in
      let two = get_through st2 st1 r2 r1 (swap s1) inv1 out1 in
      let bs2 = replicate two.n false in
      let e2 : run st1 st2 ((bs ++ bs1) ++ bs2) (start r1 r2) ≡ swap (alone st2 two.n (swap s1)) =
        run-append st1 st2 (bs ++ bs1) bs2 (start r1 r2) ∙ run-second st1 st2 two.n s1 in
      let e3 : bs ++ (bs1 ++ bs2) ≡ (bs ++ bs1) ++ bs2 = sym (append_assoc bs bs1 bs2) in
      let end = ap (λ l. run st1 st2 l (start r1 r2)) e3 ∙ e2 in
      let s2 = run st1 st2 (bs ++ (bs1 ++ bs2)) (start r1 r2) in
      let inv2 = Inv-reached (bs ++ (bs1 ++ bs2)) in
      let me_i : s2.me.i ≡ st1.rounds =
        ap (λ u. u.me.i) end ∙ two.same_i ∙ ap (λ u. u.me.i) e1 ∙ one.round in
      let me_out : s2.me.place ≡ outside = ap (λ u. u.me.place) end ∙ two.same_place ∙ out1 in
      let other_i : s2.other.i ≡ st2.rounds = ap (λ u. u.other.i) end ∙ two.round in
      let other_out : s2.other.place ≡ outside = ap (λ u. u.other.place) end ∙ two.place in
      (
        bs1 ++ bs2,
        (
          (
            me_i,
            me_out,
            omega (arith, inv2.first.held, ap first_weight me_out, ap second_weight other_out),
          ),
          (
            other_i,
            other_out,
            omega (arith, inv2.second.held, ap first_weight other_out, ap second_weight me_out),
          ),
        ),
      )

  -- If the second thread backs off: whatever steps the two have taken, there are steps after which both
  -- have done all their rounds and both locks are free.
  pub can_still_finish :
      (bs : List Bool)
      → st2.tries_second ≡ true
      → (cs : List Bool) × (let s = run st1 st2 (bs ++ cs) (start r1 r2) in
          IsFinished st1 s.me × IsFinished st2 s.other)
  can_still_finish bs tries =
      let s = run st1 st2 bs (start r1 r2) in
      let inv = Inv-swap st1 st2 r1 r2 s (Inv-reached bs) in
      let r = settle st2 st1 r2 r1 (swap s) inv (inl tries) in
      let bs0 = replicate r.2.n false in
      let e : run st1 st2 (bs ++ bs0) (start r1 r2) ≡ swap (alone st2 r.2.n (swap s)) =
        run-append st1 st2 bs bs0 (start r1 r2) ∙ run-second st1 st2 r.2.n s in
      let rest = finish_both (bs ++ bs0) (ap (λ u. u.other.place) e ∙ r.2.place) in
      let same : bs ++ (bs0 ++ rest.0) ≡ (bs ++ bs0) ++ rest.0 = sym (append_assoc bs bs0 rest.0) in
      (
        bs0 ++ rest.0,
        subst
            (λ l.
              let s = run st1 st2 l (start r1 r2) in IsFinished st1 s.me × IsFinished st2 s.other)
            (sym same) rest.1,
      )

  -- Whatever steps the two threads have taken: neither has its first lock while the other has that as its
  -- second; both counters have grown by what the rounds add that have had both locks; and the resource of
  -- each thread has grown by what it adds, for each time it got its first lock, which is at least once for
  -- each round that is done.
  pub back_off_results :
      (bs : List Bool)
      → let s = run st1 st2 bs (start r1 r2) in
        (first_weight s.me.place + second_weight s.other.place ≤ 1)
        × (first_weight s.other.place + second_weight s.me.place ≤ 1)
        × (s.counter1 ≡ added st1 s.me + added st2 s.other)
        × (s.counter2 ≡ s.counter1)
        × (s.me.resource ≡ r1 + s.me.attempts * st1.add_first)
        × (s.other.resource ≡ r2 + s.other.attempts * st2.add_first)
        × (s.me.i ≤ s.me.attempts)
        × (s.other.i ≤ s.other.attempts)
  back_off_results bs =
      let inv = Inv-reached bs in
      (
        omega (arith, inv.first.held),
        omega (arith, inv.second.held),
        inv.count1,
        inv.count2 ∙ sym inv.count1,
        inv.first.resource,
        inv.second.resource,
        omega (arith, inv.first.tried),
        omega (arith, inv.second.tried),
      )
