-- ===== src/Sync/BackOff/Finish.antt =====
-- A thread that takes steps alone: one that backs off gets to where it has no lock, and either gets
-- through all its rounds while the other has no lock.
use cp.Common.{
  ℕ, zero, suc, ◌+◌, ◌-◌, ◌≤◌, ◌<◌, ◌≡◌, refl, ap, subst, ◌∙◌, ◌⊎◌, inl, inr, arith, true, ltb,
  Bool-cases,
}
use cp.Sync.BackOff.{
  Style, Place, outside, has_first, backing_off, has_both, has_released, State, step_at, step,
}
use cp.Sync.BackOff.Invariant.{first_weight, second_weight, Inv, Inv-step}

-- `n` steps of this thread.
unfoldable pub alone : Style → ℕ → State → State
alone st zero s = s
alone st (suc n) s = step st (alone st n s)

other_kept :
    (st : Style) (p : Place) (s : State)
    → ((step_at st p s).other.i ≡ s.other.i) × ((step_at st p s).other.place ≡ s.other.place)
unfolding step_at
other_kept st outside s = elim (Bool-cases (ltb s.me.i st.rounds)) [
  | inl more ↦ elim (Bool-cases (ltb 0 s.me.lock)) [
    | inl free ↦ rw (more, free) (refl, refl)
    | inr taken ↦ rw (more, taken) (refl, refl)
  ]
  | inr done ↦ rw done (refl, refl)
]
other_kept st has_first s = elim (Bool-cases (ltb 0 s.other.lock)) [
  | inl free ↦ rw free (refl, refl)
  | inr taken ↦ elim (Bool-cases st.tries_second) [
    | inl tries ↦ rw (taken, tries) (refl, refl)
    | inr waits ↦ rw (taken, waits) (refl, refl)
  ]
]
other_kept st backing_off s = (refl, refl)
other_kept st has_both s = (refl, refl)
other_kept st has_released s = (refl, refl)

module _ (st1 st2 : Style) (r1 r2 : ℕ) where
  Inv-alone : (n : ℕ) (s : State) → Inv st1 st2 r1 r2 s → Inv st1 st2 r1 r2 (alone st1 n s)
  unfolding alone
  Inv-alone zero s inv = inv
  Inv-alone (suc n) s inv = Inv-step st1 st2 r1 r2 (alone st1 n s) (Inv-alone n s inv)

  -- Alone, this thread gets to place `p` of round `i`, and the other stays where it is.
  pub record Reach (s : State) (p : Place) (i : ℕ) : Type 0 where
    pub n : ℕ
    pub place : (alone st1 n s).me.place ≡ p
    pub round : (alone st1 n s).me.i ≡ i
    pub same_i : (alone st1 n s).other.i ≡ s.other.i
    pub same_place : (alone st1 n s).other.place ≡ s.other.place

  Reach-here : (s : State) → Reach s s.me.place s.me.i
  unfolding alone
  Reach-here s = record { n = 0; place = refl; round = refl; same_i = refl; same_place = refl }

  -- One step more.
  Reach-step :
      (s : State) (p q : Place) (i j : ℕ)
      → Inv st1 st2 r1 r2 s
      → Reach s p i
      → ((t : State)
          → Inv st1 st2 r1 r2 t
          → t.me.place ≡ p
          → t.me.i ≡ i
          → t.other.place ≡ s.other.place
          → ((step_at st1 p t).me.place ≡ q) × ((step_at st1 p t).me.i ≡ j))
      → Reach s q j
  unfolding alone step
  Reach-step s p q i j inv r f =
      let t = alone st1 r.n s in
      let is : step_at st1 t.me.place t ≡ step_at st1 p t = ap (λ p. step_at st1 p t) r.place in
      let to = f t (Inv-alone r.n s inv) r.place r.round r.same_place in
      let kept = other_kept st1 p t in
      record {
        n = suc r.n;
        place = ap (λ u. u.me.place) is ∙ to.0;
        round = ap (λ u. u.me.i) is ∙ to.1;
        same_i = ap (λ u. u.other.i) is ∙ kept.0 ∙ r.same_i;
        same_place = ap (λ u. u.other.place) is ∙ kept.1 ∙ r.same_place;
      }

  from_released :
      (s : State) (i : ℕ) → Inv st1 st2 r1 r2 s → Reach s has_released i → Reach s outside (i + 1)
  unfolding step_at
  from_released s i inv r =
      Reach-step s has_released outside i (i + 1) inv r (λ t h p e o. (refl, ap (λ i. i + 1) e))

  from_both :
      (s : State) (i : ℕ) → Inv st1 st2 r1 r2 s → Reach s has_both i → Reach s outside (i + 1)
  unfolding step_at
  from_both s i inv r =
      from_released s i inv (Reach-step s has_both has_released i i inv r (λ t h p e o. (refl, e)))

  from_first_free :
      (s : State) (i : ℕ)
      → Inv st1 st2 r1 r2 s
      → s.other.place ≡ outside
      → Reach s has_first i
      → Reach s outside (i + 1)
  unfolding step_at
  from_first_free s i inv away r = from_both s i inv (
      Reach-step s has_first has_both i i inv r (λ t h p e o.
        let free : ltb 0 t.other.lock ≡ true =
          ground (arith, h.second.held, ap first_weight (o ∙ away), ap second_weight p) in
        rw free (refl, e)))

  -- A whole round.
  from_outside :
      (s : State) (i : ℕ)
      → Inv st1 st2 r1 r2 s
      → s.other.place ≡ outside
      → i < st1.rounds
      → Reach s outside i
      → Reach s outside (i + 1)
  unfolding step_at
  from_outside s i inv away lt r = from_first_free s i inv away (
      Reach-step s outside has_first i i inv r (λ t h p e o.
        let free : ltb 0 t.me.lock ≡ true =
          ground (arith, h.first.held, ap first_weight p, ap second_weight (o ∙ away)) in
        let more : ltb t.me.i st1.rounds ≡ true = ground (arith, e, lt) in
        rw (more, free) (refl, e)))

  all_rounds :
      (d : ℕ) (s : State) (i : ℕ)
      → Inv st1 st2 r1 r2 s
      → s.other.place ≡ outside
      → i + d ≡ st1.rounds
      → Reach s outside i
      → Reach s outside st1.rounds
  all_rounds zero s i inv away e r = subst (λ j. Reach s outside j) (omega (arith, e)) r
  all_rounds (suc d) s i inv away e r =
      all_rounds d s (i + 1) inv away (omega (arith, e))
        (from_outside s i inv away (omega (arith, e)) r)

  Reach-one :
      (s : State) (p q : Place) (j : ℕ)
      → s.me.place ≡ p
      → (step_at st1 p s).me.place ≡ q
      → (step_at st1 p s).me.i ≡ j
      → Reach s q j
  unfolding alone step
  Reach-one s p q j h place round =
      let is : step_at st1 s.me.place s ≡ step_at st1 p s = ap (λ p. step_at st1 p s) h in
      let kept = other_kept st1 p s in
      record {
        n = 1;
        place = ap (λ u. u.me.place) is ∙ place;
        round = ap (λ u. u.me.i) is ∙ round;
        same_i = ap (λ u. u.other.i) is ∙ kept.0;
        same_place = ap (λ u. u.other.place) is ∙ kept.1;
      }

  from_backing :
      (s : State) (i : ℕ) → Inv st1 st2 r1 r2 s → Reach s backing_off i → Reach s outside i
  unfolding step_at
  from_backing s i inv r = Reach-step s backing_off outside i i inv r (λ t h p e o. (refl, e))

  -- A thread that backs off gets its second lock at once or gives up the first.
  from_first_tries :
      (s : State)
      → Inv st1 st2 r1 r2 s
      → st1.tries_second ≡ true
      → s.me.place ≡ has_first
      → (i : ℕ) × (i ≤ st1.rounds) × Reach s outside i
  unfolding step_at
  from_first_tries s inv tries is =
      let i = s.me.i in
      let bound : i + 1 ≤ st1.rounds = omega (arith, inv.first.bound, ap first_weight is) in
      elim (Bool-cases (ltb 0 s.other.lock)) [
        | inl free ↦ (
          i + 1,
          bound,
          from_both s i inv (Reach-one s has_first has_both i is (rw free refl) (rw free refl)),
        )
        | inr taken ↦ (
          i,
          omega (arith, bound),
          from_backing s i inv (
              Reach-one s has_first backing_off i is (rw (taken, tries) refl)
                (rw (taken, tries) refl)),
        )
      ]

  settle_at :
      (p : Place) (s : State)
      → Inv st1 st2 r1 r2 s
      → s.me.place ≡ p
      → (st1.tries_second ≡ true) ⊎ (s.other.place ≡ outside)
      → Reach s p s.me.i
      → (i : ℕ) × (i ≤ st1.rounds) × Reach s outside i
  settle_at outside s inv is how r = (s.me.i, omega (arith, inv.first.bound), r)
  settle_at has_first s inv is (inl tries) r = from_first_tries s inv tries is
  settle_at has_first s inv is (inr away) r = (
    s.me.i + 1,
    omega (arith, inv.first.bound, ap first_weight is),
    from_first_free s s.me.i inv away r,
  )
  settle_at backing_off s inv is how r =
      (s.me.i, omega (arith, inv.first.bound), from_backing s s.me.i inv r)
  settle_at has_both s inv is how r =
      (s.me.i + 1, omega (arith, inv.first.bound, ap first_weight is), from_both s s.me.i inv r)
  settle_at has_released s inv is how r =
      (s.me.i + 1, omega (arith, inv.first.bound, ap first_weight is), from_released s s.me.i inv r)

  -- This thread gets to where it has no lock, if it backs off or the other has no lock.
  pub settle :
      (s : State)
      → Inv st1 st2 r1 r2 s
      → (st1.tries_second ≡ true) ⊎ (s.other.place ≡ outside)
      → (i : ℕ) × (i ≤ st1.rounds) × Reach s outside i
  settle s inv how = settle_at s.me.place s inv refl how (Reach-here s)

  -- This thread gets through all its rounds, if the other has no lock.
  pub get_through :
      (s : State) → Inv st1 st2 r1 r2 s → s.other.place ≡ outside → Reach s outside st1.rounds
  get_through s inv away =
      let r = settle s inv (inr away) in
      all_rounds (st1.rounds - r.0) s r.0 inv away (omega (arith, r.1)) r.2
