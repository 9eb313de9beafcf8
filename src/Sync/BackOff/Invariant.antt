-- ===== src/Sync/BackOff/Invariant.antt =====
-- The locks are free but for what the places of the two threads hold, and nothing that was added is lost.
use cp.Common.{
  ℕ, ◌+◌, ◌-◌, ◌*◌, ◌≤◌, ◌≡◌, refl, ap, inl, inr, arith, Bool, true, false, ltb, if◌then◌else◌,
  Bool-cases, List, [], ◌∷◌,
}
use cp.Sync.BackOff.{
  Style, Place, outside, has_first, backing_off, has_both, has_released, Side, State, swap, put,
  fail, step_at, step, step_of, run, start,
}

-- Whether a thread has its first lock, and its second.
abbrev pub first_weight : Place → ℕ
first_weight outside = 0
first_weight has_first = 1
first_weight backing_off = 1
first_weight has_both = 1
first_weight has_released = 1

abbrev pub second_weight : Place → ℕ
second_weight outside = 0
second_weight has_first = 0
second_weight backing_off = 0
second_weight has_both = 1
second_weight has_released = 0

abbrev pub done_weight : Place → ℕ
done_weight outside = 0
done_weight has_first = 0
done_weight backing_off = 0
done_weight has_both = 0
done_weight has_released = 1

-- What a thread has added to both counters.
abbrev pub added : Style → Side → ℕ
added st t = (t.i + done_weight t.place) * st.add_both

-- `t` is the thread's side and `u` the other's; `r` is what its resource was at first.
pub record IsSide (st : Style) (r : ℕ) (t u : Side) : Type 0 where
  pub held : t.lock + first_weight t.place + second_weight u.place ≡ 1
  pub bound : t.i + first_weight t.place ≤ st.rounds
  pub resource : t.resource ≡ r + t.attempts * st.add_first
  pub tried : t.i + first_weight t.place ≤ t.attempts

pub record Inv (st1 st2 : Style) (r1 r2 : ℕ) (s : State) : Type 0 where
  pub first : IsSide st1 r1 s.me s.other
  pub second : IsSide st2 r2 s.other s.me
  pub count1 : s.counter1 ≡ added st1 s.me + added st2 s.other
  pub count2 : s.counter2 ≡ added st1 s.me + added st2 s.other

pub Inv-swap :
    (st1 st2 : Style) (r1 r2 : ℕ) (s : State) → Inv st1 st2 r1 r2 s → Inv st2 st1 r2 r1 (swap s)
Inv-swap st1 st2 r1 r2 s inv = record {
  first = inv.second;
  second = inv.first;
  count1 = omega (arith, inv.count1);
  count2 = omega (arith, inv.count2);
}

module _ (st1 st2 : Style) (r1 r2 : ℕ) where
  -- This thread moves to place `p` of round `i`, with these values of its lock and of the other's.
  Inv-move :
      (l m i : ℕ) (p : Place) (res att f c1 c2 : ℕ) (s : State)
      → Inv st1 st2 r1 r2 s
      → l + first_weight p ≡ s.me.lock + first_weight s.me.place
      → m + second_weight p ≡ s.other.lock + second_weight s.me.place
      → i + first_weight p ≤ st1.rounds
      → res ≡ r1 + att * st1.add_first
      → i + first_weight p ≤ att
      → c1 + (s.me.i + done_weight s.me.place) * st1.add_both
        ≡ s.counter1 + (i + done_weight p) * st1.add_both
      → c2 + (s.me.i + done_weight s.me.place) * st1.add_both
        ≡ s.counter2 + (i + done_weight p) * st1.add_both
      → Inv st1 st2 r1 r2 (record {
        me = record { lock = l; i = i; place = p; resource = res; attempts = att; failures = f };
        other = record s.other { lock = m };
        counter1 = c1;
        counter2 = c2;
      })
  Inv-move l m i p res att f c1 c2 s inv el em ei er et e1 e2 = record {
    first = record {
      held = omega (arith, inv.first.held, el);
      bound = ei;
      resource = er;
      tried = et;
    };
    second = record {
      held = omega (arith, inv.second.held, em);
      bound = inv.second.bound;
      resource = inv.second.resource;
      tried = inv.second.tried;
    };
    count1 = omega (arith, inv.count1, e1);
    count2 = omega (arith, inv.count2, e2);
  }

  -- Nothing but the count of failures changes.
  Inv-fail : (b : Bool) (s : State) → Inv st1 st2 r1 r2 s → Inv st1 st2 r1 r2 (put (fail b s.me) s)
  Inv-fail b s inv = record {
    first = record {
      held = inv.first.held;
      bound = inv.first.bound;
      resource = inv.first.resource;
      tried = inv.first.tried;
    };
    second = record {
      held = inv.second.held;
      bound = inv.second.bound;
      resource = inv.second.resource;
      tried = inv.second.tried;
    };
    count1 = inv.count1;
    count2 = inv.count2;
  }

  Inv-give_up :
      (b : Bool) (s : State)
      → Inv st1 st2 r1 r2 s
      → s.me.place ≡ has_first
      → Inv st1 st2 r1 r2 (if b then put (record (fail true s.me) { place = backing_off }) s else s)
  Inv-give_up true s inv is =
      Inv-move s.me.lock s.other.lock s.me.i backing_off s.me.resource s.me.attempts
        (s.me.failures + 1) s.counter1 s.counter2 s inv (omega (arith, ap first_weight is))
        (omega (arith, ap second_weight is)) (omega (arith, inv.first.bound, ap first_weight is))
        inv.first.resource (omega (arith, inv.first.tried, ap first_weight is)) (rw is refl)
        (rw is refl)
  Inv-give_up false s inv is = inv

  Inv-step_at :
      (p : Place) (s : State)
      → Inv st1 st2 r1 r2 s
      → s.me.place ≡ p
      → Inv st1 st2 r1 r2 (step_at st1 p s)
  unfolding step_at
  Inv-step_at outside s inv is = elim (Bool-cases (ltb s.me.i st1.rounds)) [
    | inl more ↦ elim (Bool-cases (ltb 0 s.me.lock)) [
      | inl free ↦
          rw (more, free)
            (Inv-move (s.me.lock - 1) s.other.lock s.me.i has_first (s.me.resource + st1.add_first)
              (s.me.attempts + 1) s.me.failures s.counter1 s.counter2 s inv
              (ground (arith, free, ap first_weight is)) (omega (arith, ap second_weight is))
              (ground (arith, more)) (omega (arith, inv.first.resource))
              (omega (arith, inv.first.tried)) (rw is refl) (rw is refl))
      | inr taken ↦ rw (more, taken) (Inv-fail st1.tries_first s inv)
    ]
    | inr done ↦ rw done inv
  ]
  Inv-step_at has_first s inv is = elim (Bool-cases (ltb 0 s.other.lock)) [
    | inl free ↦ rw free (
        Inv-move s.me.lock (s.other.lock - 1) s.me.i has_both s.me.resource s.me.attempts
          s.me.failures s.counter1 s.counter2 s inv (omega (arith, ap first_weight is))
          (ground (arith, free, ap second_weight is))
          (omega (arith, inv.first.bound, ap first_weight is)) inv.first.resource
          (omega (arith, inv.first.tried, ap first_weight is)) (rw is refl) (rw is refl))
    | inr taken ↦ rw taken (Inv-give_up st1.tries_second s inv is)
  ]
  Inv-step_at backing_off s inv is =
      Inv-move (s.me.lock + 1) s.other.lock s.me.i outside s.me.resource s.me.attempts s.me.failures
        s.counter1 s.counter2 s inv (omega (arith, ap first_weight is))
        (omega (arith, ap second_weight is)) (omega (arith, inv.first.bound)) inv.first.resource
        (omega (arith, inv.first.tried)) (rw is refl) (rw is refl)
  Inv-step_at has_both s inv is =
      Inv-move s.me.lock (s.other.lock + 1) s.me.i has_released s.me.resource s.me.attempts
        s.me.failures (s.counter1 + st1.add_both) (s.counter2 + st1.add_both) s inv
        (omega (arith, ap first_weight is)) (omega (arith, ap second_weight is))
        (omega (arith, inv.first.bound, ap first_weight is)) inv.first.resource
        (omega (arith, inv.first.tried, ap first_weight is)) (rw is (omega arith))
        (rw is (omega arith))
  Inv-step_at has_released s inv is =
      Inv-move (s.me.lock + 1) s.other.lock (s.me.i + 1) outside s.me.resource s.me.attempts
        s.me.failures s.counter1 s.counter2 s inv (omega (arith, ap first_weight is))
        (omega (arith, ap second_weight is)) (omega (arith, inv.first.bound, ap first_weight is))
        inv.first.resource (omega (arith, inv.first.tried, ap first_weight is))
        (rw is (omega arith)) (rw is (omega arith))

  pub Inv-step : (s : State) → Inv st1 st2 r1 r2 s → Inv st1 st2 r1 r2 (step st1 s)
  unfolding step
  Inv-step s inv = Inv-step_at s.me.place s inv refl

pub Inv-run :
    (st1 st2 : Style) (r1 r2 : ℕ) (bs : List Bool) (s : State)
    → Inv st1 st2 r1 r2 s
    → Inv st1 st2 r1 r2 (run st1 st2 bs s)
unfolding run step_of
Inv-run st1 st2 r1 r2 [] s inv = inv
Inv-run st1 st2 r1 r2 (true ∷ bs) s inv =
    Inv-run st1 st2 r1 r2 bs (step st1 s) (Inv-step st1 st2 r1 r2 s inv)
Inv-run st1 st2 r1 r2 (false ∷ bs) s inv =
    let back = Inv-step st2 st1 r2 r1 (swap s) (Inv-swap st1 st2 r1 r2 s inv) in
    Inv-run st1 st2 r1 r2 bs (swap (step st2 (swap s)))
      (Inv-swap st2 st1 r2 r1 (step st2 (swap s)) back)

pub Inv-start : (st1 st2 : Style) (r1 r2 : ℕ) → Inv st1 st2 r1 r2 (start r1 r2)
Inv-start st1 st2 r1 r2 = record {
  first = record { held = refl; bound = omega arith; resource = omega arith; tried = omega arith };
  second = record { held = refl; bound = omega arith; resource = omega arith; tried = omega arith };
  count1 = omega arith;
  count2 = omega arith;
}
