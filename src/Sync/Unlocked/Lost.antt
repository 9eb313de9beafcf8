-- ===== src/Sync/Unlocked/Lost.antt =====
-- How many updates two threads with no lock can lose.
use cp.Common.{ℕ, zero, suc, ◌+◌, ◌<◌, ◌≡◌, refl, ap, ◌∙◌, arith, true, ltb, List, [], ◌∷◌, All}
use cp.Sync.Unlocked.{
  before, State, thread_at, worker, run, start, expected_value, analyze_race_condition,
}

-- Both threads load, then both store, in each of their rounds.
abbrev pub in_step : ℕ → List ℕ
in_step zero = []
in_step (suc n) = 0 ∷ 1 ∷ 0 ∷ 1 ∷ in_step n

abbrev both_at : ℕ → State
both_at m = record {
  counter = m;
  threads = record { i = m; place = before } ∷ record { i = m; place = before } ∷ [];
}

one_round :
    (loops m : ℕ) (ks : List ℕ)
    → m < loops
    → run loops (0 ∷ 1 ∷ 0 ∷ 1 ∷ ks) (both_at m) ≡ run loops ks (both_at (m + 1))
unfolding run worker thread_at
one_round loops m ks h = let o : ltb m loops ≡ true = ground (arith, h) in rw (o, o) refl

all_rounds : (loops n m : ℕ) → m + n ≡ loops → run loops (in_step n) (both_at m) ≡ both_at loops
unfolding run
all_rounds loops zero m e = ap both_at (omega (arith, e))
all_rounds loops (suc n) m e =
    one_round loops m (in_step n) (omega (arith, e)) ∙ all_rounds loops n (m + 1) (omega (arith, e))

-- For every number of iterations there is an order of the steps in which two threads with no lock do
-- all their iterations, and `analyze_race_condition` reports half of the updates as lost.
pub half_lost :
    (loops : ℕ)
    → let s = run loops (in_step loops) (start 2) in
      All (λ t. t.i ≡ loops) s.threads
      × (analyze_race_condition (expected_value loops) s.counter ≡ loops)
half_lost loops = rw (all_rounds loops loops 0 (omega arith)) ((refl, (refl, tt)), ground arith)
