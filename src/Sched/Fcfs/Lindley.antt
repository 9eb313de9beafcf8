-- ===== src/Sched/Fcfs/Lindley.antt =====
-- FCFS completion times in closed form, and the bound on the C `int` that it gives.
use cp.Common.{
  ℕ, zero, suc, ◌+◌, ◌^◌, ◌≤◌, ◌<◌, ◌≡◌, some, some_injective, arith, List, [], ◌∷◌, All, max,
  total, take, get_elem?,
}
use cp.Sched.Fcfs.{Process, start_time, run_all, calculate_times}

-- The largest, over all suffixes, of the arrival of the first process plus the work of the suffix.
abbrev pub latest : List Process → ℕ
latest [] = 0
latest (p ∷ ps) = max (p.arrival_time + total Process.burst_time (p ∷ ps)) (latest ps)

run_all-latest :
    (t : ℕ) (ps : List Process) (k : ℕ) {q : Process}
    → get_elem? (run_all t ps) k ≡ some q
    → q.completion_time
      ≡ max (t + total Process.burst_time (take (suc k) ps)) (latest (take (suc k) ps))
unfolding run_all
run_all-latest t [] k h = cc
run_all-latest t (p ∷ ps) zero h = ground arith
run_all-latest t (p ∷ ps) (suc k) h =
    ground (arith, run_all-latest (start_time t p + p.burst_time) ps k h)

latest-ge :
    (p : Process) (ps : List Process)
    → p.arrival_time + total Process.burst_time (p ∷ ps) ≤ latest (p ∷ ps)
latest-ge p ps = omega arith

-- The completion time of the process at index `k` is the largest, over all `j` up to `k`, of the
-- arrival of `j` plus the bursts of `j`, ..., `k`.
pub calculate_times-latest :
    (ps : List Process) {qs : List Process} (k : ℕ) {q : Process}
    → calculate_times ps ≡ some qs
    → get_elem? qs k ≡ some q
    → q.completion_time ≡ latest (take (suc k) ps)
unfolding calculate_times
calculate_times-latest [] k h g = cc
calculate_times-latest (p ∷ ps) k h g = omega (
  arith,
  run_all-latest p.arrival_time (p ∷ ps) k (rw (← some_injective h) at g),
  latest-ge p (take k ps),
)

latest_bound :
    (a : ℕ) (ps : List Process)
    → All (λ p. p.arrival_time ≤ a) ps
    → latest ps ≤ a + total Process.burst_time ps
latest_bound a [] h = omega arith
latest_bound a (p ∷ ps) h = omega (arith, latest_bound a ps h.1)

All-take {ℓ κ} : {A : Type ℓ} (P : A → Type κ) (n : ℕ) (xs : List A) → All P xs → All P (take n xs)
All-take P zero xs h = tt
All-take P (suc n) [] h = tt
All-take P (suc n) (x ∷ xs) h = (h.0, All-take P n xs h.1)

total-take-le {ℓ} :
    {A : Type ℓ} (w : A → ℕ) (n : ℕ) (xs : List A) → total w (take n xs) ≤ total w xs
total-take-le w zero xs = omega arith
total-take-le w (suc n) [] = omega arith
total-take-le w (suc n) (x ∷ xs) = omega (arith, total-take-le w n xs)

-- If the latest arrival and all the bursts add up to less than 2^31, no completion time that
-- `calculate_times` computes overflows the C `int`.
pub calculate_times_bounds :
    (a : ℕ) (ps : List Process) {qs : List Process} (k : ℕ) {q : Process}
    → All (λ p. p.arrival_time ≤ a) ps
    → a + total Process.burst_time ps < 2 ^ 31
    → calculate_times ps ≡ some qs
    → get_elem? qs k ≡ some q
    → q.completion_time < 2 ^ 31
calculate_times_bounds a ps k all small h g = omega (
  arith,
  calculate_times-latest ps k h g,
  latest_bound a (take (suc k) ps) (All-take _ (suc k) ps all),
  total-take-le Process.burst_time (suc k) ps,
)
