-- ===== src/Sync/SimulatedSpinlock/Sweep.antt =====
-- All threads take a step each, in order, from the same place.
use cp.Common.{
  ℕ, zero, suc, ◌+◌, ◌≡◌, refl, ap, ◌∙◌, arith, List, [], ◌∷◌, ◌++◌, set, get_or, replicate,
}
use cp.Sync.SimulatedSpinlock.{Program, Thread, no_thread, step, run}

-- The numbers `k`, `k + 1`, and so on, `n` of them.
abbrev pub from : ℕ → ℕ → List ℕ
from k zero = []
from k (suc n) = k ∷ from (k + 1) n

get_or-replicate :
    (k : ℕ) (u t d : Thread) (ts : List Thread) → get_or (replicate k u ++ (t ∷ ts)) k d ≡ t
get_or-replicate zero u t d ts = refl
get_or-replicate (suc k) u t d ts = get_or-replicate k u t d ts

set-replicate :
    (k : ℕ) (u t : Thread) (ts : List Thread)
    → set (replicate k u ++ (t ∷ ts)) k u ≡ replicate (suc k) u ++ ts
set-replicate zero u t ts = refl
set-replicate (suc k) u t ts = ap (λ l. u ∷ l) (set-replicate k u t ts)

replicate-nil : (k : ℕ) (u : Thread) → replicate k u ++ [] ≡ replicate k u
replicate-nil zero u = refl
replicate-nil (suc k) u = ap (λ l. u ∷ l) (replicate-nil k u)

module _ (p : Program) (t u : Thread) (f c : ℕ) where
  -- A thread that is `t` becomes `u`, and leaves this flag and counter.
  abbrev pub Becomes : ℕ → ℕ → Type 0
  Becomes f0 c0 =
      (k : ℕ) (ts : List Thread)
      → get_or ts k (no_thread p) ≡ t
      → step p k (record { flag = f0; counter = c0; threads = ts })
        ≡ record { flag = f; counter = c; threads = set ts k u }

  sweep_rest :
      (n k : ℕ)
      → Becomes f c
      → run p
          (from k n)
          (record { flag = f; counter = c; threads = replicate k u ++ replicate n t })
        ≡ record { flag = f; counter = c; threads = replicate (k + n) u }
  unfolding run
  sweep_rest zero k h =
      let e : k ≡ k + 0 = omega arith in
      ap (λ l. record { flag = f; counter = c; threads = l })
        (replicate-nil k u ∙ ap (λ k. replicate k u) e)
  sweep_rest (suc n) k h =
      let ts = replicate k u ++ (t ∷ replicate n t) in
      let one = h k ts (get_or-replicate k u t (no_thread p) (replicate n t)) in
      let e : suc k ≡ k + 1 = omega arith in
      let last : (k + 1) + n ≡ k + suc n = omega arith in
      let next =
        ap (λ l. record { flag = f; counter = c; threads = l })
          (set-replicate k u t (replicate n t)) in
      ap (run p (from (k + 1) n)) (
        one
        ∙ next
        ∙ ap (λ k. record { flag = f; counter = c; threads = replicate k u ++ replicate n t }) e)
      ∙ sweep_rest n (k + 1) h
      ∙ ap (λ k. record { flag = f; counter = c; threads = replicate k u }) last

  -- From any flag and counter that the first thread changes to these.
  pub sweep :
      (n f0 c0 : ℕ)
      → Becomes f0 c0
      → Becomes f c
      → run p (from 0 (suc n)) (record { flag = f0; counter = c0; threads = replicate (suc n) t })
        ≡ record { flag = f; counter = c; threads = replicate (suc n) u }
  unfolding run
  sweep n f0 c0 first rest =
      let last : 1 + n ≡ suc n = omega arith in
      ap (run p (from 1 n)) (first 0 (replicate (suc n) t) refl)
      ∙ sweep_rest n 1 rest
      ∙ ap (λ k. record { flag = f; counter = c; threads = replicate k u }) last
