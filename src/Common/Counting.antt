-- ===== src/Common/Counting.antt =====
-- Lists of numbers that occur at most once: how many there can be.
use Prim.Native.Nat.{ℕ, zero, suc, ◌+◌, ◌≤◌, ◌<◌}
use mathlib.Core.Path.{◌≡◌, refl}
use mathlib.Core.List.{List, [], ◌∷◌}
use native.Mathlib.Omega.{arith}
use cp.Common.Tests.{ltb, if◌then◌else◌}
use cp.Common.Lists.{length, All, occurs}

-- Numbers below `n` that occur at most once are at most `n` in number.
count_below : ℕ → List ℕ → ℕ
count_below zero xs = 0
count_below (suc n) xs = occurs n xs + count_below n xs

count_below-nil : (n : ℕ) → count_below n [] ≡ 0
unfolding count_below
count_below-nil zero = refl
count_below-nil (suc n) = omega (arith, count_below-nil n)

count_below-cons :
    (n x : ℕ) (xs : List ℕ) → count_below n (x ∷ xs) ≡ count_below n xs + (if ltb x n then 1 else 0)
unfolding count_below
count_below-cons zero x xs = ground arith
count_below-cons (suc n) x xs = ground (arith, count_below-cons n x xs)

count_below-length : (n : ℕ) (xs : List ℕ) → All (λ x. x < n) xs → count_below n xs ≡ length xs
count_below-length n [] h = count_below-nil n
count_below-length n (x ∷ xs) h =
    ground (arith, count_below-cons n x xs, count_below-length n xs h.1)

count_below-le : (n : ℕ) (xs : List ℕ) → ((j : ℕ) → occurs j xs ≤ 1) → count_below n xs ≤ n
unfolding count_below
count_below-le zero xs h = omega arith
count_below-le (suc n) xs h = omega (arith, h n, count_below-le n xs h)

pub pigeonhole :
    (n : ℕ) (xs : List ℕ) → All (λ x. x < n) xs → ((j : ℕ) → occurs j xs ≤ 1) → length xs ≤ n
pigeonhole n xs below once = omega (arith, count_below-length n xs below, count_below-le n xs once)

pub All_of_occurs {ℓ} :
    (P : ℕ → Type ℓ) (xs : List ℕ) → ((j : ℕ) → 0 < occurs j xs → P j) → All P xs
All_of_occurs P [] h = tt
All_of_occurs P (x ∷ xs) h = (h x (ground arith), All_of_occurs P xs (λ j g. h j (omega arith)))
