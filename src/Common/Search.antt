-- ===== src/Common/Search.antt =====
-- Entries of an array found by a weight or by a test, and writes to an entry that is the only one of
-- its kind.
use Prim.Native.Nat.{ℕ, zero, suc, ◌≤◌, ◌<◌}
use mathlib.Core.Path.{◌≡◌}
use mathlib.Core.Logic.{◌⊎◌, inl, inr}
use mathlib.Core.Bool.{Bool, true, false}
use mathlib.Core.List.{List, [], ◌∷◌}
use native.Mathlib.Omega.{arith}
use cp.Common.Tests.{Bool-cases}
use cp.Common.Lists.{length, total, All, get_or, set, get_or-le-total}

module _ {ℓ} {A : Type ℓ} where
  -- An entry with a weight that the default has not is there.
  pub get_or-fits :
      (w : A → ℕ) (xs : List A) (i : ℕ) (d : A) → w d ≡ 0 → 0 < w (get_or xs i d) → i < length xs
  get_or-fits w [] i d e h = absurd (omega (arith, e, h))
  get_or-fits w (x ∷ xs) zero d e h = omega arith
  get_or-fits w (x ∷ xs) (suc i) d e h = omega (arith, get_or-fits w xs i d e h)

  pub All-none {κ κ'} :
      (P : A → Type κ) (Q : A → Type κ') (w : A → ℕ) (xs : List A)
      → ((x : A) → Q x → w x ≡ 0 → P x)
      → total w xs ≡ 0
      → All Q xs
      → All P xs
  All-none P Q w [] f e q = tt
  All-none P Q w (x ∷ xs) f e q =
      (f x q.0 (omega (arith, e)), All-none P Q w xs f (omega (arith, e)) q.1)

  -- When only entry `i` has a weight, the others are outside what the weight is about.
  pub All-others {κ κ'} :
      (P : A → Type κ) (Q : A → Type κ') (w : A → ℕ) (i : ℕ) (v d : A) (xs : List A)
      → ((x : A) → Q x → w x ≡ 0 → P x)
      → i < length xs
      → total w xs ≤ w (get_or xs i d)
      → All Q xs
      → P v
      → All P (set xs i v)
  All-others P Q w i v d [] f lt h q pv = tt
  All-others P Q w zero v d (x ∷ xs) f lt h q pv = (pv, All-none P Q w xs f (omega (arith, h)) q.1)
  All-others P Q w (suc i) v d (x ∷ xs) f lt h q pv =
      let le = get_or-le-total w xs i d (omega (arith, lt)) in
      (
        f x q.0 (omega (arith, h, le)),
        All-others P Q w i v d xs f (omega (arith, lt)) (omega (arith, h)) q.1 pv,
      )

  -- Some entry passes the test, or none does.
  pub find_or_All :
      (p : A → Bool) (xs : List A) (d : A)
      → ((i : ℕ) × (i < length xs) × (p (get_or xs i d) ≡ true)) ⊎ All (λ x. p x ≡ false) xs
  find_or_All p [] d = inr tt
  find_or_All p (x ∷ xs) d = elim (Bool-cases (p x)) [
    | inl o ↦ inl (0, omega arith, o)
    | inr o ↦ elim (find_or_All p xs d) [
      | inl f ↦ inl (suc f.0, omega (arith, f.1), f.2)
      | inr h ↦ inr (o, h)
    ]
  ]
