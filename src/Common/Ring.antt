-- ===== src/Common/Ring.antt =====
-- A circular array of any size as a queue: `n` entries from index `o` on, around the end.
use Prim.Native.Nat.{ℕ, zero, suc, ◌+◌, ◌-◌, ◌%◌, ◌<◌, ◌≤◌}
use mathlib.Core.Path.{◌≡◌, refl, sym, ap, ap₂, ◌∙◌}
use mathlib.Core.Logic.{◌≢◌}
use mathlib.Core.List.{List, [], ◌∷◌, ◌++◌}
use native.Mathlib.Omega.{arith}
use native.Mathlib.Decide.{dec_lt}
use native.Mathlib.Nat.{mod-lt, mod-eq_of_lt, mod-eq-sub-mod, mod-add-mod}
use cp.Common.Tests.{ltb, if◌then◌else◌}
use cp.Common.Lists.{length, get_or, set, get_or-set_self, get_or-set_ne}

-- One turn around the end.
pub mod_once : (x m : ℕ) → x < m + m → x % m ≡ (if ltb x m then x else x - m)
mod_once x m h = elim (dec_lt x m) [
  | yes g ↦ ground (arith, mod-eq_of_lt g, g)
  | no g ↦
      let le : m ≤ x = omega (arith, g) in
      let rest : x - m < m = omega (arith, h, g) in
      ground (arith, mod-eq-sub-mod le, mod-eq_of_lt rest, g)
]

module _ {ℓ} {A : Type ℓ} (size : ℕ) (d : A) where
  abbrev pub entries : ℕ → ℕ → List A → List A
  entries zero o b = []
  entries (suc n) o b = get_or b o d ∷ entries n ((o + 1) % size) b

  next_below : (o : ℕ) → o < size → (o + 1) % size < size
  next_below o h = mod-lt (o + 1) (omega (arith, h))

  next_turn : (o n : ℕ) → ((o + 1) % size + n) % size ≡ (o + suc n) % size
  next_turn o n = mod-add-mod (o + 1) size n ∙ ap (λ x. x % size) (omega arith)

  entries-suc :
      (n o : ℕ) (b : List A)
      → o < size
      → entries (suc n) o b ≡ entries n o b ++ (get_or b ((o + n) % size) d ∷ [])
  entries-suc zero o b h =
      let e : (o + 0) % size ≡ o = ap (λ x. x % size) (omega arith) ∙ mod-eq_of_lt h in rw e refl
  entries-suc (suc n) o b h =
      rw (sym (next_turn o n))
        (ap (λ l. get_or b o d ∷ l) (entries-suc n ((o + 1) % size) b (next_below o h)))

  entries-set :
      (n o j : ℕ) (v : A) (b : List A)
      → o < size
      → ((k : ℕ) → k < n → (o + k) % size ≢ j)
      → entries n o (set b j v) ≡ entries n o b
  entries-set zero o j v b h ne = refl
  entries-set (suc n) o j v b h ne =
      let head : get_or (set b j v) o d ≡ get_or b o d =
        get_or-set_ne b j o v d
          (λ e. ne 0 (omega arith) (ap (λ x. x % size) (omega arith) ∙ mod-eq_of_lt h ∙ sym e)) in
      ap₂ (λ x l. x ∷ l) head
        (entries-set n ((o + 1) % size) j v b (next_below o h)
          (λ k lt e. ne (suc k) (omega (arith, lt)) (sym (next_turn o k) ∙ e)))

  -- A write at the end of the entries, when the array is not full, appends to them.
  pub entries-put :
      (n o : ℕ) (v : A) (b : List A)
      → o < size
      → n < size
      → length b ≡ size
      → entries (suc n) o (set b ((o + n) % size) v) ≡ entries n o b ++ (v ∷ [])
  entries-put n o v b h lt len =
      let j = (o + n) % size in
      let below : j < size = mod-lt (o + n) (omega (arith, h)) in
      let last : get_or (set b j v) j d ≡ v = get_or-set_self b j v d (omega (arith, len, below)) in
      let apart : (k : ℕ) → k < n → (o + k) % size ≢ j = λ k g e. ground (
        arith,
        mod_once (o + k) size (omega (arith, h, lt, g)),
        mod_once (o + n) size (omega (arith, h, lt)),
        e,
        g,
        lt,
      ) in
      entries-suc n o (set b j v) h
      ∙ ap₂ (λ l x. l ++ (x ∷ [])) (entries-set n o j v b h apart) last
