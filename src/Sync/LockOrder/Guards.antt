-- ===== src/Sync/LockOrder/Guards.antt =====
-- Shared variables that are only used under a lock: what a thread has loaded is still there when it
-- stores.
use cp.Common.{
  All-others, ℕ, ◌<◌, ◌≡◌, sym, ap, ◌∙◌, arith, List, [], ◌∷◌, map, length, All, get_or-set_ne,
  occurs, set, get_or, ℕ_discrete,
}
use cp.Sync.LockOrder.{Op, acquire, release, add, store, State, no_thread, move, without}
use cp.Sync.LockOrder.Invariant.{Inv, fresh}

-- With the locks `held`: each addition to variable `r` comes while lock `guard r` is held.
abbrev pub IsGuarded : ℕ → (ℕ → ℕ) → List ℕ → List Op → Type 0
IsGuarded n guard held [] = Unit
IsGuarded n guard held (acquire l ∷ todo) = IsGuarded n guard (l ∷ held) todo
IsGuarded n guard held (release l ∷ todo) = IsGuarded n guard (without l held) todo
IsGuarded n guard held (add r m ∷ todo) =
    (guard r < n) × (0 < occurs (guard r) held) × IsGuarded n guard held todo
IsGuarded n guard held (store r v m ∷ todo) = ⊥

-- The same while a thread may be about to store: what it has loaded is what is there.
abbrev pub IsFresh : ℕ → (ℕ → ℕ) → List ℕ → List ℕ → List Op → Type 0
IsFresh n guard xs held [] = Unit
IsFresh n guard xs held (acquire l ∷ todo) = IsGuarded n guard (l ∷ held) todo
IsFresh n guard xs held (release l ∷ todo) = IsGuarded n guard (without l held) todo
IsFresh n guard xs held (add r m ∷ todo) =
    (guard r < n) × (0 < occurs (guard r) held) × IsGuarded n guard held todo
IsFresh n guard xs held (store r v m ∷ todo) =
    (v ≡ get_or xs r 0) × (guard r < n) × (0 < occurs (guard r) held) × IsGuarded n guard held todo

abbrev pub AllFresh : ℕ → (ℕ → ℕ) → State → Type 0
AllFresh n guard s = All (λ t. IsFresh n guard s.variables t.held t.todo) s.threads

-- A thread that is not about to store has loaded nothing.
pub IsFresh-IsGuarded :
    (n : ℕ) (guard : ℕ → ℕ) (xs held : List ℕ) (todo : List Op)
    → IsGuarded n guard held todo
    → IsFresh n guard xs held todo
IsFresh-IsGuarded n guard xs held [] g = tt
IsFresh-IsGuarded n guard xs held (acquire l ∷ todo) g = g
IsFresh-IsGuarded n guard xs held (release l ∷ todo) g = g
IsFresh-IsGuarded n guard xs held (add r m ∷ todo) g = g
IsFresh-IsGuarded n guard xs held (store r v m ∷ todo) g = absurd g

-- A store to a variable whose guard a thread does not hold leaves what that thread has loaded.
IsFresh-set :
    (n : ℕ) (guard : ℕ → ℕ) (xs : List ℕ) (r v : ℕ) (held : List ℕ) (todo : List Op)
    → IsFresh n guard xs held todo
    → occurs (guard r) held ≡ 0
    → IsFresh n guard (set xs r v) held todo
IsFresh-set n guard xs r v held [] f away = tt
IsFresh-set n guard xs r v held (acquire l ∷ todo) f away = f
IsFresh-set n guard xs r v held (release l ∷ todo) f away = f
IsFresh-set n guard xs r v held (add q m ∷ todo) f away = f
IsFresh-set n guard xs r v held (store q w m ∷ todo) f away = elim (ℕ_discrete r q) [
  | yes e ↦
      let here : occurs (guard r) held ≡ occurs (guard q) held =
        ap (λ i. occurs (guard i) held) e in
      absurd (omega (arith, f.2, here, away))
  | no ne ↦ (f.0 ∙ sym (get_or-set_ne xs r q v 0 ne), f.1, f.2, f.3)
]

-- Only thread `k` holds the guard, so it can store.
pub AllFresh-store :
    (n : ℕ) (guard : ℕ → ℕ) (k r v : ℕ) (held : List ℕ) (todo : List Op) (s : State)
    → Inv n s
    → AllFresh n guard s
    → k < length s.threads
    → guard r < n
    → 0 < occurs (guard r) (get_or s.threads k no_thread).held
    → IsGuarded n guard held todo
    → AllFresh n guard (move k held todo (record s { variables = set s.variables r v }))
AllFresh-store n guard k r v held todo s inv all lt below mine rest =
    All-others (λ t. IsFresh n guard (set s.variables r v) t.held t.todo)
      (λ t. IsFresh n guard s.variables t.held t.todo) (λ t. occurs (guard r) t.held) k
      (record { held = held; todo = todo }) no_thread s.threads
      (λ t f away. IsFresh-set n guard s.variables r v t.held t.todo f away) lt
      (omega (arith, inv.one_holder (guard r) below, mine)) all
      (IsFresh-IsGuarded n guard (set s.variables r v) held todo rest)

pub AllFresh-start :
    (n : ℕ) (guard : ℕ → ℕ) (xs : List ℕ) (programs : List (List Op))
    → All (IsGuarded n guard []) programs
    → All (λ t. IsFresh n guard xs t.held t.todo) (map fresh programs)
AllFresh-start n guard xs [] g = tt
AllFresh-start n guard xs (p ∷ ps) g =
    (IsFresh-IsGuarded n guard xs [] p g.0, AllFresh-start n guard xs ps g.1)
