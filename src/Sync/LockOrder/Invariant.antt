-- ===== src/Sync/LockOrder/Invariant.antt =====
-- Threads that take their locks in ascending order, and what holds whenever they run.
use cp.Common.{
  length-replicate, get_or-fits, ℕ, zero, suc, ◌+◌, ◌-◌, ◌<◌, ◌≡◌, refl, sym, ap, ◌∙◌, inl, inr,
  arith, ltb, ◌==◌, if◌then◌else◌, Bool-cases, List, [], ◌∷◌, map, length, total, All, All-map,
  All-set, All-get_or, length-set, total-set, get_or-set, occurs, set, get_or, replicate,
}
use cp.Sync.LockOrder.{
  Op, acquire, release, add, store, Thread, State, no_thread, move, value, without, execute, step,
  run, start,
}

-- With the locks `held`, the last taken first: what is still to do takes only locks below `n` that are
-- above those held, gives them up last taken first, and has none in the end.
abbrev pub IsOrdered : ℕ → List ℕ → List Op → Type 0
IsOrdered n [] [] = Unit
IsOrdered n (h ∷ hs) [] = ⊥
IsOrdered n hs (acquire l ∷ todo) = (l < n) × All (λ h. h < l) hs × IsOrdered n (l ∷ hs) todo
IsOrdered n [] (release l ∷ todo) = ⊥
IsOrdered n (h ∷ hs) (release l ∷ todo) = (l < n) × (l ≡ h) × IsOrdered n hs todo
IsOrdered n hs (add r m ∷ todo) = IsOrdered n hs todo
IsOrdered n hs (store r v m ∷ todo) = IsOrdered n hs todo

-- How many threads hold lock `l`.
abbrev pub holders : ℕ → List Thread → ℕ
holders l ts = total (λ t. occurs l t.held) ts

pub record Inv (n : ℕ) (s : State) : Type 0 where
  pub size : length s.values ≡ n
  pub one_holder : (l : ℕ) → l < n → value s l + holders l s.threads ≡ 1
  pub ordered : All (λ t. IsOrdered n t.held t.todo) s.threads

-- Thread `k` gets this list of locks and this rest, and the locks these values.
Inv-move :
    (n k : ℕ) (held : List ℕ) (todo : List Op) (vs xs : List ℕ) (s : State)
    → Inv n s
    → k < length s.threads
    → length vs ≡ n
    → ((l : ℕ)
        → l < n
        → get_or vs l 0 + occurs l held ≡ value s l + occurs l (get_or s.threads k no_thread).held)
    → IsOrdered n held todo
    → Inv n (move k held todo (record s { values = vs; variables = xs }))
Inv-move n k held todo vs xs s inv lt size same o =
    let v : Thread = record { held = held; todo = todo } in
    record {
      size = size;
      one_holder = λ l b. omega (
        arith,
        inv.one_holder l b,
        same l b,
        total-set (λ t. occurs l t.held) s.threads k v no_thread lt,
      );
      ordered = All-set (λ t. IsOrdered n t.held t.todo) s.threads k v inv.ordered o;
    }

-- Positive for a thread with something to do.
abbrev busy : Thread → ℕ
busy t = length t.todo

pub fits :
    (k : ℕ) (todo : List Op) (s : State)
    → (get_or s.threads k no_thread).todo ≡ todo
    → 0 < length todo
    → k < length s.threads
fits k todo s e h = get_or-fits busy s.threads k no_thread refl (omega (arith, ap length e, h))

IsOrdered-at :
    (n k : ℕ) (held : List ℕ) (todo : List Op) (s : State)
    → Inv n s
    → k < length s.threads
    → (get_or s.threads k no_thread).held ≡ held
    → (get_or s.threads k no_thread).todo ≡ todo
    → IsOrdered n held todo
IsOrdered-at n k held todo s inv lt h e =
    rw (sym h, sym e)
      (All-get_or (λ t. IsOrdered n t.held t.todo) s.threads k no_thread lt inv.ordered)

record Released (n l : ℕ) (held : List ℕ) (todo : List Op) : Type 0 where
  below : l < n
  one_less : (j : ℕ) → occurs j (without l held) + (if j == l then 1 else 0) ≡ occurs j held
  ordered : IsOrdered n (without l held) todo

Released-IsOrdered :
    (n l : ℕ) (held : List ℕ) (todo : List Op)
    → IsOrdered n held (release l ∷ todo)
    → Released n l held todo
Released-IsOrdered n l [] todo o = absurd o
Released-IsOrdered n l (h ∷ hs) todo o =
    let rest : without l (h ∷ hs) ≡ hs = ground (arith, o.1) in
    record { below = o.0; one_less = λ j. ground (arith, o.1); ordered = rw rest o.2 }

pub Inv-execute :
    (n k : ℕ) (held : List ℕ) (todo : List Op) (s : State)
    → Inv n s
    → (get_or s.threads k no_thread).held ≡ held
    → (get_or s.threads k no_thread).todo ≡ todo
    → Inv n (execute k held todo s)
unfolding execute
Inv-execute n k held [] s inv h e = inv
Inv-execute n k held (acquire l ∷ todo) s inv h e = elim (Bool-cases (ltb 0 (value s l))) [
  | inl free ↦
      let lt = fits k (acquire l ∷ todo) s e (omega arith) in
      let o = IsOrdered-at n k held (acquire l ∷ todo) s inv lt h e in
      let one : value s l ≡ 1 = ground (arith, free, inv.one_holder l o.0) in
      rw free (
        Inv-move n k (l ∷ held) todo (set s.values l (value s l - 1)) s.variables s inv lt
          (length-set s.values l (value s l - 1) ∙ inv.size)
          (λ j b.
            ground (
              arith,
              get_or-set s.values l j (value s l - 1) 0,
              one,
              inv.size,
              o.0,
              ap (occurs j) h,
            ))
          o.2)
  | inr taken ↦ rw taken inv
]
Inv-execute n k held (release l ∷ todo) s inv h e =
    let lt = fits k (release l ∷ todo) s e (omega arith) in
    let o = IsOrdered-at n k held (release l ∷ todo) s inv lt h e in
    let r = Released-IsOrdered n l held todo o in
    Inv-move n k (without l held) todo (set s.values l (value s l + 1)) s.variables s inv lt
      (length-set s.values l (value s l + 1) ∙ inv.size)
      (λ j b. ground (
        arith,
        get_or-set s.values l j (value s l + 1) 0,
        inv.size,
        r.below,
        r.one_less j,
        ap (occurs j) h,
      ))
      r.ordered
Inv-execute n k held (add r m ∷ todo) s inv h e =
    let lt = fits k (add r m ∷ todo) s e (omega arith) in
    let o = IsOrdered-at n k held (add r m ∷ todo) s inv lt h e in
    Inv-move n k held (store r (get_or s.variables r 0) m ∷ todo) s.values s.variables s inv lt
      inv.size (λ j b. omega (arith, ap (occurs j) h)) o
Inv-execute n k held (store r v m ∷ todo) s inv h e =
    let lt = fits k (store r v m ∷ todo) s e (omega arith) in
    let o = IsOrdered-at n k held (store r v m ∷ todo) s inv lt h e in
    Inv-move n k held todo s.values (set s.variables r (v + m)) s inv lt inv.size
      (λ j b. omega (arith, ap (occurs j) h)) o

Inv-run : (n : ℕ) (ks : List ℕ) (s : State) → Inv n s → Inv n (run ks s)
unfolding run step
Inv-run n [] s inv = inv
Inv-run n (k ∷ ks) s inv =
    let t = get_or s.threads k no_thread in
    Inv-run n ks (step k s) (Inv-execute n k t.held t.todo s inv refl refl)

get_or-ones : (n l : ℕ) → l < n → get_or {A = ℕ} (replicate n 1) l 0 ≡ 1
get_or-ones zero l h = absurd (omega (arith, h))
get_or-ones (suc n) zero h = refl
get_or-ones (suc n) (suc l) h = get_or-ones n l (omega (arith, h))

abbrev pub fresh : List Op → Thread
fresh todo = record { held = []; todo = todo }

none_held : (l : ℕ) (programs : List (List Op)) → holders l (map fresh programs) ≡ 0
none_held l [] = refl
none_held l (p ∷ ps) = omega (arith, none_held l ps)

pub Inv-start :
    (n : ℕ) (xs : List ℕ) (programs : List (List Op))
    → All (IsOrdered n []) programs
    → Inv n (start n xs programs)
Inv-start n xs programs h = record {
  size = length-replicate {A = ℕ} n 1;
  one_holder = λ l b. omega (arith, get_or-ones n l b, none_held l programs);
  ordered = All-map (λ t. IsOrdered n t.held t.todo) fresh programs h;
}

pub Inv-reached :
    (n : ℕ) (xs : List ℕ) (programs : List (List Op)) (ks : List ℕ)
    → All (IsOrdered n []) programs
    → Inv n (run ks (start n xs programs))
Inv-reached n xs programs ks h = Inv-run n ks (start n xs programs) (Inv-start n xs programs h)
