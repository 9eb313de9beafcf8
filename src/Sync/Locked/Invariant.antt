-- ===== src/Sync/Locked/Invariant.antt =====
-- At most one thread holds the lock, and no increment is lost: what every step keeps.
use cp.Common.{
  get_or-fits, All-others, ℕ, ◌+◌, ◌-◌, ◌≤◌, ◌<◌, ◌≡◌, refl, sym, ap, subst, ◌∙◌, ◌⊎◌, inl, inr,
  arith, ltb, Bool-cases, Option, none, some, some_injective, List, [], ◌∷◌, length, total, All,
  All-set, All-get_or, length-set, total-set, get_or-le-total, set, get_or,
}
use cp.Sync.Locked.{
  Lock, Program, Place, outside, inside, loaded, stored, Thread, State, move, no_thread, enter,
  thread_at, increment, run,
}
use cp.Sync.Locked.Locks.{IsLock}

abbrev pub inside_weight : Place → ℕ
inside_weight outside = 0
inside_weight inside = 1
inside_weight (loaded v) = 1
inside_weight stored = 1

abbrev pub stored_weight : Place → ℕ
stored_weight outside = 0
stored_weight inside = 0
stored_weight (loaded v) = 0
stored_weight stored = 1

-- How many hold the lock, and the increments done.
abbrev pub num_inside : List Thread → ℕ
num_inside ts = total (λ t. inside_weight t.place) ts

abbrev pub num_stored : List Thread → ℕ
num_stored ts = total (λ t. t.i + stored_weight t.place) ts

-- What a thread has loaded is what is there.
abbrev pub IsFresh : ℕ → Place → Type 0
IsFresh c outside = Unit
IsFresh c inside = Unit
IsFresh c (loaded v) = v ≡ c
IsFresh c stored = Unit

IsFresh-outside : (c : ℕ) (p : Place) → inside_weight p ≡ 0 → IsFresh c p
IsFresh-outside c outside h = tt
IsFresh-outside c inside h = tt
IsFresh-outside c (loaded v) h = absurd (omega (arith, h))
IsFresh-outside c stored h = tt

all_units : (ts : List Thread) → All (λ t. Unit {0}) ts
all_units [] = tt
all_units (t ∷ ts) = (tt, all_units ts)

module _ (l : Lock) (held : ℕ) (law : IsLock l held) (program : Program) where
  abbrev pub IsSound : Thread → Type 0
  IsSound t = t.i + inside_weight t.place ≤ program.iterations

  pub record Inv (s : State) : Type 0 where
    pub holder :
        ((s.lock ≡ l.init) × (num_inside s.threads ≡ 0))
        ⊎ ((s.lock ≡ held) × (num_inside s.threads ≡ 1))
    pub counted : s.counter ≡ num_stored s.threads
    pub fresh : All (λ t. IsFresh s.counter t.place) s.threads
    pub sound : All IsSound s.threads
    pub as_many : length s.threads ≡ program.num_threads

  abbrev at : State → ℕ → Thread
  at s k = get_or s.threads k (no_thread l program)

  -- Positive for a thread that can still take a step.
  abbrev busy : Thread → ℕ
  busy t = inside_weight t.place + (program.iterations - t.i)

  fits : (k : ℕ) (s : State) → 0 < busy (at s k) → k < length s.threads
  fits k s h = get_or-fits busy s.threads k (no_thread l program) (omega arith) h

  -- Thread `k` moves to round `i` and place `p`, with these values of the lock and of `counter`.
  Inv-move :
      (k i : ℕ) (p : Place) (m c : ℕ) (s : State)
      → Inv s
      → k < length s.threads
      → (let ts' = set s.threads k (record { i = i; place = p }) in
          ((m ≡ l.init) × (num_inside ts' ≡ 0)) ⊎ ((m ≡ held) × (num_inside ts' ≡ 1)))
      → c + (at s k).i + stored_weight (at s k).place ≡ s.counter + i + stored_weight p
      → All (λ t. IsFresh c t.place) (set s.threads k (record { i = i; place = p }))
      → i + inside_weight p ≤ program.iterations
      → Inv (move k i p (record s { lock = m; counter = c }))
  Inv-move k i p m c s inv lt holder e fresh so =
      let v : Thread = record { i = i; place = p } in
      record {
        holder = holder;
        counted = omega (
          arith,
          inv.counted,
          e,
          total-set (λ t. t.i + stored_weight t.place) s.threads k v (no_thread l program) lt,
        );
        fresh = fresh;
        sound = All-set IsSound s.threads k v inv.sound so;
        as_many = length-set s.threads k v ∙ inv.as_many;
      }

  inside-set :
      (k i : ℕ) (p : Place) (s : State)
      → k < length s.threads
      → num_inside (set s.threads k (record { i = i; place = p })) + inside_weight (at s k).place
        ≡ num_inside s.threads + inside_weight p
  inside-set k i p s lt =
      total-set (λ t. inside_weight t.place) s.threads k (record { i = i; place = p })
        (no_thread l program) lt

  -- While a thread is inside, the lock is held, by it alone.
  alone :
      (k : ℕ) (s : State)
      → Inv s
      → inside_weight (at s k).place ≡ 1
      → (s.lock ≡ held) × (num_inside s.threads ≡ 1)
  alone k s inv w =
      let lt = fits k s (omega (arith, w)) in
      let le = get_or-le-total (λ t. inside_weight t.place) s.threads k (no_thread l program) lt in
      elim inv.holder [ inl h ↦ absurd (omega (arith, h.1, le, w)) | inr h ↦ h ]

  Inv-enter :
      (k : ℕ) (s : State) (o : Option ℕ)
      → Inv s
      → l.acquire s.lock ≡ o
      → (at s k).place ≡ outside
      → (at s k).i < program.iterations
      → Inv (enter l program k (at s k).i s o)
  Inv-enter k s none inv a e lt = inv
  Inv-enter k s (some m) inv a e lt = elim inv.holder [
    | inl h ↦
        let is : m ≡ held = some_injective (sym a ∙ ap l.acquire h.0 ∙ law.takes) in
        let w : inside_weight (at s k).place ≡ 0 = ap inside_weight e in
        let c : stored_weight (at s k).place ≡ 0 = ap stored_weight e in
        let f = fits k s (omega (arith, lt)) in
        Inv-move k (at s k).i inside m s.counter s inv f
          (inr (is, omega (arith, inside-set k (at s k).i inside s f, h.1, w))) (omega (arith, c))
          (All-set (λ t. IsFresh s.counter t.place) s.threads k
            (record { i = (at s k).i; place = inside }) inv.fresh tt)
          (omega (arith, lt))
    | inr h ↦ absurd (cc (sym a ∙ ap l.acquire h.0 ∙ law.waits))
  ]

  Inv-thread_at :
      (k : ℕ) (p : Place) (s : State)
      → Inv s
      → (at s k).place ≡ p
      → Inv (thread_at l program k (at s k).i p s)
  unfolding thread_at
  Inv-thread_at k outside s inv e = elim (Bool-cases (ltb (at s k).i program.iterations)) [
    | inl o ↦ rw o (Inv-enter k s (l.acquire s.lock) inv refl e (ground (arith, o)))
    | inr o ↦ rw o inv
  ]
  Inv-thread_at k inside s inv e =
      let w : inside_weight (at s k).place ≡ 1 = ap inside_weight e in
      let c : stored_weight (at s k).place ≡ 0 = ap stored_weight e in
      let f = fits k s (omega (arith, w)) in
      let h = alone k s inv w in
      let here = All-get_or IsSound s.threads k (no_thread l program) f inv.sound in
      Inv-move k (at s k).i (loaded s.counter) s.lock s.counter s inv f
        (inr (h.0, omega (arith, inside-set k (at s k).i (loaded s.counter) s f, h.1, w)))
        (omega (arith, c))
        (All-set (λ t. IsFresh s.counter t.place) s.threads k
          (record { i = (at s k).i; place = loaded s.counter }) inv.fresh refl)
        (omega (arith, here, w))
  Inv-thread_at k (loaded v) s inv e =
      let w : inside_weight (at s k).place ≡ 1 = ap inside_weight e in
      let c : stored_weight (at s k).place ≡ 0 = ap stored_weight e in
      let f = fits k s (omega (arith, w)) in
      let h = alone k s inv w in
      let here = All-get_or IsSound s.threads k (no_thread l program) f inv.sound in
      let q =
        All-get_or (λ t. IsFresh s.counter t.place) s.threads k (no_thread l program) f inv.fresh in
      let v_is : v ≡ s.counter = subst (λ p. IsFresh s.counter p) e q in
      Inv-move k (at s k).i stored s.lock (v + 1) s inv f
        (inr (h.0, omega (arith, inside-set k (at s k).i stored s f, h.1, w)))
        (omega (arith, c, v_is))
        (All-others (λ t. IsFresh (v + 1) t.place) (λ t. Unit {0}) (λ t. inside_weight t.place) k
          (record { i = (at s k).i; place = stored }) (no_thread l program) s.threads
          (λ t q w0. IsFresh-outside (v + 1) t.place w0) f (omega (arith, h.1, w))
          (all_units s.threads) tt)
        (omega (arith, here, w))
  Inv-thread_at k stored s inv e =
      let w : inside_weight (at s k).place ≡ 1 = ap inside_weight e in
      let c : stored_weight (at s k).place ≡ 1 = ap stored_weight e in
      let f = fits k s (omega (arith, w)) in
      let h = alone k s inv w in
      let here = All-get_or IsSound s.threads k (no_thread l program) f inv.sound in
      let free : l.release s.lock ≡ l.init = ap l.release h.0 ∙ law.frees in
      Inv-move k ((at s k).i + 1) outside (l.release s.lock) s.counter s inv f
        (inl (free, omega (arith, inside-set k ((at s k).i + 1) outside s f, h.1, w)))
        (omega (arith, c))
        (All-set (λ t. IsFresh s.counter t.place) s.threads k
          (record { i = (at s k).i + 1; place = outside }) inv.fresh tt)
        (omega (arith, here, w))

  pub Inv-run : (ks : List ℕ) (s : State) → Inv s → Inv (run l program ks s)
  unfolding run increment
  Inv-run [] s inv = inv
  Inv-run (k ∷ ks) s inv =
      Inv-run ks (increment l program k s) (Inv-thread_at k (at s k).place s inv refl)
