-- ===== src/Sync/Unlocked/Runs.antt =====
-- Without a lock `counter` is at most the number of the increments done.
use cp.Common.{
  get_or-fits, ℕ, zero, suc, ◌+◌, ◌-◌, ◌≤◌, ◌<◌, min, ◌≡◌, refl, ap, subst, inl, inr, arith, ltb,
  Bool-cases, List, [], ◌∷◌, total, All, All_map_of, All-set, All-get_or, total-set, set, get_or,
  dec_lt,
}
use cp.Sync.Unlocked.{
  Place, before, loaded, Thread, State, no_thread, thread_at, worker, run, start,
}

-- The increments done.
abbrev pub num_stored : List Thread → ℕ
num_stored ts = total Thread.i ts

abbrev loaded_place : Place → ℕ
loaded_place before = 0
loaded_place (loaded v) = 1

abbrev loaded_weight : Thread → ℕ
loaded_weight t = loaded_place t.place

abbrev LoadedAtMost : ℕ → Place → Type 0
LoadedAtMost n before = Unit
LoadedAtMost n (loaded v) = v ≤ n

LoadedAtMost-mono : (m n : ℕ) (p : Place) → m ≤ n → LoadedAtMost m p → LoadedAtMost n p
LoadedAtMost-mono m n before h q = tt
LoadedAtMost-mono m n (loaded v) h q = omega (arith, h, q)

All-LoadedAtMost :
    (m n : ℕ) (ts : List Thread)
    → m ≤ n
    → All (λ t. LoadedAtMost m t.place) ts
    → All (λ t. LoadedAtMost n t.place) ts
All-LoadedAtMost m n ts h =
    All_map_of (λ t. LoadedAtMost m t.place) (λ t. LoadedAtMost n t.place) ts
      (λ t q. LoadedAtMost-mono m n t.place h q)

module _ (loops : ℕ) where
  -- A thread with a loaded value has a round left.
  abbrev IsSound : Thread → Type 0
  IsSound t = t.i + loaded_place t.place ≤ loops

  record Inv (s : State) : Type 0 where
    bounded : s.counter ≤ num_stored s.threads
    loads : All (λ t. LoadedAtMost (num_stored s.threads) t.place) s.threads
    sound : All IsSound s.threads
    some_left : 0 < num_stored s.threads → 0 < s.counter

  abbrev at : State → ℕ → Thread
  at s k = get_or s.threads k (no_thread loops)

  Inv-thread_at :
      (k : ℕ) (p : Place) (s : State)
      → Inv s
      → (at s k).place ≡ p
      → Inv (thread_at loops k (at s k).i p s)
  unfolding thread_at
  Inv-thread_at k before s inv e = elim (Bool-cases (ltb (at s k).i loops)) [
    | inl o ↦
        let lt : (at s k).i < loops = ground (arith, o) in
        let f =
          get_or-fits (λ t. loops - t.i) s.threads k (no_thread loops) (omega arith)
            (omega (arith, lt)) in
        let v : Thread = record { i = (at s k).i; place = loaded s.counter } in
        let same : num_stored (set s.threads k v) ≡ num_stored s.threads =
          omega (arith, total-set Thread.i s.threads k v (no_thread loops) f) in
        rw o (record {
          bounded = omega (arith, inv.bounded, same);
          loads = rw same (
              All-set (λ t. LoadedAtMost (num_stored s.threads) t.place) s.threads k v inv.loads
                inv.bounded);
          sound = All-set IsSound s.threads k v inv.sound (omega (arith, lt));
          some_left = λ g. inv.some_left (omega (arith, g, same));
        })
    | inr o ↦ rw o inv
  ]
  Inv-thread_at k (loaded v) s inv e =
      let f =
        get_or-fits loaded_weight s.threads k (no_thread loops) refl
          (rw (ap loaded_place e) (omega arith)) in
      let q =
        All-get_or (λ t. LoadedAtMost (num_stored s.threads) t.place) s.threads k (no_thread loops)
          f inv.loads in
      let le : v ≤ num_stored s.threads = subst (λ p. LoadedAtMost (num_stored s.threads) p) e q in
      let t : Thread = record { i = (at s k).i + 1; place = before } in
      let more : num_stored (set s.threads k t) ≡ num_stored s.threads + 1 =
        omega (arith, total-set Thread.i s.threads k t (no_thread loops) f) in
      record {
        bounded = omega (arith, more, le);
        loads =
            All-set
              (λ t.
                LoadedAtMost
                  (num_stored (set s.threads k (record { i = (at s k).i + 1; place = before })))
                  t.place)
              s.threads k t
              (All-LoadedAtMost (num_stored s.threads) (num_stored (set s.threads k t)) s.threads
                (omega (arith, more)) inv.loads)
              tt;
        sound = All-set IsSound s.threads k t inv.sound (
            omega (
              arith,
              All-get_or IsSound s.threads k (no_thread loops) f inv.sound,
              ap loaded_place e,
            ));
        some_left = λ g. omega arith;
      }

  Inv-run : (ks : List ℕ) (s : State) → Inv s → Inv (run loops ks s)
  unfolding run worker
  Inv-run [] s inv = inv
  Inv-run (k ∷ ks) s inv = Inv-run ks (worker loops k s) (Inv-thread_at k (at s k).place s inv refl)

  Inv-start : (n : ℕ) → Inv (start n)
  Inv-start zero = record {
    bounded = omega arith;
    loads = tt;
    sound = tt;
    some_left = λ g. absurd (omega (arith, g));
  }
  Inv-start (suc n) =
      let rest = Inv-start n in
      record {
        bounded = omega arith;
        loads = (
          tt,
          All-LoadedAtMost (num_stored (start n).threads) _ (start n).threads (omega arith)
              rest.loads,
        );
        sound = (omega arith, rest.sound);
        some_left = λ g. rest.some_left (omega (arith, g));
      }

  -- With no lock, for any number of threads: in every state that a run reaches `counter` is at most
  -- the number of the increments done, and it is not 0 when one is done.
  pub unlocked_bounds :
      (n : ℕ) (ks : List ℕ)
      → let s = run loops ks (start n) in
        (s.counter ≤ num_stored s.threads) × (min 1 (num_stored s.threads) ≤ s.counter)
  unlocked_bounds n ks =
      let s = run loops ks (start n) in
      let inv = Inv-run ks (start n) (Inv-start n) in
      (
        inv.bounded,
        elim (dec_lt 0 (num_stored s.threads)) [
          | yes g ↦ omega (arith, inv.some_left g)
          | no g ↦ omega (arith, g)
        ],
      )
