-- ===== src/Sync/Locked/Runs.antt =====
-- What every run of threads that increment under a lock does.
use native.Mathlib.Nat.{zero-mul, suc-mul}
use cp.Common.{
  find_or_All, ℕ, zero, suc, ◌+◌, ◌*◌, ◌≤◌, ◌<◌, ◌≡◌, refl, sym, ap, ◌∙◌, ◌⊎◌, inl, inr, arith,
  true, false, List, [], ◌∷◌, length, All, get_or, replicate,
}
use cp.Sync.Locked.{
  Lock, Program, Place, outside, inside, loaded, stored, Thread, State, no_thread, can_acquire,
  can_run, run, start,
}
use cp.Sync.Locked.Locks.{IsLock}
use cp.Sync.Locked.Invariant.{
  inside_weight, stored_weight, num_inside, num_stored, IsFresh, IsSound, Inv, Inv-run,
}

-- Threads that have not started.
record Fresh (limit n : ℕ) (ts : List Thread) : Type 0 where
  none_inside : num_inside ts ≡ 0
  none_stored : num_stored ts ≡ 0
  fresh : All (λ t. IsFresh 0 t.place) ts
  sound : All (λ t. t.i + inside_weight t.place ≤ limit) ts
  as_many : length ts ≡ n

Fresh-replicate : (limit n : ℕ) → Fresh limit n (replicate n (record { i = 0; place = outside }))
Fresh-replicate limit zero = record {
  none_inside = refl;
  none_stored = refl;
  fresh = tt;
  sound = tt;
  as_many = refl;
}
Fresh-replicate limit (suc n) =
    let f = Fresh-replicate limit n in
    record {
      none_inside = omega (arith, f.none_inside);
      none_stored = omega (arith, f.none_stored);
      fresh = (tt, f.fresh);
      sound = (omega arith, f.sound);
      as_many = omega (arith, f.as_many);
    }

module _ (l : Lock) (held : ℕ) (law : IsLock l held) (program : Program) where
  Inv-reached : (ks : List ℕ) → Inv l held law program (run l program ks (start l program))
  Inv-reached ks =
      let f = Fresh-replicate program.iterations program.num_threads in
      Inv-run l held law program ks (start l program) (record {
        holder = inl (refl, f.none_inside);
        counted = sym f.none_stored;
        fresh = f.fresh;
        sound = f.sound;
        as_many = f.as_many;
      })

  -- With any lock that is free or held and is only taken when free: in every state that a run
  -- reaches, at most one thread is between taking the lock and giving it up, and `counter` is the
  -- number of the increments done, so that none is lost.
  pub locked_exclusion :
      (ks : List ℕ)
      → let s = run l program ks (start l program) in
        (num_inside s.threads ≤ 1) × (s.counter ≡ num_stored s.threads)
  locked_exclusion ks =
      let inv = Inv-reached ks in
      (elim inv.holder [ inl h ↦ omega (arith, h.1) | inr h ↦ omega (arith, h.1) ], inv.counted)

  idle_place :
      (s : State) (i : ℕ) (p : Place)
      → can_run l program s (record { i = i; place = p }) ≡ false
      → inside_weight p ≡ 0
  idle_place s i outside h = refl
  idle_place s i inside h = absurd (cc h)
  idle_place s i (loaded v) h = absurd (cc h)
  idle_place s i stored h = absurd (cc h)

  none_inside :
      (s : State) (ts : List Thread)
      → All (λ t. can_run l program s t ≡ false) ts
      → num_inside ts ≡ 0
  none_inside s [] h = refl
  none_inside s (t ∷ ts) h = omega (arith, idle_place s t.i t.place h.0, none_inside s ts h.1)

  thread_done :
      (s : State) (i : ℕ) (p : Place)
      → s.lock ≡ l.init
      → i + inside_weight p ≤ program.iterations
      → can_run l program s (record { i = i; place = p }) ≡ false
      → (i ≡ program.iterations) × (stored_weight p ≡ 0)
  thread_done s i outside e so h =
      let free : can_acquire l program (l.acquire s.lock) ≡ true =
        ap (λ m. can_acquire l program (l.acquire m)) e ∙ ap (can_acquire l program) law.takes in
      (ground (arith, free, so, h), refl)
  thread_done s i inside e so h = absurd (cc h)
  thread_done s i (loaded v) e so h = absurd (cc h)
  thread_done s i stored e so h = absurd (cc h)

  threads_done :
      (s : State) (ts : List Thread)
      → s.lock ≡ l.init
      → All (IsSound l held law program) ts
      → All (λ t. can_run l program s t ≡ false) ts
      → All (λ t. t.i ≡ program.iterations) ts × (num_stored ts ≡ length ts * program.iterations)
  threads_done s [] e so h = (tt, sym (zero-mul program.iterations))
  threads_done s (t ∷ ts) e so h =
      let here = thread_done s t.i t.place e so.0 h.0 in
      let rest = threads_done s ts e so.1 h.1 in
      (
        (here.0, rest.0),
        omega (arith, here.0, here.1, rest.1, suc-mul (length ts) program.iterations),
      )

  -- With any lock that is free or held and is only taken when free: in every state that a run
  -- reaches, some thread can take a step that is not a wait, or every thread has done all its
  -- iterations and `counter` is the number of threads times the iterations.
  pub locked_total :
      (ks : List ℕ)
      → let s = run l program ks (start l program) in
        ((k : ℕ) × (k < length s.threads)
          × (can_run l program s (get_or s.threads k (no_thread l program)) ≡ true))
        ⊎ (All (λ t. t.i ≡ program.iterations) s.threads
            × (s.counter ≡ program.num_threads * program.iterations))
  locked_total ks =
      let s = run l program ks (start l program) in
      let inv = Inv-reached ks in
      elim (find_or_All (can_run l program s) s.threads (no_thread l program)) [
        | inl f ↦ inl f
        | inr h ↦
            let free : s.lock ≡ l.init = elim inv.holder [
              | inl g ↦ g.0
              | inr g ↦ absurd (omega (arith, g.1, none_inside s s.threads h))
            ] in
            let d = threads_done s s.threads free inv.sound h in
            inr (d.0, inv.counted ∙ d.1 ∙ ap (λ n. n * program.iterations) inv.as_many)
      ]
