-- ===== src/Sync/SimulatedSpinlock/Exclusion.antt =====
-- The simulated test_and_set does not exclude: all threads can be inside at once, and all but one of
-- their increments are lost.
use cp.Common.{
  ℕ, suc, ◌<◌, ◌≡◌, refl, sym, ap, subst, ◌∙◌, arith, true, ltb, List, [], ◌∷◌, ◌++◌, get_or,
  replicate,
}
use cp.Sync.SimulatedSpinlock.{
  Program, Place, testing, setting, inside, loaded, stored, Thread, State, no_thread, thread_at,
  step, run, start,
}
use cp.Sync.SimulatedSpinlock.Sweep.{from, Becomes, sweep}

abbrev pub at_place : ℕ → Place → Thread
at_place i v = record { i = i; backoff_time = 1; place = v }

module _ (p : Program) where
  stepped :
      (k : ℕ) (t : Thread) (s : State)
      → get_or s.threads k (no_thread p) ≡ t
      → step p k s ≡ thread_at p k t t.place s
  unfolding step
  stepped k t s e = ap (λ t. thread_at p k t t.place s) e

  Becomes-setting :
      (c : ℕ) → 0 < p.iterations → Becomes p (at_place 0 testing) (at_place 0 (setting 0)) 0 c 0 c
  unfolding thread_at
  Becomes-setting c pos k ts e =
      let more : ltb 0 p.iterations ≡ true = ground (arith, pos) in
      stepped k (at_place 0 testing) (record { flag = 0; counter = c; threads = ts }) e
      ∙ rw more refl

  Becomes-inside : (f c : ℕ) → Becomes p (at_place 0 (setting 0)) (at_place 0 inside) 1 c f c
  unfolding thread_at
  Becomes-inside f c k ts e =
      stepped k (at_place 0 (setting 0)) (record { flag = f; counter = c; threads = ts }) e

  Becomes-loaded : (f c : ℕ) → Becomes p (at_place 0 inside) (at_place 0 (loaded c)) f c f c
  unfolding thread_at
  Becomes-loaded f c k ts e =
      stepped k (at_place 0 inside) (record { flag = f; counter = c; threads = ts }) e

  Becomes-stored : (f c : ℕ) → Becomes p (at_place 0 (loaded 0)) (at_place 0 stored) f 1 f c
  unfolding thread_at
  Becomes-stored f c k ts e =
      stepped k (at_place 0 (loaded 0)) (record { flag = f; counter = c; threads = ts }) e

  Becomes-released : (f c : ℕ) → Becomes p (at_place 0 stored) (at_place 1 testing) 0 c f c
  unfolding thread_at
  Becomes-released f c k ts e =
      stepped k (at_place 0 stored) (record { flag = f; counter = c; threads = ts }) e

  run-append : (ks ls : List ℕ) (s : State) → run p (ks ++ ls) s ≡ run p ls (run p ks s)
  unfolding run
  run-append [] ls s = refl
  run-append (k ∷ ks) ls s = run-append ks ls (step p k s)

  entered :
      (n : ℕ)
      → p.num_threads ≡ suc n
      → 0 < p.iterations
      → run p (from 0 p.num_threads ++ from 0 p.num_threads) (start p)
        ≡ record { flag = 1; counter = 0; threads = replicate p.num_threads (at_place 0 inside) }
  entered n e pos =
      let ks = from 0 (suc n) in
      subst
        (λ m.
          run p (from 0 m ++ from 0 m)
            (record { flag = 0; counter = 0; threads = replicate m (at_place 0 testing) })
          ≡ record { flag = 1; counter = 0; threads = replicate m (at_place 0 inside) })
        (sym e)
        (run-append ks ks
            (record { flag = 0; counter = 0; threads = replicate (suc n) (at_place 0 testing) })
          ∙ ap (run p ks) (
              sweep p (at_place 0 testing) (at_place 0 (setting 0)) 0 0 n 0 0
                (Becomes-setting 0 pos) (Becomes-setting 0 pos))
          ∙ sweep p (at_place 0 (setting 0)) (at_place 0 inside) 1 0 n 0 0 (Becomes-inside 0 0)
              (Becomes-inside 1 0))

  left :
      (n : ℕ)
      → p.num_threads ≡ suc n
      → run p
          (from 0 p.num_threads ++ (from 0 p.num_threads ++ from 0 p.num_threads))
          (record { flag = 1; counter = 0; threads = replicate p.num_threads (at_place 0 inside) })
        ≡ record { flag = 0; counter = 1; threads = replicate p.num_threads (at_place 1 testing) }
  left n e =
      let ks = from 0 (suc n) in
      let t : State = record {
        flag = 1;
        counter = 0;
        threads = replicate (suc n) (at_place 0 inside);
      } in
      subst
        (λ m.
          run p (from 0 m ++ (from 0 m ++ from 0 m))
            (record { flag = 1; counter = 0; threads = replicate m (at_place 0 inside) })
          ≡ record { flag = 0; counter = 1; threads = replicate m (at_place 1 testing) })
        (sym e)
        (run-append ks (ks ++ ks) t
          ∙ run-append ks ks (run p ks t)
          ∙ ap (λ u. run p ks (run p ks u))
              (sweep p (at_place 0 inside) (at_place 0 (loaded 0)) 1 0 n 1 0 (Becomes-loaded 1 0)
                (Becomes-loaded 1 0))
          ∙ ap (run p ks) (
              sweep p (at_place 0 (loaded 0)) (at_place 0 stored) 1 1 n 1 0 (Becomes-stored 1 0)
                (Becomes-stored 1 1))
          ∙ sweep p (at_place 0 stored) (at_place 1 testing) 0 1 n 1 1 (Becomes-released 1 1)
              (Becomes-released 0 1))

  -- For any number of threads but 0 that make at least one increment, with back-off or without: there is
  -- a run after which all of them have got the lock at once, and it goes on to one after which each has
  -- made one increment and `counter` is 1.
  pub spinlock_no_exclusion :
      (n : ℕ)
      → p.num_threads ≡ suc n
      → 0 < p.iterations
      → (ks : List ℕ) × (ls : List ℕ) × ((run p ks (start p)).threads
          ≡ replicate p.num_threads (at_place 0 inside))
        × ((run p (ks ++ ls) (start p)).threads ≡ replicate p.num_threads (at_place 1 testing))
        × ((run p (ks ++ ls) (start p)).counter ≡ 1)
  spinlock_no_exclusion n e pos =
      let all = from 0 p.num_threads in
      let in_all = entered n e pos in
      let out =
        run-append (all ++ all) (all ++ (all ++ all)) (start p)
        ∙ ap (run p (all ++ (all ++ all))) in_all
        ∙ left n e in
      (
        all ++ all,
        all ++ (all ++ all),
        ap (λ s. s.threads) in_all,
        ap (λ s. s.threads) out,
        ap (λ s. s.counter) out,
      )
