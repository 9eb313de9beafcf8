-- ===== src/Sync/ThreadPool/Workers.antt =====
-- The steps of the workers of the pool keep the invariant.
use cp.Common.{
  get_or-fits, ℕ, ◌+◌, ◌-◌, ◌%◌, ◌<◌, ◌≡◌, ◌≢◌, refl, ap, ◌∙◌, inl, inr, arith, true, false, not,
  ◌&&◌, ◌==◌, Bool-cases, List, [], ◌∷◌, ◌++◌, length, total, length-set, total-set,
  get_or-le-total, occurs, occurs-append, set, get_or,
}
use cp.Sync.ThreadPool.{
  Function, task_function, Task, Program, Worker, ready, waiting, executing, exited, State, wake,
  wake_main, no_task, call, move, take_task, worker_at, worker,
}
use cp.Sync.ThreadPool.Crew.{IsCrew-wait, IsCrew-exit, IsCrew-take, IsCrew-more}
use cp.Sync.ThreadPool.Woken.{Woken-set}
use cp.Sync.ThreadPool.Invariant.{
  Queue-take, active_weight, waiting_weight, exited_weight, num_active, num_waiting, num_exited,
  executing_weight, ids, Inv,
}

ids-append : (ts : List Task) (t : Task) → ids (ts ++ (t ∷ [])) ≡ ids ts ++ (t.task_id ∷ [])
ids-append [] t = refl
ids-append (u ∷ ts) t = ap (λ l. u.task_id ∷ l) (ids-append ts t)

call-append :
    (f : Function) (id : ℕ) (executed : List ℕ) → call f id executed ≡ executed ++ (id ∷ [])
call-append task_function id executed = refl

-- Positive for a worker that is there and has not exited.
abbrev present : Worker → ℕ
present w = active_weight w + waiting_weight w

module _ (p : Program) where
  abbrev at : State → ℕ → Worker
  at s k = get_or s.workers k exited

  fits : (k : ℕ) (s : State) → 0 < present (at s k) → k < length s.workers
  fits k s h = get_or-fits present s.workers k exited refl h

  -- The counts after worker `k` moves to `v`.
  record Moved (k : ℕ) (v : Worker) (s : State) : Type 0 where
    active :
        num_active (set s.workers k v) + active_weight (at s k)
        ≡ num_active s.workers + active_weight v
    asleep :
        num_waiting (set s.workers k v) + waiting_weight (at s k)
        ≡ num_waiting s.workers + waiting_weight v
    gone :
        num_exited (set s.workers k v) + exited_weight (at s k)
        ≡ num_exited s.workers + exited_weight v
    calls :
        (j : ℕ)
        → total (executing_weight j) (set s.workers k v) + executing_weight j (at s k)
          ≡ total (executing_weight j) s.workers + executing_weight j v
    same : length (set s.workers k v) ≡ length s.workers

  Moved-set : (k : ℕ) (v : Worker) (s : State) → k < length s.workers → Moved k v s
  Moved-set k v s lt = record {
    active = total-set active_weight s.workers k v exited lt;
    asleep = total-set waiting_weight s.workers k v exited lt;
    gone = total-set exited_weight s.workers k v exited lt;
    calls = λ j. total-set (executing_weight j) s.workers k v exited lt;
    same = length-set s.workers k v;
  }

  Inv-wait :
      (k : ℕ) (s : State)
      → Inv p s
      → at s k ≡ ready
      → s.count ≡ 0
      → s.shutdown ≡ false
      → Inv p (move k waiting s)
  Inv-wait k s inv is empty up =
      let m = Moved-set k waiting s (fits k s (omega (arith, ap present is))) in
      record {
        queue = inv.queue;
        crew =
            IsCrew-wait p s.main (num_active s.workers) (num_waiting s.workers)
              (num_exited s.workers) s.count s.i (num_active (set s.workers k waiting))
              (num_waiting (set s.workers k waiting)) (num_exited (set s.workers k waiting))
              s.shutdown inv.crew empty up (omega (arith, m.gone, ap exited_weight is));
        called = λ j. omega (arith, inv.called j, m.calls j, ap (executing_weight j) is);
        as_many = m.same ∙ inv.as_many;
      }

  Inv-exit :
      (k : ℕ) (s : State)
      → Inv p s
      → at s k ≡ ready
      → s.count ≡ 0
      → s.shutdown ≡ true
      → Inv p (move k exited s)
  Inv-exit k s inv is empty down =
      let m = Moved-set k exited s (fits k s (omega (arith, ap present is))) in
      record {
        queue = inv.queue;
        crew =
            IsCrew-exit p s.main (num_active s.workers) (num_waiting s.workers)
              (num_exited s.workers) s.count s.i (num_active (set s.workers k exited))
              (num_waiting (set s.workers k exited)) (num_exited (set s.workers k exited))
              s.shutdown inv.crew empty down (omega (arith, m.active, ap active_weight is))
              (omega (arith, m.asleep, ap waiting_weight is));
        called = λ j. omega (arith, inv.called j, m.calls j, ap (executing_weight j) is);
        as_many = m.same ∙ inv.as_many;
      }

  Inv-take :
      (k : ℕ) (s : State)
      → Inv p s
      → at s k ≡ ready
      → s.count ≢ 0
      → (let task = get_or s.task_queue s.head no_task in
          Inv p (
            move k (executing task) (record s {
              head = (s.head + 1) % p.queue_size;
              count = s.count - 1;
              main = wake_main s.main;
              taken = s.taken ++ (task ∷ []);
            })))
  Inv-take k s inv is some_left =
      let task = get_or s.task_queue s.head no_task in
      let v : Worker = executing task in
      let lt = fits k s (omega (arith, ap present is)) in
      let m = Moved-set k v s lt in
      let one = get_or-le-total active_weight s.workers k exited lt in
      record {
        queue =
            Queue-take p.queue_size s.task_queue s.head s.tail s.count s.taken s.i inv.queue
              some_left;
        crew =
            IsCrew-take p s.main (num_active s.workers) (num_waiting s.workers)
              (num_exited s.workers) s.count s.i (num_active (set s.workers k v))
              (num_waiting (set s.workers k v)) (num_exited (set s.workers k v)) s.shutdown inv.crew
              (omega (arith, one, ap active_weight is))
              (omega (arith, m.active, ap active_weight is))
              (omega (arith, m.asleep, ap waiting_weight is))
              (omega (arith, m.gone, ap exited_weight is));
        called = λ j. omega (
          arith,
          inv.called j,
          m.calls j,
          ap (executing_weight j) is,
          ap (occurs j) (ids-append s.taken task),
          occurs-append j (ids s.taken) (task.task_id ∷ []),
        );
        as_many = m.same ∙ inv.as_many;
      }

  Inv-take_task : (k : ℕ) (s : State) → Inv p s → at s k ≡ ready → Inv p (take_task p k s)
  unfolding take_task
  Inv-take_task k s inv is = elim (Bool-cases (s.count == 0 && not s.shutdown)) [
    | inl wait ↦ rw wait (Inv-wait k s inv is (ground (arith, wait)) (ground (arith, wait)))
    | inr nowait ↦ elim (Bool-cases (s.shutdown && s.count == 0)) [
      | inl exit ↦
          rw (nowait, exit) (Inv-exit k s inv is (ground (arith, exit)) (ground (arith, exit)))
      | inr stay ↦ rw (nowait, stay) (Inv-take k s inv is (ground (arith, nowait, stay)))
    ]
  ]

  Inv-worker_at :
      (k : ℕ) (v : Worker) (s : State) → Inv p s → at s k ≡ v → Inv p (worker_at p k v s)
  unfolding worker_at
  Inv-worker_at k ready s inv is = Inv-take_task k s inv is
  Inv-worker_at k waiting s inv is = inv
  Inv-worker_at k (executing t) s inv is =
      let m = Moved-set k ready s (fits k s (omega (arith, ap present is))) in
      record {
        queue = inv.queue;
        crew =
            IsCrew-more p s.main (num_active s.workers) (num_waiting s.workers)
              (num_exited s.workers) s.count s.i (num_active (set s.workers k ready))
              (num_waiting (set s.workers k ready)) (num_exited (set s.workers k ready)) s.shutdown
              inv.crew
              (omega (arith, m.active, m.asleep, ap active_weight is, ap waiting_weight is))
              (omega (arith, m.active, ap active_weight is))
              (omega (arith, m.gone, ap exited_weight is));
        called = λ j. omega (
          arith,
          inv.called j,
          m.calls j,
          ap (executing_weight j) is,
          ap (occurs j) (call-append t.function t.task_id s.executed),
          occurs-append j s.executed (t.task_id ∷ []),
        );
        as_many = m.same ∙ inv.as_many;
      }
  Inv-worker_at k exited s inv is = inv

  pub Inv-worker : (k : ℕ) (s : State) → Inv p s → Inv p (worker p k s)
  unfolding worker
  Inv-worker k s inv = Inv-worker_at k (at s k) s inv refl

  pub Inv-spurious : (k : ℕ) (s : State) → Inv p s → Inv p (move k (wake (at s k)) s)
  Inv-spurious k s inv =
      let v = wake (at s k) in
      let m = Woken-set s.workers k in
      record {
        queue = inv.queue;
        crew =
            IsCrew-more p s.main (num_active s.workers) (num_waiting s.workers)
              (num_exited s.workers) s.count s.i (num_active (set s.workers k v))
              (num_waiting (set s.workers k v)) (num_exited (set s.workers k v)) s.shutdown inv.crew
              m.asleep m.active m.gone;
        called = λ j. omega (arith, inv.called j, m.calls j);
        as_many = m.same ∙ inv.as_many;
      }
