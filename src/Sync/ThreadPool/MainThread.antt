-- ===== src/Sync/ThreadPool/MainThread.antt =====
-- The steps of `main` keep the invariant of the pool.
use cp.Common.{
  ℕ, ◌+◌, ◌%◌, ◌<◌, ◌≡◌, ◌≢◌, refl, sym, ap, subst, ◌∙◌, inl, inr, arith, Bool, true, false, not,
  ◌&&◌, ltb, ◌==◌, if◌then◌else◌, Bool-cases, List, [], ◌∷◌, set, dec_lt,
}
use cp.Sync.ThreadPool.{
  task_function, Task, Program, Worker, ready, waiting, executing, exited, Main, running, blocked,
  joining, returned, State, signal, wake_main, all_exited, thread_pool_destroy,
  thread_pool_add_task, main_at, Step, main_step, worker_step, spurious_main, spurious_worker, step,
  run,
}
use cp.Sync.ThreadPool.Invariant.{
  Queue-put, num_active, num_waiting, num_exited, all_counted, IsCrew, Inv,
}
use cp.Sync.ThreadPool.Woken.{Woken-signal, Woken-broadcast, signal-active, broadcast-waiting}
use cp.Sync.ThreadPool.Workers.{Inv-worker, Inv-spurious}

exited-weights : (ws : List Worker) → all_exited ws ≡ true → num_active ws ≡ 0
exited-weights [] h = refl
exited-weights (ready ∷ ws) h = absurd (cc h)
exited-weights (waiting ∷ ws) h = absurd (cc h)
exited-weights (executing t ∷ ws) h = absurd (cc h)
exited-weights (exited ∷ ws) h = omega (arith, exited-weights ws h)

module _ (p : Program) where
  abbrev pub CrewOf : Main → State → Type 0
  CrewOf m s =
      IsCrew p m (num_active s.workers) (num_waiting s.workers) (num_exited s.workers) s.count s.i
        s.shutdown

  pub CrewOf-at : (m : Main) (s : State) → Inv p s → s.main ≡ m → CrewOf m s
  CrewOf-at m s inv is = subst (λ m. CrewOf m s) is inv.crew

module _ (p : Program) (some_workers : 0 < p.num_threads) where
  Inv-added :
      (w : ℕ) (s : State)
      → Inv p s
      → s.main ≡ running
      → s.i < p.num_tasks
      → s.shutdown ≡ false
      → s.count ≢ p.queue_size
      → Inv p (record s {
        task_queue = set s.task_queue s.tail (record { task_id = s.i; function = task_function });
        tail = (s.tail + 1) % p.queue_size;
        count = s.count + 1;
        workers = signal w s.workers;
        i = s.i + 1;
      })
  Inv-added w s inv is lt up room =
      let crew = CrewOf-at p running s inv is in
      let k = Woken-signal w s.workers in
      let someone : 0 < num_active (signal w s.workers) = elim (dec_lt 0 (num_waiting s.workers)) [
        | yes g ↦ signal-active w s.workers g
        | no g ↦
            omega (arith, g, all_counted s.workers, crew.1, inv.as_many, some_workers, k.active)
      ] in
      let rest : CrewOf p running
          (record s { count = s.count + 1; workers = signal w s.workers; i = s.i + 1 }) =
        (up, k.gone ∙ crew.1, λ b. someone, omega (arith, lt)) in
      record {
        queue =
            Queue-put p.queue_size s.task_queue s.head s.tail s.count s.taken s.i inv.queue room;
        crew =
            subst
              (λ m.
                CrewOf p m
                  (record s { count = s.count + 1; workers = signal w s.workers; i = s.i + 1 }))
              (sym is) rest;
        called = λ j. omega (arith, inv.called j, k.calls j);
        as_many = k.same ∙ inv.as_many;
      }

  Inv-add_task :
      (w : ℕ) (s : State)
      → Inv p s
      → s.main ≡ running
      → s.i < p.num_tasks
      → Inv p (thread_pool_add_task p w s.i task_function s)
  unfolding thread_pool_add_task
  Inv-add_task w s inv is lt =
      let crew =
        subst
          (λ m.
            IsCrew p m (num_active s.workers) (num_waiting s.workers) (num_exited s.workers) s.count
              s.i s.shutdown)
          is inv.crew in
      elim (Bool-cases (s.count == p.queue_size && not s.shutdown)) [
        | inl full ↦ rw full (record {
          queue = inv.queue;
          crew = (crew.0, crew.1, crew.2, crew.3, ground (arith, full));
          called = inv.called;
          as_many = inv.as_many;
        })
        | inr room ↦ elim (Bool-cases s.shutdown) [
          | inl down ↦ absurd (cc (down, crew.0))
          | inr up ↦
              let task : Task = record { task_id = s.i; function = task_function } in
              let added : State = record s {
                task_queue = set s.task_queue s.tail task;
                tail = (s.tail + 1) % p.queue_size;
                count = s.count + 1;
                workers = signal w s.workers;
                i = s.i + 1;
              } in
              let refused : State = record s { i = s.i + 1 } in
              let which = ap (λ b. if b then refused else added) up in
              rw room
                (subst (Inv p) (sym which) (Inv-added w s inv is lt up (ground (arith, room, up))))
        ]
      ]

  Inv-destroy :
      (s : State) → Inv p s → s.main ≡ running → s.i ≡ p.num_tasks → Inv p (thread_pool_destroy s)
  Inv-destroy s inv is done =
      let crew =
        subst
          (λ m.
            IsCrew p m (num_active s.workers) (num_waiting s.workers) (num_exited s.workers) s.count
              s.i s.shutdown)
          is inv.crew in
      let k = Woken-broadcast s.workers in
      record {
        queue = inv.queue;
        crew = (
          refl,
          broadcast-waiting s.workers,
          λ g. absurd (omega (arith, g, k.gone, crew.1)),
          done,
        );
        called = λ j. omega (arith, inv.called j, k.calls j);
        as_many = k.same ∙ inv.as_many;
      }

  Inv-main_at : (w : ℕ) (m : Main) (s : State) → Inv p s → s.main ≡ m → Inv p (main_at p w m s)
  unfolding main_at
  Inv-main_at w running s inv is = elim (Bool-cases (ltb s.i p.num_tasks)) [
    | inl lt ↦ rw lt (Inv-add_task w s inv is (ground (arith, lt)))
    | inr ge ↦
        let crew =
          subst
            (λ m.
              IsCrew p m (num_active s.workers) (num_waiting s.workers) (num_exited s.workers)
                s.count s.i s.shutdown)
            is inv.crew in
        rw ge (Inv-destroy s inv is (ground (arith, ge, crew.3)))
  ]
  Inv-main_at w blocked s inv is = inv
  Inv-main_at w joining s inv is = elim (Bool-cases (all_exited s.workers)) [
    | inl all ↦
        let crew =
          subst
            (λ m.
              IsCrew p m (num_active s.workers) (num_waiting s.workers) (num_exited s.workers)
                s.count s.i s.shutdown)
            is inv.crew in
        rw all (record {
          queue = inv.queue;
          crew = (crew.0, crew.1, crew.2, crew.3, exited-weights s.workers all);
          called = inv.called;
          as_many = inv.as_many;
        })
    | inr more ↦ rw more inv
  ]
  Inv-main_at w returned s inv is = inv

  IsCrew-wake_main :
      (m : Main) (a w e c i : ℕ) (down : Bool)
      → IsCrew p m a w e c i down
      → IsCrew p (wake_main m) a w e c i down
  IsCrew-wake_main running a w e c i down h = h
  IsCrew-wake_main blocked a w e c i down h = (h.0, h.1, h.2, h.3)
  IsCrew-wake_main joining a w e c i down h = h
  IsCrew-wake_main returned a w e c i down h = h

  Inv-step : (e : Step) (s : State) → Inv p s → Inv p (step p e s)
  unfolding step
  Inv-step (main_step w) s inv = Inv-main_at w s.main s inv refl
  Inv-step (worker_step k) s inv = Inv-worker p k s inv
  Inv-step spurious_main s inv = record {
    queue = inv.queue;
    crew =
        IsCrew-wake_main s.main (num_active s.workers) (num_waiting s.workers)
          (num_exited s.workers) s.count s.i s.shutdown inv.crew;
    called = inv.called;
    as_many = inv.as_many;
  }
  Inv-step (spurious_worker k) s inv = Inv-spurious p k s inv

  pub Inv-run : (es : List (Step)) (s : State) → Inv p s → Inv p (run p es s)
  unfolding run
  Inv-run [] s inv = inv
  Inv-run (e ∷ es) s inv = Inv-run es (step p e s) (Inv-step e s inv)
