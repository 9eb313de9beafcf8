-- ===== src/Sync/ThreadPool/Runs.antt =====
-- What holds in every run of the pool, and when no thread can go on.
use cp.Common.{
  length-replicate, total-replicate, ℕ, zero, suc, ◌≤◌, ◌<◌, ◌≡◌, refl, sym, ap, arith, true, false,
  ltb, if◌then◌else◌, List, [], ◌∷◌, ◌++◌, total, All, occurs, occurs-append,
}
use cp.Sync.ThreadPool.{
  task_function, Task, Program, Worker, ready, waiting, executing, exited, Main, running, blocked,
  joining, returned, State, no_task, all_exited, Step, run, start, worker_can_run, main_can_run,
}
use cp.Sync.ThreadPool.Invariant.{
  tasks_to, exited_weight, num_active, num_waiting, num_exited, all_counted, executing_weight, ids,
  Inv,
}
use native.Mathlib.Nat.{mod-eq_of_lt}
use cp.Common.Ring.{entries}
use cp.Sync.ThreadPool.MainThread.{CrewOf-at, Inv-run}

ids-append : (ts us : List Task) → ids (ts ++ us) ≡ ids ts ++ ids us
ids-append [] us = refl
ids-append (t ∷ ts) us = ap (λ l. t.task_id ∷ l) (ids-append ts us)

-- Each id below `n` stands in the first `n` tasks once.
occurs-tasks_to : (j n : ℕ) → occurs j (ids (tasks_to n)) ≡ (if ltb j n then 1 else 0)
occurs-tasks_to j zero = ground arith
occurs-tasks_to j (suc n) =
    let task : Task = record { task_id = n; function = task_function } in
    ground (
      arith,
      occurs-tasks_to j n,
      ap (occurs j) (ids-append (tasks_to n) (task ∷ [])),
      occurs-append j (ids (tasks_to n)) (n ∷ []),
    )

active-none : (ws : List Worker) → All (λ w. worker_can_run w ≡ false) ws → num_active ws ≡ 0
active-none [] h = refl
active-none (ready ∷ ws) h = absurd (cc h.0)
active-none (waiting ∷ ws) h = omega (arith, active-none ws h.1)
active-none (executing t ∷ ws) h = absurd (cc h.0)
active-none (exited ∷ ws) h = omega (arith, active-none ws h.1)

executing-le-active : (j : ℕ) (ws : List Worker) → total (executing_weight j) ws ≤ num_active ws
executing-le-active j [] = omega arith
executing-le-active j (ready ∷ ws) = omega (arith, executing-le-active j ws)
executing-le-active j (waiting ∷ ws) = omega (arith, executing-le-active j ws)
executing-le-active j (executing t ∷ ws) = ground (arith, executing-le-active j ws)
executing-le-active j (exited ∷ ws) = omega (arith, executing-le-active j ws)

exited-all : (ws : List Worker) → num_active ws ≡ 0 → num_waiting ws ≡ 0 → all_exited ws ≡ true
exited-all [] a w = refl
exited-all (ready ∷ ws) a w = absurd (omega (arith, a))
exited-all (waiting ∷ ws) a w = absurd (omega (arith, w))
exited-all (executing t ∷ ws) a w = absurd (omega (arith, a))
exited-all (exited ∷ ws) a w = exited-all ws (omega (arith, a)) (omega (arith, w))

module _ (p : Program) (some_workers : 0 < p.num_threads) (some_room : 0 < p.queue_size) where
  Inv-reached : (es : List Step) → Inv p (run p es (start p))
  Inv-reached es = Inv-run p some_workers es (start p) (record {
    queue = record {
      as_long = length-replicate p.queue_size no_task;
      head_below = some_room;
      fits = omega arith;
      tail_after = sym (mod-eq_of_lt some_room);
      fifo = refl;
    };
    crew = (
      refl,
      total-replicate exited_weight p.num_threads ready refl,
      λ g. absurd (omega (arith, g)),
      omega arith,
    );
    called = λ j. omega (arith, total-replicate (executing_weight j) p.num_threads ready refl);
    as_many = length-replicate p.num_threads ready;
  })

  -- For any number of workers and any size of the queue but 0: in every state that a run of the pool
  -- reaches, the tasks taken and then those in the circular queue are the tasks that `main` has added,
  -- in order, the queue holds no more than its size, and no task has been executed twice or before it
  -- was added.
  pub tasks_in_order :
      (es : List Step)
      → let s = run p es (start p) in
        (s.taken ++ entries p.queue_size no_task s.count s.head s.task_queue ≡ tasks_to s.i)
        × (s.count ≤ p.queue_size)
        × ((j : ℕ) → occurs j s.executed ≤ (if ltb j s.i then 1 else 0))
  tasks_in_order es =
      let s = run p es (start p) in
      let inv = Inv-reached es in
      let q = entries p.queue_size no_task s.count s.head s.task_queue in
      (
        inv.queue.fifo,
        inv.queue.fits,
        λ j. omega (
          arith,
          inv.called j,
          ap (λ ts. occurs j (ids ts)) inv.queue.fifo,
          ap (occurs j) (ids-append s.taken q),
          occurs-append j (ids s.taken) (ids q),
          occurs-tasks_to j s.i,
        ),
      )

  stuck_main :
      (m : Main) (s : State)
      → Inv p s
      → s.main ≡ m
      → num_active s.workers ≡ 0
      → main_can_run s.workers m ≡ false
      → (m ≡ returned) × (num_waiting s.workers ≡ 0) × (s.count ≡ 0) × (s.i ≡ p.num_tasks)
  stuck_main running s inv is idle m = absurd (cc m)
  stuck_main blocked s inv is idle m =
      let crew = CrewOf-at p blocked s inv is in
      absurd (omega (arith, crew.2 (omega (arith, crew.4, some_room)), idle))
  stuck_main joining s inv is idle m =
      let crew = CrewOf-at p joining s inv is in absurd (cc (exited-all s.workers idle crew.1, m))
  stuck_main returned s inv is idle m =
      let crew = CrewOf-at p returned s inv is in
      let gone : 0 < num_exited s.workers =
        omega (arith, all_counted s.workers, idle, crew.1, inv.as_many, some_workers) in
      (refl, crew.1, crew.2 gone, crew.3)

  -- For any number of workers and any size of the queue but 0: when neither `main` nor a worker can
  -- take a step, `main` has returned from thread_pool_destroy, every worker has exited, the queue is
  -- empty, and each task has been executed once.
  pub thread_pool_finishes :
      (es : List Step)
      → (let s = run p es (start p) in main_can_run s.workers s.main ≡ false)
      → All (λ w. worker_can_run w ≡ false) (run p es (start p)).workers
      → let s = run p es (start p) in
        (s.main ≡ returned)
        × (all_exited s.workers ≡ true)
        × (s.count ≡ 0)
        × ((j : ℕ) → occurs j s.executed ≡ (if ltb j p.num_tasks then 1 else 0))
  thread_pool_finishes es m w =
      let s = run p es (start p) in
      let inv = Inv-reached es in
      let idle = active-none s.workers w in
      let end = stuck_main s.main s inv refl idle m in
      let q = entries p.queue_size no_task s.count s.head s.task_queue in
      let empty : q ≡ [] = ap (λ c. entries p.queue_size no_task c s.head s.task_queue) end.2 in
      (
        end.0,
        exited-all s.workers idle end.1,
        end.2,
        λ j. omega (
          arith,
          inv.called j,
          executing-le-active j s.workers,
          idle,
          ap (λ ts. occurs j (ids ts)) inv.queue.fifo,
          ap (occurs j) (ids-append s.taken q),
          occurs-append j (ids s.taken) (ids q),
          ap (λ ts. occurs j (ids ts)) empty,
          occurs-tasks_to j s.i,
          ap {B = ℕ} (λ n. if ltb j n then 1 else 0) end.3,
        ),
      )
