-- ===== src/Sync/ThreadPool/Tests.antt =====
-- Runs of the pool.
use cp.Common.{ℕ, ◌≤◌, ◌≡◌, refl, arith, true, ltb, if◌then◌else◌, List, [], ◌∷◌, ◌++◌, occurs}
use cp.Sync.ThreadPool.{
  Program, exited, returned, no_task, all_exited, Step, main_step, worker_step, run, start,
  thread_pool,
}
use cp.Sync.ThreadPool.Invariant.{tasks_to}
use cp.Common.Ring.{entries}
use cp.Sync.ThreadPool.Runs.{tasks_in_order, thread_pool_finishes}

-- Two workers, a queue for two tasks, and three tasks.
abbrev small : Program
small = record { num_threads = 2; queue_size = 2; num_tasks = 3 }

-- Both workers wait, `main` adds two tasks, and worker 1 executes both, the second after a third was
-- added; then the shutdown.
abbrev steps : List Step
steps =
    worker_step 0
    ∷ worker_step 1
    ∷ main_step 1
    ∷ main_step 5
    ∷ main_step 0
    ∷ worker_step 1
    ∷ main_step 0
    ∷ worker_step 1
    ∷ worker_step 1
    ∷ worker_step 0
    ∷ worker_step 1
    ∷ worker_step 0
    ∷ worker_step 1
    ∷ worker_step 1
    ∷ main_step 0
    ∷ worker_step 0
    ∷ worker_step 1
    ∷ main_step 0
    ∷ []

steps_end :
    let s = run small steps (start small) in
    (s.executed ≡ 0 ∷ 1 ∷ 2 ∷ []) × (s.main ≡ returned) × (s.workers ≡ exited ∷ exited ∷ [])
unfolding run
steps_end = (refl, refl, refl)

tasks_in_order_example :
    let s =
      run thread_pool (worker_step 2 ∷ main_step 2 ∷ worker_step 0 ∷ []) (start thread_pool) in
    (s.taken ++ entries 10 no_task s.count s.head s.task_queue ≡ tasks_to s.i)
    × (s.count ≤ 10)
    × ((j : ℕ) → occurs j s.executed ≤ (if ltb j s.i then 1 else 0))
tasks_in_order_example =
    tasks_in_order thread_pool (omega arith) (omega arith)
      (worker_step 2 ∷ main_step 2 ∷ worker_step 0 ∷ [])

thread_pool_finishes_example :
    let s = run small steps (start small) in
    (s.main ≡ returned)
    × (all_exited s.workers ≡ true)
    × (s.count ≡ 0)
    × ((j : ℕ) → occurs j s.executed ≡ (if ltb j 3 then 1 else 0))
unfolding run
thread_pool_finishes_example =
    thread_pool_finishes small (omega arith) (omega arith) steps refl (refl, (refl, tt))
