-- ===== src/Sync/ThreadPool.antt =====
-- note4/thread_management/thread_pool.c: workers that take tasks from a circular queue, and `main`,
-- which adds the tasks, shuts the pool down and joins the workers. A step is what one thread does from
-- where it gets `queue_lock` to where it gives it up or waits, or the call of a task's function, which
-- takes no lock. A run is any sequence of steps of any threads.
pub mod Invariant
pub mod Woken
pub mod Crew
pub mod Workers
pub mod MainThread
pub mod Runs
pub mod Tests
use cp.Common.{
  ℕ, ◌+◌, ◌-◌, ◌%◌, Bool, true, false, not, ◌&&◌, ltb, ◌==◌, if◌then◌else◌, List, [], ◌∷◌, ◌++◌,
  map, set, get_or, replicate,
}

-- What task_t.function can point to.
pub data Function : Type 0 where
  task_function : Function

pub record Task : Type 0 where
  pub task_id : ℕ
  pub function : Function

-- The arguments of thread_pool_init, and the number of tasks that `main` adds.
pub record Program : Type 0 where
  pub num_threads : ℕ
  pub queue_size : ℕ
  pub num_tasks : ℕ

abbrev pub thread_pool : Program
thread_pool = record { num_threads = 3; queue_size = 10; num_tasks = 10 }

-- A worker is about to lock the queue, waits on queue_not_empty, executes a task, or has exited.
pub data Worker : Type 0 where
  ready : Worker
  waiting : Worker
  executing : Task → Worker
  exited : Worker

-- `main` is about to lock the queue, waits on queue_not_full, joins the workers, or has returned from
-- thread_pool_destroy.
pub data Main : Type 0 where
  running : Main
  blocked : Main
  joining : Main
  returned : Main

-- The pool, and `i` of the loop in `main`. `taken` are the tasks that workers have taken from the queue,
-- `executed` the ids with which task_function has been called, both in order.
pub record State : Type 0 where
  pub task_queue : List Task
  pub head : ℕ
  pub tail : ℕ
  pub count : ℕ
  pub shutdown : Bool
  pub workers : List Worker
  pub i : ℕ
  pub main : Main
  pub taken : List Task
  pub executed : List ℕ

abbrev pub is_waiting : Worker → Bool
is_waiting ready = false
is_waiting waiting = true
is_waiting (executing t) = false
is_waiting exited = false

abbrev pub has_exited : Worker → Bool
has_exited ready = false
has_exited waiting = false
has_exited (executing t) = false
has_exited exited = true

abbrev pub wake : Worker → Worker
wake w = if is_waiting w then ready else w

abbrev pub wake_first : List Worker → List Worker
wake_first [] = []
wake_first (w ∷ ws) = if is_waiting w then ready ∷ ws else w ∷ wake_first ws

-- pthread_cond_signal wakes one of the workers that wait, if any does: the one with the number `k`, or
-- else the first.
abbrev pub signal : ℕ → List Worker → List Worker
signal k ws = if is_waiting (get_or ws k exited) then set ws k ready else wake_first ws

abbrev pub broadcast : List Worker → List Worker
broadcast ws = map wake ws

-- Only `main` waits on queue_not_full.
abbrev pub wake_main : Main → Main
wake_main running = running
wake_main blocked = running
wake_main joining = joining
wake_main returned = returned

abbrev pub no_task : Task
no_task = record { task_id = 0; function = task_function }

-- Calls the function with the id.
abbrev pub call : Function → ℕ → List ℕ → List ℕ
call task_function id executed = executed ++ (id ∷ [])

abbrev pub move : ℕ → Worker → State → State
move k w s = record s { workers = set s.workers k w }

abbrev pub all_exited : List Worker → Bool
all_exited [] = true
all_exited (w ∷ ws) = has_exited w && all_exited ws

-- pthread_cond_broadcast on both, as thread_pool_destroy does under the lock.
abbrev pub thread_pool_destroy : State → State
thread_pool_destroy s = record s { shutdown = true; workers = broadcast s.workers; main = joining }

-- A step of `main` or of a worker, or a wake-up with no signal, which POSIX allows.
pub data Step : Type 0 where
  main_step : (w : ℕ) → Step
  worker_step : (k : ℕ) → Step
  spurious_main : Step
  spurious_worker : (k : ℕ) → Step

module _ (program : Program) where
  -- Lines 43-67 of `worker`.
  pub take_task : ℕ → State → State
  take_task k s =
      let task = get_or s.task_queue s.head no_task in
      if s.count == 0 && not s.shutdown
      then move k waiting s
      else if s.shutdown && s.count == 0
      then move k exited s
      else move k (executing task) (record s {
        head = (s.head + 1) % program.queue_size;
        count = s.count - 1;
        main = wake_main s.main;
        taken = s.taken ++ (task ∷ []);
      })

  -- The next step of worker `k`.
  pub worker_at : ℕ → Worker → State → State
  unfolding take_task
  worker_at k ready s = take_task k s
  worker_at k waiting s = s
  worker_at k (executing task) s =
      move k ready (record s { executed = call task.function task.task_id s.executed })
  worker_at k exited s = s

  pub worker : ℕ → State → State
  unfolding worker_at
  worker k s = worker_at k (get_or s.workers k exited) s

  -- Lines 128-154; the signal wakes worker `w`. A call that returns, with -1 or with 0, ends the round
  -- of the loop in `main`, which does not look at the result.
  pub thread_pool_add_task : ℕ → ℕ → Function → State → State
  thread_pool_add_task w task_id function s =
      if s.count == program.queue_size && not s.shutdown
      then record s { main = blocked }
      else if s.shutdown
      then record s { i = s.i + 1 }
      else record s {
        task_queue = set s.task_queue s.tail (record { task_id = task_id; function = function });
        tail = (s.tail + 1) % program.queue_size;
        count = s.count + 1;
        workers = signal w s.workers;
        i = s.i + 1;
      }

  -- The next step of `main`.
  pub main_at : ℕ → Main → State → State
  unfolding thread_pool_add_task
  main_at w running s =
      if ltb s.i program.num_tasks
      then thread_pool_add_task w s.i task_function s
      else thread_pool_destroy s
  main_at w blocked s = s
  main_at w joining s = if all_exited s.workers then record s { main = returned } else s
  main_at w returned s = s

  pub step : Step → State → State
  unfolding main_at worker
  step (main_step w) s = main_at w s.main s
  step (worker_step k) s = worker k s
  step spurious_main s = record s { main = wake_main s.main }
  step (spurious_worker k) s = move k (wake (get_or s.workers k exited)) s

  pub run : List Step → State → State
  unfolding step
  run [] s = s
  run (e ∷ es) s = run es (step e s)

  -- After thread_pool_init.
  abbrev pub start : State
  start = record {
    task_queue = replicate program.queue_size no_task;
    head = 0;
    tail = 0;
    count = 0;
    shutdown = false;
    workers = replicate program.num_threads ready;
    i = 0;
    main = running;
    taken = [];
    executed = [];
  }

-- Whether a thread can take a step.
abbrev pub worker_can_run : Worker → Bool
worker_can_run ready = true
worker_can_run waiting = false
worker_can_run (executing t) = true
worker_can_run exited = false

abbrev pub main_can_run : List Worker → Main → Bool
main_can_run ws running = true
main_can_run ws blocked = false
main_can_run ws joining = all_exited ws
main_can_run ws returned = false
