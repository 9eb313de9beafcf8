-- ===== src/Sync/ResourcePool.antt =====
-- note10/semaphores/counting_semaphore.c: threads that use one of a number of resources, under a counting
-- semaphore. A step is one call on `resource_pool`; a run is any sequence of steps of any threads.
pub mod Runs
pub mod Tests
use cp.Common.{
  ℕ, ◌+◌, ◌-◌, Bool, true, false, ltb, if◌then◌else◌, List, [], ◌∷◌, ◌++◌, set, get_or, replicate,
}

pub record Program : Type 0 where
  pub num_threads : ℕ
  pub resource_limit : ℕ

abbrev pub counting_semaphore : Program
counting_semaphore = record { num_threads = 10; resource_limit = 3 }

-- A worker is about to call sem_wait, to read the count after it, to call sem_post, to read the count
-- after that, or has returned.
pub data Worker : Type 0 where
  before_wait : Worker
  acquired : Worker
  working : Worker
  released : Worker
  returned : Worker

-- `available` are the counts printed by the threads that hold a resource, in order, and `after_release`
-- those printed by the threads that have released theirs.
pub record State : Type 0 where
  pub resource_pool : ℕ
  pub workers : List Worker
  pub available : List ℕ
  pub after_release : List ℕ

abbrev pub move : ℕ → Worker → State → State
move k w s = record s { workers = set s.workers k w }

-- The next step of worker `k`.
pub worker_at : ℕ → Worker → State → State
worker_at k before_wait s =
    if ltb 0 s.resource_pool
    then move k acquired (record s { resource_pool = s.resource_pool - 1 })
    else s
worker_at k acquired s =
    move k working (record s { available = s.available ++ (s.resource_pool ∷ []) })
worker_at k working s = move k released (record s { resource_pool = s.resource_pool + 1 })
worker_at k released s =
    move k returned (record s { after_release = s.after_release ++ (s.resource_pool ∷ []) })
worker_at k returned s = s

pub worker : ℕ → State → State
unfolding worker_at
worker k s = worker_at k (get_or s.workers k returned) s

pub run : List ℕ → State → State
unfolding worker
run [] s = s
run (k ∷ ks) s = run ks (worker k s)

abbrev pub start : Program → State
start p = record {
  resource_pool = p.resource_limit;
  workers = replicate p.num_threads before_wait;
  available = [];
  after_release = [];
}

-- Whether a worker can take a step.
abbrev pub can_run : State → Worker → Bool
can_run s before_wait = ltb 0 s.resource_pool
can_run s acquired = true
can_run s working = true
can_run s released = true
can_run s returned = false
