-- ===== src/Sync/LockOrder.antt =====
-- Threads that take and give up several locks: deadlocks/deadlock.c, deadlocks/DL_circ_wait.c,
-- note7/synchronization_locks/deadlock.c and note8/synchronization_locks/deadlock_example.c. What a
-- thread function does is a list of operations; a run is any sequence of steps of any threads.
pub mod Invariant
pub mod Finish
pub mod Guards
pub mod Sums
pub mod Programs
pub mod Safe
pub mod Tests
use cp.Common.{
  ℕ, ◌+◌, ◌-◌, Bool, true, false, ltb, ◌==◌, if◌then◌else◌, List, [], ◌∷◌, map, set, get_or,
  replicate,
}

-- An operation on a lock (pthread_mutex_lock or sem_wait, pthread_mutex_unlock or sem_post), or on the
-- shared variables: number `r` grows by `n`, which is a load and a store, so that the thread goes on with
-- the store of `n` more than the value `v` that it has loaded.
pub data Op : Type 0 where
  acquire : ℕ → Op
  release : ℕ → Op
  add : (r n : ℕ) → Op
  store : (r v n : ℕ) → Op

-- What a thread has still to do, and the locks it has, which no operation reads.
pub record Thread : Type 0 where
  pub held : List ℕ
  pub todo : List Op

-- `values`: 1 for a free lock, 0 for one that is taken.
pub record State : Type 0 where
  pub values : List ℕ
  pub variables : List ℕ
  pub threads : List Thread

-- No thread has this number.
abbrev pub no_thread : Thread
no_thread = record { held = []; todo = [] }

abbrev pub move : ℕ → List ℕ → List Op → State → State
move k held todo s = record s { threads = set s.threads k (record { held = held; todo = todo }) }

abbrev pub value : State → ℕ → ℕ
value s l = get_or s.values l 0

abbrev pub without : ℕ → List ℕ → List ℕ
without l [] = []
without l (h ∷ hs) = if l == h then hs else h ∷ without l hs

-- The next operation of thread `k`.
pub execute : ℕ → List ℕ → List Op → State → State
execute k held [] s = s
execute k held (acquire l ∷ todo) s =
    if ltb 0 (value s l)
    then move k (l ∷ held) todo (record s { values = set s.values l (value s l - 1) })
    else s
execute k held (release l ∷ todo) s =
    move k (without l held) todo (record s { values = set s.values l (value s l + 1) })
execute k held (add r n ∷ todo) s = move k held (store r (get_or s.variables r 0) n ∷ todo) s
execute k held (store r v n ∷ todo) s =
    move k held todo (record s { variables = set s.variables r (v + n) })

pub step : ℕ → State → State
unfolding execute
step k s = let t = get_or s.threads k no_thread in execute k t.held t.todo s

-- The threads with these numbers take a step, one after the other.
pub run : List ℕ → State → State
unfolding step
run [] s = s
run (k ∷ ks) s = run ks (step k s)

-- `n` free locks, and a thread for each list of operations.
abbrev pub start : ℕ → List ℕ → List (List Op) → State
start n variables programs = record {
  values = replicate n 1;
  variables = variables;
  threads = map (λ todo. record { held = []; todo = todo }) programs;
}

-- Whether a thread can take a step.
abbrev pub can_execute : State → List Op → Bool
can_execute s [] = false
can_execute s (acquire l ∷ todo) = ltb 0 (value s l)
can_execute s (release l ∷ todo) = true
can_execute s (add r n ∷ todo) = true
can_execute s (store r v n ∷ todo) = true

abbrev pub can_run : State → Thread → Bool
can_run s t = can_execute s t.todo
