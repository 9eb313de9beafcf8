-- ===== src/Sync/Locked.antt =====
-- Threads that increment a shared counter under a lock, as in note7/synchronization_locks/
-- race_condition.c (mutex and spinlock), note4/thread_management/mutex_example.c,
-- note8/lock_implementation/mutex_example.c and note10/semaphores/binary_semaphore.c. An increment is a
-- load and a store, and a run is any sequence of steps of any threads.
pub mod Locks
pub mod Invariant
pub mod Runs
pub mod Programs
pub mod Tests
use cp.Common.{
  ℕ, ◌+◌, Bool, true, false, ◌&&◌, ltb, if◌then◌else◌, Option, none, some, List, [], ◌∷◌, set,
  get_or, replicate,
}

-- A lock over a number: how it starts, what an attempt to take it does (`none` if it waits or spins),
-- and what giving it up does.
pub record Lock : Type 0 where
  pub init : ℕ
  pub acquire : ℕ → Option ℕ
  pub release : ℕ → ℕ

-- How many threads there are, and how often each increments.
pub record Program : Type 0 where
  pub num_threads : ℕ
  pub iterations : ℕ

-- A thread is before the lock, holds it, has loaded this value of `counter`, or has stored.
pub data Place : Type 0 where
  outside : Place
  inside : Place
  loaded : ℕ → Place
  stored : Place

-- A thread in round `i` of its loop.
pub record Thread : Type 0 where
  pub i : ℕ
  pub place : Place

pub record State : Type 0 where
  pub lock : ℕ
  pub counter : ℕ
  pub threads : List Thread

abbrev pub move : ℕ → ℕ → Place → State → State
move k i p s = record s { threads = set s.threads k (record { i = i; place = p }) }

module _ (l : Lock) (program : Program) where
  -- No thread has this number: there is nothing left to do.
  abbrev pub no_thread : Thread
  no_thread = record { i = program.iterations; place = outside }

  -- An attempt to take the lock.
  abbrev pub enter : ℕ → ℕ → State → Option ℕ → State
  enter k i s none = s
  enter k i s (some held) = move k i inside (record s { lock = held })

  -- The next step of thread `k`, which is at this place in this round.
  pub thread_at : ℕ → ℕ → Place → State → State
  thread_at k i outside s = if ltb i program.iterations then enter k i s (l.acquire s.lock) else s
  thread_at k i inside s = move k i (loaded s.counter) s
  thread_at k i (loaded v) s = move k i stored (record s { counter = v + 1 })
  thread_at k i stored s = move k (i + 1) outside (record s { lock = l.release s.lock })

  pub increment : ℕ → State → State
  unfolding thread_at
  increment k s = let t = get_or s.threads k no_thread in thread_at k t.i t.place s

  -- The threads with these numbers take a step, one after the other.
  pub run : List ℕ → State → State
  unfolding increment
  run [] s = s
  run (k ∷ ks) s = run ks (increment k s)

  abbrev pub start : State
  start = record {
    lock = l.init;
    counter = 0;
    threads = replicate program.num_threads (record { i = 0; place = outside });
  }

  -- Whether a step of this thread does anything but wait.
  abbrev pub can_acquire : Option ℕ → Bool
  can_acquire none = false
  can_acquire (some held) = true

  abbrev pub can_run : State → Thread → Bool
  can_run s t = elim t.place [
    | outside ↦ ltb t.i program.iterations && can_acquire (l.acquire s.lock)
    | inside ↦ true
    | loaded v ↦ true
    | stored ↦ true
  ]
