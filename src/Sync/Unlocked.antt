-- ===== src/Sync/Unlocked.antt =====
-- Threads that increment a shared counter with no lock: note1/threads/thread.c,
-- note7/synchronization_locks/race_condition.c, note4/thread_management/mutex_example.c and
-- note8/lock_implementation/mutex_example.c. An increment is a load and a store, and a run is any
-- sequence of steps of any threads.
pub mod Runs
pub mod Lost
pub mod Tests
use cp.Common.{
  ℕ, ◌+◌, ◌-◌, ◌*◌, Bool, not, ltb, leb, ◌==◌, if◌then◌else◌, List, [], ◌∷◌, set, get_or, replicate,
}

-- A thread is before the load of `counter`, or has loaded this value.
pub data Place : Type 0 where
  before : Place
  loaded : ℕ → Place

-- A thread in round `i` of its loop.
pub record Thread : Type 0 where
  pub i : ℕ
  pub place : Place

pub record State : Type 0 where
  pub counter : ℕ
  pub threads : List Thread

abbrev pub move : ℕ → ℕ → Place → State → State
move k i p s = record s { threads = set s.threads k (record { i = i; place = p }) }

module _ (loops : ℕ) where
  -- No thread has this number: there is nothing left to do.
  abbrev pub no_thread : Thread
  no_thread = record { i = loops; place = before }

  -- The next step of thread `k`, which is at this place in this round.
  pub thread_at : ℕ → ℕ → Place → State → State
  thread_at k i before s = if ltb i loops then move k i (loaded s.counter) s else s
  thread_at k i (loaded v) s = move k (i + 1) before (record s { counter = v + 1 })

  pub worker : ℕ → State → State
  unfolding thread_at
  worker k s = let t = get_or s.threads k no_thread in thread_at k t.i t.place s

  -- The threads with these numbers take a step, one after the other.
  pub run : List ℕ → State → State
  unfolding worker
  run [] s = s
  run (k ∷ ks) s = run ks (worker k s)

abbrev pub start : ℕ → State
start n = record { counter = 0; threads = replicate n (record { i = 0; place = before }) }

-- `main` of thread.c: the argument it accepts (`loops`, positive), and how many updates
-- `analyze_race_condition` reports as lost, with none if it detects no race.
abbrev pub accepts : ℕ → Bool
accepts loops = not (leb loops 0)

abbrev pub expected_value : ℕ → ℕ
expected_value loops = loops * 2

abbrev pub analyze_race_condition : ℕ → ℕ → ℕ
analyze_race_condition expected actual = if actual == expected then 0 else expected - actual
