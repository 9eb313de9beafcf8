-- ===== src/Sync/SimulatedSpinlock.antt =====
-- note8/synchronization_locks/spinlock_example.c: a spinlock over a test_and_set that is an ordinary
-- function, so that its load and its store are two steps. A run is any sequence of steps of any threads.
pub mod Sweep
pub mod Exclusion
pub mod Tests
use cp.Common.{
  ℕ, ◌+◌, ◌*◌, Bool, true, false, ltb, ◌==◌, if◌then◌else◌, List, [], ◌∷◌, set, get_or, replicate,
}

-- `increment_counter`, or `increment_with_backoff` if `backs_off`.
pub record Program : Type 0 where
  pub num_threads : ℕ
  pub iterations : ℕ
  pub backs_off : Bool

abbrev pub increment_counter : Program
increment_counter = record { num_threads = 4; iterations = 100000; backs_off = false }

abbrev pub increment_with_backoff : Program
increment_with_backoff = record { num_threads = 4; iterations = 100000; backs_off = true }

-- A thread is about to load the flag in test_and_set, has loaded this value of it, has got the lock, has
-- loaded this value of `counter`, or has stored.
pub data Place : Type 0 where
  testing : Place
  setting : ℕ → Place
  inside : Place
  loaded : ℕ → Place
  stored : Place

-- A thread in round `i`; `backoff_time` stays 1 in `increment_counter`, which has no such variable.
pub record Thread : Type 0 where
  pub i : ℕ
  pub backoff_time : ℕ
  pub place : Place

pub record State : Type 0 where
  pub flag : ℕ
  pub counter : ℕ
  pub threads : List Thread

abbrev pub move : ℕ → Thread → State → State
move k t s = record s { threads = set s.threads k t }

-- The next waiting time: twice as long, with a cap.
abbrev pub next_backoff : Bool → ℕ → ℕ
next_backoff false b = b
next_backoff true b = if ltb 1000 (b * 2) then 1000 else b * 2

-- What the loop does with the old value of the flag: it goes round again if that was 1.
abbrev pub after_test : Bool → ℕ → Thread → Thread
after_test backs_off old t =
    if old == 1
    then record t { backoff_time = next_backoff backs_off t.backoff_time; place = testing }
    else record t { place = inside }

module _ (p : Program) where
  -- No thread has this number: there is nothing left to do.
  abbrev pub no_thread : Thread
  no_thread = record { i = p.iterations; backoff_time = 1; place = testing }

  -- The next step of thread `k`, which is `t` and at this place.
  pub thread_at : ℕ → Thread → Place → State → State
  thread_at k t testing s =
      if ltb t.i p.iterations then move k (record t { place = setting s.flag }) s else s
  thread_at k t (setting old) s = move k (after_test p.backs_off old t) (record s { flag = 1 })
  thread_at k t inside s = move k (record t { place = loaded s.counter }) s
  thread_at k t (loaded v) s = move k (record t { place = stored }) (record s { counter = v + 1 })
  thread_at k t stored s =
      move k (record { i = t.i + 1; backoff_time = 1; place = testing }) (record s { flag = 0 })

  pub step : ℕ → State → State
  unfolding thread_at
  step k s = let t = get_or s.threads k no_thread in thread_at k t t.place s

  -- The threads with these numbers take a step, one after the other.
  pub run : List ℕ → State → State
  unfolding step
  run [] s = s
  run (k ∷ ks) s = run ks (step k s)

  abbrev pub start : State
  start = record {
    flag = 0;
    counter = 0;
    threads = replicate p.num_threads (record { i = 0; backoff_time = 1; place = testing });
  }
