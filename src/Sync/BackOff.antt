-- ===== src/Sync/BackOff.antt =====
-- Two threads that take two locks in opposite orders, where a thread that does not get its second lock
-- may give the first one up and try again: deadlocks/DL_pre_emption.c, part 3 of
-- note7/synchronization_locks/deadlock.c and mode 3 of note8/synchronization_locks/deadlock_example.c. A
-- run is any sequence of steps of the two threads.
pub mod Invariant
pub mod Finish
pub mod Runs
pub mod Livelock
pub mod Tests
use cp.Common.{ℕ, ◌+◌, ◌-◌, Bool, true, false, not, ltb, if◌then◌else◌, List, [], ◌∷◌}

-- What a thread does: how often it needs both locks, whether it takes the first one with a trylock,
-- whether it takes the second one so, and what it adds to its own resource when it has the first lock, and
-- to both counters when it has both.
pub record Style : Type 0 where
  pub rounds : ℕ
  pub tries_first : Bool
  pub tries_second : Bool
  pub add_first : ℕ
  pub add_both : ℕ

-- A thread is about to take its first lock, has it, has it and did not get the second, has both and is
-- about to give up the second, or is about to give up the first after that.
pub data Place : Type 0 where
  outside : Place
  has_first : Place
  backing_off : Place
  has_both : Place
  has_released : Place

-- A thread in round `i`, its resource, how often it has got its first lock, how often a trylock has
-- failed, and the value of its first lock, 1 if it is free.
pub record Side : Type 0 where
  pub lock : ℕ
  pub i : ℕ
  pub place : Place
  pub resource : ℕ
  pub attempts : ℕ
  pub failures : ℕ

-- The thread that takes a step, and the other, whose first lock is the second lock of this one.
pub record State : Type 0 where
  pub me : Side
  pub other : Side
  pub counter1 : ℕ
  pub counter2 : ℕ

abbrev pub swap : State → State
swap s = record s { me = s.other; other = s.me }

abbrev pub put : Side → State → State
put t s = record s { me = t }

-- A trylock that fails is counted.
abbrev pub fail : Bool → Side → Side
fail tries t = record t { failures = t.failures + (if tries then 1 else 0) }

-- The next step of this thread, which is at this place.
pub step_at : Style → Place → State → State
step_at st outside s =
    if not (ltb s.me.i st.rounds)
    then s
    else if ltb 0 s.me.lock
    then put
        (record s.me {
          lock = s.me.lock - 1;
          place = has_first;
          resource = s.me.resource + st.add_first;
          attempts = s.me.attempts + 1;
        })
        s
    else put (fail st.tries_first s.me) s
step_at st has_first s =
    if ltb 0 s.other.lock
    then record s {
      me = record s.me { place = has_both };
      other = record s.other { lock = s.other.lock - 1 };
    }
    else if st.tries_second
    then put (record (fail true s.me) { place = backing_off }) s
    else s
step_at st backing_off s = put (record s.me { lock = s.me.lock + 1; place = outside }) s
step_at st has_both s = record s {
  me = record s.me { place = has_released };
  other = record s.other { lock = s.other.lock + 1 };
  counter1 = s.counter1 + st.add_both;
  counter2 = s.counter2 + st.add_both;
}
step_at st has_released s =
    put (record s.me { lock = s.me.lock + 1; place = outside; i = s.me.i + 1 }) s

pub step : Style → State → State
unfolding step_at
step st s = step_at st s.me.place s

-- Which thread takes a step: `true` for the first.
pub step_of : Style → Style → Bool → State → State
unfolding step
step_of st1 st2 true s = step st1 s
step_of st1 st2 false s = swap (step st2 (swap s))

pub run : Style → Style → List Bool → State → State
unfolding step_of
run st1 st2 [] s = s
run st1 st2 (b ∷ bs) s = run st1 st2 bs (step_of st1 st2 b s)

abbrev new_side : ℕ → Side
new_side resource = record {
  lock = 1;
  i = 0;
  place = outside;
  resource = resource;
  attempts = 0;
  failures = 0;
}

-- Both locks are free; the threads have these resources.
abbrev pub start : ℕ → ℕ → State
start r1 r2 = record { me = new_side r1; other = new_side r2; counter1 = 0; counter2 = 0 }

-- deadlocks/DL_pre_emption.c: both threads.
abbrev pub acquire_two_with_preemption : Style
acquire_two_with_preemption = record {
  rounds = 1;
  tries_first = false;
  tries_second = true;
  add_first = 0;
  add_both = 0;
}

-- note7/synchronization_locks/deadlock.c, with resource_A and resource_B.
abbrev pub thread_1_function : Style
thread_1_function = record {
  rounds = 1;
  tries_first = false;
  tries_second = false;
  add_first = 10;
  add_both = 0;
}

abbrev pub thread_2_trylock_function : Style
thread_2_trylock_function = record {
  rounds = 1;
  tries_first = true;
  tries_second = true;
  add_first = 20;
  add_both = 0;
}

abbrev pub trylock_scenario : State
trylock_scenario = start 100 200

-- note8/synchronization_locks/deadlock_example.c, with counter1 and counter2.
abbrev pub thread_function_1 : Style
thread_function_1 = record {
  rounds = 10000;
  tries_first = false;
  tries_second = false;
  add_first = 0;
  add_both = 1;
}

abbrev pub thread_function_2_trylock : Style
thread_function_2_trylock = record {
  rounds = 10000;
  tries_first = true;
  tries_second = true;
  add_first = 0;
  add_both = 1;
}
