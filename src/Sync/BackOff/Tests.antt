-- ===== src/Sync/BackOff/Tests.antt =====
-- Runs of two threads that back off.
use cp.Common.{◌+◌, ◌*◌, ◌≤◌, ◌≡◌, refl, Bool, true, false, List, [], ◌∷◌, ◌++◌}
use cp.Sync.BackOff.{run, start}
use cp.Sync.BackOff.Invariant.{first_weight, second_weight, added}
use cp.Sync.BackOff.{
  acquire_two_with_preemption, thread_1_function, thread_2_trylock_function, thread_function_1,
  thread_function_2_trylock, trylock_scenario,
}
use cp.Sync.BackOff.Runs.{IsFinished, can_still_finish, back_off_results}
use cp.Sync.BackOff.Livelock.{repeat, tried, pre_emption_livelock}

-- Part 3 of note7/synchronization_locks/deadlock.c: thread 2 does not get mutex_A at its first attempt, and
-- adds 20 to resource_B at each.
abbrev one_retry : List Bool
one_retry = false ∷ true ∷ false ∷ false ∷ true ∷ true ∷ true ∷ false ∷ false ∷ false ∷ false ∷ []

retry_adds_again :
    let s = run thread_1_function thread_2_trylock_function one_retry trylock_scenario in
    (s.other.i ≡ 1) × (s.me.resource ≡ 110) × (s.other.resource ≡ 240)
unfolding run
retry_adds_again = (refl, refl, refl)

back_off_results_example :
    let s = run thread_1_function thread_2_trylock_function one_retry (start 100 200) in
    (first_weight s.me.place + second_weight s.other.place ≤ 1)
    × (first_weight s.other.place + second_weight s.me.place ≤ 1)
    × (s.counter1 ≡ added thread_1_function s.me + added thread_2_trylock_function s.other)
    × (s.counter2 ≡ s.counter1)
    × (s.me.resource ≡ 100 + s.me.attempts * 10)
    × (s.other.resource ≡ 200 + s.other.attempts * 20)
    × (s.me.i ≤ s.me.attempts)
    × (s.other.i ≤ s.other.attempts)
back_off_results_example =
    back_off_results thread_1_function thread_2_trylock_function 100 200 one_retry

can_still_finish_example :
    (cs : List Bool) × (let s =
        run thread_function_1 thread_function_2_trylock
          ((true ∷ false ∷ false ∷ []) ++ cs)
          (start 0 0) in
      IsFinished thread_function_1 s.me × IsFinished thread_function_2_trylock s.other)
can_still_finish_example =
    can_still_finish thread_function_1 thread_function_2_trylock 0 0 (true ∷ false ∷ false ∷ [])
      refl

pre_emption_livelock_example :
    let s = run acquire_two_with_preemption acquire_two_with_preemption (repeat 3) (start 0 0) in
    (s.me ≡ tried 3) × (s.other ≡ tried 3)
pre_emption_livelock_example = pre_emption_livelock 3
