-- ===== src/Sync/LockOrder/Programs.antt =====
-- The thread functions of the programs on deadlock. In each program the locks are 0 and 1: s1 and s2,
-- or mutex_A and mutex_B.
use cp.Common.{ℕ, zero, suc, List, [], ◌∷◌}
use cp.Sync.LockOrder.{Op, acquire, release, add, State, start}

-- deadlocks/deadlock.c
abbrev pub deadlock_thread1 : List Op
deadlock_thread1 = acquire 0 ∷ acquire 1 ∷ release 1 ∷ release 0 ∷ []

abbrev pub deadlock_thread2 : List Op
deadlock_thread2 = acquire 1 ∷ acquire 0 ∷ release 0 ∷ release 1 ∷ []

abbrev pub deadlock_main : State
deadlock_main = start 2 [] (deadlock_thread1 ∷ deadlock_thread2 ∷ [])

-- deadlocks/DL_circ_wait.c
abbrev pub circ_wait_thread1 : List Op
circ_wait_thread1 = acquire 0 ∷ acquire 1 ∷ release 1 ∷ release 0 ∷ []

abbrev pub circ_wait_thread2 : List Op
circ_wait_thread2 = acquire 0 ∷ acquire 1 ∷ release 1 ∷ release 0 ∷ []

abbrev pub circ_wait_programs : List (List Op)
circ_wait_programs = circ_wait_thread1 ∷ circ_wait_thread2 ∷ []

-- note7/synchronization_locks/deadlock.c: the variables are resource_A and resource_B.
abbrev pub thread_1_function : List Op
thread_1_function = acquire 0 ∷ add 0 10 ∷ acquire 1 ∷ release 1 ∷ release 0 ∷ []

abbrev pub thread_2_function : List Op
thread_2_function = acquire 1 ∷ add 1 20 ∷ acquire 0 ∷ release 0 ∷ release 1 ∷ []

abbrev pub thread_2_safe_function : List Op
thread_2_safe_function = acquire 0 ∷ add 0 5 ∷ acquire 1 ∷ release 1 ∷ release 0 ∷ []

abbrev pub resources : List ℕ
resources = 100 ∷ 200 ∷ []

-- Its parts 1 and 2.
abbrev pub deadlock_scenario : State
deadlock_scenario = start 2 resources (thread_1_function ∷ thread_2_function ∷ [])

abbrev pub consistent_order : List (List Op)
consistent_order = thread_1_function ∷ thread_2_safe_function ∷ []

-- note8/synchronization_locks/deadlock_example.c, and the same file in note8/concurrency_problems: the
-- variables are counter1 and counter2. One round of the loop, before the others:
abbrev pub round_a_b : List Op → List Op
round_a_b todo = acquire 0 ∷ acquire 1 ∷ add 0 1 ∷ add 1 1 ∷ release 1 ∷ release 0 ∷ todo

abbrev pub round_b_a : List Op → List Op
round_b_a todo = acquire 1 ∷ acquire 0 ∷ add 0 1 ∷ add 1 1 ∷ release 0 ∷ release 1 ∷ todo

abbrev pub loop : ℕ → (List Op → List Op) → List Op
loop zero round = []
loop (suc n) round = round (loop n round)

abbrev pub iterations : ℕ
iterations = 10000

unfoldable pub thread_function_1 : List Op
thread_function_1 = loop iterations round_a_b

pub thread_function_2_deadlock : List Op
thread_function_2_deadlock = loop iterations round_b_a

unfoldable pub thread_function_2_safe : List Op
thread_function_2_safe = loop iterations round_a_b

-- The threads of `main` in mode 1, or with a mode that is none of the three.
unfoldable pub safe_mode : List (List Op)
unfolding thread_function_1 thread_function_2_safe
safe_mode = thread_function_1 ∷ thread_function_2_safe ∷ []

pub deadlock_mode : List (List Op)
unfolding thread_function_1 thread_function_2_deadlock
deadlock_mode = thread_function_1 ∷ thread_function_2_deadlock ∷ []
