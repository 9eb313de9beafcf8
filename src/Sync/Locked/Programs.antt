-- ===== src/Sync/Locked/Programs.antt =====
-- The programs whose threads increment a counter under a lock: the numbers of each, and what one step
-- of a thread is.
use cp.Common.{ℕ}
use cp.Sync.Locked.{Program, State, increment}
use cp.Sync.Locked.Locks.{mutex, spinlock, semaphore}

-- note7/synchronization_locks/race_condition.c
abbrev pub race_condition : Program
race_condition = record { num_threads = 4; iterations = 1000000 }

pub increment_with_lock : ℕ → State → State
unfolding increment
increment_with_lock k s = increment mutex race_condition k s

pub increment_with_spinlock : ℕ → State → State
unfolding increment
increment_with_spinlock k s = increment spinlock race_condition k s

-- note4/thread_management/mutex_example.c: `counter` and `mutex` are fields of a struct.
abbrev pub mutex_struct : Program
mutex_struct = record { num_threads = 2; iterations = 100000 }

pub safe_increment : ℕ → State → State
unfolding increment
safe_increment k s = increment mutex mutex_struct k s

-- note8/lock_implementation/mutex_example.c, and the same file in note8/synchronization_locks.
abbrev pub mutex_example : Program
mutex_example = record { num_threads = 2; iterations = 1000000 }

pub safe_increment_global : ℕ → State → State
unfolding increment
safe_increment_global k s = increment mutex mutex_example k s

-- note10/semaphores/binary_semaphore.c
abbrev pub binary_semaphore : Program
binary_semaphore = record { num_threads = 5; iterations = 100000 }

pub increment_counter : ℕ → State → State
unfolding increment
increment_counter k s = increment semaphore binary_semaphore k s
