-- ===== src/Lib.antt =====
-- The programs of the course repository on operating systems that carry logic of their own, modelled
-- with what makes them correct. Paths are from the repository's root. The programs do not call each
-- other: each file under note*/ is a program with its own `main`, and the models share only Common.
--
-- Schedulers (Sched), simulations by one thread on a clock that counts time units:
--   Sched/Fcfs         note5/cpu_scheduling/schedule_fcfs.c: `calculate_times`.
--   Sched/RoundRobin   note5/cpu_scheduling/schedule_rr.c: `round_robin`. A pass over the array
--                      (`run_pass`), or a jump to the next arrival, is a `turn` of the outer loop.
--   Sched/Mlfq         note5/multilevel_feedback/mlfq.c, and note6/mlfq/mlfq_simulation.c, which is the
--                      same code: the queues in Mlfq, the `while` loop of `run_mlfq_simulation` in Run.
--                      `get_next_process` boosts, then takes from the first queue that is not empty;
--                      the body of the loop puts arrivals in queue 0 and what has run in its next queue.
--   Sched/Multicore    note7/multi_cpu_scheduling/multicore_scheduling.c: the text that the simulations
--                      of a single queue and of a queue for each CPU share is written once, over a
--                      `Policy` (Multicore); Policies holds the two, with work stealing, Compare the
--                      table of `main`, and Fits the bounds of the arrays.
-- Threads (Sync), as step functions and runs over any sequence of steps of any threads:
--   Sync/BoundedBuffer note9/condition_variables/bounded_buffer.c: producers and consumers on a circular
--                      buffer with a mutex and two condition variables, for any numbers of threads and
--                      rounds; wake-ups with no signal are steps too. The buffer is the queue of
--                      Common/Ring. The programs
--                      note4/thread_management/producer_consumer.c and
--                      note8/synchronization_locks/condition_variable_example.c are instances.
--   Sync/ReaderWriter  note4/thread_management/reader_writer.c: a reader-writer lock of two mutexes;
--                      shared_data++ is a load and a store. The last reader may unlock a mutex that
--                      another reader locked, which POSIX leaves undefined for a default mutex: what it
--                      does is the parameter `foreign_unlock`.
--   Sync/TicketLock    note7/synchronization_locks/race_condition.c: the ticket lock, and the threads
--                      that increment `counter` under it; tickets are 32 bits wide.
--   Sync/Locked        the increments under a lock, for any lock with the laws of Locks: the mutex and the
--                      spinlock of race_condition.c, the mutex_example.c of note4 and note8, and the
--                      binary semaphore of note10/semaphores/binary_semaphore.c.
--   Sync/Unlocked      note1/threads/thread.c: the increments with no lock.
--   Sync/SimulatedSpinlock note8/synchronization_locks/spinlock_example.c: test_and_set is a load and a
--                      store.
--   Sync/LockOrder     threads that take several locks, as lists of operations: deadlocks/deadlock.c,
--                      deadlocks/DL_circ_wait.c, note7/synchronization_locks/deadlock.c and
--                      note8/synchronization_locks/deadlock_example.c, in Programs. An increment of a
--                      shared variable is a load and a store (`add`, then `store`); Guards and Sums
--                      are about variables that are used under a lock.
--   Sync/BackOff       the threads of the last two, and of deadlocks/DL_pre_emption.c, that take their
--                      second lock with a trylock and give the first up when they do not get it.
--   Sync/ThreadPool    note4/thread_management/thread_pool.c: the workers, and `main`, which adds tasks
--                      and shuts the pool down, on the circular queue of Common/Ring.
--   Sync/SemaphoreBuffer note10/semaphores/producer_consumer_semaphores.c: the array is a stack (Buffer),
--                      `empty`, `full` and the two mutual exclusions are steps.
--   Sync/ResourcePool  note10/semaphores/counting_semaphore.c.
--
-- How the state corresponds: a C struct is a record with the same fields, an array a list with native
-- indices (Common/Lists, and Common/Search for what finds an entry), a pointer into an array an index,
-- -1 and NULL `none`; values that become negative are in ℤ (Common/Int), the others in ℕ. `printf` is
-- left out, except where printed items are what a theorem is about. A thread's step is what it does from
-- where it gets a mutex to where it blocks or gives it up, since the data is only used there; which
-- thread comes next is free.
--
-- Loops that are not bounded by an array run on fuel. Round robin: more than the sum of the bursts and
-- the number of processes is enough; Mlfq: twice the sum of the bursts and two; both are proved. The
-- simulations of Multicore stop at time 100, and 100 rounds of fuel are proved to be enough for that.
--
-- Not modelled: the overflow of `int`, except where a bound is stated (Fcfs); the averages that are
-- printed as floats; the failures of malloc and of the calls that create threads and locks; the programs
-- that only show system calls (processes, pipes, redirection, memory) or time what the machine does; and,
-- so far, the steps in order of synchronization_semaphore.c, the ticket lock of note8, and
-- condition_variable_demo.c.
pub mod Common
pub mod Sched
pub mod Sync
