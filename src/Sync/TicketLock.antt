-- ===== src/Sync/TicketLock.antt =====
-- note7/synchronization_locks/race_condition.c: the threads that increment `counter` under the ticket
-- lock. The increment of the ticket is one atomic step (__sync_fetch_and_add), `counter = counter + 1`
-- is a load and a store, and a run is any sequence of steps of any threads.
pub mod Invariant
pub mod Steps
pub mod Runs
pub mod Tests
use cp.Common.{ℕ, ◌+◌, ◌%◌, ◌^◌, ltb, ◌==◌, if◌then◌else◌, List, [], ◌∷◌, set, get_or, replicate}

abbrev pub num_threads : ℕ
num_threads = 4

abbrev pub increment_count : ℕ
increment_count = 1000000

-- An unsigned int is 32 bits wide.
abbrev pub unsigned : ℕ → ℕ
unsigned n = n % 2 ^ 32

-- A thread is before ticket_lock_lock, or has this ticket and spins, holds the lock, has loaded this
-- value of `counter`, or has stored.
pub data Place : Type 0 where
  outside : Place
  waiting : ℕ → Place
  inside : ℕ → Place
  loaded : ℕ → ℕ → Place
  stored : ℕ → Place

-- A thread in round `i` of its loop.
pub record Thread : Type 0 where
  pub i : ℕ
  pub place : Place

-- `ticket_lock`, `counter` and the threads.
pub record State : Type 0 where
  pub ticket : ℕ
  pub serving : ℕ
  pub counter : ℕ
  pub threads : List Thread

-- No thread has this number: there is nothing left to do.
abbrev pub no_thread : Thread
no_thread = record { i = increment_count; place = outside }

abbrev pub move : ℕ → ℕ → Place → State → State
move k i p s = record s { threads = set s.threads k (record { i = i; place = p }) }

-- Both lines of `ticket_lock_lock`: taking a ticket, and one test of the loop that spins.
abbrev pub take_ticket : ℕ → ℕ → State → State
take_ticket k i s =
    if ltb i increment_count
    then move k i (waiting s.ticket) (record s { ticket = unsigned (s.ticket + 1) })
    else s

abbrev pub spin : ℕ → ℕ → ℕ → State → State
spin k i my_ticket s = if s.serving == my_ticket then move k i (inside my_ticket) s else s

abbrev pub ticket_lock_unlock : ℕ → ℕ → State → State
ticket_lock_unlock k i s = move k (i + 1) outside (record s { serving = unsigned (s.serving + 1) })

-- The next step of thread `k`, which is at this place in this round.
pub thread_at : ℕ → ℕ → Place → State → State
thread_at k i outside s = take_ticket k i s
thread_at k i (waiting t) s = spin k i t s
thread_at k i (inside t) s = move k i (loaded t s.counter) s
thread_at k i (loaded t v) s = move k i (stored t) (record s { counter = v + 1 })
thread_at k i (stored t) s = ticket_lock_unlock k i s

pub increment_with_ticket_lock : ℕ → State → State
unfolding thread_at
increment_with_ticket_lock k s = let t = get_or s.threads k no_thread in thread_at k t.i t.place s

-- The threads with these numbers take a step, one after the other.
pub run : List ℕ → State → State
unfolding increment_with_ticket_lock
run [] s = s
run (k ∷ ks) s = run ks (increment_with_ticket_lock k s)

-- After `ticket_lock_init`, with `counter` reset and the threads created.
abbrev pub start : State
start = record {
  ticket = 0;
  serving = 0;
  counter = 0;
  threads = replicate num_threads (record { i = 0; place = outside });
}
