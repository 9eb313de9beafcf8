-- ===== src/Sync/ReaderWriter.antt =====
-- note4/thread_management/reader_writer.c: a reader-writer lock of two mutexes. `readers` is only used
-- by the thread that holds `mutex`, so what a thread does from there to where it blocks or unlocks is
-- one step; a run is any sequence of steps of any threads. A mutex is 0 while it is free.
--
-- The last reader unlocks `write_lock`, which another reader may have locked. POSIX leaves that undefined
-- for a default mutex, so what it does is a parameter: `foreign_unlock s` is what `write_lock` is then
-- left with in the state `s`.
pub mod Counts
pub mod Readers
pub mod Writers
pub mod Runs
pub mod Deadlock
pub mod Tests
use cp.Common.{ℕ, ◌+◌, ◌-◌, not, ltb, ◌==◌, if◌then◌else◌, List, [], ◌∷◌, set, get_or, replicate}

-- The rounds of the `for` loops in `reader` and in `writer`.
abbrev pub read_rounds : ℕ
read_rounds = 5

abbrev pub write_rounds : ℕ
write_rounds = 3

-- A reader is before rw_read_lock, blocked there on `write_lock` with `mutex` locked, or reading.
pub data ReaderPlace : Type 0 where
  away : ReaderPlace
  first : ReaderPlace
  reading : ReaderPlace

-- A writer is before rw_write_lock, or it holds the lock and has not yet read `shared_data`, has read
-- this value for `shared_data++`, or has stored.
pub data WriterPlace : Type 0 where
  idle : WriterPlace
  locked : WriterPlace
  loaded : ℕ → WriterPlace
  stored : WriterPlace

pub record Reader : Type 0 where
  pub i : ℕ
  pub place : ReaderPlace

pub record Writer : Type 0 where
  pub i : ℕ
  pub place : WriterPlace

-- `rw_lock_t`, with the number of the reader that locked `write_lock` last, `shared_data` and the threads.
pub record State : Type 0 where
  pub mutex : ℕ
  pub write_lock : ℕ
  pub readers : ℕ
  pub owner : ℕ
  pub shared_data : ℕ
  pub reader_threads : List Reader
  pub writer_threads : List Writer

-- No thread has this number: there is nothing left to do.
abbrev pub no_reader : Reader
no_reader = record { i = read_rounds; place = away }

abbrev pub no_writer : Writer
no_writer = record { i = write_rounds; place = idle }

abbrev pub move_reader : ℕ → ℕ → ReaderPlace → State → State
move_reader k i p s = record s {
  reader_threads = set s.reader_threads k (record { i = i; place = p });
}

abbrev pub move_writer : ℕ → ℕ → WriterPlace → State → State
move_writer k i p s = record s {
  writer_threads = set s.writer_threads k (record { i = i; place = p });
}

-- `rw_read_lock` up to the lock of `write_lock`, or to its end.
pub rw_read_lock : ℕ → ℕ → State → State
rw_read_lock k i s =
    if not (ltb i read_rounds)
    then s
    else if not (s.mutex == 0)
    then s
    else if s.readers + 1 == 1
    then move_reader k i first (record s { mutex = 1; readers = s.readers + 1 })
    else move_reader k i reading (record s { readers = s.readers + 1 })

-- The rest of `rw_read_lock` for the first reader.
pub lock_out_writers : ℕ → ℕ → State → State
lock_out_writers k i s =
    if s.write_lock == 0
    then move_reader k i reading (record s { write_lock = 1; owner = k; mutex = 0 })
    else s

pub rw_read_unlock : (State → ℕ) → ℕ → ℕ → State → State
rw_read_unlock foreign_unlock k i s =
    if not (s.mutex == 0)
    then s
    else if s.readers - 1 == 0
    then move_reader k (i + 1) away (record s {
      readers = s.readers - 1;
      write_lock = if s.owner == k then 0 else foreign_unlock s;
    })
    else move_reader k (i + 1) away (record s { readers = s.readers - 1 })

pub rw_write_lock : ℕ → ℕ → State → State
rw_write_lock k i s =
    if not (ltb i write_rounds)
    then s
    else if s.write_lock == 0
    then move_writer k i locked (record s { write_lock = 1 })
    else s

pub rw_write_unlock : ℕ → ℕ → State → State
rw_write_unlock k i s = move_writer k (i + 1) idle (record s { write_lock = 0 })

-- The next step of reader `k`, which is at this place in this round.
abbrev pub reader_at : (State → ℕ) → ℕ → ℕ → ReaderPlace → State → State
reader_at foreign_unlock k i away s = rw_read_lock k i s
reader_at foreign_unlock k i first s = lock_out_writers k i s
reader_at foreign_unlock k i reading s = rw_read_unlock foreign_unlock k i s

abbrev pub writer_at : ℕ → ℕ → WriterPlace → State → State
writer_at k i idle s = rw_write_lock k i s
writer_at k i locked s = move_writer k i (loaded s.shared_data) s
writer_at k i (loaded v) s = move_writer k i stored (record s { shared_data = v + 1 })
writer_at k i stored s = rw_write_unlock k i s

pub reader : (State → ℕ) → ℕ → State → State
unfolding rw_read_lock lock_out_writers rw_read_unlock
reader foreign_unlock k s =
    let t = get_or s.reader_threads k no_reader in reader_at foreign_unlock k t.i t.place s

pub writer : ℕ → State → State
unfolding rw_write_lock rw_write_unlock
writer k s = let t = get_or s.writer_threads k no_writer in writer_at k t.i t.place s

pub data Step : Type 0 where
  reader_step : ℕ → Step
  writer_step : ℕ → Step

pub run : (State → ℕ) → List Step → State → State
unfolding reader writer
run foreign_unlock [] s = s
run foreign_unlock (reader_step k ∷ es) s = run foreign_unlock es (reader foreign_unlock k s)
run foreign_unlock (writer_step k ∷ es) s = run foreign_unlock es (writer k s)

-- When `main` has created the threads: 5 readers and 2 writers in the source.
abbrev pub start : ℕ → ℕ → State
start readers writers = record {
  mutex = 0;
  write_lock = 0;
  readers = 0;
  owner = 0;
  shared_data = 0;
  reader_threads = replicate readers (record { i = 0; place = away });
  writer_threads = replicate writers (record { i = 0; place = idle });
}
