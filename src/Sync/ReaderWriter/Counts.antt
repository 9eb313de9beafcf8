-- ===== src/Sync/ReaderWriter/Counts.antt =====
-- The threads of note4/thread_management/reader_writer.c by number, and the invariant of the lock.
use cp.Common.{ℕ, ◌+◌, ◌≤◌, ◌<◌, ◌≡◌, ◌==◌, if◌then◌else◌, List, total, All}
use cp.Sync.ReaderWriter.{
  read_rounds, write_rounds, ReaderPlace, away, first, reading, WriterPlace, idle, locked, loaded,
  stored, Reader, Writer, State,
}

abbrev pub reading_weight : ReaderPlace → ℕ
reading_weight away = 0
reading_weight first = 0
reading_weight reading = 1

abbrev pub first_weight : ReaderPlace → ℕ
first_weight away = 0
first_weight first = 1
first_weight reading = 0

abbrev pub writing_weight : WriterPlace → ℕ
writing_weight idle = 0
writing_weight locked = 1
writing_weight (loaded v) = 1
writing_weight stored = 1

abbrev pub stored_weight : WriterPlace → ℕ
stored_weight idle = 0
stored_weight locked = 0
stored_weight (loaded v) = 0
stored_weight stored = 1

-- How many read, and how many block on `write_lock` with `mutex` locked.
abbrev pub num_reading : List Reader → ℕ
num_reading ts = total (λ t. reading_weight t.place) ts

abbrev pub num_first : List Reader → ℕ
num_first ts = total (λ t. first_weight t.place) ts

-- How many hold the write lock, and how often it was written.
abbrev pub num_writing : List Writer → ℕ
num_writing ts = total (λ t. writing_weight t.place) ts

abbrev pub num_written : List Writer → ℕ
num_written ts = total (λ t. t.i + stored_weight t.place) ts

-- A thread that is not between rounds has rounds left.
abbrev pub ReaderIsSound : Reader → Type 0
ReaderIsSound t = t.i + reading_weight t.place + first_weight t.place ≤ read_rounds

abbrev pub WriterIsSound : Writer → Type 0
WriterIsSound t = t.i + writing_weight t.place ≤ write_rounds

-- What a writer has read is what is there.
abbrev pub PlaceIsFresh : ℕ → WriterPlace → Type 0
PlaceIsFresh d idle = Unit
PlaceIsFresh d locked = Unit
PlaceIsFresh d (loaded v) = v ≡ d
PlaceIsFresh d stored = Unit

-- 1 while some reader reads.
abbrev pub read_share : List Reader → ℕ
read_share ts = if num_reading ts == 0 then 0 else 1

-- An unlock by a thread that is not the owner frees the mutex.
abbrev pub Frees : (State → ℕ) → Type 0
Frees foreign_unlock = (s : State) → foreign_unlock s ≡ 0

-- Whether or not it does, `write_lock` is locked while a thread reads or writes. When it does, it is
-- locked only then.
pub record Inv (foreign_unlock : State → ℕ) (s : State) : Type 0 where
  pub counted : s.readers ≡ num_reading s.reader_threads + num_first s.reader_threads
  pub mutex_held : s.mutex ≡ num_first s.reader_threads
  pub alone : 0 < num_first s.reader_threads → num_reading s.reader_threads ≡ 0
  pub one_first : num_first s.reader_threads ≤ 1
  pub one_holder : num_writing s.writer_threads + read_share s.reader_threads ≤ 1
  pub held : 0 < num_writing s.writer_threads + read_share s.reader_threads → s.write_lock ≡ 1
  pub holders :
      Frees foreign_unlock
      → s.write_lock ≡ num_writing s.writer_threads + read_share s.reader_threads
  pub written : s.shared_data ≡ num_written s.writer_threads
  pub fresh : All (λ t. PlaceIsFresh s.shared_data t.place) s.writer_threads
  pub readers_sound : All ReaderIsSound s.reader_threads
  pub writers_sound : All WriterIsSound s.writer_threads
