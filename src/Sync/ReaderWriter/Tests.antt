-- ===== src/Sync/ReaderWriter/Tests.antt =====
-- Concrete runs of the reader-writer lock, and the theorems applied to them.
use cp.Common.{ℕ, zero, suc, ◌*◌, ◌≤◌, ◌<◌, ◌≡◌, refl, false, List, [], ◌∷◌, ◌++◌, length, All}
use cp.Sync.ReaderWriter.{
  read_rounds, write_rounds, State, Step, reader_step, writer_step, reader, writer, run, start,
  rw_read_lock, rw_read_unlock, rw_write_lock, rw_write_unlock, lock_out_writers,
}
use cp.Sync.ReaderWriter.Counts.{num_reading, num_writing, num_written}
use cp.Sync.ReaderWriter.Runs.{mutual_exclusion}
use cp.Sync.ReaderWriter.Deadlock.{reader_can_run, writer_can_run, reader_writer_no_deadlock}

-- A mutex that any thread can unlock, and one that only its owner can.
abbrev frees : State → ℕ
frees s = 0

abbrev keeps : State → ℕ
keeps s = s.write_lock

abbrev twice : ℕ → List Step → List Step → List Step
twice zero xs ys = ys
twice (suc n) xs ys = xs ++ twice n xs ys

-- Two readers read at the same time while a writer tries to; then the writer writes.
abbrev read_both : List Step
read_both =
    reader_step 0
    ∷ reader_step 0
    ∷ reader_step 1
    ∷ writer_step 0
    ∷ reader_step 0
    ∷ reader_step 1
    ∷ []

abbrev write_once : List Step
write_once = writer_step 0 ∷ writer_step 0 ∷ writer_step 0 ∷ reader_step 0 ∷ writer_step 0 ∷ []

abbrev schedule : List Step
schedule = twice 5 read_both (twice 3 write_once [])

mutual_exclusion_example :
    let s = run frees (reader_step 0 ∷ reader_step 0 ∷ []) (start 2 1) in
    (num_writing s.writer_threads ≤ 1)
    × (0 < num_reading s.reader_threads → num_writing s.writer_threads ≡ 0)
    × (s.shared_data ≡ num_written s.writer_threads)
mutual_exclusion_example = mutual_exclusion frees 2 1 (reader_step 0 ∷ reader_step 0 ∷ [])

schedule_stuck :
    All
      (λ t. reader_can_run (run frees schedule (start 2 1)) t ≡ false)
      (run frees schedule (start 2 1)).reader_threads
    × All
        (λ t. writer_can_run (run frees schedule (start 2 1)) t ≡ false)
        (run frees schedule (start 2 1)).writer_threads
unfolding run reader writer rw_read_lock rw_read_unlock rw_write_lock rw_write_unlock
    lock_out_writers
schedule_stuck = ((refl, (refl, tt)), (refl, tt))

reader_writer_no_deadlock_example :
    let s = run frees schedule (start 2 1) in
    All (λ t. t.i ≡ read_rounds) s.reader_threads
    × All (λ t. t.i ≡ write_rounds) s.writer_threads
    × (s.mutex ≡ 0)
    × (s.write_lock ≡ 0)
    × (s.shared_data ≡ 3 * length s.writer_threads)
reader_writer_no_deadlock_example =
    reader_writer_no_deadlock frees 2 1 schedule (λ s. refl) schedule_stuck.0 schedule_stuck.1

-- Reader 0 locks `write_lock` and reader 1 is the last to leave: with the second kind of mutex it stays
-- locked, and after it a reader and the writer wait for good.
abbrev left_locked : List Step
left_locked =
    reader_step 0
    ∷ reader_step 0
    ∷ reader_step 1
    ∷ reader_step 0
    ∷ reader_step 1
    ∷ reader_step 0
    ∷ []

foreign_unlock_stuck :
    All
      (λ t. reader_can_run (run keeps left_locked (start 2 1)) t ≡ false)
      (run keeps left_locked (start 2 1)).reader_threads
    × All
        (λ t. writer_can_run (run keeps left_locked (start 2 1)) t ≡ false)
        (run keeps left_locked (start 2 1)).writer_threads
unfolding run reader writer rw_read_lock rw_read_unlock rw_write_lock rw_write_unlock
    lock_out_writers
foreign_unlock_stuck = ((refl, (refl, tt)), (refl, tt))
