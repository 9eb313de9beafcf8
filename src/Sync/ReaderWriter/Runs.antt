-- ===== src/Sync/ReaderWriter/Runs.antt =====
-- What every run of note4/thread_management/reader_writer.c does.
use cp.Common.{ℕ, zero, suc, ◌≤◌, ◌<◌, ◌≡◌, refl, arith, List, [], ◌∷◌, All, replicate}
use cp.Sync.ReaderWriter.{
  away, idle, Reader, Writer, State, Step, reader_step, writer_step, reader, writer, run, start,
}
use cp.Sync.ReaderWriter.Counts.{
  num_reading, num_first, num_writing, num_written, ReaderIsSound, WriterIsSound, PlaceIsFresh, Inv,
}
use cp.Sync.ReaderWriter.Readers.{Inv-reader}
use cp.Sync.ReaderWriter.Writers.{Inv-writer}

Inv-run : (u : State → ℕ) (es : List Step) (s : State) → Inv u s → Inv u (run u es s)
unfolding run
Inv-run u [] s inv = inv
Inv-run u (reader_step k ∷ es) s inv = Inv-run u es (reader u k s) (Inv-reader u k s inv)
Inv-run u (writer_step k ∷ es) s inv = Inv-run u es (writer k s) (Inv-writer u k s inv)

-- Threads that have not started.
readers_start :
    (n : ℕ)
    → (let ts : List Reader = replicate n (record { i = 0; place = away }) in
        (num_reading ts ≡ 0) × (num_first ts ≡ 0) × All ReaderIsSound ts)
readers_start zero = (refl, refl, tt)
readers_start (suc n) =
    let r = readers_start n in (omega (arith, r.0), omega (arith, r.1), (omega arith, r.2))

writers_start :
    (n : ℕ)
    → (let ts : List Writer = replicate n (record { i = 0; place = idle }) in
        (num_writing ts ≡ 0)
        × (num_written ts ≡ 0)
        × All (λ t. PlaceIsFresh 0 t.place) ts
        × All WriterIsSound ts)
writers_start zero = (refl, refl, tt, tt)
writers_start (suc n) =
    let r = writers_start n in
    (omega (arith, r.0), omega (arith, r.1), (tt, r.2), (omega arith, r.3))

Inv-start : (u : State → ℕ) (m n : ℕ) → Inv u (start m n)
Inv-start u m n =
    let r = readers_start m in
    let w = writers_start n in
    record {
      counted = omega (arith, r.0, r.1);
      mutex_held = omega (arith, r.1);
      alone = λ g. r.0;
      one_first = omega (arith, r.1);
      one_holder = ground (arith, r.0, w.0);
      held = λ g. absurd (ground (arith, g, r.0, w.0));
      holders = λ q. ground (arith, r.0, w.0);
      written = omega (arith, w.1);
      fresh = w.2;
      readers_sound = r.2;
      writers_sound = w.3;
    }

pub Inv-reached : (u : State → ℕ) (m n : ℕ) (es : List Step) → Inv u (run u es (start m n))
Inv-reached u m n es = Inv-run u es (start m n) (Inv-start u m n)

-- For any number of readers and writers, and whatever the unlock of `write_lock` by a reader that did
-- not lock it does, in every state that a run reaches: at most one writer holds the lock, none does
-- while a reader reads, and `shared_data` is the number of the writes done, so that no update is lost.
pub mutual_exclusion :
    (foreign_unlock : State → ℕ) (m n : ℕ) (es : List Step)
    → let s = run foreign_unlock es (start m n) in
      (num_writing s.writer_threads ≤ 1)
      × (0 < num_reading s.reader_threads → num_writing s.writer_threads ≡ 0)
      × (s.shared_data ≡ num_written s.writer_threads)
mutual_exclusion foreign_unlock m n es =
    let inv = Inv-reached foreign_unlock m n es in
    (omega (arith, inv.one_holder), λ g. ground (arith, g, inv.one_holder), inv.written)
