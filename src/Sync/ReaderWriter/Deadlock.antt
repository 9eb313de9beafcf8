-- ===== src/Sync/ReaderWriter/Deadlock.antt =====
-- Runs of note4/thread_management/reader_writer.c in which no thread can go on.
use cp.Common.{
  ℕ, ◌+◌, ◌*◌, ◌≤◌, ◌≡◌, refl, arith, Bool, true, false, ◌&&◌, ltb, ◌==◌, List, [], ◌∷◌, length,
  All, dec_lt,
}
use cp.Sync.ReaderWriter.{
  read_rounds, write_rounds, ReaderPlace, away, first, reading, WriterPlace, idle, locked, loaded,
  stored, Reader, Writer, State, Step, run, start,
}
use cp.Sync.ReaderWriter.Counts.{
  reading_weight, first_weight, writing_weight, stored_weight, num_reading, num_first, num_writing,
  num_written, ReaderIsSound, WriterIsSound, Frees,
}
use cp.Sync.ReaderWriter.Runs.{Inv-reached}

-- Whether a step of this thread does anything.
abbrev pub reader_can_run : State → Reader → Bool
reader_can_run s t = elim t.place [
  | away ↦ ltb t.i read_rounds && s.mutex == 0
  | first ↦ s.write_lock == 0
  | reading ↦ s.mutex == 0
]

abbrev pub writer_can_run : State → Writer → Bool
writer_can_run s t = elim t.place [
  | idle ↦ ltb t.i write_rounds && s.write_lock == 0
  | locked ↦ true
  | loaded v ↦ true
  | stored ↦ true
]

idle_of :
    (s : State) (i : ℕ) (p : WriterPlace)
    → writer_can_run s (record { i = i; place = p }) ≡ false
    → writing_weight p ≡ 0
idle_of s i idle g = refl
idle_of s i locked g = absurd (cc g)
idle_of s i (loaded v) g = absurd (cc g)
idle_of s i stored g = absurd (cc g)

none_writing :
    (s : State) (ts : List Writer) → All (λ t. writer_can_run s t ≡ false) ts → num_writing ts ≡ 0
none_writing s [] h = refl
none_writing s (t ∷ ts) h = omega (arith, none_writing s ts h.1, idle_of s t.i t.place h.0)

writer_done :
    (s : State) (i : ℕ) (p : WriterPlace)
    → s.write_lock ≡ 0
    → i + writing_weight p ≤ write_rounds
    → writer_can_run s (record { i = i; place = p }) ≡ false
    → (i ≡ write_rounds) × (stored_weight p ≡ 0)
writer_done s i idle e so g = (ground (arith, e, so, g), refl)
writer_done s i locked e so g = absurd (cc g)
writer_done s i (loaded v) e so g = absurd (cc g)
writer_done s i stored e so g = absurd (cc g)

writers_done :
    (s : State) (ts : List Writer)
    → s.write_lock ≡ 0
    → All WriterIsSound ts
    → All (λ t. writer_can_run s t ≡ false) ts
    → All (λ t. t.i ≡ write_rounds) ts × (num_written ts ≡ 3 * length ts)
writers_done s [] e so h = (tt, refl)
writers_done s (t ∷ ts) e so h =
    let here = writer_done s t.i t.place e so.0 h.0 in
    let rest = writers_done s ts e so.1 h.1 in
    ((here.0, rest.0), omega (arith, here.0, here.1, rest.1))

first_of :
    (s : State) (i : ℕ) (p : ReaderPlace)
    → s.write_lock ≡ 0
    → reader_can_run s (record { i = i; place = p }) ≡ false
    → first_weight p ≡ 0
first_of s i away e g = refl
first_of s i first e g = absurd (ground (arith, e, g))
first_of s i reading e g = refl

none_first :
    (s : State) (ts : List Reader)
    → s.write_lock ≡ 0
    → All (λ t. reader_can_run s t ≡ false) ts
    → num_first ts ≡ 0
none_first s [] e h = refl
none_first s (t ∷ ts) e h = omega (arith, none_first s ts e h.1, first_of s t.i t.place e h.0)

reader_done :
    (s : State) (i : ℕ) (p : ReaderPlace)
    → s.mutex ≡ 0
    → i + reading_weight p + first_weight p ≤ read_rounds
    → reader_can_run s (record { i = i; place = p }) ≡ false
    → (reading_weight p ≡ 0) × (first_weight p ≡ 0 → i ≡ read_rounds)
reader_done s i away e so g = (refl, λ f. ground (arith, e, so, g))
reader_done s i first e so g = (refl, λ f. absurd (omega (arith, f)))
reader_done s i reading e so g = absurd (ground (arith, e, g))

readers_done :
    (s : State) (ts : List Reader)
    → s.mutex ≡ 0
    → num_first ts ≡ 0
    → All ReaderIsSound ts
    → All (λ t. reader_can_run s t ≡ false) ts
    → (num_reading ts ≡ 0) × All (λ t. t.i ≡ read_rounds) ts
readers_done s [] e f so h = (refl, tt)
readers_done s (t ∷ ts) e f so h =
    let here = reader_done s t.i t.place e so.0 h.0 in
    let rest = readers_done s ts e (omega (arith, f)) so.1 h.1 in
    (omega (arith, here.0, rest.0), (here.1 (omega (arith, f)), rest.1))

-- For any number of readers and writers, when the unlock of `write_lock` by a reader that did not lock
-- it frees it, in every state that a run reaches and in which no thread can take a step: every reader
-- has done its 5 rounds and every writer its 3, both mutexes are unlocked, and `shared_data` is 3 for
-- each writer.
pub reader_writer_no_deadlock :
    (foreign_unlock : State → ℕ) (m n : ℕ) (es : List Step)
    → Frees foreign_unlock
    → All
        (λ t. reader_can_run (run foreign_unlock es (start m n)) t ≡ false)
        (run foreign_unlock es (start m n)).reader_threads
    → All
        (λ t. writer_can_run (run foreign_unlock es (start m n)) t ≡ false)
        (run foreign_unlock es (start m n)).writer_threads
    → let s = run foreign_unlock es (start m n) in
      All (λ t. t.i ≡ read_rounds) s.reader_threads
      × All (λ t. t.i ≡ write_rounds) s.writer_threads
      × (s.mutex ≡ 0)
      × (s.write_lock ≡ 0)
      × (s.shared_data ≡ 3 * length s.writer_threads)
reader_writer_no_deadlock foreign_unlock m n es frees hr hw =
    let s = run foreign_unlock es (start m n) in
    let inv = Inv-reached foreign_unlock m n es in
    let holders = inv.holders frees in
    let w = none_writing s s.writer_threads hw in
    let f : num_first s.reader_threads ≡ 0 = elim (dec_lt 0 (num_first s.reader_threads)) [
      | yes g ↦
          let open_ : s.write_lock ≡ 0 = ground (arith, inv.alone g, holders, w) in
          none_first s s.reader_threads open_ hr
      | no g ↦ omega (arith, g)
    ] in
    let unlocked : s.mutex ≡ 0 = omega (arith, f, inv.mutex_held) in
    let r = readers_done s s.reader_threads unlocked f inv.readers_sound hr in
    let open_ : s.write_lock ≡ 0 = ground (arith, r.0, holders, w) in
    let v = writers_done s s.writer_threads open_ inv.writers_sound hw in
    (r.1, v.0, unlocked, open_, omega (arith, inv.written, v.1))
