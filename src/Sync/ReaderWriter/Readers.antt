-- ===== src/Sync/ReaderWriter/Readers.antt =====
-- The steps of the readers keep the invariant.
use cp.Common.{
  ℕ, zero, suc, ◌+◌, ◌-◌, ◌≤◌, ◌<◌, ◌≡◌, refl, ap, inl, inr, arith, ltb, ◌==◌, Bool-cases,
  if◌then◌else◌, dec_lt, List, [], ◌∷◌, length, All, All-set, All-get_or, total-set, set, get_or,
}
use cp.Sync.ReaderWriter.{
  read_rounds, ReaderPlace, away, first, reading, Reader, State, no_reader, rw_read_lock,
  lock_out_writers, rw_read_unlock, reader_at, reader,
}
use cp.Sync.ReaderWriter.Counts.{
  reading_weight, first_weight, num_reading, num_first, num_writing, ReaderIsSound, read_share,
  Frees, Inv,
}

-- What a write of one reader does to the counts.
record Moved (i : ℕ) (p : ReaderPlace) (t : Reader) (ts ts' : List Reader) : Type 0 where
  now_reading : num_reading ts' + reading_weight t.place ≡ num_reading ts + reading_weight p
  now_first : num_first ts' + first_weight t.place ≡ num_first ts + first_weight p
  sound :
      All ReaderIsSound ts
      → i + reading_weight p + first_weight p ≤ read_rounds
      → All ReaderIsSound ts'

-- Positive for a thread that can still take a step.
abbrev busy : Reader → ℕ
busy t = reading_weight t.place + first_weight t.place + (read_rounds - t.i)

reader_fits : (k : ℕ) (ts : List Reader) → 0 < busy (get_or ts k no_reader) → k < length ts
reader_fits k [] h = absurd (omega (arith, h))
reader_fits zero (t ∷ ts) h = omega arith
reader_fits (suc k) (t ∷ ts) h = omega (arith, reader_fits k ts h)

Moved-set :
    (k i : ℕ) (p : ReaderPlace) (ts : List Reader)
    → k < length ts
    → Moved i p (get_or ts k no_reader) ts (set ts k (record { i = i; place = p }))
Moved-set k i p ts h =
    let v : Reader = record { i = i; place = p } in
    record {
      now_reading = total-set (λ t. reading_weight t.place) ts k v no_reader h;
      now_first = total-set (λ t. first_weight t.place) ts k v no_reader h;
      sound = λ s e. All-set ReaderIsSound ts k v s e;
    }

read_share-one : (ts : List Reader) → 0 < num_reading ts → read_share ts ≡ 1
read_share-one ts h = ground (arith, h)

read_share-zero : (ts : List Reader) → num_reading ts ≡ 0 → read_share ts ≡ 0
read_share-zero ts h = ground (arith, h)

read_share-same :
    (ts us : List Reader) → 0 < num_reading ts → 0 < num_reading us → read_share ts ≡ read_share us
read_share-same ts us h g = omega (arith, read_share-one ts h, read_share-one us g)

-- What the last reader leaves in `write_lock`.
released : (u : State → ℕ) (k : ℕ) (s : State) → Frees u → (if s.owner == k then 0 else u s) ≡ 0
released u k s q = ground (arith, q s)

Inv-rw_read_lock :
    (u : State → ℕ) (k : ℕ) (s : State)
    → Inv u s
    → (get_or s.reader_threads k no_reader).place ≡ away
    → Inv u (rw_read_lock k (get_or s.reader_threads k no_reader).i s)
unfolding rw_read_lock
Inv-rw_read_lock u k s inv e =
    let ts = s.reader_threads in
    let t = get_or ts k no_reader in
    let r : reading_weight t.place ≡ 0 = ap reading_weight e in
    let f : first_weight t.place ≡ 0 = ap first_weight e in
    elim (Bool-cases (ltb t.i read_rounds)) [
      | inl more ↦ elim (Bool-cases (s.mutex == 0)) [
        | inl free ↦
            let lt : t.i < read_rounds = ground (arith, more) in
            let open_ : s.mutex ≡ 0 = ground (arith, free) in
            let fits = reader_fits k ts (omega (arith, lt)) in
            elim (Bool-cases (s.readers + 1 == 1)) [
              | inl one ↦
                  let m = Moved-set k t.i first ts fits in
                  let ts' = set ts k (record { i = t.i; place = first }) in
                  let nobody : s.readers ≡ 0 = ground (arith, one) in
                  let still : num_reading ts' ≡ num_reading ts = omega (arith, m.now_reading, r) in
                  rw (more, free, one)
                    (record {
                      counted = omega (arith, m.now_reading, m.now_first, inv.counted, r, f);
                      mutex_held = omega (arith, m.now_first, inv.mutex_held, f, open_);
                      alone = λ g. omega (arith, still, inv.counted, nobody);
                      one_first = omega (arith, m.now_first, inv.mutex_held, f, open_);
                      one_holder = rw still inv.one_holder;
                      held = rw still inv.held;
                      holders = rw still inv.holders;
                      written = inv.written;
                      fresh = inv.fresh;
                      readers_sound = m.sound inv.readers_sound (omega (arith, lt));
                      writers_sound = inv.writers_sound;
                    })
              | inr many ↦
                  let m = Moved-set k t.i reading ts fits in
                  let ts' = set ts k (record { i = t.i; place = reading }) in
                  let some_one : 0 < s.readers = ground (arith, many) in
                  let same : read_share ts' ≡ read_share ts =
                    read_share-same ts' ts (omega (arith, m.now_reading, r))
                      (omega (arith, inv.counted, some_one, inv.mutex_held, open_)) in
                  rw (more, free, many)
                    (record {
                      counted = omega (arith, m.now_reading, m.now_first, inv.counted, r, f);
                      mutex_held = omega (arith, m.now_first, inv.mutex_held, f, open_);
                      alone = λ g. absurd (omega (arith, g, m.now_first, inv.mutex_held, f, open_));
                      one_first = omega (arith, m.now_first, inv.mutex_held, f, open_);
                      one_holder = rw same inv.one_holder;
                      held = rw same inv.held;
                      holders = rw same inv.holders;
                      written = inv.written;
                      fresh = inv.fresh;
                      readers_sound = m.sound inv.readers_sound (omega (arith, lt));
                      writers_sound = inv.writers_sound;
                    })
            ]
        | inr taken ↦ rw (more, taken) inv
      ]
      | inr done ↦ rw done inv
    ]

Inv-lock_out_writers :
    (u : State → ℕ) (k : ℕ) (s : State)
    → Inv u s
    → (get_or s.reader_threads k no_reader).place ≡ first
    → Inv u (lock_out_writers k (get_or s.reader_threads k no_reader).i s)
unfolding lock_out_writers
Inv-lock_out_writers u k s inv e =
    let ts = s.reader_threads in
    let t = get_or ts k no_reader in
    let r : reading_weight t.place ≡ 0 = ap reading_weight e in
    let f : first_weight t.place ≡ 1 = ap first_weight e in
    elim (Bool-cases (s.write_lock == 0)) [
      | inl free ↦
          let open_ : s.write_lock ≡ 0 = ground (arith, free) in
          let fits = reader_fits k ts (omega (arith, f)) in
          let m = Moved-set k t.i reading ts fits in
          let ts' = set ts k (record { i = t.i; place = reading }) in
          let here = All-get_or ReaderIsSound ts k no_reader fits inv.readers_sound in
          let one : read_share ts' ≡ 1 = read_share-one ts' (omega (arith, m.now_reading, r)) in
          let nobody : num_writing s.writer_threads ≡ 0 =
            elim (dec_lt 0 (num_writing s.writer_threads + read_share ts)) [
              | yes g ↦ absurd (omega (arith, inv.held g, open_))
              | no g ↦ omega (arith, g)
            ] in
          rw free (record {
            counted = omega (arith, m.now_reading, m.now_first, inv.counted, r, f);
            mutex_held = omega (arith, m.now_first, inv.one_first, f);
            alone = λ g. absurd (omega (arith, g, m.now_first, inv.one_first, f));
            one_first = omega (arith, m.now_first, inv.one_first, f);
            one_holder = omega (arith, one, nobody);
            held = λ g. refl;
            holders = λ q. omega (arith, one, nobody);
            written = inv.written;
            fresh = inv.fresh;
            readers_sound = m.sound inv.readers_sound (omega (arith, here, r, f));
            writers_sound = inv.writers_sound;
          })
      | inr taken ↦ rw taken inv
    ]

Inv-rw_read_unlock :
    (u : State → ℕ) (k : ℕ) (s : State)
    → Inv u s
    → (get_or s.reader_threads k no_reader).place ≡ reading
    → Inv u (rw_read_unlock u k (get_or s.reader_threads k no_reader).i s)
unfolding rw_read_unlock
Inv-rw_read_unlock u k s inv e =
    let ts = s.reader_threads in
    let t = get_or ts k no_reader in
    let r : reading_weight t.place ≡ 1 = ap reading_weight e in
    let f : first_weight t.place ≡ 0 = ap first_weight e in
    let fits = reader_fits k ts (omega (arith, r)) in
    let m = Moved-set k (t.i + 1) away ts fits in
    let ts' = set ts k (record { i = t.i + 1; place = away }) in
    let here = All-get_or ReaderIsSound ts k no_reader fits inv.readers_sound in
    let some_one : read_share ts ≡ 1 = read_share-one ts (omega (arith, m.now_reading, r)) in
    let none_writes : num_writing s.writer_threads ≡ 0 = omega (arith, inv.one_holder, some_one) in
    elim (Bool-cases (s.mutex == 0)) [
      | inl free ↦
          let open_ : s.mutex ≡ 0 = ground (arith, free) in
          elim (Bool-cases (s.readers - 1 == 0)) [
            | inl last ↦
                let one : s.readers ≤ 1 = ground (arith, last) in
                let nobody : num_reading ts' ≡ 0 =
                  omega (arith, m.now_reading, r, inv.counted, one) in
                let no_share : read_share ts' ≡ 0 = read_share-zero ts' nobody in
                rw (free, last)
                  (record {
                    counted = omega (arith, m.now_reading, m.now_first, inv.counted, r, f);
                    mutex_held = omega (arith, m.now_first, inv.mutex_held, f);
                    alone = λ g. nobody;
                    one_first = omega (arith, m.now_first, inv.one_first, f);
                    one_holder = omega (arith, no_share, none_writes);
                    held = λ g. absurd (omega (arith, g, no_share, none_writes));
                    holders = λ q. omega (arith, released u k s q, no_share, none_writes);
                    written = inv.written;
                    fresh = inv.fresh;
                    readers_sound = m.sound inv.readers_sound (omega (arith, here, r, f));
                    writers_sound = inv.writers_sound;
                  })
            | inr more ↦
                let many : 1 < s.readers = ground (arith, more) in
                let same : read_share ts' ≡ read_share ts =
                  read_share-same ts' ts
                    (omega (arith, m.now_reading, r, inv.counted, many, inv.mutex_held, open_))
                    (omega (arith, m.now_reading, r)) in
                rw (free, more)
                  (record {
                    counted = omega (arith, m.now_reading, m.now_first, inv.counted, r, f);
                    mutex_held = omega (arith, m.now_first, inv.mutex_held, f);
                    alone = λ g. absurd (omega (arith, g, m.now_first, inv.mutex_held, f, open_));
                    one_first = omega (arith, m.now_first, inv.one_first, f);
                    one_holder = rw same inv.one_holder;
                    held = rw same inv.held;
                    holders = rw same inv.holders;
                    written = inv.written;
                    fresh = inv.fresh;
                    readers_sound = m.sound inv.readers_sound (omega (arith, here, r, f));
                    writers_sound = inv.writers_sound;
                  })
          ]
      | inr taken ↦ rw taken inv
    ]

Inv-reader_at :
    (u : State → ℕ) (k : ℕ) (p : ReaderPlace) (s : State)
    → Inv u s
    → (get_or s.reader_threads k no_reader).place ≡ p
    → Inv u (reader_at u k (get_or s.reader_threads k no_reader).i p s)
Inv-reader_at u k away s inv e = Inv-rw_read_lock u k s inv e
Inv-reader_at u k first s inv e = Inv-lock_out_writers u k s inv e
Inv-reader_at u k reading s inv e = Inv-rw_read_unlock u k s inv e

pub Inv-reader : (u : State → ℕ) (k : ℕ) (s : State) → Inv u s → Inv u (reader u k s)
unfolding reader
Inv-reader u k s inv = Inv-reader_at u k (get_or s.reader_threads k no_reader).place s inv refl
