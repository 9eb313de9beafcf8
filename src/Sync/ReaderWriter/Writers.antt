-- ===== src/Sync/ReaderWriter/Writers.antt =====
-- The steps of the writers keep the invariant.
use cp.Common.{
  ℕ, zero, suc, ◌+◌, ◌-◌, ◌≤◌, ◌<◌, ◌≡◌, refl, sym, ap, subst, ◌⊎◌, inl, inr, arith, ltb, ◌==◌,
  Bool-cases, dec_lt, List, [], ◌∷◌, length, All, All-set, All-get_or, total-set, get_or-le-total,
  set, get_or,
}
use cp.Sync.ReaderWriter.{
  write_rounds, WriterPlace, idle, locked, loaded, stored, Writer, State, no_writer, move_writer,
  rw_write_lock, rw_write_unlock, writer_at, writer,
}
use cp.Sync.ReaderWriter.Counts.{
  writing_weight, stored_weight, num_writing, WriterIsSound, PlaceIsFresh, read_share, Inv,
}

abbrev busy : Writer → ℕ
busy t = writing_weight t.place + (write_rounds - t.i)

writer_fits : (k : ℕ) (ts : List Writer) → 0 < busy (get_or ts k no_writer) → k < length ts
writer_fits k [] h = absurd (omega (arith, h))
writer_fits zero (t ∷ ts) h = omega arith
writer_fits (suc k) (t ∷ ts) h = omega (arith, writer_fits k ts h)

-- A thread that does not write has read nothing.
PlaceIsFresh-idle : (d : ℕ) (p : WriterPlace) → writing_weight p ≡ 0 → PlaceIsFresh d p
PlaceIsFresh-idle d idle h = tt
PlaceIsFresh-idle d locked h = tt
PlaceIsFresh-idle d (loaded v) h = absurd (omega (arith, h))
PlaceIsFresh-idle d stored h = tt

All_idle : (d : ℕ) (ts : List Writer) → num_writing ts ≡ 0 → All (λ t. PlaceIsFresh d t.place) ts
All_idle d [] h = tt
All_idle d (t ∷ ts) h =
    (PlaceIsFresh-idle d t.place (omega (arith, h)), All_idle d ts (omega (arith, h)))

-- When only one thread writes, what the others have read is not in question.
All_idle-set :
    (d k : ℕ) (v : Writer) (ts : List Writer)
    → k < length ts
    → num_writing ts ≤ writing_weight (get_or ts k no_writer).place
    → PlaceIsFresh d v.place
    → All (λ t. PlaceIsFresh d t.place) (set ts k v)
All_idle-set d k v [] lt h f = tt
All_idle-set d zero v (t ∷ ts) lt h f = (f, All_idle d ts (omega (arith, h)))
All_idle-set d (suc k) v (t ∷ ts) lt h f =
    let le = get_or-le-total (λ x. writing_weight x.place) ts k no_writer (omega (arith, lt)) in
    (
      PlaceIsFresh-idle d t.place (omega (arith, h, le)),
      All_idle-set d k v ts (omega (arith, lt)) (omega (arith, h)) f,
    )

writing_weight-le_one : (p : WriterPlace) → writing_weight p ≤ 1
writing_weight-le_one idle = omega arith
writing_weight-le_one locked = omega arith
writing_weight-le_one (loaded v) = omega arith
writing_weight-le_one stored = omega arith

-- What moving one writer does to the counts, when the numbers agree.
Inv-move :
    (u : State → ℕ) (k i : ℕ) (p : WriterPlace) (l d : ℕ) (s : State)
    → Inv u s
    → k < length s.writer_threads
    → (let t = get_or s.writer_threads k no_writer in
        (num_writing s.writer_threads ≤ writing_weight t.place ⊎ (d ≡ s.shared_data))
        × (PlaceIsFresh d p)
        × (l ≡ writing_weight p)
        × (writing_weight t.place ≡ 0 → s.write_lock ≡ 0)
        × (d + t.i + stored_weight t.place ≡ s.shared_data + i + stored_weight p)
        × (i + writing_weight p ≤ write_rounds))
    → Inv u (move_writer k i p (record s { write_lock = l; shared_data = d }))
Inv-move u k i p l d s inv fits h =
    let ts = s.writer_threads in
    let v : Writer = record { i = i; place = p } in
    let a = total-set (λ t. writing_weight t.place) ts k v no_writer fits in
    let b = total-set (λ t. t.i + stored_weight t.place) ts k v no_writer fits in
    let le = get_or-le-total (λ x. writing_weight x.place) ts k no_writer fits in
    let alone : num_writing ts + read_share s.reader_threads
        ≡ writing_weight (get_or ts k no_writer).place =
      elim (dec_lt 0 (num_writing ts + read_share s.reader_threads)) [
        | yes g ↦ elim (dec_lt 0 (writing_weight (get_or ts k no_writer).place)) [
          | yes w ↦ omega (arith, inv.one_holder, le, w)
          | no w ↦ absurd (omega (arith, inv.held g, h.3 (omega (arith, w))))
        ]
        | no g ↦ omega (arith, g, le)
      ] in
    record {
      counted = inv.counted;
      mutex_held = inv.mutex_held;
      alone = inv.alone;
      one_first = inv.one_first;
      one_holder = omega (arith, inv.one_holder, a, alone, le, writing_weight-le_one p);
      held = λ g. omega (arith, alone, a, g, h.2, writing_weight-le_one p);
      holders = λ q. omega (arith, alone, a, h.2);
      written = omega (arith, inv.written, b, h.4);
      fresh = elim h.0 [
        | inl le ↦ All_idle-set d k v ts fits le h.1
        | inr e ↦
            All-set (λ t. PlaceIsFresh d t.place) ts k v
              (subst (λ x. All (λ t. PlaceIsFresh x t.place) ts) (sym e) inv.fresh) h.1
      ];
      readers_sound = inv.readers_sound;
      writers_sound = All-set WriterIsSound ts k v inv.writers_sound h.5;
    }

-- A writer that holds the lock keeps it locked.
locked_by :
    (u : State → ℕ) (k : ℕ) (s : State)
    → Inv u s
    → k < length s.writer_threads
    → writing_weight (get_or s.writer_threads k no_writer).place ≡ 1
    → s.write_lock ≡ 1
locked_by u k s inv fits w =
    let le = get_or-le-total (λ x. writing_weight x.place) s.writer_threads k no_writer fits in
    inv.held (omega (arith, le, w))

Inv-writer_at :
    (u : State → ℕ) (k : ℕ) (p : WriterPlace) (s : State)
    → Inv u s
    → (get_or s.writer_threads k no_writer).place ≡ p
    → Inv u (writer_at k (get_or s.writer_threads k no_writer).i p s)
unfolding rw_write_lock rw_write_unlock
Inv-writer_at u k idle s inv e =
    let t = get_or s.writer_threads k no_writer in
    let w : writing_weight t.place ≡ 0 = ap writing_weight e in
    let c : stored_weight t.place ≡ 0 = ap stored_weight e in
    elim (Bool-cases (ltb t.i write_rounds)) [
      | inl more ↦ elim (Bool-cases (s.write_lock == 0)) [
        | inl free ↦
            let lt : t.i < write_rounds = ground (arith, more) in
            let open_ : s.write_lock ≡ 0 = ground (arith, free) in
            let fits = writer_fits k s.writer_threads (omega (arith, lt)) in
            rw (more, free)
              (Inv-move u k t.i locked 1 s.shared_data s inv fits
                (inr refl, tt, refl, λ z. open_, omega (arith, c), omega (arith, lt)))
        | inr taken ↦ rw (more, taken) inv
      ]
      | inr done ↦ rw done inv
    ]
Inv-writer_at u k locked s inv e =
    let t = get_or s.writer_threads k no_writer in
    let w : writing_weight t.place ≡ 1 = ap writing_weight e in
    let c : stored_weight t.place ≡ 0 = ap stored_weight e in
    let fits = writer_fits k s.writer_threads (omega (arith, w)) in
    let here = All-get_or WriterIsSound s.writer_threads k no_writer fits inv.writers_sound in
    Inv-move u k t.i (loaded s.shared_data) s.write_lock s.shared_data s inv fits (
      inr refl,
      refl,
      locked_by u k s inv fits w,
      λ z. absurd (omega (arith, z, w)),
      omega (arith, c),
      omega (arith, here, w),
    )
Inv-writer_at u k (loaded v) s inv e =
    let t = get_or s.writer_threads k no_writer in
    let w : writing_weight t.place ≡ 1 = ap writing_weight e in
    let c : stored_weight t.place ≡ 0 = ap stored_weight e in
    let fits = writer_fits k s.writer_threads (omega (arith, w)) in
    let here = All-get_or WriterIsSound s.writer_threads k no_writer fits inv.writers_sound in
    let only : num_writing s.writer_threads ≤ writing_weight t.place =
      omega (arith, inv.one_holder, w) in
    let f =
      All-get_or (λ x. PlaceIsFresh s.shared_data x.place) s.writer_threads k no_writer fits
        inv.fresh in
    let v_is : v ≡ s.shared_data = subst (λ q. PlaceIsFresh s.shared_data q) e f in
    Inv-move u k t.i stored s.write_lock (v + 1) s inv fits (
      inl only,
      tt,
      locked_by u k s inv fits w,
      λ z. absurd (omega (arith, z, w)),
      omega (arith, c, v_is),
      omega (arith, here, w),
    )
Inv-writer_at u k stored s inv e =
    let t = get_or s.writer_threads k no_writer in
    let w : writing_weight t.place ≡ 1 = ap writing_weight e in
    let c : stored_weight t.place ≡ 1 = ap stored_weight e in
    let fits = writer_fits k s.writer_threads (omega (arith, w)) in
    let here = All-get_or WriterIsSound s.writer_threads k no_writer fits inv.writers_sound in
    Inv-move u k (t.i + 1) idle 0 s.shared_data s inv fits (
      inr refl,
      tt,
      refl,
      λ z. absurd (omega (arith, z, w)),
      omega (arith, c),
      omega (arith, here, w),
    )

pub Inv-writer : (u : State → ℕ) (k : ℕ) (s : State) → Inv u s → Inv u (writer k s)
unfolding writer
Inv-writer u k s inv = Inv-writer_at u k (get_or s.writer_threads k no_writer).place s inv refl
