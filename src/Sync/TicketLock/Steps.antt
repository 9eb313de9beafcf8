-- ===== src/Sync/TicketLock/Steps.antt =====
-- The steps of the ticket lock in note7/synchronization_locks/race_condition.c keep its invariant.
use cp.Common.{
  get_or-fits, All-others, ℕ, ◌+◌, ◌-◌, ◌≤◌, ◌<◌, ◌≡◌, refl, ap, subst, ◌∙◌, inl, inr, arith, ◌&&◌,
  ltb, leb, ◌==◌, if◌then◌else◌, Bool-cases, List, [], ◌∷◌, length, All, All-set, All-get_or,
  length-set, total-set, get_or-le-total, set, get_or,
}
use cp.Sync.TicketLock.{
  increment_count, unsigned, Place, outside, waiting, inside, loaded, stored, Thread, State,
  no_thread, move, thread_at, increment_with_ticket_lock, run,
}
use cp.Sync.TicketLock.Invariant.{
  holds, ticket_weight, stored_weight, IsServed, IsSound, Inv, ticket_bound,
}

-- Positive for a thread that can still take a step.
abbrev busy : Thread → ℕ
busy t = ticket_weight t.place + (increment_count - t.i)

thread_fits : (k : ℕ) (ts : List Thread) → 0 < busy (get_or ts k no_thread) → k < length ts
thread_fits k ts h = get_or-fits busy ts k no_thread refl h

-- A thread with another ticket than the one served is not in the critical section.
IsServed-other :
    (serving c serving' c' : ℕ) (p : Place)
    → IsServed serving c p
    → holds serving p ≡ 0
    → IsServed serving' c' p
IsServed-other serving c serving' c' outside h e = tt
IsServed-other serving c serving' c' (waiting t) h e = tt
IsServed-other serving c serving' c' (inside t) h e = absurd (ground (arith, h, e))
IsServed-other serving c serving' c' (loaded t v) h e = absurd (ground (arith, h.0, e))
IsServed-other serving c serving' c' (stored t) h e = absurd (ground (arith, h, e))

-- The numbers agree when thread `k` moves on.
record Agrees (s : State) (t : Thread) (i : ℕ) (p : Place) (tk sv c : ℕ) : Type 0 where
  one_each :
      (j : ℕ)
      → (if leb sv j && ltb j tk then 1 else 0) + holds j t.place
        ≡ (if leb s.serving j && ltb j s.ticket then 1 else 0) + holds j p
  ordered : sv ≤ tk
  taken : tk + t.i + ticket_weight t.place ≡ s.ticket + i + ticket_weight p
  counted : c + t.i + stored_weight t.place ≡ s.counter + i + stored_weight p
  sound : i + ticket_weight p ≤ increment_count

Inv-move :
    (k i : ℕ) (p : Place) (tk sv c : ℕ) (s : State)
    → Inv s
    → k < length s.threads
    → Agrees s (get_or s.threads k no_thread) i p tk sv c
    → All (λ t. IsServed sv c t.place) (set s.threads k (record { i = i; place = p }))
    → Inv (move k i p (record s { ticket = tk; serving = sv; counter = c }))
Inv-move k i p tk sv c s inv fits a served =
    let ts = s.threads in
    let v : Thread = record { i = i; place = p } in
    record {
      one_each = λ j. omega (
        arith,
        inv.one_each j,
        a.one_each j,
        total-set (λ t. holds j t.place) ts k v no_thread fits,
      );
      ordered = a.ordered;
      taken = omega (
        arith,
        inv.taken,
        a.taken,
        total-set (λ t. t.i + ticket_weight t.place) ts k v no_thread fits,
      );
      counted = omega (
        arith,
        inv.counted,
        a.counted,
        total-set (λ t. t.i + stored_weight t.place) ts k v no_thread fits,
      );
      served = served;
      sound = All-set IsSound ts k v inv.sound a.sound;
      four = length-set ts k v ∙ inv.four;
    }

-- Thread `k` holds the ticket that is served: no other thread is in the critical section.
IsServed-others :
    (k : ℕ) (v : Thread) (sv c : ℕ) (s : State)
    → Inv s
    → k < length s.threads
    → holds s.serving (get_or s.threads k no_thread).place ≡ 1
    → IsServed sv c v.place
    → All (λ t. IsServed sv c t.place) (set s.threads k v)
IsServed-others k v sv c s inv fits one new =
    All-others (λ t. IsServed sv c t.place) (λ t. IsServed s.serving s.counter t.place)
      (λ t. holds s.serving t.place) k v no_thread s.threads
      (λ t q e. IsServed-other s.serving s.counter sv c t.place q e) fits
      (ground (arith, one, inv.one_each s.serving)) inv.served new

Inv-thread_at :
    (k : ℕ) (p : Place) (s : State)
    → Inv s
    → (get_or s.threads k no_thread).place ≡ p
    → Inv (thread_at k (get_or s.threads k no_thread).i p s)
unfolding thread_at
Inv-thread_at k outside s inv e =
    let t = get_or s.threads k no_thread in
    let h : (j : ℕ) → holds j t.place ≡ 0 = λ j. ap (holds j) e in
    let w : ticket_weight t.place ≡ 0 = ap ticket_weight e in
    let c : stored_weight t.place ≡ 0 = ap stored_weight e in
    elim (Bool-cases (ltb t.i increment_count)) [
      | inl more ↦
          let lt : t.i < increment_count = ground (arith, more) in
          let fits = thread_fits k s.threads (omega (arith, lt)) in
          let next : unsigned (s.ticket + 1) ≡ s.ticket + 1 = omega (arith, ticket_bound s inv) in
          rw (more, next)
            (Inv-move k t.i (waiting s.ticket) (s.ticket + 1) s.serving s.counter s inv fits
              (record {
                one_each = λ j. ground (arith, h j, inv.ordered);
                ordered = omega (arith, inv.ordered);
                taken = omega (arith, w);
                counted = omega (arith, c);
                sound = omega (arith, lt);
              })
              (All-set (λ t. IsServed s.serving s.counter t.place) s.threads k
                (record { i = t.i; place = waiting s.ticket }) inv.served tt))
      | inr done ↦ rw done inv
    ]
Inv-thread_at k (waiting my) s inv e =
    let t = get_or s.threads k no_thread in
    let h : (j : ℕ) → holds j t.place ≡ holds j (waiting my) = λ j. ap (holds j) e in
    let w : ticket_weight t.place ≡ 1 = ap ticket_weight e in
    let c : stored_weight t.place ≡ 0 = ap stored_weight e in
    let fits = thread_fits k s.threads (omega (arith, w)) in
    let here = All-get_or IsSound s.threads k no_thread fits inv.sound in
    elim (Bool-cases (s.serving == my)) [
      | inl mine ↦
          let is : my ≡ s.serving = ground (arith, mine) in
          rw mine (
            Inv-move k t.i (inside my) s.ticket s.serving s.counter s inv fits
              (record {
                one_each = λ j. omega (arith, h j);
                ordered = inv.ordered;
                taken = omega (arith, w);
                counted = omega (arith, c);
                sound = omega (arith, here, w);
              })
              (All-set (λ t. IsServed s.serving s.counter t.place) s.threads k
                (record { i = t.i; place = inside my }) inv.served is))
      | inr other ↦ rw other inv
    ]
Inv-thread_at k (inside my) s inv e =
    let t = get_or s.threads k no_thread in
    let h : (j : ℕ) → holds j t.place ≡ holds j (inside my) = λ j. ap (holds j) e in
    let w : ticket_weight t.place ≡ 1 = ap ticket_weight e in
    let c : stored_weight t.place ≡ 0 = ap stored_weight e in
    let fits = thread_fits k s.threads (omega (arith, w)) in
    let here = All-get_or IsSound s.threads k no_thread fits inv.sound in
    let q =
      All-get_or (λ t. IsServed s.serving s.counter t.place) s.threads k no_thread fits
        inv.served in
    let is : my ≡ s.serving = subst (λ p. IsServed s.serving s.counter p) e q in
    Inv-move k t.i (loaded my s.counter) s.ticket s.serving s.counter s inv fits
      (record {
        one_each = λ j. omega (arith, h j);
        ordered = inv.ordered;
        taken = omega (arith, w);
        counted = omega (arith, c);
        sound = omega (arith, here, w);
      })
      (All-set (λ t. IsServed s.serving s.counter t.place) s.threads k
        (record { i = t.i; place = loaded my s.counter }) inv.served (is, refl))
Inv-thread_at k (loaded my v) s inv e =
    let t = get_or s.threads k no_thread in
    let h : (j : ℕ) → holds j t.place ≡ holds j (loaded my v) = λ j. ap (holds j) e in
    let w : ticket_weight t.place ≡ 1 = ap ticket_weight e in
    let c : stored_weight t.place ≡ 0 = ap stored_weight e in
    let fits = thread_fits k s.threads (omega (arith, w)) in
    let here = All-get_or IsSound s.threads k no_thread fits inv.sound in
    let q =
      All-get_or (λ t. IsServed s.serving s.counter t.place) s.threads k no_thread fits
        inv.served in
    let is : (my ≡ s.serving) × (v ≡ s.counter) = subst (λ p. IsServed s.serving s.counter p) e q in
    let one : holds s.serving t.place ≡ 1 = ground (arith, h s.serving, is.0) in
    Inv-move k t.i (stored my) s.ticket s.serving (v + 1) s inv fits
      (record {
        one_each = λ j. omega (arith, h j);
        ordered = inv.ordered;
        taken = omega (arith, w);
        counted = omega (arith, c, is.1);
        sound = omega (arith, here, w);
      })
      (IsServed-others k (record { i = t.i; place = stored my }) s.serving (v + 1) s inv fits one
        is.0)
Inv-thread_at k (stored my) s inv e =
    let t = get_or s.threads k no_thread in
    let h : (j : ℕ) → holds j t.place ≡ holds j (stored my) = λ j. ap (holds j) e in
    let w : ticket_weight t.place ≡ 1 = ap ticket_weight e in
    let c : stored_weight t.place ≡ 1 = ap stored_weight e in
    let fits = thread_fits k s.threads (omega (arith, w)) in
    let here = All-get_or IsSound s.threads k no_thread fits inv.sound in
    let q =
      All-get_or (λ t. IsServed s.serving s.counter t.place) s.threads k no_thread fits
        inv.served in
    let is : my ≡ s.serving = subst (λ p. IsServed s.serving s.counter p) e q in
    let one : holds s.serving t.place ≡ 1 = ground (arith, h s.serving, is) in
    let le = get_or-le-total (λ t. holds s.serving t.place) s.threads k no_thread fits in
    let before : s.serving < s.ticket = ground (arith, le, one, inv.one_each s.serving) in
    let next : unsigned (s.serving + 1) ≡ s.serving + 1 =
      omega (arith, ticket_bound s inv, before) in
    rw next (
      Inv-move k (t.i + 1) outside s.ticket (s.serving + 1) s.counter s inv fits
        (record {
          one_each = λ j. ground (arith, h j, is, before);
          ordered = omega (arith, before);
          taken = omega (arith, w);
          counted = omega (arith, c);
          sound = omega (arith, here, w);
        })
        (IsServed-others k (record { i = t.i + 1; place = outside }) (s.serving + 1) s.counter s inv
          fits one tt))

pub Inv-run : (ks : List ℕ) (s : State) → Inv s → Inv (run ks s)
unfolding run increment_with_ticket_lock
Inv-run [] s inv = inv
Inv-run (k ∷ ks) s inv =
    Inv-run ks (increment_with_ticket_lock k s)
      (Inv-thread_at k (get_or s.threads k no_thread).place s inv refl)
