-- ===== src/Sync/BoundedBuffer/Threads.antt =====
-- The threads of note9/condition_variables/bounded_buffer.c by number: how many wait, how many are
-- woken, and how many rounds they have done.
use cp.Common.{
  ℕ, zero, suc, ◌+◌, ◌≤◌, ◌<◌, ◌≡◌, refl, inl, inr, arith, true, false, Bool-cases, List, [], ◌∷◌,
  length, total, All, All-set, All-get_or, length-set, total-set,
}
use cp.Sync.BoundedBuffer.{
  Place, ready, asleep, woken, Thread, is_asleep, no_thread, thread_at, can_run, wake_first, signal,
  cond_wait, next_round, spurious, is_sleeper, wake,
}

abbrev asleep_weight : Place → ℕ
asleep_weight ready = 0
asleep_weight asleep = 1
asleep_weight woken = 0

abbrev woken_weight : Place → ℕ
woken_weight ready = 0
woken_weight asleep = 0
woken_weight woken = 1

abbrev pub num_asleep : List Thread → ℕ
num_asleep ts = total (λ t. asleep_weight t.place) ts

abbrev pub num_woken : List Thread → ℕ
num_woken ts = total (λ t. woken_weight t.place) ts

abbrev pub rounds : List Thread → ℕ
rounds ts = total Thread.i ts

-- A thread that is waiting or woken has rounds left.
abbrev pub IsSound : ℕ → Thread → Type 0
IsSound limit t = (t.i ≤ limit) × (asleep_weight t.place + woken_weight t.place + t.i ≤ limit)

-- What waking one thread does, if one is asleep.
pub record Woke (limit : ℕ) (ts ts' : List Thread) : Type 0 where
  pub same_rounds : rounds ts' ≡ rounds ts
  pub same_length : length ts' ≡ length ts
  pub same_sum : num_asleep ts' + num_woken ts' ≡ num_asleep ts + num_woken ts
  pub one_more : 0 < num_asleep ts → num_woken ts' ≡ num_woken ts + 1
  pub no_less : num_woken ts ≤ num_woken ts'
  pub sound : All (IsSound limit) ts → All (IsSound limit) ts'

weights-asleep : (p : Place) → is_asleep p ≡ true → (asleep_weight p ≡ 1) × (woken_weight p ≡ 0)
weights-asleep ready h = absurd (cc h)
weights-asleep asleep h = (refl, refl)
weights-asleep woken h = absurd (cc h)

weights-awake : (p : Place) → is_asleep p ≡ false → asleep_weight p ≡ 0
weights-awake ready h = refl
weights-awake asleep h = absurd (cc h)
weights-awake woken h = refl

Woke-wake : (limit k : ℕ) (ts : List Thread) → is_sleeper k ts ≡ true → Woke limit ts (wake k ts)
Woke-wake limit k ts h =
    let t = thread_at ts k in
    let v : Thread = record t { place = woken } in
    let lt : k < length ts = ground (arith, h) in
    let sleeps : is_asleep t.place ≡ true = ground (arith, h) in
    let w = weights-asleep t.place sleeps in
    let a = total-set (λ x. asleep_weight x.place) ts k v no_thread lt in
    let b = total-set (λ x. woken_weight x.place) ts k v no_thread lt in
    let r = total-set Thread.i ts k v no_thread lt in
    record {
      same_rounds = omega (arith, r);
      same_length = length-set ts k v;
      same_sum = omega (arith, a, b, w.0, w.1);
      one_more = λ g. omega (arith, b, w.1);
      no_less = omega (arith, b, w.1);
      sound = λ g.
          let s = All-get_or (IsSound limit) ts k no_thread lt g in
          All-set (IsSound limit) ts k v g (s.0, omega (arith, s.1, w.0, w.1));
    }

Woke-wake_first : (limit : ℕ) (ts : List Thread) → Woke limit ts (wake_first ts)
Woke-wake_first limit [] = record {
  same_rounds = refl;
  same_length = refl;
  same_sum = refl;
  one_more = λ g. absurd (omega (arith, g));
  no_less = omega arith;
  sound = λ g. g;
}
Woke-wake_first limit (t ∷ ts) =
    let rest = Woke-wake_first limit ts in
    elim (Bool-cases (is_asleep t.place)) [
      | inl o ↦
          let w = weights-asleep t.place o in
          rw o (record {
            same_rounds = refl;
            same_length = refl;
            same_sum = omega (arith, w.0, w.1);
            one_more = λ g. omega (arith, w.1);
            no_less = omega (arith, w.1);
            sound = λ g. ((g.0.0, omega (arith, g.0.1, w.0, w.1)), g.1);
          })
      | inr o ↦
          let w = weights-awake t.place o in
          rw o (record {
            same_rounds = omega (arith, rest.same_rounds);
            same_length = omega (arith, rest.same_length);
            same_sum = omega (arith, rest.same_sum);
            one_more = λ g. omega (arith, rest.one_more (omega (arith, g, w)));
            no_less = omega (arith, rest.no_less);
            sound = λ g. (g.0, rest.sound g.1);
          })
    ]

pub Woke-signal : (limit w : ℕ) (ts : List Thread) → Woke limit ts (signal w ts)
Woke-signal limit w ts = elim (Bool-cases (is_sleeper w ts)) [
  | inl o ↦ rw o (Woke-wake limit w ts o)
  | inr o ↦ rw o (Woke-wake_first limit ts)
]

-- A wake-up without a signal: as many threads are woken as before, or one more.
pub record Stirred (limit : ℕ) (ts ts' : List Thread) : Type 0 where
  pub same_rounds : rounds ts' ≡ rounds ts
  pub same_length : length ts' ≡ length ts
  pub same_sum : num_asleep ts' + num_woken ts' ≡ num_asleep ts + num_woken ts
  pub no_less : num_woken ts ≤ num_woken ts'
  pub sound : All (IsSound limit) ts → All (IsSound limit) ts'

pub Stirred-spurious : (limit k : ℕ) (ts : List Thread) → Stirred limit ts (spurious k ts)
Stirred-spurious limit k ts = elim (Bool-cases (is_sleeper k ts)) [
  | inl o ↦
      let w = Woke-wake limit k ts o in
      rw o (record {
        same_rounds = w.same_rounds;
        same_length = w.same_length;
        same_sum = w.same_sum;
        no_less = w.no_less;
        sound = w.sound;
      })
  | inr o ↦ rw o (record {
    same_rounds = refl;
    same_length = refl;
    same_sum = refl;
    no_less = omega arith;
    sound = λ g. g;
  })
]

pub can_run-fits :
    (limit k : ℕ) (ts : List Thread) → can_run limit (thread_at ts k) ≡ true → k < length ts
can_run-fits limit k [] h = absurd (cc h)
can_run-fits limit zero (t ∷ ts) h = omega arith
can_run-fits limit (suc k) (t ∷ ts) h = omega (arith, can_run-fits limit k ts h)

can_run-weights :
    (limit : ℕ) (t : Thread) → can_run limit t ≡ true → (asleep_weight t.place ≡ 0) × (t.i < limit)
can_run-weights limit t h =
    let o : is_asleep t.place ≡ false = ground (arith, h) in
    (weights-awake t.place o, ground (arith, h))

woken-le-one : (p : Place) → woken_weight p ≤ 1
woken-le-one ready = omega arith
woken-le-one asleep = omega arith
woken-le-one woken = omega arith

-- A running thread goes to sleep.
pub record Slept (limit : ℕ) (ts ts' : List Thread) : Type 0 where
  pub same_rounds : rounds ts' ≡ rounds ts
  pub same_length : length ts' ≡ length ts
  pub sound : All (IsSound limit) ts → All (IsSound limit) ts'

pub Slept-cond_wait :
    (limit k : ℕ) (ts : List Thread)
    → can_run limit (thread_at ts k) ≡ true
    → Slept limit ts (cond_wait k ts)
Slept-cond_wait limit k ts h =
    let t = thread_at ts k in
    let v : Thread = record t { place = asleep } in
    let lt = can_run-fits limit k ts h in
    let w = can_run-weights limit t h in
    record {
      same_rounds = omega (arith, total-set Thread.i ts k v no_thread lt);
      same_length = length-set ts k v;
      sound = λ g. All-set (IsSound limit) ts k v g (omega (arith, w.1), omega (arith, w.1));
    }

-- A running thread ends a round: it was woken, or not.
pub record Passed (limit : ℕ) (ts ts' : List Thread) : Type 0 where
  pub more_rounds : rounds ts' ≡ rounds ts + 1
  pub same_length : length ts' ≡ length ts
  pub same_asleep : num_asleep ts' ≡ num_asleep ts
  pub few_less : num_woken ts ≤ num_woken ts' + 1
  pub sound : All (IsSound limit) ts → All (IsSound limit) ts'

pub Passed-next_round :
    (limit k : ℕ) (ts : List Thread)
    → can_run limit (thread_at ts k) ≡ true
    → Passed limit ts (next_round k ts)
Passed-next_round limit k ts h =
    let t = thread_at ts k in
    let v : Thread = record { i = t.i + 1; place = ready } in
    let lt = can_run-fits limit k ts h in
    let w = can_run-weights limit t h in
    let a = total-set (λ x. asleep_weight x.place) ts k v no_thread lt in
    let b = total-set (λ x. woken_weight x.place) ts k v no_thread lt in
    record {
      more_rounds = omega (arith, total-set Thread.i ts k v no_thread lt);
      same_length = length-set ts k v;
      same_asleep = omega (arith, a, w.0);
      few_less = omega (arith, b, woken-le-one t.place);
      sound = λ g. All-set (IsSound limit) ts k v g (omega (arith, w.1), omega (arith, w.1));
    }

stuck_thread :
    (limit i : ℕ) (p : Place)
    → IsSound limit (record { i = i; place = p })
    → can_run limit (record { i = i; place = p }) ≡ false
    → (woken_weight p ≡ 0) × (asleep_weight p ≡ 0 → i ≡ limit)
stuck_thread limit i ready s h = (refl, λ g. ground (arith, h, s.0))
stuck_thread limit i asleep s h = (refl, λ g. absurd (omega (arith, g)))
stuck_thread limit i woken s h = absurd (ground (arith, h, s.1))

-- The rounds that the threads do in all.
abbrev pub all_rounds : ℕ → List Thread → ℕ
all_rounds limit ts = total (λ t. limit) ts

-- If none of the threads can run, none is woken, and each is asleep or has done its rounds.
pub record Stuck (limit : ℕ) (ts : List Thread) : Type 0 where
  pub none_woken : num_woken ts ≡ 0
  pub still_missing : rounds ts + num_asleep ts ≤ all_rounds limit ts
  pub finished : num_asleep ts ≡ 0 → All (λ t. t.i ≡ limit) ts × (rounds ts ≡ all_rounds limit ts)

pub Stuck-All :
    (limit : ℕ) (ts : List Thread)
    → All (IsSound limit) ts
    → All (λ t. can_run limit t ≡ false) ts
    → Stuck limit ts
Stuck-All limit [] s h = record {
  none_woken = refl;
  still_missing = omega arith;
  finished = λ g. (tt, refl);
}
Stuck-All limit (t ∷ ts) s h =
    let here = stuck_thread limit t.i t.place s.0 h.0 in
    let rest = Stuck-All limit ts s.1 h.1 in
    record {
      none_woken = omega (arith, here.0, rest.none_woken);
      still_missing = omega (arith, s.0.1, here.0, rest.still_missing);
      finished = λ g.
          let r = rest.finished (omega (arith, g)) in
          let i = here.1 (omega (arith, g)) in ((i, r.0), omega (arith, i, r.1));
    }
