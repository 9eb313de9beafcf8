-- ===== src/Sync/SemaphoreBuffer/Buffer.antt =====
-- The array with `buffer_index` as a stack of numbers: the next slot is one past the last item, and
-- the index is 0 when the array is full or empty.
use cp.Common.{
  ℕ, zero, suc, ◌+◌, ◌-◌, ◌%◌, ◌≤◌, ◌<◌, ◌≡◌, sym, ap, ◌∙◌, arith, ◌==◌, if◌then◌else◌, List, [],
  ◌∷◌, length, length-append, length-set, occurs, occurs-append, take, set, get_or,
}
use cp.Sync.SemaphoreBuffer.{Producer, Consumer, Program, State, put_item, previous, take_item}
use cp.Common.Ring.{mod_once}
use native.Mathlib.Nat.{mod-eq_of_lt}

-- The array holds `n` items, and was written and read as the two lists of items say.
pub record Buffer (p : Program) (n : ℕ) (s : State) : Type 0 where
  pub as_long : length s.buffer ≡ p.buffer_size
  pub fits : n ≤ p.buffer_size
  pub index : s.buffer_index ≡ n % p.buffer_size
  pub items : (j : ℕ) → occurs j s.produced ≡ occurs j s.consumed + occurs j (take n s.buffer)
  pub balance : length s.produced ≡ length s.consumed + n

take-set :
    (n v j : ℕ) (b : List ℕ)
    → n < length b
    → occurs j (take (suc n) (set b n v)) ≡ occurs j (take n b) + (if j == v then 1 else 0)
take-set n v j [] h = absurd (omega (arith, h))
take-set zero v j (x ∷ b) h = omega arith
take-set (suc n) v j (x ∷ b) h = omega (arith, take-set n v j b (omega (arith, h)))

take-suc :
    (n j : ℕ) (b : List ℕ)
    → n < length b
    → occurs j (take (suc n) b) ≡ occurs j (take n b) + (if j == get_or b n 0 then 1 else 0)
take-suc n j [] h = absurd (omega (arith, h))
take-suc zero j (x ∷ b) h = omega arith
take-suc (suc n) j (x ∷ b) h = omega (arith, take-suc n j b (omega (arith, h)))

pub Buffer-put :
    (p : Program) (n item : ℕ) (s : State)
    → Buffer p n s
    → n < p.buffer_size
    → Buffer p (n + 1) (put_item p item s)
Buffer-put p n item s h lt =
    let at : s.buffer_index ≡ n = h.index ∙ mod-eq_of_lt lt in
    let one : n + 1 ≡ suc n = omega arith in
    record {
      as_long = length-set s.buffer s.buffer_index item ∙ h.as_long;
      fits = omega (arith, lt);
      index = ap (λ i. (i + 1) % p.buffer_size) at;
      items = λ j.
          rw (at, one)
            (omega (
              arith,
              h.items j,
              occurs-append j s.produced (item ∷ []),
              take-set n item j s.buffer (omega (arith, lt, h.as_long)),
            ));
      balance = omega (arith, h.balance, length-append s.produced (item ∷ []));
    }

previous_is :
    (p : Program) (n : ℕ) → 0 < n → n ≤ p.buffer_size → previous p (n % p.buffer_size) ≡ n - 1
previous_is p n pos le =
    let size = p.buffer_size in
    ground (
      arith,
      mod_once n size (omega (arith, pos, le)),
      mod_once (n % size + size - 1) size
          (ground (arith, mod_once n size (omega (arith, pos, le)), pos, le)),
      pos,
      le,
    )

pub Buffer-take :
    (p : Program) (n : ℕ) (s : State) → Buffer p n s → 0 < n → Buffer p (n - 1) (take_item p s)
Buffer-take p n s h pos =
    let m = n - 1 in
    let is : n ≡ suc m = omega (arith, pos) in
    let at : previous p s.buffer_index ≡ m = ap (previous p) h.index ∙ previous_is p n pos h.fits in
    let lt : m < p.buffer_size = omega (arith, pos, h.fits) in
    record {
      as_long = h.as_long;
      fits = omega (arith, h.fits);
      index = at ∙ sym (mod-eq_of_lt lt);
      items = λ j. omega (
        arith,
        h.items j,
        occurs-append j s.consumed (get_or s.buffer (previous p s.buffer_index) 0 ∷ []),
        ap (λ i. occurs j (get_or s.buffer i 0 ∷ [])) at,
        ap (λ i. occurs j (take i s.buffer)) is,
        take-suc m j s.buffer (omega (arith, lt, h.as_long)),
      );
      balance = omega (
        arith,
        h.balance,
        pos,
        length-append s.consumed (get_or s.buffer (previous p s.buffer_index) 0 ∷ []),
      );
    }

-- Who waits does not matter to the array.
pub Buffer-with :
    (p : Program) (n : ℕ) (ps : List Producer) (cs : List Consumer) (e f t : ℕ) (s : State)
    → Buffer p n s
    → Buffer p n
        (record s { producers = ps; consumers = cs; empty = e; full = f; total_consumed = t })
Buffer-with p n ps cs e f t s h = record {
  as_long = h.as_long;
  fits = h.fits;
  index = h.index;
  items = h.items;
  balance = h.balance;
}
