-- ===== src/Sync/SemaphoreBuffer/Invariant.antt =====
-- How the semaphores count the places of the threads and the items in the array.
use cp.Common.{
  ℕ, ◌+◌, ◌*◌, ◌≤◌, ◌≡◌, ap, arith, leb, if◌then◌else◌, List, [], ◌∷◌, length, total, All,
}
use cp.Sync.SemaphoreBuffer.{
  Program, total_items, ProducerPlace, before_empty, has_slot, has_put, ConsumerPlace, before_full,
  has_item, has_taken, before_count, finished, Producer, Consumer, State,
}
use cp.Sync.SemaphoreBuffer.Buffer.{Buffer}

abbrev pub slot_weight : ProducerPlace → ℕ
slot_weight before_empty = 0
slot_weight has_slot = 1
slot_weight has_put = 0

abbrev pub put_weight : ProducerPlace → ℕ
put_weight before_empty = 0
put_weight has_slot = 0
put_weight has_put = 1

abbrev pub item_weight : ConsumerPlace → ℕ
item_weight before_full = 0
item_weight has_item = 1
item_weight has_taken = 0
item_weight before_count = 0
item_weight finished = 0

abbrev pub taken_weight : ConsumerPlace → ℕ
taken_weight before_full = 0
taken_weight has_item = 0
taken_weight has_taken = 1
taken_weight before_count = 0
taken_weight finished = 0

abbrev pub count_weight : ConsumerPlace → ℕ
count_weight before_full = 0
count_weight has_item = 0
count_weight has_taken = 0
count_weight before_count = 1
count_weight finished = 0

abbrev pub finished_weight : ConsumerPlace → ℕ
finished_weight before_full = 0
finished_weight has_item = 0
finished_weight has_taken = 0
finished_weight before_count = 0
finished_weight finished = 1

-- How many producers have a slot, and how many have put an item that `full` does not count yet.
abbrev pub num_slots : List Producer → ℕ
num_slots ts = total (λ t. slot_weight t.place) ts

abbrev pub num_puts : List Producer → ℕ
num_puts ts = total (λ t. put_weight t.place) ts

-- The items made.
abbrev pub rounds : List Producer → ℕ
rounds ts = total (λ t. t.i + put_weight t.place) ts

abbrev pub num_items : List Consumer → ℕ
num_items ts = total (λ t. item_weight t.place) ts

abbrev pub num_taken : List Consumer → ℕ
num_taken ts = total (λ t. taken_weight t.place) ts

abbrev pub num_counting : List Consumer → ℕ
num_counting ts = total (λ t. count_weight t.place) ts

abbrev pub num_finished : List Consumer → ℕ
num_finished ts = total (λ t. finished_weight t.place) ts

abbrev pub IsSound : ℕ → Producer → Type 0
IsSound limit t = t.i + slot_weight t.place + put_weight t.place ≤ limit

pub record Inv (p : Program) (s : State) : Type 0 where
  pub n : ℕ
  pub buffer : Buffer p n s
  pub slots : s.empty + num_slots s.producers + n + num_taken s.consumers ≡ p.buffer_size
  pub items : s.full + num_items s.consumers + num_puts s.producers ≡ n
  pub counted :
      s.total_consumed + num_taken s.consumers + num_counting s.consumers ≡ length s.consumed
  pub made : length s.produced ≡ rounds s.producers
  pub sound : All (IsSound p.items_per_producer) s.producers
  pub num_p : length s.producers ≡ p.num_producers
  pub num_c : length s.consumers ≡ p.num_consumers
  pub last : num_finished s.consumers ≡ (if leb (total_items p) s.total_consumed then 1 else 0)

pub rounds-le :
    (limit : ℕ) (ts : List Producer) → All (IsSound limit) ts → rounds ts ≤ length ts * limit
rounds-le limit [] h = omega arith
rounds-le limit (t ∷ ts) h = omega (arith, h.0, rounds-le limit ts h.1)

-- At most as many items have been counted as are made in all, with those that are about to be.
pub counted-le :
    (p : Program) (s : State)
    → Inv p s
    → s.total_consumed + num_counting s.consumers ≤ total_items p
counted-le p s inv = omega (
  arith,
  inv.counted,
  inv.buffer.balance,
  inv.made,
  rounds-le p.items_per_producer s.producers inv.sound,
  ap (λ n. n * p.items_per_producer) inv.num_p,
)
