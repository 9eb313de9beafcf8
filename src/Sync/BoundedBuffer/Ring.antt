-- ===== src/Sync/BoundedBuffer/Ring.antt =====
-- The circular buffer of note9/condition_variables/bounded_buffer.c as a queue.
use cp.Common.{ℕ, suc, ◌+◌, ◌%◌, ◌<◌, ◌≡◌, List, [], ◌∷◌, ◌++◌, length, set}
use cp.Common.Ring.{entries, entries-put}
use cp.Sync.BoundedBuffer.{buffer_size}

-- The `n` items from index `o` on, around the end of the buffer.
abbrev pub items_from : ℕ → ℕ → List ℕ → List ℕ
items_from n o b = entries buffer_size 0 n o b

-- A write at the end of the items that the buffer holds, when it is not full, appends to them.
pub items_from-put :
    (n o v : ℕ) (b : List ℕ)
    → o < buffer_size
    → n < buffer_size
    → length b ≡ buffer_size
    → items_from (suc n) o (set b ((o + n) % buffer_size) v) ≡ items_from n o b ++ (v ∷ [])
items_from-put n o v b h lt len = entries-put buffer_size 0 n o v b h lt len
