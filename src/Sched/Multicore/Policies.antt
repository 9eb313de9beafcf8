-- ===== src/Sched/Multicore/Policies.antt =====
-- The queues of note7/multi_cpu_scheduling/multicore_scheduling.c: one for all CPUs, or one for each
-- with work stealing.
pub mod Hold
pub mod Steal
use cp.Common.{
  ℕ, zero, suc, ◌+◌, not, ◌&&◌, ltb, ◌==◌, if◌then◌else◌, Option, none, some, List, [], ◌∷◌, ◌++◌,
  length,
}
use cp.Sched.Multicore.{Policy, max_cpus, update}

-- `sqms_add_process` and `sqms_get_next_process`, over the used part of `global_queue`.
unfoldable pub sqms_add_process : ℕ → List ℕ → List ℕ
sqms_add_process i global_queue = global_queue ++ (i ∷ [])

unfoldable pub sqms_get_next_process : List ℕ → List ℕ × Option ℕ
sqms_get_next_process [] = ([], none)
sqms_get_next_process (i ∷ rest) = (rest, some i)

abbrev pub sqms : Policy (List ℕ)
sqms = record {
  none_queued = [];
  add_process = λ cpu i q. sqms_add_process i q;
  next_process = λ cpu q. sqms_get_next_process q;
}

-- `cpu_queue`: the used part of each CPU's queue, whose length is `cpu_queue_size`.
abbrev pub Queues : Type 0
Queues = ℕ → List ℕ

unfoldable pub mqms_add_process : ℕ → ℕ → Queues → Queues
mqms_add_process cpu_id i q = update q cpu_id (q cpu_id ++ (i ∷ []))

abbrev pub take_first : ℕ → Queues → List ℕ → Queues × Option ℕ
take_first cpu_id q [] = (q, none)
take_first cpu_id q (i ∷ rest) = (update q cpu_id rest, some i)

unfoldable pub mqms_get_next_process : ℕ → Queues → Queues × Option ℕ
mqms_get_next_process cpu_id q = take_first cpu_id q (q cpu_id)

-- The search for the busiest other CPU: `target_cpu`, `none` for -1, and `max_queue_size`.
pub record Busiest : Type 0 where
  pub target_cpu : Option ℕ
  pub max_queue_size : ℕ

-- One round of it, and the loop: `left` rounds from CPU `i` on.
abbrev pub compare_queue : ℕ → Queues → ℕ → Busiest → Busiest
compare_queue cpu_id q i b =
    if not (i == cpu_id) && ltb b.max_queue_size (length (q i))
    then record { target_cpu = some i; max_queue_size = length (q i) }
    else b

unfoldable pub find_busiest : ℕ → Queues → ℕ → ℕ → Busiest → Busiest
find_busiest cpu_id q zero i b = b
find_busiest cpu_id q (suc left) i b =
    find_busiest cpu_id q left (i + 1) (compare_queue cpu_id q i b)

-- The last element, and the list without it.
abbrev pub split_last : ℕ → List ℕ → List ℕ × ℕ
split_last x [] = ([], x)
split_last x (y ∷ ys) = let (front, last) = split_last y ys in (x ∷ front, last)

-- What is stolen from the queue of `target`: its last process, if it holds more than one.
abbrev pub steal_from : ℕ → Queues → List ℕ → Queues × Option ℕ
steal_from target q [] = (q, none)
steal_from target q (x ∷ []) = (q, none)
steal_from target q (x ∷ y ∷ rest) =
    let (front, last) = split_last x (y ∷ rest) in (update q target front, some last)

abbrev pub steal_at : Queues → Busiest → Queues × Option ℕ
steal_at q b = elim b.target_cpu [
  | none ↦ (q, none)
  | some target ↦ if ltb 1 b.max_queue_size then steal_from target q (q target) else (q, none)
]

unfoldable pub mqms_steal_work : ℕ → Queues → Queues × Option ℕ
unfolding find_busiest
mqms_steal_work cpu_id q =
    steal_at q (find_busiest cpu_id q max_cpus 0 (record { target_cpu = none; max_queue_size = 0 }))

-- The local queue first, then work stealing.
abbrev pub or_steal : ℕ → Queues × Option ℕ → Queues × Option ℕ
or_steal cpu_id (q, some i) = (q, some i)
or_steal cpu_id (q, none) = mqms_steal_work cpu_id q

unfoldable pub mqms_next_process : ℕ → Queues → Queues × Option ℕ
unfolding mqms_steal_work mqms_get_next_process
mqms_next_process cpu_id q = or_steal cpu_id (mqms_get_next_process cpu_id q)

abbrev pub mqms : Policy Queues
mqms = record {
  none_queued = λ _. [];
  add_process = λ cpu i q. mqms_add_process cpu i q;
  next_process = λ cpu q. mqms_next_process cpu q;
}
