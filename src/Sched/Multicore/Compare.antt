-- ===== src/Sched/Multicore/Compare.antt =====
-- `main` of note7/multi_cpu_scheduling/multicore_scheduling.c: the processes it creates, the two
-- simulations, and the table that compares them.
use cp.Common.{
  ℕ, zero, suc, ◌+◌, ◌%◌, ◌≡◌, refl, ◌==◌, if◌then◌else◌, Option, List, [], ◌∷◌, length, All,
  get_or,
}
use cp.Sched.Multicore.{Process, init_process, no_process, simulate}
use cp.Sched.Multicore.Again.{simulate_after_simulate}
use cp.Sched.Multicore.Policies.{sqms, mqms}

-- The burst time of process `i`, from the number `r` that rand() returns.
abbrev pub burst_of : ℕ → ℕ → ℕ
burst_of i r = if i % 3 == 0 then 5 + r % 5 else if i % 3 == 1 then 10 + r % 10 else 20 + r % 20

-- The processes with the indices `i`, `i + 1` and so on; `rands` is what rand() returns.
abbrev pub create : ℕ → List ℕ → List Process
create i [] = []
create i (r ∷ rands) = init_process (i + 1) (burst_of i r) ∷ create (i + 1) rands

-- A row of the comparison: `sqms_time` and `mqms_time`.
pub record Row : Type 0 where
  pub sqms_time : Option ℕ
  pub mqms_time : Option ℕ

abbrev completion_at : List Process → ℕ → Option ℕ
completion_at ps i = (get_or ps i no_process).completion_time

-- The loop of the comparison: `left` rows from `i` on.
abbrev pub rows : ℕ → ℕ → List Process → List Row
rows zero i ps = []
rows (suc left) i ps =
    let ps' = (simulate mqms ps).procs in
    record { sqms_time = completion_at ps i; mqms_time = completion_at ps' i }
    ∷ rows left (i + 1) ps'

-- The table for these processes.
pub compare_schedulers : List Process → List Row
compare_schedulers ps = rows (length ps) 0 (simulate mqms (simulate sqms ps).procs).procs

rows_same :
    (left i : ℕ) (ps : List Process)
    → All (λ r. r.sqms_time ≡ r.mqms_time) (rows left i (simulate mqms ps).procs)
rows_same zero i ps = tt
rows_same (suc left) i ps =
    rw (simulate_after_simulate mqms mqms ps) (refl, rows_same left (i + 1) ps)

-- Whatever the processes are, the two columns of the table agree in every row.
pub compare_schedulers_same :
    (ps : List Process) → All (λ r. r.sqms_time ≡ r.mqms_time) (compare_schedulers ps)
unfolding compare_schedulers
compare_schedulers_same ps = rows_same (length ps) 0 (simulate sqms ps).procs
