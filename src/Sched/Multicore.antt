-- ===== src/Sched/Multicore.antt =====
-- note7/multi_cpu_scheduling/multicore_scheduling.c: the simulations of single-queue and multi-queue
-- multiprocessor scheduling. `simulate_sqms` and `simulate_mqms` have the same text but for the
-- functions that add a process to a queue and take the next one: these are a `Policy`. The mutexes
-- are locked and unlocked by one thread only, and are left out.
pub mod Policies
pub mod Laws
pub mod Simulate
pub mod Again
pub mod Compare
pub mod Fits
pub mod Tests
use cp.Common.{
  ℕ, zero, suc, ◌+◌, ◌-◌, ◌%◌, Bool, true, false, ◌&&◌, ltb, ◌==◌, if◌then◌else◌, Option, none,
  some, List, [], ◌∷◌, length, total, set, get_or,
}

abbrev pub max_cpus : ℕ
max_cpus = 4

abbrev pub max_processes : ℕ
max_processes = 20

abbrev pub simulation_time : ℕ
simulation_time = 100

-- `Process`. In `completion_time` and `last_cpu`, `none` is -1; `assigned_cpu` is never assigned
-- again. `remaining_time` is only ever compared with 0, so that it stops at 0 makes no difference.
pub record Process : Type 0 where
  pub id : ℕ
  pub burst_time : ℕ
  pub remaining_time : ℕ
  pub assigned_cpu : Option ℕ
  pub completion_time : Option ℕ
  pub last_cpu : Option ℕ
  pub cache_misses : ℕ

abbrev pub init_process : ℕ → ℕ → Process
init_process i burst = record {
  id = i;
  burst_time = burst;
  remaining_time = burst;
  assigned_cpu = none;
  completion_time = none;
  last_cpu = none;
  cache_misses = 0;
}

-- What the two simulations do differently, over the queues `Q`. Processes are pointers, here indices
-- into the array; `none` is NULL.
pub record Policy (Q : Type 0) : Type 0 where
  -- No process in any queue.
  pub none_queued : Q
  -- CPU, process.
  pub add_process : ℕ → ℕ → Q → Q
  -- What an idle CPU gets.
  pub next_process : ℕ → Q → Q × Option ℕ

-- `current_proc[cpu]` and `time_slice[cpu]`.
pub record Cpu : Type 0 where
  pub current_proc : Option ℕ
  pub time_slice : ℕ

pub record State (Q : Type 0) : Type 0 where
  pub procs : List Process
  pub queue : Q
  pub cpus : ℕ → Cpu
  pub time : ℕ
  pub completed : ℕ

-- An assignment to an element of an array of fixed size.
abbrev pub update {ℓ} : {A : Type ℓ} → (ℕ → A) → ℕ → A → ℕ → A
update f i a j = if i == j then a else f j

-- The pointers that are followed are indices of the array (`Laws`), so the default is never read.
abbrev pub no_process : Process
no_process = init_process 0 0

-- `simulate_cache_effects`.
abbrev pub simulate_cache_effects : ℕ → Process → Process
simulate_cache_effects cpu_id p = record p {
  cache_misses = elim p.last_cpu [
    | none ↦ p.cache_misses
    | some last ↦ if last == cpu_id then p.cache_misses else p.cache_misses + 10
  ];
  last_cpu = some cpu_id;
}

-- The reset of a process at the start of a simulation.
abbrev pub reset : Process → Process
reset p = record p {
  remaining_time = p.burst_time;
  completion_time = none;
  last_cpu = none;
  cache_misses = 0;
}

-- A process that has run for one unit, from `time` on.
abbrev pub run_unit : ℕ → Process → Process
run_unit time p =
    if p.remaining_time - 1 == 0
    then record p { remaining_time = p.remaining_time - 1; completion_time = some (time + 1) }
    else record p { remaining_time = p.remaining_time - 1 }

module _ {Q : Type 0} (P : Policy Q) where
  open P use {none_queued, add_process, next_process}

  abbrev pub process_at : State Q → ℕ → Process
  process_at s i = get_or s.procs i no_process

  -- A process whose slice has expired goes back to a queue if it is not completed.
  abbrev pub put_back : ℕ → State Q → Option ℕ → State Q
  put_back cpu s none = s
  put_back cpu s (some i) =
      if ltb 0 (process_at s i).remaining_time
      then record s { queue = add_process cpu i s.queue }
      else s

  -- What the CPU gets next is set up with a new slice; an idle CPU keeps what its slice was.
  abbrev pub set_up : ℕ → State Q → Option ℕ → State Q
  set_up cpu s none = record s {
    cpus = update s.cpus cpu (record (s.cpus cpu) { current_proc = none });
  }
  set_up cpu s (some i) = record s {
    procs = set s.procs i (simulate_cache_effects cpu (process_at s i));
    cpus = update s.cpus cpu (record { current_proc = some i; time_slice = 5 });
  }

  pub dispatch : ℕ → State Q → State Q
  dispatch cpu s =
      let t = put_back cpu s (s.cpus cpu).current_proc in
      let (queue, next) = next_process cpu t.queue in set_up cpu (record t { queue = queue }) next

  -- The branch that continues the current process `i`.
  pub continue_with : ℕ → ℕ → State Q → State Q
  continue_with cpu i s =
      let p = process_at s i in
      let over = p.remaining_time - 1 == 0 in
      record s {
        procs = set s.procs i (run_unit s.time p);
        cpus = update s.cpus cpu (record {
          current_proc = if over then none else some i;
          time_slice = (s.cpus cpu).time_slice - 1;
        });
        completed = if over then s.completed + 1 else s.completed;
      }

  -- The body of the loop over the CPUs.
  abbrev pub cpu_body : ℕ → State Q → Option ℕ → State Q
  cpu_body cpu s none = dispatch cpu s
  cpu_body cpu s (some i) =
      if (s.cpus cpu).time_slice == 0 then dispatch cpu s else continue_with cpu i s

  pub run_cpu : ℕ → State Q → State Q
  unfolding dispatch continue_with
  run_cpu cpu s = cpu_body cpu s (s.cpus cpu).current_proc

  -- The loop over the CPUs: `left` rounds from `cpu` on.
  pub run_cpus : ℕ → ℕ → State Q → State Q
  unfolding run_cpu
  run_cpus zero cpu s = s
  run_cpus (suc left) cpu s = run_cpus left (cpu + 1) (run_cpu cpu s)

  -- The body of the `while` loop.
  pub tick : State Q → State Q
  unfolding run_cpus
  tick s = let t = run_cpus max_cpus 0 s in record t { time = t.time + 1 }

  -- The test of the `while` loop.
  abbrev pub goes_on : State Q → Bool
  goes_on s = ltb s.time simulation_time && ltb s.completed (length s.procs)

  pub sim_loop : ℕ → State Q → State Q
  unfolding tick
  sim_loop zero s = s
  sim_loop (suc fuel) s = elim (goes_on s) [ true ↦ sim_loop fuel (tick s) | false ↦ s ]

  -- The loop that resets the processes and adds each to a queue, from index `i` on.
  pub distribute : ℕ → List Process → Q → List Process × Q
  distribute i [] q = ([], q)
  distribute i (p ∷ ps) q =
      let (ps', q') = distribute (i + 1) ps (add_process (i % max_cpus) i q) in (reset p ∷ ps', q')

  pub begin : List Process → State Q
  unfolding distribute
  begin ps =
      let (procs, queue) = distribute 0 ps none_queued in
      record {
        procs = procs;
        queue = queue;
        cpus = λ _. record { current_proc = none; time_slice = 0 };
        time = 0;
        completed = 0;
      }

  -- `simulate_sqms` and `simulate_mqms`: the state when the loop ends.
  pub simulate : List Process → State Q
  unfolding begin sim_loop
  simulate ps = sim_loop simulation_time (begin ps)

  -- `total_misses`.
  pub total_misses : List Process → ℕ
  total_misses ps = total Process.cache_misses ps
