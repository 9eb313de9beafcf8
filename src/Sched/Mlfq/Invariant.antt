-- ===== src/Sched/Mlfq/Invariant.antt =====
-- The invariant of the simulation: what holds of the queues whenever the `while` loop tests.
use cp.Common.{
  All_of_occurs, pigeonhole, ℕ, ◌+◌, ◌≤◌, ◌<◌, ◌≡◌, ◌⊎◌, arith, ◌==◌, if◌then◌else◌, [], ◌∷◌, ◌++◌,
  length, total, All, occurs, occurs-append,
}
use cp.Sched.Mlfq.{max_processes, Process, State, process_at}
use cp.Sched.Mlfq.Flat.{flat, Added}

-- 1 for a process that still needs the CPU.
abbrev pub unfinished : Process → ℕ
unfinished p = if p.remaining_time == 0 then 0 else 1

-- A process in a queue. `i` is the index that the loop over the arrivals has reached: a process with
-- an index below it may have arrived just now, any other arrived earlier.
pub record IsQueued (i : ℕ) (s : State) (j : ℕ) : Type 0 where
  pub fits : j < length s.procs
  pub alive : 0 < (process_at s j).remaining_time
  pub arrived :
      ((process_at s j).arrival_time < s.current_time)
      ⊎ (((process_at s j).arrival_time ≡ s.current_time) × (j < i))
  pub anew : (process_at s j).time_in_current_quantum ≡ 0

pub record Inv (i : ℕ) (s : State) : Type 0 where
  pub few : length s.procs ≤ max_processes
  pub once : (j : ℕ) → occurs j (flat s) ≤ 1
  pub queued : (j : ℕ) → 0 < occurs j (flat s) → IsQueued i s j
  pub level0 : (j : ℕ) → 0 < occurs j s.queue0.processes → (process_at s j).current_queue ≡ 0
  pub level1 : (j : ℕ) → 0 < occurs j s.queue1.processes → (process_at s j).current_queue ≡ 1
  pub level2 : (j : ℕ) → 0 < occurs j s.queue2.processes → (process_at s j).current_queue ≡ 2
  pub ahead :
      (j : ℕ)
      → j < length s.procs
      → s.current_time ≤ (process_at s j).arrival_time
      → 0 < (process_at s j).remaining_time
  pub quantum0 : s.queue0.time_quantum ≡ 10
  pub quantum1 : s.queue1.time_quantum ≡ 20
  pub quantum2 : s.queue2.time_quantum ≡ 40
  pub counted : s.completed + total unfinished s.procs ≡ length s.procs

pub occurs-flat :
    (j : ℕ) (s : State)
    → occurs j (flat s)
      ≡ occurs j s.queue0.processes + occurs j s.queue1.processes + occurs j s.queue2.processes
occurs-flat j s = omega (
  arith,
  occurs-append j s.queue0.processes (s.queue1.processes ++ s.queue2.processes),
  occurs-append j s.queue1.processes s.queue2.processes,
)

-- Every queued index is one of the array, so at most 10 are queued: no queue is ever too full.
pub flat-fits : {i : ℕ} {s : State} → Inv i s → All (λ j. j < length s.procs) (flat s)
flat-fits {s} inv = All_of_occurs _ (flat s) (λ j h. (inv.queued j h).fits)

pub flat-room : {i : ℕ} {s : State} → Inv i s → length (flat s) ≤ max_processes
flat-room {s} inv = omega (arith, pigeonhole (length s.procs) (flat s) (flat-fits inv) inv.once)

-- One that is not queued leaves room for itself.
pub flat-room_of_new :
    {i : ℕ} {s : State} (j : ℕ)
    → Inv i s
    → j < length s.procs
    → occurs j (flat s) ≡ 0
    → length (flat s) < max_processes
flat-room_of_new {s} j inv h new = omega (
  arith,
  pigeonhole (length s.procs) (j ∷ flat s) (h, flat-fits inv) (λ k. ground (arith, inv.once k)),
)

-- Adding puts the process in one queue once more.
pub occurs-Added :
    {i q : ℕ} {s t : State} (j : ℕ)
    → q ≤ 2
    → Added i q s t
    → occurs j (flat t) ≡ occurs j (flat s) + (if j == i then 1 else 0)
occurs-Added {i} {q} {s} {t} j h a = ground (
  arith,
  a.top,
  a.middle,
  a.bottom,
  occurs-flat j s,
  occurs-flat j t,
  occurs-append j s.queue0.processes (i ∷ []),
  occurs-append j s.queue1.processes (i ∷ []),
  occurs-append j s.queue2.processes (i ∷ []),
)
