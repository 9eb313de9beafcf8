-- ===== src/Sched/RoundRobin.antt =====
-- note5/cpu_scheduling/schedule_rr.c: round robin with a time quantum.
pub mod Pass
pub mod Table
pub mod Ends
mod Tests
use cp.Common.{
  ℕ, zero, suc, ◌+◌, ◌-◌, ◌^◌, Bool, true, false, ◌&&◌, ◌||◌, if◌then◌else◌, ltb, ◌==◌, List, [],
  ◌∷◌, map, length,
}
use cp.Common.Int.{ℤ, pos, unset, is_unset, ◌-ℤ◌}

-- `Process`. The fields that are or may become negative are integers.
pub record Process : Type 0 where
  pub id : ℕ
  pub arrival_time : ℕ
  pub burst_time : ℕ
  pub remaining_time : ℕ
  pub completion_time : ℕ
  pub turnaround_time : ℤ
  pub waiting_time : ℤ
  pub first_run_time : ℤ

-- The variables of `round_robin` beside the array.
pub record Clock : Type 0 where
  pub current_time : ℕ
  pub completed : ℕ
  pub idle : Bool

abbrev pub int_max : ℕ
int_max = 2 ^ 31 - 1

-- The first loop, on one process.
abbrev pub prepare : Process → Process
prepare p = record p { remaining_time = p.burst_time; first_run_time = unset }

abbrev pub execution_time : ℕ → Process → ℕ
execution_time quantum p = if ltb p.remaining_time quantum then p.remaining_time else quantum

-- A process that has run down to `remaining`, at time `now`.
abbrev pub account : ℕ → ℕ → Process → Process
account now remaining p =
    if remaining == 0
    then (let turnaround = pos now -ℤ pos p.arrival_time in
        record p {
          remaining_time = remaining;
          completion_time = now;
          turnaround_time = turnaround;
          waiting_time = turnaround -ℤ pos p.burst_time;
        })
    else record p { remaining_time = remaining }

-- The body of the `for` loop behind its `continue`.
abbrev pub run_process : ℕ → Process → Clock → Process × Clock
run_process quantum p c =
    let started = record p {
      first_run_time = if is_unset p.first_run_time then pos c.current_time else p.first_run_time;
    } in
    let now = c.current_time + execution_time quantum p in
    let remaining = p.remaining_time - execution_time quantum p in
    (
      account now remaining started,
      record {
        current_time = now;
        completed = if remaining == 0 then c.completed + 1 else c.completed;
        idle = false;
      },
    )

-- The body of the `for` loop. A process that has not arrived or is completed is skipped.
pub visit : ℕ → Process → Clock → Process × Clock
unfolding ◌-ℤ◌
visit quantum p c =
    if ltb c.current_time p.arrival_time || p.remaining_time == 0
    then (p, c)
    else run_process quantum p c

-- The `for` loop over the array.
pub run_pass : ℕ → List Process → Clock → List Process × Clock
unfolding visit
run_pass quantum [] c = ([], c)
run_pass quantum (p ∷ ps) c =
    let (p', c') = visit quantum p c in let (ps', c'') = run_pass quantum ps c' in (p' ∷ ps', c'')

abbrev pub closer : ℕ → ℕ → Process → ℕ
closer now least p =
    if ltb now p.arrival_time && ltb p.arrival_time least then p.arrival_time else least

-- The loop that looks for the next arrival, from the minimum found so far.
pub next_arrival : ℕ → ℕ → List Process → ℕ
next_arrival now least [] = least
next_arrival now least (p ∷ ps) = next_arrival now (closer now least p) ps

-- Whether the body of the `while` loop goes on or breaks.
pub data Turn : Type 0 where
  again : List Process → Clock → Turn
  stuck : List Process → Clock → Turn

abbrev pub wait_for_arrival : List Process → Clock → Turn
wait_for_arrival ps c =
    let next = next_arrival c.current_time int_max ps in
    if next == int_max then stuck ps c else again ps (record c { current_time = next })

-- The body of the `while` loop, after the pass.
abbrev pub after_pass : List Process → Clock → Turn
after_pass ps c = if c.idle then wait_for_arrival ps c else again ps c

pub turn : ℕ → List Process → Clock → Turn
unfolding run_pass next_arrival
turn quantum ps c =
    let (ps', c') = run_pass quantum ps (record c { idle = true }) in after_pass ps' c'

-- How the `while` loop ends: by its test, by the `break`, or not within the fuel.
pub data Outcome : Type 0 where
  finished : List Process → ℕ → Outcome
  broken : List Process → ℕ → Outcome
  out_of_fuel : Outcome

abbrev pub resume : (List Process → Clock → Outcome) → Turn → Outcome
resume rest (again ps c) = rest ps c
resume rest (stuck ps c) = broken ps c.current_time

-- `while (completed < n)`.
pub loop : ℕ → ℕ → ℕ → List Process → Clock → Outcome
unfolding turn
loop zero quantum n ps c = out_of_fuel
loop (suc fuel) quantum n ps c = elim (ltb c.completed n) [
  | true ↦ resume (λ ps' c'. loop fuel quantum n ps' c') (turn quantum ps c)
  | false ↦ finished ps c.current_time
]

-- `round_robin`: the array at the end, with the final time.
pub round_robin : ℕ → List Process → ℕ → Outcome
unfolding loop
round_robin fuel ps quantum =
    loop fuel quantum (length ps) (map prepare ps)
      (record { current_time = 0; completed = 0; idle = true })

-- The array of `main`.
abbrev pub process_of : ℕ → ℕ → ℕ → Process
process_of i arrival burst = record {
  id = i;
  arrival_time = arrival;
  burst_time = burst;
  remaining_time = 0;
  completion_time = 0;
  turnaround_time = pos 0;
  waiting_time = pos 0;
  first_run_time = unset;
}

abbrev pub main_processes : List Process
main_processes = process_of 1 0 24 ∷ process_of 2 0 3 ∷ process_of 3 0 3 ∷ []
