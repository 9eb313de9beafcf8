-- ===== src/Sched/Multicore/Tests.antt =====
-- Concrete runs of the multiprocessor scheduling, and the theorems applied to them.
use cp.Common.{◌<◌, ◌≡◌, refl, arith, false, List, [], ◌∷◌, length, All, replicate, get_or}
use cp.Sched.Multicore.{Process, begin, distribute, sim_loop, simulate, goes_on}
use cp.Sched.Multicore.Laws.{Inv}
use cp.Sched.Multicore.Simulate.{simulate-Inv}
use cp.Sched.Multicore.Again.{simulate_after_simulate}
use cp.Sched.Multicore.Compare.{create, compare_schedulers, compare_schedulers_same}
use cp.Sched.Multicore.Fits.{in_bounds, queue_fits}
use cp.Sched.Multicore.Policies.{
  Queues, sqms, mqms, mqms_steal_work, sqms_get_next_process, sqms_add_process, mqms_next_process,
  mqms_add_process,
}
use cp.Sched.Multicore.Policies.Hold.{mqms-IsPolicy, occurs_in}
use cp.Sched.Multicore.Policies.Steal.{Stolen, mqms_steal_work-Stolen}

abbrev five : List Process
five = create 0 (3 ∷ 1 ∷ 4 ∷ 1 ∷ 5 ∷ [])

five_work : All (λ p. 0 < p.burst_time) five
five_work = (omega arith, (omega arith, (omega arith, (omega arith, (omega arith, tt)))))

five_done : ((simulate sqms five).completed ≡ 5) × ((simulate mqms five).completed ≡ 5)
unfolding simulate sim_loop begin sqms_get_next_process sqms_add_process mqms_next_process
    mqms_add_process
five_done = (refl, refl)

abbrev some_queues : Queues
some_queues c = get_or ((4 ∷ []) ∷ (1 ∷ 2 ∷ []) ∷ [] ∷ (3 ∷ 5 ∷ 6 ∷ []) ∷ []) c []

simulate-Inv_example :
    Inv mqms occurs_in mqms-IsPolicy (simulate mqms five)
    × (goes_on mqms (simulate mqms five) ≡ false)
simulate-Inv_example = simulate-Inv mqms occurs_in mqms-IsPolicy five five_work

simulate_after_simulate_example : simulate sqms (simulate mqms five).procs ≡ simulate sqms five
simulate_after_simulate_example = simulate_after_simulate sqms mqms five

compare_schedulers_same_example : All (λ r. r.sqms_time ≡ r.mqms_time) (compare_schedulers five)
compare_schedulers_same_example = compare_schedulers_same five

queue_fits_example :
    (simulate (in_bounds (λ cpu q. q) sqms) five ≡ simulate sqms five)
    × (simulate (in_bounds (λ cpu q. q cpu) mqms) five ≡ simulate mqms five)
queue_fits_example = queue_fits five five_work (omega arith)

-- With one process more than MAX_PROCESSES the bound makes a difference.
abbrev too_many : List Process
too_many = create 0 (replicate 21 0)

too_many_dropped :
    (length (begin (in_bounds (λ cpu q. q) sqms) too_many).queue ≡ 20)
    × (length (begin sqms too_many).queue ≡ 21)
unfolding begin distribute sqms_add_process
too_many_dropped = (refl, refl)

mqms_steal_work-Stolen_example :
    Stolen 2 some_queues (mqms_steal_work 2 some_queues).0 (mqms_steal_work 2 some_queues).1
mqms_steal_work-Stolen_example = mqms_steal_work-Stolen 2 some_queues
