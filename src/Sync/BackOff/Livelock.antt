-- ===== src/Sync/BackOff/Livelock.antt =====
-- The two threads of deadlocks/DL_pre_emption.c may give way to each other for ever.
use cp.Common.{ℕ, zero, suc, ◌+◌, ◌≡◌, ap, ◌∙◌, arith, Bool, true, false, List, [], ◌∷◌}
use cp.Sync.BackOff.{outside, Side, State, step_at, step, step_of, run, start}
use cp.Sync.BackOff.{acquire_two_with_preemption}

-- Each thread takes its first semaphore, then each fails to get its second, then each gives up.
abbrev pub repeat : ℕ → List Bool
repeat zero = []
repeat (suc n) = true ∷ false ∷ true ∷ false ∷ true ∷ false ∷ repeat n

-- A thread that has failed as often as it has tried.
abbrev pub tried : ℕ → Side
tried n = record { lock = 1; i = 0; place = outside; resource = 0; attempts = n; failures = n }

abbrev both_tried : ℕ → State
both_tried n = record { me = tried n; other = tried n; counter1 = 0; counter2 = 0 }

repeat_from :
    (n m : ℕ)
    → run acquire_two_with_preemption acquire_two_with_preemption (repeat n) (both_tried m)
      ≡ both_tried (m + n)
unfolding run step_of step step_at
repeat_from zero m = ap both_tried (omega arith)
repeat_from (suc n) m = repeat_from n (m + 1) ∙ ap both_tried (omega arith)

-- For every number of attempts there is an order of steps of the two threads in which each has tried that
-- often, has failed each time and is where it began.
pub pre_emption_livelock :
    (n : ℕ)
    → let s = run acquire_two_with_preemption acquire_two_with_preemption (repeat n) (start 0 0) in
      (s.me ≡ tried n) × (s.other ≡ tried n)
pre_emption_livelock n =
    let e = repeat_from n 0 ∙ ap both_tried (omega arith) in (ap (λ s. s.me) e, ap (λ s. s.other) e)
