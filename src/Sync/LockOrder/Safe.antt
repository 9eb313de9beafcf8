-- ===== src/Sync/LockOrder/Safe.antt =====
-- The programs that take their locks in one order finish, and the ones that do not may stop for good.
use cp.Common.{
  ℕ, zero, suc, ◌<◌, ◌≡◌, refl, ◌⊎◌, inl, inr, arith, true, List, [], ◌∷◌, length, All, get_or,
}
use cp.Sync.LockOrder.{acquire, release, no_thread, value, step, execute, run, start, can_run}
use cp.Sync.LockOrder.Invariant.{IsOrdered}
use cp.Sync.LockOrder.Finish.{lock_order_progress, run_stuck}
use cp.Sync.LockOrder.Sums.{pending, all_added}
use cp.Sync.LockOrder.Guards.{IsGuarded}
use cp.Sync.LockOrder.Programs.{
  deadlock_main, circ_wait_programs, consistent_order, round_a_b, loop, iterations,
  thread_function_1, thread_function_2_safe, safe_mode,
}

IsOrdered-loop : (n : ℕ) → IsOrdered 2 [] (loop n round_a_b)
IsOrdered-loop zero = tt
IsOrdered-loop (suc n) = (
  omega arith,
  tt,
  (omega arith, (omega arith, tt), (omega arith, refl, (omega arith, refl, IsOrdered-loop n))),
)

pending-loop : (n j : ℕ) → j < 2 → pending j (loop n round_a_b) ≡ n
pending-loop zero j h = refl
pending-loop (suc n) j h = ground (arith, pending-loop n j h)

pub circ_wait-IsOrdered : All (IsOrdered 2 []) circ_wait_programs
circ_wait-IsOrdered = (
  (omega arith, tt, (omega arith, (omega arith, tt), (omega arith, refl, (omega arith, refl, tt)))),
  (
    (
      omega arith,
      tt,
      (omega arith, (omega arith, tt), (omega arith, refl, (omega arith, refl, tt))),
    ),
    tt,
  ),
)

pub consistent-IsOrdered : All (IsOrdered 2 []) consistent_order
consistent-IsOrdered = (
  (omega arith, tt, (omega arith, (omega arith, tt), (omega arith, refl, (omega arith, refl, tt)))),
  (
    (
      omega arith,
      tt,
      (omega arith, (omega arith, tt), (omega arith, refl, (omega arith, refl, tt))),
    ),
    tt,
  ),
)

-- Both counters are used under mutex A.
abbrev pub mutex_a : ℕ → ℕ
mutex_a r = 0

IsGuarded-loop : (n : ℕ) → IsGuarded 2 mutex_a [] (loop n round_a_b)
IsGuarded-loop zero = tt
IsGuarded-loop (suc n) = (omega arith, omega arith, (omega arith, omega arith, IsGuarded-loop n))

pub safe_mode-IsGuarded : All (IsGuarded 2 mutex_a []) safe_mode
unfolding safe_mode thread_function_1 thread_function_2_safe
safe_mode-IsGuarded = (IsGuarded-loop iterations, (IsGuarded-loop iterations, tt))

zero_at : (j : ℕ) → j < 2 → get_or {A = ℕ} (0 ∷ 0 ∷ []) j 0 ≡ 0
zero_at zero h = refl
zero_at (suc zero) h = refl
zero_at (suc (suc j)) h = absurd (omega (arith, h))

pub safe_mode-IsOrdered : All (IsOrdered 2 []) safe_mode
unfolding safe_mode thread_function_1 thread_function_2_safe
safe_mode-IsOrdered = (IsOrdered-loop iterations, (IsOrdered-loop iterations, tt))

-- deadlock_example.c in its safe mode: in every state that a run reaches, some thread can take a step,
-- or both threads have done all their iterations, both mutexes are free, and both counters are 20,000.
pub safe_mode_total :
    (ks : List ℕ)
    → let s = run ks (start 2 (0 ∷ 0 ∷ []) safe_mode) in
      ((k : ℕ) × (k < length s.threads) × (can_run s (get_or s.threads k no_thread) ≡ true))
      ⊎ (All (λ t. t.todo ≡ []) s.threads
          × ((l : ℕ) → l < 2 → value s l ≡ 1)
          × ((j : ℕ) → j < 2 → get_or s.variables j 0 ≡ 20000))
unfolding safe_mode thread_function_1 thread_function_2_safe
safe_mode_total ks = elim (lock_order_progress 2 (0 ∷ 0 ∷ []) safe_mode ks safe_mode-IsOrdered) [
  | inl f ↦ inl f
  | inr h ↦ inr (
    h.0,
    h.1,
    λ j b. omega (
      arith,
      all_added 2 mutex_a j (0 ∷ 0 ∷ []) safe_mode ks safe_mode-IsOrdered safe_mode-IsGuarded b h.0,
      pending-loop iterations j b,
      zero_at j b,
    ),
  )
]

-- deadlocks/deadlock.c, after each thread has got its first semaphore: whatever steps follow, the state
-- stays as it is, and each thread still waits for the semaphore that the other has.
pub opposite_order_deadlock :
    (ks : List ℕ)
    → run (0 ∷ 1 ∷ ks) deadlock_main ≡ record {
      values = 0 ∷ 0 ∷ [];
      variables = [];
      threads =
          record { held = 0 ∷ []; todo = acquire 1 ∷ release 1 ∷ release 0 ∷ [] }
          ∷ record { held = 1 ∷ []; todo = acquire 0 ∷ release 0 ∷ release 1 ∷ [] }
          ∷ [];
    }
unfolding run step execute
opposite_order_deadlock ks =
    run_stuck ks
      (record {
        values = 0 ∷ 0 ∷ [];
        variables = [];
        threads =
            record { held = 0 ∷ []; todo = acquire 1 ∷ release 1 ∷ release 0 ∷ [] }
            ∷ record { held = 1 ∷ []; todo = acquire 0 ∷ release 0 ∷ release 1 ∷ [] }
            ∷ [];
      })
      (refl, (refl, tt))
