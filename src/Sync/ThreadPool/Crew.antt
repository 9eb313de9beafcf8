-- ===== src/Sync/ThreadPool/Crew.antt =====
-- How the numbers of active, waiting and exited workers may change.
use cp.Common.{ℕ, ◌+◌, ◌-◌, ◌≤◌, ◌<◌, ◌≡◌, ◌∙◌, arith, Bool, true, false}
use cp.Sync.ThreadPool.{Program, Main, running, blocked, joining, returned, wake_main}
use cp.Sync.ThreadPool.Invariant.{IsCrew}

module _ (p : Program) where
  pub IsCrew-wait :
      (m : Main) (a w e c i a' w' e' : ℕ) (down : Bool)
      → IsCrew p m a w e c i down
      → c ≡ 0
      → down ≡ false
      → e' ≡ e
      → IsCrew p m a' w' e' c i down
  IsCrew-wait running a w e c i a' w' e' down h empty up ee =
      (h.0, ee ∙ h.1, λ g. absurd (omega (arith, g, empty)), h.3)
  IsCrew-wait blocked a w e c i a' w' e' down h empty up ee =
      (h.0, ee ∙ h.1, λ g. absurd (omega (arith, g, empty)), h.3, h.4)
  IsCrew-wait joining a w e c i a' w' e' down h empty up ee = absurd (cc (h.0, up))
  IsCrew-wait returned a w e c i a' w' e' down h empty up ee = absurd (cc (h.0, up))

  pub IsCrew-exit :
      (m : Main) (a w e c i a' w' e' : ℕ) (down : Bool)
      → IsCrew p m a w e c i down
      → c ≡ 0
      → down ≡ true
      → a' + 1 ≡ a
      → w' ≡ w
      → IsCrew p m a' w' e' c i down
  IsCrew-exit running a w e c i a' w' e' down h empty up ea ew = absurd (cc (h.0, up))
  IsCrew-exit blocked a w e c i a' w' e' down h empty up ea ew = absurd (cc (h.0, up))
  IsCrew-exit joining a w e c i a' w' e' down h empty up ea ew = (h.0, ew ∙ h.1, λ g. empty, h.3)
  IsCrew-exit returned a w e c i a' w' e' down h empty up ea ew = absurd (omega (arith, h.4, ea))

  pub IsCrew-take :
      (m : Main) (a w e c i a' w' e' : ℕ) (down : Bool)
      → IsCrew p m a w e c i down
      → 0 < a
      → a' ≡ a
      → w' ≡ w
      → e' ≡ e
      → IsCrew p (wake_main m) a' w' e' (c - 1) i down
  IsCrew-take running a w e c i a' w' e' down h g ea ew ee =
      (h.0, ee ∙ h.1, λ b. omega (arith, g, ea), h.3)
  IsCrew-take blocked a w e c i a' w' e' down h g ea ew ee =
      (h.0, ee ∙ h.1, λ b. omega (arith, g, ea), h.3)
  IsCrew-take joining a w e c i a' w' e' down h g ea ew ee =
      (h.0, ew ∙ h.1, λ b. omega (arith, h.2 (omega (arith, b, ee))), h.3)
  IsCrew-take returned a w e c i a' w' e' down h g ea ew ee = absurd (omega (arith, h.4, g))

  -- A worker that waits is woken, or goes on.
  pub IsCrew-more :
      (m : Main) (a w e c i a' w' e' : ℕ) (down : Bool)
      → IsCrew p m a w e c i down
      → a' + w' ≡ a + w
      → a ≤ a'
      → e' ≡ e
      → IsCrew p m a' w' e' c i down
  IsCrew-more running a w e c i a' w' e' down h ea le ee =
      (h.0, ee ∙ h.1, λ b. omega (arith, h.2 b, le), h.3)
  IsCrew-more blocked a w e c i a' w' e' down h ea le ee =
      (h.0, ee ∙ h.1, λ b. omega (arith, h.2 b, le), h.3, h.4)
  IsCrew-more joining a w e c i a' w' e' down h ea le ee =
      (h.0, omega (arith, h.1, ea, le), λ b. h.2 (omega (arith, b, ee)), h.3)
  IsCrew-more returned a w e c i a' w' e' down h ea le ee = (
    h.0,
    omega (arith, h.1, ea, le),
    λ b. h.2 (omega (arith, b, ee)),
    h.3,
    omega (arith, h.1, h.4, ea, le),
  )
