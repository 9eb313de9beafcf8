-- ===== src/Sync/ThreadPool/Woken.antt =====
-- What pthread_cond_signal and pthread_cond_broadcast change of the workers of the pool.
use cp.Common.{
  ℕ, zero, suc, ◌+◌, ◌≤◌, ◌<◌, ◌≡◌, refl, ap, inl, inr, arith, true, Bool-cases, List, [], ◌∷◌,
  length, total, set, get_or,
}
use cp.Sync.ThreadPool.{
  Worker, ready, waiting, executing, exited, is_waiting, wake, wake_first, signal, broadcast,
}
use cp.Sync.ThreadPool.Invariant.{num_active, num_waiting, num_exited, executing_weight}

-- Some workers that waited are ready, and the others are as they were.
pub record Woken (ws ws' : List Worker) : Type 0 where
  pub asleep : num_active ws' + num_waiting ws' ≡ num_active ws + num_waiting ws
  pub active : num_active ws ≤ num_active ws'
  pub gone : num_exited ws' ≡ num_exited ws
  pub calls : (j : ℕ) → total (executing_weight j) ws' ≡ total (executing_weight j) ws
  pub same : length ws' ≡ length ws

pub Woken-refl : (ws : List Worker) → Woken ws ws
Woken-refl ws = record {
  asleep = refl;
  active = omega arith;
  gone = refl;
  calls = λ j. refl;
  same = refl;
}

Woken-keep : (w : Worker) (ws ws' : List Worker) → Woken ws ws' → Woken (w ∷ ws) (w ∷ ws')
Woken-keep w ws ws' h = record {
  asleep = omega (arith, h.asleep);
  active = omega (arith, h.active);
  gone = omega (arith, h.gone);
  calls = λ j. omega (arith, h.calls j);
  same = ap suc h.same;
}

Woken-up : (ws ws' : List Worker) → Woken ws ws' → Woken (waiting ∷ ws) (ready ∷ ws')
Woken-up ws ws' h = record {
  asleep = omega (arith, h.asleep);
  active = omega (arith, h.active);
  gone = omega (arith, h.gone);
  calls = λ j. omega (arith, h.calls j);
  same = ap suc h.same;
}

Woken-wake : (w : Worker) (ws ws' : List Worker) → Woken ws ws' → Woken (w ∷ ws) (wake w ∷ ws')
Woken-wake ready ws ws' h = Woken-keep ready ws ws' h
Woken-wake waiting ws ws' h = Woken-up ws ws' h
Woken-wake (executing t) ws ws' h = Woken-keep (executing t) ws ws' h
Woken-wake exited ws ws' h = Woken-keep exited ws ws' h

pub Woken-set : (ws : List Worker) (k : ℕ) → Woken ws (set ws k (wake (get_or ws k exited)))
Woken-set [] k = Woken-refl []
Woken-set (w ∷ ws) zero = Woken-wake w ws ws (Woken-refl ws)
Woken-set (w ∷ ws) (suc k) = Woken-keep w ws (set ws k (wake (get_or ws k exited))) (Woken-set ws k)

pub Woken-broadcast : (ws : List Worker) → Woken ws (broadcast ws)
Woken-broadcast [] = Woken-refl []
Woken-broadcast (w ∷ ws) = Woken-wake w ws (broadcast ws) (Woken-broadcast ws)

Woken-wake_first : (ws : List Worker) → Woken ws (wake_first ws)
Woken-wake_first [] = Woken-refl []
Woken-wake_first (ready ∷ ws) = Woken-keep ready ws (wake_first ws) (Woken-wake_first ws)
Woken-wake_first (waiting ∷ ws) = Woken-up ws ws (Woken-refl ws)
Woken-wake_first (executing t ∷ ws) =
    Woken-keep (executing t) ws (wake_first ws) (Woken-wake_first ws)
Woken-wake_first (exited ∷ ws) = Woken-keep exited ws (wake_first ws) (Woken-wake_first ws)

pub Woken-signal : (k : ℕ) (ws : List Worker) → Woken ws (signal k ws)
Woken-signal k ws = elim (Bool-cases (is_waiting (get_or ws k exited))) [
  | inl o ↦
      let up : wake (get_or ws k exited) ≡ ready = rw o refl in rw o (rw up at (Woken-set ws k))
  | inr o ↦ rw o (Woken-wake_first ws)
]

wake_first-active : (ws : List Worker) → 0 < num_waiting ws → 0 < num_active (wake_first ws)
wake_first-active [] h = absurd (omega (arith, h))
wake_first-active (ready ∷ ws) h = omega arith
wake_first-active (waiting ∷ ws) h = omega arith
wake_first-active (executing t ∷ ws) h = omega arith
wake_first-active (exited ∷ ws) h = omega (arith, wake_first-active ws (omega (arith, h)))

set-active :
    (ws : List Worker) (k : ℕ)
    → is_waiting (get_or ws k exited) ≡ true
    → 0 < num_active (set ws k ready)
set-active [] k h = absurd (cc h)
set-active (w ∷ ws) zero h = omega arith
set-active (w ∷ ws) (suc k) h = omega (arith, set-active ws k h)

-- A signal makes a worker ready when one waits.
pub signal-active : (k : ℕ) (ws : List Worker) → 0 < num_waiting ws → 0 < num_active (signal k ws)
signal-active k ws h = elim (Bool-cases (is_waiting (get_or ws k exited))) [
  | inl o ↦ rw o (set-active ws k o)
  | inr o ↦ rw o (wake_first-active ws h)
]

pub broadcast-waiting : (ws : List Worker) → num_waiting (broadcast ws) ≡ 0
broadcast-waiting [] = refl
broadcast-waiting (ready ∷ ws) = omega (arith, broadcast-waiting ws)
broadcast-waiting (waiting ∷ ws) = omega (arith, broadcast-waiting ws)
broadcast-waiting (executing t ∷ ws) = omega (arith, broadcast-waiting ws)
broadcast-waiting (exited ∷ ws) = omega (arith, broadcast-waiting ws)
