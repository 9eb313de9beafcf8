-- ===== src/Sync/ResourcePool/Runs.antt =====
-- The semaphore counts the resources that are left, and every worker gets one.
use cp.Common.{
  length-replicate, total-replicate, get_or-fits, ℕ, ◌+◌, ◌-◌, ◌<◌, ◌≡◌, refl, ap, ◌∙◌, inl, inr,
  arith, false, ltb, Bool-cases, List, [], ◌∷◌, ◌++◌, length, total, All, All-append, length-set,
  total-set, get_or-le-total, get_or,
}
use cp.Sync.ResourcePool.{
  Program, Worker, before_wait, acquired, working, released, returned, State, move, worker_at,
  worker, run, start, can_run,
}

-- A worker that holds a resource.
abbrev pub using : Worker → ℕ
using before_wait = 0
using acquired = 1
using working = 1
using released = 0
using returned = 0

-- Positive before a worker has returned.
abbrev active : Worker → ℕ
active before_wait = 1
active acquired = 1
active working = 1
active released = 1
active returned = 0

record Inv (p : Program) (s : State) : Type 0 where
  counted : s.resource_pool + total using s.workers ≡ p.resource_limit
  printed : All (λ v. v < p.resource_limit) s.available
  as_many : length s.workers ≡ p.num_threads

abbrev at : State → ℕ → Worker
at s k = get_or s.workers k returned

Inv-move :
    (p : Program) (k : ℕ) (w : Worker) (c : ℕ) (ns ms : List ℕ) (s : State)
    → Inv p s
    → 0 < active (at s k)
    → c + using w ≡ s.resource_pool + using (at s k)
    → All (λ v. v < p.resource_limit) ns
    → Inv p (move k w (record s { resource_pool = c; available = ns; after_release = ms }))
Inv-move p k w c ns ms s inv here e h = record {
  counted = omega (
    arith,
    inv.counted,
    e,
    total-set using s.workers k w returned (get_or-fits active s.workers k returned refl here),
  );
  printed = h;
  as_many = length-set s.workers k w ∙ inv.as_many;
}

Inv-worker_at :
    (p : Program) (k : ℕ) (w : Worker) (s : State) → Inv p s → at s k ≡ w → Inv p (worker_at k w s)
unfolding worker_at
Inv-worker_at p k before_wait s inv is = elim (Bool-cases (ltb 0 s.resource_pool)) [
  | inl o ↦ rw o (
      Inv-move p k acquired (s.resource_pool - 1) s.available s.after_release s inv
        (omega (arith, ap active is)) (ground (arith, o, ap using is)) inv.printed)
  | inr o ↦ rw o inv
]
Inv-worker_at p k acquired s inv is =
    let lt = get_or-fits active s.workers k returned refl (omega (arith, ap active is)) in
    let one = get_or-le-total using s.workers k returned lt in
    Inv-move p k working s.resource_pool (s.available ++ (s.resource_pool ∷ [])) s.after_release s
      inv (omega (arith, ap active is)) (omega (arith, ap using is))
      (All-append (λ v. v < p.resource_limit) s.available (s.resource_pool ∷ []) inv.printed
        (omega (arith, inv.counted, one, ap using is), tt))
Inv-worker_at p k working s inv is =
    Inv-move p k released (s.resource_pool + 1) s.available s.after_release s inv
      (omega (arith, ap active is)) (omega (arith, ap using is)) inv.printed
Inv-worker_at p k released s inv is =
    Inv-move p k returned s.resource_pool s.available (s.after_release ++ (s.resource_pool ∷ [])) s
      inv (omega (arith, ap active is)) (omega (arith, ap using is)) inv.printed
Inv-worker_at p k returned s inv is = inv

Inv-run : (p : Program) (ks : List ℕ) (s : State) → Inv p s → Inv p (run ks s)
unfolding run worker
Inv-run p [] s inv = inv
Inv-run p (k ∷ ks) s inv = Inv-run p ks (worker k s) (Inv-worker_at p k (at s k) s inv refl)

Inv-reached : (p : Program) (ks : List ℕ) → Inv p (run ks (start p))
Inv-reached p ks = Inv-run p ks (start p) (record {
  counted = omega (arith, total-replicate using p.num_threads before_wait refl);
  printed = tt;
  as_many = length-replicate p.num_threads before_wait;
})

idle : (s : State) (ws : List Worker) → All (λ w. can_run s w ≡ false) ws → total using ws ≡ 0
idle s [] h = refl
idle s (before_wait ∷ ws) h = omega (arith, idle s ws h.1)
idle s (acquired ∷ ws) h = absurd (cc h.0)
idle s (working ∷ ws) h = absurd (cc h.0)
idle s (released ∷ ws) h = absurd (cc h.0)
idle s (returned ∷ ws) h = omega (arith, idle s ws h.1)

all_returned :
    (s : State) (ws : List Worker)
    → 0 < s.resource_pool
    → All (λ w. can_run s w ≡ false) ws
    → All (λ w. w ≡ returned) ws
all_returned s [] pos h = tt
all_returned s (before_wait ∷ ws) pos h = absurd (ground (arith, h.0, pos))
all_returned s (acquired ∷ ws) pos h = absurd (cc h.0)
all_returned s (working ∷ ws) pos h = absurd (cc h.0)
all_returned s (released ∷ ws) pos h = absurd (cc h.0)
all_returned s (returned ∷ ws) pos h = (refl, all_returned s ws pos h.1)

-- For any number of threads and of resources: in every state that a run reaches, the semaphore and the
-- threads that hold a resource are together the limit, and every count that a thread has printed while
-- it held one was below the limit.
pub resource_pool_limit :
    (p : Program) (ks : List ℕ)
    → let s = run ks (start p) in
      (s.resource_pool + total using s.workers ≡ p.resource_limit)
      × All (λ v. v < p.resource_limit) s.available
resource_pool_limit p ks = let inv = Inv-reached p ks in (inv.counted, inv.printed)

-- If there is a resource: when no thread can take a step, every thread has had one and has returned, and
-- the semaphore is back at the limit.
pub resource_pool_all_served :
    (p : Program) (ks : List ℕ)
    → 0 < p.resource_limit
    → (let s = run ks (start p) in All (λ w. can_run s w ≡ false) s.workers)
    → let s = run ks (start p) in
      All (λ w. w ≡ returned) s.workers × (s.resource_pool ≡ p.resource_limit)
resource_pool_all_served p ks pos h =
    let s = run ks (start p) in
    let inv = Inv-reached p ks in
    let full : s.resource_pool ≡ p.resource_limit =
      omega (arith, inv.counted, idle s s.workers h) in
    (all_returned s s.workers (omega (arith, full, pos)) h, full)
