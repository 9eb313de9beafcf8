-- ===== src/Sync/ThreadPool/Invariant.antt =====
-- What holds whenever the threads of the pool run: the queue keeps the tasks in order, each task that
-- was taken is executed once, and no wake-up is lost.
use cp.Common.{
  append_assoc, ℕ, zero, suc, ◌+◌, ◌-◌, ◌%◌, ◌≤◌, ◌<◌, ◌≡◌, ◌≢◌, refl, sym, ap, ◌∙◌, arith, Bool,
  true, false, ◌==◌, if◌then◌else◌, List, [], ◌∷◌, ◌++◌, map, length, total, length-set, occurs,
  set, get_or,
}
use cp.Common.Ring.{entries, entries-put}
use cp.Sync.ThreadPool.{
  task_function, Task, Program, Worker, ready, waiting, executing, exited, Main, running, blocked,
  joining, returned, State, no_task,
}
use native.Mathlib.Nat.{mod-lt, mod-add-mod}

-- The tasks that `main` adds, the first `n` of them.
abbrev pub tasks_to : ℕ → List Task
tasks_to zero = []
tasks_to (suc n) = tasks_to n ++ (record { task_id = n; function = task_function } ∷ [])

-- The tasks that were taken, and then those in the queue, are the first `i`.
pub record Queue (size : ℕ) (q : List Task) (head tail count : ℕ) (taken : List Task) (i : ℕ)
    : Type 0 where
  pub as_long : length q ≡ size
  pub head_below : head < size
  pub fits : count ≤ size
  pub tail_after : tail ≡ (head + count) % size
  pub fifo : taken ++ entries size no_task count head q ≡ tasks_to i

pub Queue-put :
    (size : ℕ) (q : List Task) (head tail count : ℕ) (taken : List Task) (i : ℕ)
    → Queue size q head tail count taken i
    → count ≢ size
    → Queue size
        (set q tail (record { task_id = i; function = task_function }))
        head
        ((tail + 1) % size)
        (count + 1)
        taken
        (i + 1)
Queue-put size q head tail count taken i r ne =
    let task : Task = record { task_id = i; function = task_function } in
    let lt : count < size = omega (arith, r.fits, ne) in
    let one : count + 1 ≡ suc count = omega arith in
    let next : i + 1 ≡ suc i = omega arith in
    record {
      as_long = length-set q tail task ∙ r.as_long;
      head_below = r.head_below;
      fits = omega (arith, lt);
      tail_after =
          ap (λ t. (t + 1) % size) r.tail_after
          ∙ mod-add-mod (head + count) size 1
          ∙ ap (λ x. x % size) (omega arith);
      fifo =
          rw (one, next, r.tail_after)
            (ap (λ l. taken ++ l)
                (entries-put size no_task count head task q r.head_below lt r.as_long)
              ∙ sym (append_assoc taken (entries size no_task count head q) (task ∷ []))
              ∙ ap (λ l. l ++ (task ∷ [])) r.fifo);
    }

pub Queue-take :
    (size : ℕ) (q : List Task) (head tail count : ℕ) (taken : List Task) (i : ℕ)
    → Queue size q head tail count taken i
    → count ≢ 0
    → Queue size q ((head + 1) % size) tail (count - 1) (taken ++ (get_or q head no_task ∷ [])) i
Queue-take size q head tail count taken i r ne =
    let n = count - 1 in
    let e : count ≡ suc n = omega (arith, ne) in
    record {
      as_long = r.as_long;
      head_below = mod-lt (head + 1) (omega (arith, r.head_below));
      fits = omega (arith, r.fits);
      tail_after =
          r.tail_after
          ∙ ap (λ x. x % size) (omega (arith, ne))
          ∙ sym (mod-add-mod (head + 1) size n);
      fifo =
          append_assoc taken (get_or q head no_task ∷ [])
            (entries size no_task n ((head + 1) % size) q)
          ∙ ap (λ k. taken ++ entries size no_task k head q) (sym e)
          ∙ r.fifo;
    }

-- How many are ready or execute, wait, and have exited.
abbrev pub active_weight : Worker → ℕ
active_weight ready = 1
active_weight waiting = 0
active_weight (executing t) = 1
active_weight exited = 0

abbrev pub waiting_weight : Worker → ℕ
waiting_weight ready = 0
waiting_weight waiting = 1
waiting_weight (executing t) = 0
waiting_weight exited = 0

abbrev pub exited_weight : Worker → ℕ
exited_weight ready = 0
exited_weight waiting = 0
exited_weight (executing t) = 0
exited_weight exited = 1

abbrev pub num_active : List Worker → ℕ
num_active ws = total active_weight ws

abbrev pub num_waiting : List Worker → ℕ
num_waiting ws = total waiting_weight ws

abbrev pub num_exited : List Worker → ℕ
num_exited ws = total exited_weight ws

pub all_counted : (ws : List Worker) → num_active ws + num_waiting ws + num_exited ws ≡ length ws
all_counted [] = refl
all_counted (ready ∷ ws) = omega (arith, all_counted ws)
all_counted (waiting ∷ ws) = omega (arith, all_counted ws)
all_counted (executing t ∷ ws) = omega (arith, all_counted ws)
all_counted (exited ∷ ws) = omega (arith, all_counted ws)

-- With `a` active workers, `w` that wait, `e` that have exited, and `c` tasks in the queue. While the
-- pool is up, there is an active worker if there is a task; after the shutdown none waits.
abbrev pub IsCrew : Program → Main → (a w e c i : ℕ) → Bool → Type 0
IsCrew p running a w e c i down = (down ≡ false) × (e ≡ 0) × (0 < c → 0 < a) × (i ≤ p.num_tasks)
IsCrew p blocked a w e c i down =
    (down ≡ false) × (e ≡ 0) × (0 < c → 0 < a) × (i ≤ p.num_tasks) × (c ≡ p.queue_size)
IsCrew p joining a w e c i down = (down ≡ true) × (w ≡ 0) × (0 < e → c ≡ 0) × (i ≡ p.num_tasks)
IsCrew p returned a w e c i down =
    (down ≡ true) × (w ≡ 0) × (0 < e → c ≡ 0) × (i ≡ p.num_tasks) × (a ≡ 0)

-- The calls of task_function and those that are under way, for each id.
abbrev pub executing_weight : ℕ → Worker → ℕ
executing_weight j ready = 0
executing_weight j waiting = 0
executing_weight j (executing t) = if j == t.task_id then 1 else 0
executing_weight j exited = 0

abbrev pub ids : List Task → List ℕ
ids ts = map (λ t. t.task_id) ts

abbrev pub IsCalled : List Worker → List Task → List ℕ → Type 0
IsCalled ws taken executed =
    (j : ℕ) → occurs j executed + total (executing_weight j) ws ≡ occurs j (ids taken)

pub record Inv (p : Program) (s : State) : Type 0 where
  pub queue : Queue p.queue_size s.task_queue s.head s.tail s.count s.taken s.i
  pub crew :
      IsCrew p s.main
        (num_active s.workers)
        (num_waiting s.workers)
        (num_exited s.workers)
        s.count
        s.i
        s.shutdown
  pub called : IsCalled s.workers s.taken s.executed
  pub as_many : length s.workers ≡ p.num_threads
