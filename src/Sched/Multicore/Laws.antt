-- ===== src/Sched/Multicore/Laws.antt =====
-- What a policy promises, and what the simulations then keep: no process is lost or run twice.
use cp.Common.{
  ℕ, zero, suc, ◌+◌, ◌-◌, ◌≤◌, ◌<◌, ◌≡◌, ◌≢◌, refl, ap, subst, inl, inr, arith, true, false, ltb,
  ◌==◌, if◌then◌else◌, Bool-cases, Option, none, some, List, [], ◌∷◌, length, total, length-set,
  total-set, get_or-set_self, get_or-set_ne, get_or-set, set, get_or, ℕ_discrete,
}
use cp.Sched.Multicore.{
  Process, Policy, Cpu, State, max_cpus, update, no_process, simulate_cache_effects, run_unit,
  process_at, put_back, set_up, dispatch, continue_with, cpu_body, run_cpu, run_cpus, tick, goes_on,
  sim_loop,
}

-- 1 if process `j` is the one given.
abbrev pub given : ℕ → Option ℕ → ℕ
given j none = 0
given j (some i) = if j == i then 1 else 0

-- The queues hold every process that was added and not taken, as often; `held` counts.
pub record IsPolicy {Q : Type 0} (P : Policy Q) (held : ℕ → Q → ℕ) : Type 0 where
  pub held-none : (j : ℕ) → held j P.none_queued ≡ 0
  pub held-add :
      (j cpu i : ℕ) (q : Q)
      → cpu < max_cpus
      → held j (P.add_process cpu i q) ≡ held j q + given j (some i)
  pub held-next :
      (j cpu : ℕ) (q : Q)
      → cpu < max_cpus
      → held j (P.next_process cpu q).0 + given j (P.next_process cpu q).1 ≡ held j q

abbrev pub current : (ℕ → Cpu) → ℕ → Option ℕ
current cpus c = (cpus c).current_proc

-- On how many CPUs process `j` runs.
abbrev pub running : ℕ → (ℕ → Cpu) → ℕ
running j cpus =
    given j (current cpus 0)
    + given j (current cpus 1)
    + given j (current cpus 2)
    + given j (current cpus 3)

running-update :
    (j cpu : ℕ) (cpus : ℕ → Cpu) (c : Cpu)
    → cpu < max_cpus
    → running j (update cpus cpu c) + given j (current cpus cpu)
      ≡ running j cpus + given j c.current_proc
running-update j zero cpus c h = omega arith
running-update j (suc zero) cpus c h = omega arith
running-update j (suc (suc zero)) cpus c h = omega arith
running-update j (suc (suc (suc zero))) cpus c h = omega arith
running-update j (suc (suc (suc (suc k)))) cpus c h = absurd (omega arith)

pub given-le-running :
    (j cpu : ℕ) (cpus : ℕ → Cpu) → cpu < max_cpus → given j (current cpus cpu) ≤ running j cpus
given-le-running j zero cpus h = omega arith
given-le-running j (suc zero) cpus h = omega arith
given-le-running j (suc (suc zero)) cpus h = omega arith
given-le-running j (suc (suc (suc zero))) cpus h = omega arith
given-le-running j (suc (suc (suc (suc k)))) cpus h = absurd (omega arith)

abbrev pub unfinished : Process → ℕ
unfinished p = if p.remaining_time == 0 then 0 else 1

abbrev at : List Process → ℕ → Process
at ps j = get_or ps j no_process

pub at-beyond : (ps : List Process) (i : ℕ) → 0 < unfinished (at ps i) → i < length ps
at-beyond [] i h = absurd (omega arith)
at-beyond (p ∷ ps) zero h = omega arith
at-beyond (p ∷ ps) (suc i) h = omega (arith, at-beyond ps i h)

at-set :
    (ps : List Process) (i j : ℕ) (v : Process)
    → i < length ps
    → unfinished (at (set ps i v) j) ≡ (if i == j then unfinished v else unfinished (at ps j))
at-set ps i j v h = ground (arith, get_or-set ps i j v no_process)

at-set_same :
    (ps : List Process) (i j : ℕ) (v : Process)
    → i < length ps
    → unfinished v ≡ unfinished (at ps i)
    → unfinished (at (set ps i v) j) ≡ unfinished (at ps j)
at-set_same ps i j v h e = elim (ℕ_discrete i j) [
  | yes g ↦
      subst (λ k. unfinished (at (set ps i v) k) ≡ unfinished (at ps k)) g
        (rw (get_or-set_self ps i v no_process h) e)
  | no g ↦ ap unfinished (get_or-set_ne ps i j v no_process g)
]

total-set_same :
    (ps : List Process) (i : ℕ) (v : Process)
    → i < length ps
    → unfinished v ≡ unfinished (at ps i)
    → total unfinished (set ps i v) ≡ total unfinished ps
total-set_same ps i v h e = omega (arith, total-set unfinished ps i v no_process h, e)

module _ {Q : Type 0} (P : Policy Q) (held : ℕ → Q → ℕ) (law : IsPolicy P held) where
  -- Every process that is not completed is in one queue or on one CPU, once, and no other is; and
  -- `completed` counts the completed ones.
  pub record Inv (s : State Q) : Type 0 where
    pub placed : (j : ℕ) → held j s.queue + running j s.cpus ≡ unfinished (process_at P s j)
    pub counted : s.completed + total unfinished s.procs ≡ length s.procs

  -- A process on a CPU is not completed.
  pub current-alive :
      (cpu i : ℕ) (s : State Q)
      → cpu < max_cpus
      → Inv s
      → current s.cpus cpu ≡ some i
      → (unfinished (process_at P s i) ≡ 1) × (held i s.queue ≡ 0) × (i < length s.procs)
  current-alive cpu i s h inv e =
      let l : given i (some i) ≤ running i s.cpus =
        subst (λ c. given i c ≤ running i s.cpus) e (given-le-running i cpu s.cpus h) in
      let alive : unfinished (process_at P s i) ≡ 1 = ground (arith, l, inv.placed i) in
      (alive, ground (arith, l, inv.placed i), at-beyond s.procs i (omega (arith, alive)))

  -- What holds when the current process is put back: it is counted on the CPU still.
  record IsBack (cpu : ℕ) (s : State Q) : Type 0 where
    placed :
        (j : ℕ)
        → held j s.queue + running j s.cpus
          ≡ unfinished (process_at P s j) + given j (current s.cpus cpu)
    counted : s.completed + total unfinished s.procs ≡ length s.procs

  IsBack-put_back :
      (cpu : ℕ) (s : State Q) (o : Option ℕ)
      → cpu < max_cpus
      → Inv s
      → current s.cpus cpu ≡ o
      → IsBack cpu (put_back P cpu s o)
  IsBack-put_back cpu s none h inv e = record {
    placed = λ j. rw e (omega (arith, inv.placed j));
    counted = inv.counted;
  }
  IsBack-put_back cpu s (some i) h inv e =
      let alive = current-alive cpu i s h inv e in
      let positive : ltb 0 (process_at P s i).remaining_time ≡ true = ground (arith, alive.0) in
      rw positive (record {
        placed = λ j. rw e (omega (arith, inv.placed j, law.held-add j cpu i s.queue h));
        counted = inv.counted;
      })

  Inv-set_up :
      (cpu : ℕ) (s : State Q) (q : Q) (o : Option ℕ)
      → cpu < max_cpus
      → IsBack cpu s
      → ((j : ℕ) → held j q + given j o ≡ held j s.queue)
      → Inv (set_up P cpu (record s { queue = q }) o)
  Inv-set_up cpu s q none h b e = record {
    placed = λ j.
        let c : Cpu = record (s.cpus cpu) { current_proc = none } in
        omega (arith, running-update j cpu s.cpus c h, b.placed j, e j);
    counted = b.counted;
  }
  Inv-set_up cpu s q (some i) h b e =
      let p = simulate_cache_effects cpu (at s.procs i) in
      let c : Cpu = record { current_proc = some i; time_slice = 5 } in
      let below = given-le-running i cpu s.cpus h in
      let alive : 0 < unfinished (at s.procs i) = ground (arith, below, b.placed i, e i) in
      let i' : i < length s.procs = at-beyond s.procs i alive in
      record {
        placed = λ j. omega (
          arith,
          running-update j cpu s.cpus c h,
          b.placed j,
          e j,
          at-set_same s.procs i j p i' refl,
        );
        counted =
            omega (arith, b.counted, total-set_same s.procs i p i' refl, length-set s.procs i p);
      }

  Inv-dispatch : (cpu : ℕ) (s : State Q) → cpu < max_cpus → Inv s → Inv (dispatch P cpu s)
  unfolding dispatch
  Inv-dispatch cpu s h inv =
      let t = put_back P cpu s (current s.cpus cpu) in
      Inv-set_up cpu t (P.next_process cpu t.queue).0 (P.next_process cpu t.queue).1 h
        (IsBack-put_back cpu s (current s.cpus cpu) h inv refl) (λ j. law.held-next j cpu t.queue h)

  -- The current process `i` is written, and its CPU keeps it (`o`) if it is not completed.
  record Wrote (i : ℕ) (v : Process) (o : Option ℕ) (before after : ℕ) : Type 0 where
    keeps : unfinished v ≡ given i o
    others : (j : ℕ) → i ≢ j → given j o ≡ 0
    counts : after + unfinished v ≡ before + 1

  Inv-write :
      (cpu i : ℕ) (s : State Q) (v : Process) (c : Cpu) (n : ℕ)
      → cpu < max_cpus
      → Inv s
      → current s.cpus cpu ≡ some i
      → Wrote i v c.current_proc s.completed n
      → Inv (record s { procs = set s.procs i v; cpus = update s.cpus cpu c; completed = n })
  Inv-write cpu i s v c n h inv e w =
      let alive = current-alive cpu i s h inv e in
      let same : (j : ℕ) → given j (current s.cpus cpu) ≡ given j (some i) = λ j. rw e refl in
      let move = total-set unfinished s.procs i v no_process alive.2 in
      record {
        placed = λ j.
            let run = running-update j cpu s.cpus c h in
            elim (ℕ_discrete i j) [
              | yes g ↦
                  let old = subst (λ k. unfinished (at s.procs k) ≡ 1) g alive.0 in
                  let new = subst (λ k. unfinished v ≡ given k c.current_proc) g w.keeps in
                  let moved =
                    subst (λ k. unfinished (at (set s.procs i v) k) ≡ unfinished v) g
                      (ap unfinished (get_or-set_self s.procs i v no_process alive.2)) in
                  let one : given j (some i) ≡ 1 = ground (arith, g) in
                  omega (arith, run, same j, inv.placed j, old, new, moved, one)
              | no g ↦
                  let moved = ap unfinished (get_or-set_ne s.procs i j v no_process g) in
                  let gone : given j (some i) ≡ 0 = ground (arith, g) in
                  omega (arith, run, same j, inv.placed j, moved, gone, w.others j g)
            ];
        counted = omega (arith, move, inv.counted, alive.0, w.counts, length-set s.procs i v);
      }

  Wrote-run_unit :
      (i : ℕ) (p : Process) (time n : ℕ)
      → Wrote i
          (run_unit time p)
          (if p.remaining_time - 1 == 0 then none else some i)
          n
          (if p.remaining_time - 1 == 0 then n + 1 else n)
  Wrote-run_unit i p time n = elim (Bool-cases (p.remaining_time - 1 == 0)) [
    | inl o ↦
        rw o
          (record { keeps = ground (arith, o); others = λ j ne. refl; counts = ground (arith, o) })
    | inr o ↦ rw o (record {
      keeps = ground (arith, o);
      others = λ j ne. ground arith;
      counts = ground (arith, o);
    })
  ]

  Inv-continue_with :
      (cpu i : ℕ) (s : State Q)
      → cpu < max_cpus
      → Inv s
      → current s.cpus cpu ≡ some i
      → Inv (continue_with P cpu i s)
  unfolding continue_with
  Inv-continue_with cpu i s h inv e =
      let p = at s.procs i in
      let o = p.remaining_time - 1 == 0 in
      let c : Cpu = record {
        current_proc = if o then none else some i;
        time_slice = (s.cpus cpu).time_slice - 1;
      } in
      Inv-write cpu i s (run_unit s.time p) c (if o then s.completed + 1 else s.completed) h inv e
        (Wrote-run_unit i p s.time s.completed)

  pub Inv-cpu_body :
      (cpu : ℕ) (s : State Q) (o : Option ℕ)
      → cpu < max_cpus
      → Inv s
      → current s.cpus cpu ≡ o
      → Inv (cpu_body P cpu s o)
  Inv-cpu_body cpu s none h inv e = Inv-dispatch cpu s h inv
  Inv-cpu_body cpu s (some i) h inv e = elim (Bool-cases ((s.cpus cpu).time_slice == 0)) [
    | inl o ↦ rw o (Inv-dispatch cpu s h inv)
    | inr o ↦ rw o (Inv-continue_with cpu i s h inv e)
  ]

  Inv-run_cpus :
      (left cpu : ℕ) (s : State Q) → left + cpu ≤ max_cpus → Inv s → Inv (run_cpus P left cpu s)
  unfolding run_cpus run_cpu
  Inv-run_cpus zero cpu s h inv = inv
  Inv-run_cpus (suc left) cpu s h inv =
      let here : Inv (run_cpu P cpu s) =
        Inv-cpu_body cpu s (current s.cpus cpu) (omega (arith, h)) inv refl in
      Inv-run_cpus left (cpu + 1) (run_cpu P cpu s) (omega (arith, h)) here

  pub Inv-tick : (s : State Q) → Inv s → Inv (tick P s)
  unfolding tick
  Inv-tick s inv =
      let t = Inv-run_cpus max_cpus 0 s (omega arith) inv in
      record { placed = t.placed; counted = t.counted }

  pub Inv-sim_loop : (fuel : ℕ) (s : State Q) → Inv s → Inv (sim_loop P fuel s)
  unfolding sim_loop
  Inv-sim_loop zero s inv = inv
  Inv-sim_loop (suc fuel) s inv =
      elim (goes_on P s) as (λ b. Inv (elim b [ true ↦ sim_loop P fuel (tick P s) | false ↦ s ])) [
        | true ↦ Inv-sim_loop fuel (tick P s) (Inv-tick s inv)
        | false ↦ inv
      ]
