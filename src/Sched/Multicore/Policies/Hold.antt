-- ===== src/Sched/Multicore/Policies/Hold.antt =====
-- Both policies keep what they are given: no process is lost or duplicated by a queue.
use cp.Common.{
  ℕ, zero, suc, ◌+◌, ◌≤◌, ◌<◌, ◌≡◌, ◌≢◌, refl, ap, arith, Option, List, [], ◌∷◌, ◌++◌, occurs,
  occurs-append,
}
use cp.Sched.Multicore.{max_cpus, update}
use cp.Sched.Multicore.Laws.{IsPolicy, given}
use cp.Sched.Multicore.Policies.{
  sqms_add_process, sqms_get_next_process, sqms, Queues, mqms_add_process, take_first,
  mqms_get_next_process, mqms_steal_work, or_steal, mqms_next_process, mqms,
}
use cp.Sched.Multicore.Policies.Steal.{Stolen, idle, stole, mqms_steal_work-Stolen}

held-sqms_next :
    (j : ℕ) (q : List ℕ)
    → occurs j (sqms_get_next_process q).0 + given j (sqms_get_next_process q).1 ≡ occurs j q
unfolding sqms_get_next_process
held-sqms_next j [] = omega arith
held-sqms_next j (x ∷ q) = omega arith

-- `held` for the single queue is `occurs`.
pub sqms-IsPolicy : IsPolicy sqms occurs
unfolding sqms_add_process
sqms-IsPolicy = record {
  held-none = λ j. refl;
  held-add = λ j cpu i q h. omega (arith, occurs-append j q (i ∷ []));
  held-next = λ j cpu q h. held-sqms_next j q;
}

-- How often a process stands in the queues of all the CPUs.
abbrev pub occurs_in : ℕ → Queues → ℕ
occurs_in j q = occurs j (q 0) + occurs j (q 1) + occurs j (q 2) + occurs j (q 3)

-- One queue changes.
occurs_in_changed :
    (j t : ℕ) (q q' : Queues)
    → t < max_cpus
    → ((c : ℕ) → c ≢ t → q' c ≡ q c)
    → occurs_in j q' + occurs j (q t) ≡ occurs_in j q + occurs j (q' t)
occurs_in_changed j zero q q' h same =
    rw (same 1 (omega arith), same 2 (omega arith), same 3 (omega arith)) (omega arith)
occurs_in_changed j (suc zero) q q' h same =
    rw (same 0 (omega arith), same 2 (omega arith), same 3 (omega arith)) (omega arith)
occurs_in_changed j (suc (suc zero)) q q' h same =
    rw (same 0 (omega arith), same 1 (omega arith), same 3 (omega arith)) (omega arith)
occurs_in_changed j (suc (suc (suc zero))) q q' h same =
    rw (same 0 (omega arith), same 1 (omega arith), same 2 (omega arith)) (omega arith)
occurs_in_changed j (suc (suc (suc (suc k)))) q q' h same = absurd (omega (arith, h))

occurs_in-update :
    (j c : ℕ) (q : Queues) (l : List ℕ)
    → c < max_cpus
    → occurs_in j (update q c l) + occurs j (q c) ≡ occurs_in j q + occurs j l
occurs_in-update j c q l h =
    let self : update q c l c ≡ l = ground arith in
    omega (
      arith,
      occurs_in_changed j c q (update q c l) h (λ d ne. ground (arith, ne)),
      ap (occurs j) self,
    )

occurs_in-Stolen :
    (j cpu_id : ℕ) (q q' : Queues) (o : Option ℕ)
    → Stolen cpu_id q q' o
    → occurs_in j q' + given j o ≡ occurs_in j q
occurs_in-Stolen j cpu_id q q' o (idle h) = omega arith
occurs_in-Stolen j cpu_id q q' o (stole target i _ lt ne two long last same) = omega (
  arith,
  occurs_in_changed j target q q' lt same,
  ap (occurs j) last,
  occurs-append j (q' target) (i ∷ []),
)

occurs_in-take_first :
    (j cpu_id : ℕ) (q : Queues) (l : List ℕ)
    → cpu_id < max_cpus
    → q cpu_id ≡ l
    → occurs_in j (or_steal cpu_id (take_first cpu_id q l)).0
        + given j (or_steal cpu_id (take_first cpu_id q l)).1
      ≡ occurs_in j q
occurs_in-take_first j cpu_id q [] h e =
    occurs_in-Stolen j cpu_id q (mqms_steal_work cpu_id q).0 (mqms_steal_work cpu_id q).1
      (mqms_steal_work-Stolen cpu_id q)
occurs_in-take_first j cpu_id q (x ∷ l) h e =
    omega (arith, occurs_in-update j cpu_id q l h, ap (occurs j) e)

pub mqms-IsPolicy : IsPolicy mqms occurs_in
unfolding mqms_add_process mqms_next_process mqms_get_next_process
mqms-IsPolicy = record {
  held-none = λ j. omega arith;
  held-add = λ j cpu i q h.
      omega
        (arith, occurs_in-update j cpu q (q cpu ++ (i ∷ [])) h, occurs-append j (q cpu) (i ∷ []));
  held-next = λ j cpu q h. occurs_in-take_first j cpu q (q cpu) h refl;
}

pub occurs-le-occurs_in : (j c : ℕ) (q : Queues) → c < max_cpus → occurs j (q c) ≤ occurs_in j q
occurs-le-occurs_in j zero q h = omega arith
occurs-le-occurs_in j (suc zero) q h = omega arith
occurs-le-occurs_in j (suc (suc zero)) q h = omega arith
occurs-le-occurs_in j (suc (suc (suc zero))) q h = omega arith
occurs-le-occurs_in j (suc (suc (suc (suc k)))) q h = absurd (omega (arith, h))
