-- ===== src/Sched/Multicore/Policies/Steal.antt =====
-- `mqms_steal_work`: which queue is stolen from, and what is taken.
use cp.Common.{
  ℕ, zero, suc, ◌+◌, ◌≤◌, ◌<◌, ◌≡◌, ◌≢◌, refl, sym, ap, subst, inl, inr, arith, not, ◌&&◌, ltb,
  ◌==◌, Bool-cases, Option, none, some, some_injective, List, [], ◌∷◌, ◌++◌, length, ℕ_discrete,
}
use cp.Sched.Multicore.{max_cpus, update}
use cp.Sched.Multicore.Policies.{
  Queues, Busiest, compare_queue, find_busiest, split_last, steal_from, steal_at, mqms_steal_work,
}

-- What the search knows when it has seen the CPUs below `i`.
record IsBusiest (cpu_id : ℕ) (q : Queues) (i : ℕ) (b : Busiest) : Type 0 where
  longest : (c : ℕ) → c < i → c ≢ cpu_id → length (q c) ≤ b.max_queue_size
  nothing : b.target_cpu ≡ none → b.max_queue_size ≡ 0
  found :
      (t : ℕ) → b.target_cpu ≡ some t → (t < i) × (t ≢ cpu_id) × (length (q t) ≡ b.max_queue_size)

IsBusiest-compare :
    (cpu_id : ℕ) (q : Queues) (i : ℕ) (b : Busiest)
    → IsBusiest cpu_id q i b
    → IsBusiest cpu_id q (i + 1) (compare_queue cpu_id q i b)
IsBusiest-compare cpu_id q i b h =
    elim (Bool-cases (not (i == cpu_id) && ltb b.max_queue_size (length (q i)))) [
      | inl o ↦ rw o (record {
        longest = λ c lt ne. elim (ℕ_discrete c i) [
          | yes e ↦ rw e (omega arith)
          | no e ↦ ground (arith, o, h.longest c (omega (arith, lt, e)) ne)
        ];
        nothing = λ e. absurd (cc e);
        found =
            λ t e. let e' = some_injective e in rw (sym e') (omega arith, ground (arith, o), refl);
      })
      | inr o ↦ rw o (record {
        longest = λ c lt ne. elim (ℕ_discrete c i) [
          | yes e ↦ rw e (ground (arith, o, e, ne))
          | no e ↦ h.longest c (omega (arith, lt, e)) ne
        ];
        nothing = h.nothing;
        found = λ t e. let f = h.found t e in (omega (arith, f.0), f.1, f.2);
      })
    ]

IsBusiest-find :
    (cpu_id : ℕ) (q : Queues) (left i n : ℕ) (b : Busiest)
    → left + i ≡ n
    → IsBusiest cpu_id q i b
    → IsBusiest cpu_id q n (find_busiest cpu_id q left i b)
unfolding find_busiest
IsBusiest-find cpu_id q zero i n b e h = subst (λ k. IsBusiest cpu_id q k b) (omega (arith, e)) h
IsBusiest-find cpu_id q (suc left) i n b e h =
    IsBusiest-find cpu_id q left (i + 1) n (compare_queue cpu_id q i b) (omega (arith, e))
      (IsBusiest-compare cpu_id q i b h)

split_last-append :
    (x : ℕ) (ys : List ℕ) → (split_last x ys).0 ++ ((split_last x ys).1 ∷ []) ≡ (x ∷ ys)
split_last-append x [] = refl
split_last-append x (y ∷ ys) = ap (λ l. x ∷ l) (split_last-append y ys)

-- Nothing is stolen when no other queue holds two processes; else the last process of a longest
-- other queue is taken, and the other queues are left.
pub data Stolen (cpu_id : ℕ) (q : Queues) : Queues → Option ℕ → Type 0 where
  idle : ((c : ℕ) → c < max_cpus → c ≢ cpu_id → length (q c) ≤ 1) → Stolen cpu_id q q none
  stole :
      (target i : ℕ) (q' : Queues)
      → target < max_cpus
      → target ≢ cpu_id
      → 1 < length (q target)
      → ((c : ℕ) → c < max_cpus → c ≢ cpu_id → length (q c) ≤ length (q target))
      → q' target ++ (i ∷ []) ≡ q target
      → ((c : ℕ) → c ≢ target → q' c ≡ q c)
      → Stolen cpu_id q q' (some i)

update_self : (q : Queues) (c : ℕ) (l : List ℕ) → update q c l c ≡ l
update_self q c l = ground arith

update_ne : (q : Queues) (c d : ℕ) (l : List ℕ) → d ≢ c → update q c l d ≡ q d
update_ne q c d l h = ground (arith, h)

Stolen-steal_from :
    (cpu_id target : ℕ) (q : Queues) (l : List ℕ)
    → q target ≡ l
    → target < max_cpus
    → target ≢ cpu_id
    → 1 < length l
    → ((c : ℕ) → c < max_cpus → c ≢ cpu_id → length (q c) ≤ length l)
    → Stolen cpu_id q (steal_from target q l).0 (steal_from target q l).1
Stolen-steal_from cpu_id target q [] e lt ne two long = absurd (omega (arith, two))
Stolen-steal_from cpu_id target q (x ∷ []) e lt ne two long = absurd (omega (arith, two))
Stolen-steal_from cpu_id target q (x ∷ y ∷ rest) e lt ne two long =
    let parts = split_last x (y ∷ rest) in
    stole target parts.1 (update q target parts.0) lt ne (rw e two) (rw e long)
      (rw (update_self q target parts.0, e) (split_last-append x (y ∷ rest)))
      (λ c h. update_ne q target c parts.0 h)

Stolen-steal_at :
    (cpu_id : ℕ) (q : Queues) (m : ℕ) (o : Option ℕ)
    → IsBusiest cpu_id q max_cpus (record { target_cpu = o; max_queue_size = m })
    → Stolen cpu_id q
        (steal_at q (record { target_cpu = o; max_queue_size = m })).0
        (steal_at q (record { target_cpu = o; max_queue_size = m })).1
Stolen-steal_at cpu_id q m none h =
    idle (λ c lt ne. omega (arith, h.longest c lt ne, h.nothing refl))
Stolen-steal_at cpu_id q m (some t) h =
    let f = h.found t refl in
    elim (Bool-cases (ltb 1 m)) [
      | inl o ↦ rw o (
          Stolen-steal_from cpu_id t q (q t) refl f.0 f.1 (ground (arith, o, f.2))
            (λ c lt ne. omega (arith, h.longest c lt ne, f.2)))
      | inr o ↦ rw o (idle (λ c lt ne. ground (arith, o, h.longest c lt ne)))
    ]

-- Whatever the queues hold, `mqms_steal_work` takes nothing if no other CPU's queue holds two
-- processes; else it takes the last, most recently added, process of a longest other queue, which
-- keeps the rest in order, and changes no other queue.
pub mqms_steal_work-Stolen :
    (cpu_id : ℕ) (q : Queues)
    → Stolen cpu_id q (mqms_steal_work cpu_id q).0 (mqms_steal_work cpu_id q).1
unfolding mqms_steal_work
mqms_steal_work-Stolen cpu_id q =
    let none_yet : Busiest = record { target_cpu = none; max_queue_size = 0 } in
    let b = find_busiest cpu_id q max_cpus 0 none_yet in
    Stolen-steal_at cpu_id q b.max_queue_size b.target_cpu (
      IsBusiest-find cpu_id q max_cpus 0 max_cpus none_yet (omega arith) (record {
        longest = λ c lt ne. absurd (omega (arith, lt));
        nothing = λ e. refl;
        found = λ t e. absurd (cc e);
      }))
