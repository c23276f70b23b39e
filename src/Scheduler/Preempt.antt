-- ===== src/Scheduler/Preempt.antt =====
-- What scheduler_select_preemption_candidate decides.
use itron_rtos.Common.{
  ℕ, ◌≤◌, ◌<◌, ◌≡◌, ◌↔◌, inl, inr, true, some, arith, Option-cases, rank-injective, ◌^◌,
}
use itron_rtos.Task.{TaskTable, is_running, max_tasks}
use itron_rtos.Scheduler.{
  needed, same_priority, select_next, compare_candidate, select_preemption_candidate,
}
use itron_rtos.Scheduler.Choice.{IsReady, key, IsBest, select_next-IsBest, select_next-none}

-- Some READY task has a smaller priority value than slot `c`.
abbrev pub Outranked : TaskTable → ℕ → Type 0
Outranked t c = (k : ℕ) × (k < max_tasks) × IsReady t k × (key t k < key t c)

module _ (t : TaskTable) (c : ℕ) (runs : is_running (t.slots c).state ≡ true) where
  needed→Outranked : (select_preemption_candidate t (some c)).reason ≡ needed → Outranked t c
  unfolding select_preemption_candidate
  needed→Outranked h = elim (Option-cases (select_next t)) [
    | inl e ↦ absurd (ground arith)
    | inr (b, e) ↦
        let best = select_next-IsBest t b e in (b, best.below, best.is_candidate, ground arith)
  ]

  Outranked→needed : Outranked t c → (select_preemption_candidate t (some c)).reason ≡ needed
  unfolding select_preemption_candidate
  Outranked→needed (k, lt, r, less) = elim (Option-cases (select_next t)) [
    | inl e ↦ cc (r, select_next-none t k e lt)
    | inr (b, e) ↦
        let best = select_next-IsBest t b e in
        let wins : key t b < key t c = omega (arith, best.least k lt r) in ground arith
  ]

-- With a RUNNING current task, preemption is needed exactly when some READY task has a smaller
-- priority value.
pub preempt_needed_iff :
    (t : TaskTable) (c : ℕ)
    → is_running (t.slots c).state ≡ true
    → ((select_preemption_candidate t (some c)).reason ≡ needed) ↔ Outranked t c
preempt_needed_iff t c runs = (needed→Outranked t c runs, Outranked→needed t c runs)

-- Every priority is a 32-bit pattern.
abbrev pub PrioritiesFit : TaskTable → Type 0
PrioritiesFit t = (i : ℕ) → (t.slots i).priority < 2 ^ 32

-- A READY task with the same priority value as a RUNNING current task, where no READY task has a
-- smaller one, is reported as such: the decision is not to preempt, and names the best READY task,
-- which has that priority too. The priorities are 32-bit patterns.
pub preempt_same_priority :
    (t : TaskTable) (c k : ℕ)
    → PrioritiesFit t
    → is_running (t.slots c).state ≡ true
    → k < max_tasks
    → IsReady t k
    → (t.slots k).priority ≡ (t.slots c).priority
    → ¬ Outranked t c
    → (b : ℕ) × IsBest t max_tasks b
      × ((t.slots b).priority ≡ (t.slots c).priority)
      × (select_preemption_candidate t (some c)
          ≡ record { reason = same_priority; current = some c; candidate = some b })
unfolding select_preemption_candidate
preempt_same_priority t c k fit runs lt r same none_better = elim (Option-cases (select_next t)) [
  | inl e ↦ cc (r, select_next-none t k e lt)
  | inr (b, e) ↦
      let best = select_next-IsBest t b e in
      let up : key t b ≤ key t c = rw (← same) (best.least k lt r) in
      let down : ¬ (key t b < key t c) =
        λ less. none_better (b, best.below, best.is_candidate, less) in
      let equal : (t.slots b).priority ≡ (t.slots c).priority =
        rank-injective _ _ (fit b) (fit c) (omega arith) in
      (b, best, equal, rw (runs, e, compare_candidate) (ground arith))
]
