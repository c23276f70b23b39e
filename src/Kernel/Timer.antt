-- ===== src/Kernel/Timer.antt =====
-- The timer interrupt: the tick, and the request for a dispatch that it makes.
use itron_rtos.Common.{
  ℕ, ◌+◌, ◌%◌, ◌^◌, ◌≡◌, ◌≢◌, ◌⊎◌, inl, inr, refl, ap, ◌∙◌, true, false, Option, some, arith,
  Option-cases,
}
use itron_rtos.Task.{TaskTable, is_running, max_tasks}
use itron_rtos.Scheduler.{
  PreemptReason, no_preempt, needed, same_priority, invalid_current, PreemptDecision, select_next,
  compare_candidate, select_preemption_candidate,
}
use itron_rtos.Scheduler.Choice.{IsBest, select_next-IsBest}
use itron_rtos.Scheduler.Preempt.{Outranked, preempt_needed_iff}
use itron_rtos.DelayQueue.Tick.{Tables}
use itron_rtos.DelayQueue.Contents.{contents}
use itron_rtos.DelayQueue.Ageing.{left, visit_all, tick_refines}
use itron_rtos.Pending.{
  from_irq, is_from_task, irq_preemption, Pending, cleared, request, clear_irq_for_evaluation,
  request_from_irq,
}
use itron_rtos.Pending.Requests.{PendingOk, Fits-irq}
use itron_rtos.Kernel.{Kernel, after_tick, timer_tick, request_if_needed, evaluate_from_irq}

-- What a tick makes of the kernel.
pub record Ticked (k k' : Kernel) : Type 0 where
  pub one_more : k'.system_ticks ≡ (k.system_ticks + 1) % 2 ^ 64
  pub queue_left : contents k'.delays ≡ left (contents k.delays)
  pub all_visited :
      (let w : Tables = record { tasks = k'.tasks; sems = k'.sems } in w)
      ≡ visit_all (record { tasks = k.tasks; sems = k.sems }) (contents k.delays)
  pub same_pending : k'.pending ≡ k.pending
  pub same_current : k'.current ≡ k.current

-- A timer tick counts one tick on 64 bits, leaves the entries of the delay queue that have more
-- than one tick to go with one tick less, and visits the tasks of all entries in their order; the
-- request for a dispatch and the current task stay, so that the tick itself never switches tasks.
pub timer_tick-Ticked : (k : Kernel) → Ticked k (timer_tick k)
unfolding timer_tick after_tick
timer_tick-Ticked k =
    let (out, runs, entries, tables, _) =
      tick_refines k.delays (record { tasks = k.tasks; sems = k.sems }) in
    rw runs (record {
      one_more = refl;
      queue_left = entries;
      all_visited = tables;
      same_pending = refl;
      same_current = refl;
    })

-- No request that a task has made is pending.
abbrev pub NoTaskRequest : Pending → Type 0
NoTaskRequest p = PendingOk p × (is_from_task p.source ≡ false)

clear_irq-cleared : (p : Pending) → NoTaskRequest p → clear_irq_for_evaluation p ≡ cleared
unfolding clear_irq_for_evaluation
clear_irq-cleared p (inl e, no_task) = rw e refl
clear_irq-cleared p (inr r, no_task) = rw (Fits-irq p.source p.reason r.fits no_task) refl

needed-candidate :
    (t : TaskTable) (c : ℕ)
    → is_running (t.slots c).state ≡ true
    → (select_preemption_candidate t (some c)).reason ≡ needed
    → (b : ℕ) × IsBest t max_tasks b × ((select_preemption_candidate t (some c)).candidate ≡ some b)
unfolding select_preemption_candidate
needed-candidate t c runs h = elim (Option-cases (select_next t)) [
  | inl e ↦ absurd (ground arith)
  | inr (b, e) ↦ (b, select_next-IsBest t b e, rw (runs, e, compare_candidate) refl)
]

request_if_needed-needed :
    (k : Kernel) (d : PreemptDecision) (p : Pending)
    → d.reason ≡ needed
    → request_if_needed k d p ≡ request_from_irq k.tasks k.current d.candidate p
unfolding request_if_needed
request_if_needed-needed k d p e = rw e refl

request_if_needed-not :
    (k : Kernel) (d : PreemptDecision) (p : Pending)
    → d.reason ≢ needed
    → request_if_needed k d p ≡ p
unfolding request_if_needed
request_if_needed-not k d p ne = ground arith

reason-cases : (r : PreemptReason) → (r ≡ needed) ⊎ (r ≢ needed)
reason-cases needed = inl refl
reason-cases no_preempt = inr (λ h. cc)
reason-cases same_priority = inr (λ h. cc)
reason-cases invalid_current = inr (λ h. cc)

module _ (k : Kernel) (c : ℕ) (at_c : k.current ≡ some c)
    (runs : is_running (k.tasks.slots c).state ≡ true) (clear : NoTaskRequest k.pending) where
  abbrev decision : PreemptDecision
  decision = select_preemption_candidate k.tasks (some c)

  evaluated : (evaluate_from_irq k).pending ≡ request_if_needed k decision cleared
  unfolding evaluate_from_irq
  evaluated =
      ap (request_if_needed k (select_preemption_candidate k.tasks k.current))
        (clear_irq-cleared k.pending clear)
      ∙ ap (λ (o : Option ℕ). request_if_needed k (select_preemption_candidate k.tasks o) cleared)
          at_c

  evaluated-needed :
      decision.reason ≡ needed
      → (b : ℕ) × IsBest k.tasks max_tasks b
        × ((evaluate_from_irq k).pending ≡ request k.tasks from_irq irq_preemption c b)
  unfolding request_from_irq
  evaluated-needed e =
      let (b, best, cand) = needed-candidate k.tasks c runs e in
      (b, best, evaluated ∙ request_if_needed-needed k decision cleared e ∙ rw (at_c, cand) refl)

  evaluated-not : decision.reason ≢ needed → (evaluate_from_irq k).pending ≡ cleared
  evaluated-not ne = evaluated ∙ request_if_needed-not k decision cleared ne

-- Where the current task is RUNNING and no task has a request pending, the evaluation in the timer
-- interrupt ends in one of two ways. Either some READY task has a smaller priority value than the
-- current one, and the request is for the READY task that the scheduler prefers, with the ids of
-- both tasks; or there is no such task, and no request.
pub evaluate_from_irq_cases :
    (k : Kernel) (c : ℕ)
    → k.current ≡ some c
    → is_running (k.tasks.slots c).state ≡ true
    → NoTaskRequest k.pending
    → (Outranked k.tasks c
        × ((b : ℕ) × IsBest k.tasks max_tasks b
            × ((evaluate_from_irq k).pending ≡ request k.tasks from_irq irq_preemption c b)))
      ⊎ ((¬ Outranked k.tasks c) × ((evaluate_from_irq k).pending ≡ cleared))
evaluate_from_irq_cases k c at_c runs clear =
    let (outranked, back) = preempt_needed_iff k.tasks c runs in
    elim (reason-cases (select_preemption_candidate k.tasks (some c)).reason) [
      | inl e ↦ inl (outranked e, evaluated-needed k c at_c runs clear e)
      | inr ne ↦ inr (λ better. ne (back better), evaluated-not k c at_c runs clear ne)
    ]
