-- ===== src/Scheduler.antt =====
-- kernel/scheduler.c. A `tcb_t *` into the task table is the index of its slot.
pub mod Choice
pub mod Preempt
mod Tests
use itron_rtos.Common.{
  ℕ, zero, suc, ◌+◌, Bool, true, false, Option, none, some, if◌then◌else◌, ==_iff, int_lt, ◌==◌,
}
use itron_rtos.Task.{Tcb, TaskTable, is_ready, is_running, max_tasks}

-- The body of the loop: slot `i` against the best slot so far.
unfoldable pub consider : TaskTable → ℕ → Option ℕ → Option ℕ
consider t i none = if is_ready (t.slots i).state then some i else none
consider t i (some best) =
    if is_ready (t.slots i).state
    then if int_lt (t.slots i).priority (t.slots best).priority then some i else some best
    else some best

-- The loop from slot `i` on, with `n` slots left.
unfoldable pub select_from : TaskTable → ℕ → ℕ → Option ℕ → Option ℕ
unfolding consider
select_from t i zero best = best
select_from t i (suc n) best = select_from t (i + 1) n (consider t i best)

-- scheduler_select_next
unfoldable pub select_next : TaskTable → Option ℕ
unfolding select_from
select_next t = select_from t 0 max_tasks none

-- scheduler_preempt_reason_t
pub data PreemptReason : Type 0 where
  no_preempt needed same_priority invalid_current : PreemptReason

-- scheduler_preempt_decision_t
pub record PreemptDecision : Type 0 where
  pub reason : PreemptReason
  pub current : Option ℕ
  pub candidate : Option ℕ

-- The comparison at the end of scheduler_select_preemption_candidate.
unfoldable pub compare_candidate : TaskTable → ℕ → Option ℕ → PreemptDecision
compare_candidate t current none = record {
  reason = no_preempt;
  current = some current;
  candidate = none;
}
compare_candidate t current (some candidate) = record {
  reason =
      if int_lt (t.slots candidate).priority (t.slots current).priority
      then needed
      else if (t.slots candidate).priority == (t.slots current).priority
      then same_priority
      else no_preempt;
  current = some current;
  candidate = some candidate;
}

-- scheduler_select_preemption_candidate
unfoldable pub select_preemption_candidate : TaskTable → Option ℕ → PreemptDecision
unfolding compare_candidate
select_preemption_candidate t none = record {
  reason = no_preempt;
  current = none;
  candidate = none;
}
select_preemption_candidate t (some current) =
    if is_running (t.slots current).state
    then compare_candidate t current (select_next t)
    else record { reason = invalid_current; current = some current; candidate = none }
