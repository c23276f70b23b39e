-- ===== src/Pending.antt =====
-- The request of kernel/dispatch_pending.c, of which the kernel keeps one. Its consumption is in
-- Boundary.
pub mod Requests
mod Tests
use itron_rtos.Common.{ℕ, Bool, true, false, not, ◌&&◌, Option, none, some, if◌then◌else◌}
use itron_rtos.Task.{TaskTable}

-- dispatch_pending_source_t
pub data Source : Type 0 where
  no_source from_irq from_task : Source

-- dispatch_pending_reason_t
pub data Reason : Type 0 where
  no_request irq_preemption task_start task_wakeup : Reason

abbrev pub is_from_irq : Source → Bool
is_from_irq from_irq = true
is_from_irq _ = false

abbrev pub is_from_task : Source → Bool
is_from_task from_task = true
is_from_task _ = false

-- dispatch_pending_state_t
pub record Pending : Type 0 where
  pub requested : Bool
  pub request_logged : Bool
  pub source : Source
  pub reason : Reason
  pub current : Option ℕ
  pub candidate : Option ℕ
  pub current_id : ℕ
  pub candidate_id : ℕ

-- What dispatch_pending_clear_with_reason and dispatch_pending_clear_for_test_or_later_boundary
-- leave, and the static variable at first.
abbrev pub cleared : Pending
cleared = record {
  requested = false;
  request_logged = false;
  source = no_source;
  reason = no_request;
  current = none;
  candidate = none;
  current_id = 0;
  candidate_id = 0;
}

-- dispatch_pending_clear_irq_for_evaluation
unfoldable pub clear_irq_for_evaluation : Pending → Pending
clear_irq_for_evaluation p = if is_from_irq p.source then cleared else p

-- The eight writes that the three request functions share.
abbrev pub request : TaskTable → Source → Reason → ℕ → ℕ → Pending
request tasks src why current candidate = record {
  requested = true;
  request_logged = false;
  source = src;
  reason = why;
  current = some current;
  candidate = some candidate;
  current_id = (tasks.slots current).id;
  candidate_id = (tasks.slots candidate).id;
}

-- dispatch_request_from_irq
unfoldable pub request_from_irq : TaskTable → Option ℕ → Option ℕ → Pending → Pending
unfolding clear_irq_for_evaluation
request_from_irq tasks (some c) (some k) p =
    if p.requested && is_from_task p.source then p else request tasks from_irq irq_preemption c k
request_from_irq tasks _ _ p = clear_irq_for_evaluation p

-- dispatch_request_from_task_start
unfoldable pub request_from_task_start : TaskTable → Option ℕ → Option ℕ → Pending → Pending
request_from_task_start tasks (some c) (some k) p = request tasks from_task task_start c k
request_from_task_start tasks _ _ p = cleared

-- dispatch_request_from_task_wakeup
unfoldable pub request_from_task_wakeup : TaskTable → Option ℕ → Option ℕ → Pending → Pending
request_from_task_wakeup tasks (some c) (some k) p = request tasks from_task task_wakeup c k
request_from_task_wakeup tasks _ _ p = cleared

-- The write of dispatch_pending_log_state_from_irq.
unfoldable pub log_state_from_irq : Pending → Pending
log_state_from_irq p =
    if p.requested && not p.request_logged then record p { request_logged = true } else p
