-- ===== src/Task/Atomic.antt =====
-- Failure of a call of kernel/task.c.
use itron_rtos.Common.{◌≡◌, ◌≢◌}
use itron_rtos.Task.{TaskTable, TaskResult, ok}
use itron_rtos.Task.Ops.{TaskCall, run_call}
use itron_rtos.Task.Outcome.{Outcome, refusal, success}
use itron_rtos.Task.Reading.{run_call-Outcome}

Outcome-atomic :
    (c : TaskCall) (t : TaskTable) {r : TaskTable × TaskResult} → Outcome c t r → r.1 ≢ ok → r.0 ≡ t
Outcome-atomic c t (refusal same bad) h = same
Outcome-atomic c t (success i n s good _ _ _ _ _) h = absurd (h good)

-- A call on the task table that does not return 0 leaves the whole table and the counter of ids as
-- they were.
pub run_call-atomic : (c : TaskCall) (t : TaskTable) → (run_call c t).1 ≢ ok → (run_call c t).0 ≡ t
run_call-atomic c t = Outcome-atomic c t (run_call-Outcome c t)
