-- ===== src/Pending/Tests.antt =====
-- A request of a task and one of the timer interrupt, one after the other.
use itron_rtos.Common.{refl, true, some, List, [], ◌∷◌}
use itron_rtos.Task.Create.{task_init}
use itron_rtos.Pending.{cleared, Pending, from_task, task_start}
use itron_rtos.Pending.Requests.{
  PendingCall, clears_irq, logs, from_irqs, run_pendings, SameRequest, run_pendings-SameRequest,
}

abbrev irq_history : List PendingCall
irq_history = clears_irq ∷ from_irqs task_init (some 3) (some 4) ∷ logs ∷ clears_irq ∷ []

abbrev start_request : Pending
start_request = record cleared {
  requested = true;
  source = from_task;
  reason = task_start;
  current = some 1;
  candidate = some 2;
}

run_pendings-SameRequest_example :
    SameRequest start_request (run_pendings irq_history start_request)
run_pendings-SameRequest_example =
    run_pendings-SameRequest irq_history start_request (tt, (tt, (tt, (tt, tt)))) refl refl
