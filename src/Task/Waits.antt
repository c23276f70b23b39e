-- ===== src/Task/Waits.antt =====
-- The wait fields of the tasks, under any history of calls of kernel/task.c.
use itron_rtos.Common.{ℕ, refl, List, [], ◌∷◌, update-All}
use itron_rtos.Task.{TaskTable, TaskResult}
use itron_rtos.Task.Create.{task_init}
use itron_rtos.Task.Ops.{TaskCall, run_call, run_calls}
use itron_rtos.Task.Outcome.{WaitsOk, Outcome, refusal, success}
use itron_rtos.Task.Reading.{run_call-Outcome}

abbrev pub AllWaitsOk : TaskTable → Type 0
AllWaitsOk t = (j : ℕ) → WaitsOk (t.slots j)

Outcome-AllWaitsOk :
    (c : TaskCall) (t : TaskTable) {r : TaskTable × TaskResult}
    → Outcome c t r
    → AllWaitsOk t
    → AllWaitsOk r.0
Outcome-AllWaitsOk c t (refusal same bad) h = rw same h
Outcome-AllWaitsOk c t (success i n s _ e _ _ waits _) h =
    rw e (update-All WaitsOk t.slots i s h waits)

pub run_call-AllWaitsOk :
    (c : TaskCall) (t : TaskTable) → AllWaitsOk t → AllWaitsOk (run_call c t).0
run_call-AllWaitsOk c t = Outcome-AllWaitsOk c t (run_call-Outcome c t)

-- If the wait fields of every slot agree with its state, they still do after any sequence of calls:
-- a task that waits has one reason, with a semaphore id and ticks just where that reason has them,
-- and a task that does not wait has none of the three left over.
pub run_calls-AllWaitsOk :
    (cs : List TaskCall) (t : TaskTable) → AllWaitsOk t → AllWaitsOk (run_calls cs t)
unfolding run_calls
run_calls-AllWaitsOk [] t h = h
run_calls-AllWaitsOk (c ∷ cs) t h = run_calls-AllWaitsOk cs _ (run_call-AllWaitsOk c t h)

pub task_init-AllWaitsOk : AllWaitsOk task_init
task_init-AllWaitsOk j = (refl, refl, refl)
