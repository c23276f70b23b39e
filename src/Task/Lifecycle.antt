-- ===== src/Task/Lifecycle.antt =====
-- The state diagram of a task: which slot a call of kernel/task.c changes, and how.
use itron_rtos.Common.{ℕ, ◌<◌, ◌≡◌, ◌≢◌, some, arith, update_ne}
use itron_rtos.Task.{TaskTable, TaskResult, ok, max_tasks}
use itron_rtos.Task.Ops.{TaskCall, run_call}
use itron_rtos.Task.Outcome.{target, Outcome, refusal, success}
use itron_rtos.Task.Reading.{run_call-Outcome}

-- The slot that the call changed, with the arrow that it took.
pub record Moved (c : TaskCall) (t u : TaskTable) : Type 0 where
  pub slot : ℕ
  pub inside : slot < max_tasks
  pub arrow : target c (t.slots slot).state ≡ some (u.slots slot).state
  pub others : (j : ℕ) → slot ≢ j → u.slots j ≡ t.slots j

Outcome-Moved :
    (c : TaskCall) (t : TaskTable) {r : TaskTable × TaskResult}
    → Outcome c t r
    → r.1 ≡ ok
    → Moved c t r.0
Outcome-Moved c t (refusal same bad) h = absurd (bad h)
Outcome-Moved c t (success i n s good e inside arrow _ _) h = rw e (record {
  slot = i;
  inside = inside;
  arrow = ground arith;
  others = λ j ne. update_ne t.slots i j s ne;
})

-- A call that returns 0 changes exactly one slot, inside the table, and takes the task there along
-- an arrow of the state diagram for that call; every other slot keeps all of its fields.
pub run_call-Moved :
    (c : TaskCall) (t : TaskTable) → (run_call c t).1 ≡ ok → Moved c t (run_call c t).0
run_call-Moved c t = Outcome-Moved c t (run_call-Outcome c t)
