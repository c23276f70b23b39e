-- ===== src/Scheduler/Tests.antt =====
-- The scheduler on small tables.
use itron_rtos.Common.{ℕ, zero, suc, ◌≡◌, refl, some, rank, ◌↔◌}
use itron_rtos.Task.{TaskState, ready, running, Tcb, TaskTable, max_tasks}
use itron_rtos.Task.Create.{empty_slot}
use itron_rtos.Scheduler.{select_next, needed, select_preemption_candidate}
use itron_rtos.Scheduler.Choice.{IsBest, select_next_iff}
use itron_rtos.Scheduler.Preempt.{Outranked, preempt_needed_iff}

abbrev slot_with : ℕ → TaskState → ℕ → Tcb
slot_with id state priority = record empty_slot { id = id; state = state; priority = priority }

-- A RUNNING task of priority 5 in slot 0, and two READY tasks of one priority behind it.
abbrev three_slots : ℕ → ℕ → Tcb
three_slots p zero = slot_with 1 running 5
three_slots p (suc zero) = slot_with 2 ready p
three_slots p (suc (suc zero)) = slot_with 3 ready p
three_slots p (suc (suc (suc _))) = empty_slot

abbrev three_tasks : ℕ → TaskTable
three_tasks p = record { slots = three_slots p; next_task_id = 4 }

selected : select_next (three_tasks 3) ≡ some 1
unfolding select_next rank
selected = refl

select_next_iff_example :
    (select_next (three_tasks 3) ≡ some 1) ↔ IsBest (three_tasks 3) max_tasks 1
select_next_iff_example = select_next_iff (three_tasks 3) 1

preempted : (select_preemption_candidate (three_tasks 3) (some 0)).reason ≡ needed
unfolding select_preemption_candidate select_next rank
preempted = refl

preempt_needed_iff_example :
    ((select_preemption_candidate (three_tasks 3) (some 0)).reason ≡ needed)
    ↔ Outranked (three_tasks 3) 0
preempt_needed_iff_example = preempt_needed_iff (three_tasks 3) 0 refl
