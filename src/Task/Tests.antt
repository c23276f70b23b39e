-- ===== src/Task/Tests.antt =====
-- Runs of the task table on concrete tables, and the theorems at inputs that they apply to.
use itron_rtos.Common.{◌≡◌, refl, true, List, [], ◌∷◌, arith, int_max, first_index, rank}
use itron_rtos.Task.{dormant, waiting, TaskTable, not_found, registered}
use itron_rtos.Task.Lookup.{
  names, find_task, find_free_slot, task_id_is_in_use, change_task, change_slot,
}
use itron_rtos.Task.Create.{
  TaskSpec, task_init, task_register, task_create_dormant, allocate_task_id,
}
use itron_rtos.Task.Moves.{mark_running, mark_waiting_on_sem}
use itron_rtos.Task.Ops.{TaskCall, registers, creates, runs_task, waits_sem, run_call, run_calls}
use itron_rtos.Task.Atomic.{run_call-atomic}
use itron_rtos.Task.Lifecycle.{Moved, run_call-Moved}
use itron_rtos.Task.Waits.{AllWaitsOk, task_init-AllWaitsOk, run_calls-AllWaitsOk}
use itron_rtos.Task.Identity.{IdsOk, task_init-IdsOk, run_calls-IdsOk}
use itron_rtos.Task.Overflow.{wrap_reuses_id}

abbrev task_a : TaskSpec
task_a = record { name = 100; entry = 200; priority = 3; stack_base = 4096; stack_size = 1024 }

abbrev one_task : TaskTable
one_task = (run_call (registers task_a) task_init).0

abbrev history : List TaskCall
history = registers task_a ∷ creates 7 task_a ∷ runs_task 1 ∷ waits_sem 1 2 ∷ registers task_a ∷ []

-- The task created with id 7 makes the next registered id 8.
history_result :
    ((run_calls history task_init).next_task_id ≡ 9)
    × (((run_calls history task_init).slots 0).state ≡ waiting)
    × (((run_calls history task_init).slots 1).state ≡ dormant)
    × (((run_calls history task_init).slots 2).id ≡ 8)
unfolding run_calls run_call task_register task_create_dormant mark_running mark_waiting_on_sem
    find_free_slot task_id_is_in_use find_task change_task change_slot first_index rank
history_result = (refl, refl, refl, refl)

-- Starting to run a task that does not exist.
missing : (run_call (runs_task 5) one_task).1 ≡ not_found
unfolding run_call task_register mark_running find_free_slot find_task change_task change_slot
    first_index rank
missing = refl

run_call-atomic_example : (run_call (runs_task 5) one_task).0 ≡ one_task
run_call-atomic_example = run_call-atomic (runs_task 5) one_task (λ e. cc missing)

run_call-Moved_example : Moved (runs_task 1) one_task (run_call (runs_task 1) one_task).0
unfolding run_call task_register mark_running find_free_slot find_task change_task change_slot
    first_index rank
run_call-Moved_example = run_call-Moved (runs_task 1) one_task refl

run_calls-AllWaitsOk_example : AllWaitsOk (run_calls history task_init)
run_calls-AllWaitsOk_example = run_calls-AllWaitsOk history task_init task_init-AllWaitsOk

run_calls-IdsOk_example : IdsOk (run_calls history task_init)
run_calls-IdsOk_example =
    run_calls-IdsOk history task_init (tt, (omega arith, (tt, (tt, (tt, tt))))) task_init-IdsOk

-- A table in which task 9 exists, then one created at the greatest `int`, then one at 8.
abbrev before_wrap : TaskTable
before_wrap = (task_create_dormant task_init 9 task_a).0

abbrev at_max : TaskTable
at_max = (task_create_dormant before_wrap int_max task_a).0

abbrev after_wrap : TaskTable
after_wrap = (task_create_dormant at_max 8 task_a).0

wrap_reuses_id_example :
    ((allocate_task_id after_wrap).1 ≡ registered 9) × (names 9 (after_wrap.slots 0) ≡ true)
unfolding task_create_dormant find_free_slot task_id_is_in_use find_task first_index rank
wrap_reuses_id_example =
    wrap_reuses_id before_wrap at_max after_wrap 8 0 task_a task_a (omega arith) (omega arith) refl
      refl refl
