-- ===== src/Task/Ops.antt =====
-- The calls that change the table, as data, with a reading of each as an attempt on one slot: the
-- theorems about all of the calls follow from it.
use itron_rtos.Common.{ℕ, List, [], ◌∷◌}
use itron_rtos.Task.{TaskTable, TaskResult, ok, Registration, registered, refused}
use itron_rtos.Task.Create.{TaskSpec, task_register, task_create_dormant}
use itron_rtos.Task.Moves.{
  mark_running, mark_ready_from_running, start_dormant, mark_dormant_from_entry_return,
  mark_waiting_on_sem, mark_waiting_on_delay, mark_waiting_on_sem_timeout, mark_waiting_on_sleep,
  wake_one_waiting_on_sem, wake_waiting_on_sem_by_id, wake_waiting_on_delay_by_id,
  wake_waiting_on_sem_timeout_by_id, wake_waiting_on_sleep_by_id,
}

pub data TaskCall : Type 0 where
  registers : TaskSpec → TaskCall
  creates : ℕ → TaskSpec → TaskCall
  runs_task readies starts finishes sleeps wakes_sleeper wakes_delayed wakes_one : ℕ → TaskCall
  waits_sem waits_delay wakes_sem wakes_sem_timeout : ℕ → ℕ → TaskCall
  waits_sem_timeout : ℕ → ℕ → ℕ → TaskCall

abbrev pub result_of : Registration → TaskResult
result_of (registered task_id) = ok
result_of (refused e) = e

abbrev pub outcome_of : TaskTable × Registration → TaskTable × TaskResult
outcome_of r = (r.0, result_of r.1)

unfoldable pub run_call : TaskCall → TaskTable → TaskTable × TaskResult
run_call (registers a) t = outcome_of (task_register t a)
run_call (creates task_id a) t = task_create_dormant t task_id a
run_call (runs_task task_id) t = mark_running t task_id
run_call (readies task_id) t = mark_ready_from_running t task_id
run_call (starts task_id) t = start_dormant t task_id
run_call (finishes task_id) t = mark_dormant_from_entry_return t task_id
run_call (sleeps task_id) t = mark_waiting_on_sleep t task_id
run_call (wakes_sleeper task_id) t = wake_waiting_on_sleep_by_id t task_id
run_call (wakes_delayed task_id) t = wake_waiting_on_delay_by_id t task_id
run_call (wakes_one sem_id) t = let (t', r, woken) = wake_one_waiting_on_sem t sem_id in (t', r)
run_call (waits_sem task_id sem_id) t = mark_waiting_on_sem t task_id sem_id
run_call (waits_delay task_id ticks) t = mark_waiting_on_delay t task_id ticks
run_call (wakes_sem task_id sem_id) t = wake_waiting_on_sem_by_id t task_id sem_id
run_call (wakes_sem_timeout task_id sem_id) t = wake_waiting_on_sem_timeout_by_id t task_id sem_id
run_call (waits_sem_timeout task_id sem_id ticks) t =
    mark_waiting_on_sem_timeout t task_id sem_id ticks

unfoldable pub run_calls : List TaskCall → TaskTable → TaskTable
run_calls [] t = t
run_calls (c ∷ cs) t = run_calls cs (run_call c t).0
