-- ===== src/Task/Moves.antt =====
-- The state changes of kernel/task.c: task_mark_*, task_start_dormant and task_wake_*.
use itron_rtos.Common.{
  ℕ, Bool, not, ◌||◌, ◌&&◌, Option, none, some, ◌==◌, if◌then◌else◌, is_positive,
}
use itron_rtos.Task.{
  TaskState, dormant, ready, running, waiting, is_dormant, is_ready, is_running, is_waiting,
  WaitReason, no_reason, on_semaphore, on_delay, on_semaphore_timeout, on_sleep, is_on_semaphore,
  is_on_delay, is_on_semaphore_timeout, is_on_sleep, Tcb, TaskTable, TaskResult, ok, inval,
  not_found,
}
use itron_rtos.Task.Lookup.{change_task, task_find_waiting_on_sem, write_slot}

-- The four writes that end a wait or a run: the new state, and no wait left over.
abbrev pub settle : TaskState → Tcb → Tcb
settle new_state s = record s {
  state = new_state;
  wait_reason = no_reason;
  wait_sem_id = 0;
  delay_ticks_remaining = 0;
}

-- The four writes that begin a wait.
abbrev pub begin_wait : WaitReason → ℕ → ℕ → Tcb → Tcb
begin_wait reason sem_id ticks s = record s {
  state = waiting;
  wait_sem_id = sem_id;
  wait_reason = reason;
  delay_ticks_remaining = ticks;
}

abbrev pub runs : Tcb → Bool
runs s = is_running s.state

-- task_mark_running
unfoldable pub mark_running : TaskTable → ℕ → TaskTable × TaskResult
mark_running t task_id =
    if is_positive task_id
    then change_task t task_id (λ s. is_ready s.state) (settle running)
    else (t, inval)

-- task_mark_ready_from_running
unfoldable pub mark_ready_from_running : TaskTable → ℕ → TaskTable × TaskResult
mark_ready_from_running t task_id =
    if is_positive task_id then change_task t task_id runs (settle ready) else (t, inval)

-- task_start_dormant
unfoldable pub start_dormant : TaskTable → ℕ → TaskTable × TaskResult
start_dormant t task_id =
    if is_positive task_id
    then change_task t task_id (λ s. is_dormant s.state) (settle ready)
    else (t, inval)

-- task_mark_dormant_from_entry_return
unfoldable pub mark_dormant_from_entry_return : TaskTable → ℕ → TaskTable × TaskResult
mark_dormant_from_entry_return t task_id =
    if is_positive task_id
    then change_task t task_id (λ s. is_running s.state || is_ready s.state) (settle dormant)
    else (t, inval)

-- task_mark_waiting_on_sem
unfoldable pub mark_waiting_on_sem : TaskTable → ℕ → ℕ → TaskTable × TaskResult
mark_waiting_on_sem t task_id sem_id =
    if not (is_positive task_id) || not (is_positive sem_id)
    then (t, inval)
    else change_task t task_id runs (begin_wait on_semaphore sem_id 0)

-- task_mark_waiting_on_delay
unfoldable pub mark_waiting_on_delay : TaskTable → ℕ → ℕ → TaskTable × TaskResult
mark_waiting_on_delay t task_id ticks =
    if not (is_positive task_id) || ticks == 0
    then (t, inval)
    else change_task t task_id runs (begin_wait on_delay 0 ticks)

-- task_mark_waiting_on_sem_timeout
unfoldable pub mark_waiting_on_sem_timeout : TaskTable → ℕ → ℕ → ℕ → TaskTable × TaskResult
mark_waiting_on_sem_timeout t task_id sem_id ticks =
    if not (is_positive task_id) || not (is_positive sem_id) || ticks == 0
    then (t, inval)
    else change_task t task_id runs (begin_wait on_semaphore_timeout sem_id ticks)

-- task_mark_waiting_on_sleep
unfoldable pub mark_waiting_on_sleep : TaskTable → ℕ → TaskTable × TaskResult
mark_waiting_on_sleep t task_id =
    if is_positive task_id then change_task t task_id runs (begin_wait on_sleep 0 0) else (t, inval)

-- `*woken_task_id` is the id of the slot that the scan found.
unfoldable pub wake_found : TaskTable → Option ℕ → TaskTable × TaskResult × Option ℕ
wake_found t none = (t, not_found, none)
wake_found t (some i) = (write_slot t i (settle ready (t.slots i)), ok, some (t.slots i).id)

-- task_wake_one_waiting_on_sem
unfoldable pub wake_one_waiting_on_sem : TaskTable → ℕ → TaskTable × TaskResult × Option ℕ
unfolding wake_found
wake_one_waiting_on_sem t sem_id =
    if is_positive sem_id
    then wake_found t (task_find_waiting_on_sem t sem_id)
    else (t, inval, none)

-- task_wake_waiting_on_sem_by_id
unfoldable pub wake_waiting_on_sem_by_id : TaskTable → ℕ → ℕ → TaskTable × TaskResult
wake_waiting_on_sem_by_id t task_id sem_id =
    if not (is_positive task_id) || not (is_positive sem_id)
    then (t, inval)
    else change_task t task_id
        (λ s.
          is_waiting s.state
          && ((is_on_semaphore s.wait_reason || is_on_semaphore_timeout s.wait_reason)
              && s.wait_sem_id == sem_id))
        (settle ready)

-- task_wake_waiting_on_delay_by_id
unfoldable pub wake_waiting_on_delay_by_id : TaskTable → ℕ → TaskTable × TaskResult
wake_waiting_on_delay_by_id t task_id =
    if is_positive task_id
    then change_task t task_id (λ s. is_waiting s.state && is_on_delay s.wait_reason) (settle ready)
    else (t, inval)

-- task_wake_waiting_on_sem_timeout_by_id
unfoldable pub wake_waiting_on_sem_timeout_by_id : TaskTable → ℕ → ℕ → TaskTable × TaskResult
wake_waiting_on_sem_timeout_by_id t task_id sem_id =
    if not (is_positive task_id) || not (is_positive sem_id)
    then (t, inval)
    else change_task t task_id
        (λ s.
          is_waiting s.state && (is_on_semaphore_timeout s.wait_reason && s.wait_sem_id == sem_id))
        (settle ready)

-- task_wake_waiting_on_sleep_by_id
unfoldable pub wake_waiting_on_sleep_by_id : TaskTable → ℕ → TaskTable × TaskResult
wake_waiting_on_sleep_by_id t task_id =
    if is_positive task_id
    then change_task t task_id (λ s. is_waiting s.state && is_on_sleep s.wait_reason) (settle ready)
    else (t, inval)
