-- ===== src/Api.antt =====
-- kernel/itron_api.c: the calls that do not switch to another task.
pub mod Readying
mod Waking
pub mod Signal
pub mod Invariant
mod SignalInvariant
pub mod History
mod Calm
pub mod Runner
mod Tests
use itron_rtos.Common.{
  ℕ, Bool, true, false, not, ◌&&◌, Option, none, some, if◌then◌else◌, is_positive, int_lt,
}
use itron_rtos.Task
use itron_rtos.Task.{
  TaskTable, TaskResult, Tcb, is_dormant, is_ready, is_running, is_waiting, is_on_sleep, WaitReason,
  on_semaphore, on_semaphore_timeout,
}
use itron_rtos.Task.Lookup.{task_get_by_id}
use itron_rtos.Task.Create.{TaskSpec, lacks_attribute, task_create_dormant}
use itron_rtos.Task.Moves.{
  start_dormant, wake_waiting_on_sleep_by_id, wake_waiting_on_sem_by_id,
  wake_waiting_on_sem_timeout_by_id,
}
use itron_rtos.Semaphore
use itron_rtos.Semaphore.{SemTable, SemResult, sem_get_by_id}
use itron_rtos.Semaphore.Count.{sem_take_if_available, sem_increment_count}
use itron_rtos.Semaphore.WaitQueue.{sem_dequeue_waiter}
use itron_rtos.DelayQueue
use itron_rtos.DelayQueue.{DelayQueue, DelayResult, remove_sem_timeout_waiter}
use itron_rtos.Pending.{Pending, request_from_task_start, request_from_task_wakeup}
use itron_rtos.Kernel.{Kernel}

-- ER
pub data Er : Type 0 where
  e_ok e_id e_par e_ctx e_obj e_tmout e_rlwai e_qovr : Er

unfoldable pub finish_create : Kernel → TaskTable × TaskResult → Kernel × Er
finish_create k (tasks, Task.ok) = (record k { tasks = tasks }, e_ok)
finish_create k (tasks, _) = (record k { tasks = tasks }, e_obj)

-- cre_tsk; `none` is a NULL parameter block.
unfoldable pub cre_tsk : Kernel → ℕ → Option TaskSpec → Kernel × Er
unfolding finish_create
cre_tsk k tskid pk_ctsk =
    if is_positive tskid
    then elim pk_ctsk [
      | none ↦ (k, e_par)
      | some a ↦
          if lacks_attribute a
          then (k, e_par)
          else finish_create k (task_create_dormant k.tasks tskid a)
    ]
    else (k, e_id)

-- The comparison after a task has become READY: a request is made where there is a RUNNING current
-- task and the READY one has a smaller priority value.
unfoldable pub outranks_current : TaskTable → Option ℕ → Option ℕ → Bool
outranks_current tasks (some c) (some j) =
    is_running (tasks.slots c).state && int_lt (tasks.slots j).priority (tasks.slots c).priority
outranks_current tasks _ _ = false

unfoldable pub started : Kernel → ℕ → TaskTable × TaskResult → Kernel × Er
started k tskid (tasks, Task.ok) =
    let j = task_get_by_id tasks tskid in
    (
      record k {
        tasks = tasks;
        pending =
            if outranks_current tasks k.current j
            then request_from_task_start tasks k.current j k.pending
            else k.pending;
      },
      e_ok,
    )
started k tskid (tasks, _) = (record k { tasks = tasks }, e_obj)

-- sta_tsk
unfoldable pub sta_tsk : Kernel → ℕ → Kernel × Er
unfolding started outranks_current
sta_tsk k tskid =
    if is_positive tskid
    then elim (task_get_by_id k.tasks tskid) [
      | none ↦ (k, e_id)
      | some j ↦
          if is_dormant (k.tasks.slots j).state
          then started k tskid (start_dormant k.tasks tskid)
          else (k, e_obj)
    ]
    else (k, e_id)

unfoldable pub woken : Kernel → ℕ → TaskTable × TaskResult → Kernel × Er
woken k tskid (tasks, Task.ok) =
    let j = task_get_by_id tasks tskid in
    (
      record k {
        tasks = tasks;
        pending =
            if outranks_current tasks k.current j
            then request_from_task_wakeup tasks k.current j k.pending
            else k.pending;
      },
      e_ok,
    )
woken k tskid (tasks, _) = (record k { tasks = tasks }, e_obj)

-- wup_tsk
unfoldable pub wup_tsk : Kernel → ℕ → Kernel × Er
unfolding woken outranks_current
wup_tsk k tskid =
    if is_positive tskid
    then elim (task_get_by_id k.tasks tskid) [
      | none ↦ (k, e_id)
      | some j ↦
          if is_waiting (k.tasks.slots j).state && is_on_sleep (k.tasks.slots j).wait_reason
          then woken k tskid (wake_waiting_on_sleep_by_id k.tasks tskid)
          else (k, e_obj)
    ]
    else (k, e_id)

unfoldable pub polled : Kernel → SemTable × SemResult → Kernel × Er
polled k (sems, Semaphore.ok) = (record k { sems = sems }, e_ok)
polled k (sems, Semaphore.wait_required) = (record k { sems = sems }, e_tmout)
polled k (sems, _) = (record k { sems = sems }, e_id)

-- pol_sem
unfoldable pub pol_sem : Kernel → ℕ → Kernel × Er
unfolding polled
pol_sem k sem_id = elim k.current [
  | none ↦ (k, e_ctx)
  | some c ↦
      if is_running (k.tasks.slots c).state
      then elim (sem_get_by_id k.sems sem_id) [
        | none ↦ (k, e_id)
        | some _ ↦ polled k (sem_take_if_available k.sems sem_id)
      ]
      else (k, e_ctx)
]

-- sig_sem where no task waits.
unfoldable pub counted : Kernel → SemTable × SemResult → Kernel × Er
counted k (sems, Semaphore.ok) = (record k { sems = sems }, e_ok)
counted k (sems, _) = (record k { sems = sems }, e_qovr)

-- `ready_task->state == TASK_STATE_READY`, for the task that was found
unfoldable pub found_ready : TaskTable → Option ℕ → Bool
found_ready tasks none = false
found_ready tasks (some j) = is_ready (tasks.slots j).state

-- sig_sem after the wake-up.
unfoldable pub signalled : Kernel → ℕ → TaskTable × TaskResult → Kernel × Er
signalled k task_id (tasks, Task.ok) =
    let j = task_get_by_id tasks task_id in
    (
      record k {
        tasks = tasks;
        pending =
            if found_ready tasks j && outranks_current tasks k.current j
            then request_from_task_wakeup tasks k.current j k.pending
            else k.pending;
      },
      e_ok,
    )
signalled k task_id (tasks, _) = (record k { tasks = tasks }, e_obj)

-- sig_sem after the removal from the delay queue.
unfoldable pub signal_timed : Kernel → ℕ → ℕ → DelayQueue × DelayResult → Kernel × Er
unfolding signalled found_ready outranks_current
signal_timed k sem_id task_id (delays, DelayQueue.ok) =
    signalled (record k { delays = delays }) task_id
      (wake_waiting_on_sem_timeout_by_id k.tasks task_id sem_id)
signal_timed k sem_id task_id (delays, _) = (record k { delays = delays }, e_obj)

-- sig_sem for the task in slot `j`, by the reason that it waits for.
unfoldable pub signal_waiter : Kernel → ℕ → ℕ → WaitReason → Kernel × Er
unfolding signal_timed signalled found_ready outranks_current
signal_waiter k sem_id task_id on_semaphore_timeout =
    signal_timed k sem_id task_id (remove_sem_timeout_waiter k.delays k.tasks task_id)
signal_waiter k sem_id task_id on_semaphore =
    signalled k task_id (wake_waiting_on_sem_by_id k.tasks task_id sem_id)
signal_waiter k sem_id task_id _ = (k, e_obj)

-- sig_sem after the dequeue.
unfoldable pub signal_dequeued : Kernel → ℕ → SemTable × SemResult × Option ℕ → Kernel × Er
unfolding counted signal_waiter signal_timed signalled found_ready outranks_current
signal_dequeued k sem_id (sems, Semaphore.queue_empty, _) =
    counted (record k { sems = sems }) (sem_increment_count sems sem_id)
signal_dequeued k sem_id (sems, Semaphore.ok, some task_id) =
    elim (task_get_by_id k.tasks task_id) [
      | none ↦ (record k { sems = sems }, e_obj)
      | some j ↦
          signal_waiter (record k { sems = sems }) sem_id task_id (k.tasks.slots j).wait_reason
    ]
signal_dequeued k sem_id (sems, _, _) = (record k { sems = sems }, e_obj)

-- sig_sem
unfoldable pub sig_sem : Kernel → ℕ → Kernel × Er
unfolding signal_dequeued
sig_sem k sem_id = elim (sem_get_by_id k.sems sem_id) [
  | none ↦ (k, e_id)
  | some _ ↦ signal_dequeued k sem_id (sem_dequeue_waiter k.sems sem_id)
]
