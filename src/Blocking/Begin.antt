-- ===== src/Blocking/Begin.antt =====
-- slp_tsk, wai_sem, twai_sem and dly_tsk of kernel/itron_api.c up to the choice of the next task.
use itron_rtos.Common.{ℕ, none, some, ◌==◌, if◌then◌else◌}
use itron_rtos.Task
use itron_rtos.Task.{TaskTable, TaskResult, is_running}
use itron_rtos.Task.Moves.{
  mark_waiting_on_sleep, mark_waiting_on_sem, mark_waiting_on_sem_timeout, mark_waiting_on_delay,
}
use itron_rtos.Semaphore
use itron_rtos.Semaphore.{SemTable, SemResult, sem_get_by_id}
use itron_rtos.Semaphore.Count.{sem_take_if_available}
use itron_rtos.Semaphore.WaitQueue.{sem_can_enqueue_waiter, sem_enqueue_waiter}
use itron_rtos.DelayQueue
use itron_rtos.DelayQueue.{DelayQueue, DelayResult, can_enqueue, enqueue}
use itron_rtos.Kernel.{Kernel}
use itron_rtos.Api.{Er, e_ok, e_id, e_par, e_ctx, e_obj, e_qovr}

-- The call returns, or goes on to switch away from the task in a slot.
pub data Step : Type 0 where
  done : Kernel → Er → Step
  switches : Kernel → ℕ → Step

abbrev pub current_id : Kernel → ℕ → ℕ
current_id k c = (k.tasks.slots c).id

unfoldable pub slept : Kernel → ℕ → TaskTable × TaskResult → Step
slept k c (tasks, Task.ok) = switches (record k { tasks = tasks }) c
slept k c (tasks, _) = done (record k { tasks = tasks }) e_obj

-- slp_tsk
unfoldable pub begin_slp_tsk : Kernel → Step
unfolding slept
begin_slp_tsk k = elim k.current [
  | none ↦ done k e_ctx
  | some c ↦
      if is_running (k.tasks.slots c).state
      then slept k c (mark_waiting_on_sleep k.tasks (current_id k c))
      else done k e_ctx
]

unfoldable pub sem_enqueued : Kernel → ℕ → Er → SemTable × SemResult → Step
sem_enqueued k c failed (sems, Semaphore.ok) = switches (record k { sems = sems }) c
sem_enqueued k c failed (sems, _) = done (record k { sems = sems }) failed

unfoldable pub wai_marked : Kernel → ℕ → ℕ → TaskTable × TaskResult → Step
unfolding sem_enqueued
wai_marked k c sem_id (tasks, Task.ok) =
    sem_enqueued (record k { tasks = tasks }) c e_obj
      (sem_enqueue_waiter k.sems tasks sem_id (tasks.slots c).id)
wai_marked k c sem_id (tasks, _) = done (record k { tasks = tasks }) e_obj

unfoldable pub wai_taken : Kernel → ℕ → ℕ → SemTable × SemResult → Step
unfolding wai_marked
wai_taken k c sem_id (sems, Semaphore.ok) = done (record k { sems = sems }) e_ok
wai_taken k c sem_id (sems, Semaphore.wait_required) =
    wai_marked (record k { sems = sems }) c sem_id
      (mark_waiting_on_sem k.tasks (current_id k c) sem_id)
wai_taken k c sem_id (sems, _) = done (record k { sems = sems }) e_id

-- wai_sem
unfoldable pub begin_wai_sem : Kernel → ℕ → Step
unfolding wai_taken
begin_wai_sem k sem_id = elim k.current [
  | none ↦ done k e_ctx
  | some c ↦
      if is_running (k.tasks.slots c).state
      then elim (sem_get_by_id k.sems sem_id) [
        | none ↦ done k e_id
        | some _ ↦ wai_taken k c sem_id (sem_take_if_available k.sems sem_id)
      ]
      else done k e_ctx
]

unfoldable pub delay_enqueued : Kernel → ℕ → Er → DelayQueue × DelayResult → Step
delay_enqueued k c failed (delays, DelayQueue.ok) = switches (record k { delays = delays }) c
delay_enqueued k c failed (delays, _) = done (record k { delays = delays }) failed

unfoldable pub twai_queued : Kernel → ℕ → ℕ → SemTable × SemResult → Step
unfolding delay_enqueued
twai_queued k c timeout_ticks (sems, Semaphore.ok) =
    delay_enqueued (record k { sems = sems }) c e_qovr
      (enqueue k.delays k.tasks (current_id k c) timeout_ticks)
twai_queued k c timeout_ticks (sems, _) = done (record k { sems = sems }) e_id

unfoldable pub twai_marked : Kernel → ℕ → ℕ → ℕ → TaskTable × TaskResult → Step
unfolding twai_queued
twai_marked k c sem_id timeout_ticks (tasks, Task.ok) =
    twai_queued (record k { tasks = tasks }) c timeout_ticks
      (sem_enqueue_waiter k.sems tasks sem_id (tasks.slots c).id)
twai_marked k c sem_id timeout_ticks (tasks, _) = done (record k { tasks = tasks }) e_obj

-- The checks of both queues before the task starts to wait.
unfoldable pub twai_checked : Kernel → ℕ → ℕ → ℕ → SemResult → DelayResult → Step
unfolding twai_marked
twai_checked k c sem_id timeout_ticks Semaphore.ok DelayQueue.ok =
    twai_marked k c sem_id timeout_ticks
      (mark_waiting_on_sem_timeout k.tasks (current_id k c) sem_id timeout_ticks)
twai_checked k c sem_id timeout_ticks Semaphore.ok _ = done k e_qovr
twai_checked k c sem_id timeout_ticks _ _ = done k e_id

unfoldable pub twai_taken : Kernel → ℕ → ℕ → ℕ → SemTable × SemResult → Step
unfolding twai_checked
twai_taken k c sem_id timeout_ticks (sems, Semaphore.ok) = done (record k { sems = sems }) e_ok
twai_taken k c sem_id timeout_ticks (sems, Semaphore.wait_required) =
    twai_checked (record k { sems = sems }) c sem_id timeout_ticks
      (sem_can_enqueue_waiter sems sem_id (current_id k c)) (can_enqueue k.delays (current_id k c))
twai_taken k c sem_id timeout_ticks (sems, _) = done (record k { sems = sems }) e_id

-- twai_sem
unfoldable pub begin_twai_sem : Kernel → ℕ → ℕ → Step
unfolding twai_taken
begin_twai_sem k sem_id timeout_ticks = elim k.current [
  | none ↦ done k e_ctx
  | some c ↦
      if timeout_ticks == 0
      then done k e_par
      else if is_running (k.tasks.slots c).state
      then elim (sem_get_by_id k.sems sem_id) [
        | none ↦ done k e_id
        | some _ ↦ twai_taken k c sem_id timeout_ticks (sem_take_if_available k.sems sem_id)
      ]
      else done k e_ctx
]

unfoldable pub dly_marked : Kernel → ℕ → ℕ → TaskTable × TaskResult → Step
unfolding delay_enqueued
dly_marked k c delay_ticks (tasks, Task.ok) =
    delay_enqueued (record k { tasks = tasks }) c e_obj
      (enqueue k.delays tasks (tasks.slots c).id delay_ticks)
dly_marked k c delay_ticks (tasks, _) = done (record k { tasks = tasks }) e_obj

unfoldable pub dly_checked : Kernel → ℕ → ℕ → DelayResult → Step
unfolding dly_marked
dly_checked k c delay_ticks DelayQueue.ok =
    dly_marked k c delay_ticks (mark_waiting_on_delay k.tasks (current_id k c) delay_ticks)
dly_checked k c delay_ticks _ = done k e_qovr

-- dly_tsk
unfoldable pub begin_dly_tsk : Kernel → ℕ → Step
unfolding dly_checked
begin_dly_tsk k delay_ticks = elim k.current [
  | none ↦ done k e_ctx
  | some c ↦
      if delay_ticks == 0
      then done k e_par
      else if is_running (k.tasks.slots c).state
      then dly_checked k c delay_ticks (can_enqueue k.delays (current_id k c))
      else done k e_ctx
]
