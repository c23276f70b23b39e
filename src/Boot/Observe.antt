-- ===== src/Boot/Observe.antt =====
-- The parts of the boot sequence of kernel/kernel.c that do not switch tasks.
use itron_rtos.Common.{ℕ, Bool, true, false, if◌then◌else◌, is_nonneg}
use itron_rtos.Task
use itron_rtos.Task.{TaskTable, TaskResult}
use itron_rtos.Task.Moves.{
  mark_ready_from_running, mark_waiting_on_delay, mark_waiting_on_sem_timeout,
}
use itron_rtos.Scheduler.{PreemptDecision, select_preemption_candidate}
use itron_rtos.Semaphore
use itron_rtos.Semaphore.{SemTable, SemResult}
use itron_rtos.Semaphore.WaitQueue.{sem_enqueue_waiter}
use itron_rtos.DelayQueue
use itron_rtos.DelayQueue.{DelayQueue, DelayResult, enqueue}
use itron_rtos.Pending.{log_state_from_irq}
use itron_rtos.Kernel.{Kernel, timer_tick, evaluate_from_irq}
use itron_rtos.Boot.{sem_tick_timeout, Image, create_sem, and_then, commit_id}

-- timer_init
abbrev pub timer_init : Kernel → Kernel
timer_init k = record k { system_ticks = 0 }

-- kernel_run_timer_smoke
unfoldable pub timer_smoke : Kernel → Kernel
timer_smoke k = timer_tick (timer_tick (timer_tick (timer_init k)))

-- kernel_run_preemption_decision_smoke, with the decision that it prints
unfoldable pub decision_smoke : Kernel → Kernel × PreemptDecision
decision_smoke k = let k' = timer_tick k in (k', select_preemption_candidate k'.tasks k'.current)

-- A decision, after which the task is made READY again.
unfoldable pub decide_and_return : ℕ → Kernel → Kernel
unfolding decision_smoke
decide_and_return task_id k =
    let (k', d) = decision_smoke k in
    record k' { tasks = (mark_ready_from_running k'.tasks task_id).0 }

-- A decision with the task as the current one.
unfoldable pub decision_from : ℕ → Kernel → Kernel
unfolding decide_and_return
decision_from task_id k = and_then (commit_id k task_id) (decide_and_return task_id)

-- kernel_run_preemption_smoke
unfoldable pub preemption_smoke : ℕ → ℕ → Kernel → Kernel
unfolding decision_from decision_smoke
preemption_smoke low_task_id high_task_id k =
    let (k', d) = decision_smoke k in decision_from high_task_id (decision_from low_task_id k')

unfoldable pub delay_queued : Kernel → DelayQueue × DelayResult → Kernel × Bool
delay_queued k (delays, DelayQueue.ok) = (record k { delays = delays }, true)
delay_queued k (delays, _) = (record k { delays = delays }, false)

unfoldable pub delay_marked : Kernel → ℕ → TaskTable × TaskResult → Kernel × Bool
unfolding delay_queued
delay_marked k task_id (tasks, Task.ok) =
    delay_queued (record k { tasks = tasks }) (enqueue k.delays tasks task_id 1)
delay_marked k task_id (tasks, _) = (record k { tasks = tasks }, false)

unfoldable pub timed_queued : Kernel → ℕ → SemTable × SemResult → Kernel × Bool
unfolding delay_queued
timed_queued k task_id (sems, Semaphore.ok) =
    delay_queued (record k { sems = sems }) (enqueue k.delays k.tasks task_id 1)
timed_queued k task_id (sems, _) = (record k { sems = sems }, false)

unfoldable pub timed_marked : Kernel → ℕ → ℕ → TaskTable × TaskResult → Kernel × Bool
unfolding timed_queued
timed_marked k sem_id task_id (tasks, Task.ok) =
    timed_queued (record k { tasks = tasks }) task_id
      (sem_enqueue_waiter k.sems tasks sem_id task_id)
timed_marked k sem_id task_id (tasks, _) = (record k { tasks = tasks }, false)

-- kernel_run_tick_ready_wakeup_smoke from the commit of the task to compare with on.
unfoldable pub tick_and_evaluate : ℕ → Kernel → Kernel
tick_and_evaluate current_task_id k = and_then (commit_id k current_task_id) λ k1.
    let k2 = evaluate_from_irq (timer_tick k1) in
    record k2 { pending = log_state_from_irq k2.pending }

-- The part before it, from the commit of the task with the timeout on.
unfoldable pub wait_with_timeout : ℕ → ℕ → ℕ → Kernel → Kernel
unfolding timed_marked tick_and_evaluate
wait_with_timeout sem_id twai_task_id current_task_id k = and_then (commit_id k twai_task_id) λ k1.
    and_then
      (timed_marked k1 sem_id twai_task_id
        (mark_waiting_on_sem_timeout k1.tasks twai_task_id sem_id 1))
      (tick_and_evaluate current_task_id)

-- The part before that, from the commit of the delayed task on.
unfoldable pub wait_for_tick : ℕ → ℕ → ℕ → ℕ → Kernel → Kernel
unfolding delay_marked wait_with_timeout
wait_for_tick sem_id delay_task_id twai_task_id current_task_id k =
    and_then (commit_id k delay_task_id) λ k1.
      and_then (delay_marked k1 delay_task_id (mark_waiting_on_delay k1.tasks delay_task_id 1))
        (wait_with_timeout sem_id twai_task_id current_task_id)

-- kernel_run_tick_ready_wakeup_smoke
unfoldable pub tick_ready_smoke : Image → ℕ → ℕ → ℕ → Kernel → Kernel
unfolding wait_for_tick
tick_ready_smoke im delay_task_id twai_task_id current_task_id k =
    let (k', sem_id) = create_sem im sem_tick_timeout 0 1 k in
    if is_nonneg sem_id
    then wait_for_tick sem_id delay_task_id twai_task_id current_task_id k'
    else k'
