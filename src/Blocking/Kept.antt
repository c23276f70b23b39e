-- ===== src/Blocking/Kept.antt =====
-- The steps of slp_tsk, wai_sem, twai_sem and dly_tsk of kernel/itron_api.c behind their guards.
use itron_rtos.Common.{ℕ}
use itron_rtos.Task
use itron_rtos.Task.{TaskTable, TaskResult, is_running}
use itron_rtos.Semaphore
use itron_rtos.Semaphore.{SemTable, SemResult, sem_get_by_id}
use itron_rtos.Semaphore.Count.{sem_take_if_available}
use itron_rtos.Semaphore.WaitQueue.{sem_enqueue_waiter}
use itron_rtos.Semaphore.Bounds.{AllSemsOk, takes, enqueues, run_sem, run_sem-AllSemsOk}
use itron_rtos.DelayQueue
use itron_rtos.DelayQueue.{DelayQueue, DelayResult, can_enqueue, enqueue}
use itron_rtos.DelayQueue.Invariant.{QueueOk, enqueue-QueueOk}
use itron_rtos.Kernel.{Kernel}
use itron_rtos.Api.{Er}
use itron_rtos.Api.Invariant.{KernelOk}
use itron_rtos.Blocking.Begin.{
  Step, done, switches, current_id, slept, sem_enqueued, wai_marked, wai_taken, delay_enqueued,
  twai_queued, twai_marked, twai_checked, twai_taken, dly_marked, dly_checked,
}

abbrev pub StepOk : Step → Type 0
StepOk (done k er) = KernelOk k
StepOk (switches k c) = KernelOk k

pub take-AllSemsOk :
    (tasks : TaskTable) (sems : SemTable) (sem_id : ℕ)
    → AllSemsOk sems
    → AllSemsOk (sem_take_if_available sems sem_id).0
unfolding run_sem
take-AllSemsOk tasks sems sem_id s = run_sem-AllSemsOk tasks (takes sem_id) sems s

pub wait-AllSemsOk :
    (sems : SemTable) (tasks : TaskTable) (sem_id task_id : ℕ)
    → AllSemsOk sems
    → AllSemsOk (sem_enqueue_waiter sems tasks sem_id task_id).0
unfolding run_sem
wait-AllSemsOk sems tasks sem_id task_id s =
    run_sem-AllSemsOk tasks (enqueues sem_id task_id) sems s

pub slept-StepOk :
    (k : Kernel) (c : ℕ) (t : TaskTable) (r : TaskResult) → KernelOk k → StepOk (slept k c (t, r))
unfolding slept
slept-StepOk k c t Task.ok v = v
slept-StepOk k c t Task.full v = v
slept-StepOk k c t Task.inval v = v
slept-StepOk k c t Task.id_overflow v = v
slept-StepOk k c t Task.not_found v = v
slept-StepOk k c t Task.bad_state v = v

sem_enqueued-StepOk :
    (k : Kernel) (c : ℕ) (failed : Er) (sems : SemTable) (r : SemResult)
    → AllSemsOk sems
    → KernelOk k
    → StepOk (sem_enqueued k c failed (sems, r))
unfolding sem_enqueued
sem_enqueued-StepOk k c failed sems Semaphore.ok s v = (s, v.1, v.2)
sem_enqueued-StepOk k c failed sems Semaphore.full s v = (s, v.1, v.2)
sem_enqueued-StepOk k c failed sems Semaphore.inval s v = (s, v.1, v.2)
sem_enqueued-StepOk k c failed sems Semaphore.overflow s v = (s, v.1, v.2)
sem_enqueued-StepOk k c failed sems Semaphore.task_error s v = (s, v.1, v.2)
sem_enqueued-StepOk k c failed sems Semaphore.queue_empty s v = (s, v.1, v.2)
sem_enqueued-StepOk k c failed sems Semaphore.wait_required s v = (s, v.1, v.2)

delay_enqueued-StepOk :
    (k : Kernel) (c : ℕ) (failed : Er) (delays : DelayQueue) (r : DelayResult)
    → QueueOk delays
    → KernelOk k
    → StepOk (delay_enqueued k c failed (delays, r))
unfolding delay_enqueued
delay_enqueued-StepOk k c failed delays DelayQueue.ok q v = (v.0, q, v.2)
delay_enqueued-StepOk k c failed delays DelayQueue.inval q v = (v.0, q, v.2)
delay_enqueued-StepOk k c failed delays DelayQueue.full q v = (v.0, q, v.2)
delay_enqueued-StepOk k c failed delays DelayQueue.duplicate q v = (v.0, q, v.2)
delay_enqueued-StepOk k c failed delays DelayQueue.task_state q v = (v.0, q, v.2)

wai_marked-StepOk :
    (k : Kernel) (c sem_id : ℕ) (t : TaskTable) (r : TaskResult)
    → KernelOk k
    → StepOk (wai_marked k c sem_id (t, r))
unfolding wai_marked
wai_marked-StepOk k c sem_id t Task.ok v =
    sem_enqueued-StepOk (record k { tasks = t }) c _ _ _
      (wait-AllSemsOk k.sems t sem_id (t.slots c).id v.0) v
wai_marked-StepOk k c sem_id t Task.full v = v
wai_marked-StepOk k c sem_id t Task.inval v = v
wai_marked-StepOk k c sem_id t Task.id_overflow v = v
wai_marked-StepOk k c sem_id t Task.not_found v = v
wai_marked-StepOk k c sem_id t Task.bad_state v = v

pub wai_taken-StepOk :
    (k : Kernel) (c sem_id : ℕ) (sems : SemTable) (r : SemResult)
    → AllSemsOk sems
    → KernelOk k
    → StepOk (wai_taken k c sem_id (sems, r))
unfolding wai_taken
wai_taken-StepOk k c sem_id sems Semaphore.ok s v = (s, v.1, v.2)
wai_taken-StepOk k c sem_id sems Semaphore.full s v = (s, v.1, v.2)
wai_taken-StepOk k c sem_id sems Semaphore.inval s v = (s, v.1, v.2)
wai_taken-StepOk k c sem_id sems Semaphore.overflow s v = (s, v.1, v.2)
wai_taken-StepOk k c sem_id sems Semaphore.task_error s v = (s, v.1, v.2)
wai_taken-StepOk k c sem_id sems Semaphore.queue_empty s v = (s, v.1, v.2)
wai_taken-StepOk k c sem_id sems Semaphore.wait_required s v =
    wai_marked-StepOk (record k { sems = sems }) c sem_id _ _ (s, v.1, v.2)

twai_queued-StepOk :
    (k : Kernel) (c timeout_ticks : ℕ) (sems : SemTable) (r : SemResult)
    → AllSemsOk sems
    → KernelOk k
    → StepOk (twai_queued k c timeout_ticks (sems, r))
unfolding twai_queued
twai_queued-StepOk k c ticks sems Semaphore.ok s v =
    delay_enqueued-StepOk (record k { sems = sems }) c _ _ _
      (enqueue-QueueOk k.delays k.tasks (current_id k c) ticks v.1) (s, v.1, v.2)
twai_queued-StepOk k c ticks sems Semaphore.full s v = (s, v.1, v.2)
twai_queued-StepOk k c ticks sems Semaphore.inval s v = (s, v.1, v.2)
twai_queued-StepOk k c ticks sems Semaphore.overflow s v = (s, v.1, v.2)
twai_queued-StepOk k c ticks sems Semaphore.task_error s v = (s, v.1, v.2)
twai_queued-StepOk k c ticks sems Semaphore.queue_empty s v = (s, v.1, v.2)
twai_queued-StepOk k c ticks sems Semaphore.wait_required s v = (s, v.1, v.2)

twai_marked-StepOk :
    (k : Kernel) (c sem_id timeout_ticks : ℕ) (t : TaskTable) (r : TaskResult)
    → KernelOk k
    → StepOk (twai_marked k c sem_id timeout_ticks (t, r))
unfolding twai_marked
twai_marked-StepOk k c sem_id ticks t Task.ok v =
    twai_queued-StepOk (record k { tasks = t }) c ticks _ _
      (wait-AllSemsOk k.sems t sem_id (t.slots c).id v.0) v
twai_marked-StepOk k c sem_id ticks t Task.full v = v
twai_marked-StepOk k c sem_id ticks t Task.inval v = v
twai_marked-StepOk k c sem_id ticks t Task.id_overflow v = v
twai_marked-StepOk k c sem_id ticks t Task.not_found v = v
twai_marked-StepOk k c sem_id ticks t Task.bad_state v = v

twai_checked-StepOk :
    (k : Kernel) (c sem_id timeout_ticks : ℕ) (r : SemResult) (d : DelayResult)
    → KernelOk k
    → StepOk (twai_checked k c sem_id timeout_ticks r d)
unfolding twai_checked
twai_checked-StepOk k c sem_id ticks Semaphore.ok DelayQueue.ok v =
    twai_marked-StepOk k c sem_id ticks _ _ v
twai_checked-StepOk k c sem_id ticks Semaphore.ok DelayQueue.inval v = v
twai_checked-StepOk k c sem_id ticks Semaphore.ok DelayQueue.full v = v
twai_checked-StepOk k c sem_id ticks Semaphore.ok DelayQueue.duplicate v = v
twai_checked-StepOk k c sem_id ticks Semaphore.ok DelayQueue.task_state v = v
twai_checked-StepOk k c sem_id ticks Semaphore.full d v = v
twai_checked-StepOk k c sem_id ticks Semaphore.inval d v = v
twai_checked-StepOk k c sem_id ticks Semaphore.overflow d v = v
twai_checked-StepOk k c sem_id ticks Semaphore.task_error d v = v
twai_checked-StepOk k c sem_id ticks Semaphore.queue_empty d v = v
twai_checked-StepOk k c sem_id ticks Semaphore.wait_required d v = v

pub twai_taken-StepOk :
    (k : Kernel) (c sem_id timeout_ticks : ℕ) (sems : SemTable) (r : SemResult)
    → AllSemsOk sems
    → KernelOk k
    → StepOk (twai_taken k c sem_id timeout_ticks (sems, r))
unfolding twai_taken
twai_taken-StepOk k c sem_id ticks sems Semaphore.ok s v = (s, v.1, v.2)
twai_taken-StepOk k c sem_id ticks sems Semaphore.full s v = (s, v.1, v.2)
twai_taken-StepOk k c sem_id ticks sems Semaphore.inval s v = (s, v.1, v.2)
twai_taken-StepOk k c sem_id ticks sems Semaphore.overflow s v = (s, v.1, v.2)
twai_taken-StepOk k c sem_id ticks sems Semaphore.task_error s v = (s, v.1, v.2)
twai_taken-StepOk k c sem_id ticks sems Semaphore.queue_empty s v = (s, v.1, v.2)
twai_taken-StepOk k c sem_id ticks sems Semaphore.wait_required s v =
    twai_checked-StepOk (record k { sems = sems }) c sem_id ticks _ _ (s, v.1, v.2)

dly_marked-StepOk :
    (k : Kernel) (c delay_ticks : ℕ) (t : TaskTable) (r : TaskResult)
    → KernelOk k
    → StepOk (dly_marked k c delay_ticks (t, r))
unfolding dly_marked
dly_marked-StepOk k c ticks t Task.ok v =
    delay_enqueued-StepOk (record k { tasks = t }) c _ _ _
      (enqueue-QueueOk k.delays t (t.slots c).id ticks v.1) v
dly_marked-StepOk k c ticks t Task.full v = v
dly_marked-StepOk k c ticks t Task.inval v = v
dly_marked-StepOk k c ticks t Task.id_overflow v = v
dly_marked-StepOk k c ticks t Task.not_found v = v
dly_marked-StepOk k c ticks t Task.bad_state v = v

pub dly_checked-StepOk :
    (k : Kernel) (c delay_ticks : ℕ) (r : DelayResult)
    → KernelOk k
    → StepOk (dly_checked k c delay_ticks r)
unfolding dly_checked
dly_checked-StepOk k c ticks DelayQueue.ok v = dly_marked-StepOk k c ticks _ _ v
dly_checked-StepOk k c ticks DelayQueue.inval v = v
dly_checked-StepOk k c ticks DelayQueue.full v = v
dly_checked-StepOk k c ticks DelayQueue.duplicate v = v
dly_checked-StepOk k c ticks DelayQueue.task_state v = v
