-- ===== src/Api/SignalInvariant.antt =====
-- What sig_sem of kernel/itron_api.c keeps.
use itron_rtos.Common.{ℕ, ◌&&◌, Option, none, some, inl, inr, Option-cases}
use itron_rtos.Task
use itron_rtos.Task.{
  TaskTable, TaskResult, Tcb, is_running, is_on_semaphore_timeout, is_on_delay, WaitReason,
  no_reason, on_semaphore, on_delay, on_semaphore_timeout, on_sleep,
}
use itron_rtos.Task.Lookup.{task_get_by_id}
use itron_rtos.Semaphore
use itron_rtos.Semaphore.{SemTable, SemResult, sem_get_by_id}
use itron_rtos.Semaphore.Bounds.{
  AllSemsOk, increments, run_sem, run_sem-AllSemsOk, dequeue-AllSemsOk,
}
use itron_rtos.DelayQueue
use itron_rtos.DelayQueue.{DelayQueue, DelayResult, Entry, remove_sem_timeout_waiter}
use itron_rtos.DelayQueue.Invariant.{QueueOk, remove_sem_timeout_waiter-QueueOk}
use itron_rtos.Pending.Requests.{from_task_wakeup-PendingOk}
use itron_rtos.Kernel.{Kernel}
use itron_rtos.Api.{
  counted, found_ready, outranks_current, signalled, signal_timed, signal_waiter, signal_dequeued,
  sig_sem,
}
use itron_rtos.Api.Invariant.{KernelOk, if-PendingOk}

module _ (k : Kernel) (v : KernelOk k) where
  counted-KernelOk :
      (sems : SemTable) (r : SemResult) → AllSemsOk sems → KernelOk (counted k (sems, r)).0
  unfolding counted
  counted-KernelOk sems Semaphore.ok s = (s, v.1, v.2)
  counted-KernelOk sems Semaphore.full s = (s, v.1, v.2)
  counted-KernelOk sems Semaphore.inval s = (s, v.1, v.2)
  counted-KernelOk sems Semaphore.overflow s = (s, v.1, v.2)
  counted-KernelOk sems Semaphore.task_error s = (s, v.1, v.2)
  counted-KernelOk sems Semaphore.queue_empty s = (s, v.1, v.2)
  counted-KernelOk sems Semaphore.wait_required s = (s, v.1, v.2)

  signalled-KernelOk :
      (task_id : ℕ) (tasks : TaskTable) (r : TaskResult)
      → KernelOk (signalled k task_id (tasks, r)).0
  unfolding signalled
  signalled-KernelOk task_id tasks Task.ok =
      let j = task_get_by_id tasks task_id in
      (
        v.0,
        v.1,
        if-PendingOk (found_ready tasks j && outranks_current tasks k.current j) _ _
            (from_task_wakeup-PendingOk tasks k.current j k.pending) v.2,
      )
  signalled-KernelOk task_id tasks Task.full = v
  signalled-KernelOk task_id tasks Task.inval = v
  signalled-KernelOk task_id tasks Task.id_overflow = v
  signalled-KernelOk task_id tasks Task.not_found = v
  signalled-KernelOk task_id tasks Task.bad_state = v

signal_timed-KernelOk :
    (k : Kernel) (sem_id task_id : ℕ) (delays : DelayQueue) (r : DelayResult)
    → QueueOk delays
    → KernelOk k
    → KernelOk (signal_timed k sem_id task_id (delays, r)).0
unfolding signal_timed
signal_timed-KernelOk k sem_id task_id delays DelayQueue.ok d v =
    signalled-KernelOk (record k { delays = delays }) (v.0, d, v.2) task_id _ _
signal_timed-KernelOk k sem_id task_id delays DelayQueue.inval d v = (v.0, d, v.2)
signal_timed-KernelOk k sem_id task_id delays DelayQueue.full d v = (v.0, d, v.2)
signal_timed-KernelOk k sem_id task_id delays DelayQueue.duplicate d v = (v.0, d, v.2)
signal_timed-KernelOk k sem_id task_id delays DelayQueue.task_state d v = (v.0, d, v.2)

signal_waiter-KernelOk :
    (k : Kernel) (sem_id task_id : ℕ) (why : WaitReason)
    → KernelOk k
    → KernelOk (signal_waiter k sem_id task_id why).0
unfolding signal_waiter
signal_waiter-KernelOk k sem_id task_id on_semaphore_timeout v =
    signal_timed-KernelOk k sem_id task_id _ _
      (remove_sem_timeout_waiter-QueueOk k.delays k.tasks task_id v.1) v
signal_waiter-KernelOk k sem_id task_id on_semaphore v = signalled-KernelOk k v task_id _ _
signal_waiter-KernelOk k sem_id task_id no_reason v = v
signal_waiter-KernelOk k sem_id task_id on_delay v = v
signal_waiter-KernelOk k sem_id task_id on_sleep v = v

signal_dequeued-KernelOk :
    (k : Kernel) (sem_id : ℕ) (sems : SemTable) (r : SemResult) (o : Option ℕ)
    → AllSemsOk sems
    → KernelOk k
    → KernelOk (signal_dequeued k sem_id (sems, r, o)).0
unfolding signal_dequeued run_sem
signal_dequeued-KernelOk k sem_id sems Semaphore.queue_empty o s v =
    counted-KernelOk (record k { sems = sems }) (s, v.1, v.2) _ _
      (run_sem-AllSemsOk k.tasks (increments sem_id) sems s)
signal_dequeued-KernelOk k sem_id sems Semaphore.ok none s v = (s, v.1, v.2)
signal_dequeued-KernelOk k sem_id sems Semaphore.ok (some task_id) s v =
    elim (Option-cases (task_get_by_id k.tasks task_id)) [
      | inl e ↦ rw (signal_dequeued, e) (s, v.1, v.2)
      | inr (j, e) ↦
          rw (signal_dequeued, e)
            (signal_waiter-KernelOk (record k { sems = sems }) sem_id task_id
              (k.tasks.slots j).wait_reason (s, v.1, v.2))
    ]
signal_dequeued-KernelOk k sem_id sems Semaphore.full o s v = (s, v.1, v.2)
signal_dequeued-KernelOk k sem_id sems Semaphore.inval o s v = (s, v.1, v.2)
signal_dequeued-KernelOk k sem_id sems Semaphore.overflow o s v = (s, v.1, v.2)
signal_dequeued-KernelOk k sem_id sems Semaphore.task_error o s v = (s, v.1, v.2)
signal_dequeued-KernelOk k sem_id sems Semaphore.wait_required o s v = (s, v.1, v.2)

pub sig_sem-KernelOk : (k : Kernel) (sem_id : ℕ) → KernelOk k → KernelOk (sig_sem k sem_id).0
unfolding sig_sem
sig_sem-KernelOk k sem_id v = elim (Option-cases (sem_get_by_id k.sems sem_id)) [
  | inl e ↦ rw (sig_sem, e) v
  | inr (i, e) ↦
      rw (sig_sem, e)
        (signal_dequeued-KernelOk k sem_id _ _ _ (dequeue-AllSemsOk k.sems sem_id v.0) v)
]
