-- ===== src/Api/Runner.antt =====
-- At most one RUNNING task: the calls of kernel/itron_api.c that do not switch, and the timer
-- interrupt.
use itron_rtos.Common.{ℕ, ◌≢◌, refl, Option, none, some, inl, inr, Option-cases, int_max}
use itron_rtos.Task
use itron_rtos.Task.{
  TaskTable, TaskResult, TaskState, Tcb, ready, is_running, is_on_semaphore_timeout, is_on_delay,
  is_dormant, WaitReason, no_reason, on_semaphore, on_delay, on_semaphore_timeout, on_sleep,
}
use itron_rtos.Task.Lookup.{task_get_by_id}
use itron_rtos.Task.Ops.{wakes_sem, wakes_sem_timeout, run_call}
use itron_rtos.Task.Running.{NoNewRunner, NoNewRunner-refl, run_call-NoNewRunner}
use itron_rtos.Semaphore
use itron_rtos.Semaphore.{SemTable, SemResult, sem_get_by_id}
use itron_rtos.DelayQueue
use itron_rtos.DelayQueue.{DelayQueue, DelayResult, Entry}
use itron_rtos.Pending.{task_start, task_wakeup}
use itron_rtos.DelayQueue.{remove_sem_timeout_waiter}
use itron_rtos.Kernel.{Kernel, timer_irq}
use itron_rtos.Kernel.Runner.{RunnerOk}
use itron_rtos.Api.{
  sta_tsk, wup_tsk, counted, signalled, signal_timed, signal_waiter, signal_dequeued, sig_sem,
}
use itron_rtos.Api.Readying.{sta_tsk-ReadiesOrNot, wup_tsk-ReadiesOrNot, sleeps}
use itron_rtos.Api.History.{
  KernelCall, calls_cre_tsk, calls_sta_tsk, calls_wup_tsk, calls_pol_sem, calls_sig_sem,
  creates_sem, interrupts, run_kernel_call,
}
use itron_rtos.Api.Calm.{cre_tsk-Calm, ReadiesOrNot-Calm, pol_sem-Calm}
use itron_rtos.Kernel.Calm.{Calm, Calm-RunnerOk, still, with_sems, timer_irq-Calm}

counted-Calm : (k : Kernel) (sems : SemTable) (r : SemResult) → Calm k (counted k (sems, r)).0
unfolding counted
counted-Calm k sems Semaphore.ok = with_sems k sems
counted-Calm k sems Semaphore.full = with_sems k sems
counted-Calm k sems Semaphore.inval = with_sems k sems
counted-Calm k sems Semaphore.overflow = with_sems k sems
counted-Calm k sems Semaphore.task_error = with_sems k sems
counted-Calm k sems Semaphore.queue_empty = with_sems k sems
counted-Calm k sems Semaphore.wait_required = with_sems k sems

module _ (k : Kernel) (task_id : ℕ) (tasks : TaskTable) (n : NoNewRunner k.tasks tasks) where
  signalled-Calm : (r : TaskResult) → Calm k (signalled k task_id (tasks, r)).0
  unfolding signalled
  signalled-Calm Task.ok = record { tasks = n; current = refl }
  signalled-Calm Task.full = record { tasks = n; current = refl }
  signalled-Calm Task.inval = record { tasks = n; current = refl }
  signalled-Calm Task.id_overflow = record { tasks = n; current = refl }
  signalled-Calm Task.not_found = record { tasks = n; current = refl }
  signalled-Calm Task.bad_state = record { tasks = n; current = refl }

signal_timed-Calm :
    (k : Kernel) (sem_id task_id : ℕ) (delays : DelayQueue) (r : DelayResult)
    → Calm k (signal_timed k sem_id task_id (delays, r)).0
unfolding signal_timed run_call
signal_timed-Calm k sem_id task_id delays DelayQueue.ok =
    let c =
      signalled-Calm (record k { delays = delays }) task_id _
        (run_call-NoNewRunner (wakes_sem_timeout task_id sem_id) k.tasks refl tt) _ in
    record { tasks = c.tasks; current = c.current }
signal_timed-Calm k sem_id task_id delays DelayQueue.inval = record {
  tasks = NoNewRunner-refl k.tasks;
  current = refl;
}
signal_timed-Calm k sem_id task_id delays DelayQueue.full = record {
  tasks = NoNewRunner-refl k.tasks;
  current = refl;
}
signal_timed-Calm k sem_id task_id delays DelayQueue.duplicate = record {
  tasks = NoNewRunner-refl k.tasks;
  current = refl;
}
signal_timed-Calm k sem_id task_id delays DelayQueue.task_state = record {
  tasks = NoNewRunner-refl k.tasks;
  current = refl;
}

signal_waiter-Calm :
    (k : Kernel) (sem_id task_id : ℕ) (why : WaitReason)
    → Calm k (signal_waiter k sem_id task_id why).0
unfolding signal_waiter run_call
signal_waiter-Calm k sem_id task_id on_semaphore_timeout = signal_timed-Calm k sem_id task_id _ _
signal_waiter-Calm k sem_id task_id on_semaphore =
    signalled-Calm k task_id _ (run_call-NoNewRunner (wakes_sem task_id sem_id) k.tasks refl tt) _
signal_waiter-Calm k sem_id task_id no_reason = still k
signal_waiter-Calm k sem_id task_id on_delay = still k
signal_waiter-Calm k sem_id task_id on_sleep = still k

signal_dequeued-Calm :
    (k : Kernel) (sem_id : ℕ) (sems : SemTable) (r : SemResult) (o : Option ℕ)
    → Calm k (signal_dequeued k sem_id (sems, r, o)).0
unfolding signal_dequeued
signal_dequeued-Calm k sem_id sems Semaphore.queue_empty o =
    let c = counted-Calm (record k { sems = sems }) _ _ in
    record { tasks = c.tasks; current = c.current }
signal_dequeued-Calm k sem_id sems Semaphore.ok none = with_sems k sems
signal_dequeued-Calm k sem_id sems Semaphore.ok (some task_id) =
    elim (Option-cases (task_get_by_id k.tasks task_id)) [
      | inl e ↦ rw (signal_dequeued, e) (with_sems k sems)
      | inr (j, e) ↦
          rw (signal_dequeued, e)
            (let c =
                signal_waiter-Calm (record k { sems = sems }) sem_id task_id
                  (k.tasks.slots j).wait_reason in
              record { tasks = c.tasks; current = c.current })
    ]
signal_dequeued-Calm k sem_id sems Semaphore.full o = with_sems k sems
signal_dequeued-Calm k sem_id sems Semaphore.inval o = with_sems k sems
signal_dequeued-Calm k sem_id sems Semaphore.overflow o = with_sems k sems
signal_dequeued-Calm k sem_id sems Semaphore.task_error o = with_sems k sems
signal_dequeued-Calm k sem_id sems Semaphore.wait_required o = with_sems k sems

sig_sem-Calm : (k : Kernel) (sem_id : ℕ) → Calm k (sig_sem k sem_id).0
unfolding sig_sem
sig_sem-Calm k sem_id = elim (Option-cases (sem_get_by_id k.sems sem_id)) [
  | inl e ↦ rw (sig_sem, e) (still k)
  | inr (i, e) ↦ rw (sig_sem, e) (signal_dequeued-Calm k sem_id _ _ _)
]

-- cre_tsk is not called with the greatest `int`, past which no id is left.
abbrev pub KeepsRoom : KernelCall → Type 0
KeepsRoom (calls_cre_tsk tskid pk) = tskid ≢ int_max
KeepsRoom _ = Unit {0}

run_kernel_call-Calm : (c : KernelCall) (k : Kernel) → KeepsRoom c → Calm k (run_kernel_call c k)
unfolding run_kernel_call
run_kernel_call-Calm (calls_cre_tsk tskid pk) k room = cre_tsk-Calm k tskid pk room
run_kernel_call-Calm (calls_sta_tsk tskid) k room =
    ReadiesOrNot-Calm k task_start _ tskid (sta_tsk k tskid) (sta_tsk-ReadiesOrNot k tskid)
run_kernel_call-Calm (calls_wup_tsk tskid) k room =
    ReadiesOrNot-Calm k task_wakeup sleeps tskid (wup_tsk k tskid) (wup_tsk-ReadiesOrNot k tskid)
run_kernel_call-Calm (calls_pol_sem sem_id) k room = pol_sem-Calm k sem_id
run_kernel_call-Calm (calls_sig_sem sem_id) k room = sig_sem-Calm k sem_id
run_kernel_call-Calm (creates_sem a) k room = with_sems k _
run_kernel_call-Calm interrupts k room = timer_irq-Calm k

pub run_kernel_call-RunnerOk :
    (c : KernelCall) (k : Kernel) → KeepsRoom c → RunnerOk k → RunnerOk (run_kernel_call c k)
run_kernel_call-RunnerOk c k room = Calm-RunnerOk k _ (run_kernel_call-Calm c k room)

pub timer_irq-RunnerOk : (k : Kernel) → RunnerOk k → RunnerOk (timer_irq k)
timer_irq-RunnerOk k = Calm-RunnerOk k _ (timer_irq-Calm k)
