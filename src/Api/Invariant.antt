-- ===== src/Api/Invariant.antt =====
-- What cre_tsk, sta_tsk, wup_tsk and pol_sem of kernel/itron_api.c keep.
use itron_rtos.Common.{
  ℕ, Bool, true, false, ◌&&◌, Option, inl, inr, if◌then◌else◌, Bool-cases, Option-cases,
  is_positive, int_lt,
}
use itron_rtos.Task
use itron_rtos.Task.{
  TaskTable, TaskResult, Tcb, is_running, is_on_semaphore_timeout, is_on_delay, WaitReason,
  no_reason, on_semaphore, on_delay, on_semaphore_timeout, on_sleep,
}
use itron_rtos.Task.Create.{TaskSpec, lacks_attribute}
use itron_rtos.Semaphore
use itron_rtos.Semaphore.{SemTable, SemResult, sem_get_by_id}
use itron_rtos.Semaphore.Bounds.{AllSemsOk, takes, run_sem, run_sem-AllSemsOk}
use itron_rtos.DelayQueue.Invariant.{QueueOk}
use itron_rtos.Pending.{Pending, from_task, Reason}
use itron_rtos.Pending.Requests.{PendingOk, Fits, request-Requested}
use itron_rtos.Kernel.{Kernel}
use itron_rtos.Api.{Er, finish_create, cre_tsk, polled, pol_sem}
use itron_rtos.Api.Readying.{readied, request_after, ReadiesOrNot}

-- The counts and rings of the semaphores, the entries of the delay queue, and the request.
abbrev pub KernelOk : Kernel → Type 0
KernelOk k = AllSemsOk k.sems × QueueOk k.delays × PendingOk k.pending

pub if-PendingOk :
    (b : Bool) (p q : Pending) → PendingOk p → PendingOk q → PendingOk (if b then p else q)
if-PendingOk true p q v w = v
if-PendingOk false p q v w = w

finish_create-KernelOk :
    (k : Kernel) (tasks : TaskTable) (r : TaskResult)
    → KernelOk k
    → KernelOk (finish_create k (tasks, r)).0
unfolding finish_create
finish_create-KernelOk k tasks Task.ok v = v
finish_create-KernelOk k tasks Task.full v = v
finish_create-KernelOk k tasks Task.inval v = v
finish_create-KernelOk k tasks Task.id_overflow v = v
finish_create-KernelOk k tasks Task.not_found v = v
finish_create-KernelOk k tasks Task.bad_state v = v

pub cre_tsk-KernelOk :
    (k : Kernel) (tskid : ℕ) (pk : Option TaskSpec) → KernelOk k → KernelOk (cre_tsk k tskid pk).0
unfolding cre_tsk
cre_tsk-KernelOk k tskid pk v = elim (Bool-cases (is_positive tskid)) [
  | inr neg ↦ rw (cre_tsk, neg) v
  | inl pos ↦ elim (Option-cases pk) [
    | inl e ↦ rw (cre_tsk, pos, e) v
    | inr (a, e) ↦ elim (Bool-cases (lacks_attribute a)) [
      | inl bad ↦ rw (cre_tsk, pos, e, bad) v
      | inr good ↦ rw (cre_tsk, pos, e, good) (finish_create-KernelOk k _ _ v)
    ]
  ]
]

request_after-PendingOk :
    (k : Kernel) (why : Reason) (j : ℕ)
    → Fits from_task why
    → PendingOk k.pending
    → PendingOk (request_after k why j)
request_after-PendingOk k why j fits v = elim (Option-cases k.current) [
  | inl e ↦ rw e v
  | inr (c, e) ↦ rw e (
      if-PendingOk
        (is_running ((readied k.tasks j).slots c).state
          && int_lt (k.tasks.slots j).priority ((readied k.tasks j).slots c).priority)
        _ _ (inr (request-Requested (readied k.tasks j) from_task why c j fits)) v)
]

pub ReadiesOrNot-KernelOk :
    (k : Kernel) (why : Reason) (accepts : Tcb → Bool) (task_id : ℕ) (r : Kernel × Er)
    → Fits from_task why
    → ReadiesOrNot k why accepts task_id r
    → KernelOk k
    → KernelOk r.0
ReadiesOrNot-KernelOk k why accepts task_id r fits (inl (_, m)) (sems, delays, pending) =
    rw m.whole (sems, delays, request_after-PendingOk k why m.slot fits pending)
ReadiesOrNot-KernelOk k why accepts task_id r fits (inr d) v = rw d.same v

polled-KernelOk :
    (k : Kernel) (sems : SemTable) (r : SemResult)
    → AllSemsOk sems
    → KernelOk k
    → KernelOk (polled k (sems, r)).0
unfolding polled
polled-KernelOk k sems Semaphore.ok s (_, d, p) = (s, d, p)
polled-KernelOk k sems Semaphore.full s (_, d, p) = (s, d, p)
polled-KernelOk k sems Semaphore.inval s (_, d, p) = (s, d, p)
polled-KernelOk k sems Semaphore.overflow s (_, d, p) = (s, d, p)
polled-KernelOk k sems Semaphore.task_error s (_, d, p) = (s, d, p)
polled-KernelOk k sems Semaphore.queue_empty s (_, d, p) = (s, d, p)
polled-KernelOk k sems Semaphore.wait_required s (_, d, p) = (s, d, p)

pub pol_sem-KernelOk : (k : Kernel) (sem_id : ℕ) → KernelOk k → KernelOk (pol_sem k sem_id).0
unfolding pol_sem run_sem
pol_sem-KernelOk k sem_id v = elim (Option-cases k.current) [
  | inl e ↦ rw (pol_sem, e) v
  | inr (c, e) ↦ elim (Bool-cases (is_running (k.tasks.slots c).state)) [
    | inr not_running ↦ rw (pol_sem, e, not_running) v
    | inl runs ↦ elim (Option-cases (sem_get_by_id k.sems sem_id)) [
      | inl f ↦ rw (pol_sem, e, runs, f) v
      | inr (i, f) ↦
          rw (pol_sem, e, runs, f)
            (polled-KernelOk k _ _ (run_sem-AllSemsOk k.tasks (takes sem_id) k.sems v.0) v)
    ]
  ]
]
