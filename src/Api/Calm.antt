-- ===== src/Api/Calm.antt =====
-- cre_tsk, sta_tsk, wup_tsk and pol_sem of kernel/itron_api.c make no task RUNNING.
use itron_rtos.Common.{
  ℕ, ◌≢◌, refl, sym, Option, inl, inr, Bool, Bool-cases, Option-cases, is_positive, int_max,
}
use itron_rtos.Task
use itron_rtos.Task.{
  TaskTable, TaskResult, TaskState, Tcb, ready, is_running, is_on_semaphore_timeout, is_on_delay,
  is_dormant, WaitReason, no_reason, on_semaphore, on_delay, on_semaphore_timeout, on_sleep,
}
use itron_rtos.Task.Lookup.{task_get_by_id-found, find_task-id}
use itron_rtos.Task.Create.{TaskSpec, lacks_attribute}
use itron_rtos.Task.Moves.{settle}
use itron_rtos.Task.Ops.{creates, run_call}
use itron_rtos.Task.Running.{NoNewRunner, write-NoNewRunner, run_call-NoNewRunner}
use itron_rtos.Semaphore
use itron_rtos.Semaphore.{SemTable, SemResult, sem_get_by_id}
use itron_rtos.Pending.{Reason}
use itron_rtos.Kernel.{Kernel}
use itron_rtos.Kernel.Calm.{Calm, still, with_sems}
use itron_rtos.Api.{Er, finish_create, cre_tsk, polled, pol_sem}
use itron_rtos.Api.Readying.{ReadiesOrNot}

finish_create-Calm :
    (k : Kernel) (tasks : TaskTable) (r : TaskResult)
    → NoNewRunner k.tasks tasks
    → Calm k (finish_create k (tasks, r)).0
unfolding finish_create
finish_create-Calm k tasks Task.ok n = record { tasks = n; current = refl }
finish_create-Calm k tasks Task.full n = record { tasks = n; current = refl }
finish_create-Calm k tasks Task.inval n = record { tasks = n; current = refl }
finish_create-Calm k tasks Task.id_overflow n = record { tasks = n; current = refl }
finish_create-Calm k tasks Task.not_found n = record { tasks = n; current = refl }
finish_create-Calm k tasks Task.bad_state n = record { tasks = n; current = refl }

pub cre_tsk-Calm :
    (k : Kernel) (tskid : ℕ) (pk : Option TaskSpec)
    → tskid ≢ int_max
    → Calm k (cre_tsk k tskid pk).0
unfolding cre_tsk run_call
cre_tsk-Calm k tskid pk room = elim (Bool-cases (is_positive tskid)) [
  | inr neg ↦ rw (cre_tsk, neg) (still k)
  | inl pos ↦ elim (Option-cases pk) [
    | inl e ↦ rw (cre_tsk, pos, e) (still k)
    | inr (a, e) ↦ elim (Bool-cases (lacks_attribute a)) [
      | inl bad ↦ rw (cre_tsk, pos, e, bad) (still k)
      | inr good ↦
          rw (cre_tsk, pos, e, good)
            (finish_create-Calm k _ _ (run_call-NoNewRunner (creates tskid a) k.tasks refl room))
    ]
  ]
]

pub ReadiesOrNot-Calm :
    (k : Kernel) (why : Reason) (accepts : Tcb → Bool) (task_id : ℕ) (r : Kernel × Er)
    → ReadiesOrNot k why accepts task_id r
    → Calm k r.0
ReadiesOrNot-Calm k why accepts task_id r (inl (_, m)) =
    let (pos, at_j) = task_get_by_id-found k.tasks task_id m.slot m.found in
    let (_, used, _) = find_task-id k.tasks task_id m.slot at_j in
    rw m.whole (record {
      tasks =
          write-NoNewRunner k.tasks m.slot (settle ready (k.tasks.slots m.slot)) refl (sym used)
            (λ h. cc h);
      current = refl;
    })
ReadiesOrNot-Calm k why accepts task_id r (inr d) = rw d.same (still k)

polled-Calm : (k : Kernel) (sems : SemTable) (r : SemResult) → Calm k (polled k (sems, r)).0
unfolding polled
polled-Calm k sems Semaphore.ok = with_sems k sems
polled-Calm k sems Semaphore.full = with_sems k sems
polled-Calm k sems Semaphore.inval = with_sems k sems
polled-Calm k sems Semaphore.overflow = with_sems k sems
polled-Calm k sems Semaphore.task_error = with_sems k sems
polled-Calm k sems Semaphore.queue_empty = with_sems k sems
polled-Calm k sems Semaphore.wait_required = with_sems k sems

pub pol_sem-Calm : (k : Kernel) (sem_id : ℕ) → Calm k (pol_sem k sem_id).0
unfolding pol_sem
pol_sem-Calm k sem_id = elim (Option-cases k.current) [
  | inl e ↦ simp (pol_sem, e) (still k)
  | inr (c, e) ↦ elim (Bool-cases (is_running (k.tasks.slots c).state)) [
    | inr not_running ↦ simp (pol_sem, e, not_running) (still k)
    | inl runs ↦ elim (Option-cases (sem_get_by_id k.sems sem_id)) [
      | inl f ↦ simp (pol_sem, e, runs, f) (still k)
      | inr (i, f) ↦ simp (pol_sem, e, runs, f) (polled-Calm k _ _)
    ]
  ]
]
