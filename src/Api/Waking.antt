-- ===== src/Api/Waking.antt =====
-- The wake-ups that sig_sem of kernel/itron_api.c makes, by the reason that the task waits for.
use itron_rtos.Common.{ℕ, ◌≡◌, inl, inr, refl, ◌∙◌, not, ◌||◌, some, Bool-cases, is_positive}
use itron_rtos.Task
use itron_rtos.Task.{
  TaskTable, TaskResult, Tcb, WaitReason, no_reason, on_semaphore, on_delay, on_semaphore_timeout,
  on_sleep,
}
use itron_rtos.Task.Lookup.{find_task, change_task-done}
use itron_rtos.Task.Moves.{wake_waiting_on_sem_by_id, wake_waiting_on_sem_timeout_by_id}
use itron_rtos.DelayQueue
use itron_rtos.DelayQueue.{DelayQueue, DelayResult, remove_sem_timeout_waiter}
use itron_rtos.Kernel.{Kernel}
use itron_rtos.Api.{e_ok, signalled, signal_timed, signal_waiter}
use itron_rtos.Api.Readying.{readied}

-- The tasks and semaphores after a wake-up of the task in slot `j` that was reported as done.
pub record Woke (k : Kernel) (j : ℕ) (k' : Kernel) : Type 0 where
  pub tasks_now : k'.tasks ≡ readied k.tasks j
  pub sems_now : k'.sems ≡ k.sems

signalled-done :
    (k : Kernel) (task_id : ℕ) (tasks : TaskTable) (r : TaskResult)
    → (signalled k task_id (tasks, r)).1 ≡ e_ok
    → (r ≡ Task.ok)
      × ((signalled k task_id (tasks, r)).0.tasks ≡ tasks)
      × ((signalled k task_id (tasks, r)).0.sems ≡ k.sems)
unfolding signalled
signalled-done k task_id tasks Task.ok h = (refl, refl, refl)
signalled-done k task_id tasks Task.full h = cc
signalled-done k task_id tasks Task.inval h = cc
signalled-done k task_id tasks Task.id_overflow h = cc
signalled-done k task_id tasks Task.not_found h = cc
signalled-done k task_id tasks Task.bad_state h = cc

wake_sem-done :
    (t : TaskTable) (a sem_id j : ℕ)
    → find_task t a ≡ some j
    → (wake_waiting_on_sem_by_id t a sem_id).1 ≡ Task.ok
    → (wake_waiting_on_sem_by_id t a sem_id).0 ≡ readied t j
unfolding wake_waiting_on_sem_by_id
wake_sem-done t a sem_id j found done =
    elim (Bool-cases (not (is_positive a) || not (is_positive sem_id))) [
      | inl e ↦ absurd (cc (rw e at (done)))
      | inr e ↦ rw e (change_task-done t a j _ _ found (rw e at (done)))
    ]

wake_sem_timeout-done :
    (t : TaskTable) (a sem_id j : ℕ)
    → find_task t a ≡ some j
    → (wake_waiting_on_sem_timeout_by_id t a sem_id).1 ≡ Task.ok
    → (wake_waiting_on_sem_timeout_by_id t a sem_id).0 ≡ readied t j
unfolding wake_waiting_on_sem_timeout_by_id
wake_sem_timeout-done t a sem_id j found done =
    elim (Bool-cases (not (is_positive a) || not (is_positive sem_id))) [
      | inl e ↦ absurd (cc (rw e at (done)))
      | inr e ↦ rw e (change_task-done t a j _ _ found (rw e at (done)))
    ]

module _ (k : Kernel) (sem_id a j : ℕ) (found : find_task k.tasks a ≡ some j) where
  signal_plain-Woke :
      (signalled k a (wake_waiting_on_sem_by_id k.tasks a sem_id)).1 ≡ e_ok
      → Woke k j (signalled k a (wake_waiting_on_sem_by_id k.tasks a sem_id)).0
  signal_plain-Woke h =
      let r = wake_waiting_on_sem_by_id k.tasks a sem_id in
      let (done, tasks, sems) = signalled-done k a r.0 r.1 h in
      record { tasks_now = tasks ∙ wake_sem-done k.tasks a sem_id j found done; sems_now = sems }

  signal_timed-Woke :
      (delays : DelayQueue) (r : DelayResult)
      → (signal_timed k sem_id a (delays, r)).1 ≡ e_ok
      → Woke k j (signal_timed k sem_id a (delays, r)).0
  unfolding signal_timed
  signal_timed-Woke delays DelayQueue.ok h =
      let r = wake_waiting_on_sem_timeout_by_id k.tasks a sem_id in
      let (done, tasks, sems) = signalled-done (record k { delays = delays }) a r.0 r.1 h in
      record {
        tasks_now = tasks ∙ wake_sem_timeout-done k.tasks a sem_id j found done;
        sems_now = sems;
      }
  signal_timed-Woke delays DelayQueue.inval h = cc
  signal_timed-Woke delays DelayQueue.full h = cc
  signal_timed-Woke delays DelayQueue.duplicate h = cc
  signal_timed-Woke delays DelayQueue.task_state h = cc

  pub signal_waiter-Woke :
      (why : WaitReason)
      → (signal_waiter k sem_id a why).1 ≡ e_ok
      → Woke k j (signal_waiter k sem_id a why).0
  unfolding signal_waiter
  signal_waiter-Woke on_semaphore h = signal_plain-Woke h
  signal_waiter-Woke on_semaphore_timeout h = signal_timed-Woke _ _ h
  signal_waiter-Woke no_reason h = cc
  signal_waiter-Woke on_delay h = cc
  signal_waiter-Woke on_sleep h = cc
