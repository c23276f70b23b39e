-- ===== src/Blocking/TimedWaiting.antt =====
-- The steps of twai_sem of kernel/itron_api.c up to the switch, for a RUNNING task.
use itron_rtos.Common.{
  ℕ, ◌≡◌, ◌≢◌, refl, ap, ◌∙◌, Bool, false, Option, none, some, ◌==◌, leb, arith, if◌then◌else◌,
  is_positive, update_self,
}
use itron_rtos.Task
use itron_rtos.Task.{TaskTable, Tcb, max_tasks, is_running, on_semaphore_timeout}
use itron_rtos.Task.Lookup.{write_slot, change_task-ok}
use itron_rtos.Task.Moves.{begin_wait, mark_waiting_on_sem_timeout, runs}
use itron_rtos.Semaphore
use itron_rtos.Semaphore.{Semaphore, SemTable, SemResult, sem_get_by_id, write_sem}
use itron_rtos.Semaphore.Count.{sem_take_if_available, at_sem}
use itron_rtos.Semaphore.WaitQueue.{sem_can_enqueue_waiter, sem_enqueue_waiter, push}
use itron_rtos.Semaphore.WaitQueue
use itron_rtos.DelayQueue
use itron_rtos.DelayQueue.{DelayQueue, DelayResult, Entry, can_enqueue, append, append_if, enqueue}
use itron_rtos.Kernel.{Kernel}
use itron_rtos.Api.{e_id, e_par, e_ctx, e_qovr}
use itron_rtos.Blocking.Begin.{
  done, switches, begin_twai_sem, twai_taken, twai_checked, twai_marked, twai_queued,
  delay_enqueued,
}
use itron_rtos.Blocking.Waiting.{Runs, Names, found_begun, take-none}

-- The kernel once the task waits with a timeout: WAITING, last in the wait queue of the semaphore and
-- last in the delay queue.
abbrev pub waits_timed : Kernel → ℕ → ℕ → ℕ → ℕ → Kernel
waits_timed k c sem_id i ticks = record k {
  tasks = write_slot k.tasks c (begin_wait on_semaphore_timeout sem_id ticks (k.tasks.slots c));
  sems = write_sem k.sems i (push (k.sems.sems i) (k.tasks.slots c).id);
  delays = append k.delays (record { task_id = (k.tasks.slots c).id; ticks = ticks });
}

module _ (k : Kernel) (c sem_id i ticks : ℕ) (at : Runs k c) (sem : Names k.sems sem_id i)
    (some_ticks : (ticks == 0) ≡ false) where
  abbrev s : Semaphore
  s = k.sems.sems i

  abbrev id : ℕ
  id = (k.tasks.slots c).id

  abbrev s' : Tcb
  s' = begin_wait on_semaphore_timeout sem_id ticks (k.tasks.slots c)

  abbrev waiting_tasks : TaskTable
  waiting_tasks = write_slot k.tasks c s'

  now : waiting_tasks.slots c ≡ s'
  now = update_self k.tasks.slots c s'

  pub begin_twai_sem-taken :
      begin_twai_sem k sem_id ticks
      ≡ twai_taken k c sem_id ticks (sem_take_if_available k.sems sem_id)
  unfolding begin_twai_sem
  begin_twai_sem-taken =
      ap
        (λ (o : Option ℕ). elim o [
          | none ↦ done k e_ctx
          | some c' ↦
              if ticks == 0
              then done k e_par
              else if is_running (k.tasks.slots c').state
              then elim (sem_get_by_id k.sems sem_id) [
                | none ↦ done k e_id
                | some _ ↦ twai_taken k c' sem_id ticks (sem_take_if_available k.sems sem_id)
              ]
              else done k e_ctx
        ])
        at.current
      ∙ rw (some_ticks, at.running, sem.found) refl

  marked : mark_waiting_on_sem_timeout k.tasks id sem_id ticks ≡ (waiting_tasks, Task.ok)
  unfolding mark_waiting_on_sem_timeout
  marked =
      rw (at.positive, sem.positive, some_ticks)
        (change_task-ok k.tasks id c runs (begin_wait on_semaphore_timeout sem_id ticks) at.found
          at.running)

  enqueue-waiting :
      leb max_tasks s.wait_count ≡ false
      → WaitQueue.enqueue sem_id id s' s ≡ (push s id, Semaphore.ok)
  unfolding WaitQueue.enqueue
  enqueue-waiting room = ground arith

  enqueued :
      leb max_tasks s.wait_count ≡ false
      → sem_enqueue_waiter k.sems waiting_tasks sem_id (waiting_tasks.slots c).id
        ≡ (write_sem k.sems i (push s id), Semaphore.ok)
  unfolding sem_enqueue_waiter at_sem
  enqueued room =
      let found = found_begun k c on_semaphore_timeout sem_id ticks at in
      rw (now, sem_enqueue_waiter, found, now, sem.found, enqueue-waiting room) refl

  delayed :
      can_enqueue k.delays id ≡ DelayQueue.ok
      → enqueue k.delays waiting_tasks (waiting_tasks.slots c).id ticks
        ≡ (append k.delays (record { task_id = id; ticks = ticks }), DelayQueue.ok)
  unfolding enqueue append_if
  delayed may =
      let found = found_begun k c on_semaphore_timeout sem_id ticks at in
      rw (now, enqueue, found, some_ticks, now, may) refl

  sem_check :
      (b : Bool)
      → leb max_tasks s.wait_count ≡ b
      → sem_can_enqueue_waiter k.sems sem_id id ≡ (if b then Semaphore.overflow else Semaphore.ok)
  unfolding sem_can_enqueue_waiter
  sem_check b e = rw (sem_can_enqueue_waiter, sem.found, at.positive, e) refl

  abbrev delay_check : DelayResult
  delay_check = can_enqueue k.delays id

  pub checked :
      (b : Bool)
      → is_positive s.count ≡ false
      → leb max_tasks s.wait_count ≡ b
      → begin_twai_sem k sem_id ticks
        ≡ twai_checked k c sem_id ticks (if b then Semaphore.overflow else Semaphore.ok) delay_check
  unfolding twai_taken
  checked b h e =
      begin_twai_sem-taken
      ∙ ap (twai_taken k c sem_id ticks) (take-none k c sem_id i at sem h)
      ∙ ap (λ r. twai_checked k c sem_id ticks r delay_check) (sem_check b e)

  pub refused_delay :
      (r : DelayResult)
      → r ≢ DelayQueue.ok
      → twai_checked k c sem_id ticks Semaphore.ok r ≡ done k e_qovr
  unfolding twai_checked
  refused_delay DelayQueue.ok h = absurd (h refl)
  refused_delay DelayQueue.inval h = refl
  refused_delay DelayQueue.full h = refl
  refused_delay DelayQueue.duplicate h = refl
  refused_delay DelayQueue.task_state h = refl

  pub refused_sem :
      (r : DelayResult) → twai_checked k c sem_id ticks Semaphore.overflow r ≡ done k e_id
  unfolding twai_checked
  refused_sem r = refl

  pub waits_in_both :
      leb max_tasks s.wait_count ≡ false
      → delay_check ≡ DelayQueue.ok
      → twai_checked k c sem_id ticks Semaphore.ok delay_check
        ≡ switches (waits_timed k c sem_id i ticks) c
  unfolding twai_checked twai_marked twai_queued delay_enqueued
  waits_in_both room may =
      ap (twai_checked k c sem_id ticks Semaphore.ok) may
      ∙ ap (twai_marked k c sem_id ticks) marked
      ∙ ap (twai_queued (record k { tasks = waiting_tasks }) c ticks) (enqueued room)
      ∙ ap
          (delay_enqueued
            (record k { tasks = waiting_tasks; sems = write_sem k.sems i (push s id) }) c e_qovr)
          (delayed may)
