-- ===== src/Blocking/Waiting.antt =====
-- wai_sem of kernel/itron_api.c up to the switch: the count is taken, or the task waits.
use itron_rtos.Common.{
  ℕ, ◌-◌, ◌<◌, ◌≡◌, refl, sym, ap, ◌∙◌, inl, inr, fun_ext, true, false, not, ◌&&◌, Option, none,
  some, ◌==◌, Bool-cases, arith, if◌then◌else◌, is_positive, update_self,
}
use itron_rtos.Task
use itron_rtos.Task.{
  TaskTable, Tcb, max_tasks, is_running, is_unused, unused, dormant, ready, running, waiting,
  on_semaphore, WaitReason, TaskState,
}
use itron_rtos.Task.Lookup.{find_task, find_task-write, write_slot, task_get_by_id, change_task-ok}
use itron_rtos.Task.Moves.{begin_wait, mark_waiting_on_sem, runs}
use itron_rtos.Semaphore
use itron_rtos.Semaphore.{Semaphore, SemTable, SemResult, sem_get_by_id, write_sem}
use itron_rtos.Semaphore.Count.{sem_take_if_available, at_sem, take}
use itron_rtos.Semaphore.WaitQueue.{sem_enqueue_waiter, enqueue, push}
use itron_rtos.Kernel.{Kernel}
use itron_rtos.Api.{e_ok, e_ctx, e_id, e_obj}
use itron_rtos.Blocking.Begin.{done, switches, wai_taken, wai_marked, sem_enqueued, begin_wai_sem}

-- The current task is RUNNING, and its id leads to it.
pub record Runs (k : Kernel) (c : ℕ) : Type 0 where
  pub current : k.current ≡ some c
  pub running : is_running (k.tasks.slots c).state ≡ true
  pub positive : is_positive (k.tasks.slots c).id ≡ true
  pub found : find_task k.tasks (k.tasks.slots c).id ≡ some c

-- The semaphore that an id leads to.
pub record Names (sems : SemTable) (sem_id i : ℕ) : Type 0 where
  pub positive : is_positive sem_id ≡ true
  pub found : sem_get_by_id sems sem_id ≡ some i

write_sem-same : (t : SemTable) (i : ℕ) → write_sem t i (t.sems i) ≡ t
write_sem-same t i =
    ap (λ (f : ℕ → Semaphore). let t' : SemTable = record t { sems = f } in t')
      (fun_ext
        λ j. elim (Bool-cases (i == j)) [ inl e ↦ ground (arith, ap t.sems) | inr e ↦ rw e refl ])

pub in_use : (u : TaskState) → is_running u ≡ true → is_unused u ≡ false
in_use running h = refl
in_use ready h = refl
in_use waiting h = refl
in_use dormant h = refl
in_use unused h = cc h

-- A task that begins to wait is still found by its id.
pub found_begun :
    (k : Kernel) (c : ℕ) (reason : WaitReason) (sem_id ticks : ℕ)
    → Runs k c
    → task_get_by_id
        (write_slot k.tasks c (begin_wait reason sem_id ticks (k.tasks.slots c)))
        (k.tasks.slots c).id
      ≡ some c
unfolding task_get_by_id
found_begun k c reason sem_id ticks at =
    let id = (k.tasks.slots c).id in
    rw (at.positive) (
      find_task-write k.tasks id c (begin_wait reason sem_id ticks (k.tasks.slots c))
        (ap (λ b. not b && id == id) (sym (in_use (k.tasks.slots c).state at.running)))
      ∙ at.found)

-- The kernel once the task waits for the semaphore: it is WAITING, and last in the wait queue.
abbrev pub waits : Kernel → ℕ → ℕ → ℕ → Kernel
waits k c sem_id i = record k {
  tasks = write_slot k.tasks c (begin_wait on_semaphore sem_id 0 (k.tasks.slots c));
  sems = write_sem k.sems i (push (k.sems.sems i) (k.tasks.slots c).id);
}

module _ (k : Kernel) (c sem_id i : ℕ) (at : Runs k c) (sem : Names k.sems sem_id i) where
  abbrev s : Semaphore
  s = k.sems.sems i

  abbrev id : ℕ
  id = (k.tasks.slots c).id

  abbrev waiting_tasks : TaskTable
  waiting_tasks = write_slot k.tasks c (begin_wait on_semaphore sem_id 0 (k.tasks.slots c))

  begin_wai_sem-taken :
      begin_wai_sem k sem_id ≡ wai_taken k c sem_id (sem_take_if_available k.sems sem_id)
  unfolding begin_wai_sem
  begin_wai_sem-taken =
      ap
        (λ (o : Option ℕ). elim o [
          | none ↦ done k e_ctx
          | some c' ↦
              if is_running (k.tasks.slots c').state
              then elim (sem_get_by_id k.sems sem_id) [
                | none ↦ done k e_id
                | some _ ↦ wai_taken k c' sem_id (sem_take_if_available k.sems sem_id)
              ]
              else done k e_ctx
        ])
        at.current
      ∙ rw (at.running, sem.found) refl

  pub take-positive :
      is_positive s.count ≡ true
      → sem_take_if_available k.sems sem_id
        ≡ (write_sem k.sems i (record s { count = s.count - 1 }), Semaphore.ok)
  unfolding sem_take_if_available at_sem take
  take-positive h = rw (sem.found, h) refl

  pub take-none :
      is_positive s.count ≡ false
      → sem_take_if_available k.sems sem_id ≡ (k.sems, Semaphore.wait_required)
  unfolding sem_take_if_available at_sem take
  take-none h =
      rw (sem.found, h)
        (ap (λ (t : SemTable). (t, Semaphore.wait_required)) (write_sem-same k.sems i))

  marked : mark_waiting_on_sem k.tasks id sem_id ≡ (waiting_tasks, Task.ok)
  unfolding mark_waiting_on_sem
  marked =
      rw (at.positive, sem.positive)
        (change_task-ok k.tasks id c runs (begin_wait on_semaphore sem_id 0) at.found at.running)

  enqueue-waiting :
      s.wait_count < max_tasks
      → enqueue sem_id id (begin_wait on_semaphore sem_id 0 (k.tasks.slots c)) s
        ≡ (push s id, Semaphore.ok)
  unfolding enqueue
  enqueue-waiting room = ground arith

  pub found_waiting : task_get_by_id waiting_tasks id ≡ some c
  found_waiting = found_begun k c on_semaphore sem_id 0 at

  enqueued :
      s.wait_count < max_tasks
      → sem_enqueue_waiter k.sems waiting_tasks sem_id (waiting_tasks.slots c).id
        ≡ (write_sem k.sems i (push s id), Semaphore.ok)
  unfolding sem_enqueue_waiter at_sem
  enqueued room =
      let w = update_self k.tasks.slots c (begin_wait on_semaphore sem_id 0 (k.tasks.slots c)) in
      rw (w, sem_enqueue_waiter, found_waiting, w, sem.found, enqueue-waiting room) refl

  pub begin_wai_sem-takes :
      is_positive s.count ≡ true
      → begin_wai_sem k sem_id
        ≡ done (record k { sems = write_sem k.sems i (record s { count = s.count - 1 }) }) e_ok
  unfolding wai_taken
  begin_wai_sem-takes h = begin_wai_sem-taken ∙ ap (wai_taken k c sem_id) (take-positive h)

  pub begin_wai_sem-waits :
      is_positive s.count ≡ false
      → s.wait_count < max_tasks
      → begin_wai_sem k sem_id ≡ switches (waits k c sem_id i) c
  unfolding wai_taken wai_marked sem_enqueued
  begin_wai_sem-waits h room =
      begin_wai_sem-taken
      ∙ ap (wai_taken k c sem_id) (take-none h)
      ∙ ap (wai_marked k c sem_id) marked
      ∙ ap (sem_enqueued (record k { tasks = waiting_tasks }) c e_obj) (enqueued room)
