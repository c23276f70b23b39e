-- ===== src/Dispatcher/Commit.antt =====
-- dispatcher_commit_current of kernel/dispatcher.c on the task that the scheduler selects.
use itron_rtos.Common.{
  ℕ, ◌<◌, ◌≡◌, refl, ap, ◌∙◌, ◌⊎◌, inl, inr, true, false, some, arith, Option-cases, is_positive,
  first_index-total,
}
use itron_rtos.Task.{
  TaskTable, TaskState, unused, dormant, ready, running, waiting, max_tasks, is_ready, is_unused,
}
use itron_rtos.Task.Lookup.{find_task, names, change_task-ok, find_task-id, write_slot}
use itron_rtos.Task.Moves.{settle, mark_running}
use itron_rtos.Task.Identity.{IdsOk}
use itron_rtos.Scheduler.{select_next}
use itron_rtos.Scheduler.Choice.{IsBest, select_next-IsBest, select_next-none}
use itron_rtos.Kernel.{Kernel}
use itron_rtos.Dispatcher.{ok, inval, commit_marked, commit_current}

pub registered_ready : (u : TaskState) → is_ready u ≡ true → is_unused u ≡ false
registered_ready ready h = refl
registered_ready running h = cc h
registered_ready dormant h = cc h
registered_ready waiting h = cc h
registered_ready unused h = cc h

-- With ids in order, the id of a task leads to it.
pub find_task-IdsOk :
    (t : TaskTable) (i : ℕ)
    → IdsOk t
    → i < max_tasks
    → is_unused (t.slots i).state ≡ false
    → find_task t (t.slots i).id ≡ some i
unfolding find_task
find_task-IdsOk t i v inside used =
    let passes : names (t.slots i).id (t.slots i) ≡ true = ground (arith, used) in
    let (j, found, at_j, _) =
      first_index-total (λ k. names (t.slots i).id (t.slots k)) 0 max_tasks i (omega arith)
        (omega arith) passes in
    let (same_id, used_j, inside_j) = find_task-id t (t.slots i).id j found in
    found ∙ ap some (v.unique j i inside_j inside used_j used same_id)

pub positive_id :
    (t : TaskTable) (i : ℕ)
    → IdsOk t
    → i < max_tasks
    → is_unused (t.slots i).state ≡ false
    → is_positive (t.slots i).id ≡ true
positive_id t i v inside used =
    let (pos, lt) = v.in_range i inside used in ground (arith, pos, lt, v.next_le)

commit_current-ready :
    (k : Kernel) (b : ℕ)
    → IdsOk k.tasks
    → IsBest k.tasks max_tasks b
    → commit_current k (some b) ≡ (
      record k {
        tasks = write_slot k.tasks b (settle running (k.tasks.slots b));
        current = some b;
      },
      ok,
    )
unfolding commit_current commit_marked mark_running
commit_current-ready k b v best =
    let used = registered_ready (k.tasks.slots b).state best.is_candidate in
    rw (commit_current, best.is_candidate, positive_id k.tasks b v best.below used)
      (ap (commit_marked k b) (
        change_task-ok k.tasks (k.tasks.slots b).id b (λ s. is_ready s.state) (settle running)
          (find_task-IdsOk k.tasks b v best.below used) best.is_candidate))

-- Where the ids are in order, committing what the scheduler selects has one of two outcomes. Some
-- task is READY, and the one that the scheduler prefers becomes RUNNING and the dispatcher's current
-- task, nothing else is changed, and the commit succeeds; or no task is READY, nothing is changed,
-- and the commit is refused as DISPATCHER_ERR_INVAL.
pub commit_selected :
    (k : Kernel)
    → IdsOk k.tasks
    → ((b : ℕ) × IsBest k.tasks max_tasks b
        × (commit_current k (select_next k.tasks) ≡ (
          record k {
            tasks = write_slot k.tasks b (settle running (k.tasks.slots b));
            current = some b;
          },
          ok,
        )))
      ⊎ (((j : ℕ) → j < max_tasks → is_ready (k.tasks.slots j).state ≡ false)
          × (commit_current k (select_next k.tasks) ≡ (k, inval)))
unfolding commit_current
commit_selected k v = elim (Option-cases (select_next k.tasks)) [
  | inl e ↦ inr (λ j lt. select_next-none k.tasks j e lt, ap (commit_current k) e)
  | inr (b, e) ↦
      let best = select_next-IsBest k.tasks b e in
      inl (b, best, ap (commit_current k) e ∙ commit_current-ready k b v best)
]
