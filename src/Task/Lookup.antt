-- ===== src/Task/Lookup.antt =====
-- The scans of kernel/task.c over the table.
use itron_rtos.Common.{
  ℕ, ◌<◌, ◌≡◌, refl, ap, fun_ext, Bool-cases, inl, inr, Bool, true, false, not, ◌&&◌, Option, none,
  some, arith, ◌==◌, if◌then◌else◌, is_positive, first_index, IsFirst, first_index-IsFirst, ltb,
  update,
}
use itron_rtos.Task.{
  is_unused, is_waiting, is_on_semaphore, Tcb, max_tasks, TaskTable, TaskResult, ok, not_found,
  bad_state,
}

-- `task->state != TASK_STATE_UNUSED && task->id == task_id`
abbrev pub names : ℕ → Tcb → Bool
names task_id s = not (is_unused s.state) && s.id == task_id

-- find_free_slot
unfoldable pub find_free_slot : TaskTable → Option ℕ
find_free_slot t = first_index (λ i. is_unused (t.slots i).state) 0 max_tasks

-- The loop by which each of the functions below finds the task of an id.
unfoldable pub find_task : TaskTable → ℕ → Option ℕ
find_task t task_id = first_index (λ i. names task_id (t.slots i)) 0 max_tasks

-- task_id_is_in_use
unfoldable pub task_id_is_in_use : TaskTable → ℕ → Bool
task_id_is_in_use t task_id = elim (find_task t task_id) [ none ↦ false | some _ ↦ true ]

-- task_get_by_index: an index as an `int`
unfoldable pub task_get_by_index : TaskTable → ℕ → Option ℕ
task_get_by_index t index = if ltb index max_tasks then some index else none

-- task_get_by_id and task_get_mutable_by_id
unfoldable pub task_get_by_id : TaskTable → ℕ → Option ℕ
task_get_by_id t task_id = if is_positive task_id then find_task t task_id else none

-- task_find_waiting_on_sem
unfoldable pub task_find_waiting_on_sem : TaskTable → ℕ → Option ℕ
task_find_waiting_on_sem t sem_id =
    if is_positive sem_id
    then first_index
        (λ i.
          is_waiting (t.slots i).state
          && is_on_semaphore (t.slots i).wait_reason
          && (t.slots i).wait_sem_id == sem_id)
        0 max_tasks
    else none

-- The write to a slot, and the shape that the state changes share: find the task, refuse it in
-- another state, change it.
abbrev pub write_slot : TaskTable → ℕ → Tcb → TaskTable
write_slot t i s = record t { slots = update t.slots i s }

unfoldable pub change_slot :
    TaskTable → (Tcb → Bool) → (Tcb → Tcb) → Option ℕ → TaskTable × TaskResult
change_slot t allowed f none = (t, not_found)
change_slot t allowed f (some i) =
    if allowed (t.slots i) then (write_slot t i (f (t.slots i)), ok) else (t, bad_state)

unfoldable pub change_task : TaskTable → ℕ → (Tcb → Bool) → (Tcb → Tcb) → TaskTable × TaskResult
change_task t task_id allowed f = change_slot t allowed f (find_task t task_id)

-- What a lookup by id returns is the first registered slot with that id, inside the table.
pub find_task_lem :
    (t : TaskTable) (task_id i : ℕ)
    → find_task t task_id ≡ some i
    → IsFirst (λ j. names task_id (t.slots j)) 0 max_tasks i
unfolding find_task
find_task_lem t task_id i h = first_index-IsFirst _ 0 max_tasks i h

pub find_task-id :
    (t : TaskTable) (task_id i : ℕ)
    → find_task t task_id ≡ some i
    → ((t.slots i).id ≡ task_id) × (is_unused (t.slots i).state ≡ false) × (i < max_tasks)
find_task-id t task_id i h =
    let r = find_task_lem t task_id i h in ground (arith, r.passes, r.below)

pub task_get_by_id-found :
    (t : TaskTable) (a j : ℕ)
    → task_get_by_id t a ≡ some j
    → (is_positive a ≡ true) × (find_task t a ≡ some j)
unfolding task_get_by_id
task_get_by_id-found t a j h = elim (Bool-cases (is_positive a)) [
  | inl e ↦ (e, rw e at (h))
  | inr e ↦ absurd (ground arith)
]

pub change_task-ok :
    (t : TaskTable) (a j : ℕ) (allowed : Tcb → Bool) (f : Tcb → Tcb)
    → find_task t a ≡ some j
    → allowed (t.slots j) ≡ true
    → change_task t a allowed f ≡ (write_slot t j (f (t.slots j)), ok)
unfolding change_task change_slot
change_task-ok t a j allowed f found may = rw (found, may) refl

-- A write to a slot that keeps its id, and keeps it in use, does not change what a lookup finds.
pub find_task-write :
    (t : TaskTable) (a j : ℕ) (s : Tcb)
    → names a s ≡ names a (t.slots j)
    → find_task (write_slot t j s) a ≡ find_task t a
unfolding find_task
find_task-write t a j s same =
    ap (λ (p : ℕ → Bool). first_index p 0 max_tasks)
      (fun_ext
        λ i. elim (Bool-cases (j == i)) [ inl e ↦ ground (arith, same) | inr e ↦ ground arith ])

-- A change that is reported as done is the write to the slot that was found.
pub change_task-done :
    (t : TaskTable) (a j : ℕ) (allowed : Tcb → Bool) (f : Tcb → Tcb)
    → find_task t a ≡ some j
    → (change_task t a allowed f).1 ≡ ok
    → (change_task t a allowed f).0 ≡ write_slot t j (f (t.slots j))
unfolding change_task change_slot
change_task-done t a j allowed f found done = elim (Bool-cases (allowed (t.slots j))) [
  | inl e ↦ rw (found, e) refl
  | inr e ↦ absurd (cc (rw (found, e) at (done)))
]
