-- ===== src/Task/Outcome.antt =====
-- What a call of kernel/task.c does to the table, stated without its code: it fails and changes
-- nothing, or it changes one slot along an arrow of the state diagram.
use itron_rtos.Common.{
  ℕ, ◌+◌, ◌≤◌, ◌<◌, ◌≡◌, refl, ◌≢◌, ◌⊎◌, inl, inr, Bool, true, false, Option, none, some,
  Option-cases, Bool-cases, update, is_positive, int_max, rank,
}
use itron_rtos.Task.{
  TaskState, unused, dormant, ready, running, waiting, is_unused, WaitReason, no_reason,
  on_semaphore, on_delay, on_semaphore_timeout, on_sleep, Tcb, max_tasks, TaskTable, TaskResult, ok,
}
use itron_rtos.Task.Lookup.{names, change_slot, change_task, find_task, find_task-id}
use itron_rtos.Task.Ops.{
  TaskCall, registers, creates, runs_task, readies, starts, finishes, sleeps, wakes_sleeper,
  wakes_delayed, wakes_one, waits_sem, waits_delay, wakes_sem, wakes_sem_timeout, waits_sem_timeout,
}

-- The state diagram: where a call takes a task that is in a given state.
abbrev pub target : TaskCall → TaskState → Option TaskState
target (registers _) unused = some ready
target (creates _ _) unused = some dormant
target (runs_task _) ready = some running
target (readies _) running = some ready
target (starts _) dormant = some ready
target (finishes _) running = some dormant
target (finishes _) ready = some dormant
target (sleeps _) running = some waiting
target (waits_sem _ _) running = some waiting
target (waits_delay _ _) running = some waiting
target (waits_sem_timeout _ _ _) running = some waiting
target (wakes_sleeper _) waiting = some ready
target (wakes_delayed _) waiting = some ready
target (wakes_one _) waiting = some ready
target (wakes_sem _ _) waiting = some ready
target (wakes_sem_timeout _ _) waiting = some ready
target _ _ = none

-- What a wait reason says about the semaphore id and the ticks of the slot.
abbrev pub WaitShape : WaitReason → ℕ → ℕ → Type 0
WaitShape no_reason sem_id ticks = ⊥
WaitShape on_semaphore sem_id ticks = (is_positive sem_id ≡ true) × (ticks ≡ 0)
WaitShape on_delay sem_id ticks = (sem_id ≡ 0) × (0 < ticks)
WaitShape on_semaphore_timeout sem_id ticks = (is_positive sem_id ≡ true) × (0 < ticks)
WaitShape on_sleep sem_id ticks = (sem_id ≡ 0) × (ticks ≡ 0)

abbrev SlotShape : TaskState → WaitReason → ℕ → ℕ → Type 0
SlotShape waiting reason sem_id ticks = WaitShape reason sem_id ticks
SlotShape _ reason sem_id ticks = (reason ≡ no_reason) × (sem_id ≡ 0) × (ticks ≡ 0)

-- The wait fields of a slot agree with its state.
abbrev pub WaitsOk : Tcb → Type 0
WaitsOk s = SlotShape s.state s.wait_reason s.wait_sem_id s.delay_ticks_remaining

-- `task_create_dormant` is not called with the greatest `int`, past which no id is left.
abbrev pub LeavesRoom : TaskCall → Type 0
LeavesRoom (creates task_id a) = task_id ≢ int_max
LeavesRoom _ = Unit {0}

-- How a successful call treats the id of the slot and the counter of ids.
pub data IdChange (c : TaskCall) (t : TaskTable) (old new : Tcb) (n : ℕ) : Type 0 where
  kept : is_unused old.state ≡ false → new.id ≡ old.id → n ≡ t.next_task_id → IdChange c t old new n
  numbered :
      0 < t.next_task_id
      → t.next_task_id < int_max
      → new.id ≡ t.next_task_id
      → n ≡ t.next_task_id + 1
      → IdChange c t old new n
  chosen :
      is_positive new.id ≡ true
      → (LeavesRoom c → new.id ≢ int_max)
      → ((j : ℕ) → j < max_tasks → names new.id (t.slots j) ≡ false)
      → ((n ≡ t.next_task_id) × (rank new.id < rank t.next_task_id)
          ⊎ ((new.id < int_max → n ≡ new.id + 1) × (rank t.next_task_id ≤ rank new.id)))
      → IdChange c t old new n

pub data Outcome (c : TaskCall) (t : TaskTable) (r : TaskTable × TaskResult) : Type 0 where
  refusal : r.0 ≡ t → r.1 ≢ ok → Outcome c t r
  success :
      (i n : ℕ) (s : Tcb)
      → r.1 ≡ ok
      → r.0 ≡ record { slots = update t.slots i s; next_task_id = n }
      → i < max_tasks
      → target c (t.slots i).state ≡ some s.state
      → WaitsOk s
      → IdChange c t (t.slots i) s n
      → Outcome c t r

-- The rule for the calls that find a task by its id.
pub change_task-Outcome :
    (c : TaskCall) (t : TaskTable) (task_id : ℕ) (allowed : Tcb → Bool) (f : Tcb → Tcb)
    → ((s : Tcb) → allowed s ≡ true → target c s.state ≡ some (f s).state)
    → ((s : Tcb) → WaitsOk (f s))
    → ((s : Tcb) → (f s).id ≡ s.id)
    → Outcome c t (change_task t task_id allowed f)
unfolding change_task change_slot
change_task-Outcome c t task_id allowed f arrow waits ident =
    elim (Option-cases (find_task t task_id)) [
      | inl e ↦ rw (e, change_slot) (refusal refl (λ h. cc))
      | inr (i, e) ↦ elim (Bool-cases (allowed (t.slots i))) [
        | inl a ↦
            rw (e, change_slot, a)
              (success i t.next_task_id (f (t.slots i)) refl refl (find_task-id t task_id i e).2
                (arrow (t.slots i) a) (waits (t.slots i))
                (kept (find_task-id t task_id i e).1 (ident (t.slots i)) refl))
        | inr a ↦ rw (e, change_slot, a) (refusal refl (λ h. cc))
      ]
    ]
