-- ===== src/Dispatcher/Tests.antt =====
-- Switches between three tasks, and the commit of the first task.
use itron_rtos.Common.{ℕ, zero, suc, ◌<◌, ◌≡◌, ◌⊎◌, refl, false, some, arith}
use itron_rtos.Task
use itron_rtos.Task.{TaskTable, Tcb, ready, waiting, on_sleep, running, max_tasks, is_ready}
use itron_rtos.Task.Create.{empty_slot}
use itron_rtos.Task.Lookup.{write_slot}
use itron_rtos.Task.Moves.{begin_wait, settle}
use itron_rtos.Task.Identity.{IdsOk}
use itron_rtos.Scheduler.{select_next}
use itron_rtos.Scheduler.Choice.{IsBest}
use itron_rtos.Kernel.{Kernel, kernel_init}
use itron_rtos.Context.{Machine, with_tasks}
use itron_rtos.Context.Entering.{CanRun-other}
use itron_rtos.Context.Runs.{only, either}
use itron_rtos.Context.Samples.{
  quiet_platform, sample, task_of, three_tasks, task_of-Laid, task_of-Apart, first-CanRun,
  second-CanRun,
}
use itron_rtos.Dispatcher.{ok, inval, switch_to, commit_current}
use itron_rtos.Dispatcher.Switching.{Switches, with_current}
use itron_rtos.Dispatcher.Outcome.{switch_to-Switches, switch_to_from_waiting-Switches}
use itron_rtos.Dispatcher.Commit.{commit_selected}

switch_to-Switches_example :
    Switches
      (either 0 1)
      (with_current sample 1)
      (switch_to quiet_platform sample (some 0) (some 1))
switch_to-Switches_example =
    switch_to-Switches quiet_platform sample 0 1 (omega arith)
      (task_of-Laid 1 running 5 10000 (omega arith) (omega arith))
      (task_of-Laid 2 ready 3 20000 (omega arith) (omega arith)) first-CanRun second-CanRun
      (task_of-Apart 1 2 running ready 5 3 10000 20000 (omega arith) (omega arith)) refl

-- Task 1 sleeps.
abbrev asleep : Tcb
asleep = begin_wait on_sleep 0 0 (three_tasks.slots 0)

abbrev sleeping : Machine
sleeping = with_tasks sample (write_slot three_tasks 0 asleep)

switch_to_from_waiting-Switches_example :
    Switches
      (only 1)
      (with_current sleeping 1)
      (switch_to quiet_platform sleeping (some 0) (some 1))
switch_to_from_waiting-Switches_example =
    switch_to_from_waiting-Switches quiet_platform sleeping 0 1 (omega arith) refl
      (task_of-Laid 2 ready 3 20000 (omega arith) (omega arith))
      (CanRun-other quiet_platform three_tasks 1 0 asleep (omega arith) (λ a. refl) second-CanRun)
      refl refl

-- One READY task.
abbrev one_slot : ℕ → Tcb
one_slot zero = task_of 1 ready 5 10000
one_slot (suc _) = empty_slot

abbrev one_task : Kernel
one_task = record kernel_init { tasks = record { slots = one_slot; next_task_id = 2 } }

one_task-IdsOk : IdsOk one_task.tasks
one_task-IdsOk = record {
  next_pos = omega arith;
  next_le = omega arith;
  in_range = range;
  unique = alone;
}
  where
    range :
        (j : ℕ)
        → j < max_tasks
        → Task.is_unused (one_slot j).state ≡ false
        → (0 < (one_slot j).id) × ((one_slot j).id < 2)
    range zero lt used = (omega arith, omega arith)
    range (suc j) lt used = absurd (cc used)

    alone :
        (j k : ℕ)
        → j < max_tasks
        → k < max_tasks
        → Task.is_unused (one_slot j).state ≡ false
        → Task.is_unused (one_slot k).state ≡ false
        → (one_slot j).id ≡ (one_slot k).id
        → j ≡ k
    alone zero zero lj lk uj uk same = refl
    alone zero (suc k) lj lk uj uk same = absurd (cc uk)
    alone (suc j) k lj lk uj uk same = absurd (cc uj)

commit_selected_example :
    ((b : ℕ) × IsBest one_task.tasks max_tasks b
      × (commit_current one_task (select_next one_task.tasks) ≡ (
        record one_task {
          tasks = write_slot one_task.tasks b (settle running (one_task.tasks.slots b));
          current = some b;
        },
        ok,
      )))
    ⊎ (((j : ℕ) → j < max_tasks → is_ready (one_task.tasks.slots j).state ≡ false)
        × (commit_current one_task (select_next one_task.tasks) ≡ (one_task, inval)))
commit_selected_example = commit_selected one_task one_task-IdsOk
