-- ===== src/Dispatcher.antt =====
-- kernel/dispatcher.c
pub mod Moving
pub mod Switching
pub mod Outcome
pub mod Kept
pub mod Commit
pub mod Runner
mod Tests
use itron_rtos.Common.{
  ℕ, Bool, true, false, not, ◌||◌, Option, none, some, ◌==◌, if◌then◌else◌, Control, comes_back,
  ◌>>=◌,
}
use itron_rtos.Task
use itron_rtos.Task.{
  TaskTable, TaskResult, TaskState, unused, dormant, ready, running, waiting, is_ready, is_running,
  is_waiting,
}
use itron_rtos.Task.Moves.{mark_running, mark_ready_from_running}
use itron_rtos.Kernel.{Kernel}
use itron_rtos.Context
use itron_rtos.Context.{
  Platform, Machine, ContextResult, slot_of, with_tasks, prepare_initial_frame, switch_to_task,
  switch_to_task_pair,
}

-- DISPATCHER_OK and DISPATCHER_ERR_*. The codes of kernel/include/task_context.h are the same numbers.
pub data DispatchResult : Type 0 where
  ok inval bad_state not_found : DispatchResult

abbrev pub from_context : ContextResult → DispatchResult
from_context Context.ok = ok
from_context Context.inval = inval
from_context Context.bad_state = bad_state

-- How the dispatcher passes on what a function of kernel/task.c returns.
abbrev pub from_task : TaskResult → DispatchResult
from_task Task.ok = ok
from_task Task.not_found = not_found
from_task Task.bad_state = bad_state
from_task _ = inval

unfoldable pub commit_marked : Kernel → ℕ → TaskTable × TaskResult → Kernel × DispatchResult
commit_marked k i (tasks, Task.ok) = (record k { tasks = tasks; current = some i }, ok)
commit_marked k i (tasks, r) = (record k { tasks = tasks }, from_task r)

-- dispatcher_commit_current
unfoldable pub commit_current : Kernel → Option ℕ → Kernel × DispatchResult
unfolding commit_marked
commit_current k none = (k, inval)
commit_current k (some i) =
    if is_ready (k.tasks.slots i).state
    then commit_marked k i (mark_running k.tasks (k.tasks.slots i).id)
    else (k, bad_state)

abbrev pub may_leave : TaskState → Bool
may_leave running = true
may_leave ready = true
may_leave waiting = true
may_leave _ = false

abbrev pub as_dispatch : Machine × ContextResult → Control (Machine × DispatchResult)
as_dispatch (m, r) = comes_back (m, from_context r)

unfoldable pub enter_waiting_next :
    Platform → ℕ → Machine × ContextResult → Control (Machine × DispatchResult)
enter_waiting_next p to (m, Context.ok) = switch_to_task p m to >>= as_dispatch
enter_waiting_next p to (m, r) = comes_back (m, from_context r)

-- dispatcher_switch_to once `to` is RUNNING and current: the way into the tasks.
unfoldable pub switch_stacks : Platform → Machine → ℕ → ℕ → Control (Machine × DispatchResult)
unfolding enter_waiting_next
switch_stacks p m from to =
    if is_waiting (slot_of m from).state
    then enter_waiting_next p to (prepare_initial_frame p m to)
    else switch_to_task_pair p m from to >>= as_dispatch

unfoldable pub run_next :
    Platform → Machine → ℕ → ℕ → TaskTable × TaskResult → Control (Machine × DispatchResult)
unfolding switch_stacks
run_next p m from to (tasks, Task.ok) =
    switch_stacks p (record m { kernel = record m.kernel { tasks = tasks; current = some to } })
      from to
run_next p m from to (tasks, r) = comes_back (with_tasks m tasks, from_task r)

unfoldable pub leave_from :
    Platform → Machine → ℕ → ℕ → TaskTable × TaskResult → Control (Machine × DispatchResult)
unfolding run_next
leave_from p m from to (tasks, Task.ok) =
    run_next p (with_tasks m tasks) from to (mark_running tasks (tasks.slots to).id)
leave_from p m from to (tasks, r) = comes_back (with_tasks m tasks, from_task r)

-- dispatcher_switch_to
unfoldable pub switch_to :
    Platform → Machine → Option ℕ → Option ℕ → Control (Machine × DispatchResult)
unfolding leave_from run_next
switch_to p m (some from) (some to) =
    if from == to
    then comes_back (m, inval)
    else if not (may_leave (slot_of m from).state) || not (is_ready (slot_of m to).state)
    then comes_back (m, bad_state)
    else if is_running (slot_of m from).state
    then leave_from p m from to (mark_ready_from_running m.kernel.tasks (slot_of m from).id)
    else leave_from p m from to (m.kernel.tasks, Task.ok)
switch_to p m _ _ = comes_back (m, inval)
