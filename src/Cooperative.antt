-- ===== src/Cooperative.antt =====
-- kernel_run_cooperative_entries of kernel/kernel.c: the loop that runs entry functions as plain calls.
pub mod Repeats
mod Tests
use itron_rtos.Common.{
  ℕ, zero, suc, Bool, true, false, not, Option, none, some, ◌==◌, if◌then◌else◌,
}
use itron_rtos.Task
use itron_rtos.Task.{TaskTable, TaskResult, is_running}
use itron_rtos.Task.Moves.{mark_ready_from_running}
use itron_rtos.Scheduler.{select_next}
use itron_rtos.Kernel.{Kernel}
use itron_rtos.Context.{Platform}
use itron_rtos.Dispatcher
use itron_rtos.Dispatcher.{DispatchResult, commit_current}

-- The reasons that kernel_log_cooperative_stop is given.
pub data Stop : Type 0 where
  no_ready commit_failed current_null current_not_running entry_null recandidate_failed
        limit_reached :
      Stop

-- The end of a round: a reason to stop, or the next round.
pub data Round : Type 0 where
  stops : Kernel → Stop → Round
  goes_on : Kernel → Round

unfoldable pub recandidate : Kernel → TaskTable × TaskResult → Round
recandidate k (tasks, Task.ok) = goes_on (record k { tasks = tasks })
recandidate k (tasks, _) = stops (record k { tasks = tasks }) recandidate_failed

-- The call of the entry function of the current task.
unfoldable pub run_current : Platform → Kernel → Option ℕ → Round
unfolding recandidate
run_current p k none = stops k current_null
run_current p k (some i) =
    if not (is_running (k.tasks.slots i).state)
    then stops k current_not_running
    else if (k.tasks.slots i).entry == 0
    then stops k entry_null
    else let k' = p.run_entry (k.tasks.slots i).entry k in
      recandidate k' (mark_ready_from_running k'.tasks (k'.tasks.slots i).id)

unfoldable pub committed : Platform → Kernel × DispatchResult → Round
unfolding run_current
committed p (k, Dispatcher.ok) = run_current p k k.current
committed p (k, _) = stops k commit_failed

unfoldable pub cooperative_round : Platform → Kernel → Round
unfolding committed
cooperative_round p k = elim (select_next k.tasks) [
  | none ↦ stops k no_ready
  | some selected ↦ committed p (commit_current k (some selected))
]

-- The rounds that are left.
unfoldable pub cooperative_loop : Platform → ℕ → Kernel → Kernel × Stop
cooperative_loop p zero k = (k, limit_reached)
cooperative_loop p (suc n) k = elim (cooperative_round p k) [
  | stops k' why ↦ (k', why)
  | goes_on k' ↦ cooperative_loop p n k'
]

-- KERNEL_COOPERATIVE_ENTRY_LIMIT
abbrev pub cooperative_entry_limit : ℕ
cooperative_entry_limit = 3

-- kernel_run_cooperative_entries
unfoldable pub cooperative_entries : Platform → Kernel → Kernel × Stop
unfolding cooperative_loop cooperative_round
cooperative_entries p k = cooperative_loop p cooperative_entry_limit k
