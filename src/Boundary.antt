-- ===== src/Boundary.antt =====
-- The consumption of a request of kernel/dispatch_pending.c, at the exit boundary of the timer
-- interrupt of arch/x86_64/interrupt.c.
pub mod Consumed
pub mod Preemption
mod Tests
use itron_rtos.Common.{
  ℕ, Bool, true, false, Option, none, some, if◌then◌else◌, Control, comes_back, ◌>>=◌,
}
use itron_rtos.Task.{TaskTable, TaskState, is_ready, is_running}
use itron_rtos.Task.Lookup.{task_get_by_id}
use itron_rtos.Pending.{Pending, cleared}
use itron_rtos.Kernel.{Kernel, timer_irq}
use itron_rtos.Context.{Platform, Machine}
use itron_rtos.Dispatcher.{DispatchResult, switch_to}

-- DISPATCH_PENDING_CONSUME_*, or what dispatcher_switch_to returns
pub data Consumption : Type 0 where
  no_pending invalid : Consumption
  dispatched : DispatchResult → Consumption

abbrev pub clear_request : Machine → Machine
clear_request m = record m { kernel = record m.kernel { pending = cleared } }

-- The task that was looked up, where it is in the state that is asked for.
unfoldable pub if_in_state : TaskTable → (TaskState → Bool) → Option ℕ → Option ℕ
if_in_state t good none = none
if_in_state t good (some i) = if good (t.slots i).state then some i else none

-- The end of the consumption, for `from` RUNNING and `to` READY.
unfoldable pub dispatch_between :
    Platform → Machine → Option ℕ → Option ℕ → Control (Machine × Consumption)
dispatch_between p m (some from) (some to) =
    switch_to p m (some from) (some to) >>= λ (m', r). comes_back (clear_request m', dispatched r)
dispatch_between p m _ _ = comes_back (clear_request m, invalid)

-- dispatch_pending_consume_at_deferred_boundary. The tasks are looked up again by the ids of the
-- request.
unfoldable pub consume : Platform → Machine → Control (Machine × Consumption)
unfolding dispatch_between if_in_state
consume p m =
    let t = m.kernel.tasks in
    let request = m.kernel.pending in
    elim request.requested [
      | false ↦ comes_back (m, no_pending)
      | true ↦
          dispatch_between p m (if_in_state t is_running (task_get_by_id t request.current_id))
            (if_in_state t is_ready (task_get_by_id t request.candidate_id))
    ]

-- arch_timer_irq_handle with arch_timer_irq_exit_observe_boundary, which consumes in either case
unfoldable pub timer_irq_handle : Platform → Machine → Control Machine
unfolding consume
timer_irq_handle p m =
    consume p (record m { kernel = timer_irq m.kernel }) >>= λ (m', r). comes_back m'
