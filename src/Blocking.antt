-- ===== src/Blocking.antt =====
-- kernel/itron_api.c: the calls that switch to another task.
pub mod Begin
pub mod Kept
pub mod Starts
pub mod Switches
pub mod Waiting
pub mod WaiSem
pub mod TimedWaiting
pub mod TwaiSem
pub mod Delays
pub mod Yield
pub mod Runner
pub mod History
mod Tests
use itron_rtos.Common.{
  ℕ, Bool, true, false, Option, none, some, ◌==◌, if◌then◌else◌, Control, comes_back, ◌>>=◌,
}
use itron_rtos.Task
use itron_rtos.Task.{TaskTable, TaskResult}
use itron_rtos.Task.Lookup.{task_get_by_id}
use itron_rtos.Task.Moves.{mark_ready_from_running}
use itron_rtos.Scheduler.{select_next}
use itron_rtos.Kernel.{Kernel}
use itron_rtos.Api.{Er, e_ok, e_ctx, e_obj}
use itron_rtos.Context.{Platform, Machine, slot_of, with_tasks}
use itron_rtos.Dispatcher
use itron_rtos.Dispatcher.{DispatchResult, switch_to}
use itron_rtos.Blocking.Begin.{
  Step, done, switches, begin_slp_tsk, begin_wai_sem, begin_twai_sem, begin_dly_tsk,
}

abbrev pub er_of : DispatchResult → Er
er_of Dispatcher.ok = e_ok
er_of _ = e_obj

-- The switch, for the tasks that were looked up again.
unfoldable pub switch_found : Platform → Machine → Option ℕ → Option ℕ → Control (Machine × Er)
switch_found p m (some from) (some to) =
    switch_to p m (some from) (some to) >>= λ (m', r). comes_back (m', er_of r)
switch_found p m _ _ = comes_back (m, e_obj)

-- The end that slp_tsk, wai_sem, twai_sem and dly_tsk share, from the scheduler's choice on.
unfoldable pub switch_away : Platform → Machine → ℕ → Control (Machine × Er)
unfolding switch_found
switch_away p m current =
    let t = m.kernel.tasks in
    elim (select_next t) [
      | none ↦ comes_back (m, e_ok)
      | some next ↦
          switch_found p m (task_get_by_id t (t.slots current).id)
            (task_get_by_id t (t.slots next).id)
    ]

unfoldable pub take_step : Platform → Machine → Step → Control (Machine × Er)
unfolding switch_away
take_step p m (done k er) = comes_back (record m { kernel = k }, er)
take_step p m (switches k current) = switch_away p (record m { kernel = k }) current

-- slp_tsk
unfoldable pub slp_tsk : Platform → Machine → Control (Machine × Er)
unfolding take_step
slp_tsk p m = take_step p m (begin_slp_tsk m.kernel)

-- wai_sem
unfoldable pub wai_sem : Platform → Machine → ℕ → Control (Machine × Er)
unfolding take_step
wai_sem p m sem_id = take_step p m (begin_wai_sem m.kernel sem_id)

-- twai_sem
unfoldable pub twai_sem : Platform → Machine → ℕ → ℕ → Control (Machine × Er)
unfolding take_step
twai_sem p m sem_id timeout_ticks = take_step p m (begin_twai_sem m.kernel sem_id timeout_ticks)

-- dly_tsk
unfoldable pub dly_tsk : Platform → Machine → ℕ → Control (Machine × Er)
unfolding take_step
dly_tsk p m delay_ticks = take_step p m (begin_dly_tsk m.kernel delay_ticks)

-- The result of the switch is only printed.
unfoldable pub yield_found : Platform → Machine → Option ℕ → Option ℕ → Control (Machine × Er)
yield_found p m (some from) (some to) =
    switch_to p m (some from) (some to) >>= λ (m', r). comes_back (m', e_ok)
yield_found p m _ _ = comes_back (m, e_ctx)

unfoldable pub yielded : Platform → Machine → ℕ → TaskTable × TaskResult → Control (Machine × Er)
unfolding yield_found
yielded p m current (t, Task.ok) = elim (select_next t) [
  | none ↦ comes_back (with_tasks m t, e_ok)
  | some next ↦
      if (t.slots next).id == (t.slots current).id
      then comes_back (with_tasks m t, e_ok)
      else yield_found p (with_tasks m t) (task_get_by_id t (t.slots current).id)
          (task_get_by_id t (t.slots next).id)
]
yielded p m current (t, _) = comes_back (with_tasks m t, e_ctx)

-- yield_tsk
unfoldable pub yield_tsk : Platform → Machine → Control (Machine × Er)
unfolding yielded
yield_tsk p m = elim m.kernel.current [
  | none ↦ comes_back (m, e_ctx)
  | some c ↦
      if Task.is_running (slot_of m c).state
      then yielded p m c (mark_ready_from_running m.kernel.tasks (slot_of m c).id)
      else comes_back (m, e_ctx)
]
