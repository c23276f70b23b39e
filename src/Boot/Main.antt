-- ===== src/Boot/Main.antt =====
-- kernel_main of kernel/kernel.c, from the initialisation of the task table on.
use itron_rtos.Common.{
  ℕ, Bool, ◌==◌, ◌&&◌, Option, none, some, Control, comes_back, ◌>>=◌, if◌then◌else◌, is_positive,
}
use itron_rtos.Task.{TaskTable}
use itron_rtos.Task.Lookup.{task_get_by_id}
use itron_rtos.Task.Create.{task_init}
use itron_rtos.Scheduler.{select_next}
use itron_rtos.DelayQueue
use itron_rtos.Kernel.{Kernel}
use itron_rtos.Context.{Platform, Machine}
use itron_rtos.Blocking.{yield_tsk}
use itron_rtos.Blocking.History.{drop_result}
use itron_rtos.Cooperative.{cooperative_entries}
use itron_rtos.Boot.{
  task_a, task_b, task_c, task_yield_from, task_yield_to, task_wai_sem_from, task_dly_from,
  task_dly_to, task_twai_from, task_twai_to, task_tick_delay, task_tick_twai, task_tick_current,
  Image, register,
}
use itron_rtos.Boot.Observe.{timer_smoke, preemption_smoke, tick_ready_smoke}
use itron_rtos.Boot.Calls.{
  at, yield_running_smoke, context_switch_smoke, semaphore_smoke, delay_smoke, twai_sem_smoke,
  create_start_smoke, sleep_wakeup_smoke,
}

-- task_init, delay_queue_init, scheduler_init, which only prints, and dispatcher_init; and the first
-- use of the timer.
unfoldable pub start_up : Kernel → Kernel
start_up k = timer_smoke (record k { tasks = task_init; delays = DelayQueue.init; current = none })

-- The task to switch to: the one of `other_id` where the selected task has the id `next_id`.
unfoldable pub other_task : TaskTable → ℕ → ℕ → ℕ → Option ℕ
other_task t selected next_id other_id = elim (task_get_by_id t next_id) [
  | none ↦ none
  | some next ↦
      if (t.slots next).id == (t.slots selected).id then task_get_by_id t other_id else some next
]

unfoldable pub switch_selected : Platform → Option ℕ → Option ℕ → Machine → Control Machine
switch_selected p (some selected) (some next) m = context_switch_smoke p selected (some next) m
switch_selected p _ _ m = comes_back m

-- From the selection of the first task on, to the yield_tsk of a task that has ended.
unfoldable pub context_part : Platform → ℕ → ℕ → Machine → Control Machine
unfolding switch_selected other_task
context_part p task_b_id task_c_id m =
    let t = m.kernel.tasks in
    elim (select_next t) [
      | none ↦ comes_back m
      | some selected ↦
          switch_selected p (some selected) (other_task t selected task_c_id task_b_id) m
    ]
    >>= λ m'. yield_tsk p m' >>= drop_result

abbrev pub yield_if : Platform → Bool → Option ℕ → Machine → Control Machine
yield_if p b selected m = if b then yield_running_smoke p selected m else comes_back m

-- The second yield_tsk, where no other task is READY.
abbrev pub yield_alone : Platform → ℕ → Machine → Control Machine
yield_alone p task_a_id m =
    yield_if p (is_positive task_a_id) (task_get_by_id m.kernel.tasks task_a_id) m

abbrev pub run_entries : Platform → Machine → Control Machine
run_entries p m = comes_back (at m (cooperative_entries p m.kernel).0)

-- yield_tsk with and without a task to switch to, and the cooperative entries.
unfoldable pub yield_part : Platform → Image → ℕ → Machine → Control Machine
yield_part p im task_a_id m =
    let (k, from_id) = register im task_yield_from 5 m.kernel in
    let (k', to_id) = register im task_yield_to 1 k in
    yield_if p (is_positive from_id && is_positive to_id) (task_get_by_id k'.tasks from_id)
      (at m k')
    >>= yield_alone p task_a_id
    >>= run_entries p

unfoldable pub semaphore_part : Platform → Image → Machine → Control Machine
semaphore_part p im m =
    let (k, from_id) = register im task_wai_sem_from 1 m.kernel in
    if is_positive from_id then semaphore_smoke p im from_id (at m k) else comes_back (at m k)

unfoldable pub delay_part : Platform → Image → Machine → Control Machine
delay_part p im m =
    let (k, from_id) = register im task_dly_from 5 m.kernel in
    let (k', to_id) = register im task_dly_to 1 k in
    if is_positive from_id && is_positive to_id
    then delay_smoke p from_id (at m k')
    else comes_back (at m k')

unfoldable pub twai_part : Platform → Image → Machine → Control Machine
twai_part p im m =
    let (k, from_id) = register im task_twai_from 5 m.kernel in
    let (k', to_id) = register im task_twai_to 0 k in
    if is_positive from_id && is_positive to_id
    then twai_sem_smoke p im from_id (at m k')
    else comes_back (at m k')

unfoldable pub tick_part : Image → Kernel → Kernel
tick_part im k =
    let (k1, delay_id) = register im task_tick_delay 1 k in
    let (k2, twai_id) = register im task_tick_twai 0 k1 in
    let (k3, current_id) = register im task_tick_current 5 k2 in
    if is_positive delay_id && is_positive twai_id && is_positive current_id
    then tick_ready_smoke im delay_id twai_id current_id k3
    else k3

abbrev pub tick_and_create : Platform → Image → Machine → Control Machine
tick_and_create p im m = create_start_smoke p im (at m (tick_part im m.kernel))

-- kernel_main in the default build, once the console and the interrupts are set up, to its last loop.
unfoldable pub kernel_main : Platform → Image → Machine → Control Machine
unfolding context_part yield_part semaphore_part delay_part twai_part tick_part
kernel_main p im m =
    let (k1, task_a_id) = register im task_a 5 (start_up m.kernel) in
    let (k2, task_b_id) = register im task_b 1 k1 in
    let (k3, task_c_id) = register im task_c 1 k2 in
    context_part p task_b_id task_c_id (at m (preemption_smoke task_a_id task_b_id k3))
    >>= yield_part p im task_a_id
    >>= semaphore_part p im
    >>= delay_part p im
    >>= twai_part p im
    >>= tick_and_create p im
    >>= sleep_wakeup_smoke p im
