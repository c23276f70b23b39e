-- ===== src/Boot/Calls.antt =====
-- The parts of the boot sequence of kernel/kernel.c that call the API.
use itron_rtos.Common.{
  ℕ, not, ◌||◌, ◌==◌, Option, none, some, List, [], ◌∷◌, Control, comes_back, ◌>>=◌, if◌then◌else◌,
  is_positive, is_nonneg,
}
use itron_rtos.Task
use itron_rtos.Task.{TaskTable, TaskResult}
use itron_rtos.Task.Lookup.{task_get_by_id}
use itron_rtos.Task.Moves.{mark_waiting_on_sem, mark_waiting_on_delay, mark_waiting_on_sem_timeout}
use itron_rtos.Semaphore.{sem_init}
use itron_rtos.Pending.{cleared, log_state_from_irq}
use itron_rtos.Kernel.{Kernel}
use itron_rtos.Api.{wup_tsk}
use itron_rtos.Api.History.{
  calls_cre_tsk, calls_sta_tsk, calls_wup_tsk, calls_pol_sem, calls_sig_sem,
}
use itron_rtos.Context.{Platform, Machine}
use itron_rtos.Dispatcher.{switch_to}
use itron_rtos.Boundary.{consume}
use itron_rtos.Blocking.{yield_tsk}
use itron_rtos.Blocking.History.{
  MachineCall, stays, calls_slp_tsk, calls_wai_sem, calls_dly_tsk, calls_twai_sem, drop_result,
  run_machine,
}
use itron_rtos.Boot.{
  BootTask, task_wai_sem_to, task_api_current, task_api_created, task_high, task_sleep_current,
  task_sleep_next, task_sleep_waker, task_sleep_sem_wait, task_sleep_delay_wait,
  task_sleep_twai_wait, sem_a, sem_pol, sem_twai, Image, spec_of, negative, register, create_sem,
  and_then, go_on, commit, commit_id, commit_registered,
}

abbrev pub at : Machine → Kernel → Machine
at m k = record m { kernel = k }

-- kernel_run_yield_running_smoke
unfoldable pub yield_running_smoke : Platform → Option ℕ → Machine → Control Machine
yield_running_smoke p none m = comes_back m
yield_running_smoke p (some selected) m =
    go_on m (commit m.kernel (some selected)) λ m'. yield_tsk p m' >>= drop_result

-- The task to switch to: the other one, looked up by its id again.
unfoldable pub next_task : TaskTable → ℕ → Option ℕ → Option ℕ
next_task t selected none = none
next_task t selected (some next) =
    if (t.slots next).id == (t.slots selected).id then none else task_get_by_id t (t.slots next).id

unfoldable pub switch_pair : Platform → Option ℕ → Option ℕ → Machine → Control Machine
switch_pair p (some current) (some next) m =
    switch_to p m (some current) (some next) >>= drop_result
switch_pair p _ _ m = comes_back m

-- kernel_run_minimal_context_switch_smoke, for a selected task that is not NULL
unfoldable pub context_switch_smoke : Platform → ℕ → Option ℕ → Machine → Control Machine
unfolding switch_pair next_task
context_switch_smoke p selected next m = go_on m (commit m.kernel (some selected)) λ m'.
    let t = m'.kernel.tasks in
    switch_pair p (task_get_by_id t (t.slots selected).id) (next_task t selected next) m'

abbrev pub signals : ℕ → List MachineCall
signals sem_id = stays (calls_sig_sem sem_id) ∷ stays (calls_sig_sem sem_id) ∷ []

-- kernel_run_semaphore_smoke from the registration of the signalling task on.
unfoldable pub signal_smoke : Platform → Image → ℕ → Machine → Control Machine
signal_smoke p im sem_a_id m =
    go_on m (commit_registered (register im task_wai_sem_to 5 m.kernel))
      (run_machine p (signals sem_a_id))

abbrev pub polls_and_waits : ℕ → ℕ → List MachineCall
polls_and_waits sem_a_id sem_pol_id =
    stays (calls_pol_sem sem_pol_id)
    ∷ stays (calls_pol_sem sem_pol_id)
    ∷ stays (calls_pol_sem (negative 1))
    ∷ calls_wai_sem (negative 1)
    ∷ calls_wai_sem sem_a_id
    ∷ calls_wai_sem sem_a_id
    ∷ []

-- kernel_run_semaphore_smoke from its first pol_sem on.
unfoldable pub wait_smoke : Platform → Image → ℕ → ℕ → Machine → Control Machine
unfolding signal_smoke
wait_smoke p im sem_a_id sem_pol_id m =
    run_machine p (polls_and_waits sem_a_id sem_pol_id) m >>= signal_smoke p im sem_a_id

-- kernel_run_semaphore_smoke
unfoldable pub semaphore_smoke : Platform → Image → ℕ → Machine → Control Machine
unfolding wait_smoke
semaphore_smoke p im current_task_id m =
    let (k, sem_a_id) = create_sem im sem_a 1 1 (record m.kernel { sems = sem_init }) in
    let (k', sem_pol_id) = create_sem im sem_pol 1 1 k in
    if not (is_nonneg sem_a_id) || not (is_nonneg sem_pol_id)
    then comes_back (at m k')
    else go_on m (commit_id k' current_task_id) (wait_smoke p im sem_a_id sem_pol_id)

abbrev pub delay_calls : List MachineCall
delay_calls = calls_dly_tsk 0 ∷ calls_dly_tsk 10 ∷ []

-- kernel_run_delay_smoke
unfoldable pub delay_smoke : Platform → ℕ → Machine → Control Machine
delay_smoke p current_task_id m =
    go_on m (commit_id m.kernel current_task_id) (run_machine p delay_calls)

abbrev pub timed_waits : ℕ → List MachineCall
timed_waits sem_id =
    calls_twai_sem sem_id 0
    ∷ calls_twai_sem sem_id 10
    ∷ calls_twai_sem sem_id 10
    ∷ stays (calls_sig_sem sem_id)
    ∷ []

-- kernel_run_twai_sem_smoke
unfoldable pub twai_sem_smoke : Platform → Image → ℕ → Machine → Control Machine
twai_sem_smoke p im current_task_id m =
    let (k, sem_twai_id) = create_sem im sem_twai 1 1 (record m.kernel { sems = sem_init }) in
    if not (is_nonneg sem_twai_id)
    then comes_back (at m k)
    else go_on m (commit_id k current_task_id) (run_machine p (timed_waits sem_twai_id))

-- dispatch_pending_log_state_from_irq
abbrev pub log_state : Machine → Machine
log_state m = at m (record m.kernel { pending = log_state_from_irq m.kernel.pending })

-- dispatch_pending_clear_for_test_or_later_boundary
abbrev pub clear_pending : Kernel → Kernel
clear_pending k = record k { pending = cleared }

abbrev pub creates_and_starts : Image → List MachineCall
creates_and_starts im =
    stays (calls_cre_tsk 22 none)
    ∷ stays (calls_cre_tsk 20 (some (spec_of im task_api_created 6)))
    ∷ stays (calls_sta_tsk 999)
    ∷ stays (calls_sta_tsk 20)
    ∷ stays (calls_sta_tsk 20)
    ∷ stays (calls_cre_tsk 21 (some (spec_of im task_high 1)))
    ∷ stays (calls_sta_tsk 21)
    ∷ []

abbrev pub consume_logged : Platform → Machine → Control Machine
consume_logged p m = consume p (log_state m) >>= drop_result

-- kernel_run_create_start_task_api_smoke from its first cre_tsk on.
unfoldable pub create_and_start : Platform → Image → Machine → Control Machine
create_and_start p im m = run_machine p (creates_and_starts im) m >>= consume_logged p

-- kernel_run_create_start_task_api_smoke
unfoldable pub create_start_smoke : Platform → Image → Machine → Control Machine
unfolding create_and_start
create_start_smoke p im m =
    go_on m (commit_registered (register im task_api_current 5 (clear_pending m.kernel)))
      (create_and_start p im)

unfoldable pub wake_marked : Kernel → ℕ → TaskTable × TaskResult → Kernel
wake_marked k task_id (tasks, Task.ok) = (wup_tsk (record k { tasks = tasks }) task_id).0
wake_marked k task_id (tasks, _) = record k { tasks = tasks }

-- How a task starts to wait, without the queues.
abbrev pub Mark : Type 0
Mark = TaskTable → ℕ → TaskTable × TaskResult

abbrev pub marks_sem : Mark
marks_sem t task_id = mark_waiting_on_sem t task_id 99

abbrev pub marks_delay : Mark
marks_delay t task_id = mark_waiting_on_delay t task_id 5

abbrev pub marks_timeout : Mark
marks_timeout t task_id = mark_waiting_on_sem_timeout t task_id 100 5

-- wup_tsk for a task that waits, but not in slp_tsk
unfoldable pub wake_waiting : Image → BootTask → Mark → Kernel → Kernel
unfolding wake_marked
wake_waiting im b mark k =
    let (k', task_id) = register im b 8 k in
    and_then (commit_registered (k', task_id))
      λ k''. wake_marked k'' task_id (mark k''.tasks task_id)

-- kernel_run_sleep_wakeup_task_api_smoke from the registration of the task that waits on a semaphore on.
unfoldable pub wake_others : Image → Kernel → Kernel
unfolding wake_waiting
wake_others im k = wake_waiting im task_sleep_twai_wait marks_timeout (
    wake_waiting im task_sleep_delay_wait marks_delay
      (wake_waiting im task_sleep_sem_wait marks_sem k))

abbrev pub end_of_wakeup : Image → Machine → Control Machine
end_of_wakeup im m = comes_back (at m (wake_others im m.kernel))

-- The second wup_tsk of the task that sleeps, and what follows it.
unfoldable pub wake_again : Platform → Image → ℕ → Machine → Control Machine
unfolding wake_others
wake_again p im sleep_current_id m =
    run_machine p (stays (calls_wup_tsk sleep_current_id) ∷ []) (log_state m) >>= end_of_wakeup im

unfoldable pub wake_sleeper : Platform → Image → ℕ → Machine → Control Machine
unfolding wake_again
wake_sleeper p im sleep_current_id m =
    run_machine p (stays (calls_wup_tsk 999) ∷ stays (calls_wup_tsk sleep_current_id) ∷ []) m
    >>= wake_again p im sleep_current_id

-- kernel_run_sleep_wakeup_task_api_smoke from the registration of the waking task on.
unfoldable pub wake_smoke : Platform → Image → ℕ → Machine → Control Machine
unfolding wake_sleeper
wake_smoke p im sleep_current_id m =
    go_on m (commit_registered (register im task_sleep_waker 10 m.kernel))
      (wake_sleeper p im sleep_current_id)

-- kernel_run_sleep_wakeup_task_api_smoke from slp_tsk on.
unfoldable pub sleep_smoke : Platform → Image → ℕ → Machine → Control Machine
unfolding wake_smoke
sleep_smoke p im sleep_current_id m =
    run_machine p (calls_slp_tsk ∷ []) m >>= wake_smoke p im sleep_current_id

-- kernel_run_sleep_wakeup_task_api_smoke; -2 and -1 are the priorities.
unfoldable pub sleep_wakeup_smoke : Platform → Image → Machine → Control Machine
unfolding sleep_smoke
sleep_wakeup_smoke p im m =
    let (k, sleep_current_id) =
      register im task_sleep_current (negative 2) (clear_pending m.kernel) in
    let (k', sleep_next_id) = register im task_sleep_next (negative 1) k in
    if not (is_positive sleep_current_id) || not (is_positive sleep_next_id)
    then comes_back (at m k')
    else go_on m (commit_id k' sleep_current_id) (sleep_smoke p im sleep_current_id)
