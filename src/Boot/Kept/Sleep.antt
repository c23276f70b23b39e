-- ===== src/Boot/Kept/Sleep.antt =====
-- What kernel_run_sleep_wakeup_task_api_smoke of kernel/kernel.c keeps.
use itron_rtos.Common.{ℕ, refl, inl, inr, not, ◌||◌, [], ◌∷◌, Bool-cases, is_positive}
use itron_rtos.Task
use itron_rtos.Task.{TaskTable, TaskResult}
use itron_rtos.Pending.Requests.{logs-PendingOk}
use itron_rtos.Kernel.{Kernel}
use itron_rtos.Api.Invariant.{KernelOk}
use itron_rtos.Api.History.{calls_wup_tsk, run_kernel_call, run_kernel_call-KernelOk}
use itron_rtos.Context.{Platform, Machine}
use itron_rtos.Blocking.Switches.{EntriesKeep}
use itron_rtos.Blocking.History.{stays, calls_slp_tsk, run_machine, run_machine-KernelOk}
use itron_rtos.Boot.{
  BootTask, task_sleep_current, task_sleep_next, task_sleep_waker, task_sleep_sem_wait,
  task_sleep_delay_wait, task_sleep_twai_wait, negative, Image, register, commit_id,
  commit_registered,
}
use itron_rtos.Boot.Calls.{
  sleep_smoke, log_state, clear_pending, Mark, marks_sem, marks_delay, marks_timeout, wake_marked,
  wake_waiting, wake_others, end_of_wakeup, wake_again, wake_sleeper, wake_smoke,
  sleep_wakeup_smoke,
}
use itron_rtos.Boot.Kept.{
  commit_id-KernelOk, commit_registered-KernelOk, register-KernelOk, registered-KernelOk,
  and_then-KernelOk, go_on-KernelOk,
}
use itron_rtos.Boot.Kept.Calls.{Boots, then-Boots}

wake_marked-KernelOk :
    (k : Kernel) (task_id : ℕ) (t : TaskTable) (r : TaskResult)
    → KernelOk k
    → KernelOk (wake_marked k task_id (t, r))
unfolding wake_marked run_kernel_call
wake_marked-KernelOk k task_id t Task.ok v =
    run_kernel_call-KernelOk (calls_wup_tsk task_id) (record k { tasks = t }) v
wake_marked-KernelOk k task_id t Task.full v = v
wake_marked-KernelOk k task_id t Task.inval v = v
wake_marked-KernelOk k task_id t Task.id_overflow v = v
wake_marked-KernelOk k task_id t Task.not_found v = v
wake_marked-KernelOk k task_id t Task.bad_state v = v

wake_waiting-KernelOk :
    (im : Image) (b : BootTask) (mark : Mark) (k : Kernel)
    → KernelOk k
    → KernelOk (wake_waiting im b mark k)
unfolding wake_waiting
wake_waiting-KernelOk im b mark k v =
    let (k1, task_id) = register im b 8 k in
    and_then-KernelOk (commit_registered (k1, task_id))
      (λ k2. wake_marked k2 task_id (mark k2.tasks task_id))
      (commit_registered-KernelOk k1 task_id (register-KernelOk im b 8 k v))
      λ k2 v2. let (t, r) = mark k2.tasks task_id in wake_marked-KernelOk k2 task_id t r v2

wake_others-KernelOk : (im : Image) (k : Kernel) → KernelOk k → KernelOk (wake_others im k)
unfolding wake_others
wake_others-KernelOk im k v =
    let k1 = wake_waiting im task_sleep_sem_wait marks_sem k in
    let k2 = wake_waiting im task_sleep_delay_wait marks_delay k1 in
    wake_waiting-KernelOk im task_sleep_twai_wait marks_timeout k2 (
      wake_waiting-KernelOk im task_sleep_delay_wait marks_delay k1
        (wake_waiting-KernelOk im task_sleep_sem_wait marks_sem k v))

module _ (p : Platform) (entries : EntriesKeep p) where
  wake_again-Boots :
      (im : Image) (task_id : ℕ) (m : Machine)
      → KernelOk m.kernel
      → Boots p entries (wake_again p im task_id m)
  unfolding wake_again
  wake_again-Boots im task_id m (s, d, r) =
      let calls = stays (calls_wup_tsk task_id) ∷ [] in
      then-Boots p entries (run_machine p calls (log_state m)) (end_of_wakeup im)
        (run_machine-KernelOk p calls (log_state m) entries (s, d, logs-PendingOk _ r))
        λ m' v'. wake_others-KernelOk im m'.kernel v'

  wake_sleeper-Boots :
      (im : Image) (task_id : ℕ) (m : Machine)
      → KernelOk m.kernel
      → Boots p entries (wake_sleeper p im task_id m)
  unfolding wake_sleeper
  wake_sleeper-Boots im task_id m v =
      let calls = stays (calls_wup_tsk 999) ∷ stays (calls_wup_tsk task_id) ∷ [] in
      then-Boots p entries (run_machine p calls m) (wake_again p im task_id)
        (run_machine-KernelOk p calls m entries v) (wake_again-Boots im task_id)

  wake_smoke-Boots :
      (im : Image) (task_id : ℕ) (m : Machine)
      → KernelOk m.kernel
      → Boots p entries (wake_smoke p im task_id m)
  unfolding wake_smoke
  wake_smoke-Boots im task_id m v =
      go_on-KernelOk m (commit_registered (register im task_sleep_waker 10 m.kernel))
        (wake_sleeper p im task_id) (registered-KernelOk im task_sleep_waker 10 m.kernel v)
        (wake_sleeper-Boots im task_id)

  sleep_smoke-Boots :
      (im : Image) (task_id : ℕ) (m : Machine)
      → KernelOk m.kernel
      → Boots p entries (sleep_smoke p im task_id m)
  unfolding sleep_smoke
  sleep_smoke-Boots im task_id m v =
      then-Boots p entries (run_machine p (calls_slp_tsk ∷ []) m) (wake_smoke p im task_id)
        (run_machine-KernelOk p (calls_slp_tsk ∷ []) m entries v) (wake_smoke-Boots im task_id)

  pub sleep_wakeup_smoke-Boots :
      (im : Image) (m : Machine) → KernelOk m.kernel → Boots p entries (sleep_wakeup_smoke p im m)
  unfolding sleep_wakeup_smoke
  sleep_wakeup_smoke-Boots im m v =
      let k0 = clear_pending m.kernel in
      let (k, a) = register im task_sleep_current (negative 2) k0 in
      let (k', b) = register im task_sleep_next (negative 1) k in
      let w =
        register-KernelOk im task_sleep_next (negative 1) k
          (register-KernelOk im task_sleep_current (negative 2) k0 (v.0, v.1, inl refl)) in
      elim (Bool-cases (not (is_positive a) || not (is_positive b))) [
        | inl e ↦ rw e w
        | inr e ↦ rw e (
            go_on-KernelOk m (commit_id k' a) (sleep_smoke p im a) (commit_id-KernelOk k' a w)
              (sleep_smoke-Boots im a))
      ]
