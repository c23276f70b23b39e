-- ===== src/Boot/Kept/Calls.antt =====
-- What the parts of kernel/kernel.c that call the API keep.
use itron_rtos.Common.{
  ℕ, refl, inl, inr, not, ◌||◌, Option, none, some, Bool-cases, Control, AfterReturn,
  AfterReturn->>=, ◌>>=◌, is_nonneg,
}
use itron_rtos.Semaphore.{sem_init}
use itron_rtos.Semaphore.Bounds.{sem_init-AllSemsOk}
use itron_rtos.Pending.Requests.{logs-PendingOk}
use itron_rtos.Api.Invariant.{KernelOk}
use itron_rtos.Context.{Platform, Machine}
use itron_rtos.Dispatcher.{switch_to}
use itron_rtos.Dispatcher.Kept.{switch_to-Keeps}
use itron_rtos.Boundary.{consume}
use itron_rtos.Blocking.{yield_tsk}
use itron_rtos.Blocking.Switches.{EntriesKeep, insensitive, yield_tsk-Keeps, consume-Keeps}
use itron_rtos.Blocking.History.{drop_result, run_machine, dropped-KernelOk, run_machine-KernelOk}
use itron_rtos.Boot.{
  task_wai_sem_to, task_api_current, Image, sem_a, sem_pol, sem_twai, create_sem, register, commit,
  commit_id, commit_registered,
}
use itron_rtos.Boot.Calls.{
  yield_running_smoke, switch_pair, context_switch_smoke, signals, signal_smoke, polls_and_waits,
  wait_smoke, semaphore_smoke, delay_calls, timed_waits, creates_and_starts, consume_logged,
  create_and_start, delay_smoke, twai_sem_smoke, create_start_smoke, log_state, clear_pending,
}
use itron_rtos.Boot.Kept.{
  commit_current-KernelOk, commit_id-KernelOk, create_sem-KernelOk, registered-KernelOk,
  go_on-KernelOk,
}

module _ (p : Platform) (entries : EntriesKeep p) where
  -- The fuel is enough, and where the machine comes back its kernel is in order.
  abbrev pub Boots : Control Machine → Type 0
  Boots = AfterReturn (λ m. KernelOk m.kernel)

  pub then-Boots :
      (c : Control Machine) (f : Machine → Control Machine)
      → Boots c
      → ((m : Machine) → KernelOk m.kernel → Boots (f m))
      → Boots (c >>= f)
  then-Boots c f v h = AfterReturn->>= (λ m. KernelOk m.kernel) (λ m. KernelOk m.kernel) c f v h

  pub yield_tsk-Boots : (m : Machine) → KernelOk m.kernel → Boots (yield_tsk p m >>= drop_result)
  yield_tsk-Boots m v = dropped-KernelOk (yield_tsk p m) (yield_tsk-Keeps p entries m v)

  pub yield_running_smoke-Boots :
      (o : Option ℕ) (m : Machine) → KernelOk m.kernel → Boots (yield_running_smoke p o m)
  unfolding yield_running_smoke commit
  yield_running_smoke-Boots none m v = v
  yield_running_smoke-Boots (some i) m v =
      go_on-KernelOk m (commit m.kernel (some i)) _ (commit_current-KernelOk m.kernel (some i) v)
        yield_tsk-Boots

  switch_pair-Boots :
      (from to : Option ℕ) (m : Machine) → KernelOk m.kernel → Boots (switch_pair p from to m)
  unfolding switch_pair
  switch_pair-Boots none to m v = v
  switch_pair-Boots (some from) none m v = v
  switch_pair-Boots (some from) (some to) m v =
      dropped-KernelOk (switch_to p m (some from) (some to)) (
        switch_to-Keeps p KernelOk (insensitive p entries) (λ k tasks current w. w) m (some from)
          (some to) v)

  pub context_switch_smoke-Boots :
      (selected : ℕ) (next : Option ℕ) (m : Machine)
      → KernelOk m.kernel
      → Boots (context_switch_smoke p selected next m)
  unfolding context_switch_smoke commit
  context_switch_smoke-Boots selected next m v =
      go_on-KernelOk m (commit m.kernel (some selected)) _
        (commit_current-KernelOk m.kernel (some selected) v) λ m' v'. switch_pair-Boots _ _ m' v'

  signal_smoke-Boots :
      (im : Image) (sem_id : ℕ) (m : Machine)
      → KernelOk m.kernel
      → Boots (signal_smoke p im sem_id m)
  unfolding signal_smoke
  signal_smoke-Boots im sem_id m v =
      go_on-KernelOk m (commit_registered (register im task_wai_sem_to 5 m.kernel))
        (run_machine p (signals sem_id)) (registered-KernelOk im task_wai_sem_to 5 m.kernel v)
        λ m' v'. run_machine-KernelOk p (signals sem_id) m' entries v'

  wait_smoke-Boots :
      (im : Image) (a b : ℕ) (m : Machine) → KernelOk m.kernel → Boots (wait_smoke p im a b m)
  unfolding wait_smoke
  wait_smoke-Boots im a b m v =
      then-Boots (run_machine p (polls_and_waits a b) m) (signal_smoke p im a)
        (run_machine-KernelOk p (polls_and_waits a b) m entries v) (signal_smoke-Boots im a)

  pub semaphore_smoke-Boots :
      (im : Image) (task_id : ℕ) (m : Machine)
      → KernelOk m.kernel
      → Boots (semaphore_smoke p im task_id m)
  unfolding semaphore_smoke
  semaphore_smoke-Boots im task_id m v =
      let k0 = record m.kernel { sems = sem_init } in
      let (k, a) = create_sem im sem_a 1 1 k0 in
      let (k', b) = create_sem im sem_pol 1 1 k in
      let w =
        create_sem-KernelOk im sem_pol 1 1 k
          (create_sem-KernelOk im sem_a 1 1 k0 (sem_init-AllSemsOk, v.1, v.2)) in
      elim (Bool-cases (not (is_nonneg a) || not (is_nonneg b))) [
        | inl e ↦ rw e w
        | inr e ↦ rw e (
            go_on-KernelOk m (commit_id k' task_id) (wait_smoke p im a b)
              (commit_id-KernelOk k' task_id w) (wait_smoke-Boots im a b))
      ]

  pub delay_smoke-Boots :
      (task_id : ℕ) (m : Machine) → KernelOk m.kernel → Boots (delay_smoke p task_id m)
  unfolding delay_smoke
  delay_smoke-Boots task_id m v =
      go_on-KernelOk m (commit_id m.kernel task_id) (run_machine p delay_calls)
        (commit_id-KernelOk m.kernel task_id v)
        λ m' v'. run_machine-KernelOk p delay_calls m' entries v'

  pub twai_sem_smoke-Boots :
      (im : Image) (task_id : ℕ) (m : Machine)
      → KernelOk m.kernel
      → Boots (twai_sem_smoke p im task_id m)
  unfolding twai_sem_smoke
  twai_sem_smoke-Boots im task_id m v =
      let k0 = record m.kernel { sems = sem_init } in
      let (k, a) = create_sem im sem_twai 1 1 k0 in
      let w = create_sem-KernelOk im sem_twai 1 1 k0 (sem_init-AllSemsOk, v.1, v.2) in
      elim (Bool-cases (not (is_nonneg a))) [
        | inl e ↦ rw e w
        | inr e ↦ rw e (
            go_on-KernelOk m (commit_id k task_id) (run_machine p (timed_waits a))
              (commit_id-KernelOk k task_id w)
              λ m' v'. run_machine-KernelOk p (timed_waits a) m' entries v')
      ]

  create_and_start-Boots :
      (im : Image) (m : Machine) → KernelOk m.kernel → Boots (create_and_start p im m)
  unfolding create_and_start
  create_and_start-Boots im m v =
      then-Boots (run_machine p (creates_and_starts im) m) (consume_logged p)
        (run_machine-KernelOk p (creates_and_starts im) m entries v)
        λ m' (s, d, r).
          dropped-KernelOk (consume p (log_state m'))
            (consume-Keeps p entries (log_state m') (s, d, logs-PendingOk _ r))

  pub create_start_smoke-Boots :
      (im : Image) (m : Machine) → KernelOk m.kernel → Boots (create_start_smoke p im m)
  unfolding create_start_smoke
  create_start_smoke-Boots im m v =
      let k = clear_pending m.kernel in
      go_on-KernelOk m (commit_registered (register im task_api_current 5 k))
        (create_and_start p im) (registered-KernelOk im task_api_current 5 k (v.0, v.1, inl refl))
        (create_and_start-Boots im)
