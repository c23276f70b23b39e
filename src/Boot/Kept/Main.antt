-- ===== src/Boot/Kept/Main.antt =====
-- What kernel_main of kernel/kernel.c keeps.
use itron_rtos.Common.{
  ℕ, collect, inl, inr, ◌&&◌, ◌>>=◌, none, some, Option, true, false, Bool-cases, Option-cases,
  Control, AfterReturn, Bool, if◌then◌else◌, comes_back, is_positive, arith,
}
use itron_rtos.Task.Lookup.{task_get_by_id}
use itron_rtos.Task.Create.{task_init}
use itron_rtos.Scheduler.{select_next}
use itron_rtos.DelayQueue
use itron_rtos.Kernel.{Kernel}
use itron_rtos.Api.Invariant.{KernelOk}
use itron_rtos.Context.{Platform, Machine}
use itron_rtos.Blocking.Switches.{EntriesKeep}
use itron_rtos.Boot.{
  task_a, task_b, task_c, task_yield_from, task_yield_to, task_wai_sem_from, task_dly_from,
  task_dly_to, task_twai_from, task_twai_to, task_tick_delay, task_tick_twai, task_tick_current,
  Image, register,
}
use itron_rtos.Boot.Observe.{preemption_smoke}
use itron_rtos.Boot.Calls.{at, sleep_wakeup_smoke}
use itron_rtos.Boot.Main.{
  start_up, other_task, switch_selected, context_part, yield_if, yield_alone, run_entries,
  yield_part, semaphore_part, delay_part, twai_part, tick_part, tick_and_create, kernel_main,
}
use itron_rtos.Boot.Kept.{register-KernelOk}
use itron_rtos.Boot.Kept.Observe.{
  timer_smoke-KernelOk, preemption_smoke-KernelOk, tick_ready_smoke-KernelOk,
  cooperative_entries-KernelOk,
}
use itron_rtos.Boot.Kept.Calls.{
  Boots, then-Boots, yield_tsk-Boots, yield_running_smoke-Boots, context_switch_smoke-Boots,
  semaphore_smoke-Boots, delay_smoke-Boots, twai_sem_smoke-Boots, create_start_smoke-Boots,
}
use itron_rtos.Boot.Kept.Sleep.{sleep_wakeup_smoke-Boots}

start_up-KernelOk : (k : Kernel) → KernelOk k → KernelOk (start_up k)
unfolding start_up collect
start_up-KernelOk k v =
    timer_smoke-KernelOk (record k { tasks = task_init; delays = DelayQueue.init; current = none })
      (v.0, record { count_in = omega arith; entries_ok = tt }, v.2)

tick_part-KernelOk : (im : Image) (k : Kernel) → KernelOk k → KernelOk (tick_part im k)
unfolding tick_part
tick_part-KernelOk im k v =
    let (k1, a) = register im task_tick_delay 1 k in
    let (k2, b) = register im task_tick_twai 0 k1 in
    let (k3, c) = register im task_tick_current 5 k2 in
    let v3 =
      register-KernelOk im task_tick_current 5 k2
        (register-KernelOk im task_tick_twai 0 k1 (register-KernelOk im task_tick_delay 1 k v)) in
    elim (Bool-cases (is_positive a && is_positive b && is_positive c)) [
      | inl e ↦ rw e (tick_ready_smoke-KernelOk im a b c k3 v3)
      | inr e ↦ rw e v3
    ]

module _ (p : Platform) (entries : EntriesKeep p) where
  switch_selected-Boots :
      (from to : Option ℕ) (m : Machine)
      → KernelOk m.kernel
      → Boots p entries (switch_selected p from to m)
  unfolding switch_selected
  switch_selected-Boots none to m v = v
  switch_selected-Boots (some from) none m v = v
  switch_selected-Boots (some from) (some to) m v =
      context_switch_smoke-Boots p entries from (some to) m v

  context_part-Boots :
      (b c : ℕ) (m : Machine) → KernelOk m.kernel → Boots p entries (context_part p b c m)
  unfolding context_part
  context_part-Boots b c m v =
      then-Boots p entries _ _ selected λ m' v'. yield_tsk-Boots p entries m' v'
    where
      selected : Boots p entries (elim (select_next m.kernel.tasks) [
        | none ↦ comes_back m
        | some i ↦ switch_selected p (some i) (other_task m.kernel.tasks i c b) m
      ])
      selected = elim (Option-cases (select_next m.kernel.tasks)) [
        | inl e ↦ rw e v
        | inr (i, e) ↦ rw e (switch_selected-Boots (some i) _ m v)
      ]

  if-Boots :
      (b : Bool) (c d : Control Machine)
      → Boots p entries c
      → Boots p entries d
      → Boots p entries (if b then c else d)
  if-Boots true c d v w = v
  if-Boots false c d v w = w

  yield_if-Boots :
      (b : Bool) (o : Option ℕ) (m : Machine)
      → KernelOk m.kernel
      → Boots p entries (yield_if p b o m)
  yield_if-Boots b o m v = if-Boots b _ _ (yield_running_smoke-Boots p entries o m v) v

  yield_part-Boots :
      (im : Image) (task_id : ℕ) (m : Machine)
      → KernelOk m.kernel
      → Boots p entries (yield_part p im task_id m)
  unfolding yield_part
  yield_part-Boots im task_id m v =
      let (k, a) = register im task_yield_from 5 m.kernel in
      let (k', b) = register im task_yield_to 1 k in
      let w =
        register-KernelOk im task_yield_to 1 k
          (register-KernelOk im task_yield_from 5 m.kernel v) in
      let both = is_positive a && is_positive b in
      let from = task_get_by_id k'.tasks a in
      let first = yield_if p both from (at m k') in
      then-Boots p entries (first >>= yield_alone p task_id) (run_entries p)
        (then-Boots p entries first (yield_alone p task_id) (yield_if-Boots both from (at m k') w)
          λ m1 v1. yield_if-Boots (is_positive task_id) _ m1 v1)
        λ m2 v2. cooperative_entries-KernelOk p entries m2.kernel v2

  semaphore_part-Boots :
      (im : Image) (m : Machine) → KernelOk m.kernel → Boots p entries (semaphore_part p im m)
  unfolding semaphore_part
  semaphore_part-Boots im m v =
      let (k, a) = register im task_wai_sem_from 1 m.kernel in
      let w = register-KernelOk im task_wai_sem_from 1 m.kernel v in
      if-Boots (is_positive a) _ _ (semaphore_smoke-Boots p entries im a (at m k) w) w

  delay_part-Boots :
      (im : Image) (m : Machine) → KernelOk m.kernel → Boots p entries (delay_part p im m)
  unfolding delay_part
  delay_part-Boots im m v =
      let (k, a) = register im task_dly_from 5 m.kernel in
      let (k', b) = register im task_dly_to 1 k in
      let w =
        register-KernelOk im task_dly_to 1 k (register-KernelOk im task_dly_from 5 m.kernel v) in
      if-Boots (is_positive a && is_positive b) _ _ (delay_smoke-Boots p entries a (at m k') w) w

  twai_part-Boots :
      (im : Image) (m : Machine) → KernelOk m.kernel → Boots p entries (twai_part p im m)
  unfolding twai_part
  twai_part-Boots im m v =
      let (k, a) = register im task_twai_from 5 m.kernel in
      let (k', b) = register im task_twai_to 0 k in
      let w =
        register-KernelOk im task_twai_to 0 k (register-KernelOk im task_twai_from 5 m.kernel v) in
      if-Boots (is_positive a && is_positive b) _ _
        (twai_sem_smoke-Boots p entries im a (at m k') w) w

-- The semaphores and the request are in order at power-on, and no entry function of a task takes
-- KernelOk away. Then kernel_main ends: the fuel of the model is enough, and unless the processor
-- halts or leaves the modelled code it comes to its last loop with every semaphore, the delay queue
-- and the request in order.
kernel_main-KernelOk :
    (p : Platform) (im : Image) (m : Machine)
    → EntriesKeep p
    → KernelOk m.kernel
    → AfterReturn (λ m'. KernelOk m'.kernel) (kernel_main p im m)
unfolding kernel_main
kernel_main-KernelOk p im m entries v =
    let k0 = start_up m.kernel in
    let (k1, a) = register im task_a 5 k0 in
    let (k2, b) = register im task_b 1 k1 in
    let (k3, c) = register im task_c 1 k2 in
    let v3 = register-KernelOk im task_c 1 k2 (
      register-KernelOk im task_b 1 k1
        (register-KernelOk im task_a 5 k0 (start_up-KernelOk m.kernel v))) in
    let first =
      context_part-Boots p entries b c (at m (preemption_smoke a b k3))
        (preemption_smoke-KernelOk a b k3 v3) in
    let c1 = context_part p b c (at m (preemption_smoke a b k3)) in
    let c2 = c1 >>= yield_part p im a in
    let c3 = c2 >>= semaphore_part p im in
    let c4 = c3 >>= delay_part p im in
    let c5 = c4 >>= twai_part p im in
    let c6 = c5 >>= tick_and_create p im in
    then-Boots p entries c6 (sleep_wakeup_smoke p im)
      (then-Boots p entries c5 (tick_and_create p im)
        (then-Boots p entries c4 (twai_part p im)
          (then-Boots p entries c3 (delay_part p im)
            (then-Boots p entries c2 (semaphore_part p im)
              (then-Boots p entries c1 (yield_part p im a) first (yield_part-Boots p entries im a))
              (semaphore_part-Boots p entries im))
            (delay_part-Boots p entries im))
          (twai_part-Boots p entries im))
        λ m' v'.
          create_start_smoke-Boots p entries im (at m' (tick_part im m'.kernel))
            (tick_part-KernelOk im m'.kernel v'))
      (sleep_wakeup_smoke-Boots p entries im)
