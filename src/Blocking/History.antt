-- ===== src/Blocking/History.antt =====
-- Any history of API calls and timer interrupts, switches and all.
use itron_rtos.Common.{ℕ, List, [], ◌∷◌, Control, AfterReturn, AfterReturn->>=, comes_back, ◌>>=◌}
use itron_rtos.Kernel.{timer_irq}
use itron_rtos.Api.Invariant.{KernelOk}
use itron_rtos.Api.History.{
  KernelCall, run_kernel_call, run_kernel_call-KernelOk, timer_irq-KernelOk,
}
use itron_rtos.Context.{Platform, Machine}
use itron_rtos.Boundary.{consume, timer_irq_handle}
use itron_rtos.Blocking.{slp_tsk, wai_sem, twai_sem, dly_tsk, yield_tsk}
use itron_rtos.Blocking.Begin.{begin_slp_tsk, begin_wai_sem, begin_twai_sem, begin_dly_tsk}
use itron_rtos.Blocking.Starts.{
  begin_slp_tsk-StepOk, begin_wai_sem-StepOk, begin_twai_sem-StepOk, begin_dly_tsk-StepOk,
}
use itron_rtos.Blocking.Switches.{EntriesKeep, take_step-Keeps, yield_tsk-Keeps, consume-Keeps}

pub data MachineCall : Type 0 where
  stays : KernelCall → MachineCall
  calls_slp_tsk calls_yield_tsk takes_irq : MachineCall
  calls_wai_sem calls_dly_tsk : ℕ → MachineCall
  calls_twai_sem : ℕ → ℕ → MachineCall

abbrev pub drop_result {ℓ} : {A : Type ℓ} → Machine × A → Control Machine
drop_result (m, r) = comes_back m

unfoldable pub run_machine_call : Platform → MachineCall → Machine → Control Machine
run_machine_call p (stays c) m = comes_back (record m { kernel = run_kernel_call c m.kernel })
run_machine_call p calls_slp_tsk m = slp_tsk p m >>= drop_result
run_machine_call p calls_yield_tsk m = yield_tsk p m >>= drop_result
run_machine_call p takes_irq m = timer_irq_handle p m
run_machine_call p (calls_wai_sem sem_id) m = wai_sem p m sem_id >>= drop_result
run_machine_call p (calls_dly_tsk ticks) m = dly_tsk p m ticks >>= drop_result
run_machine_call p (calls_twai_sem sem_id ticks) m = twai_sem p m sem_id ticks >>= drop_result

unfoldable pub run_machine : Platform → List MachineCall → Machine → Control Machine
run_machine p [] m = comes_back m
run_machine p (c ∷ cs) m = run_machine_call p c m >>= run_machine p cs

pub dropped-KernelOk {ℓ} :
    {A : Type ℓ} (c : Control (Machine × A))
    → AfterReturn (λ r. KernelOk r.0.kernel) c
    → AfterReturn (λ m. KernelOk m.kernel) (c >>= drop_result)
dropped-KernelOk c v =
    AfterReturn->>= (λ r. KernelOk r.0.kernel) (λ m. KernelOk m.kernel) c drop_result v
      λ (_, _) w. w

run_machine_call-KernelOk :
    (p : Platform) (c : MachineCall) (m : Machine)
    → EntriesKeep p
    → KernelOk m.kernel
    → AfterReturn (λ m'. KernelOk m'.kernel) (run_machine_call p c m)
unfolding run_machine_call slp_tsk wai_sem dly_tsk twai_sem timer_irq_handle
run_machine_call-KernelOk p (stays c) m h v = run_kernel_call-KernelOk c m.kernel v
run_machine_call-KernelOk p calls_slp_tsk m h v =
    dropped-KernelOk (slp_tsk p m)
      (take_step-Keeps p h m (begin_slp_tsk m.kernel) (begin_slp_tsk-StepOk m.kernel v))
run_machine_call-KernelOk p calls_yield_tsk m h v =
    dropped-KernelOk (yield_tsk p m) (yield_tsk-Keeps p h m v)
run_machine_call-KernelOk p takes_irq m h v =
    let m' = record m { kernel = timer_irq m.kernel } in
    dropped-KernelOk (consume p m') (consume-Keeps p h m' (timer_irq-KernelOk m.kernel v))
run_machine_call-KernelOk p (calls_wai_sem s) m h v =
    dropped-KernelOk (wai_sem p m s)
      (take_step-Keeps p h m (begin_wai_sem m.kernel s) (begin_wai_sem-StepOk m.kernel s v))
run_machine_call-KernelOk p (calls_dly_tsk n) m h v =
    dropped-KernelOk (dly_tsk p m n)
      (take_step-Keeps p h m (begin_dly_tsk m.kernel n) (begin_dly_tsk-StepOk m.kernel n v))
run_machine_call-KernelOk p (calls_twai_sem s n) m h v =
    dropped-KernelOk (twai_sem p m s n)
      (take_step-Keeps p h m (begin_twai_sem m.kernel s n) (begin_twai_sem-StepOk m.kernel s n v))

-- The kernel is in order, and no entry function of a task takes that away. Under any history of API
-- calls, sem_create and timer interrupts, with the switches that they make, the fuel of the model
-- is enough, and unless the processor halts or leaves the modelled code the machine comes back with
-- the kernel in order: every semaphore with its count between 0 and its maximum and a wait queue in
-- order, one entry with ticks to go in the delay queue for each of its tasks, and a request that is
-- cleared or complete.
pub run_machine-KernelOk :
    (p : Platform) (cs : List MachineCall) (m : Machine)
    → EntriesKeep p
    → KernelOk m.kernel
    → AfterReturn (λ m'. KernelOk m'.kernel) (run_machine p cs m)
unfolding run_machine
run_machine-KernelOk p [] m h v = v
run_machine-KernelOk p (c ∷ cs) m h v =
    AfterReturn->>= (λ m'. KernelOk m'.kernel) (λ m'. KernelOk m'.kernel) (run_machine_call p c m)
      (run_machine p cs) (run_machine_call-KernelOk p c m h v)
      λ m' v'. run_machine-KernelOk p cs m' h v'
