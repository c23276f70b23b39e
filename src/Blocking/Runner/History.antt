-- ===== src/Blocking/Runner/History.antt =====
-- At most one RUNNING task, under any history of API calls and timer interrupts.
use itron_rtos.Common.{List, [], ◌∷◌, Control, AfterReturn, AfterReturn->>=, ◌>>=◌}
use itron_rtos.Kernel.{timer_irq}
use itron_rtos.Kernel.Runner.{RunnerOk}
use itron_rtos.Api.Runner.{KeepsRoom, run_kernel_call-RunnerOk, timer_irq-RunnerOk}
use itron_rtos.Context.{Platform, Machine}
use itron_rtos.Dispatcher.Runner.{EntriesKeepRunner}
use itron_rtos.Boundary.{consume, timer_irq_handle}
use itron_rtos.Blocking.{slp_tsk, wai_sem, twai_sem, dly_tsk, yield_tsk}
use itron_rtos.Blocking.Begin.{begin_slp_tsk, begin_wai_sem, begin_twai_sem, begin_dly_tsk}
use itron_rtos.Blocking.History.{
  MachineCall, stays, calls_slp_tsk, calls_yield_tsk, takes_irq, calls_wai_sem, calls_dly_tsk,
  calls_twai_sem, drop_result, run_machine_call, run_machine,
}
use itron_rtos.Blocking.Runner.Starts.{
  begin_slp_tsk-Runner, begin_wai_sem-Runner, begin_twai_sem-Runner, begin_dly_tsk-Runner,
}
use itron_rtos.Blocking.Runner.Switches.{take_step-Runner, yield_tsk-Runner, consume-Runner}

-- cre_tsk is not called with the greatest `int`.
abbrev pub RoomFor : MachineCall → Type 0
RoomFor (stays c) = KeepsRoom c
RoomFor _ = Unit {0}

abbrev pub AllHaveRoom : List MachineCall → Type 0
AllHaveRoom [] = Unit {0}
AllHaveRoom (c ∷ cs) = RoomFor c × AllHaveRoom cs

dropped-RunnerOk {ℓ} :
    {A : Type ℓ} (c : Control (Machine × A))
    → AfterReturn (λ r. RunnerOk r.0.kernel) c
    → AfterReturn (λ m. RunnerOk m.kernel) (c >>= drop_result)
dropped-RunnerOk c v =
    AfterReturn->>= (λ r. RunnerOk r.0.kernel) (λ m. RunnerOk m.kernel) c drop_result v
      λ (_, _) w. w

run_machine_call-RunnerOk :
    (p : Platform) (c : MachineCall) (m : Machine)
    → EntriesKeepRunner p
    → RoomFor c
    → RunnerOk m.kernel
    → AfterReturn (λ m'. RunnerOk m'.kernel) (run_machine_call p c m)
unfolding run_machine_call slp_tsk wai_sem dly_tsk twai_sem timer_irq_handle
run_machine_call-RunnerOk p (stays c) m h room v = run_kernel_call-RunnerOk c m.kernel room v
run_machine_call-RunnerOk p calls_slp_tsk m h room v =
    dropped-RunnerOk (slp_tsk p m)
      (take_step-Runner p h m (begin_slp_tsk m.kernel) (begin_slp_tsk-Runner m.kernel v))
run_machine_call-RunnerOk p calls_yield_tsk m h room v =
    dropped-RunnerOk (yield_tsk p m) (yield_tsk-Runner p h m v)
run_machine_call-RunnerOk p takes_irq m h room v =
    let m' = record m { kernel = timer_irq m.kernel } in
    dropped-RunnerOk (consume p m') (consume-Runner p h m' (timer_irq-RunnerOk m.kernel v))
run_machine_call-RunnerOk p (calls_wai_sem s) m h room v =
    dropped-RunnerOk (wai_sem p m s)
      (take_step-Runner p h m (begin_wai_sem m.kernel s) (begin_wai_sem-Runner m.kernel s v))
run_machine_call-RunnerOk p (calls_dly_tsk n) m h room v =
    dropped-RunnerOk (dly_tsk p m n)
      (take_step-Runner p h m (begin_dly_tsk m.kernel n) (begin_dly_tsk-Runner m.kernel n v))
run_machine_call-RunnerOk p (calls_twai_sem s n) m h room v =
    dropped-RunnerOk (twai_sem p m s n)
      (take_step-Runner p h m (begin_twai_sem m.kernel s n) (begin_twai_sem-Runner m.kernel s n v))

-- At most one task runs: task ids are positive and distinct, and no task is RUNNING but the
-- dispatcher's current one, which is in the table. If that holds, no entry function of a task takes
-- it away, and cre_tsk is never given the greatest `int`, then under any history of API calls,
-- sem_create and timer interrupts, with the switches that they make, the fuel of the model is enough,
-- and unless the processor halts or leaves the modelled code it holds again when the machine comes
-- back.
pub run_machine-RunnerOk :
    (p : Platform) (cs : List MachineCall) (m : Machine)
    → EntriesKeepRunner p
    → AllHaveRoom cs
    → RunnerOk m.kernel
    → AfterReturn (λ m'. RunnerOk m'.kernel) (run_machine p cs m)
unfolding run_machine
run_machine-RunnerOk p [] m h rooms v = v
run_machine-RunnerOk p (c ∷ cs) m h (room, rooms) v =
    AfterReturn->>= (λ m'. RunnerOk m'.kernel) (λ m'. RunnerOk m'.kernel) (run_machine_call p c m)
      (run_machine p cs) (run_machine_call-RunnerOk p c m h room v)
      λ m' v'. run_machine-RunnerOk p cs m' h rooms v'
