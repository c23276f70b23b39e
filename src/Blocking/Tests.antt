-- ===== src/Blocking/Tests.antt =====
-- Calls that switch, on three tasks and a semaphore.
use itron_rtos.Common.{
  ap, sym, ◌∙◌, update_ne, ℕ, zero, suc, ◌-◌, ◌≡◌, ◌⊎◌, refl, List, [], ◌∷◌, ◌++◌, true, false,
  some, arith, AfterReturn, comes_back, is_positive, first_index,
}
use itron_rtos.Task.Lookup.{find_task}
use itron_rtos.Semaphore.{Semaphore, sem_init, sem_get_by_id, write_sem}
use itron_rtos.Semaphore.Ring.{contents}
use itron_rtos.Kernel.{Kernel, kernel_init}
use itron_rtos.Api.{e_ok}
use itron_rtos.Api.Invariant.{KernelOk}
use itron_rtos.Api.History.{creates_sem, calls_cre_tsk, calls_sta_tsk, kernel_init-KernelOk}
use itron_rtos.Context.Samples.{
  quiet_platform, machine_of, three_kernel, ready-Switchable, first-Switchable, ready-Apart,
  first-CanRun, three_tasks, sample,
}
use itron_rtos.Task.{Tcb, ready, is_ready}
use itron_rtos.Task.Moves.{settle}
use itron_rtos.Context.Pairs.{Switchable}
use itron_rtos.Dispatcher.Moving.{moved, moved-CanRun, moved-Laid}
use itron_rtos.Blocking.Yield.{YieldOutcome, yield_tsk_cases}
use itron_rtos.Blocking.{wai_sem}
use itron_rtos.Blocking.Waiting.{waits}
use itron_rtos.Blocking.WaiSem.{Away, wai_sem_cases}
use itron_rtos.Blocking.Begin.{begin_twai_sem}
use itron_rtos.Blocking.TwaiSem.{TimedOutcome, begin_twai_sem_cases}
use itron_rtos.Blocking.History.{
  MachineCall, stays, calls_slp_tsk, calls_yield_tsk, takes_irq, calls_wai_sem, calls_dly_tsk,
  calls_twai_sem, run_machine, run_machine-KernelOk,
}

abbrev calls : List MachineCall
calls =
    stays (creates_sem (record { name = 1; initial_count = 0; max_count = 2 }))
    ∷ stays (
        calls_cre_tsk 1 (
          some (record {
            name = 1;
            entry = 5555;
            priority = 4;
            stack_base = 10000;
            stack_size = 4096;
          })))
    ∷ stays (calls_sta_tsk 1)
    ∷ takes_irq
    ∷ calls_wai_sem 1
    ∷ calls_twai_sem 1 5
    ∷ calls_dly_tsk 3
    ∷ calls_yield_tsk
    ∷ calls_slp_tsk
    ∷ []

run_machine-KernelOk_example :
    AfterReturn (λ m. KernelOk m.kernel) (run_machine quiet_platform calls (machine_of kernel_init))
run_machine-KernelOk_example =
    run_machine-KernelOk quiet_platform calls (machine_of kernel_init) (λ k entry v. v)
      kernel_init-KernelOk

-- A semaphore with count 0 that no task waits for.
abbrev one_semaphore : ℕ → Semaphore
one_semaphore zero = record (sem_init.sems 0) { id = 1; name = 100; max_count = 1 }
one_semaphore (suc _) = sem_init.sems 0

abbrev with_semaphore : Kernel
with_semaphore = record three_kernel { sems = record { sems = one_semaphore; next_sem_id = 2 } }

wai_sem_cases_example :
    let k = with_semaphore in
    let m = machine_of k in
    let s = one_semaphore 0 in
    ((is_positive s.count ≡ true)
      × (wai_sem quiet_platform m 1
          ≡ comes_back (
            record m {
              kernel = record k { sems = write_sem k.sems 0 (record s { count = s.count - 1 }) };
            },
            e_ok,
          )))
    ⊎ ((is_positive s.count ≡ false)
        × (contents ((waits k 0 1 0).sems.sems 0) ≡ contents s ++ 1 ∷ [])
        × Away quiet_platform (record m { kernel = waits k 0 1 0 }) (wai_sem quiet_platform m 1))
unfolding find_task first_index sem_get_by_id
wai_sem_cases_example =
    wai_sem_cases quiet_platform (machine_of with_semaphore) 0 1 0
      (record { current = refl; running = refl; positive = refl; found = refl })
      (record { positive = refl; found = refl })
      (record { head_in = omega arith; count_in = omega arith; tail_at = refl }) (omega arith)
      ready-Switchable refl

begin_twai_sem_cases_example :
    TimedOutcome with_semaphore 0 1 0 5 (begin_twai_sem with_semaphore 1 5)
unfolding find_task first_index sem_get_by_id
begin_twai_sem_cases_example =
    begin_twai_sem_cases with_semaphore 0 1 0 5
      (record { current = refl; running = refl; positive = refl; found = refl })
      (record { positive = refl; found = refl }) refl

yielded-Switchable :
    (j : ℕ)
    → is_ready ((moved three_tasks 0 ready).slots j).state ≡ true
    → Switchable quiet_platform (moved three_tasks 0 ready) j
yielded-Switchable j h = (
  moved-Laid three_tasks j 0 ready (at j h).0,
  moved-CanRun quiet_platform three_tasks j 0 ready refl (at j h).1 first-CanRun,
)
  where
    at :
        (j : ℕ)
        → is_ready ((moved three_tasks 0 ready).slots j).state ≡ true
        → Switchable quiet_platform three_tasks j
    at zero g = first-Switchable
    at (suc n) g = ready-Switchable (suc n) (
        ap (λ (s : Tcb). is_ready s.state)
          (sym (
            update_ne three_tasks.slots 0 (suc n) (settle ready (three_tasks.slots 0))
              (omega arith)))
        ∙ g)

yield_tsk_cases_example : YieldOutcome quiet_platform sample 0
yield_tsk_cases_example =
    yield_tsk_cases quiet_platform sample 0 refl refl first-Switchable yielded-Switchable
      λ j other h. ready-Apart j h
