-- ===== src/Blocking/Runner/Tests.antt =====
-- A history in which task 1 of three runs.
use itron_rtos.Common.{
  ℕ, zero, suc, ◌+◌, ◌<◌, ◌≡◌, refl, List, [], ◌∷◌, true, some, arith, AfterReturn,
}
use itron_rtos.Task.{is_running}
use itron_rtos.Task.Identity.{IsTask}
use itron_rtos.Kernel.Runner.{RunnerOk}
use itron_rtos.Api.History.{creates_sem, calls_cre_tsk, calls_sta_tsk}
use itron_rtos.Context.Samples.{quiet_platform, three_slots, three_kernel, sample}
use itron_rtos.Blocking.History.{
  MachineCall, stays, calls_slp_tsk, calls_yield_tsk, takes_irq, calls_wai_sem, calls_dly_tsk,
  calls_twai_sem, run_machine,
}
use itron_rtos.Blocking.Runner.History.{run_machine-RunnerOk}

abbrev calls : List MachineCall
calls =
    stays (creates_sem (record { name = 1; initial_count = 0; max_count = 2 }))
    ∷ stays (
        calls_cre_tsk 7 (
          some (record {
            name = 1;
            entry = 5555;
            priority = 4;
            stack_base = 10000;
            stack_size = 4096;
          })))
    ∷ stays (calls_sta_tsk 7)
    ∷ takes_irq
    ∷ calls_wai_sem 1
    ∷ calls_twai_sem 1 5
    ∷ calls_dly_tsk 3
    ∷ calls_yield_tsk
    ∷ calls_slp_tsk
    ∷ []

three_ids : (j : ℕ) → IsTask (three_slots j) → ((three_slots j).id ≡ j + 1) × (j < 3)
three_ids zero used = (refl, omega arith)
three_ids (suc zero) used = (refl, omega arith)
three_ids (suc (suc zero)) used = (refl, omega arith)
three_ids (suc (suc (suc _))) used = absurd (cc used)

three_runs : (j : ℕ) → is_running (three_slots j).state ≡ true → some 0 ≡ some j
three_runs zero h = refl
three_runs (suc zero) h = absurd (cc h)
three_runs (suc (suc zero)) h = absurd (cc h)
three_runs (suc (suc (suc _))) h = absurd (cc h)

three_kernel-RunnerOk : RunnerOk three_kernel
three_kernel-RunnerOk = record {
  ids = record {
    next_pos = omega arith;
    next_le = omega arith;
    in_range = λ j lt used. omega (arith, three_ids j used);
    unique = λ j k lj lk uj uk same. omega (arith, three_ids j uj, three_ids k uk);
  };
  inside = λ c e. ground arith;
  only = λ j lt h. three_runs j h;
}

run_machine-RunnerOk_example :
    AfterReturn (λ m. RunnerOk m.kernel) (run_machine quiet_platform calls sample)
run_machine-RunnerOk_example =
    run_machine-RunnerOk quiet_platform calls sample (λ k entry v. v)
      (tt, (λ e. absurd (omega (arith, e)), (tt, (tt, (tt, (tt, (tt, (tt, (tt, tt)))))))))
      three_kernel-RunnerOk
