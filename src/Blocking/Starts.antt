-- ===== src/Blocking/Starts.antt =====
-- slp_tsk, wai_sem, twai_sem and dly_tsk of kernel/itron_api.c with their guards, up to the switch.
use itron_rtos.Common.{ℕ, inl, inr, ◌==◌, Bool-cases, Option-cases}
use itron_rtos.Task.{is_running}
use itron_rtos.Semaphore.{sem_get_by_id}
use itron_rtos.Kernel.{Kernel}
use itron_rtos.Api.Invariant.{KernelOk}
use itron_rtos.Blocking.Begin.{begin_slp_tsk, begin_wai_sem, begin_twai_sem, begin_dly_tsk}
use itron_rtos.Blocking.Kept.{
  StepOk, take-AllSemsOk, slept-StepOk, wai_taken-StepOk, twai_taken-StepOk, dly_checked-StepOk,
}

pub begin_slp_tsk-StepOk : (k : Kernel) → KernelOk k → StepOk (begin_slp_tsk k)
unfolding begin_slp_tsk
begin_slp_tsk-StepOk k v = elim (Option-cases k.current) [
  | inl e ↦ rw (begin_slp_tsk, e) v
  | inr (c, e) ↦ elim (Bool-cases (is_running (k.tasks.slots c).state)) [
    | inr stopped ↦ rw (begin_slp_tsk, e, stopped) v
    | inl runs ↦ rw (begin_slp_tsk, e, runs) (slept-StepOk k c _ _ v)
  ]
]

pub begin_wai_sem-StepOk : (k : Kernel) (sem_id : ℕ) → KernelOk k → StepOk (begin_wai_sem k sem_id)
unfolding begin_wai_sem
begin_wai_sem-StepOk k sem_id v = elim (Option-cases k.current) [
  | inl e ↦ rw (begin_wai_sem, e) v
  | inr (c, e) ↦ elim (Bool-cases (is_running (k.tasks.slots c).state)) [
    | inr stopped ↦ rw (begin_wai_sem, e, stopped) v
    | inl runs ↦ elim (Option-cases (sem_get_by_id k.sems sem_id)) [
      | inl f ↦ rw (begin_wai_sem, e, runs, f) v
      | inr (i, f) ↦
          rw (begin_wai_sem, e, runs, f)
            (wai_taken-StepOk k c sem_id _ _ (take-AllSemsOk k.tasks k.sems sem_id v.0) v)
    ]
  ]
]

pub begin_twai_sem-StepOk :
    (k : Kernel) (sem_id timeout_ticks : ℕ)
    → KernelOk k
    → StepOk (begin_twai_sem k sem_id timeout_ticks)
unfolding begin_twai_sem
begin_twai_sem-StepOk k sem_id ticks v = elim (Option-cases k.current) [
  | inl e ↦ rw (begin_twai_sem, e) v
  | inr (c, e) ↦ elim (Bool-cases (ticks == 0)) [
    | inl z ↦ rw (begin_twai_sem, e, z) v
    | inr z ↦ elim (Bool-cases (is_running (k.tasks.slots c).state)) [
      | inr stopped ↦ rw (begin_twai_sem, e, z, stopped) v
      | inl runs ↦ elim (Option-cases (sem_get_by_id k.sems sem_id)) [
        | inl f ↦ rw (begin_twai_sem, e, z, runs, f) v
        | inr (i, f) ↦
            rw (begin_twai_sem, e, z, runs, f)
              (twai_taken-StepOk k c sem_id ticks _ _ (take-AllSemsOk k.tasks k.sems sem_id v.0) v)
      ]
    ]
  ]
]

pub begin_dly_tsk-StepOk :
    (k : Kernel) (delay_ticks : ℕ) → KernelOk k → StepOk (begin_dly_tsk k delay_ticks)
unfolding begin_dly_tsk
begin_dly_tsk-StepOk k ticks v = elim (Option-cases k.current) [
  | inl e ↦ rw (begin_dly_tsk, e) v
  | inr (c, e) ↦ elim (Bool-cases (ticks == 0)) [
    | inl z ↦ rw (begin_dly_tsk, e, z) v
    | inr z ↦ elim (Bool-cases (is_running (k.tasks.slots c).state)) [
      | inr stopped ↦ rw (begin_dly_tsk, e, z, stopped) v
      | inl runs ↦ rw (begin_dly_tsk, e, z, runs) (dly_checked-StepOk k c ticks _ v)
    ]
  ]
]
