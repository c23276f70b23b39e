-- ===== src/Blocking/Runner/Starts.antt =====
-- At most one RUNNING task: slp_tsk, wai_sem, twai_sem and dly_tsk of kernel/itron_api.c with their
-- guards, up to the switch.
use itron_rtos.Common.{ℕ, refl, inl, inr, ◌==◌, Bool-cases, Option-cases}
use itron_rtos.Task.{is_running}
use itron_rtos.Task.Ops.{sleeps, run_call}
use itron_rtos.Semaphore.{sem_get_by_id}
use itron_rtos.Kernel.{Kernel}
use itron_rtos.Kernel.Runner.{RunnerOk}
use itron_rtos.Blocking.Begin.{
  current_id, begin_slp_tsk, begin_wai_sem, begin_twai_sem, begin_dly_tsk,
}
use itron_rtos.Blocking.Runner.{
  StepRunner, run_call-Marked, slept-Runner, wai_taken-Runner, twai_taken-Runner,
  dly_checked-Runner,
}

pub begin_slp_tsk-Runner : (k : Kernel) → RunnerOk k → StepRunner (begin_slp_tsk k)
unfolding begin_slp_tsk run_call
begin_slp_tsk-Runner k v = elim (Option-cases k.current) [
  | inl e ↦ simp (begin_slp_tsk, e) v
  | inr (c, e) ↦ elim (Bool-cases (is_running (k.tasks.slots c).state)) [
    | inr stopped ↦ simp (begin_slp_tsk, e, stopped) v
    | inl runs ↦
        simp (begin_slp_tsk, e, runs)
          (slept-Runner k c _ _ (run_call-Marked (sleeps (current_id k c)) k refl refl tt v))
  ]
]

pub begin_wai_sem-Runner :
    (k : Kernel) (sem_id : ℕ) → RunnerOk k → StepRunner (begin_wai_sem k sem_id)
unfolding begin_wai_sem
begin_wai_sem-Runner k sem_id v = elim (Option-cases k.current) [
  | inl e ↦ simp (begin_wai_sem, e) v
  | inr (c, e) ↦ elim (Bool-cases (is_running (k.tasks.slots c).state)) [
    | inr stopped ↦ simp (begin_wai_sem, e, stopped) v
    | inl runs ↦ elim (Option-cases (sem_get_by_id k.sems sem_id)) [
      | inl f ↦ simp (begin_wai_sem, e, runs, f) v
      | inr (i, f) ↦ simp (begin_wai_sem, e, runs, f) (wai_taken-Runner k c sem_id _ _ v)
    ]
  ]
]

pub begin_twai_sem-Runner :
    (k : Kernel) (sem_id timeout_ticks : ℕ)
    → RunnerOk k
    → StepRunner (begin_twai_sem k sem_id timeout_ticks)
unfolding begin_twai_sem
begin_twai_sem-Runner k sem_id ticks v = elim (Option-cases k.current) [
  | inl e ↦ simp (begin_twai_sem, e) v
  | inr (c, e) ↦ elim (Bool-cases (ticks == 0)) [
    | inl z ↦ simp (begin_twai_sem, e, z) v
    | inr z ↦ elim (Bool-cases (is_running (k.tasks.slots c).state)) [
      | inr stopped ↦ simp (begin_twai_sem, e, z, stopped) v
      | inl runs ↦ elim (Option-cases (sem_get_by_id k.sems sem_id)) [
        | inl f ↦ simp (begin_twai_sem, e, z, runs, f) v
        | inr (i, f) ↦
            simp (begin_twai_sem, e, z, runs, f) (twai_taken-Runner k c sem_id ticks _ _ v)
      ]
    ]
  ]
]

pub begin_dly_tsk-Runner :
    (k : Kernel) (delay_ticks : ℕ) → RunnerOk k → StepRunner (begin_dly_tsk k delay_ticks)
unfolding begin_dly_tsk
begin_dly_tsk-Runner k ticks v = elim (Option-cases k.current) [
  | inl e ↦ simp (begin_dly_tsk, e) v
  | inr (c, e) ↦ elim (Bool-cases (ticks == 0)) [
    | inl z ↦ simp (begin_dly_tsk, e, z) v
    | inr z ↦ elim (Bool-cases (is_running (k.tasks.slots c).state)) [
      | inr stopped ↦ simp (begin_dly_tsk, e, z, stopped) v
      | inl runs ↦ simp (begin_dly_tsk, e, z, runs) (dly_checked-Runner k c ticks _ v)
    ]
  ]
]
