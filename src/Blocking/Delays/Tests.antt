-- ===== src/Blocking/Delays/Tests.antt =====
-- dly_tsk and slp_tsk of the RUNNING task of three.
use itron_rtos.Common.{◌≡◌, ◌≢◌, ◌⊎◌, refl, [], ◌∷◌, ◌++◌, comes_back, first_index}
use itron_rtos.Task.Lookup.{find_task}
use itron_rtos.DelayQueue
use itron_rtos.DelayQueue.{can_enqueue}
use itron_rtos.DelayQueue.Contents.{contents}
use itron_rtos.Api.{e_qovr}
use itron_rtos.Context.Samples.{quiet_platform, three_kernel, sample, ready-Switchable}
use itron_rtos.Blocking.{slp_tsk, dly_tsk}
use itron_rtos.Blocking.Waiting.{Runs}
use itron_rtos.Blocking.WaiSem.{Away}
use itron_rtos.Blocking.Delays.{sleeping, delayed, slp_tsk-Away, dly_tsk_cases}

first-Runs : Runs three_kernel 0
unfolding find_task first_index
first-Runs = record { current = refl; running = refl; positive = refl; found = refl }

slp_tsk-Away_example :
    Away quiet_platform
      (record sample { kernel = sleeping three_kernel 0 })
      (slp_tsk quiet_platform sample)
slp_tsk-Away_example = slp_tsk-Away quiet_platform sample 0 first-Runs ready-Switchable refl

dly_tsk_cases_example :
    ((can_enqueue three_kernel.delays 1 ≢ DelayQueue.ok)
      × (dly_tsk quiet_platform sample 10 ≡ comes_back (sample, e_qovr)))
    ⊎ ((can_enqueue three_kernel.delays 1 ≡ DelayQueue.ok)
        × (contents (delayed three_kernel 0 10).delays
            ≡ contents three_kernel.delays ++ record { task_id = 1; ticks = 10 } ∷ [])
        × Away quiet_platform
            (record sample { kernel = delayed three_kernel 0 10 })
            (dly_tsk quiet_platform sample 10))
dly_tsk_cases_example =
    dly_tsk_cases quiet_platform sample 0 10 first-Runs refl ready-Switchable refl
