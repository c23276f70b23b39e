-- ===== src/Cooperative/Tests.antt =====
-- The cooperative loop on three tasks.
use itron_rtos.Common.{◌≡◌, refl, some, rank}
use itron_rtos.Task.{ready}
use itron_rtos.Scheduler.{select_next}
use itron_rtos.Scheduler.Choice.{select_next-IsBest}
use itron_rtos.Context.Samples.{quiet_platform, three_kernel, three_tasks, second-CanRun}
use itron_rtos.Dispatcher.Moving.{moved}
use itron_rtos.Cooperative.{limit_reached, cooperative_entries}
use itron_rtos.Cooperative.Repeats.{cooperative_entries-again}

second_is_next : select_next three_tasks ≡ some 1
unfolding select_next rank
second_is_next = refl

cooperative_entries-again_example :
    cooperative_entries quiet_platform three_kernel
    ≡ (record three_kernel { tasks = moved three_tasks 1 ready; current = some 1 }, limit_reached)
cooperative_entries-again_example =
    cooperative_entries-again quiet_platform three_kernel 1
      (select_next-IsBest three_tasks 1 second_is_next) second-CanRun
