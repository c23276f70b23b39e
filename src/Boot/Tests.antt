-- ===== src/Boot/Tests.antt =====
-- kernel_run_preemption_smoke of kernel/kernel.c on three tasks.
use itron_rtos.Common.{zero, suc, ◌≡◌, refl, collect, []}
use itron_rtos.Task.Waits.{AllWaitsOk}
use itron_rtos.DelayQueue.Contents.{contents}
use itron_rtos.Context.Samples.{three_tasks, three_kernel}
use itron_rtos.Boot.Observe.{preemption_smoke}
use itron_rtos.Boot.Restores.{Restored, preemption_smoke-Restored}

none_queued : contents three_kernel.delays ≡ []
unfolding contents collect
none_queued = refl

three_tasks-AllWaitsOk : AllWaitsOk three_tasks
three_tasks-AllWaitsOk zero = (refl, refl, refl)
three_tasks-AllWaitsOk (suc zero) = (refl, refl, refl)
three_tasks-AllWaitsOk (suc (suc zero)) = (refl, refl, refl)
three_tasks-AllWaitsOk (suc (suc (suc _))) = (refl, refl, refl)

preemption_smoke-Restored_example : Restored three_kernel (preemption_smoke 2 3 three_kernel)
preemption_smoke-Restored_example =
    preemption_smoke-Restored 2 3 three_kernel three_tasks-AllWaitsOk none_queued
