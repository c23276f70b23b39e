-- ===== src/Kernel/Tests.antt =====
-- A timer interrupt on a small kernel.
use itron_rtos.Common.{ℕ, zero, suc, ◌≡◌, ◌⊎◌, refl, some, inl, rank}
use itron_rtos.Task.{TaskState, ready, running, Tcb, max_tasks}
use itron_rtos.Task.Create.{empty_slot}
use itron_rtos.Scheduler.{select_next, select_preemption_candidate}
use itron_rtos.DelayQueue.Tick.{tick}
use itron_rtos.Scheduler.Choice.{IsBest}
use itron_rtos.Scheduler.Preempt.{Outranked}
use itron_rtos.Pending.{
  from_irq, irq_preemption, request, cleared, log_state_from_irq, request_from_irq,
}
use itron_rtos.Kernel.{Kernel, kernel_init, evaluate_from_irq, timer_irq}
use itron_rtos.Kernel.Timer.{evaluate_from_irq_cases}

abbrev in_state : ℕ → TaskState → ℕ → Tcb
in_state id state priority = record empty_slot { id = id; state = state; priority = priority }

-- Task 1 runs with priority 5, and task 2 is READY with priority 3.
abbrev two_slots : ℕ → Tcb
two_slots zero = in_state 1 running 5
two_slots (suc zero) = in_state 2 ready 3
two_slots (suc (suc _)) = empty_slot

abbrev running_kernel : Kernel
running_kernel = record kernel_init {
  tasks = record { slots = two_slots; next_task_id = 3 };
  current = some 0;
}

evaluate_from_irq_cases_example :
    (Outranked running_kernel.tasks 0
      × ((b : ℕ) × IsBest running_kernel.tasks max_tasks b
          × ((evaluate_from_irq running_kernel).pending
              ≡ request running_kernel.tasks from_irq irq_preemption 0 b)))
    ⊎ ((¬ Outranked running_kernel.tasks 0)
        × ((evaluate_from_irq running_kernel).pending ≡ cleared))
evaluate_from_irq_cases_example =
    evaluate_from_irq_cases running_kernel 0 refl refl (inl refl, refl)

-- The interrupt leaves a request for task 2.
requests_task_two : (timer_irq running_kernel).pending.candidate_id ≡ 2
unfolding timer_irq select_next rank log_state_from_irq select_preemption_candidate tick
    request_from_irq
requests_task_two = refl
