-- ===== src/Kernel.antt =====
-- The kernel's state as a whole, with the timer path of kernel/timer.c, kernel/preemption.c and
-- arch/x86_64/interrupt.c up to the exit boundary of the interrupt.
pub mod Timer
pub mod Runner
pub mod Calm
mod Tests
use itron_rtos.Common.{ℕ, ◌+◌, ◌%◌, ◌^◌, Option, none, some, Bool, true, false}
use itron_rtos.Task.{TaskTable}
use itron_rtos.Task.Create.{task_init}
use itron_rtos.Scheduler.{
  PreemptReason, no_preempt, needed, same_priority, invalid_current, PreemptDecision,
  select_preemption_candidate,
}
use itron_rtos.Semaphore.{SemTable, sem_init}
use itron_rtos.DelayQueue
use itron_rtos.DelayQueue.{DelayQueue}
use itron_rtos.DelayQueue.Tick.{Tables, Loop, tick}
use itron_rtos.Pending.{
  Pending, cleared, clear_irq_for_evaluation, request_from_irq, log_state_from_irq,
}

-- The static variables of the modules. `current` is the dispatcher's `current_task`.
pub record Kernel : Type 0 where
  pub tasks : TaskTable
  pub sems : SemTable
  pub delays : DelayQueue
  pub pending : Pending
  pub current : Option ℕ
  pub system_ticks : ℕ

-- The state after the modules' init functions.
abbrev pub kernel_init : Kernel
kernel_init = record {
  tasks = task_init;
  sems = sem_init;
  delays = DelayQueue.init;
  pending = cleared;
  current = none;
  system_ticks = 0;
}

-- The end of the loop of delay_queue_tick; it always ends.
unfoldable pub after_tick : Kernel → Option Loop → Kernel
after_tick k none = k
after_tick k (some l) = record k { tasks = l.tables.tasks; sems = l.tables.sems; delays = l.queue }

-- timer_tick: an `unsigned long` has 64 bits.
unfoldable pub timer_tick : Kernel → Kernel
unfolding after_tick
timer_tick k =
    after_tick (record k { system_ticks = (k.system_ticks + 1) % 2 ^ 64 })
      (tick k.delays (record { tasks = k.tasks; sems = k.sems }))

-- The part of preemption_evaluate_from_irq behind the decision.
unfoldable pub request_if_needed : Kernel → PreemptDecision → Pending → Pending
request_if_needed k d p = elim d.reason [
  | needed ↦ request_from_irq k.tasks k.current d.candidate p
  | _ ↦ p
]

-- preemption_evaluate_from_irq; the string that it returns is only printed.
unfoldable pub evaluate_from_irq : Kernel → Kernel
unfolding request_if_needed
evaluate_from_irq k = record k {
  pending =
      request_if_needed k (select_preemption_candidate k.tasks k.current)
        (clear_irq_for_evaluation k.pending);
}

-- arch_timer_irq_handle up to its exit boundary
unfoldable pub timer_irq : Kernel → Kernel
unfolding timer_tick evaluate_from_irq
timer_irq k =
    let k' = evaluate_from_irq (timer_tick k) in
    record k' { pending = log_state_from_irq k'.pending }
