-- ===== src/Boundary/Tests.antt =====
-- The timer interrupt on three tasks, and stale and valid requests.
use itron_rtos.Common.{
  ℕ, ◌≡◌, refl, inl, inr, false, some, arith, AfterReturn, comes_back, rank, first_index,
}
use itron_rtos.Task.{max_tasks, running, ready}
use itron_rtos.Task.Lookup.{task_get_by_id, find_task}
use itron_rtos.Scheduler.Choice.{IsBest}
use itron_rtos.DelayQueue.Tick.{tick}
use itron_rtos.Pending.{request, from_task, task_start}
use itron_rtos.Kernel.{timer_tick, timer_irq, after_tick}
use itron_rtos.Context.{Machine}
use itron_rtos.Context.Runs.{Ran, either}
use itron_rtos.Context.Samples.{
  quiet_platform, sample, three_kernel, three_tasks, machine_of, task_of-Laid, task_of-Apart,
  first-CanRun, second-CanRun, ready-Switchable, ready-Apart,
}
use itron_rtos.Dispatcher.{ok}
use itron_rtos.Dispatcher.Switching.{with_current}
use itron_rtos.Boundary.{clear_request, invalid, dispatched, consume, timer_irq_handle}
use itron_rtos.Boundary.Consumed.{timer_irq_handle_clears, consume_stale, consume-Switches}
use itron_rtos.Boundary.Preemption.{timer_irq_handle-preempts}

timer_irq_handle_clears_example :
    AfterReturn (λ m'. m'.kernel.pending.requested ≡ false) (timer_irq_handle quiet_platform sample)
timer_irq_handle_clears_example = timer_irq_handle_clears quiet_platform sample

-- Task 1 has started task 2.
abbrev requesting : Machine
requesting =
    machine_of (record three_kernel { pending = request three_tasks from_task task_start 0 1 })

consume-Switches_example :
    (m' : Machine) × (consume quiet_platform requesting
      ≡ comes_back (clear_request m', dispatched ok))
    × Ran (either 0 1) (with_current requesting 1) m'
unfolding task_get_by_id find_task first_index
consume-Switches_example =
    consume-Switches quiet_platform requesting 0 1 refl refl refl refl refl
      (task_of-Laid 1 running 5 10000 (omega arith) (omega arith))
      (task_of-Laid 2 ready 3 20000 (omega arith) (omega arith)) first-CanRun second-CanRun
      (task_of-Apart 1 2 running ready 5 3 10000 20000 (omega arith) (omega arith))

-- The request names a task that is not READY any more.
abbrev stale : Machine
stale = machine_of (record three_kernel { pending = request three_tasks from_task task_start 0 0 })

consume_stale_example : consume quiet_platform stale ≡ comes_back (clear_request stale, invalid)
unfolding task_get_by_id find_task first_index
consume_stale_example =
    consume_stale quiet_platform stale refl
      (inr λ i (e : some 0 ≡ some i). rw (← some-eq 0 i e) refl)
  where
    some-eq : (a b : ℕ) → some a ≡ some b → a ≡ b
    some-eq a b e = cc e

-- A tick with an empty delay queue changes no task.
same_tasks : (timer_tick three_kernel).tasks ≡ three_tasks
unfolding timer_tick after_tick tick
same_tasks = refl

timer_irq_handle-preempts_example :
    (b : ℕ) × (m' : Machine) × IsBest (timer_tick three_kernel).tasks max_tasks b
    × (timer_irq_handle quiet_platform sample ≡ comes_back (clear_request m'))
    × Ran (either 0 b) (with_current (record sample { kernel = timer_irq three_kernel }) b) m'
unfolding timer_tick after_tick tick rank
timer_irq_handle-preempts_example =
    timer_irq_handle-preempts quiet_platform sample 0 refl refl (inl refl, refl)
      (1, omega arith, refl, omega arith)
      (task_of-Laid 1 running 5 10000 (omega arith) (omega arith), first-CanRun)
      λ i h. (ready-Switchable i h, ready-Apart i h)
