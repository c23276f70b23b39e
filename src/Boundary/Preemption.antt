-- ===== src/Boundary/Preemption.antt =====
-- From the timer interrupt to the switch that it causes.
use itron_rtos.Common.{ℕ, ◌≡◌, refl, ap, ◌∙◌, inl, inr, true, some, comes_back, ◌>>=◌}
use itron_rtos.Task.{is_running, is_ready, max_tasks}
use itron_rtos.Task.Lookup.{task_get_by_id}
use itron_rtos.Scheduler.Choice.{IsBest}
use itron_rtos.Scheduler.Preempt.{Outranked}
use itron_rtos.Pending.{Pending, from_irq, irq_preemption, request, log_state_from_irq}
use itron_rtos.Kernel.{Kernel, timer_tick, evaluate_from_irq, timer_irq}
use itron_rtos.Kernel.Timer.{NoTaskRequest, evaluate_from_irq_cases}
use itron_rtos.Context.{Platform, Machine}
use itron_rtos.Context.Entering.{task_get_by_id-CanRun}
use itron_rtos.Context.Stacks.{Apart}
use itron_rtos.Context.Runs.{Ran, either}
use itron_rtos.Context.Pairs.{Switchable}
use itron_rtos.Dispatcher.Switching.{with_current}
use itron_rtos.Boundary.{clear_request, timer_irq_handle}
use itron_rtos.Boundary.Consumed.{consume-Switches}

module _ (p : Platform) (m : Machine) (c : ℕ) where
  abbrev ticked : Kernel
  ticked = timer_tick m.kernel

  abbrev interrupted : Machine
  interrupted = record m { kernel = timer_irq m.kernel }

  logged :
      (b : ℕ)
      → (evaluate_from_irq ticked).pending ≡ request ticked.tasks from_irq irq_preemption c b
      → interrupted.kernel.pending
        ≡ record (request ticked.tasks from_irq irq_preemption c b) { request_logged = true }
  unfolding timer_irq log_state_from_irq
  logged b e = ap log_state_from_irq e

  same_tasks : interrupted.kernel.tasks ≡ ticked.tasks
  unfolding timer_irq evaluate_from_irq
  same_tasks = refl

  preempts :
      (b : ℕ)
      → (evaluate_from_irq ticked).pending ≡ request ticked.tasks from_irq irq_preemption c b
      → is_running (ticked.tasks.slots c).state ≡ true
      → is_ready (ticked.tasks.slots b).state ≡ true
      → Switchable p ticked.tasks c
      → Switchable p ticked.tasks b
      → Apart p (ticked.tasks.slots c) (ticked.tasks.slots b)
      → (m' : Machine) × (timer_irq_handle p m ≡ comes_back (clear_request m'))
        × Ran (either c b) (with_current interrupted b) m'
  unfolding timer_irq evaluate_from_irq timer_irq_handle
  preempts b e runs ready_b (l, d) (k, f) apart =
      let g = logged b e in
      let (m', done, r) =
        consume-Switches p interrupted c b (ap (λ (q : Pending). q.requested) g)
          (ap (λ (q : Pending). task_get_by_id ticked.tasks q.current_id) g
            ∙ task_get_by_id-CanRun p ticked.tasks c d)
          (ap (λ (q : Pending). task_get_by_id ticked.tasks q.candidate_id) g
            ∙ task_get_by_id-CanRun p ticked.tasks b f)
          runs ready_b l k d f apart in
      (m', ap (λ s. s >>= λ (m'', r'). comes_back m'') done, r)

-- At a timer interrupt the current task is RUNNING behind the tick, no request of a task is
-- pending, and some READY task has a smaller priority value; the current task and every READY task
-- have ids that lead to them, valid stacks and entry functions that leave the kernel as it is; the
-- current task's stack overlaps no READY task's, and its run stays on its own. The interrupt then preempts: it comes back, the task that the scheduler prefers and the
-- current one are then DORMANT, the preferred one is the dispatcher's current task, the request is
-- cleared, and all else of the kernel is as the tick has left it but for the request.
pub timer_irq_handle-preempts :
    (p : Platform) (m : Machine) (c : ℕ)
    → (timer_tick m.kernel).current ≡ some c
    → is_running ((timer_tick m.kernel).tasks.slots c).state ≡ true
    → NoTaskRequest (timer_tick m.kernel).pending
    → Outranked (timer_tick m.kernel).tasks c
    → Switchable p (timer_tick m.kernel).tasks c
    → ((i : ℕ)
        → is_ready ((timer_tick m.kernel).tasks.slots i).state ≡ true
        → Switchable p (timer_tick m.kernel).tasks i
          × Apart p ((timer_tick m.kernel).tasks.slots c) ((timer_tick m.kernel).tasks.slots i))
    → (b : ℕ) × (m' : Machine) × IsBest (timer_tick m.kernel).tasks max_tasks b
      × (timer_irq_handle p m ≡ comes_back (clear_request m'))
      × Ran (either c b) (with_current (record m { kernel = timer_irq m.kernel }) b) m'
timer_irq_handle-preempts p m c at_c runs clear better sc all =
    elim (evaluate_from_irq_cases (timer_tick m.kernel) c at_c runs clear) [
      | inr (never, _) ↦ absurd (never better)
      | inl (_, (b, best, e)) ↦
          let (m', done, r) =
            preempts p m c b e runs best.is_candidate sc (all b best.is_candidate).0
              (all b best.is_candidate).1 in
          (b, m', best, done, r)
    ]
