-- ===== src/Blocking/Delays.antt =====
-- dly_tsk and slp_tsk of kernel/itron_api.c as a whole, with the switch.
mod Tests
use itron_rtos.Common.{
  ℕ, ◌≡◌, ◌≢◌, refl, sym, subst, ap, ◌∙◌, ◌⊎◌, inl, inr, [], ◌∷◌, ◌++◌, true, false, Bool, Option,
  none, some, ◌==◌, Control, comes_back, arith, if◌then◌else◌, update_self,
}
use itron_rtos.Task
use itron_rtos.Task.{TaskTable, Tcb, is_running, is_ready, on_delay, on_sleep}
use itron_rtos.Task.Lookup.{write_slot, change_task-ok}
use itron_rtos.Task.Moves.{begin_wait, mark_waiting_on_delay, mark_waiting_on_sleep, runs}
use itron_rtos.DelayQueue
use itron_rtos.DelayQueue.{DelayResult, can_enqueue, append, append_if, enqueue}
use itron_rtos.DelayQueue.Contents.{contents, contents-append}
use itron_rtos.Kernel.{Kernel}
use itron_rtos.Api.{e_par, e_ctx, e_obj, e_qovr}
use itron_rtos.Context.{Platform, Machine}
use itron_rtos.Context.Pairs.{Switchable}
use itron_rtos.Blocking.{take_step, slp_tsk, dly_tsk}
use itron_rtos.Blocking.Begin.{
  done, switches, slept, begin_slp_tsk, begin_dly_tsk, dly_checked, dly_marked, delay_enqueued,
}
use itron_rtos.Blocking.Waiting.{Runs, found_begun}
use itron_rtos.Blocking.WaiSem.{Away, begun, begun-Away}
use itron_rtos.Blocking.TwaiSem.{delay_result-cases}

-- The kernel once the task sleeps.
abbrev pub sleeping : Kernel → ℕ → Kernel
sleeping k c = record k { tasks = begun k.tasks c on_sleep 0 0 }

-- The kernel once the task is delayed: WAITING, and last in the delay queue.
abbrev pub delayed : Kernel → ℕ → ℕ → Kernel
delayed k c ticks = record k {
  tasks = begun k.tasks c on_delay 0 ticks;
  delays = append k.delays (record { task_id = (k.tasks.slots c).id; ticks = ticks });
}

module _ (k : Kernel) (c : ℕ) (at : Runs k c) where
  abbrev id : ℕ
  id = (k.tasks.slots c).id

  slept-marked : mark_waiting_on_sleep k.tasks id ≡ (begun k.tasks c on_sleep 0 0, Task.ok)
  unfolding mark_waiting_on_sleep
  slept-marked =
      rw (at.positive)
        (change_task-ok k.tasks id c runs (begin_wait on_sleep 0 0) at.found at.running)

  pub begin_slp_tsk-sleeps : begin_slp_tsk k ≡ switches (sleeping k c) c
  unfolding begin_slp_tsk slept
  begin_slp_tsk-sleeps =
      ap
        (λ (o : Option ℕ). elim o [
          | none ↦ done k e_ctx
          | some c' ↦
              if is_running (k.tasks.slots c').state
              then slept k c' (mark_waiting_on_sleep k.tasks (k.tasks.slots c').id)
              else done k e_ctx
        ])
        at.current
      ∙ rw (at.running) (ap (slept k c) slept-marked)

  module _ (ticks : ℕ) (some_ticks : (ticks == 0) ≡ false) where
    abbrev t' : TaskTable
    t' = begun k.tasks c on_delay 0 ticks

    delay-marked : mark_waiting_on_delay k.tasks id ticks ≡ (t', Task.ok)
    unfolding mark_waiting_on_delay
    delay-marked =
        rw (at.positive, some_ticks)
          (change_task-ok k.tasks id c runs (begin_wait on_delay 0 ticks) at.found at.running)

    delay-queued :
        can_enqueue k.delays id ≡ DelayQueue.ok
        → enqueue k.delays t' (t'.slots c).id ticks
          ≡ (append k.delays (record { task_id = id; ticks = ticks }), DelayQueue.ok)
    unfolding enqueue append_if
    delay-queued may =
        let now = update_self k.tasks.slots c (begin_wait on_delay 0 ticks (k.tasks.slots c)) in
        let found = found_begun k c on_delay 0 ticks at in
        rw (now, enqueue, found, some_ticks, now, may) refl

    pub begin_dly_tsk-checked :
        begin_dly_tsk k ticks ≡ dly_checked k c ticks (can_enqueue k.delays id)
    unfolding begin_dly_tsk
    begin_dly_tsk-checked =
        ap
          (λ (o : Option ℕ). elim o [
            | none ↦ done k e_ctx
            | some c' ↦
                if ticks == 0
                then done k e_par
                else if is_running (k.tasks.slots c').state
                then dly_checked k c' ticks (can_enqueue k.delays (k.tasks.slots c').id)
                else done k e_ctx
          ])
          at.current
        ∙ rw (some_ticks, at.running) refl

    pub refused-dly :
        (r : DelayResult) → r ≢ DelayQueue.ok → dly_checked k c ticks r ≡ done k e_qovr
    unfolding dly_checked
    refused-dly DelayQueue.ok h = absurd (h refl)
    refused-dly DelayQueue.inval h = refl
    refused-dly DelayQueue.full h = refl
    refused-dly DelayQueue.duplicate h = refl
    refused-dly DelayQueue.task_state h = refl

    pub dly_checked-waits :
        can_enqueue k.delays id ≡ DelayQueue.ok
        → dly_checked k c ticks (can_enqueue k.delays id) ≡ switches (delayed k c ticks) c
    unfolding dly_checked dly_marked delay_enqueued
    dly_checked-waits may =
        ap (dly_checked k c ticks) may
        ∙ ap (dly_marked k c ticks) delay-marked
        ∙ ap (delay_enqueued (record k { tasks = t' }) c e_obj) (delay-queued may)

-- The current task is RUNNING and its id leads to it; no pair is reserved, and every READY task has a
-- valid stack and an entry function that leaves the kernel as it is. slp_tsk then makes the task
-- WAITING without a time and returns E_OK: at once if no task is READY, and else with the READY task
-- that the scheduler prefers DORMANT and the dispatcher's current task, and nothing else changed.
pub slp_tsk-Away :
    (p : Platform) (m : Machine) (c : ℕ)
    → Runs m.kernel c
    → ((j : ℕ) → is_ready (m.kernel.tasks.slots j).state ≡ true → Switchable p m.kernel.tasks j)
    → m.smoke_from ≡ none
    → Away p (record m { kernel = sleeping m.kernel c }) (slp_tsk p m)
unfolding slp_tsk take_step
slp_tsk-Away p m c at all unreserved =
    subst (Away p (record m { kernel = sleeping m.kernel c }))
      (sym (ap (take_step p m) (begin_slp_tsk-sleeps m.kernel c at)))
      (begun-Away p m c on_sleep 0 0 at all m.kernel unreserved)

-- The current task is RUNNING and its id leads to it; the delay is not 0; no pair is reserved, and
-- every READY task has a valid stack and an entry function that leaves the kernel as it is. Where the
-- delay queue does not take the task, dly_tsk returns E_QOVR and changes nothing. Else the task is
-- WAITING and last in the delay queue with its ticks, and the call returns E_OK: at once if no task is
-- READY, and else with the READY task that the scheduler prefers DORMANT and the dispatcher's current
-- task, and nothing else changed.
pub dly_tsk_cases :
    (p : Platform) (m : Machine) (c ticks : ℕ)
    → Runs m.kernel c
    → (ticks == 0) ≡ false
    → ((j : ℕ) → is_ready (m.kernel.tasks.slots j).state ≡ true → Switchable p m.kernel.tasks j)
    → m.smoke_from ≡ none
    → let k = m.kernel in
      let id = (k.tasks.slots c).id in
      ((can_enqueue k.delays id ≢ DelayQueue.ok) × (dly_tsk p m ticks ≡ comes_back (m, e_qovr)))
      ⊎ ((can_enqueue k.delays id ≡ DelayQueue.ok)
          × (contents (delayed k c ticks).delays
              ≡ contents k.delays ++ record { task_id = id; ticks = ticks } ∷ [])
          × Away p (record m { kernel = delayed k c ticks }) (dly_tsk p m ticks))
unfolding dly_tsk take_step
dly_tsk_cases p m c ticks at h all unreserved =
    let k = m.kernel in
    let first = begin_dly_tsk-checked k c at ticks h in
    elim (delay_result-cases (can_enqueue k.delays (k.tasks.slots c).id)) [
      | inr bad ↦ inl (bad, ap (take_step p m) (first ∙ refused-dly k c at ticks h _ bad))
      | inl may ↦ inr (
        may,
        contents-append k.delays _,
        subst (Away p (record m { kernel = delayed k c ticks }))
            (sym (ap (take_step p m) (first ∙ dly_checked-waits k c at ticks h may)))
            (begun-Away p m c on_delay 0 ticks at all (delayed k c ticks) unreserved),
      )
    ]
