-- ===== src/Kernel/Calm.antt =====
-- The timer interrupt up to its exit boundary makes no task RUNNING, and leaves the current task.
use itron_rtos.Common.{
  ℕ, ltb, ◌≡◌, refl, sym, subst, Option, none, some, List, [], ◌∷◌, inl, inr, Bool-cases,
}
use itron_rtos.Task.{is_on_semaphore_timeout, is_on_delay}
use itron_rtos.Task.Lookup.{task_get_by_id}
use itron_rtos.Task.Ops.{wakes_sem_timeout, wakes_delayed, run_call}
use itron_rtos.Task.Running.{
  NoNewRunner, NoNewRunner-refl, NoNewRunner-trans, write-NoNewRunner, run_call-NoNewRunner,
}
use itron_rtos.Semaphore
use itron_rtos.Semaphore.{SemTable, SemResult, sem_get_by_id}
use itron_rtos.DelayQueue.{Entry}
use itron_rtos.DelayQueue.Tick.{Tables, after, set_remaining, wake_timed_out, expire, visit}
use itron_rtos.DelayQueue.Contents.{contents}
use itron_rtos.DelayQueue.Ageing.{visit_all, tick_refines}
use itron_rtos.Kernel.{Kernel, after_tick, timer_tick, evaluate_from_irq, timer_irq}
use itron_rtos.Kernel.Runner.{RunnerOk, NoNewRunner-RunnerOk}

-- The call has made no task RUNNING and left the current task alone.
pub record Calm (k k' : Kernel) : Type 0 where
  pub tasks : NoNewRunner k.tasks k'.tasks
  pub current : k'.current ≡ k.current

pub Calm-RunnerOk : (k k' : Kernel) → Calm k k' → RunnerOk k → RunnerOk k'
Calm-RunnerOk k k' c v = NoNewRunner-RunnerOk k k' c.tasks c.current v

pub still : (k : Kernel) → Calm k k
still k = record { tasks = NoNewRunner-refl k.tasks; current = refl }

pub with_sems : (k : Kernel) (sems : SemTable) → Calm k (record k { sems = sems })
with_sems k sems = record { tasks = NoNewRunner-refl k.tasks; current = refl }

wake_timed_out-NoNewRunner :
    (w : Tables) (task_id sem_id : ℕ) (sems : SemTable) (r : SemResult)
    → NoNewRunner w.tasks (wake_timed_out w task_id sem_id (sems, r)).tasks
unfolding wake_timed_out run_call
wake_timed_out-NoNewRunner w task_id sem_id sems Semaphore.ok =
    run_call-NoNewRunner (wakes_sem_timeout task_id sem_id) w.tasks refl tt
wake_timed_out-NoNewRunner w task_id sem_id sems Semaphore.full = NoNewRunner-refl w.tasks
wake_timed_out-NoNewRunner w task_id sem_id sems Semaphore.inval = NoNewRunner-refl w.tasks
wake_timed_out-NoNewRunner w task_id sem_id sems Semaphore.overflow = NoNewRunner-refl w.tasks
wake_timed_out-NoNewRunner w task_id sem_id sems Semaphore.task_error = NoNewRunner-refl w.tasks
wake_timed_out-NoNewRunner w task_id sem_id sems Semaphore.queue_empty = NoNewRunner-refl w.tasks
wake_timed_out-NoNewRunner w task_id sem_id sems Semaphore.wait_required = NoNewRunner-refl w.tasks

expire-NoNewRunner : (w : Tables) (o : Option ℕ) → NoNewRunner w.tasks (expire w o).tasks
unfolding expire run_call
expire-NoNewRunner w none = NoNewRunner-refl w.tasks
expire-NoNewRunner w (some j) =
    elim (Bool-cases (is_on_semaphore_timeout (w.tasks.slots j).wait_reason)) [
      | inl e ↦ rw e (wake_timed_out-NoNewRunner w _ _ _ _)
      | inr e ↦ elim (Bool-cases (is_on_delay (w.tasks.slots j).wait_reason)) [
        | inl f ↦
            rw (e, f) (run_call-NoNewRunner (wakes_delayed (w.tasks.slots j).id) w.tasks refl tt)
        | inr f ↦ rw (e, f) (NoNewRunner-refl w.tasks)
      ]
    ]

set_remaining-NoNewRunner :
    (w : Tables) (o : Option ℕ) (n : ℕ) → NoNewRunner w.tasks (set_remaining w o n).tasks
unfolding set_remaining
set_remaining-NoNewRunner w none n = NoNewRunner-refl w.tasks
set_remaining-NoNewRunner w (some j) n =
    write-NoNewRunner w.tasks j (record (w.tasks.slots j) { delay_ticks_remaining = n }) refl refl
      λ h. h

visit-NoNewRunner : (w : Tables) (e : Entry) → NoNewRunner w.tasks (visit w e).tasks
unfolding visit
visit-NoNewRunner w e =
    let slot = task_get_by_id w.tasks e.task_id in
    let s' = set_remaining-NoNewRunner w slot (after e) in
    elim (Bool-cases (ltb 0 (after e))) [
      | inl more ↦ rw more s'
      | inr over ↦ rw over (NoNewRunner-trans _ _ _ s' (expire-NoNewRunner _ slot))
    ]

visit_all-NoNewRunner : (es : List Entry) (w : Tables) → NoNewRunner w.tasks (visit_all w es).tasks
visit_all-NoNewRunner [] w = NoNewRunner-refl w.tasks
visit_all-NoNewRunner (e ∷ es) w =
    NoNewRunner-trans _ _ _ (visit-NoNewRunner w e) (visit_all-NoNewRunner es (visit w e))

timer_tick-Calm : (k : Kernel) → Calm k (timer_tick k)
unfolding timer_tick after_tick
timer_tick-Calm k =
    let w : Tables = record { tasks = k.tasks; sems = k.sems } in
    let (out, runs, _, tables, _) = tick_refines k.delays w in
    rw runs (record {
      tasks =
          subst (λ (u : Tables). NoNewRunner k.tasks u.tasks) (sym tables)
            (visit_all-NoNewRunner (contents k.delays) w);
      current = refl;
    })

pub timer_irq-Calm : (k : Kernel) → Calm k (timer_irq k)
unfolding timer_irq evaluate_from_irq
timer_irq-Calm k = let c = timer_tick-Calm k in record { tasks = c.tasks; current = c.current }
