-- ===== src/Boot/Kept/Observe.antt =====
-- What the parts of kernel/kernel.c that do not switch tasks keep.
use itron_rtos.Common.{
  ℕ, refl, inl, inr, zero, suc, ◌==◌, Option, none, some, Bool-cases, Option-cases, is_nonneg, ◌≡◌,
}
use itron_rtos.Task
use itron_rtos.Task.{TaskTable, TaskResult}
use itron_rtos.Semaphore
use itron_rtos.Semaphore.{SemTable, SemResult}
use itron_rtos.Semaphore.Bounds.{AllSemsOk}
use itron_rtos.DelayQueue
use itron_rtos.DelayQueue.{DelayQueue, DelayResult}
use itron_rtos.DelayQueue.Invariant.{QueueOk, enqueue-QueueOk}
use itron_rtos.Scheduler.{select_next}
use itron_rtos.Kernel.{Kernel, timer_irq}
use itron_rtos.Api.Invariant.{KernelOk}
use itron_rtos.Api.History.{timer_tick-KernelOk, timer_irq-KernelOk}
use itron_rtos.Context.{Platform}
use itron_rtos.Dispatcher
use itron_rtos.Dispatcher.{DispatchResult, commit_current}
use itron_rtos.Blocking.Kept.{wait-AllSemsOk}
use itron_rtos.Blocking.Switches.{EntriesKeep}
use itron_rtos.Cooperative.{
  Round, stops, goes_on, recandidate, run_current, committed, cooperative_round, cooperative_loop,
  cooperative_entries,
}
use itron_rtos.Boot.{Image, sem_tick_timeout, commit_id, create_sem}
use itron_rtos.Boot.Kept.{
  commit_current-KernelOk, commit_id-KernelOk, create_sem-KernelOk, and_then-KernelOk,
}
use itron_rtos.Boot.Observe.{
  timer_smoke, decision_smoke, decide_and_return, decision_from, preemption_smoke, delay_queued,
  delay_marked, timed_queued, timed_marked, tick_and_evaluate, wait_with_timeout, wait_for_tick,
  tick_ready_smoke,
}

pub timer_smoke-KernelOk : (k : Kernel) → KernelOk k → KernelOk (timer_smoke k)
unfolding timer_smoke
timer_smoke-KernelOk k v =
    timer_tick-KernelOk _
      (timer_tick-KernelOk _ (timer_tick-KernelOk (record k { system_ticks = 0 }) v))

decision_smoke-KernelOk : (k : Kernel) → KernelOk k → KernelOk (decision_smoke k).0
unfolding decision_smoke
decision_smoke-KernelOk k v = timer_tick-KernelOk k v

decision_from-KernelOk :
    (task_id : ℕ) (k : Kernel) → KernelOk k → KernelOk (decision_from task_id k)
unfolding decision_from decide_and_return decision_smoke
decision_from-KernelOk task_id k v =
    and_then-KernelOk (commit_id k task_id) _ (commit_id-KernelOk k task_id v)
      decision_smoke-KernelOk

pub preemption_smoke-KernelOk :
    (low high : ℕ) (k : Kernel) → KernelOk k → KernelOk (preemption_smoke low high k)
unfolding preemption_smoke
preemption_smoke-KernelOk low high k v =
    decision_from-KernelOk high _ (decision_from-KernelOk low _ (decision_smoke-KernelOk k v))

delay_queued-KernelOk :
    (k : Kernel) (delays : DelayQueue) (r : DelayResult)
    → QueueOk delays
    → KernelOk k
    → KernelOk (delay_queued k (delays, r)).0
unfolding delay_queued
delay_queued-KernelOk k delays DelayQueue.ok d v = (v.0, d, v.2)
delay_queued-KernelOk k delays DelayQueue.inval d v = (v.0, d, v.2)
delay_queued-KernelOk k delays DelayQueue.full d v = (v.0, d, v.2)
delay_queued-KernelOk k delays DelayQueue.duplicate d v = (v.0, d, v.2)
delay_queued-KernelOk k delays DelayQueue.task_state d v = (v.0, d, v.2)

delay_marked-KernelOk :
    (k : Kernel) (task_id : ℕ) (t : TaskTable) (r : TaskResult)
    → KernelOk k
    → KernelOk (delay_marked k task_id (t, r)).0
unfolding delay_marked
delay_marked-KernelOk k task_id t Task.ok v =
    delay_queued-KernelOk (record k { tasks = t }) _ _ (enqueue-QueueOk k.delays t task_id 1 v.1) v
delay_marked-KernelOk k task_id t Task.full v = v
delay_marked-KernelOk k task_id t Task.inval v = v
delay_marked-KernelOk k task_id t Task.id_overflow v = v
delay_marked-KernelOk k task_id t Task.not_found v = v
delay_marked-KernelOk k task_id t Task.bad_state v = v

timed_queued-KernelOk :
    (k : Kernel) (task_id : ℕ) (sems : SemTable) (r : SemResult)
    → AllSemsOk sems
    → KernelOk k
    → KernelOk (timed_queued k task_id (sems, r)).0
unfolding timed_queued
timed_queued-KernelOk k task_id sems Semaphore.ok s v =
    delay_queued-KernelOk (record k { sems = sems }) _ _
      (enqueue-QueueOk k.delays k.tasks task_id 1 v.1) (s, v.1, v.2)
timed_queued-KernelOk k task_id sems Semaphore.full s v = (s, v.1, v.2)
timed_queued-KernelOk k task_id sems Semaphore.inval s v = (s, v.1, v.2)
timed_queued-KernelOk k task_id sems Semaphore.overflow s v = (s, v.1, v.2)
timed_queued-KernelOk k task_id sems Semaphore.task_error s v = (s, v.1, v.2)
timed_queued-KernelOk k task_id sems Semaphore.queue_empty s v = (s, v.1, v.2)
timed_queued-KernelOk k task_id sems Semaphore.wait_required s v = (s, v.1, v.2)

timed_marked-KernelOk :
    (k : Kernel) (sem_id task_id : ℕ) (t : TaskTable) (r : TaskResult)
    → KernelOk k
    → KernelOk (timed_marked k sem_id task_id (t, r)).0
unfolding timed_marked
timed_marked-KernelOk k sem_id task_id t Task.ok v =
    timed_queued-KernelOk (record k { tasks = t }) task_id _ _
      (wait-AllSemsOk k.sems t sem_id task_id v.0) v
timed_marked-KernelOk k sem_id task_id t Task.full v = v
timed_marked-KernelOk k sem_id task_id t Task.inval v = v
timed_marked-KernelOk k sem_id task_id t Task.id_overflow v = v
timed_marked-KernelOk k sem_id task_id t Task.not_found v = v
timed_marked-KernelOk k sem_id task_id t Task.bad_state v = v

module _ (current_task_id : ℕ) where
  tick_and_evaluate-KernelOk :
      (k : Kernel) → KernelOk k → KernelOk (tick_and_evaluate current_task_id k)
  unfolding tick_and_evaluate timer_irq
  tick_and_evaluate-KernelOk k v =
      and_then-KernelOk (commit_id k current_task_id) _ (commit_id-KernelOk k current_task_id v)
        timer_irq-KernelOk

  wait_with_timeout-KernelOk :
      (sem_id twai_task_id : ℕ) (k : Kernel)
      → KernelOk k
      → KernelOk (wait_with_timeout sem_id twai_task_id current_task_id k)
  unfolding wait_with_timeout
  wait_with_timeout-KernelOk sem_id twai_task_id k v =
      and_then-KernelOk (commit_id k twai_task_id) _ (commit_id-KernelOk k twai_task_id v) λ k1 v1.
        and_then-KernelOk _ _ (timed_marked-KernelOk k1 sem_id twai_task_id _ _ v1)
          tick_and_evaluate-KernelOk

  wait_for_tick-KernelOk :
      (sem_id delay_task_id twai_task_id : ℕ) (k : Kernel)
      → KernelOk k
      → KernelOk (wait_for_tick sem_id delay_task_id twai_task_id current_task_id k)
  unfolding wait_for_tick
  wait_for_tick-KernelOk sem_id delay_task_id twai_task_id k v =
      and_then-KernelOk (commit_id k delay_task_id) _ (commit_id-KernelOk k delay_task_id v)
        λ k1 v1.
          and_then-KernelOk _ _ (delay_marked-KernelOk k1 delay_task_id _ _ v1)
            (wait_with_timeout-KernelOk sem_id twai_task_id)

pub tick_ready_smoke-KernelOk :
    (im : Image) (delay_id twai_id current_id : ℕ) (k : Kernel)
    → KernelOk k
    → KernelOk (tick_ready_smoke im delay_id twai_id current_id k)
unfolding tick_ready_smoke
tick_ready_smoke-KernelOk im delay_id twai_id current_id k v =
    let (k', sem_id) = create_sem im sem_tick_timeout 0 1 k in
    let v' = create_sem-KernelOk im sem_tick_timeout 0 1 k v in
    elim (Bool-cases (is_nonneg sem_id)) [
      | inl e ↦ rw e (wait_for_tick-KernelOk current_id sem_id delay_id twai_id k' v')
      | inr e ↦ rw e v'
    ]

abbrev RoundOk : Round → Type 0
RoundOk (stops k why) = KernelOk k
RoundOk (goes_on k) = KernelOk k

recandidate-RoundOk :
    (k : Kernel) (t : TaskTable) (r : TaskResult) → KernelOk k → RoundOk (recandidate k (t, r))
unfolding recandidate
recandidate-RoundOk k t Task.ok v = v
recandidate-RoundOk k t Task.full v = v
recandidate-RoundOk k t Task.inval v = v
recandidate-RoundOk k t Task.id_overflow v = v
recandidate-RoundOk k t Task.not_found v = v
recandidate-RoundOk k t Task.bad_state v = v

module _ (p : Platform) (entries : EntriesKeep p) where
  run_current-RoundOk : (k : Kernel) (o : Option ℕ) → KernelOk k → RoundOk (run_current p k o)
  unfolding run_current
  run_current-RoundOk k none v = v
  run_current-RoundOk k (some i) v = elim (Bool-cases (Task.is_running (k.tasks.slots i).state)) [
    | inr e ↦ rw (run_current, e) v
    | inl e ↦ elim (Bool-cases ((k.tasks.slots i).entry == 0)) [
      | inl f ↦ rw (run_current, e, f) v
      | inr f ↦
          let k' = p.run_entry (k.tasks.slots i).entry k in
          rw (run_current, e, f) (recandidate-RoundOk k' _ _ (entries k (k.tasks.slots i).entry v))
    ]
  ]

  committed-RoundOk : (k : Kernel) (r : DispatchResult) → KernelOk k → RoundOk (committed p (k, r))
  unfolding committed
  committed-RoundOk k Dispatcher.ok v = run_current-RoundOk k k.current v
  committed-RoundOk k Dispatcher.inval v = v
  committed-RoundOk k Dispatcher.bad_state v = v
  committed-RoundOk k Dispatcher.not_found v = v

  cooperative_round-RoundOk : (k : Kernel) → KernelOk k → RoundOk (cooperative_round p k)
  unfolding cooperative_round
  cooperative_round-RoundOk k v = elim (Option-cases (select_next k.tasks)) [
    | inl e ↦ rw (cooperative_round, e) v
    | inr (i, e) ↦
        let (k', r) = commit_current k (some i) in
        rw (cooperative_round, e) (committed-RoundOk k' r (commit_current-KernelOk k (some i) v))
  ]

  cooperative_loop-KernelOk :
      (n : ℕ) (k : Kernel) → KernelOk k → KernelOk (cooperative_loop p n k).0
  unfolding cooperative_loop
  cooperative_loop-KernelOk zero k v = v
  cooperative_loop-KernelOk (suc n) k v =
      go (cooperative_loop-KernelOk n) (cooperative_round p k) refl (cooperative_round-RoundOk k v)
    where
      go :
          ((k' : Kernel) → KernelOk k' → KernelOk (cooperative_loop p n k').0)
          → (r : Round) → cooperative_round p k ≡ r
          → RoundOk r
          → KernelOk (cooperative_loop p (suc n) k).0
      go rest (stops k' why) e w = rw (cooperative_loop, e) w
      go rest (goes_on k') e w = rw (cooperative_loop, e) (rest k' w)

  pub cooperative_entries-KernelOk :
      (k : Kernel) → KernelOk k → KernelOk (cooperative_entries p k).0
  unfolding cooperative_entries
  cooperative_entries-KernelOk k v = cooperative_loop-KernelOk 3 k v
