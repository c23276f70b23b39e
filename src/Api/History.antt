-- ===== src/Api/History.antt =====
-- What holds of the semaphores, the delay queue and the pending request under any history of the
-- API calls of kernel/itron_api.c and timer interrupts.
use itron_rtos.Common.{
  ℕ, ltb, collect, ◌≡◌, refl, sym, subst, Option, none, some, List, [], ◌∷◌, inl, inr, arith,
  Bool-cases,
}
use itron_rtos.Task.{is_on_semaphore_timeout, is_on_delay}
use itron_rtos.Task.Lookup.{task_get_by_id}
use itron_rtos.Task.Create.{TaskSpec}
use itron_rtos.Scheduler.{
  PreemptReason, no_preempt, needed, same_priority, invalid_current, PreemptDecision,
  select_preemption_candidate,
}
use itron_rtos.Semaphore
use itron_rtos.Semaphore.{SemTable, SemResult, SemSpec, sem_get_by_id, sem_create}
use itron_rtos.Semaphore.Bounds.{
  AllSemsOk, creates, run_sem, run_sem-AllSemsOk, remove-AllSemsOk, sem_init-AllSemsOk,
}
use itron_rtos.DelayQueue.{Entry}
use itron_rtos.DelayQueue.Tick.{Tables, Loop, after, set_remaining, wake_timed_out, expire, visit}
use itron_rtos.DelayQueue.Contents.{contents}
use itron_rtos.DelayQueue.Ageing.{visit_all, tick_refines}
use itron_rtos.DelayQueue.Invariant.{QueueOk, queue_after, tick-QueueOk}
use itron_rtos.Pending.{Pending, task_start, task_wakeup}
use itron_rtos.Pending.Requests.{PendingOk, clear_irq-PendingOk, from_irq-PendingOk, logs-PendingOk}
use itron_rtos.Kernel.{
  Kernel, kernel_init, after_tick, timer_tick, request_if_needed, evaluate_from_irq, timer_irq,
}
use itron_rtos.Api.{cre_tsk, sta_tsk, wup_tsk, pol_sem, sig_sem}
use itron_rtos.Api.Readying.{sta_tsk-ReadiesOrNot, wup_tsk-ReadiesOrNot, sleeps}
use itron_rtos.Api.Invariant.{KernelOk, cre_tsk-KernelOk, ReadiesOrNot-KernelOk, pol_sem-KernelOk}
use itron_rtos.Api.SignalInvariant.{sig_sem-KernelOk}

wake_timed_out-AllSemsOk :
    (w : Tables) (task_id sem_id : ℕ) (sems : SemTable) (r : SemResult)
    → AllSemsOk sems
    → AllSemsOk (wake_timed_out w task_id sem_id (sems, r)).sems
unfolding wake_timed_out
wake_timed_out-AllSemsOk w task_id sem_id sems Semaphore.ok s = s
wake_timed_out-AllSemsOk w task_id sem_id sems Semaphore.full s = s
wake_timed_out-AllSemsOk w task_id sem_id sems Semaphore.inval s = s
wake_timed_out-AllSemsOk w task_id sem_id sems Semaphore.overflow s = s
wake_timed_out-AllSemsOk w task_id sem_id sems Semaphore.task_error s = s
wake_timed_out-AllSemsOk w task_id sem_id sems Semaphore.queue_empty s = s
wake_timed_out-AllSemsOk w task_id sem_id sems Semaphore.wait_required s = s

expire-AllSemsOk : (w : Tables) (o : Option ℕ) → AllSemsOk w.sems → AllSemsOk (expire w o).sems
unfolding expire
expire-AllSemsOk w none s = s
expire-AllSemsOk w (some j) s =
    elim (Bool-cases (is_on_semaphore_timeout (w.tasks.slots j).wait_reason)) [
      | inl e ↦ rw e (
          wake_timed_out-AllSemsOk w _ _ _ _
            (remove-AllSemsOk w.sems (w.tasks.slots j).wait_sem_id (w.tasks.slots j).id s))
      | inr e ↦ elim (Bool-cases (is_on_delay (w.tasks.slots j).wait_reason)) [
        | inl f ↦ rw (e, f) s
        | inr f ↦ rw (e, f) s
      ]
    ]

set_remaining-AllSemsOk :
    (w : Tables) (o : Option ℕ) (n : ℕ) → AllSemsOk w.sems → AllSemsOk (set_remaining w o n).sems
unfolding set_remaining
set_remaining-AllSemsOk w none n s = s
set_remaining-AllSemsOk w (some j) n s = s

visit-AllSemsOk : (w : Tables) (e : Entry) → AllSemsOk w.sems → AllSemsOk (visit w e).sems
unfolding visit
visit-AllSemsOk w e s =
    let slot = task_get_by_id w.tasks e.task_id in
    let s' = set_remaining-AllSemsOk w slot (after e) s in
    elim (Bool-cases (ltb 0 (after e))) [
      | inl more ↦ rw more s'
      | inr over ↦ rw over (expire-AllSemsOk _ slot s')
    ]

visit_all-AllSemsOk :
    (es : List Entry) (w : Tables) → AllSemsOk w.sems → AllSemsOk (visit_all w es).sems
visit_all-AllSemsOk [] w s = s
visit_all-AllSemsOk (e ∷ es) w s = visit_all-AllSemsOk es (visit w e) (visit-AllSemsOk w e s)

pub timer_tick-KernelOk : (k : Kernel) → KernelOk k → KernelOk (timer_tick k)
unfolding timer_tick after_tick queue_after
timer_tick-KernelOk k v =
    let w : Tables = record { tasks = k.tasks; sems = k.sems } in
    let (out, runs, _, tables, _) = tick_refines k.delays w in
    let sems = visit_all-AllSemsOk (contents k.delays) w v.0 in
    let delays = tick-QueueOk k.delays w v.1 in
    rw runs (
      subst (λ (u : Tables). AllSemsOk u.sems) (sym tables) sems,
      subst (λ (o : Option Loop). QueueOk (queue_after k.delays o)) runs delays,
      v.2,
    )

request_if_needed-PendingOk :
    (k : Kernel) (d : PreemptDecision) (p : Pending)
    → PendingOk p
    → PendingOk (request_if_needed k d p)
unfolding request_if_needed
request_if_needed-PendingOk k d p v = go d.reason refl
  where
    go : (r : PreemptReason) → d.reason ≡ r → PendingOk (request_if_needed k d p)
    go needed e = rw e (from_irq-PendingOk k.tasks k.current d.candidate p v)
    go no_preempt e = rw e v
    go same_priority e = rw e v
    go invalid_current e = rw e v

pub timer_irq-KernelOk : (k : Kernel) → KernelOk k → KernelOk (timer_irq k)
unfolding timer_irq evaluate_from_irq
timer_irq-KernelOk k v =
    let (sems, delays, pending) = timer_tick-KernelOk k v in
    (
      sems,
      delays,
      logs-PendingOk _ (
          request_if_needed-PendingOk (timer_tick k)
            (select_preemption_candidate (timer_tick k).tasks (timer_tick k).current) _
            (clear_irq-PendingOk _ pending)),
    )

pub data KernelCall : Type 0 where
  calls_cre_tsk : ℕ → Option TaskSpec → KernelCall
  calls_sta_tsk calls_wup_tsk calls_pol_sem calls_sig_sem : ℕ → KernelCall
  creates_sem : SemSpec → KernelCall
  interrupts : KernelCall

unfoldable pub run_kernel_call : KernelCall → Kernel → Kernel
run_kernel_call (calls_cre_tsk tskid pk) k = (cre_tsk k tskid pk).0
run_kernel_call (calls_sta_tsk tskid) k = (sta_tsk k tskid).0
run_kernel_call (calls_wup_tsk tskid) k = (wup_tsk k tskid).0
run_kernel_call (calls_pol_sem sem_id) k = (pol_sem k sem_id).0
run_kernel_call (calls_sig_sem sem_id) k = (sig_sem k sem_id).0
run_kernel_call (creates_sem a) k = record k { sems = (sem_create k.sems a).0 }
run_kernel_call interrupts k = timer_irq k

unfoldable pub run_kernel : List KernelCall → Kernel → Kernel
run_kernel [] k = k
run_kernel (c ∷ cs) k = run_kernel cs (run_kernel_call c k)

pub run_kernel_call-KernelOk :
    (c : KernelCall) (k : Kernel) → KernelOk k → KernelOk (run_kernel_call c k)
unfolding run_kernel_call run_sem
run_kernel_call-KernelOk (calls_cre_tsk tskid pk) k v = cre_tsk-KernelOk k tskid pk v
run_kernel_call-KernelOk (calls_sta_tsk tskid) k v =
    ReadiesOrNot-KernelOk k task_start _ tskid (sta_tsk k tskid) tt (sta_tsk-ReadiesOrNot k tskid) v
run_kernel_call-KernelOk (calls_wup_tsk tskid) k v =
    ReadiesOrNot-KernelOk k task_wakeup sleeps tskid (wup_tsk k tskid) tt
      (wup_tsk-ReadiesOrNot k tskid) v
run_kernel_call-KernelOk (calls_pol_sem sem_id) k v = pol_sem-KernelOk k sem_id v
run_kernel_call-KernelOk (calls_sig_sem sem_id) k v = sig_sem-KernelOk k sem_id v
run_kernel_call-KernelOk (creates_sem a) k (sems, delays, pending) =
    (run_sem-AllSemsOk k.tasks (creates a) k.sems sems, delays, pending)
run_kernel_call-KernelOk interrupts k v = timer_irq-KernelOk k v

-- Once the kernel is in order it stays so under any history of the five API calls, sem_create and
-- timer interrupts: every semaphore has its count between 0 and its maximum and a wait queue in
-- order, the delay queue has one entry with ticks to go for each of its tasks, and the request is
-- cleared or complete.
pub run_kernel-KernelOk :
    (cs : List KernelCall) (k : Kernel) → KernelOk k → KernelOk (run_kernel cs k)
unfolding run_kernel
run_kernel-KernelOk [] k v = v
run_kernel-KernelOk (c ∷ cs) k v =
    run_kernel-KernelOk cs (run_kernel_call c k) (run_kernel_call-KernelOk c k v)

pub kernel_init-KernelOk : KernelOk kernel_init
unfolding collect
kernel_init-KernelOk =
    (sem_init-AllSemsOk, record { count_in = omega arith; entries_ok = tt }, inl refl)
