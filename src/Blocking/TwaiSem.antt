-- ===== src/Blocking/TwaiSem.antt =====
-- twai_sem of kernel/itron_api.c up to the switch: the count is taken, or the call is refused, or the
-- task waits in both queues.
use itron_rtos.Common.{
  ℕ, ◌-◌, ◌≤◌, ◌<◌, ◌≡◌, ◌≢◌, refl, ap, ◌∙◌, ◌⊎◌, inl, inr, true, false, ◌==◌, leb, leb→le,
  Bool-cases, is_positive, arith,
}
use itron_rtos.Task.{max_tasks}
use itron_rtos.Semaphore.{write_sem}
use itron_rtos.DelayQueue
use itron_rtos.DelayQueue.{DelayQueue, DelayResult, Entry, can_enqueue, append, append_if, enqueue}
use itron_rtos.Kernel.{Kernel}
use itron_rtos.Api.{e_ok, e_id, e_qovr}
use itron_rtos.Blocking.Begin.{Step, done, switches, begin_twai_sem, twai_taken}
use itron_rtos.Blocking.Waiting.{Runs, Names, take-positive}
use itron_rtos.Blocking.TimedWaiting.{
  waits_timed, begin_twai_sem-taken, checked, refused_delay, refused_sem, waits_in_both,
}

pub delay_result-cases : (r : DelayResult) → (r ≡ DelayQueue.ok) ⊎ (r ≢ DelayQueue.ok)
delay_result-cases DelayQueue.ok = inl refl
delay_result-cases DelayQueue.inval = inr (λ h. cc h)
delay_result-cases DelayQueue.full = inr (λ h. cc h)
delay_result-cases DelayQueue.duplicate = inr (λ h. cc h)
delay_result-cases DelayQueue.task_state = inr (λ h. cc h)

-- The ways in which twai_sem goes up to the switch: it takes one of the count; it is refused with
-- nothing changed; or the task waits in both queues.
abbrev pub TimedOutcome : Kernel → ℕ → ℕ → ℕ → ℕ → Step → Type 0
TimedOutcome k c sem_id i ticks r =
    ((is_positive (k.sems.sems i).count ≡ true)
      × (r
          ≡ done
              (record k {
                sems =
                    write_sem k.sems i
                      (record (k.sems.sems i) { count = (k.sems.sems i).count - 1 });
              })
              e_ok))
    ⊎ ((is_positive (k.sems.sems i).count ≡ false)
        × (((max_tasks ≤ (k.sems.sems i).wait_count) × (r ≡ done k e_id))
            ⊎ (((k.sems.sems i).wait_count < max_tasks)
                × (((can_enqueue k.delays (k.tasks.slots c).id ≢ DelayQueue.ok)
                      × (r ≡ done k e_qovr))
                    ⊎ ((can_enqueue k.delays (k.tasks.slots c).id ≡ DelayQueue.ok)
                        × (r ≡ switches (waits_timed k c sem_id i ticks) c))))))

-- The current task is RUNNING and its id leads to it, `sem_id` is that of a semaphore, and the timeout
-- is not 0. Then twai_sem, up to the switch, does one of four things. It lowers a positive count by
-- one. Where the count is not positive, it returns E_ID if the wait queue is full, or E_QOVR if there
-- is room but the delay queue does not take the task, both with the kernel as it was; and if both
-- queues take the task, it is WAITING with its timeout, last in the wait queue and last in the delay
-- queue. It never leaves the task in one queue only, or WAITING in none.
pub begin_twai_sem_cases :
    (k : Kernel) (c sem_id i ticks : ℕ)
    → Runs k c
    → Names k.sems sem_id i
    → (ticks == 0) ≡ false
    → TimedOutcome k c sem_id i ticks (begin_twai_sem k sem_id ticks)
unfolding twai_taken
begin_twai_sem_cases k c sem_id i ticks at sem h =
    let s = k.sems.sems i in
    let r = can_enqueue k.delays (k.tasks.slots c).id in
    elim (Bool-cases (is_positive s.count)) [
      | inl e ↦ inl (
        e,
        begin_twai_sem-taken k c sem_id i ticks at sem h
            ∙ ap (twai_taken k c sem_id ticks) (take-positive k c sem_id i at sem e),
      )
      | inr e ↦ inr (
        e,
        elim (Bool-cases (leb max_tasks s.wait_count)) [
          | inl f ↦ inl (
            leb→le max_tasks s.wait_count f,
            checked k c sem_id i ticks at sem h true e f
                ∙ refused_sem k c sem_id i ticks at sem h r,
          )
          | inr room ↦
              let here = checked k c sem_id i ticks at sem h false e room in
              inr (
                ground arith,
                elim (delay_result-cases r) [
                  | inr d ↦ inl (d, here ∙ refused_delay k c sem_id i ticks at sem h r d)
                  | inl d ↦ inr (d, here ∙ waits_in_both k c sem_id i ticks at sem h room d)
                ],
              )
        ],
      )
    ]
