-- ===== src/DelayQueue/Timeout.antt =====
-- What delay_queue_tick does to the task of an entry whose ticks have run out.
use itron_rtos.Common.{
  ℕ, ◌≤◌, ◌≡◌, refl, ap, ◌∙◌, fun_ext, Bool, true, some, arith, ◌==◌, Bool-cases, inl, inr, update,
  update_self, is_positive, first_index,
}
use itron_rtos.Task.{
  TaskTable, TaskResult, Tcb, ready, waiting, on_delay, on_semaphore_timeout, max_tasks,
}
use itron_rtos.Task.Lookup.{
  task_get_by_id, task_get_by_id-found, change_task-ok, find_task, find_task-id, write_slot,
}
use itron_rtos.Task.Moves.{settle, wake_waiting_on_delay_by_id}
use itron_rtos.Semaphore.WaitQueue.{sem_remove_waiter}
use itron_rtos.DelayQueue.{Entry}
use itron_rtos.DelayQueue.Tick.{Tables, after, set_remaining, wake_timed_out, expire, visit}

module _ (w : Tables) (j n : ℕ) where
  -- Lowering the remaining ticks does not move any task.
  find_task-set_remaining :
      (a : ℕ) → find_task (set_remaining w (some j) n).tasks a ≡ find_task w.tasks a
  unfolding find_task set_remaining
  find_task-set_remaining a =
      ap (λ (p : ℕ → Bool). first_index p 0 max_tasks)
        (fun_ext λ i. elim (Bool-cases (j == i)) [ inl e ↦ ground arith | inr e ↦ ground arith ])

  pub set_remaining-at :
      (set_remaining w (some j) n).tasks.slots j
      ≡ record (w.tasks.slots j) { delay_ticks_remaining = n }
  unfolding set_remaining
  set_remaining-at = update_self w.tasks.slots j _

  pub sems-set_remaining : (set_remaining w (some j) n).sems ≡ w.sems
  unfolding set_remaining
  sems-set_remaining = refl

  pub settled :
      (i : ℕ)
      → update
          (set_remaining w (some j) n).tasks.slots
          j
          (settle ready ((set_remaining w (some j) n).tasks.slots j))
          i
        ≡ update w.tasks.slots j (settle ready (w.tasks.slots j)) i
  unfolding set_remaining
  settled i = elim (Bool-cases (j == i)) [
    | inl e ↦ rw e (ap (settle ready) (update_self w.tasks.slots j _))
    | inr e ↦ rw e refl
  ]

module _ (w : Tables) (j : ℕ) where
  expire-delay :
      (w.tasks.slots j).wait_reason ≡ on_delay
      → expire w (some j)
        ≡ record w { tasks = (wake_waiting_on_delay_by_id w.tasks (w.tasks.slots j).id).0 }
  unfolding expire
  expire-delay e = rw e refl

  pub expire-sem :
      (w.tasks.slots j).wait_reason ≡ on_semaphore_timeout
      → expire w (some j)
        ≡ wake_timed_out w
            (w.tasks.slots j).id
            (w.tasks.slots j).wait_sem_id
            (sem_remove_waiter w.sems (w.tasks.slots j).wait_sem_id (w.tasks.slots j).id)
  unfolding expire
  expire-sem e = rw e refl

wake_delay-ok :
    (t : TaskTable) (a j : ℕ)
    → is_positive a ≡ true
    → find_task t a ≡ some j
    → (t.slots j).state ≡ waiting
    → (t.slots j).wait_reason ≡ on_delay
    → (wake_waiting_on_delay_by_id t a).0 ≡ write_slot t j (settle ready (t.slots j))
unfolding wake_waiting_on_delay_by_id
wake_delay-ok t a j pos found state reason = rw pos (
    ap (λ (r : TaskTable × TaskResult). r.0)
      (change_task-ok t a j _ (settle ready) found (rw (state, reason) refl)))

pub visit-over :
    (w : Tables) (e : Entry) (j : ℕ)
    → task_get_by_id w.tasks e.task_id ≡ some j
    → e.ticks ≤ 1
    → visit w e ≡ expire (set_remaining w (some j) 0) (some j)
unfolding visit
visit-over w e j found last = let over : after e ≡ 0 = ground arith in rw (found, over) refl

-- The task of slot `j`, just before its timeout.
pub record Due (w : Tables) (j : ℕ) : Type 0 where
  pub positive : is_positive (w.tasks.slots j).id ≡ true
  pub found : find_task w.tasks (w.tasks.slots j).id ≡ some j
  pub waits : (w.tasks.slots j).state ≡ waiting

pub set_remaining-Due :
    (w : Tables) (a j : ℕ)
    → task_get_by_id w.tasks a ≡ some j
    → (w.tasks.slots j).state ≡ waiting
    → Due (set_remaining w (some j) 0) j
set_remaining-Due w a j found state =
    let (pos, at_j) = task_get_by_id-found w.tasks a j found in
    let same = (find_task-id w.tasks a j at_j).0 in
    record {
      positive = rw (set_remaining-at w j 0, same) pos;
      found = rw (set_remaining-at w j 0, same) (find_task-set_remaining w j 0 a ∙ at_j);
      waits = rw (set_remaining-at w j 0) state;
    }

-- When the last tick of a delay is over, the task that waits for it becomes READY with its wait
-- cleared; no other task and no semaphore changes.
pub delay_timeout :
    (w : Tables) (e : Entry) (j : ℕ)
    → task_get_by_id w.tasks e.task_id ≡ some j
    → (w.tasks.slots j).state ≡ waiting
    → (w.tasks.slots j).wait_reason ≡ on_delay
    → e.ticks ≤ 1
    → ((i : ℕ)
        → (visit w e).tasks.slots i ≡ update w.tasks.slots j (settle ready (w.tasks.slots j)) i)
      × ((visit w e).sems ≡ w.sems)
delay_timeout w e j found state reason last =
    let v = set_remaining w (some j) 0 in
    let due = set_remaining-Due w e.task_id j found state in
    let reason' : (v.tasks.slots j).wait_reason ≡ on_delay =
      ap (λ (s : Tcb). s.wait_reason) (set_remaining-at w j 0) ∙ reason in
    let all =
      visit-over w e j found last
      ∙ expire-delay v j reason'
      ∙ ap (λ (t : TaskTable). record v { tasks = t })
          (wake_delay-ok v.tasks _ j due.positive due.found due.waits reason') in
    rw all (settled w j 0, sems-set_remaining w j 0)
