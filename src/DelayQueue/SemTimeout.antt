-- ===== src/DelayQueue/SemTimeout.antt =====
-- What delay_queue_tick does to a task whose timed wait for a semaphore has run out.
use itron_rtos.Common.{
  ℕ, ◌≤◌, ◌≡◌, refl, sym, subst, ap, ◌∙◌, true, some, arith, Bool-cases, inl, inr, update,
  update_self, is_positive, elem, erase, List,
}
use itron_rtos.Task.{TaskTable, TaskResult, Tcb, ready, waiting, on_semaphore_timeout}
use itron_rtos.Task.Lookup.{
  task_get_by_id, task_get_by_id-found, change_task-ok, find_task, find_task-id, write_slot,
}
use itron_rtos.Task.Moves.{settle, wake_waiting_on_sem_timeout_by_id}
use itron_rtos.Semaphore.{Semaphore, SemTable, SemResult, sem_get_by_id, write_sem}
use itron_rtos.Semaphore
use itron_rtos.Semaphore.Count.{at_sem}
use itron_rtos.Semaphore.WaitQueue.{sem_remove_waiter, remove}
use itron_rtos.Semaphore.Ring.{RingOk, contents}
use itron_rtos.Semaphore.Removal.{remove_refines, SameBut, remove-SameBut}
use itron_rtos.DelayQueue.{Entry}
use itron_rtos.DelayQueue.Tick.{Tables, set_remaining, wake_timed_out, expire, visit}
use itron_rtos.DelayQueue.Timeout.{
  sems-set_remaining, set_remaining-at, settled, expire-sem, visit-over, Due, set_remaining-Due,
}

wake_sem_timeout-ok :
    (t : TaskTable) (a sem_id j : ℕ)
    → is_positive a ≡ true
    → is_positive sem_id ≡ true
    → find_task t a ≡ some j
    → (t.slots j).state ≡ waiting
    → (t.slots j).wait_reason ≡ on_semaphore_timeout
    → (t.slots j).wait_sem_id ≡ sem_id
    → (wake_waiting_on_sem_timeout_by_id t a sem_id).0 ≡ write_slot t j (settle ready (t.slots j))
unfolding wake_waiting_on_sem_timeout_by_id
wake_sem_timeout-ok t a sem_id j pos sem_pos found state reason sem =
    rw (pos, sem_pos)
      (ap (λ (r : TaskTable × TaskResult). r.0)
        (change_task-ok t a j _ (settle ready) found (rw (state, reason) (ground (arith, sem)))))

-- The semaphore is found and the task is in its wait queue.
pub record Queued (t : SemTable) (sem_id task_id k : ℕ) : Type 0 where
  pub found_sem : sem_get_by_id t sem_id ≡ some k
  pub ring : RingOk (t.sems k)
  pub listed : elem task_id (contents (t.sems k)) ≡ true

module _ (t : SemTable) (sem_id task_id k : ℕ) (q : Queued t sem_id task_id k) where
  listed-remove :
      (contents (remove task_id (t.sems k)).0 ≡ erase task_id (contents (t.sems k)))
      × ((remove task_id (t.sems k)).1 ≡ Semaphore.ok)
      × RingOk (remove task_id (t.sems k)).0
  listed-remove =
      let (ring, h) = remove_refines task_id (t.sems k) q.ring in
      let h' = rw q.listed at (h) in
      (ap (λ (r : List ℕ × SemResult). r.0) h', ap (λ (r : List ℕ × SemResult). r.1) h', ring)

  sem_positive : is_positive sem_id ≡ true
  unfolding sem_get_by_id
  sem_positive = elim (Bool-cases (is_positive sem_id)) [
    | inl e ↦ e
    | inr e ↦ absurd (ground (arith, q.found_sem))
  ]

  sem_remove_waiter-ok :
      is_positive task_id ≡ true
      → sem_remove_waiter t sem_id task_id
        ≡ (write_sem t k (remove task_id (t.sems k)).0, Semaphore.ok)
  unfolding sem_remove_waiter at_sem
  sem_remove_waiter-ok pos =
      rw (pos, q.found_sem)
        (ap (λ (r : SemResult). (write_sem t k (remove task_id (t.sems k)).0, r)) listed-remove.1)

expire-listed :
    (v : Tables) (j k : ℕ)
    → Due v j
    → (v.tasks.slots j).wait_reason ≡ on_semaphore_timeout
    → Queued v.sems (v.tasks.slots j).wait_sem_id (v.tasks.slots j).id k
    → expire v (some j) ≡ record {
      tasks = write_slot v.tasks j (settle ready (v.tasks.slots j));
      sems = write_sem v.sems k (remove (v.tasks.slots j).id (v.sems.sems k)).0;
    }
unfolding wake_timed_out
expire-listed v j k due reason q =
    let sem_id = (v.tasks.slots j).wait_sem_id in
    let task_id = (v.tasks.slots j).id in
    let woken : TaskTable → Tables =
      λ t. record { tasks = t; sems = write_sem v.sems k (remove task_id (v.sems.sems k)).0 } in
    expire-sem v j reason
    ∙ ap (wake_timed_out v task_id sem_id)
        (sem_remove_waiter-ok v.sems sem_id task_id k q due.positive)
    ∙ ap woken (
        wake_sem_timeout-ok v.tasks task_id sem_id j due.positive
          (sem_positive v.sems sem_id task_id k q) due.found due.waits reason refl)

-- When the last tick of a timed wait for a semaphore is over, the task becomes READY with its wait
-- cleared and leaves the wait queue of that semaphore, in which the others keep their order and whose
-- ring stays in order; the semaphore's id, name, count and max_count are as before, and no other task
-- and no other semaphore changes. The task is the one found under the entry's id, and is
-- in that queue.
pub sem_timeout :
    (w : Tables) (e : Entry) (j k : ℕ)
    → task_get_by_id w.tasks e.task_id ≡ some j
    → (w.tasks.slots j).state ≡ waiting
    → (w.tasks.slots j).wait_reason ≡ on_semaphore_timeout
    → e.ticks ≤ 1
    → Queued w.sems (w.tasks.slots j).wait_sem_id e.task_id k
    → ((i : ℕ)
        → (visit w e).tasks.slots i ≡ update w.tasks.slots j (settle ready (w.tasks.slots j)) i)
      × (contents ((visit w e).sems.sems k) ≡ erase e.task_id (contents (w.sems.sems k)))
      × RingOk ((visit w e).sems.sems k)
      × SameBut (w.sems.sems k) ((visit w e).sems.sems k)
      × ((i : ℕ) → (visit w e).sems.sems i ≡ update w.sems.sems k ((visit w e).sems.sems k) i)
sem_timeout w e j k found state reason last queued =
    let v = set_remaining w (some j) 0 in
    let due = set_remaining-Due w e.task_id j found state in
    let (_, at_j) = task_get_by_id-found w.tasks e.task_id j found in
    let same = (find_task-id w.tasks e.task_id j at_j).0 in
    let listed = listed-remove w.sems (w.tasks.slots j).wait_sem_id e.task_id k queued in
    let reason' : (v.tasks.slots j).wait_reason ≡ on_semaphore_timeout =
      ap (λ (s : Tcb). s.wait_reason) (set_remaining-at w j 0) ∙ reason in
    let queued' : Queued v.sems (v.tasks.slots j).wait_sem_id (v.tasks.slots j).id k =
      rw (set_remaining-at w j 0, sems-set_remaining w j 0, same) queued in
    let id_e : (v.tasks.slots j).id ≡ e.task_id = rw (set_remaining-at w j 0) same in
    let all = visit-over w e j found last ∙ expire-listed v j k due reason' queued' in
    let here : Semaphore = (remove (v.tasks.slots j).id (v.sems.sems k)).0 in
    let removed : contents here ≡ erase e.task_id (contents (w.sems.sems k)) =
      rw (id_e, sems-set_remaining w j 0) listed.0 in
    let ring : RingOk here = rw (id_e, sems-set_remaining w j 0) listed.2 in
    let kept : SameBut (w.sems.sems k) here =
      rw (sems-set_remaining w j 0) (remove-SameBut (v.tasks.slots j).id (w.sems.sems k)) in
    let at_k : update v.sems.sems k here k ≡ here = update_self v.sems.sems k here in
    rw all (
      settled w j 0,
      ap contents at_k ∙ removed,
      subst RingOk (sym at_k) ring,
      subst (SameBut (w.sems.sems k)) (sym at_k) kept,
      λ i.
          ap (λ (x : Semaphore). update v.sems.sems k x i) (sym at_k)
          ∙ ap (λ (t : SemTable). update t.sems k (update v.sems.sems k here k) i)
              (sems-set_remaining w j 0),
    )
