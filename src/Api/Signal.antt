-- ===== src/Api/Signal.antt =====
-- sig_sem of kernel/itron_api.c, across the semaphore, the delay queue and the task table.
use itron_rtos.Common.{
  ℕ, zero, suc, ◌≡◌, ◌≢◌, inl, inr, refl, sym, ap, ◌∙◌, fun_ext, Option, none, some, List, [], ◌∷◌,
  arith, Bool-cases, Option-cases, int_le, int_succ, ◌==◌, update_self,
}
use itron_rtos.Task.Lookup.{task_get_by_id, task_get_by_id-found}
use itron_rtos.Semaphore
use itron_rtos.Semaphore.{Semaphore, SemTable, SemResult, sem_get_by_id, write_sem}
use itron_rtos.Semaphore.Count.{increment, at_sem, sem_increment_count}
use itron_rtos.Semaphore.WaitQueue.{dequeue, drop_head, sem_dequeue_waiter}
use itron_rtos.Semaphore.Ring.{
  RingOk, contents, contents-drop_head, contents_of_empty, dequeue-empty, dequeue-some,
}
use itron_rtos.Kernel.{Kernel}
use itron_rtos.Api.{Er, e_ok, e_obj, counted, signal_waiter, signal_dequeued, sig_sem}
use itron_rtos.Api.Readying.{readied}
use itron_rtos.Api.Waking.{signal_waiter-Woke}

-- What a successful sig_sem on the semaphore in slot `i` does. Either no task waits and the count
-- goes up by one, or the oldest waiter leaves the queue and becomes READY with the count as it was.
pub data Signalled (k : Kernel) (i : ℕ) (k' : Kernel) : Type 0 where
  counts :
      contents (k.sems.sems i) ≡ []
      → k'.sems.sems i ≡ record (k.sems.sems i) { count = int_succ (k.sems.sems i).count }
      → k'.tasks ≡ k.tasks
      → Signalled k i k'
  wakes :
      (a j : ℕ) (rest : List ℕ)
      → contents (k.sems.sems i) ≡ a ∷ rest
      → contents (k'.sems.sems i) ≡ rest
      → (k'.sems.sems i).count ≡ (k.sems.sems i).count
      → task_get_by_id k.tasks a ≡ some j
      → k'.tasks ≡ readied k.tasks j
      → Signalled k i k'

write_sem-same : (t : SemTable) (i : ℕ) → write_sem t i (t.sems i) ≡ t
write_sem-same t i =
    ap (λ (f : ℕ → Semaphore). write_all f)
      (fun_ext λ j. elim (Bool-cases (i == j)) [ inl e ↦ ground arith | inr e ↦ ground arith ])
  where
    write_all : (ℕ → Semaphore) → SemTable
    write_all f = record t { sems = f }

increment-done :
    (s : Semaphore)
    → (increment s).1 ≡ Semaphore.ok
    → (increment s).0 ≡ record s { count = int_succ s.count }
unfolding increment
increment-done s h = elim (Bool-cases (int_le s.max_count s.count)) [
  | inl e ↦ absurd (cc (rw e at (h)))
  | inr e ↦ rw e refl
]

counted-done :
    (k : Kernel) (sems : SemTable) (r : SemResult)
    → (counted k (sems, r)).1 ≡ e_ok
    → (r ≡ Semaphore.ok) × ((counted k (sems, r)).0 ≡ record k { sems = sems })
unfolding counted
counted-done k sems Semaphore.ok h = (refl, refl)
counted-done k sems Semaphore.full h = cc
counted-done k sems Semaphore.inval h = cc
counted-done k sems Semaphore.overflow h = cc
counted-done k sems Semaphore.task_error h = cc
counted-done k sems Semaphore.queue_empty h = cc
counted-done k sems Semaphore.wait_required h = cc

count-drop_head : (s : Semaphore) → (drop_head s).count ≡ s.count
unfolding drop_head
count-drop_head s = refl

module _ (k : Kernel) (sem_id i : ℕ) (found : sem_get_by_id k.sems sem_id ≡ some i) where
  abbrev here : Semaphore
  here = k.sems.sems i

  dequeued :
      sem_dequeue_waiter k.sems sem_id
      ≡ (write_sem k.sems i (dequeue here).0, (dequeue here).1, (dequeue here).2)
  unfolding sem_dequeue_waiter
  dequeued = rw (sem_dequeue_waiter, found) refl

  sig_sem-dequeued :
      sig_sem k sem_id
      ≡ signal_dequeued k sem_id
          (write_sem k.sems i (dequeue here).0, (dequeue here).1, (dequeue here).2)
  unfolding sig_sem
  sig_sem-dequeued = rw (sig_sem, found) (ap (signal_dequeued k sem_id) dequeued)

  incremented :
      sem_increment_count k.sems sem_id
      ≡ (write_sem k.sems i (increment here).0, (increment here).1)
  unfolding sem_increment_count at_sem
  incremented = rw found refl

  sig_sem-empty :
      here.wait_count ≡ 0
      → sig_sem k sem_id ≡ counted k (write_sem k.sems i (increment here).0, (increment here).1)
  unfolding signal_dequeued
  sig_sem-empty e =
      sig_sem-dequeued
      ∙ ap
          (λ (r : Semaphore × SemResult × Option ℕ).
            signal_dequeued k sem_id (write_sem k.sems i r.0, r.1, r.2))
          (dequeue-empty here e)
      ∙ ap (λ (t : SemTable). counted (record k { sems = t }) (sem_increment_count t sem_id))
          (write_sem-same k.sems i)
      ∙ ap (counted k) incremented

  Signalled-empty :
      here.wait_count ≡ 0 → (sig_sem k sem_id).1 ≡ e_ok → Signalled k i (sig_sem k sem_id).0
  Signalled-empty e h =
      let w = write_sem k.sems i (increment here).0 in
      let (done, now) =
        counted-done k w (increment here).1
          (sym (ap (λ (r : Kernel × Er). r.1) (sig_sem-empty e)) ∙ h) in
      let whole = ap (λ (r : Kernel × Er). r.0) (sig_sem-empty e) ∙ now in
      counts (contents_of_empty here e)
        (ap (λ (k' : Kernel). k'.sems.sems i) whole
          ∙ update_self k.sems.sems i (increment here).0
          ∙ increment-done here done)
        (ap (λ (k' : Kernel). k'.tasks) whole)

  abbrev oldest : ℕ
  oldest = here.wait_queue here.wait_head

  abbrev without_oldest : Kernel
  without_oldest = record k { sems = write_sem k.sems i (drop_head here) }

  sig_sem-some :
      here.wait_count ≢ 0
      → sig_sem k sem_id
        ≡ signal_dequeued k sem_id (write_sem k.sems i (drop_head here), Semaphore.ok, some oldest)
  sig_sem-some ne =
      sig_sem-dequeued
      ∙ ap
          (λ (r : Semaphore × SemResult × Option ℕ).
            signal_dequeued k sem_id (write_sem k.sems i r.0, r.1, r.2))
          (dequeue-some here ne)

  signal_dequeued-none :
      task_get_by_id k.tasks oldest ≡ none
      → signal_dequeued k sem_id (without_oldest.sems, Semaphore.ok, some oldest)
        ≡ (without_oldest, e_obj)
  unfolding signal_dequeued drop_head
  signal_dequeued-none e = rw (signal_dequeued, e) refl

  signal_dequeued-some :
      (j : ℕ)
      → task_get_by_id k.tasks oldest ≡ some j
      → signal_dequeued k sem_id (without_oldest.sems, Semaphore.ok, some oldest)
        ≡ signal_waiter without_oldest sem_id oldest (k.tasks.slots j).wait_reason
  unfolding signal_dequeued
  signal_dequeued-some j e = rw (signal_dequeued, e) refl

  Signalled-some :
      (n : ℕ)
      → here.wait_count ≡ suc n
      → RingOk here
      → (sig_sem k sem_id).1 ≡ e_ok
      → Signalled k i (sig_sem k sem_id).0
  Signalled-some n e ring h = elim (Option-cases (task_get_by_id k.tasks oldest)) [
    | inl missing ↦
        let whole = sig_sem-some (omega arith) ∙ signal_dequeued-none missing in
        absurd (cc (sym (ap (λ (r : Kernel × Er). r.1) whole) ∙ h))
    | inr (j, found_task) ↦
        let whole = sig_sem-some (omega arith) ∙ signal_dequeued-some j found_task in
        let (_, at_j) = task_get_by_id-found k.tasks oldest j found_task in
        let woke =
          signal_waiter-Woke without_oldest sem_id oldest j at_j (k.tasks.slots j).wait_reason
            (sym (ap (λ (r : Kernel × Er). r.1) whole) ∙ h) in
        let sem_now =
          ap (λ (r : Kernel × Er). r.0.sems.sems i) whole
          ∙ ap (λ (t : SemTable). t.sems i) woke.sems_now
          ∙ update_self k.sems.sems i (drop_head here) in
        wakes oldest j (contents (drop_head here)) (contents-drop_head here n ring e)
          (ap contents sem_now) (ap (λ (s : Semaphore). s.count) sem_now ∙ count-drop_head here)
          found_task (ap (λ (r : Kernel × Er). r.0.tasks) whole ∙ woke.tasks_now)
  ]

-- Where sig_sem returns E_OK on a semaphore whose wait queue is in order, either no task waited and
-- the count has gone up by one, or the oldest waiter has left the queue and is READY, while the
-- count is as it was.
pub sig_sem-Signalled :
    (k : Kernel) (sem_id i : ℕ)
    → sem_get_by_id k.sems sem_id ≡ some i
    → RingOk (k.sems.sems i)
    → (sig_sem k sem_id).1 ≡ e_ok
    → Signalled k i (sig_sem k sem_id).0
sig_sem-Signalled k sem_id i found ring h = go (k.sems.sems i).wait_count refl
  where
    go : (n : ℕ) → (k.sems.sems i).wait_count ≡ n → Signalled k i (sig_sem k sem_id).0
    go zero e = Signalled-empty k sem_id i found e h
    go (suc n) e = Signalled-some k sem_id i found n e ring h
