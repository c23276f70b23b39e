-- ===== src/Semaphore/Ring.antt =====
-- The wait queue seen as a FIFO: the ring operations of kernel/semaphore.c append and take the head.
use native.Mathlib.Decide.{dec_lt}
use itron_rtos.Common.{
  ℕ, zero, suc, ◌+◌, ◌%◌, ◌≤◌, ◌<◌, ◌≡◌, refl, sym, ap, ap₂, ◌∙◌, ◌≢◌, true, false, none, some,
  List, [], ◌∷◌, ◌++◌, arith, Bool-cases, inl, inr, if◌then◌else◌, update, collect, collect-append,
  collect-shift, update_self, update_ne, length, length-collect,
}
use itron_rtos.Task.{max_tasks, Tcb}
use itron_rtos.Semaphore.{Semaphore, ok, overflow, task_error, queue_empty}
use itron_rtos.Semaphore.Fifo
use itron_rtos.Semaphore.WaitQueue.{push, drop_head, enqueue, dequeue, waits_for}

-- The ids that wait, oldest first.
abbrev pub contents : Semaphore → List ℕ
contents s = collect (λ k. s.wait_queue ((s.wait_head + k) % max_tasks)) 0 s.wait_count

pub record RingOk (s : Semaphore) : Type 0 where
  pub head_in : s.wait_head < max_tasks
  pub count_in : s.wait_count ≤ max_tasks
  pub tail_at : s.wait_tail ≡ (s.wait_head + s.wait_count) % max_tasks

pub push-RingOk :
    {s : Semaphore} (task_id : ℕ) → RingOk s → s.wait_count < max_tasks → RingOk (push s task_id)
unfolding push
push-RingOk task_id v room = omega arith

pub drop_head-RingOk : {s : Semaphore} → RingOk s → s.wait_count ≢ 0 → RingOk (drop_head s)
unfolding drop_head
drop_head-RingOk v some_left = omega arith

pub contents-push :
    {s : Semaphore} (task_id : ℕ)
    → RingOk s
    → s.wait_count < max_tasks
    → contents (push s task_id) ≡ contents s ++ task_id ∷ []
unfolding push
contents-push {s} task_id v room = rw e (collect-append _ _ 0 s.wait_count task_id older newest)
  where
    e : s.wait_count + 1 ≡ suc s.wait_count
    e = omega arith

    older :
        (k : ℕ)
        → 0 ≤ k
        → k < 0 + s.wait_count
        → update s.wait_queue s.wait_tail task_id ((s.wait_head + k) % max_tasks)
          ≡ s.wait_queue ((s.wait_head + k) % max_tasks)
    older k lo hi = update_ne s.wait_queue _ _ task_id (omega (arith, v.tail_at, v.head_in))

    newest :
        update s.wait_queue s.wait_tail task_id ((s.wait_head + (0 + s.wait_count)) % max_tasks)
        ≡ task_id
    newest = rw (← place) (update_self s.wait_queue s.wait_tail task_id)
      where
        place : s.wait_tail ≡ (s.wait_head + (0 + s.wait_count)) % max_tasks
        place = omega (arith, v.tail_at)

module _ (s : Semaphore) (n : ℕ) (v : RingOk s) (e : s.wait_count ≡ suc n) where
  read : ℕ → ℕ
  read k = s.wait_queue ((s.wait_head + k) % max_tasks)

  read_after : ℕ → ℕ
  read_after k = update s.wait_queue s.wait_head 0 (((s.wait_head + 1) % max_tasks + k) % max_tasks)

  read_head : read 0 ≡ s.wait_queue s.wait_head
  unfolding read
  read_head = ap s.wait_queue (omega (arith, v.head_in))

  read_next : (k : ℕ) → 0 ≤ k → k < 0 + n → read (k + 1) ≡ read_after k
  unfolding read read_after
  read_next k lo hi =
      ap s.wait_queue (omega arith)
      ∙ sym (update_ne s.wait_queue _ _ 0 (omega (arith, v.head_in, v.count_in)))

  -- Taking the head away takes the oldest id off the list.
  pub contents-drop_head : contents s ≡ s.wait_queue s.wait_head ∷ contents (drop_head s)
  unfolding drop_head collect read read_after
  contents-drop_head =
      ap (collect read 0) e
      ∙ ap₂ ◌∷◌ read_head
          (collect-shift read read_after 0 n read_next ∙ ap (collect read_after 0) (omega arith))

pub length-contents : (s : Semaphore) → length (contents s) ≡ s.wait_count
length-contents s = length-collect _ 0 s.wait_count

pub contents_of_empty : (s : Semaphore) → s.wait_count ≡ 0 → contents s ≡ []
unfolding collect
contents_of_empty s e = ap (collect _ 0) e

pub dequeue-empty : (s : Semaphore) → s.wait_count ≡ 0 → dequeue s ≡ (s, queue_empty, none)
unfolding dequeue
dequeue-empty s e = ground arith

pub dequeue-some :
    (s : Semaphore)
    → s.wait_count ≢ 0
    → dequeue s ≡ (drop_head s, ok, some (s.wait_queue s.wait_head))
unfolding dequeue
dequeue-some s e = ground arith

module _ (sem_id task_id : ℕ) (task : Tcb) (s : Semaphore) where
  enqueue-refused : waits_for sem_id task ≡ false → enqueue sem_id task_id task s ≡ (s, task_error)
  unfolding enqueue
  enqueue-refused e = rw e

  enqueue-full :
      waits_for sem_id task ≡ true
      → max_tasks ≤ s.wait_count
      → enqueue sem_id task_id task s ≡ (s, overflow)
  unfolding enqueue
  enqueue-full e f = rw e (ground arith)

  enqueue-ok :
      waits_for sem_id task ≡ true
      → s.wait_count < max_tasks
      → enqueue sem_id task_id task s ≡ (push s task_id, ok)
  unfolding enqueue
  enqueue-ok e f = rw e (ground arith)

pub enqueue_refines :
    (sem_id task_id : ℕ) (task : Tcb) (s : Semaphore)
    → RingOk s
    → RingOk (enqueue sem_id task_id task s).0
      × ((contents (enqueue sem_id task_id task s).0, (enqueue sem_id task_id task s).1) ≡ (
          if waits_for sem_id task
          then Fifo.push (contents s) task_id
          else (contents s, task_error)))
enqueue_refines sem_id task_id task s v = elim (Bool-cases (waits_for sem_id task)) [
  | inr e ↦ rw (enqueue-refused sem_id task_id task s e, e) (v, refl)
  | inl e ↦ elim (dec_lt s.wait_count max_tasks) [
    | no f ↦
        rw (enqueue-full sem_id task_id task s e (omega arith), e)
          (v, Fifo.push-full (contents s) task_id (omega (arith, length-contents s)))
    | yes f ↦
        rw (enqueue-ok sem_id task_id task s e f, e)
          (
            push-RingOk task_id v f,
            rw (contents-push task_id v f)
                (Fifo.push-room (contents s) task_id (omega (arith, length-contents s))),
          )
  ]
]

-- Dequeueing is `Fifo.pop`, and a ring that is in order stays so.
pub dequeue_refines :
    (s : Semaphore)
    → RingOk s
    → RingOk (dequeue s).0
      × ((contents (dequeue s).0, (dequeue s).1, (dequeue s).2) ≡ Fifo.pop (contents s))
dequeue_refines s v = go s.wait_count refl
  where
    go :
        (n : ℕ)
        → s.wait_count ≡ n
        → RingOk (dequeue s).0
          × ((contents (dequeue s).0, (dequeue s).1, (dequeue s).2) ≡ Fifo.pop (contents s))
    go zero e = rw (dequeue-empty s e) (v, rw (contents_of_empty s e))
    go (suc n) e =
        rw (dequeue-some s (omega arith))
          (drop_head-RingOk v (omega arith), rw (contents-drop_head s n v e))
