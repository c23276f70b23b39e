-- ===== src/Semaphore/WaitQueue.antt =====
-- The wait queue of a semaphore in kernel/semaphore.c: a ring of task ids.
use itron_rtos.Common.{
  ℕ, zero, suc, ◌+◌, ◌-◌, ◌%◌, Bool, true, false, not, ◌&&◌, ◌||◌, Option, none, some, ◌==◌, leb,
  if◌then◌else◌, is_positive, update,
}
use itron_rtos.Task.{
  TaskTable, Tcb, max_tasks, is_waiting, is_on_semaphore, is_on_semaphore_timeout,
}
use itron_rtos.Task.Lookup.{task_get_by_id}
use itron_rtos.Semaphore.{
  Semaphore, SemTable, SemResult, ok, inval, overflow, task_error, queue_empty, sem_get_by_id,
  write_sem,
}
use itron_rtos.Semaphore.Count.{at_sem}

-- The three writes that append, and those that take the head away.
unfoldable pub push : Semaphore → ℕ → Semaphore
push s task_id = record s {
  wait_queue = update s.wait_queue s.wait_tail task_id;
  wait_tail = (s.wait_tail + 1) % max_tasks;
  wait_count = s.wait_count + 1;
}

unfoldable pub drop_head : Semaphore → Semaphore
drop_head s = record s {
  wait_queue = update s.wait_queue s.wait_head 0;
  wait_head = (s.wait_head + 1) % max_tasks;
  wait_count = s.wait_count - 1;
}

-- sem_can_enqueue_waiter
unfoldable pub sem_can_enqueue_waiter : SemTable → ℕ → ℕ → SemResult
sem_can_enqueue_waiter t sem_id task_id = elim (sem_get_by_id t sem_id) [
  | none ↦ inval
  | some i ↦
      if not (is_positive task_id)
      then inval
      else if leb max_tasks (t.sems i).wait_count
      then overflow
      else ok
]

-- The task waits for this semaphore.
abbrev pub waits_for : ℕ → Tcb → Bool
waits_for sem_id s =
    is_waiting s.state
    && ((is_on_semaphore s.wait_reason || is_on_semaphore_timeout s.wait_reason)
        && s.wait_sem_id == sem_id)

-- The part of sem_enqueue_waiter behind the two lookups.
unfoldable pub enqueue : ℕ → ℕ → Tcb → Semaphore → Semaphore × SemResult
enqueue sem_id task_id task s =
    if waits_for sem_id task
    then if leb max_tasks s.wait_count then (s, overflow) else (push s task_id, ok)
    else (s, task_error)

-- sem_enqueue_waiter; task_get_by_id finds no task for an id that is not positive.
unfoldable pub sem_enqueue_waiter : SemTable → TaskTable → ℕ → ℕ → SemTable × SemResult
unfolding at_sem enqueue push
sem_enqueue_waiter t tasks sem_id task_id = elim (task_get_by_id tasks task_id) [
  | none ↦ (t, inval)
  | some j ↦ at_sem t (enqueue sem_id task_id (tasks.slots j)) (sem_get_by_id t sem_id)
]

-- The part of sem_dequeue_waiter behind the lookup, with the id that it stores.
unfoldable pub dequeue : Semaphore → Semaphore × SemResult × Option ℕ
dequeue s =
    if s.wait_count == 0
    then (s, queue_empty, none)
    else (drop_head s, ok, some (s.wait_queue s.wait_head))

-- sem_dequeue_waiter
unfoldable pub sem_dequeue_waiter : SemTable → ℕ → SemTable × SemResult × Option ℕ
unfolding dequeue drop_head
sem_dequeue_waiter t sem_id = elim (sem_get_by_id t sem_id) [
  | none ↦ (t, inval, none)
  | some i ↦ let (s, r, task_id) = dequeue (t.sems i) in (write_sem t i s, r, task_id)
]

-- The local variables of the first loop of sem_remove_waiter.
pub record Kept : Type 0 where
  pub queue : ℕ → ℕ
  pub kept_count : ℕ
  pub removed : Bool

-- One round of that loop, on the id that it reads.
unfoldable pub keep : ℕ → ℕ → Kept → Kept
keep task_id queued k =
    if not k.removed && queued == task_id
    then record k { removed = true }
    else record k { queue = update k.queue k.kept_count queued; kept_count = k.kept_count + 1 }

-- The rounds from `index` on, with `n` left.
unfoldable pub keep_loop : Semaphore → ℕ → ℕ → ℕ → Kept → Kept
keep_loop s task_id index zero k = k
keep_loop s task_id index (suc n) k =
    keep_loop s task_id (index + 1) n
      (keep task_id (s.wait_queue ((s.wait_head + index) % max_tasks)) k)

-- The loop that writes the kept ids back, from `index` on, with `n` left.
unfoldable pub copy_loop : (ℕ → ℕ) → ℕ → ℕ → (ℕ → ℕ) → ℕ → ℕ
copy_loop kept index zero queue = queue
copy_loop kept index (suc n) queue = copy_loop kept (index + 1) n (update queue index (kept index))

unfoldable pub rebuild : Semaphore → Kept → Semaphore
rebuild s k = record s {
  wait_queue = copy_loop k.queue 0 k.kept_count (λ _. 0);
  wait_head = 0;
  wait_tail = k.kept_count % max_tasks;
  wait_count = k.kept_count;
}

unfoldable pub finish_removal : Semaphore → Kept → Semaphore × SemResult
finish_removal s k = if k.removed then (rebuild s k, ok) else (s, queue_empty)

-- The part of sem_remove_waiter behind the lookup. What the local array holds at first is not read.
unfoldable pub remove : ℕ → Semaphore → Semaphore × SemResult
unfolding finish_removal
remove task_id s =
    if s.wait_count == 0
    then (s, queue_empty)
    else finish_removal s (
        keep_loop s task_id 0 s.wait_count
          (record { queue = λ _. 0; kept_count = 0; removed = false }))

-- sem_remove_waiter
unfoldable pub sem_remove_waiter : SemTable → ℕ → ℕ → SemTable × SemResult
unfolding at_sem remove keep_loop keep rebuild copy_loop
sem_remove_waiter t sem_id task_id =
    if is_positive task_id then at_sem t (remove task_id) (sem_get_by_id t sem_id) else (t, inval)
