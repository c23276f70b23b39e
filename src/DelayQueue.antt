-- ===== src/DelayQueue.antt =====
-- The queue of kernel/delay_queue.c: a fixed array of entries, in use from the front.
pub mod Tick
pub mod Contents
pub mod Ageing
pub mod Entries
pub mod Timeout
pub mod SemTimeout
pub mod Invariant
mod Tests
use itron_rtos.Common.{
  ℕ, zero, suc, ◌+◌, ◌-◌, Bool, not, ◌&&◌, ◌||◌, Option, none, some, ◌==◌, leb, ltb, if◌then◌else◌,
  is_positive, first_index, update,
}
use itron_rtos.Task.{TaskTable, Tcb, max_tasks, is_waiting, is_on_delay, is_on_semaphore_timeout}
use itron_rtos.Task.Lookup.{task_get_by_id}

-- delay_queue_entry_t
pub record Entry : Type 0 where
  pub task_id : ℕ
  pub ticks : ℕ

-- `delay_queue_entries` and `delay_queue_count`, which stays between 0 and `max_tasks`
pub record DelayQueue : Type 0 where
  pub entries : ℕ → Entry
  pub count : ℕ

-- DELAY_QUEUE_OK and DELAY_QUEUE_ERR_*
pub data DelayResult : Type 0 where
  ok inval full duplicate task_state : DelayResult

abbrev pub no_entry : Entry
no_entry = record { task_id = 0; ticks = 0 }

-- delay_queue_init
abbrev pub init : DelayQueue
init = record { entries = λ _. no_entry; count = 0 }

-- delay_queue_find_index_by_task_id; `none` is -1
unfoldable pub find_index : DelayQueue → ℕ → Option ℕ
find_index q task_id = first_index (λ i. (q.entries i).task_id == task_id) 0 q.count

-- delay_queue_can_enqueue
unfoldable pub can_enqueue : DelayQueue → ℕ → DelayResult
can_enqueue q task_id =
    if is_positive task_id
    then elim (find_index q task_id) [
      | some _ ↦ duplicate
      | none ↦ if leb max_tasks q.count then full else ok
    ]
    else inval

-- The writes that append an entry.
unfoldable pub append : DelayQueue → Entry → DelayQueue
append q e = record { entries = update q.entries q.count e; count = q.count + 1 }

abbrev pub waits_for_ticks : Tcb → Bool
waits_for_ticks s =
    is_waiting s.state && (is_on_delay s.wait_reason || is_on_semaphore_timeout s.wait_reason)

unfoldable pub append_if : DelayQueue → Entry → DelayResult → DelayQueue × DelayResult
append_if q e ok = (append q e, ok)
append_if q e inval = (q, inval)
append_if q e full = (q, full)
append_if q e duplicate = (q, duplicate)
append_if q e task_state = (q, task_state)

-- delay_queue_enqueue
unfoldable pub enqueue : DelayQueue → TaskTable → ℕ → ℕ → DelayQueue × DelayResult
unfolding append_if
enqueue q tasks task_id ticks = elim (task_get_by_id tasks task_id) [
  | none ↦ (q, inval)
  | some j ↦
      if ticks == 0
      then (q, inval)
      else if waits_for_ticks (tasks.slots j)
      then append_if q (record { task_id = task_id; ticks = ticks }) (can_enqueue q task_id)
      else (q, task_state)
]

-- The loop of delay_queue_remove_at from `index` on, with `n` rounds left.
unfoldable pub shift_loop : ℕ → ℕ → (ℕ → Entry) → ℕ → Entry
shift_loop index zero entries = entries
shift_loop index (suc n) entries =
    shift_loop (index + 1) n (update entries index (entries (index + 1)))

-- delay_queue_remove_at
unfoldable pub remove_at : DelayQueue → ℕ → DelayQueue
remove_at q index =
    let shifted = shift_loop index (q.count - 1 - index) q.entries in
    if ltb 0 q.count
    then record { entries = update shifted (q.count - 1) no_entry; count = q.count - 1 }
    else record { entries = shifted; count = q.count }

unfoldable pub remove_found : DelayQueue → Option ℕ → DelayQueue × DelayResult
remove_found q none = (q, inval)
remove_found q (some index) = (remove_at q index, ok)

-- delay_queue_remove_sem_timeout_waiter
unfoldable pub remove_sem_timeout_waiter : DelayQueue → TaskTable → ℕ → DelayQueue × DelayResult
unfolding remove_found
remove_sem_timeout_waiter q tasks task_id = elim (task_get_by_id tasks task_id) [
  | none ↦ (q, inval)
  | some j ↦
      if is_waiting (tasks.slots j).state && is_on_semaphore_timeout (tasks.slots j).wait_reason
      then remove_found q (find_index q task_id)
      else (q, task_state)
]
