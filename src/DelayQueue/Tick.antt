-- ===== src/DelayQueue/Tick.antt =====
-- delay_queue_tick of kernel/delay_queue.c.
use itron_rtos.Common.{
  ℕ, zero, suc, ◌+◌, ◌-◌, true, false, Option, none, some, ltb, if◌then◌else◌, update,
}
use itron_rtos.Task.{TaskTable, is_on_delay, is_on_semaphore_timeout}
use itron_rtos.Task.Lookup.{task_get_by_id, write_slot}
use itron_rtos.Task.Moves.{wake_waiting_on_delay_by_id, wake_waiting_on_sem_timeout_by_id}
use itron_rtos.Semaphore.{SemTable, SemResult}
use itron_rtos.Semaphore
use itron_rtos.Semaphore.WaitQueue.{sem_remove_waiter}
use itron_rtos.DelayQueue.{Entry, DelayQueue, remove_at}

-- The tables that a tick changes besides the queue.
pub record Tables : Type 0 where
  pub tasks : TaskTable
  pub sems : SemTable

-- `after`
abbrev pub after : Entry → ℕ
after e = if ltb 0 e.ticks then e.ticks - 1 else 0

-- task->delay_ticks_remaining = after
unfoldable pub set_remaining : Tables → Option ℕ → ℕ → Tables
set_remaining w none n = w
set_remaining w (some j) n = record w {
  tasks = write_slot w.tasks j (record (w.tasks.slots j) { delay_ticks_remaining = n });
}

-- The wake-up is tried only after the semaphore's wait queue has given the task up.
unfoldable pub wake_timed_out : Tables → ℕ → ℕ → SemTable × SemResult → Tables
wake_timed_out w task_id sem_id (sems, Semaphore.ok) = record {
  tasks = (wake_waiting_on_sem_timeout_by_id w.tasks task_id sem_id).0;
  sems = sems;
}
wake_timed_out w task_id sem_id (sems, _) = record w { sems = sems }

-- What a timeout does to the task in slot `j`, by the reason that it waits for.
unfoldable pub expire : Tables → Option ℕ → Tables
unfolding wake_timed_out
expire w none = w
expire w (some j) =
    let task = w.tasks.slots j in
    if is_on_semaphore_timeout task.wait_reason
    then wake_timed_out w task.id task.wait_sem_id
        (sem_remove_waiter w.sems task.wait_sem_id task.id)
    else if is_on_delay task.wait_reason
    then record w { tasks = (wake_waiting_on_delay_by_id w.tasks task.id).0 }
    else w

-- The part of a round that concerns the tables.
unfoldable pub visit : Tables → Entry → Tables
unfolding set_remaining expire
visit w e =
    let slot = task_get_by_id w.tasks e.task_id in
    let w' = set_remaining w slot (after e) in if ltb 0 (after e) then w' else expire w' slot

-- The local variables of the loop, with what it changes.
pub record Loop : Type 0 where
  pub index : ℕ
  pub expired : ℕ
  pub queue : DelayQueue
  pub tables : Tables

abbrev pub aged : Entry → Entry
aged e = record e { ticks = after e }

unfoldable pub write_aged : DelayQueue → ℕ → DelayQueue
write_aged q index = record q { entries = update q.entries index (aged (q.entries index)) }

-- One round of the loop.
unfoldable pub round : Loop → Loop
unfolding visit write_aged
round l =
    let e = l.queue.entries l.index in
    let queue = write_aged l.queue l.index in
    if ltb 0 (after e)
    then record {
      index = l.index + 1;
      expired = l.expired;
      queue = queue;
      tables = visit l.tables e;
    }
    else record {
      index = l.index;
      expired = l.expired + 1;
      queue = remove_at queue l.index;
      tables = visit l.tables e;
    }

-- while (index < delay_queue_count)
unfoldable pub tick_loop : ℕ → Loop → Option Loop
unfolding round
tick_loop zero l = if ltb l.index l.queue.count then none else some l
tick_loop (suc fuel) l = elim (ltb l.index l.queue.count) [
  | true ↦ tick_loop fuel (round l)
  | false ↦ some l
]

-- delay_queue_tick: each round moves on by one entry or takes one away, so `count` rounds are enough.
unfoldable pub tick : DelayQueue → Tables → Option Loop
unfolding tick_loop
tick q w = tick_loop q.count (record { index = 0; expired = 0; queue = q; tables = w })
