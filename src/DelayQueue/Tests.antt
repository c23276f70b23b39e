-- ===== src/DelayQueue/Tests.antt =====
-- Ticks over a small queue, and the theorems at inputs that they apply to.
use itron_rtos.Common.{
  ℕ, zero, suc, ◌≡◌, refl, some, List, [], ◌∷◌, arith, collect, first_index, update, elem, erase,
}
use itron_rtos.Task.{ready, waiting, WaitReason, on_delay, on_semaphore_timeout, Tcb}
use itron_rtos.Task.Create.{empty_slot}
use itron_rtos.Task.Moves.{settle}
use itron_rtos.Task.Lookup.{task_get_by_id, find_task}
use itron_rtos.Semaphore.{Semaphore, sem_init, sem_get_by_id}
use itron_rtos.Semaphore.Ring.{contents, RingOk}
use itron_rtos.Semaphore.Removal.{SameBut}
use itron_rtos.DelayQueue.{
  Entry, DelayQueue, init, append, enqueue, append_if, can_enqueue, find_index,
}
use itron_rtos.DelayQueue.Tick.{Tables, Loop, tick, visit}
use itron_rtos.DelayQueue.Contents
use itron_rtos.DelayQueue.Ageing.{left, visit_all, expired_in, tick_refines}
use itron_rtos.DelayQueue.Invariant.{
  DelayCall, enqueues, removes, ticks_with, QueueOk, run_delay, run_delays, run_delays-QueueOk,
}
use itron_rtos.DelayQueue.Timeout.{delay_timeout}
use itron_rtos.DelayQueue.SemTimeout.{Queued, sem_timeout}

abbrev waiting_slot : ℕ → WaitReason → ℕ → ℕ → Tcb
waiting_slot id reason sem_id n = record empty_slot {
  id = id;
  state = waiting;
  wait_reason = reason;
  wait_sem_id = sem_id;
  delay_ticks_remaining = n;
}

-- Task 1 waits for a tick, task 2 for a tick or semaphore 1, which task 2 is queued at.
abbrev two_waiters : ℕ → Tcb
two_waiters zero = waiting_slot 1 on_delay 0 1
two_waiters (suc zero) = waiting_slot 2 on_semaphore_timeout 1 1
two_waiters (suc (suc _)) = empty_slot

abbrev waited_for : ℕ → Semaphore
waited_for zero = record {
  id = 1;
  name = 100;
  count = 0;
  max_count = 1;
  wait_queue = update (λ _. 0) 0 2;
  wait_head = 0;
  wait_tail = 1;
  wait_count = 1;
}
waited_for (suc _) = sem_init.sems 0

abbrev tables : Tables
tables = record {
  tasks = record { slots = two_waiters; next_task_id = 3 };
  sems = record { sems = waited_for; next_sem_id = 2 };
}

abbrev delay_entry : Entry
delay_entry = record { task_id = 1; ticks = 1 }

abbrev sem_entry : Entry
sem_entry = record { task_id = 2; ticks = 1 }

abbrev long_entry : Entry
long_entry = record { task_id = 3; ticks = 5 }

abbrev three_entries : DelayQueue
three_entries = record {
  entries = update (update (update (λ _. long_entry) 0 delay_entry) 1 long_entry) 2 sem_entry;
  count = 3;
}

tick_refines_example :
    (out : Loop) × (tick three_entries tables ≡ some out)
    × (Contents.contents out.queue ≡ left (Contents.contents three_entries))
    × (out.tables ≡ visit_all tables (Contents.contents three_entries))
    × (out.expired ≡ expired_in (Contents.contents three_entries))
tick_refines_example = tick_refines three_entries tables

-- Of the three entries, two run out.
two_expired : expired_in (Contents.contents three_entries) ≡ 2
unfolding collect
two_expired = refl

abbrev delay_history : List DelayCall
delay_history =
    enqueues tables.tasks 1 4
    ∷ enqueues tables.tasks 2 1
    ∷ enqueues tables.tasks 1 9
    ∷ ticks_with tables
    ∷ removes tables.tasks 2
    ∷ []

run_delays-QueueOk_example : QueueOk (run_delays delay_history init)
run_delays-QueueOk_example = run_delays-QueueOk delay_history

-- The third call, a second entry for task 1, is refused.
queued_twice :
    (run_delays (enqueues tables.tasks 1 4 ∷ enqueues tables.tasks 1 9 ∷ []) init).count ≡ 1
unfolding run_delays run_delay enqueue append_if append can_enqueue find_index task_get_by_id
    find_task first_index
queued_twice = refl

delay_timeout_example :
    ((i : ℕ)
      → (visit tables delay_entry).tasks.slots i
        ≡ update two_waiters 0 (settle ready (two_waiters 0)) i)
    × ((visit tables delay_entry).sems ≡ tables.sems)
unfolding task_get_by_id find_task first_index
delay_timeout_example = delay_timeout tables delay_entry 0 refl refl refl (omega arith)

task_two-Queued : Queued tables.sems 1 2 0
unfolding sem_get_by_id first_index elem collect
task_two-Queued = record { found_sem = refl; ring = omega arith; listed = refl }

sem_timeout_example :
    ((i : ℕ)
      → (visit tables sem_entry).tasks.slots i
        ≡ update two_waiters 1 (settle ready (two_waiters 1)) i)
    × (contents ((visit tables sem_entry).sems.sems 0) ≡ erase 2 (contents (waited_for 0)))
    × RingOk ((visit tables sem_entry).sems.sems 0)
    × SameBut (waited_for 0) ((visit tables sem_entry).sems.sems 0)
    × ((i : ℕ)
        → (visit tables sem_entry).sems.sems i
          ≡ update waited_for 0 ((visit tables sem_entry).sems.sems 0) i)
unfolding task_get_by_id find_task first_index
sem_timeout_example = sem_timeout tables sem_entry 1 0 refl refl refl (omega arith) task_two-Queued
