-- ===== src/Api/Tests.antt =====
-- Calls of the API on a small kernel.
use itron_rtos.Common.{ℕ, zero, suc, ◌≡◌, refl, some, arith, rank, first_index, update}
use itron_rtos.Task.{
  TaskState, dormant, running, waiting, WaitReason, no_reason, on_semaphore, on_sleep, Tcb,
  is_dormant,
}
use itron_rtos.Task.Create.{empty_slot}
use itron_rtos.Task.Lookup.{find_task, task_get_by_id, change_task, change_slot}
use itron_rtos.Task.Moves.{start_dormant, wake_waiting_on_sem_by_id}
use itron_rtos.Semaphore.{Semaphore, sem_init, sem_get_by_id}
use itron_rtos.Semaphore.WaitQueue.{sem_dequeue_waiter}
use itron_rtos.Pending.{task_start, task_wakeup, request_from_task_start}
use itron_rtos.Kernel.{Kernel, kernel_init}
use itron_rtos.Api.{e_ok, sta_tsk, wup_tsk, sig_sem}
use itron_rtos.Api.Readying.{ReadiesOrNot, sleeps, sta_tsk-ReadiesOrNot, wup_tsk-ReadiesOrNot}
use itron_rtos.Api.Signal.{Signalled, sig_sem-Signalled}

abbrev slot_in : ℕ → TaskState → WaitReason → ℕ → ℕ → Tcb
slot_in id state why sem_id priority = record empty_slot {
  id = id;
  state = state;
  wait_reason = why;
  wait_sem_id = sem_id;
  priority = priority;
}

-- Task 1 runs, task 2 is DORMANT, task 3 sleeps, and task 4 waits for semaphore 1.
abbrev four_slots : ℕ → Tcb
four_slots zero = slot_in 1 running no_reason 0 5
four_slots (suc zero) = slot_in 2 dormant no_reason 0 3
four_slots (suc (suc zero)) = slot_in 3 waiting on_sleep 0 7
four_slots (suc (suc (suc zero))) = slot_in 4 waiting on_semaphore 1 2
four_slots (suc (suc (suc (suc _)))) = empty_slot

abbrev one_semaphore : ℕ → Semaphore
one_semaphore zero = record {
  id = 1;
  name = 100;
  count = 0;
  max_count = 1;
  wait_queue = update (λ _. 0) 0 4;
  wait_head = 0;
  wait_tail = 1;
  wait_count = 1;
}
one_semaphore (suc _) = sem_init.sems 0

abbrev small_kernel : Kernel
small_kernel = record kernel_init {
  tasks = record { slots = four_slots; next_task_id = 5 };
  sems = record { sems = one_semaphore; next_sem_id = 2 };
  current = some 0;
}

sta_tsk-ReadiesOrNot_example :
    ReadiesOrNot small_kernel task_start (λ s. is_dormant s.state) 2 (sta_tsk small_kernel 2)
sta_tsk-ReadiesOrNot_example = sta_tsk-ReadiesOrNot small_kernel 2

wup_tsk-ReadiesOrNot_example :
    ReadiesOrNot small_kernel task_wakeup sleeps 3 (wup_tsk small_kernel 3)
wup_tsk-ReadiesOrNot_example = wup_tsk-ReadiesOrNot small_kernel 3

-- Task 2, once started, is to be dispatched: it has the smaller priority value.
start_requests : (sta_tsk small_kernel 2).0.pending.candidate_id ≡ 2
unfolding sta_tsk start_dormant find_task task_get_by_id change_task change_slot first_index rank
    request_from_task_start
start_requests = refl

signal_ok : (sig_sem small_kernel 1).1 ≡ e_ok
unfolding sig_sem sem_get_by_id sem_dequeue_waiter wake_waiting_on_sem_by_id find_task
    task_get_by_id change_task change_slot first_index rank
signal_ok = refl

sig_sem-Signalled_example : Signalled small_kernel 0 (sig_sem small_kernel 1).0
unfolding sem_get_by_id first_index
sig_sem-Signalled_example = sig_sem-Signalled small_kernel 1 0 refl (omega arith) signal_ok
