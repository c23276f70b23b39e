-- ===== src/Semaphore/Tests.antt =====
-- Runs of the semaphore table, and the theorems at inputs that they apply to.
use itron_rtos.Common.{◌≡◌, refl, List, [], ◌∷◌, arith, collect, first_index, update, rank}
use itron_rtos.Task.{Tcb, waiting, on_semaphore}
use itron_rtos.Task.Create.{empty_slot, task_init}
use itron_rtos.Semaphore.{
  Semaphore, SemSpec, ok, sem_init, sem_get_by_id, sem_create, find_free_semaphore_slot,
}
use itron_rtos.Semaphore.Count.{sem_take_if_available}
use itron_rtos.Semaphore.WaitQueue.{dequeue, remove, keep_loop, keep, rebuild, copy_loop}
use itron_rtos.Semaphore.Fifo
use itron_rtos.Semaphore.Ring.{contents, RingOk, dequeue_refines}
use itron_rtos.Semaphore.Bounds.{
  SemCall, creates, takes, run_sems, AllSemsOk, run_sems-AllSemsOk, run_sem,
}

-- A ring whose three waiters wrap around the end of the array.
abbrev wrapped : Semaphore
wrapped = record {
  id = 1;
  name = 100;
  count = 0;
  max_count = 2;
  wait_queue = update (update (update (λ _. 0) 254 7) 255 8) 0 9;
  wait_head = 254;
  wait_tail = 1;
  wait_count = 3;
}

wrapped-RingOk : RingOk wrapped
wrapped-RingOk = omega arith

abbrev waiter : Tcb
waiter = record empty_slot { id = 5; state = waiting; wait_reason = on_semaphore; wait_sem_id = 1 }

removed_middle : (contents (remove 8 wrapped).0 ≡ 7 ∷ 9 ∷ []) × ((remove 8 wrapped).1 ≡ ok)
unfolding remove collect keep_loop keep rebuild copy_loop
removed_middle = (refl, refl)

dequeue_refines_example :
    RingOk (dequeue wrapped).0
    × ((contents (dequeue wrapped).0, (dequeue wrapped).1, (dequeue wrapped).2)
        ≡ Fifo.pop (contents wrapped))
dequeue_refines_example = dequeue_refines wrapped wrapped-RingOk

abbrev sem_a : SemSpec
sem_a = record { name = 100; initial_count = 1; max_count = 2 }

abbrev sem_history : List SemCall
sem_history = creates sem_a ∷ takes 1 ∷ takes 1 ∷ []

taken : ((run_sems task_init sem_history sem_init).sems 0).count ≡ 0
unfolding run_sems run_sem sem_create find_free_semaphore_slot sem_take_if_available sem_get_by_id
    first_index rank
taken = refl

run_sems-AllSemsOk_example : AllSemsOk (run_sems task_init sem_history sem_init)
run_sems-AllSemsOk_example = run_sems-AllSemsOk task_init sem_history
