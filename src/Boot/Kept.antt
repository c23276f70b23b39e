-- ===== src/Boot/Kept.antt =====
-- What the boot sequence of kernel/kernel.c keeps of the semaphores, the delay queue and the request.
pub mod Observe
pub mod Calls
pub mod Sleep
pub mod Main
use itron_rtos.Common.{
  ℕ, refl, inl, inr, Bool, true, false, not, ◌||◌, ◌&&◌, Option, none, some, [], ◌∷◌, List,
  Bool-cases, Option-cases, ◌==◌, Control, AfterReturn, AfterReturn->>=, comes_back, ◌>>=◌,
  is_nonneg, is_positive,
}
use itron_rtos.Task
use itron_rtos.Task.{TaskTable, TaskResult}
use itron_rtos.Semaphore
use itron_rtos.Semaphore.{SemTable, SemResult}
use itron_rtos.Semaphore.Bounds.{AllSemsOk, sem_init-AllSemsOk}
use itron_rtos.DelayQueue
use itron_rtos.DelayQueue.{DelayQueue, DelayResult}
use itron_rtos.DelayQueue.Invariant.{QueueOk, enqueue-QueueOk}
use itron_rtos.Kernel.{Kernel, timer_tick}
use itron_rtos.Api.Invariant.{KernelOk}
use itron_rtos.Api.History.{creates_sem, run_kernel_call, run_kernel_call-KernelOk}
use itron_rtos.Context.{Platform, Machine}
use itron_rtos.Dispatcher
use itron_rtos.Dispatcher.{DispatchResult, commit_marked, commit_current}
use itron_rtos.Blocking.Kept.{wait-AllSemsOk}
use itron_rtos.Boot.{
  BootTask, BootSem, Image, register, create_sem, and_then, go_on, commit, commit_id,
  commit_registered,
}

commit_marked-KernelOk :
    (k : Kernel) (i : ℕ) (t : TaskTable) (r : TaskResult)
    → KernelOk k
    → KernelOk (commit_marked k i (t, r)).0
unfolding commit_marked
commit_marked-KernelOk k i t Task.ok v = v
commit_marked-KernelOk k i t Task.full v = v
commit_marked-KernelOk k i t Task.inval v = v
commit_marked-KernelOk k i t Task.id_overflow v = v
commit_marked-KernelOk k i t Task.not_found v = v
commit_marked-KernelOk k i t Task.bad_state v = v

pub commit_current-KernelOk :
    (k : Kernel) (o : Option ℕ) → KernelOk k → KernelOk (commit_current k o).0
unfolding commit_current
commit_current-KernelOk k none v = v
commit_current-KernelOk k (some i) v = elim (Bool-cases (Task.is_ready (k.tasks.slots i).state)) [
  | inl e ↦ rw (commit_current, e) (commit_marked-KernelOk k i _ _ v)
  | inr e ↦ rw (commit_current, e) v
]

pub commit_id-KernelOk : (k : Kernel) (task_id : ℕ) → KernelOk k → KernelOk (commit_id k task_id).0
unfolding commit_id commit
commit_id-KernelOk k task_id v = commit_current-KernelOk k _ v

pub commit_registered-KernelOk :
    (k : Kernel) (task_id : ℕ) → KernelOk k → KernelOk (commit_registered (k, task_id)).0
unfolding commit_registered
commit_registered-KernelOk k task_id v = elim (Bool-cases (is_positive task_id)) [
  | inl e ↦ rw (commit_registered, e) (commit_id-KernelOk k task_id v)
  | inr e ↦ rw (commit_registered, e) v
]

pub create_sem-KernelOk :
    (im : Image) (s : BootSem) (initial_count max_count : ℕ) (k : Kernel)
    → KernelOk k
    → KernelOk (create_sem im s initial_count max_count k).0
unfolding create_sem run_kernel_call
create_sem-KernelOk im s initial_count max_count k v =
    run_kernel_call-KernelOk
      (creates_sem
        (record { name = im.sem_name s; initial_count = initial_count; max_count = max_count }))
      k v

pub and_then-KernelOk :
    (r : Kernel × Bool) (f : Kernel → Kernel)
    → KernelOk r.0
    → ((k : Kernel) → KernelOk k → KernelOk (f k))
    → KernelOk (and_then r f)
and_then-KernelOk (k, true) f v h = h k v
and_then-KernelOk (k, false) f v h = v

pub go_on-KernelOk :
    (m : Machine) (r : Kernel × Bool) (f : Machine → Control Machine)
    → KernelOk r.0
    → ((m' : Machine) → KernelOk m'.kernel → AfterReturn (λ a. KernelOk a.kernel) (f m'))
    → AfterReturn (λ a. KernelOk a.kernel) (go_on m r f)
go_on-KernelOk m (k, true) f v h = h (record m { kernel = k }) v
go_on-KernelOk m (k, false) f v h = v

pub register-KernelOk :
    (im : Image) (b : BootTask) (priority : ℕ) (k : Kernel)
    → KernelOk k
    → KernelOk (register im b priority k).0
unfolding register
register-KernelOk im b priority k v = v

pub registered-KernelOk :
    (im : Image) (b : BootTask) (priority : ℕ) (k : Kernel)
    → KernelOk k
    → KernelOk (commit_registered (register im b priority k)).0
registered-KernelOk im b priority k v =
    let (k', task_id) = register im b priority k in
    commit_registered-KernelOk k' task_id (register-KernelOk im b priority k v)
