-- ===== src/Boot.antt =====
-- kernel/kernel.c: the tasks and semaphores of the boot sequence, and the steps that its parts share.
pub mod Observe
pub mod Calls
pub mod Main
pub mod Kept
pub mod Restores
mod Tests
use itron_rtos.Common.{
  ℕ, ◌-◌, ◌^◌, Bool, true, false, Option, none, some, Control, comes_back, if◌then◌else◌,
  is_positive,
}
use itron_rtos.Task
use itron_rtos.Task.{TaskResult, Registration, registered, refused}
use itron_rtos.Task.Lookup.{task_get_by_id}
use itron_rtos.Task.Create.{TaskSpec, task_register}
use itron_rtos.Semaphore
use itron_rtos.Semaphore.{SemResult, SemSpec, Creation, sem_create}
use itron_rtos.Kernel.{Kernel}
use itron_rtos.Context.{Machine}
use itron_rtos.Dispatcher
use itron_rtos.Dispatcher.{DispatchResult, commit_current}

-- The tasks, each with its entry function, its name and its stack.
pub data BootTask : Type 0 where
  task_a task_b task_c task_yield_from task_yield_to task_wai_sem_from task_wai_sem_to task_dly_from
        task_dly_to task_twai_from task_twai_to task_tick_delay task_tick_twai task_tick_current
        task_api_current task_api_created task_high task_sleep_current task_sleep_next
        task_sleep_waker task_sleep_sem_wait task_sleep_delay_wait task_sleep_twai_wait :
      BootTask

-- The names of the semaphores.
pub data BootSem : Type 0 where
  sem_a sem_pol sem_twai sem_tick_timeout : BootSem

-- Where the linker puts the strings, the entry functions and the stacks.
pub record Image : Type 0 where
  pub name : BootTask → ℕ
  pub entry : BootTask → ℕ
  pub stack : BootTask → ℕ
  pub sem_name : BootSem → ℕ

-- TASK_STACK_SIZE
abbrev pub task_stack_size : ℕ
task_stack_size = 1024

abbrev pub spec_of : Image → BootTask → ℕ → TaskSpec
spec_of im b priority = record {
  name = im.name b;
  entry = im.entry b;
  priority = priority;
  stack_base = im.stack b;
  stack_size = task_stack_size;
}

-- A negative `int`.
abbrev pub negative : ℕ → ℕ
negative n = 2 ^ 32 - n

-- TASK_ERR_*
abbrev pub task_code : TaskResult → ℕ
task_code Task.ok = 0
task_code Task.full = negative 1
task_code Task.inval = negative 2
task_code Task.id_overflow = negative 3
task_code Task.not_found = negative 4
task_code Task.bad_state = negative 5

abbrev pub int_of_registration : Registration → ℕ
int_of_registration (registered task_id) = task_id
int_of_registration (refused e) = task_code e

-- task_register, with the `int` that it returns
unfoldable pub register : Image → BootTask → ℕ → Kernel → Kernel × ℕ
register im b priority k =
    let (tasks, r) = task_register k.tasks (spec_of im b priority) in
    (record k { tasks = tasks }, int_of_registration r)

-- SEM_OK, SEM_ERR_* and the two positive codes
abbrev pub sem_code : SemResult → ℕ
sem_code Semaphore.ok = 0
sem_code Semaphore.full = negative 1
sem_code Semaphore.inval = negative 2
sem_code Semaphore.overflow = negative 4
sem_code Semaphore.task_error = negative 5
sem_code Semaphore.queue_empty = 2
sem_code Semaphore.wait_required = 1

abbrev pub int_of_creation : Creation → ℕ
int_of_creation (Semaphore.created sem_id) = sem_id
int_of_creation (Semaphore.refused e) = sem_code e

-- sem_create, with the `int` that it returns
unfoldable pub create_sem : Image → BootSem → ℕ → ℕ → Kernel → Kernel × ℕ
create_sem im s initial_count max_count k =
    let (sems, r) =
      sem_create k.sems
        (record { name = im.sem_name s; initial_count = initial_count; max_count = max_count }) in
    (record k { sems = sems }, int_of_creation r)

-- Whether a call has returned 0; the boot sequence goes on only then.
abbrev pub succeeded : DispatchResult → Bool
succeeded Dispatcher.ok = true
succeeded _ = false

abbrev pub and_then : Kernel × Bool → (Kernel → Kernel) → Kernel
and_then (k, true) f = f k
and_then (k, false) f = k

abbrev pub go_on : Machine → Kernel × Bool → (Machine → Control Machine) → Control Machine
go_on m (k, true) f = f (record m { kernel = k })
go_on m (k, false) f = comes_back (record m { kernel = k })

-- dispatcher_commit_current, and whether it has succeeded
unfoldable pub commit : Kernel → Option ℕ → Kernel × Bool
commit k o = let (k', r) = commit_current k o in (k', succeeded r)

-- dispatcher_commit_current(task_get_by_id(task_id))
unfoldable pub commit_id : Kernel → ℕ → Kernel × Bool
unfolding commit
commit_id k task_id = commit k (task_get_by_id k.tasks task_id)

-- The commit of a task that has just been registered, where it has an id.
unfoldable pub commit_registered : Kernel × ℕ → Kernel × Bool
unfolding commit_id
commit_registered (k, task_id) = if is_positive task_id then commit_id k task_id else (k, false)
