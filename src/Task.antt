-- ===== src/Task.antt =====
-- The data of kernel/include/task.h and the static table of kernel/task.c.
-- An `int` is its 32-bit pattern, an `unsigned long` and a pointer a number, NULL is 0. A
-- `tcb_t *` that the kernel passes around points into the table, and is the index of the slot.
pub mod Lookup
pub mod Create
pub mod Moves
pub mod Ops
pub mod Outcome
mod Reading
pub mod Atomic
pub mod Lifecycle
pub mod Waits
pub mod Identity
pub mod Overflow
pub mod Running
mod Tests
use itron_rtos.Common.{ℕ, Bool, true, false}

-- task_state_t
pub data TaskState : Type 0 where
  unused dormant ready running waiting : TaskState

abbrev pub is_unused : TaskState → Bool
is_unused unused = true
is_unused _ = false

abbrev pub is_dormant : TaskState → Bool
is_dormant dormant = true
is_dormant _ = false

abbrev pub is_ready : TaskState → Bool
is_ready ready = true
is_ready _ = false

abbrev pub is_running : TaskState → Bool
is_running running = true
is_running _ = false

abbrev pub is_waiting : TaskState → Bool
is_waiting waiting = true
is_waiting _ = false

-- task_wait_reason_t
pub data WaitReason : Type 0 where
  no_reason on_semaphore on_delay on_semaphore_timeout on_sleep : WaitReason

abbrev pub is_on_semaphore : WaitReason → Bool
is_on_semaphore on_semaphore = true
is_on_semaphore _ = false

abbrev pub is_on_delay : WaitReason → Bool
is_on_delay on_delay = true
is_on_delay _ = false

abbrev pub is_on_semaphore_timeout : WaitReason → Bool
is_on_semaphore_timeout on_semaphore_timeout = true
is_on_semaphore_timeout _ = false

abbrev pub is_on_sleep : WaitReason → Bool
is_on_sleep on_sleep = true
is_on_sleep _ = false

-- task_context_t
pub record TaskContext : Type 0 where
  pub rsp : ℕ
  pub rbp : ℕ
  pub rbx : ℕ
  pub r12 : ℕ
  pub r13 : ℕ
  pub r14 : ℕ
  pub r15 : ℕ

-- tcb_t
pub record Tcb : Type 0 where
  pub id : ℕ
  pub name : ℕ
  pub entry : ℕ
  pub priority : ℕ
  pub state : TaskState
  pub wait_sem_id : ℕ
  pub wait_reason : WaitReason
  pub delay_ticks_remaining : ℕ
  pub stack_base : ℕ
  pub stack_size : ℕ
  pub stack_top : ℕ
  pub context : TaskContext

-- MAX_TASKS
abbrev pub max_tasks : ℕ
max_tasks = 256

-- `task_table` and `next_task_id`
pub record TaskTable : Type 0 where
  pub slots : ℕ → Tcb
  pub next_task_id : ℕ

-- What the task functions return: 0, or one of TASK_ERR_*.
pub data TaskResult : Type 0 where
  ok full inval id_overflow not_found bad_state : TaskResult

-- What `task_register` returns: an id, or one of TASK_ERR_*.
pub data Registration : Type 0 where
  registered : ℕ → Registration
  refused : TaskResult → Registration
