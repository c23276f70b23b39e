-- ===== src/Semaphore.antt =====
-- The data of kernel/include/semaphore.h and the table of kernel/semaphore.c: creation and lookup.
pub mod Count
pub mod WaitQueue
pub mod Fifo
pub mod Ring
mod Scan
pub mod Removal
pub mod Bounds
mod Tests
use itron_rtos.Common.{
  ℕ, ◌+◌, Bool, true, false, not, ◌||◌, Option, none, some, ◌==◌, if◌then◌else◌, is_positive,
  is_nonneg, int_max, int_succ, int_le, int_lt, first_index, update,
}
use itron_rtos.Task.{max_tasks}

-- semaphore_t. `wait_head`, `wait_tail` and `wait_count` stay between 0 and `max_tasks`.
pub record Semaphore : Type 0 where
  pub id : ℕ
  pub name : ℕ
  pub count : ℕ
  pub max_count : ℕ
  pub wait_queue : ℕ → ℕ
  pub wait_head : ℕ
  pub wait_tail : ℕ
  pub wait_count : ℕ

-- MAX_SEMAPHORES
abbrev pub max_semaphores : ℕ
max_semaphores = 16

-- `semaphore_table` and `next_sem_id`
pub record SemTable : Type 0 where
  pub sems : ℕ → Semaphore
  pub next_sem_id : ℕ

-- The codes of the semaphore functions: SEM_OK, SEM_ERR_*, SEM_WAIT_QUEUE_EMPTY, SEM_WAIT_REQUIRED.
pub data SemResult : Type 0 where
  ok full inval overflow task_error queue_empty wait_required : SemResult

-- What sem_create returns: an id, or one of SEM_ERR_*.
pub data Creation : Type 0 where
  created : ℕ → Creation
  refused : SemResult → Creation

-- sem_reset_wait_queue
abbrev pub reset_wait_queue : Semaphore → Semaphore
reset_wait_queue s = record s { wait_queue = λ _. 0; wait_head = 0; wait_tail = 0; wait_count = 0 }

-- sem_init
abbrev pub sem_init : SemTable
sem_init = record {
  sems = λ _. record {
    id = 0;
    name = 0;
    count = 0;
    max_count = 0;
    wait_queue = λ _. 0;
    wait_head = 0;
    wait_tail = 0;
    wait_count = 0;
  };
  next_sem_id = 1;
}

-- find_free_semaphore_slot
unfoldable pub find_free_semaphore_slot : SemTable → Option ℕ
find_free_semaphore_slot t = first_index (λ i. (t.sems i).id == 0) 0 max_semaphores

-- allocate_sem_id
unfoldable pub allocate_sem_id : SemTable → SemTable × Creation
allocate_sem_id t =
    if not (is_positive t.next_sem_id) || int_le int_max t.next_sem_id
    then (t, refused overflow)
    else (record t { next_sem_id = int_succ t.next_sem_id }, created t.next_sem_id)

-- find_semaphore_by_id and sem_get_by_id
unfoldable pub sem_get_by_id : SemTable → ℕ → Option ℕ
sem_get_by_id t sem_id =
    if is_positive sem_id then first_index (λ i. (t.sems i).id == sem_id) 0 max_semaphores else none

abbrev pub write_sem : SemTable → ℕ → Semaphore → SemTable
write_sem t i s = record t { sems = update t.sems i s }

-- The arguments of sem_create.
pub record SemSpec : Type 0 where
  pub name : ℕ
  pub initial_count : ℕ
  pub max_count : ℕ

abbrev pub bad_spec : SemSpec → Bool
bad_spec a =
    a.name == 0
    || not (is_nonneg a.initial_count)
    || not (is_positive a.max_count)
    || int_lt a.max_count a.initial_count

abbrev pub new_semaphore : ℕ → SemSpec → Semaphore → Semaphore
new_semaphore sem_id a s =
    reset_wait_queue
      (record s { id = sem_id; name = a.name; count = a.initial_count; max_count = a.max_count })

unfoldable pub fill_sem : SemTable → ℕ → SemSpec → SemTable × Creation → SemTable × Creation
fill_sem t i a (t', created sem_id) =
    (write_sem t' i (new_semaphore sem_id a (t'.sems i)), created sem_id)
fill_sem t i a (t', refused e) = (t, refused e)

unfoldable pub create_in : SemTable → SemSpec → Option ℕ → SemTable × Creation
create_in t a none = (t, refused full)
create_in t a (some i) = fill_sem t i a (allocate_sem_id t)

-- sem_create
unfoldable pub sem_create : SemTable → SemSpec → SemTable × Creation
unfolding create_in fill_sem allocate_sem_id
sem_create t a =
    if bad_spec a then (t, refused inval) else create_in t a (find_free_semaphore_slot t)
