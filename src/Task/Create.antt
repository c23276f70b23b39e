-- ===== src/Task/Create.antt =====
-- task_init, task_register and task_create_dormant of kernel/task.c. The console output is left out.
use itron_rtos.Common.{
  ℕ, ◌+◌, ◌%◌, ◌^◌, Bool, not, ◌||◌, Option, none, some, ◌==◌, if◌then◌else◌, is_positive, int_max,
  int_succ, int_le,
}
use itron_rtos.Task.{
  TaskState, unused, dormant, ready, no_reason, TaskContext, Tcb, TaskTable, TaskResult, ok, full,
  inval, id_overflow, bad_state, Registration, registered, refused,
}
use itron_rtos.Task.Lookup.{find_free_slot, task_id_is_in_use, write_slot}

-- task_clear_context
abbrev pub clear_context : TaskContext
clear_context = record { rsp = 0; rbp = 0; rbx = 0; r12 = 0; r13 = 0; r14 = 0; r15 = 0 }

-- A slot of the table as task_init leaves it.
abbrev pub empty_slot : Tcb
empty_slot = record {
  id = 0;
  name = 0;
  entry = 0;
  priority = 0;
  state = unused;
  wait_sem_id = 0;
  wait_reason = no_reason;
  delay_ticks_remaining = 0;
  stack_base = 0;
  stack_size = 0;
  stack_top = 0;
  context = clear_context;
}

-- task_init
abbrev pub task_init : TaskTable
task_init = record { slots = λ _. empty_slot; next_task_id = 1 }

-- task_calculate_stack_top: an address has 64 bits.
abbrev pub calculate_stack_top : ℕ → ℕ → ℕ
calculate_stack_top stack_base stack_size = (stack_base + stack_size) % 2 ^ 64

-- The arguments that task_register and task_create_dormant share.
pub record TaskSpec : Type 0 where
  pub name : ℕ
  pub entry : ℕ
  pub priority : ℕ
  pub stack_base : ℕ
  pub stack_size : ℕ

-- task_configure_slot with task_initialize_context: every field of the slot is written.
abbrev pub configure_slot : ℕ → TaskSpec → TaskState → Tcb
configure_slot task_id a initial_state = record {
  id = task_id;
  name = a.name;
  entry = a.entry;
  priority = a.priority;
  state = initial_state;
  wait_sem_id = 0;
  wait_reason = no_reason;
  delay_ticks_remaining = 0;
  stack_base = a.stack_base;
  stack_size = a.stack_size;
  stack_top = calculate_stack_top a.stack_base a.stack_size;
  context = record {
    rsp = calculate_stack_top a.stack_base a.stack_size;
    rbp = 0;
    rbx = 0;
    r12 = 0;
    r13 = 0;
    r14 = 0;
    r15 = 0;
  };
}

-- `name == NULL || entry == NULL || stack_base == NULL || stack_size == 0`
abbrev pub lacks_attribute : TaskSpec → Bool
lacks_attribute a = a.name == 0 || a.entry == 0 || a.stack_base == 0 || a.stack_size == 0

-- allocate_task_id: the table with the counter advanced, and the id.
unfoldable pub allocate_task_id : TaskTable → TaskTable × Registration
allocate_task_id t =
    if not (is_positive t.next_task_id) || int_le int_max t.next_task_id
    then (t, refused id_overflow)
    else (record t { next_task_id = int_succ t.next_task_id }, registered t.next_task_id)

-- The free slot is filled once an id is allocated; without an id the table is left alone.
unfoldable pub fill_slot :
    TaskTable → ℕ → TaskSpec → TaskTable × Registration → TaskTable × Registration
fill_slot t i a (t', registered task_id) =
    (write_slot t' i (configure_slot task_id a ready), registered task_id)
fill_slot t i a (t', refused e) = (t, refused e)

unfoldable pub register_in : TaskTable → TaskSpec → Option ℕ → TaskTable × Registration
register_in t a none = (t, refused full)
register_in t a (some i) = fill_slot t i a (allocate_task_id t)

-- task_register
unfoldable pub task_register : TaskTable → TaskSpec → TaskTable × Registration
unfolding register_in fill_slot allocate_task_id
task_register t a =
    if lacks_attribute a then (t, refused inval) else register_in t a (find_free_slot t)

-- The end of task_create_dormant: `next_task_id` moves past the id that the caller chose. The sum
-- is on `int`, and is taken to wrap.
abbrev pub advance_past : ℕ → TaskTable → TaskTable
advance_past task_id t = record t {
  next_task_id = if int_le t.next_task_id task_id then int_succ task_id else t.next_task_id;
}

unfoldable pub create_in : TaskTable → ℕ → TaskSpec → Option ℕ → TaskTable × TaskResult
create_in t task_id a none = (t, full)
create_in t task_id a (some i) =
    (advance_past task_id (write_slot t i (configure_slot task_id a dormant)), ok)

-- task_create_dormant
unfoldable pub task_create_dormant : TaskTable → ℕ → TaskSpec → TaskTable × TaskResult
unfolding create_in
task_create_dormant t task_id a =
    if not (is_positive task_id) || lacks_attribute a
    then (t, inval)
    else if task_id_is_in_use t task_id
    then (t, bad_state)
    else create_in t task_id a (find_free_slot t)
