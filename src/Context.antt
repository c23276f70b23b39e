-- ===== src/Context.antt =====
-- kernel/task_context.c, with arch_context_switch and task_context_trampoline of
-- arch/x86_64/context_switch.asm.
pub mod Frames
pub mod Stacks
pub mod Kept
pub mod Fuel
pub mod Entering
pub mod Runs
pub mod Pairs
pub mod Shared
pub mod Samples
mod Tests
use itron_rtos.Common.{
  ℕ, zero, suc, ◌+◌, ◌-◌, ◌%◌, ◌^◌, ◌<◌, ◌≡◌, Bool, true, false, ◌||◌, Option, none, some, ◌==◌,
  ltb, if◌then◌else◌, update, Control, comes_back, halts, strays, unfinished, ◌>>=◌,
}
use itron_rtos.Task.{TaskContext, Tcb, TaskTable, max_tasks}
use itron_rtos.Task.Lookup.{write_slot}
use itron_rtos.Task.Moves.{mark_dormant_from_entry_return}
use itron_rtos.Kernel.{Kernel}

-- What the linker and the compiler decide, and the functions that the tasks are made of.
pub record Platform : Type 0 where
  -- What an entry function does to the kernel before it returns. It does not switch tasks itself.
  pub run_entry : ℕ → Kernel → Kernel
  -- The registers of the code that calls arch_context_switch, on the stack of a task and at boot.
  pub live : Kernel → ℕ → TaskContext
  pub boot_live : Kernel → TaskContext
  -- The address of a slot of the task table, and the slot at an address.
  pub tcb_address : ℕ → ℕ
  pub tcb_at : ℕ → Option ℕ
  pub tcb_at_address : (i : ℕ) → i < max_tasks → tcb_at (tcb_address i) ≡ some i
  -- The address of task_context_trampoline, and the one behind its `call`, that of `.halt`.
  pub trampoline : ℕ
  pub halt_address : ℕ
  pub halt_apart : (halt_address == trampoline) ≡ false
  -- What task_context_enter, the entry function that it calls and all that they call leave in memory,
  -- for an entry function, the stack pointer of the frame, and the kernel and the memory before.
  pub run_on_stack : ℕ → ℕ → Kernel → (ℕ → ℕ) → ℕ → ℕ

-- The kernel with the static variables of kernel/task_context.c and the words of the tasks' stacks.
pub record Machine : Type 0 where
  pub kernel : Kernel
  pub boot_context : TaskContext
  pub active_task : Option ℕ
  pub smoke_from : Option ℕ
  pub smoke_to : Option ℕ
  pub memory : ℕ → ℕ

-- TASK_CONTEXT_OK and TASK_CONTEXT_ERR_*
pub data ContextResult : Type 0 where
  ok inval bad_state : ContextResult

abbrev pub slot_of : Machine → ℕ → Tcb
slot_of m i = m.kernel.tasks.slots i

abbrev pub with_tasks : Machine → TaskTable → Machine
with_tasks m tasks = record m { kernel = record m.kernel { tasks = tasks } }

abbrev pub set_context : Machine → ℕ → TaskContext → Machine
set_context m i c =
    with_tasks m (write_slot m.kernel.tasks i (record (slot_of m i) { context = c }))

-- context_validate_task
unfoldable pub validate_task : Tcb → ContextResult
validate_task s =
    if s.stack_base == 0 || s.stack_top == 0
    then inval
    else if ltb s.stack_size 64
    then inval
    else if s.context.rsp == 0
    then bad_state
    else ok

-- stack_top & ~0xF, less the one word that `stack_pointer--` takes
unfoldable pub frame_pointer : ℕ → ℕ
frame_pointer stack_top = (stack_top - stack_top % 16 + 2 ^ 64 - 8) % 2 ^ 64

-- The writes to the context; `r12` is how the trampoline is told the task.
unfoldable pub initial_context : Platform → ℕ → ℕ → TaskContext
initial_context p i stack_pointer = record {
  rsp = stack_pointer;
  rbp = 0;
  rbx = 0;
  r12 = p.tcb_address i;
  r13 = 0;
  r14 = 0;
  r15 = 0;
}

unfoldable pub write_frame : Platform → Machine → ℕ → Machine
unfolding frame_pointer initial_context
write_frame p m i =
    let stack_pointer = frame_pointer (slot_of m i).stack_top in
    let m' = record m { memory = update m.memory stack_pointer p.trampoline } in
    set_context m' i (initial_context p i stack_pointer)

-- task_context_prepare_initial_frame, for a task that is not NULL
unfoldable pub prepare_initial_frame : Platform → Machine → ℕ → Machine × ContextResult
unfolding validate_task write_frame
prepare_initial_frame p m i = elim (validate_task (slot_of m i)) [
  | ok ↦ (write_frame p m i, ok)
  | inval ↦ (m, inval)
  | bad_state ↦ (m, inval)
]

-- The trampoline's `call` of task_context_enter: it pushes the address behind it onto the word that
-- the `ret` has just taken.
abbrev pub called : Platform → Machine → ℕ → Machine
called p m sp = record m { memory = update m.memory sp p.halt_address }

-- The `ret` of arch_context_switch once the context `c` is loaded: it finds the trampoline on top of
-- the stack, and the trampoline calls task_context_enter with what is in `r12`. Where a run on the
-- same frame has left the address of `.halt` there, the processor halts.
unfoldable pub arrive :
    Platform → (Machine → Option ℕ → Control Machine) → Machine → TaskContext → Control Machine
arrive p enter m c =
    if m.memory c.rsp == p.trampoline
    then enter (called p m c.rsp) (p.tcb_at c.r12)
    else if m.memory c.rsp == p.halt_address
    then halts
    else strays

-- task_context_enter with the call of the entry: both use the task's stack below its frame, and the
-- task becomes DORMANT.
unfoldable pub finish_entry : Platform → Machine → ℕ → Machine
finish_entry p m i =
    let k = p.run_entry (slot_of m i).entry m.kernel in
    record m {
      kernel = record k { tasks = (mark_dormant_from_entry_return k.tasks (k.tasks.slots i).id).0 };
      memory = p.run_on_stack (slot_of m i).entry (slot_of m i).context.rsp m.kernel m.memory;
    }

-- `task_to_task_smoke_from == task && task_to_task_smoke_to != NULL`
unfoldable pub reserved_next : Machine → ℕ → Option ℕ
reserved_next m i = elim m.smoke_from [ none ↦ none | some j ↦ if j == i then m.smoke_to else none ]

-- arch_context_switch(&task->context, …), as far as it saves.
abbrev pub save_task : Platform → Machine → ℕ → Machine
save_task p m i = set_context m i (p.live m.kernel i)

-- The switch from task `i` to the second task of a pair.
abbrev pub leave_for : Platform → Machine → ℕ → ℕ → Machine
leave_for p m i next =
    save_task p (record m { smoke_from = none; smoke_to = none; active_task = some next }) i

-- The arch_context_switch at the end of task_context_enter. To the boot context it comes back: that
-- context is the one that task_context_switch_to_task has saved.
unfoldable pub leave_task :
    Platform → (Machine → Option ℕ → Control Machine) → Machine → ℕ → Control Machine
unfolding arrive reserved_next
leave_task p enter m i = elim (reserved_next m i) [
  | none ↦ comes_back (save_task p m i)
  | some next ↦ arrive p enter (leave_for p m i next) (slot_of (leave_for p m i next) next).context
]

-- task_context_enter
unfoldable pub enter : Platform → ℕ → Machine → Option ℕ → Control Machine
unfolding finish_entry leave_task
enter p zero m o = unfinished
enter p (suc fuel) m none = halts
enter p (suc fuel) m (some i) =
    if (slot_of m i).entry == 0 then halts else leave_task p (enter p fuel) (finish_entry p m i) i

-- One entry for each of a pair of tasks.
abbrev pub enter_fuel : ℕ
enter_fuel = 2

abbrev pub leave_boot : Platform → Machine → ℕ → Machine
leave_boot p m to = record m { active_task = some to; boot_context = p.boot_live m.kernel }

-- task_context_switch_to_task, for a task that is not NULL
unfoldable pub switch_to_task : Platform → Machine → ℕ → Control (Machine × ContextResult)
unfolding validate_task enter
switch_to_task p m to = elim (validate_task (slot_of m to)) [
  | ok ↦ arrive p (enter p enter_fuel) (leave_boot p m to) (slot_of m to).context >>= λ m'.
      comes_back (record m' { active_task = none }, ok)
  | inval ↦ comes_back (m, inval)
  | bad_state ↦ comes_back (m, inval)
]

abbrev pub clear_reservation : Machine × ContextResult → Control (Machine × ContextResult)
clear_reservation (m, r) = comes_back (record m { smoke_from = none; smoke_to = none }, r)

-- task_context_switch_to_task_pair from its second preparation on.
unfoldable pub switch_prepared :
    Platform → ℕ → ℕ → Machine × ContextResult → Control (Machine × ContextResult)
unfolding switch_to_task
switch_prepared p first second (m, ok) =
    switch_to_task p (record m { smoke_from = some first; smoke_to = some second }) first
    >>= clear_reservation
switch_prepared p first second (m, r) = comes_back (m, r)

unfoldable pub prepare_second :
    Platform → ℕ → ℕ → Machine × ContextResult → Control (Machine × ContextResult)
unfolding switch_prepared prepare_initial_frame
prepare_second p first second (m, ok) =
    switch_prepared p first second (prepare_initial_frame p m second)
prepare_second p first second (m, r) = comes_back (m, r)

-- task_context_switch_to_task_pair, for tasks that are not NULL
unfoldable pub switch_to_task_pair : Platform → Machine → ℕ → ℕ → Control (Machine × ContextResult)
unfolding prepare_second prepare_initial_frame
switch_to_task_pair p m first second =
    if first == second
    then comes_back (m, inval)
    else prepare_second p first second (prepare_initial_frame p m first)
