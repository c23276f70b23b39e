-- ===== src/Context/Samples.antt =====
-- A platform and a machine with three tasks, for the tests.
use itron_rtos.Common.{
  ℕ, zero, suc, ◌+◌, ◌-◌, ◌*◌, ◌/◌, ◌<◌, ◌≡◌, ◌≢◌, refl, ap, none, some, true, arith, first_index,
  update, update_ne, ◌≤◌, inl, inr,
}
use itron_rtos.Task.{TaskContext, TaskState, ready, running, Tcb, TaskTable, is_ready}
use itron_rtos.Task.Create.{empty_slot}
use itron_rtos.Task.Lookup.{find_task}
use itron_rtos.Kernel.{Kernel, kernel_init}
use itron_rtos.Context.{Platform, Machine, frame_pointer}
use itron_rtos.Context.Stacks.{OnStack, Apart}
use itron_rtos.Context.Entering.{CanRun}
use itron_rtos.Context.Frames.{Laid}
use itron_rtos.Context.Pairs.{Switchable}

abbrev pub context_at : ℕ → TaskContext
context_at rsp = record { rsp = rsp; rbp = 0; rbx = 0; r12 = 0; r13 = 0; r14 = 0; r15 = 0 }

-- The entry functions do nothing to the kernel.
abbrev pub quiet_platform : Platform
quiet_platform = record {
  run_entry = λ entry k. k;
  live = λ k i. context_at 9000;
  boot_live = λ k. context_at 9100;
  tcb_address = λ i. 65536 + 128 * i;
  tcb_at = λ a. some ((a - 65536) / 128);
  tcb_at_address = λ i inside. ap some (omega arith);
  trampoline = 7777;
  halt_address = 7787;
  halt_apart = refl;
  run_on_stack = λ entry sp k memory. update memory (sp - 8) 4444;
}

abbrev pub task_of : ℕ → TaskState → ℕ → ℕ → Tcb
task_of id state priority base = record empty_slot {
  id = id;
  state = state;
  priority = priority;
  entry = 5555;
  stack_base = base;
  stack_size = 4096;
  stack_top = base + 4096;
  context = context_at (base + 4096);
}

-- Task 1 runs, and the tasks 2 and 3 are READY; task 2 comes first.
abbrev pub three_slots : ℕ → Tcb
three_slots zero = task_of 1 running 5 10000
three_slots (suc zero) = task_of 2 ready 3 20000
three_slots (suc (suc zero)) = task_of 3 ready 4 30008
three_slots (suc (suc (suc _))) = empty_slot

abbrev pub three_tasks : TaskTable
three_tasks = record { slots = three_slots; next_task_id = 4 }

abbrev pub machine_of : Kernel → Machine
machine_of k = record {
  kernel = k;
  boot_context = context_at 9200;
  active_task = none;
  smoke_from = none;
  smoke_to = none;
  memory = λ _. 0;
}

abbrev pub three_kernel : Kernel
three_kernel = record kernel_init { tasks = three_tasks; current = some 0 }

abbrev pub sample : Machine
sample = machine_of three_kernel

pub task_of-Laid :
    (id : ℕ) (state : TaskState) (priority base : ℕ)
    → base ≢ 0
    → base < 100000
    → Laid (task_of id state priority base)
task_of-Laid id state priority base h lt = record {
  valid = record {
    has_base = h;
    has_top = omega arith;
    roomy = omega arith;
    has_rsp = omega arith;
  };
  laid_out = refl;
  fits = omega arith;
}

pub task_of-OnStack :
    (id : ℕ) (state : TaskState) (priority base : ℕ)
    → base < 100000
    → OnStack quiet_platform (task_of id state priority base)
unfolding frame_pointer
task_of-OnStack id state priority base lt k memory a at =
    let sp = frame_pointer (base + 4096) in
    update_ne memory (sp - 8) a 4444
      (elim at [ inl below ↦ λ e. omega arith | inr above ↦ λ e. omega arith ])

-- Two tasks whose stacks of 4096 bytes are apart.
pub task_of-Apart :
    (id id' : ℕ) (state state' : TaskState) (priority priority' base base' : ℕ)
    → base + 4096 ≤ base'
    → base < 100000
    → Apart quiet_platform (task_of id state priority base) (task_of id' state' priority' base')
task_of-Apart id id' state state' priority priority' base base' h lt = record {
  on_stack = task_of-OnStack id state priority base lt;
  disjoint = inr h;
}

pub first-CanRun : CanRun quiet_platform three_tasks 0
unfolding find_task first_index
first-CanRun = record {
  inside = omega arith;
  found = refl;
  fit = record { positive = refl; has_entry = omega arith; quiet = λ k. refl; may_end = refl };
}

pub second-CanRun : CanRun quiet_platform three_tasks 1
unfolding find_task first_index
second-CanRun = record {
  inside = omega arith;
  found = refl;
  fit = record { positive = refl; has_entry = omega arith; quiet = λ k. refl; may_end = refl };
}

third-CanRun : CanRun quiet_platform three_tasks 2
unfolding find_task first_index
third-CanRun = record {
  inside = omega arith;
  found = refl;
  fit = record { positive = refl; has_entry = omega arith; quiet = λ k. refl; may_end = refl };
}

pub ready-Switchable :
    (j : ℕ) → is_ready (three_slots j).state ≡ true → Switchable quiet_platform three_tasks j
ready-Switchable zero h = absurd (cc h)
ready-Switchable (suc zero) h =
    (task_of-Laid 2 ready 3 20000 (omega arith) (omega arith), second-CanRun)
ready-Switchable (suc (suc zero)) h =
    (task_of-Laid 3 ready 4 30008 (omega arith) (omega arith), third-CanRun)
ready-Switchable (suc (suc (suc _))) h = absurd (cc h)

-- The stack of task 1 is apart from those of the others.
pub ready-Apart :
    (j : ℕ)
    → is_ready (three_slots j).state ≡ true
    → Apart quiet_platform (three_slots 0) (three_slots j)
ready-Apart zero h = absurd (cc h)
ready-Apart (suc zero) h =
    task_of-Apart 1 2 running ready 5 3 10000 20000 (omega arith) (omega arith)
ready-Apart (suc (suc zero)) h =
    task_of-Apart 1 3 running ready 5 4 10000 30008 (omega arith) (omega arith)
ready-Apart (suc (suc (suc _))) h = absurd (cc h)

pub first-Switchable : Switchable quiet_platform three_tasks 0
first-Switchable = (task_of-Laid 1 running 5 10000 (omega arith) (omega arith), first-CanRun)
