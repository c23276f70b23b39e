-- ===== src/Context/Tests.antt =====
-- The frame of a task, and the way into it.
use itron_rtos.Common.{ℕ, zero, suc, halts, first_index, ◌≡◌, ◌≢◌, refl, some, arith, unfinished}
use itron_rtos.Context.{
  Machine, switch_to_task_pair, ok, slot_of, validate_task, prepare_initial_frame, called, arrive,
  enter, enter_fuel,
}
use itron_rtos.Context.Frames.{InStack, prepare_initial_frame-InStack, prepare-arrive}
use itron_rtos.Context.Fuel.{enter_ends}
use itron_rtos.Context.Entering.{CanRun}
use itron_rtos.Context.Shared.{switch_to_task_pair-halts}
use itron_rtos.Context.Samples.{
  quiet_platform, sample, task_of, machine_of, task_of-Laid, task_of-OnStack,
}
use itron_rtos.Task.{Tcb, TaskTable, running, ready}
use itron_rtos.Task.Create.{empty_slot}
use itron_rtos.Task.Lookup.{find_task}
use itron_rtos.Kernel.{kernel_init}

accepted : (prepare_initial_frame quiet_platform sample 2).1 ≡ ok
unfolding prepare_initial_frame validate_task
accepted = refl

prepare_initial_frame-InStack_example :
    let m' = (prepare_initial_frame quiet_platform sample 2).0 in
    InStack (slot_of sample 2) (slot_of m' 2).context.rsp
    × (m'.memory (slot_of m' 2).context.rsp ≡ quiet_platform.trampoline)
prepare_initial_frame-InStack_example =
    prepare_initial_frame-InStack quiet_platform sample 2 refl (omega arith) accepted

prepare-arrive_example :
    let m' = (prepare_initial_frame quiet_platform sample 2).0 in
    arrive quiet_platform (enter quiet_platform enter_fuel) m' (slot_of m' 2).context
    ≡ enter quiet_platform enter_fuel (called quiet_platform m' (slot_of m' 2).context.rsp) (some 2)
prepare-arrive_example =
    prepare-arrive quiet_platform (enter quiet_platform enter_fuel) sample 2 (omega arith) accepted

enter_ends_example :
    (enter quiet_platform enter_fuel sample (some 1) ≢ unfinished)
    × (enter quiet_platform 5 sample (some 1) ≡ enter quiet_platform enter_fuel sample (some 1))
enter_ends_example = enter_ends quiet_platform 3 sample (some 1)

-- Two tasks on one stack.
abbrev shared_slots : ℕ → Tcb
shared_slots zero = task_of 1 running 5 20000
shared_slots (suc zero) = task_of 2 ready 3 20000
shared_slots (suc (suc _)) = empty_slot

abbrev shared_tasks : TaskTable
shared_tasks = record { slots = shared_slots; next_task_id = 3 }

abbrev on_one_stack : Machine
on_one_stack = machine_of (record kernel_init { tasks = shared_tasks; current = some 0 })

shared-CanRun : CanRun quiet_platform shared_tasks 0
unfolding find_task first_index
shared-CanRun = record {
  inside = omega arith;
  found = refl;
  fit = record { positive = refl; has_entry = omega arith; quiet = λ k. refl; may_end = refl };
}

switch_to_task_pair-halts_example : switch_to_task_pair quiet_platform on_one_stack 0 1 ≡ halts
switch_to_task_pair-halts_example =
    switch_to_task_pair-halts quiet_platform on_one_stack 0 1 (omega arith)
      (task_of-Laid 1 running 5 20000 (omega arith) (omega arith))
      (task_of-Laid 2 ready 3 20000 (omega arith) (omega arith)) shared-CanRun
      (task_of-OnStack 1 running 5 20000 (omega arith)) refl
