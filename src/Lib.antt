-- ===== src/Lib.antt =====
-- The kernel of itron-rtos: tasks, scheduler, semaphores, the delay queue, the dispatcher with the
-- task contexts, the timer interrupt and the API.
--
-- The kernel keeps four static tables: the tasks (kernel/task.c), the semaphores with their wait
-- queues (kernel/semaphore.c), the delay queue (kernel/delay_queue.c) and the pointer to the current
-- task (kernel/dispatcher.c). The API functions and the timer change them through the functions of
-- those files, one call after the other on a single processor, so that a history of the kernel is a
-- sequence of calls. A call that switches goes through dispatcher_switch_to to the stacks of the
-- tasks (kernel/task_context.c), whose entry functions run to their end, and comes back.
--
-- Which file models what:
--   Common       Boolean tests, fixed arrays with the scan over them, 32-bit integers, lists.
--   Task         kernel/task.c and kernel/include/task.h. Task/Lookup has the scans, Task/Create
--                task_init, task_register and task_create_dormant, Task/Moves task_mark_*,
--                task_start_dormant and task_wake_* (the prefix task_ is dropped there). Task/Ops
--                names the calls as data; Task/Outcome and Task/Reading read every call as an
--                attempt on one slot, which Task/Atomic, Lifecycle, Waits and Identity use.
--   Scheduler    kernel/scheduler.c: scheduler_select_next and the preemption decision.
--   Semaphore    kernel/semaphore.c: creation and lookup; Semaphore/Count has
--                sem_take_if_available and sem_increment_count, Semaphore/WaitQueue
--                sem_enqueue_waiter, sem_dequeue_waiter and sem_remove_waiter. Semaphore/Fifo says
--                what a wait queue promises; Ring, Scan and Removal relate the array to it.
--   DelayQueue   kernel/delay_queue.c; DelayQueue/Tick has delay_queue_tick, which calls into the
--                task table and the semaphores. Contents, Ageing and Entries see the array as a
--                list; Timeout and SemTimeout say what a tick does to the task that it wakes.
--   Pending      kernel/dispatch_pending.c without the consumption: the one request for a dispatch,
--                made by the timer interrupt or by a task and consumed later.
--   Kernel       the tables together, with kernel/timer.c, kernel/preemption.c and the timer
--                interrupt of arch/x86_64/interrupt.c up to its exit boundary.
--   Context      kernel/task_context.c, and the `ret` and the trampoline of
--                arch/x86_64/context_switch.asm. Context/Frames is about the first frame of a task,
--                Fuel and Kept about every switch, Entering, Runs and Pairs follow a switch whose
--                tasks run to their end, with the stacks apart as Stacks says or, in Shared, not.
--   Dispatcher   kernel/dispatcher.c: dispatcher_commit_current and dispatcher_switch_to, whose
--                outcome is in Dispatcher/Outcome.
--   Boundary     the consumption of a request in kernel/dispatch_pending.c, and the timer interrupt
--                of arch/x86_64/interrupt.c with its exit boundary.
--   Api          kernel/itron_api.c: cre_tsk, sta_tsk, wup_tsk, pol_sem and sig_sem, the calls that
--                do not switch to another task.
--   Blocking     kernel/itron_api.c: slp_tsk, yield_tsk, wai_sem, twai_sem and dly_tsk, which do.
--                Blocking/Begin has them up to the choice of the next task, and Blocking/History the
--                histories of all calls and interrupts.
--                Blocking/Runner follows which task is RUNNING through them.
--   Cooperative  kernel_run_cooperative_entries of kernel/kernel.c, a loop of three rounds that
--                calls entry functions on the boot stack.
--   Boot         kernel_main of kernel/kernel.c (Boot/Main) and the parts that it runs: Boot/Observe
--                has those that do not switch tasks, Boot/Calls those that call the API. The record
--                `Image` says where the linker puts names, entry functions and stacks.
--
-- State is passed explicitly: a function of the source that changes a table returns the new table
-- with its result. A `tcb_t *` or `semaphore_t *` into a table is the index of the slot, and NULL is
-- `none`. An `int` is its 32-bit pattern (Common/Words), an `unsigned long` or another pointer a
-- number. An array of a fixed size is a function of the index; the sizes are the source's, 256 tasks
-- and 16 semaphores. A result code is a constructor. A loop over a table is the scan `first_index`;
-- delay_queue_tick's loop runs on fuel, one round for each queued entry: a round moves on by one
-- entry or takes one away. task_context_enter runs on fuel for two entry functions: the first task of
-- a pair goes on to the second, and the second back to the boot context.
--
-- A call that switches returns a value of `Control` (Common/Jumps): it comes back with a result,
-- halts in a `hlt` loop, or returns to an address where none of the modelled code is. What the linker
-- and the compiler decide, and the entry functions, are the record `Platform`: the address of a slot
-- of the table and the slot at an address, the addresses of the trampoline and of the `.halt` behind
-- its call, the registers that a switch saves, what an entry function does to the kernel before it
-- returns, and what its run leaves on the stack. An entry function does not switch tasks itself:
-- arch_context_switch would then save its registers in the one static boot_context, over those of
-- the boot code. Of the tasks' stacks the model keeps the words:
-- task_context_prepare_initial_frame writes the frame, the trampoline's `call` pushes the address of
-- `.halt` over it, and a run writes what the platform says below. The stack of the boot code, on which
-- the API calls and the interrupts run here, is taken to be apart from them.
--
-- Not modelled: console output and the functions that only print; out parameters that only feed
-- it; the interrupt entry in assembly, the PIC and the descriptor tables (arch/x86_64);
-- task_context_switch and sem_legacy_sig_sem_disabled, which nothing calls; of kernel/kernel.c the
-- set-up of the console and the interrupts and the validation builds behind #ifdef.
pub mod Common
pub mod Task
pub mod Scheduler
pub mod Semaphore
pub mod DelayQueue
pub mod Pending
pub mod Kernel
pub mod Context
pub mod Dispatcher
pub mod Boundary
pub mod Api
pub mod Blocking
pub mod Cooperative
pub mod Boot
