-- ===== src/Dispatcher/Switching.antt =====
-- The stacks that dispatcher_switch_to of kernel/dispatcher.c switches between, where the entry
-- functions of the tasks leave the kernel as it is.
use itron_rtos.Common.{
  ℕ, ◌≡◌, ◌≢◌, refl, sym, ap, ◌∙◌, Bool, true, false, none, some, update_ne, Control, comes_back,
  ◌>>=◌, arith,
}
use itron_rtos.Task
use itron_rtos.Task.{
  Tcb, TaskTable, TaskState, unused, dormant, ready, running, waiting, is_unused, is_running,
  is_ready, is_waiting,
}
use itron_rtos.Task.Lookup.{change_task-ok}
use itron_rtos.Task.Moves.{settle, mark_running, mark_ready_from_running}
use itron_rtos.Context.{Platform, Machine, slot_of, with_tasks}
use itron_rtos.Context.Entering.{CanRun}
use itron_rtos.Context.Stacks.{Apart}
use itron_rtos.Context.Runs.{Ran, only, either}
use itron_rtos.Context.Frames.{Laid}
use itron_rtos.Context.Pairs.{prepared-Ran, pair-Ran}
use itron_rtos.Dispatcher.{
  DispatchResult, ok, switch_stacks, leave_from, run_next, as_dispatch, enter_waiting_next,
}
use itron_rtos.Dispatcher.Moving.{moved, moved-CanRun, moved-Laid, moved-Apart, moved-Ran}

abbrev pub with_current : Machine → ℕ → Machine
with_current m to = record m { kernel = record m.kernel { current = some to } }

pub mark_running-CanRun :
    (p : Platform) (t : TaskTable) (i : ℕ)
    → CanRun p t i
    → is_ready (t.slots i).state ≡ true
    → mark_running t (t.slots i).id ≡ (moved t i running, Task.ok)
unfolding mark_running
mark_running-CanRun p t i c h =
    rw (c.fit.positive) (change_task-ok t _ i (λ s. is_ready s.state) (settle running) c.found h)

pub mark_ready-CanRun :
    (p : Platform) (t : TaskTable) (i : ℕ)
    → CanRun p t i
    → is_running (t.slots i).state ≡ true
    → mark_ready_from_running t (t.slots i).id ≡ (moved t i ready, Task.ok)
unfolding mark_ready_from_running
mark_ready-CanRun p t i c h =
    rw (c.fit.positive) (change_task-ok t _ i (λ s. is_running s.state) (settle ready) c.found h)

-- What a switch comes to: it comes back, it has succeeded, and those tasks have ended.
unfoldable pub Switches : (ℕ → Bool) → Machine → Control (Machine × DispatchResult) → Type 0
Switches among m c = (m' : Machine) × (c ≡ comes_back (m', ok)) × Ran among m m'

switch_stacks-pair :
    (p : Platform) (m : Machine) (from to : ℕ)
    → from ≢ to
    → is_waiting (slot_of m from).state ≡ false
    → Laid (slot_of m from)
    → Laid (slot_of m to)
    → CanRun p m.kernel.tasks from
    → CanRun p m.kernel.tasks to
    → Apart p (slot_of m from) (slot_of m to)
    → Switches (either from to) m (switch_stacks p m from to)
unfolding switch_stacks Switches
switch_stacks-pair p m from to other h l k c d apart =
    let (runs, r) = pair-Ran p m from to other l k c d apart in
    (_, rw (switch_stacks, h) (ap (λ c. c >>= as_dispatch) runs), r)

switch_stacks-waiting :
    (p : Platform) (m : Machine) (from to : ℕ)
    → is_waiting (slot_of m from).state ≡ true
    → Laid (slot_of m to)
    → CanRun p m.kernel.tasks to
    → m.smoke_from ≡ none
    → Switches (only to) m (switch_stacks p m from to)
unfolding switch_stacks enter_waiting_next Switches
switch_stacks-waiting p m from to h k d unreserved =
    let (frame, runs, r) = prepared-Ran p m to k d unreserved in
    (
      _,
      rw (switch_stacks, h) (ap (enter_waiting_next p to) frame ∙ ap (λ c. c >>= as_dispatch) runs),
      r,
    )

pub Switches-moved :
    (among : ℕ → Bool) (m : Machine) (j : ℕ) (new_state : TaskState)
    (c d : Control (Machine × DispatchResult))
    → among j ≡ true
    → c ≡ d
    → Switches among (with_tasks m (moved m.kernel.tasks j new_state)) d
    → Switches among m c
unfolding Switches
Switches-moved among m j new_state c d h same (m', e, r) =
    (m', same ∙ e, moved-Ran among m m' j new_state h r)

leave_from-ok :
    (p : Platform) (m : Machine) (from to : ℕ)
    → CanRun p m.kernel.tasks to
    → is_ready (slot_of m to).state ≡ true
    → leave_from p m from to (m.kernel.tasks, Task.ok)
      ≡ switch_stacks p (with_current (with_tasks m (moved m.kernel.tasks to running)) to) from to
unfolding leave_from run_next
leave_from-ok p m from to d h =
    ap (run_next p m from to) (mark_running-CanRun p m.kernel.tasks to d h)

pub leave_from-pair :
    (p : Platform) (m : Machine) (from to : ℕ)
    → from ≢ to
    → is_waiting (slot_of m from).state ≡ false
    → Laid (slot_of m from)
    → Laid (slot_of m to)
    → CanRun p m.kernel.tasks from
    → CanRun p m.kernel.tasks to
    → Apart p (slot_of m from) (slot_of m to)
    → is_ready (slot_of m to).state ≡ true
    → Switches
        (either from to)
        (with_current m to)
        (leave_from p m from to (m.kernel.tasks, Task.ok))
leave_from-pair p m from to other h l k c d apart r =
    let t = m.kernel.tasks in
    let t' = moved t to running in
    let m' = with_current (with_tasks m t') to in
    let same : t'.slots from ≡ t.slots from = update_ne t.slots to from _ (λ e. other (sym e)) in
    Switches-moved (either from to) (with_current m to) to running _ _ (ground arith)
      (leave_from-ok p m from to d r)
      (switch_stacks-pair p m' from to other (ap (λ (s : Tcb). is_waiting s.state) same ∙ h)
        (moved-Laid t from to running l) (moved-Laid t to to running k)
        (moved-CanRun p t from to running refl c d) (moved-CanRun p t to to running refl d d)
        (moved-Apart p t from to to running apart))

pub leave_from-waiting :
    (p : Platform) (m : Machine) (from to : ℕ)
    → from ≢ to
    → is_waiting (slot_of m from).state ≡ true
    → Laid (slot_of m to)
    → CanRun p m.kernel.tasks to
    → is_ready (slot_of m to).state ≡ true
    → m.smoke_from ≡ none
    → Switches (only to) (with_current m to) (leave_from p m from to (m.kernel.tasks, Task.ok))
leave_from-waiting p m from to other h k d r unreserved =
    let t = m.kernel.tasks in
    let t' = moved t to running in
    let m' = with_current (with_tasks m t') to in
    let same : t'.slots from ≡ t.slots from = update_ne t.slots to from _ (λ e. other (sym e)) in
    Switches-moved (only to) (with_current m to) to running _ _ (ground arith)
      (leave_from-ok p m from to d r)
      (switch_stacks-waiting p m' from to (ap (λ (s : Tcb). is_waiting s.state) same ∙ h)
        (moved-Laid t to to running k) (moved-CanRun p t to to running refl d d) unreserved)
