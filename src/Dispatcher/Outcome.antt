-- ===== src/Dispatcher/Outcome.antt =====
-- What dispatcher_switch_to of kernel/dispatcher.c comes to, from a RUNNING, READY or WAITING task
-- to a READY one, where the entry functions of the tasks leave the kernel as it is.
use itron_rtos.Common.{
  ℕ, ◌≡◌, ◌≢◌, refl, sym, subst, ap, ◌∙◌, inl, inr, true, false, ◌||◌, none, some, ◌==◌,
  update_self, update_ne, Bool-cases, arith,
}
use itron_rtos.Task
use itron_rtos.Task.{
  Tcb, TaskTable, TaskState, unused, dormant, ready, running, waiting, is_unused, is_running,
  is_ready, is_waiting,
}
use itron_rtos.Task.Moves.{settle, mark_ready_from_running}
use itron_rtos.Context.{Platform, Machine, slot_of, with_tasks}
use itron_rtos.Context.Entering.{CanRun}
use itron_rtos.Context.Stacks.{Apart}
use itron_rtos.Context.Runs.{only, either}
use itron_rtos.Context.Frames.{Laid}
use itron_rtos.Dispatcher.{switch_to, leave_from, may_leave}
use itron_rtos.Dispatcher.Moving.{moved, moved-CanRun, moved-Laid, moved-Apart}
use itron_rtos.Dispatcher.Switching.{
  with_current, Switches, Switches-moved, mark_ready-CanRun, leave_from-pair, leave_from-waiting,
}

not_waiting : (u : TaskState) → (is_running u || is_ready u) ≡ true → is_waiting u ≡ false
not_waiting running h = refl
not_waiting ready h = refl
not_waiting waiting h = absurd (cc h)
not_waiting unused h = absurd (cc h)
not_waiting dormant h = absurd (cc h)

may_leave_runs : (u : TaskState) → (is_running u || is_ready u) ≡ true → may_leave u ≡ true
may_leave_runs running h = refl
may_leave_runs ready h = refl
may_leave_runs waiting h = absurd (cc h)
may_leave_runs unused h = absurd (cc h)
may_leave_runs dormant h = absurd (cc h)

-- The guards of dispatcher_switch_to, passed.
switch_to-running :
    (p : Platform) (m : Machine) (from to : ℕ)
    → (from == to) ≡ false
    → may_leave (slot_of m from).state ≡ true
    → is_ready (slot_of m to).state ≡ true
    → is_running (slot_of m from).state ≡ true
    → switch_to p m (some from) (some to)
      ≡ leave_from p m from to (mark_ready_from_running m.kernel.tasks (slot_of m from).id)
unfolding switch_to
switch_to-running p m from to a b c d = rw (switch_to, a, b, c, d) refl

switch_to-not_running :
    (p : Platform) (m : Machine) (from to : ℕ)
    → (from == to) ≡ false
    → may_leave (slot_of m from).state ≡ true
    → is_ready (slot_of m to).state ≡ true
    → is_running (slot_of m from).state ≡ false
    → switch_to p m (some from) (some to) ≡ leave_from p m from to (m.kernel.tasks, Task.ok)
unfolding switch_to
switch_to-not_running p m from to a b c d = rw (switch_to, a, b, c, d) refl

leave_from-tasks :
    (p : Platform) (m : Machine) (from to : ℕ) (t : TaskTable)
    → leave_from p m from to (t, Task.ok) ≡ leave_from p (with_tasks m t) from to (t, Task.ok)
unfolding leave_from
leave_from-tasks p m from to t = refl

-- Both tasks are registered, with ids that lead to them, a valid stack and an entry function that
-- leaves the kernel as it is; their stacks do not overlap, and the run of `from` stays on its own;
-- `from` is RUNNING or READY and `to` is READY: dispatcher_switch_to then comes back with success. Both are then DORMANT, with no wait left over and nothing
-- else of them changed but the saved registers; every other task, the semaphores, the delay queue
-- and the pending request are as before, and `to` is the dispatcher's current task.
pub switch_to-Switches :
    (p : Platform) (m : Machine) (from to : ℕ)
    → from ≢ to
    → Laid (slot_of m from)
    → Laid (slot_of m to)
    → CanRun p m.kernel.tasks from
    → CanRun p m.kernel.tasks to
    → Apart p (slot_of m from) (slot_of m to)
    → is_ready (slot_of m to).state ≡ true
    → Switches (either from to) (with_current m to) (switch_to p m (some from) (some to))
switch_to-Switches p m from to other l k c d apart_stacks r =
    let t = m.kernel.tasks in
    let apart : (from == to) ≡ false = ground (arith, other) in
    let may = may_leave_runs (t.slots from).state c.fit.may_end in
    elim (Bool-cases (is_running (t.slots from).state)) [
      | inr e ↦
          subst (Switches (either from to) (with_current m to))
            (sym (switch_to-not_running p m from to apart may r e))
            (leave_from-pair p m from to other (not_waiting (t.slots from).state c.fit.may_end) l k
              c d apart_stacks r)
      | inl e ↦
          let t' = moved t from ready in
          let now : t'.slots from ≡ settle ready (t.slots from) = update_self t.slots from _ in
          let same : t'.slots to ≡ t.slots to = update_ne t.slots from to _ other in
          Switches-moved (either from to) (with_current m to) from ready _ _ (ground arith)
            (switch_to-running p m from to apart may r e
              ∙ ap (leave_from p m from to) (mark_ready-CanRun p t from c e)
              ∙ leave_from-tasks p m from to t')
            (leave_from-pair p (with_tasks m t') from to other
              (ap (λ (s : Tcb). is_waiting s.state) now) (moved-Laid t from from ready l)
              (moved-Laid t to from ready k) (moved-CanRun p t from from ready refl c c)
              (moved-CanRun p t to from ready refl d c)
              (moved-Apart p t from to from ready apart_stacks)
              (ap (λ (s : Tcb). is_ready s.state) same ∙ r))
    ]

-- `from` is WAITING, and `to` is READY and registered, with an id that leads to it, a valid stack
-- and an entry function that leaves the kernel as it is; no pair is reserved: dispatcher_switch_to
-- then comes back with success. `to` is then DORMANT, with no wait left over, and the
-- dispatcher's current task. Every other task, `from` and its wait included, the semaphores, the
-- delay queue and the pending request are as before.
pub switch_to_from_waiting-Switches :
    (p : Platform) (m : Machine) (from to : ℕ)
    → from ≢ to
    → is_waiting (slot_of m from).state ≡ true
    → Laid (slot_of m to)
    → CanRun p m.kernel.tasks to
    → is_ready (slot_of m to).state ≡ true
    → m.smoke_from ≡ none
    → Switches (only to) (with_current m to) (switch_to p m (some from) (some to))
switch_to_from_waiting-Switches p m from to other w k d r unreserved =
    let apart : (from == to) ≡ false = ground (arith, other) in
    let (may, e) = waits (slot_of m from).state w in
    subst (Switches (only to) (with_current m to))
      (sym (switch_to-not_running p m from to apart may r e))
      (leave_from-waiting p m from to other w k d r unreserved)
  where
    waits : (u : TaskState) → is_waiting u ≡ true → (may_leave u ≡ true) × (is_running u ≡ false)
    waits waiting h = (refl, refl)
    waits running h = absurd (cc h)
    waits ready h = absurd (cc h)
    waits unused h = absurd (cc h)
    waits dormant h = absurd (cc h)
