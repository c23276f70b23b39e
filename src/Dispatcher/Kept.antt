-- ===== src/Dispatcher/Kept.antt =====
-- What dispatcher_switch_to and dispatcher_commit_current of kernel/dispatcher.c keep.
use itron_rtos.Common.{
  ℕ, inl, inr, not, ◌||◌, Option, none, some, ◌==◌, Bool-cases, AfterReturn->>=,
}
use itron_rtos.Task
use itron_rtos.Task.{TaskTable, TaskResult, is_ready, is_running, is_waiting}
use itron_rtos.Task.Moves.{mark_running, mark_ready_from_running}
use itron_rtos.Kernel.{Kernel}
use itron_rtos.Context
use itron_rtos.Context.{
  Platform, Machine, ContextResult, slot_of, prepare_initial_frame, switch_to_task,
  switch_to_task_pair,
}
use itron_rtos.Context.Kept.{
  Insensitive, KeepsWith, prepare-kept, switch_to_task-Keeps, switch_to_task_pair-Keeps,
}
use itron_rtos.Dispatcher.{
  may_leave, as_dispatch, enter_waiting_next, switch_stacks, run_next, leave_from, switch_to,
}

module _ (p : Platform) (P : Kernel → Type 0) (law : Insensitive p P) where
  enter_waiting_next-Keeps :
      (to : ℕ) (m : Machine) (r : ContextResult)
      → P m.kernel
      → KeepsWith p P law (enter_waiting_next p to (m, r))
  unfolding enter_waiting_next
  enter_waiting_next-Keeps to m Context.ok v =
      AfterReturn->>= (λ a. P a.0.kernel) (λ a. P a.0.kernel) (switch_to_task p m to) as_dispatch
        (switch_to_task-Keeps p P law m to v) λ (_, _) v'. v'
  enter_waiting_next-Keeps to m Context.inval v = v
  enter_waiting_next-Keeps to m Context.bad_state v = v

  pub switch_stacks-Keeps :
      (m : Machine) (from to : ℕ) → P m.kernel → KeepsWith p P law (switch_stacks p m from to)
  unfolding switch_stacks
  switch_stacks-Keeps m from to v = elim (Bool-cases (is_waiting (slot_of m from).state)) [
    | inl e ↦
        let (m', r) = prepare_initial_frame p m to in
        rw (switch_stacks, e) (enter_waiting_next-Keeps to m' r (prepare-kept p P law m to v))
    | inr e ↦
        rw (switch_stacks, e)
          (AfterReturn->>= (λ a. P a.0.kernel) (λ a. P a.0.kernel) (switch_to_task_pair p m from to)
            as_dispatch (switch_to_task_pair-Keeps p P law m from to v) λ (_, _) v'. v')
  ]

module _ (p : Platform) (P : Kernel → Type 0) (law : Insensitive p P)
    (to_tasks : (k : Kernel) (tasks : TaskTable) (current : Option ℕ)
      → P k
      → P (record k { tasks = tasks; current = current })) where
  run_next-Keeps :
      (m : Machine) (from to : ℕ) (t : TaskTable) (r : TaskResult)
      → P m.kernel
      → KeepsWith p P law (run_next p m from to (t, r))
  unfolding run_next
  run_next-Keeps m from to t Task.ok v =
      switch_stacks-Keeps p P law
        (record m { kernel = record m.kernel { tasks = t; current = some to } }) from to
        (to_tasks m.kernel t (some to) v)
  run_next-Keeps m from to t Task.full v = to_tasks m.kernel t m.kernel.current v
  run_next-Keeps m from to t Task.inval v = to_tasks m.kernel t m.kernel.current v
  run_next-Keeps m from to t Task.id_overflow v = to_tasks m.kernel t m.kernel.current v
  run_next-Keeps m from to t Task.not_found v = to_tasks m.kernel t m.kernel.current v
  run_next-Keeps m from to t Task.bad_state v = to_tasks m.kernel t m.kernel.current v

  leave_from-Keeps :
      (m : Machine) (from to : ℕ) (t : TaskTable) (r : TaskResult)
      → P m.kernel
      → KeepsWith p P law (leave_from p m from to (t, r))
  unfolding leave_from
  leave_from-Keeps m from to t Task.ok v =
      let (t', r) = mark_running t (t.slots to).id in
      run_next-Keeps (Context.with_tasks m t) from to t' r (to_tasks m.kernel t m.kernel.current v)
  leave_from-Keeps m from to t Task.full v = to_tasks m.kernel t m.kernel.current v
  leave_from-Keeps m from to t Task.inval v = to_tasks m.kernel t m.kernel.current v
  leave_from-Keeps m from to t Task.id_overflow v = to_tasks m.kernel t m.kernel.current v
  leave_from-Keeps m from to t Task.not_found v = to_tasks m.kernel t m.kernel.current v
  leave_from-Keeps m from to t Task.bad_state v = to_tasks m.kernel t m.kernel.current v

  pub switch_to-Keeps :
      (m : Machine) (from to : Option ℕ) → P m.kernel → KeepsWith p P law (switch_to p m from to)
  unfolding switch_to
  switch_to-Keeps m none to v = v
  switch_to-Keeps m (some from) none v = v
  switch_to-Keeps m (some from) (some to) v = elim (Bool-cases (from == to)) [
    | inl e ↦ rw (switch_to, e) v
    | inr e ↦
        elim (Bool-cases
          (not (may_leave (slot_of m from).state) || not (is_ready (slot_of m to).state))) [
            | inl f ↦ rw (switch_to, e, f) v
            | inr f ↦ elim (Bool-cases (is_running (slot_of m from).state)) [
              | inl g ↦
                  let (t, r) = mark_ready_from_running m.kernel.tasks (slot_of m from).id in
                  rw (switch_to, e, f, g) (leave_from-Keeps m from to t r v)
              | inr g ↦
                  rw (switch_to, e, f, g) (leave_from-Keeps m from to m.kernel.tasks Task.ok v)
            ]
          ]
  ]
