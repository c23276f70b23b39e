-- ===== src/Blocking/Switches.antt =====
-- What the calls of kernel/itron_api.c that switch tasks keep, and the consumption of a request of
-- kernel/dispatch_pending.c.
use itron_rtos.Common.{
  ℕ, refl, inl, inr, Option, none, some, ◌==◌, Bool-cases, Option-cases, Control, AfterReturn,
  AfterReturn->>=, comes_back,
}
use itron_rtos.Task
use itron_rtos.Task.{TaskTable, TaskResult, TaskState, is_running, is_ready}
use itron_rtos.Task.Moves.{mark_ready_from_running}
use itron_rtos.Scheduler.{select_next}
use itron_rtos.Kernel.{Kernel}
use itron_rtos.Api.{e_ok}
use itron_rtos.Api.Invariant.{KernelOk}
use itron_rtos.Context.{Platform, Machine, slot_of, with_tasks}
use itron_rtos.Context.Kept.{Insensitive}
use itron_rtos.Dispatcher.{switch_to}
use itron_rtos.Dispatcher.Kept.{switch_to-Keeps}
use itron_rtos.Boundary.{dispatched, dispatch_between, consume, clear_request}
use itron_rtos.Blocking.{
  er_of, switch_found, switch_away, take_step, yield_found, yielded, yield_tsk,
}
use itron_rtos.Blocking.Begin.{Step, done, switches}
use itron_rtos.Blocking.Kept.{StepOk}

-- The entry functions of the tasks leave the semaphores, the delay queue and the request in order.
abbrev pub EntriesKeep : Platform → Type 0
EntriesKeep p = (k : Kernel) (entry : ℕ) → KernelOk k → KernelOk (p.run_entry entry k)

module _ (p : Platform) (entries : EntriesKeep p) where
  abbrev pub insensitive : Insensitive p KernelOk
  insensitive = record {
    to_context = λ k i c v. v;
    to_finish = λ k task_id v. v;
    to_entries = entries;
  }

  -- The call does not run out of the model's fuel, and where it comes back the kernel is in order.
  abbrev pub Keeps {ℓ} : {A : Type ℓ} → Control (Machine × A) → Type 0
  Keeps = AfterReturn (λ r. KernelOk r.0.kernel)

  switch_found-Keeps :
      (m : Machine) (from to : Option ℕ) → KernelOk m.kernel → Keeps (switch_found p m from to)
  unfolding switch_found
  switch_found-Keeps m none to v = v
  switch_found-Keeps m (some from) none v = v
  switch_found-Keeps m (some from) (some to) v =
      AfterReturn->>= (λ a. KernelOk a.0.kernel) (λ a. KernelOk a.0.kernel)
        (switch_to p m (some from) (some to)) (λ (m', r). comes_back (m', er_of r))
        (switch_to-Keeps p KernelOk insensitive (λ k tasks current v. v) m (some from) (some to) v)
        λ (_, _) v'. v'

  switch_away-Keeps :
      (m : Machine) (current : ℕ) → KernelOk m.kernel → Keeps (switch_away p m current)
  unfolding switch_away
  switch_away-Keeps m current v = elim (Option-cases (select_next m.kernel.tasks)) [
    | inl e ↦ rw (switch_away, e) v
    | inr (next, e) ↦ rw (switch_away, e) (switch_found-Keeps m _ _ v)
  ]

  pub take_step-Keeps : (m : Machine) (s : Step) → StepOk s → Keeps (take_step p m s)
  unfolding take_step
  take_step-Keeps m (done k er) v = v
  take_step-Keeps m (switches k current) v = switch_away-Keeps (record m { kernel = k }) current v

  yield_found-Keeps :
      (m : Machine) (from to : Option ℕ) → KernelOk m.kernel → Keeps (yield_found p m from to)
  unfolding yield_found
  yield_found-Keeps m none to v = v
  yield_found-Keeps m (some from) none v = v
  yield_found-Keeps m (some from) (some to) v =
      AfterReturn->>= (λ a. KernelOk a.0.kernel) (λ a. KernelOk a.0.kernel)
        (switch_to p m (some from) (some to)) (λ (m', r). comes_back (m', e_ok))
        (switch_to-Keeps p KernelOk insensitive (λ k tasks current v. v) m (some from) (some to) v)
        λ (_, _) v'. v'

  yielded-Keeps :
      (m : Machine) (current : ℕ) (t : TaskTable) (r : TaskResult)
      → KernelOk m.kernel
      → Keeps (yielded p m current (t, r))
  unfolding yielded
  yielded-Keeps m current t Task.ok v = elim (Option-cases (select_next t)) [
    | inl e ↦ rw (yielded, e) v
    | inr (next, e) ↦ elim (Bool-cases ((t.slots next).id == (t.slots current).id)) [
      | inl same ↦ rw (yielded, e, same) v
      | inr other ↦ rw (yielded, e, other) (yield_found-Keeps (with_tasks m t) _ _ v)
    ]
  ]
  yielded-Keeps m current t Task.full v = v
  yielded-Keeps m current t Task.inval v = v
  yielded-Keeps m current t Task.id_overflow v = v
  yielded-Keeps m current t Task.not_found v = v
  yielded-Keeps m current t Task.bad_state v = v

  pub yield_tsk-Keeps : (m : Machine) → KernelOk m.kernel → Keeps (yield_tsk p m)
  unfolding yield_tsk
  yield_tsk-Keeps m v = elim (Option-cases m.kernel.current) [
    | inl e ↦ rw (yield_tsk, e) v
    | inr (c, e) ↦ elim (Bool-cases (is_running (slot_of m c).state)) [
      | inr stopped ↦ rw (yield_tsk, e, stopped) v
      | inl runs ↦
          let (t, r) = mark_ready_from_running m.kernel.tasks (slot_of m c).id in
          rw (yield_tsk, e, runs) (yielded-Keeps m c t r v)
    ]
  ]

  dispatch_between-Keeps :
      (m : Machine) (from to : Option ℕ) → KernelOk m.kernel → Keeps (dispatch_between p m from to)
  unfolding dispatch_between
  dispatch_between-Keeps m none to v = (v.0, v.1, inl refl)
  dispatch_between-Keeps m (some from) none v = (v.0, v.1, inl refl)
  dispatch_between-Keeps m (some from) (some to) v =
      AfterReturn->>= (λ a. KernelOk a.0.kernel) (λ a. KernelOk a.0.kernel)
        (switch_to p m (some from) (some to))
        (λ (m', r). comes_back (clear_request m', dispatched r))
        (switch_to-Keeps p KernelOk insensitive (λ k tasks current v. v) m (some from) (some to) v)
        λ (_, _) v'. (v'.0, v'.1, inl refl)

  pub consume-Keeps : (m : Machine) → KernelOk m.kernel → Keeps (consume p m)
  unfolding consume
  consume-Keeps m v = elim (Bool-cases m.kernel.pending.requested) [
    | inr e ↦ rw (consume, e) v
    | inl e ↦ rw (consume, e) (dispatch_between-Keeps m _ _ v)
  ]
