-- ===== src/Dispatcher/Runner.antt =====
-- At most one RUNNING task: what dispatcher_switch_to of kernel/dispatcher.c does about it.
use itron_rtos.Common.{
  ℕ, ◌<◌, ◌≡◌, refl, sym, ap, inl, inr, true, false, some, arith, ◌==◌, Bool-cases, Control,
  AfterReturn,
}
use itron_rtos.Task
use itron_rtos.Task.{TaskTable, TaskResult, TaskContext, running, is_ready, is_running, max_tasks}
use itron_rtos.Task.Lookup.{change_task-ok, write_slot}
use itron_rtos.Task.Moves.{settle, mark_running, mark_ready_from_running}
use itron_rtos.Task.Ops.{runs_task, readies, finishes, run_call}
use itron_rtos.Task.Identity.{IdsOk, run_call-IdsOk}
use itron_rtos.Task.Running.{
  NoneRuns, write-NoNewRunner, run_call-NoNewRunner, run_call-NoneRuns, run_call-ready_stays,
}
use itron_rtos.Kernel.{Kernel}
use itron_rtos.Kernel.Runner.{RunnerOk, Quiet, NoNewRunner-RunnerOk}
use itron_rtos.Context.{Platform, Machine, slot_of, with_tasks}
use itron_rtos.Context.Kept.{Insensitive}
use itron_rtos.Dispatcher.{may_leave, run_next, leave_from, switch_to}
use itron_rtos.Dispatcher.Commit.{registered_ready, find_task-IdsOk, positive_id}
use itron_rtos.Dispatcher.Kept.{switch_stacks-Keeps}

abbrev run_at : TaskTable → ℕ → TaskTable
run_at t to = write_slot t to (settle running (t.slots to))

mark_running-IdsOk :
    (t : TaskTable) (to : ℕ)
    → IdsOk t
    → to < max_tasks
    → is_ready (t.slots to).state ≡ true
    → mark_running t (t.slots to).id ≡ (run_at t to, Task.ok)
unfolding mark_running
mark_running-IdsOk t to v lt h =
    let used = registered_ready (t.slots to).state h in
    rw (positive_id t to v lt used) (
      change_task-ok t (t.slots to).id to (λ s. is_ready s.state) (settle running)
        (find_task-IdsOk t to v lt used) h)

-- Where no task is RUNNING, the one that is marked is the only one.
run_at-RunnerOk :
    (k : Kernel) (to : ℕ)
    → Quiet k
    → to < max_tasks
    → is_ready (k.tasks.slots to).state ≡ true
    → RunnerOk (record k { tasks = run_at k.tasks to; current = some to })
unfolding run_call
run_at-RunnerOk k to q lt h = record {
  ids =
      rw (sym (ap (λ (r : TaskTable × TaskResult). r.0) (mark_running-IdsOk k.tasks to q.ids lt h)))
        (run_call-IdsOk (runs_task (k.tasks.slots to).id) k.tasks tt q.ids);
  inside = λ c e. ground arith;
  only = λ j l r. elim (Bool-cases (to == j)) [
    | inl same ↦ ground arith
    | inr other ↦ absurd (ground (arith, q.none_runs j l))
  ];
}

-- The entry functions of the tasks leave at most one task RUNNING.
abbrev pub EntriesKeepRunner : Platform → Type 0
EntriesKeepRunner p = (k : Kernel) (entry : ℕ) → RunnerOk k → RunnerOk (p.run_entry entry k)

module _ (p : Platform) (entries : EntriesKeepRunner p) where
  abbrev law : Insensitive p RunnerOk
  unfolding run_call
  law = record {
    to_context = λ k i c v.
        NoNewRunner-RunnerOk k
          (record k { tasks = write_slot k.tasks i (record (k.tasks.slots i) { context = c }) })
          (write-NoNewRunner k.tasks i (record (k.tasks.slots i) { context = c }) refl refl
            (λ h. h))
          refl v;
    to_finish = λ k task_id v.
        NoNewRunner-RunnerOk k (record k { tasks = (run_call (finishes task_id) k.tasks).0 })
          (run_call-NoNewRunner (finishes task_id) k.tasks refl tt) refl v;
    to_entries = entries;
  }

  abbrev pub KeepsRunner {ℓ} : {A : Type ℓ} → Control (Machine × A) → Type 0
  KeepsRunner = AfterReturn (λ r. RunnerOk r.0.kernel)

  leave_from-Quiet :
      (m : Machine) (from to : ℕ)
      → Quiet m.kernel
      → to < max_tasks
      → is_ready (slot_of m to).state ≡ true
      → KeepsRunner (leave_from p m from to (m.kernel.tasks, Task.ok))
  unfolding leave_from run_next
  leave_from-Quiet m from to q lt h =
      rw (mark_running-IdsOk m.kernel.tasks to q.ids lt h)
        (switch_stacks-Keeps p RunnerOk law _ from to (run_at-RunnerOk m.kernel to q lt h))

  -- `from` was RUNNING and has been marked READY, or could not be.
  leave_from-marked :
      (m : Machine) (from to : ℕ) (t : TaskTable) (r : TaskResult)
      → RunnerOk (with_tasks m t).kernel
      → (r ≡ Task.ok → NoneRuns t)
      → to < max_tasks
      → (r ≡ Task.ok → is_ready (t.slots to).state ≡ true)
      → KeepsRunner (leave_from p m from to (t, r))
  unfolding leave_from
  leave_from-marked m from to t Task.ok v none_runs lt h =
      leave_from-Quiet (with_tasks m t) from to
        (record { ids = v.ids; inside = v.inside; none_runs = none_runs refl }) lt (h refl)
  leave_from-marked m from to t Task.full v none_runs lt h = v
  leave_from-marked m from to t Task.inval v none_runs lt h = v
  leave_from-marked m from to t Task.id_overflow v none_runs lt h = v
  leave_from-marked m from to t Task.not_found v none_runs lt h = v
  leave_from-marked m from to t Task.bad_state v none_runs lt h = v

  leave_from-running :
      (m : Machine) (from to task_id : ℕ)
      → RunnerOk m.kernel
      → to < max_tasks
      → is_ready (slot_of m to).state ≡ true
      → KeepsRunner (leave_from p m from to (mark_ready_from_running m.kernel.tasks task_id))
  unfolding run_call
  leave_from-running m from to task_id v lt h =
      let t = m.kernel.tasks in
      let c = readies task_id in
      let (u, r) = run_call c t in
      leave_from-marked m from to u r
        (NoNewRunner-RunnerOk m.kernel (with_tasks m u).kernel (run_call-NoNewRunner c t refl tt)
          refl v)
        (λ good. run_call-NoneRuns c t m.kernel.current refl good v.only) lt
        λ good. run_call-ready_stays c t to refl good h

  -- The task that is left is the RUNNING one, or no task is RUNNING.
  pub switch_to-Runner :
      (m : Machine) (from to : ℕ)
      → RunnerOk m.kernel
      → to < max_tasks
      → (is_running (slot_of m from).state ≡ false → NoneRuns m.kernel.tasks)
      → KeepsRunner (switch_to p m (some from) (some to))
  unfolding switch_to
  switch_to-Runner m from to v lt stopped = elim (Bool-cases (from == to)) [
    | inl e ↦ rw (switch_to, e) v
    | inr e ↦ elim (Bool-cases (may_leave (slot_of m from).state)) [
      | inr f ↦ rw (switch_to, e, f) v
      | inl f ↦ elim (Bool-cases (is_ready (slot_of m to).state)) [
        | inr g ↦ rw (switch_to, e, f, g) v
        | inl g ↦ elim (Bool-cases (is_running (slot_of m from).state)) [
          | inl h ↦ rw (switch_to, e, f, g, h) (leave_from-running m from to _ v lt g)
          | inr h ↦
              rw (switch_to, e, f, g, h)
                (leave_from-Quiet m from to
                  (record { ids = v.ids; inside = v.inside; none_runs = stopped h }) lt g)
        ]
      ]
    ]
  ]
