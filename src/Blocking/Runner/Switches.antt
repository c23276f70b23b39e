-- ===== src/Blocking/Runner/Switches.antt =====
-- At most one RUNNING task: the switches of kernel/itron_api.c and of the exit boundary of the timer
-- interrupt.
use itron_rtos.Common.{
  ℕ, ◌<◌, ◌≡◌, refl, sym, ◌∙◌, inl, inr, true, Bool, Option, none, some, ◌==◌, Bool-cases, arith,
  Option-cases, AfterReturn->>=, comes_back,
}
use itron_rtos.Task
use itron_rtos.Task.{TaskTable, TaskResult, TaskState, is_running, is_ready, max_tasks}
use itron_rtos.Task.Lookup.{task_get_by_id, task_get_by_id-found, find_task-id}
use itron_rtos.Task.Ops.{readies, run_call}
use itron_rtos.Scheduler.{select_next}
use itron_rtos.Kernel.Runner.{RunnerOk, Quiet, Quiet-RunnerOk}
use itron_rtos.Api.{e_ok}
use itron_rtos.Context.{Platform, Machine, slot_of, with_tasks}
use itron_rtos.Dispatcher.{switch_to}
use itron_rtos.Dispatcher.Runner.{EntriesKeepRunner, KeepsRunner, switch_to-Runner}
use itron_rtos.Boundary.{dispatched, dispatch_between, consume, clear_request, if_in_state}
use itron_rtos.Blocking.{
  er_of, switch_found, switch_away, take_step, yield_found, yielded, yield_tsk,
}
use itron_rtos.Blocking.Begin.{Step, done, switches}
use itron_rtos.Blocking.Runner.{StepRunner, Marked, Marked-Quiet, run_call-Marked}

task_get_by_id-inside : (t : TaskTable) (a j : ℕ) → task_get_by_id t a ≡ some j → j < max_tasks
task_get_by_id-inside t a j h = (find_task-id t a j (task_get_by_id-found t a j h).1).2

if_in_state-found :
    (t : TaskTable) (good : TaskState → Bool) (o : Option ℕ) (i : ℕ)
    → if_in_state t good o ≡ some i
    → (o ≡ some i) × (good (t.slots i).state ≡ true)
unfolding if_in_state
if_in_state-found t good none i h = absurd (cc h)
if_in_state-found t good (some j) i h = elim (Bool-cases (good (t.slots j).state)) [
  | inl e ↦ let same = rw e at (h) in (same, ground (arith, same))
  | inr e ↦ absurd (cc (rw e at (h)))
]

cleared-RunnerOk : (m : Machine) → RunnerOk m.kernel → RunnerOk (clear_request m).kernel
cleared-RunnerOk m v = record { ids = v.ids; inside = v.inside; only = v.only }

module _ (p : Platform) (entries : EntriesKeepRunner p) where
  switch_found-Runner :
      (m : Machine) (from to : Option ℕ)
      → Quiet m.kernel
      → ((j : ℕ) → to ≡ some j → j < max_tasks)
      → KeepsRunner p entries (switch_found p m from to)
  unfolding switch_found
  switch_found-Runner m none to q lt = Quiet-RunnerOk m.kernel q
  switch_found-Runner m (some from) none q lt = Quiet-RunnerOk m.kernel q
  switch_found-Runner m (some from) (some to) q lt =
      AfterReturn->>= (λ a. RunnerOk a.0.kernel) (λ a. RunnerOk a.0.kernel)
        (switch_to p m (some from) (some to)) (λ (m', r). comes_back (m', er_of r))
        (switch_to-Runner p entries m from to (Quiet-RunnerOk m.kernel q) (lt to refl)
          λ h. q.none_runs)
        λ (_, _) v'. v'

  switch_away-Runner :
      (m : Machine) (current : ℕ) → Quiet m.kernel → KeepsRunner p entries (switch_away p m current)
  unfolding switch_away
  switch_away-Runner m current q = elim (Option-cases (select_next m.kernel.tasks)) [
    | inl e ↦ rw (switch_away, e) (Quiet-RunnerOk m.kernel q)
    | inr (next, e) ↦
        rw (switch_away, e) (switch_found-Runner m _ _ q (task_get_by_id-inside m.kernel.tasks _))
  ]

  pub take_step-Runner :
      (m : Machine) (s : Step) → StepRunner s → KeepsRunner p entries (take_step p m s)
  unfolding take_step
  take_step-Runner m (done k er) v = v
  take_step-Runner m (switches k current) q = switch_away-Runner (record m { kernel = k }) current q

  yield_found-Runner :
      (m : Machine) (from to : Option ℕ)
      → Quiet m.kernel
      → ((j : ℕ) → to ≡ some j → j < max_tasks)
      → KeepsRunner p entries (yield_found p m from to)
  unfolding yield_found
  yield_found-Runner m none to q lt = Quiet-RunnerOk m.kernel q
  yield_found-Runner m (some from) none q lt = Quiet-RunnerOk m.kernel q
  yield_found-Runner m (some from) (some to) q lt =
      AfterReturn->>= (λ a. RunnerOk a.0.kernel) (λ a. RunnerOk a.0.kernel)
        (switch_to p m (some from) (some to)) (λ (m', r). comes_back (m', e_ok))
        (switch_to-Runner p entries m from to (Quiet-RunnerOk m.kernel q) (lt to refl)
          λ h. q.none_runs)
        λ (_, _) v'. v'

  yielded-Runner :
      (m : Machine) (current : ℕ) (t : TaskTable) (r : TaskResult)
      → Marked m.kernel t r
      → KeepsRunner p entries (yielded p m current (t, r))
  unfolding yielded
  yielded-Runner m current t Task.ok v = elim (Option-cases (select_next t)) [
    | inl e ↦ rw (yielded, e) v.whole
    | inr (next, e) ↦ elim (Bool-cases ((t.slots next).id == (t.slots current).id)) [
      | inl same ↦ rw (yielded, e, same) v.whole
      | inr other ↦
          rw (yielded, e, other)
            (yield_found-Runner (with_tasks m t) _ _ (Marked-Quiet m.kernel t v)
              (task_get_by_id-inside t _))
    ]
  ]
  yielded-Runner m current t Task.full v = v.whole
  yielded-Runner m current t Task.inval v = v.whole
  yielded-Runner m current t Task.id_overflow v = v.whole
  yielded-Runner m current t Task.not_found v = v.whole
  yielded-Runner m current t Task.bad_state v = v.whole

  pub yield_tsk-Runner : (m : Machine) → RunnerOk m.kernel → KeepsRunner p entries (yield_tsk p m)
  unfolding yield_tsk run_call
  yield_tsk-Runner m v = elim (Option-cases m.kernel.current) [
    | inl e ↦ simp (yield_tsk, e) v
    | inr (c, e) ↦ elim (Bool-cases (is_running (slot_of m c).state)) [
      | inr stopped ↦ simp (yield_tsk, e, stopped) v
      | inl runs ↦
          simp (yield_tsk, e, runs)
            (yielded-Runner m c _ _
              (run_call-Marked (readies (slot_of m c).id) m.kernel refl refl tt v))
    ]
  ]

  dispatch_between-Runner :
      (m : Machine) (from to : Option ℕ)
      → RunnerOk m.kernel
      → ((i : ℕ) → from ≡ some i → is_running (slot_of m i).state ≡ true)
      → ((j : ℕ) → to ≡ some j → j < max_tasks)
      → KeepsRunner p entries (dispatch_between p m from to)
  unfolding dispatch_between
  dispatch_between-Runner m none to v runs lt = cleared-RunnerOk m v
  dispatch_between-Runner m (some from) none v runs lt = cleared-RunnerOk m v
  dispatch_between-Runner m (some from) (some to) v runs lt =
      AfterReturn->>= (λ a. RunnerOk a.0.kernel) (λ a. RunnerOk a.0.kernel)
        (switch_to p m (some from) (some to))
        (λ (m', r). comes_back (clear_request m', dispatched r))
        (switch_to-Runner p entries m from to v (lt to refl)
          λ h. absurd (cc (sym (runs from refl) ∙ h)))
        λ (m', _) v'. cleared-RunnerOk m' v'

  pub consume-Runner : (m : Machine) → RunnerOk m.kernel → KeepsRunner p entries (consume p m)
  unfolding consume
  consume-Runner m v = elim (Bool-cases m.kernel.pending.requested) [
    | inr e ↦ simp (consume, e) v
    | inl e ↦
        simp (consume, e)
          (dispatch_between-Runner m _ _ v
            (λ i h. (if_in_state-found m.kernel.tasks is_running _ i h).1)
            λ j h.
              task_get_by_id-inside m.kernel.tasks _ j
                (if_in_state-found m.kernel.tasks is_ready _ j h).0)
  ]
