-- ===== src/Boot/Restores.antt =====
-- kernel_run_preemption_smoke of kernel/kernel.c puts the tasks back that it borrows.
use itron_rtos.Common.{
  ℕ, ◌≡◌, refl, sym, ap, ◌∙◌, subst, fun_ext, inl, inr, [], ◌==◌, Bool, true, false, some,
  Bool-cases, Option-cases, arith, update_self,
}
use itron_rtos.Task
use itron_rtos.Task.{
  Tcb, TaskTable, TaskResult, TaskState, unused, dormant, ready, running, waiting, WaitReason,
  no_reason, is_ready, is_running,
}
use itron_rtos.Task.Lookup.{
  task_get_by_id, task_get_by_id-found, change_task-ok, find_task, find_task-id, find_task-write,
}
use itron_rtos.Task.Moves.{settle, mark_running, mark_ready_from_running}
use itron_rtos.Task.Outcome.{WaitsOk}
use itron_rtos.Task.Waits.{AllWaitsOk}
use itron_rtos.DelayQueue.Contents.{contents}
use itron_rtos.DelayQueue.Ageing.{left, visit_all}
use itron_rtos.DelayQueue.Tick.{Tables}
use itron_rtos.Kernel.{Kernel, timer_tick}
use itron_rtos.Kernel.Timer.{timer_tick-Ticked}
use itron_rtos.Dispatcher
use itron_rtos.Dispatcher.{DispatchResult, commit_current, commit_marked}
use itron_rtos.Dispatcher.Moving.{moved}
use itron_rtos.Cooperative.Repeats.{moved_twice}
use itron_rtos.Boot.{succeeded, and_then, commit, commit_id}
use itron_rtos.Boot.Observe.{decision_smoke, decide_and_return, decision_from, preemption_smoke}

is_ready-ready : (u : TaskState) → is_ready u ≡ true → u ≡ ready
is_ready-ready ready h = refl
is_ready-ready running h = absurd (cc h)
is_ready-ready dormant h = absurd (cc h)
is_ready-ready waiting h = absurd (cc h)
is_ready-ready unused h = absurd (cc h)

-- A READY task with nothing left over of a wait is as task_mark_ready_from_running leaves it.
settle-ready : (s : Tcb) → is_ready s.state ≡ true → WaitsOk s → settle ready s ≡ s
settle-ready s h w =
    let e = is_ready-ready s.state h in
    let (reason, sem_id, ticks) = rw e at (w) in
    ap
      (λ (u : TaskState). record s {
        state = u;
        wait_reason = no_reason;
        wait_sem_id = 0;
        delay_ticks_remaining = 0;
      })
      (sym e)
    ∙ ap
        (λ (u : WaitReason). record s {
          wait_reason = u;
          wait_sem_id = 0;
          delay_ticks_remaining = 0;
        })
        (sym reason)
    ∙ ap (λ (u : ℕ). record s { wait_sem_id = u; delay_ticks_remaining = 0 }) (sym sem_id)
    ∙ ap (λ (u : ℕ). record s { delay_ticks_remaining = u }) (sym ticks)

moved-ready :
    (t : TaskTable) (i : ℕ)
    → is_ready (t.slots i).state ≡ true
    → WaitsOk (t.slots i)
    → moved t i ready ≡ t
moved-ready t i h w =
    ap (λ (f : ℕ → Tcb). let t' : TaskTable = record t { slots = f } in t')
      (fun_ext λ j. elim (Bool-cases (i == j)) [
        | inl e ↦
            let same : i ≡ j = ground arith in
            rw e (settle-ready (t.slots i) h w ∙ ap (λ (n : ℕ). t.slots n) same)
        | inr e ↦ rw e refl
      ])

-- The tasks, the semaphores and the request are as before, and no task waits for the time.
pub record Restored (k k' : Kernel) : Type 0 where
  pub tasks : k'.tasks ≡ k.tasks
  pub sems : k'.sems ≡ k.sems
  pub empty : contents k'.delays ≡ []
  pub pending : k'.pending ≡ k.pending

Restored-trans : (k k' k'' : Kernel) → Restored k k' → Restored k' k'' → Restored k k''
Restored-trans k k' k'' a b = record {
  tasks = b.tasks ∙ a.tasks;
  sems = b.sems ∙ a.sems;
  empty = b.empty;
  pending = b.pending ∙ a.pending;
}

timer_tick-Restored : (k : Kernel) → contents k.delays ≡ [] → Restored k (timer_tick k)
timer_tick-Restored k h =
    let w : Tables = record { tasks = k.tasks; sems = k.sems } in
    let t = timer_tick-Ticked k in
    let same = t.all_visited ∙ ap (visit_all w) h in
    record {
      tasks = ap (λ (u : Tables). u.tasks) same;
      sems = ap (λ (u : Tables). u.sems) same;
      empty = t.queue_left ∙ ap left h;
      pending = t.same_pending;
    }

module _ (k : Kernel) (task_id i : ℕ) (found : task_get_by_id k.tasks task_id ≡ some i)
    (may : is_ready (k.tasks.slots i).state ≡ true) where
  abbrev borrowed : TaskTable
  borrowed = moved k.tasks i running

  marked : mark_running k.tasks (k.tasks.slots i).id ≡ (borrowed, Task.ok)
  unfolding mark_running
  marked =
      let (pos, at_i) = task_get_by_id-found k.tasks task_id i found in
      let (same_id, _, _) = find_task-id k.tasks task_id i at_i in
      ap (mark_running k.tasks) same_id
      ∙ rw pos (change_task-ok k.tasks task_id i (λ s. is_ready s.state) (settle running) at_i may)

  found_again : find_task borrowed task_id ≡ some i
  found_again =
      let (_, at_i) = task_get_by_id-found k.tasks task_id i found in
      let (_, used, _) = find_task-id k.tasks task_id i at_i in
      find_task-write k.tasks task_id i (settle running (k.tasks.slots i)) (ground (arith, used))
      ∙ at_i

  returned : (mark_ready_from_running borrowed task_id).0 ≡ moved k.tasks i ready
  unfolding mark_ready_from_running
  returned =
      let (pos, _) = task_get_by_id-found k.tasks task_id i found in
      let now = update_self k.tasks.slots i (settle running (k.tasks.slots i)) in
      let runs : is_running (borrowed.slots i).state ≡ true =
        ap (λ (s : Tcb). is_running s.state) now in
      rw pos (
        ap (λ (r : TaskTable × TaskResult). r.0)
          (change_task-ok borrowed task_id i (λ s. is_running s.state) (settle ready) found_again
            runs)
        ∙ moved_twice k.tasks i running ready)

  abbrev lent : Kernel
  lent = record k { tasks = borrowed; current = some i }

  current_commits : commit_current k (some i) ≡ (lent, Dispatcher.ok)
  unfolding commit_current commit_marked
  current_commits = rw (commit_current, may) (ap (commit_marked k i) marked)

  commits : commit_id k task_id ≡ (lent, true)
  unfolding commit_id commit
  commits =
      ap (commit k) found
      ∙ ap (λ (r : Kernel × DispatchResult). (r.0, succeeded r.1)) current_commits

  return-Restored :
      WaitsOk (k.tasks.slots i)
      → contents k.delays ≡ []
      → Restored k (decide_and_return task_id lent)
  unfolding decide_and_return decision_smoke
  return-Restored w h =
      let r = timer_tick-Restored lent h in
      record {
        tasks =
            ap (λ (t : TaskTable). (mark_ready_from_running t task_id).0) r.tasks
            ∙ returned
            ∙ moved-ready k.tasks i may w;
        sems = r.sems;
        empty = r.empty;
        pending = r.pending;
      }

nothing_lent :
    (k : Kernel) (task_id : ℕ)
    → contents k.delays ≡ []
    → commit_id k task_id ≡ (k, false)
    → Restored k (decision_from task_id k)
unfolding decision_from
nothing_lent k task_id h e =
    subst (λ (r : Kernel × Bool). Restored k (and_then r (decide_and_return task_id))) (sym e)
      (record { tasks = refl; sems = refl; empty = h; pending = refl })

commit_current-refused :
    (k : Kernel) (i : ℕ)
    → is_ready (k.tasks.slots i).state ≡ false
    → commit_current k (some i) ≡ (k, Dispatcher.bad_state)
unfolding commit_current
commit_current-refused k i h = rw (commit_current, h) refl

decision_from-Restored :
    (task_id : ℕ) (k : Kernel)
    → AllWaitsOk k.tasks
    → contents k.delays ≡ []
    → Restored k (decision_from task_id k)
unfolding decision_from commit_id commit commit_current
decision_from-Restored task_id k w h = elim (Option-cases (task_get_by_id k.tasks task_id)) [
  | inl e ↦ nothing_lent k task_id h (ap (commit k) e)
  | inr (i, e) ↦ elim (Bool-cases (is_ready (k.tasks.slots i).state)) [
    | inr not_ready ↦ nothing_lent k task_id h (
        ap (commit k) e
        ∙ ap (λ (r : Kernel × DispatchResult). (r.0, succeeded r.1))
            (commit_current-refused k i not_ready))
    | inl may ↦
        subst (λ (r : Kernel × Bool). Restored k (and_then r (decide_and_return task_id)))
          (sym (commits k task_id i e may)) (return-Restored k task_id i e may (w i) h)
  ]
]

-- No task waits for the time, and the wait fields of every task agree with its state. Then
-- kernel_run_preemption_smoke leaves every task as it was, the two that it makes RUNNING to compare
-- others with included, and the semaphores and the request, and still no task waits for the time.
pub preemption_smoke-Restored :
    (low_task_id high_task_id : ℕ) (k : Kernel)
    → AllWaitsOk k.tasks
    → contents k.delays ≡ []
    → Restored k (preemption_smoke low_task_id high_task_id k)
unfolding preemption_smoke decision_smoke
preemption_smoke-Restored low high k w h =
    let k1 = timer_tick k in
    let r1 = timer_tick-Restored k h in
    let w1 : AllWaitsOk k1.tasks = subst AllWaitsOk (sym r1.tasks) w in
    let k2 = decision_from low k1 in
    let r2 = decision_from-Restored low k1 w1 r1.empty in
    let w2 : AllWaitsOk k2.tasks = subst AllWaitsOk (sym r2.tasks) w1 in
    let r3 = decision_from-Restored high k2 w2 r2.empty in
    Restored-trans k k2 _ (Restored-trans k k1 k2 r1 r2) r3
