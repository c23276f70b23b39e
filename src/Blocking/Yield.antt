-- ===== src/Blocking/Yield.antt =====
-- yield_tsk of kernel/itron_api.c for a RUNNING task.
use itron_rtos.Common.{
  ℕ, ◌≡◌, ◌≢◌, refl, sym, subst, ap, ap₂, ◌∙◌, ◌⊎◌, inl, inr, Bool, true, false, Option, none, some,
  ◌==◌, if◌then◌else◌, Bool-cases, Option-cases, Control, comes_back, ◌>>=◌, arith, update_self,
  update_ne,
}
use itron_rtos.Task
use itron_rtos.Task.{
  TaskTable, Tcb, max_tasks, is_running, is_ready, TaskState, unused, dormant, ready, running,
  waiting,
}
use itron_rtos.Task.Lookup.{find_task, task_get_by_id}
use itron_rtos.Task.Moves.{settle, mark_ready_from_running, mark_waiting_on_sleep}
use itron_rtos.Scheduler.{select_next}
use itron_rtos.Scheduler.Choice.{IsBest, select_next-IsBest, select_next-none, select_next_iff}
use itron_rtos.Api.{e_ok, e_ctx}
use itron_rtos.Context.{Platform, Machine, slot_of, with_tasks}
use itron_rtos.Context.Entering.{CanRun, task_get_by_id-CanRun}
use itron_rtos.Context.Stacks.{Apart}
use itron_rtos.Context.Runs.{Ran, either}
use itron_rtos.Context.Pairs.{Switchable}
use itron_rtos.Dispatcher.{DispatchResult}
use itron_rtos.Dispatcher.Moving.{moved, moved-Apart}
use itron_rtos.Dispatcher.Switching.{Switches, with_current, mark_ready-CanRun}
use itron_rtos.Dispatcher.Outcome.{switch_to-Switches}
use itron_rtos.Blocking.{take_step, slp_tsk, yield_found, yielded, yield_tsk}
use itron_rtos.Blocking.Begin.{done, begin_slp_tsk, slept}

ready_stopped : (u : TaskState) → is_ready u ≡ true → is_running u ≡ false
ready_stopped ready h = refl
ready_stopped running h = cc h
ready_stopped unused h = refl
ready_stopped dormant h = refl
ready_stopped waiting h = refl

some-injective : (a b : ℕ) → some a ≡ some b → a ≡ b
some-injective a b h = cc h

module _ (p : Platform) (m : Machine) (c : ℕ) (at : m.kernel.current ≡ some c)
    (runs : is_running (slot_of m c).state ≡ true) (cr : CanRun p m.kernel.tasks c) where
  -- The tasks once the current one has given way.
  abbrev t : TaskTable
  t = moved m.kernel.tasks c ready

  abbrev m' : Machine
  m' = with_tasks m t

  still : is_ready (t.slots c).state ≡ true
  still =
      ap (λ (s : Tcb). is_ready s.state)
        (update_self m.kernel.tasks.slots c (settle ready (slot_of m c)))

  yield-start : yield_tsk p m ≡ yielded p m c (t, Task.ok)
  unfolding yield_tsk
  yield-start =
      ap
        (λ (o : Option ℕ). elim o [
          | none ↦ comes_back (m, e_ctx)
          | some c' ↦
              if is_running (slot_of m c').state
              then yielded p m c' (mark_ready_from_running m.kernel.tasks (slot_of m c').id)
              else comes_back (m, e_ctx)
        ])
        at
      ∙ ap
          (λ (b : Bool).
            if b
            then yielded p m c (mark_ready_from_running m.kernel.tasks (slot_of m c).id)
            else comes_back (m, e_ctx))
          runs
      ∙ ap (yielded p m c) (mark_ready-CanRun p m.kernel.tasks c cr runs)

  yielded-next :
      (b : ℕ)
      → select_next t ≡ some b
      → yielded p m c (t, Task.ok) ≡ (
          if (t.slots b).id == (t.slots c).id
          then comes_back (m', e_ok)
          else yield_found p m' (task_get_by_id t (t.slots c).id) (task_get_by_id t (t.slots b).id))
  unfolding yielded
  yielded-next b e =
      ap
        (λ (o : Option ℕ). elim o [
          | none ↦ comes_back (m', e_ok)
          | some next ↦
              if (t.slots next).id == (t.slots c).id
              then comes_back (m', e_ok)
              else yield_found p m' (task_get_by_id t (t.slots c).id)
                  (task_get_by_id t (t.slots next).id)
        ])
        e

  sleeps_no_more : slp_tsk p m' ≡ comes_back (m', e_ctx)
  unfolding slp_tsk take_step begin_slp_tsk
  sleeps_no_more = ap (take_step p m') (
      ap
        (λ (o : Option ℕ). elim o [
          | none ↦ done m'.kernel e_ctx
          | some c' ↦
              if is_running (t.slots c').state
              then slept m'.kernel c' (mark_waiting_on_sleep t (t.slots c').id)
              else done m'.kernel e_ctx
        ])
        at
      ∙ ap
          (λ (b : Bool).
            if b
            then slept m'.kernel c (mark_waiting_on_sleep t (t.slots c).id)
            else done m'.kernel e_ctx)
          (ready_stopped (t.slots c).state still))

  apart_ids :
      (b : ℕ) → CanRun p t b → CanRun p t c → c ≢ b → ((t.slots b).id == (t.slots c).id) ≡ false
  apart_ids b d e other = elim (Bool-cases ((t.slots b).id == (t.slots c).id)) [
    | inr h ↦ h
    | inl h ↦
        let same : (t.slots b).id ≡ (t.slots c).id = ground arith in
        absurd (other (some-injective c b (sym e.found ∙ sym (ap (find_task t) same) ∙ d.found)))
  ]

  -- The task is still preferred, or another one is.
  stays : IsBest t max_tasks c → yield_tsk p m ≡ comes_back (m', e_ok)
  stays best =
      let self : ((t.slots c).id == (t.slots c).id) ≡ true = ground arith in
      yield-start
      ∙ yielded-next c ((select_next_iff t c).1 best)
      ∙ ap
          (λ (b : Bool).
            if b
            then comes_back (m', e_ok)
            else yield_found p m' (task_get_by_id t (t.slots c).id)
                (task_get_by_id t (t.slots c).id))
          self

  gives_way :
      (b : ℕ)
      → IsBest t max_tasks b
      → c ≢ b
      → Switchable p t c
      → Switchable p t b
      → Apart p (t.slots c) (t.slots b)
      → (m'' : Machine) × (yield_tsk p m ≡ comes_back (m'', e_ok))
        × Ran (either c b) (with_current m' b) m''
  unfolding yield_found Switches
  gives_way b best other (l, e) (k, d) apart =
      let (m'', comes, ran) = switch_to-Switches p m' c b other l k e d apart best.is_candidate in
      (
        m'',
        yield-start
            ∙ yielded-next b ((select_next_iff t b).1 best)
            ∙ ap
                (λ (r : Bool).
                  if r
                  then comes_back (m', e_ok)
                  else yield_found p m' (task_get_by_id t (t.slots c).id)
                      (task_get_by_id t (t.slots b).id))
                (apart_ids b d e other)
            ∙ ap₂ (yield_found p m') (task_get_by_id-CanRun p t c e) (task_get_by_id-CanRun p t b d)
            ∙ ap
                (λ (s : Control (Machine × DispatchResult)). s >>= λ (m3, r). comes_back (m3, e_ok))
                comes,
        ran,
      )

-- Two ways in which a task gives way: it goes on as a READY task, or another one runs.
abbrev pub YieldOutcome : Platform → Machine → ℕ → Type 0
YieldOutcome p m c =
    let t = moved m.kernel.tasks c ready in
    let m' = with_tasks m t in
    (IsBest t max_tasks c
      × (yield_tsk p m ≡ comes_back (m', e_ok))
      × (slp_tsk p m' ≡ comes_back (m', e_ctx)))
    ⊎ ((b : ℕ) × (m'' : Machine) × IsBest t max_tasks b
        × (c ≢ b)
        × (yield_tsk p m ≡ comes_back (m'', e_ok))
        × Ran (either c b) (with_current m' b) m'')

-- The current task is RUNNING and its id leads to it; it has a valid stack and an entry function that
-- leaves the kernel as it is, and so has every READY task; its run stays on its own stack, which
-- overlaps that of no READY task. yield_tsk makes it READY and returns E_OK.
-- If the scheduler prefers another READY task then, both are DORMANT at the end, with
-- nothing else changed, and the other one is the dispatcher's current task. If it still prefers the
-- caller, nothing else happens: the caller goes on as a READY task, so that a slp_tsk that it calls
-- next is refused as E_CTX.
pub yield_tsk_cases :
    (p : Platform) (m : Machine) (c : ℕ)
    → m.kernel.current ≡ some c
    → is_running (slot_of m c).state ≡ true
    → Switchable p m.kernel.tasks c
    → ((j : ℕ)
        → is_ready ((moved m.kernel.tasks c ready).slots j).state ≡ true
        → Switchable p (moved m.kernel.tasks c ready) j)
    → ((j : ℕ) → c ≢ j → is_ready (slot_of m j).state ≡ true → Apart p (slot_of m c) (slot_of m j))
    → YieldOutcome p m c
yield_tsk_cases p m c at runs (_, cr) all apart =
    let t = moved m.kernel.tasks c ready in
    elim (Option-cases (select_next t)) [
      | inl e ↦ absurd (cc (still p m c at runs cr, select_next-none t c e cr.inside))
      | inr (b, e) ↦
          let best = select_next-IsBest t b e in
          elim (Bool-cases (c == b)) [
            | inl h ↦
                let same : b ≡ c = ground arith in
                let best' = subst (IsBest t max_tasks) same best in
                inl (best', stays p m c at runs cr best', sleeps_no_more p m c at runs cr)
            | inr h ↦
                let other : c ≢ b = ground arith in
                let (m'', comes, ran) =
                  gives_way p m c at runs cr b best other (all c (still p m c at runs cr))
                    (all b best.is_candidate)
                    (moved-Apart p m.kernel.tasks c b c ready
                      (apart b other (was_ready b best other))) in
                inr (b, m'', best, other, comes, ran)
          ]
    ]
  where
    was_ready :
        (b : ℕ)
        → IsBest (moved m.kernel.tasks c ready) max_tasks b
        → c ≢ b
        → is_ready (slot_of m b).state ≡ true
    was_ready b best other =
        ap (λ (s : Tcb). is_ready s.state) (sym (update_ne m.kernel.tasks.slots c b _ other))
        ∙ best.is_candidate
