-- ===== src/Boundary/Consumed.antt =====
-- What becomes of the request at the exit boundary of an interrupt.
use itron_rtos.Common.{
  ℕ, ◌≡◌, ◌≢◌, refl, sym, ap, ap₂, ◌∙◌, ◌⊎◌, inl, inr, Bool, true, false, Option, none, some,
  Bool-cases, AfterReturn, AfterReturn->>=, comes_back, ◌>>=◌, Control,
}
use itron_rtos.Task.{
  TaskTable, TaskState, unused, dormant, ready, running, waiting, is_running, is_ready,
}
use itron_rtos.Task.Lookup.{task_get_by_id}
use itron_rtos.Kernel.{timer_irq}
use itron_rtos.Context.{Platform, Machine, slot_of}
use itron_rtos.Context.Kept.{anything}
use itron_rtos.Context.Entering.{CanRun}
use itron_rtos.Context.Stacks.{Apart}
use itron_rtos.Context.Runs.{Ran, either}
use itron_rtos.Context.Frames.{Laid}
use itron_rtos.Dispatcher.{DispatchResult, ok, switch_to}
use itron_rtos.Dispatcher.Kept.{switch_to-Keeps}
use itron_rtos.Dispatcher.Switching.{Switches, with_current}
use itron_rtos.Dispatcher.Outcome.{switch_to-Switches}
use itron_rtos.Boundary.{
  no_pending, invalid, dispatched, clear_request, if_in_state, dispatch_between, consume,
  timer_irq_handle,
}

abbrev NoRequestLeft : Machine → Type 0
NoRequestLeft m = m.kernel.pending.requested ≡ false

dispatch_between_clears :
    (p : Platform) (m : Machine) (from to : Option ℕ)
    → AfterReturn (λ r. NoRequestLeft r.0) (dispatch_between p m from to)
unfolding dispatch_between
dispatch_between_clears p m none to = refl
dispatch_between_clears p m (some from) none = refl
dispatch_between_clears p m (some from) (some to) =
    AfterReturn->>= (λ _. Unit) (λ r. NoRequestLeft r.0) (switch_to p m (some from) (some to))
      (λ (m', r). comes_back (clear_request m', dispatched r))
      (switch_to-Keeps p (λ _. Unit) (anything p) (λ k tasks current v. v) m (some from) (some to)
        tt)
      λ (_, _) _. refl

consume_clears : (p : Platform) (m : Machine) → AfterReturn (λ r. NoRequestLeft r.0) (consume p m)
unfolding consume
consume_clears p m = elim (Bool-cases m.kernel.pending.requested) [
  | inr e ↦ rw (consume, e) e
  | inl e ↦ rw (consume, e) (dispatch_between_clears p m _ _)
]

-- From any state of the machine, the timer interrupt with the consumption at its exit boundary has
-- enough fuel, and unless the processor halts or leaves the modelled code it comes back with no
-- request left.
pub timer_irq_handle_clears :
    (p : Platform) (m : Machine)
    → AfterReturn (λ m'. m'.kernel.pending.requested ≡ false) (timer_irq_handle p m)
unfolding timer_irq_handle
timer_irq_handle_clears p m =
    let m' = record m { kernel = timer_irq m.kernel } in
    AfterReturn->>= (λ r. NoRequestLeft r.0) NoRequestLeft (consume p m')
      (λ (m'', r). comes_back m'') (consume_clears p m') λ (_, _) v. v

if_in_state-some :
    (t : TaskTable) (good : TaskState → Bool) (o : Option ℕ) (i : ℕ)
    → o ≡ some i
    → good (t.slots i).state ≡ true
    → if_in_state t good o ≡ some i
unfolding if_in_state
if_in_state-some t good o i e h = rw (e, if_in_state, h) refl

if_in_state-none :
    (t : TaskTable) (good : TaskState → Bool) (o : Option ℕ)
    → ((i : ℕ) → o ≡ some i → good (t.slots i).state ≡ false)
    → if_in_state t good o ≡ none
unfolding if_in_state
if_in_state-none t good none h = refl
if_in_state-none t good (some i) h = rw (if_in_state, h i refl) refl

consume-requested :
    (p : Platform) (m : Machine) (from to : Option ℕ)
    → m.kernel.pending.requested ≡ true
    → if_in_state m.kernel.tasks is_running
        (task_get_by_id m.kernel.tasks m.kernel.pending.current_id)
      ≡ from
    → if_in_state m.kernel.tasks is_ready
        (task_get_by_id m.kernel.tasks m.kernel.pending.candidate_id)
      ≡ to
    → consume p m ≡ dispatch_between p m from to
unfolding consume
consume-requested p m from to e f g =
    ap
      (λ (b : Bool). elim b [
        | false ↦ comes_back (m, no_pending)
        | true ↦
            dispatch_between p m
              (if_in_state m.kernel.tasks is_running
                (task_get_by_id m.kernel.tasks m.kernel.pending.current_id))
              (if_in_state m.kernel.tasks is_ready
                (task_get_by_id m.kernel.tasks m.kernel.pending.candidate_id))
      ])
      e
    ∙ ap₂ (dispatch_between p m) f g

-- A request is pending, but no RUNNING task has the id of its current task, or no READY task that of
-- its candidate: the request is dropped, and nothing else of the machine is changed.
pub consume_stale :
    (p : Platform) (m : Machine)
    → m.kernel.pending.requested ≡ true
    → ((i : ℕ)
        → task_get_by_id m.kernel.tasks m.kernel.pending.current_id ≡ some i
        → is_running (slot_of m i).state ≡ false)
      ⊎ ((i : ℕ)
          → task_get_by_id m.kernel.tasks m.kernel.pending.candidate_id ≡ some i
          → is_ready (slot_of m i).state ≡ false)
    → consume p m ≡ comes_back (clear_request m, invalid)
unfolding dispatch_between
consume_stale p m e (inl h) = consume-requested p m none _ e (if_in_state-none _ _ _ h) refl
consume_stale p m e (inr h) =
    consume-requested p m _ none e refl (if_in_state-none _ _ _ h) ∙ dropped _
  where
    dropped :
        (from : Option ℕ) → dispatch_between p m from none ≡ comes_back (clear_request m, invalid)
    dropped none = refl
    dropped (some _) = refl

-- A request is pending; the ids of its current task and of its candidate lead to a RUNNING and to a
-- READY task with valid stacks and entry functions that leave the kernel as it is; their stacks do not
-- overlap, and the run of the current task stays on its own: the switch is made and succeeds, both tasks are then DORMANT, the candidate is the dispatcher's current
-- task, every other task, the semaphores and the delay queue are as before, and the request is
-- cleared.
pub consume-Switches :
    (p : Platform) (m : Machine) (from to : ℕ)
    → m.kernel.pending.requested ≡ true
    → task_get_by_id m.kernel.tasks m.kernel.pending.current_id ≡ some from
    → task_get_by_id m.kernel.tasks m.kernel.pending.candidate_id ≡ some to
    → is_running (slot_of m from).state ≡ true
    → is_ready (slot_of m to).state ≡ true
    → Laid (slot_of m from)
    → Laid (slot_of m to)
    → CanRun p m.kernel.tasks from
    → CanRun p m.kernel.tasks to
    → Apart p (slot_of m from) (slot_of m to)
    → (m' : Machine) × (consume p m ≡ comes_back (clear_request m', dispatched ok))
      × Ran (either from to) (with_current m to) m'
unfolding dispatch_between Switches
consume-Switches p m from to e f g runs h l k c d apart_stacks =
    let other : from ≢ to = λ same.
      apart (slot_of m to).state (ap (λ i. is_running (slot_of m i).state) (sym same) ∙ runs) h in
    let (m', switched, r) = switch_to-Switches p m from to other l k c d apart_stacks h in
    (
      m',
      consume-requested p m (some from) (some to) e (if_in_state-some _ _ _ from f runs)
            (if_in_state-some _ _ _ to g h)
          ∙ ap
              (λ (s : Control (Machine × DispatchResult)).
                s >>= λ (m'', r'). comes_back (clear_request m'', dispatched r'))
              switched,
      r,
    )
  where
    apart : (u : TaskState) → is_running u ≡ true → is_ready u ≡ true → ⊥
    apart running v w = cc w
    apart ready v w = cc v
    apart unused v w = cc v
    apart dormant v w = cc v
    apart waiting v w = cc v
