-- ===== src/Dispatcher/Moving.antt =====
-- The moves between READY and RUNNING that kernel/dispatcher.c makes, of tasks that can run.
use itron_rtos.Common.{
  ℕ, ◌≡◌, refl, sym, subst, ap, ◌∙◌, inl, inr, Bool, true, false, not, ◌||◌, ◌&&◌, ◌==◌,
  update_self, update_ne, Bool-cases, arith,
}
use itron_rtos.Task.{
  Tcb, TaskTable, TaskState, unused, dormant, ready, running, waiting, is_unused, is_running,
  is_ready,
}
use itron_rtos.Task.Lookup.{write_slot, names}
use itron_rtos.Task.Moves.{settle}
use itron_rtos.Kernel.{Kernel}
use itron_rtos.Context.{Platform, Machine, slot_of, with_tasks}
use itron_rtos.Context.Entering.{CanRun, CanRun-other, CanRun-same}
use itron_rtos.Context.Runs.{Ran, Ended}
use itron_rtos.Context.Stacks.{Apart}
use itron_rtos.Context.Frames.{Laid}

-- The write by which the dispatcher moves a task between READY and RUNNING.
abbrev pub moved : TaskTable → ℕ → TaskState → TaskTable
moved t i new_state = write_slot t i (settle new_state (t.slots i))

moved_in_use :
    (s : Tcb) (new_state : TaskState) (a : ℕ)
    → (is_running new_state || is_ready new_state) ≡ true
    → (is_running s.state || is_ready s.state) ≡ true
    → names a (settle new_state s) ≡ names a s
moved_in_use s new_state a h g =
    ap (λ b. not b && s.id == a) (used new_state h ∙ sym (used s.state g))
  where
    used : (u : TaskState) → (is_running u || is_ready u) ≡ true → is_unused u ≡ false
    used running e = refl
    used ready e = refl
    used unused e = absurd (cc e)
    used dormant e = refl
    used waiting e = refl

pub moved-CanRun :
    (p : Platform) (t : TaskTable) (i j : ℕ) (new_state : TaskState)
    → (is_running new_state || is_ready new_state) ≡ true
    → CanRun p t i
    → CanRun p t j
    → CanRun p (moved t j new_state) i
moved-CanRun p t i j new_state h c d = elim (Bool-cases (j == i)) [
  | inl e ↦
      let same : j ≡ i = ground arith in
      subst (λ k. CanRun p (moved t j new_state) k) same
        (CanRun-same p t j (settle new_state (t.slots j)) refl
          (λ a. moved_in_use (t.slots j) new_state a h d.fit.may_end)
          (record {
            positive = d.fit.positive;
            has_entry = d.fit.has_entry;
            quiet = d.fit.quiet;
            may_end = h;
          })
          d)
  | inr e ↦
      CanRun-other p t i j (settle new_state (t.slots j)) (ground arith)
        (λ a. moved_in_use (t.slots j) new_state a h d.fit.may_end) c
]

settle-Laid : (s : Tcb) (new_state : TaskState) → Laid s → Laid (settle new_state s)
settle-Laid s new_state l = record {
  valid = record {
    has_base = l.valid.has_base;
    has_top = l.valid.has_top;
    roomy = l.valid.roomy;
    has_rsp = l.valid.has_rsp;
  };
  laid_out = l.laid_out;
  fits = l.fits;
}

pub moved-Laid :
    (t : TaskTable) (i j : ℕ) (new_state : TaskState)
    → Laid (t.slots i)
    → Laid ((moved t j new_state).slots i)
moved-Laid t i j new_state l = elim (Bool-cases (j == i)) [
  | inl e ↦
      let same : j ≡ i = ground arith in
      let l' = subst (λ k. Laid (t.slots k)) (sym same) l in
      subst (λ k. Laid ((moved t j new_state).slots k)) same
        (subst Laid (sym (update_self t.slots j (settle new_state (t.slots j))))
          (settle-Laid (t.slots j) new_state l'))
  | inr e ↦ subst Laid (sym (update_ne t.slots j i _ (ground arith))) l
]

pub moved-Apart :
    (p : Platform) (t : TaskTable) (i j k : ℕ) (new_state : TaskState)
    → Apart p (t.slots i) (t.slots j)
    → Apart p ((moved t k new_state).slots i) ((moved t k new_state).slots j)
moved-Apart p t i j k new_state h =
    let (entry, base, top) = stack_kept t k i new_state in
    let (_, base', top') = stack_kept t k j new_state in
    record {
      on_stack = rw (entry, base, top) h.on_stack;
      disjoint = rw (base, top, base', top') h.disjoint;
    }
  where
    stack_kept :
        (t : TaskTable) (k i : ℕ) (new_state : TaskState)
        → (((moved t k new_state).slots i).entry ≡ (t.slots i).entry)
          × (((moved t k new_state).slots i).stack_base ≡ (t.slots i).stack_base)
          × (((moved t k new_state).slots i).stack_top ≡ (t.slots i).stack_top)
    stack_kept t k i new_state = elim (Bool-cases (k == i)) [
      | inl e ↦
          let same : k ≡ i = ground arith in
          rw e (
            ap (λ i. (t.slots i).entry) same,
            ap (λ i. (t.slots i).stack_base) same,
            ap (λ i. (t.slots i).stack_top) same,
          )
      | inr e ↦ rw e (refl, refl, refl)
    ]

moved-Ended :
    (t : TaskTable) (i j : ℕ) (new_state : TaskState) (s' : Tcb)
    → Ended ((moved t j new_state).slots i) s'
    → Ended (t.slots i) s'
moved-Ended t i j new_state s' e = elim (Bool-cases (j == i)) [
  | inl here ↦
      let same : j ≡ i = ground arith in
      let now : (moved t j new_state).slots i ≡ settle new_state (t.slots j) =
        ap (moved t j new_state).slots (sym same) ∙ update_self t.slots j _ in
      subst (λ k. Ended (t.slots k) s') same (subst (λ (s : Tcb). Ended s s') now e)
  | inr other ↦ subst (λ (s : Tcb). Ended s s') (update_ne t.slots j i _ (ground arith)) e
]

-- What runs after such moves of tasks that run has run from the machine before.
pub moved-Ran :
    (among : ℕ → Bool) (m m' : Machine) (j : ℕ) (new_state : TaskState)
    → among j ≡ true
    → Ran among (with_tasks m (moved m.kernel.tasks j new_state)) m'
    → Ran among m m'
moved-Ran among m m' j new_state h r = record {
  ran = λ i g. moved-Ended m.kernel.tasks i j new_state (slot_of m' i) (r.ran i g);
  same = λ i g. r.same i g ∙ update_ne m.kernel.tasks.slots j i _ (λ (e : j ≡ i). cc (h, g, e));
  kernel = ap (λ (k : Kernel). record k { tasks = m.kernel.tasks }) r.kernel;
  next_task_id = r.next_task_id;
  unreserved = r.unreserved;
  inactive = r.inactive;
}
