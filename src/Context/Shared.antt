-- ===== src/Context/Shared.antt =====
-- task_context_switch_to_task_pair for two tasks with one stack.
use itron_rtos.Common.{
  ℕ, ◌≡◌, ◌≢◌, refl, sym, subst, ap, ◌∙◌, inr, false, true, Option, update, ◌==◌, update_self,
  Control, halts, arith,
}
use itron_rtos.Task.{TaskContext, Tcb}
use itron_rtos.Context.{
  Platform, Machine, slot_of, frame_pointer, initial_context, write_frame, enter, arrive,
  switch_to_task_pair,
}
use itron_rtos.Context.Frames.{
  Laid, Valid-validate_task, prepare-ok, framed, write_frame_self, write_frame_other,
  write_frame-Enterable, write_frame-keeps,
}
use itron_rtos.Context.Stacks.{OnStack}
use itron_rtos.Context.Entering.{CanRun}
use itron_rtos.Context.Runs.{between, between_second, completed, switch_prepared-between}
use itron_rtos.Context.Pairs.{
  switch_to_task_pair-prepared, write_frame-CanRun, write_frame-Laid, Laid-write_frame_self,
}

arrive-halts :
    (p : Platform) (f : Machine → Option ℕ → Control Machine) (m : Machine) (c : TaskContext)
    → m.memory c.rsp ≡ p.halt_address
    → arrive p f m c ≡ halts
unfolding arrive
arrive-halts p f m c h =
    let self : (p.halt_address == p.halt_address) ≡ true = ground arith in
    rw (h, p.halt_apart, self) refl

-- What the `ret` onto the second stack finds where the first one's frame is there.
between-halts :
    (p : Platform) (m : Machine) (first second : ℕ)
    → first ≢ second
    → (slot_of m first).context.rsp ≡ frame_pointer (slot_of m first).stack_top
    → (slot_of m second).context.rsp ≡ frame_pointer (slot_of m first).stack_top
    → OnStack p (slot_of m first)
    → let m' = between p m first second in
      arrive p (enter p 1) m' (slot_of m' second).context ≡ halts
between-halts p m first second other at_first at_second on_stack =
    let m' = between p m first second in
    let sp = frame_pointer (slot_of m first).stack_top in
    let rsp : (slot_of m' second).context.rsp ≡ sp =
      ap (λ (s : Tcb). s.context.rsp) (between_second p m first second other) ∙ at_second in
    arrive-halts p (enter p 1) m' (slot_of m' second).context (
      ap m'.memory rsp
      ∙ subst
          (λ a.
            p.run_on_stack (slot_of m first).entry a m.kernel (update m.memory a p.halt_address) sp
            ≡ p.halt_address)
          (sym at_first)
          (on_stack m.kernel _ sp (inr (omega arith)) ∙ update_self m.memory sp p.halt_address))

-- Two tasks that context_validate_task accepts have the same first frame; the first one's id leads to
-- it, its entry function leaves the kernel as it is and its run stays on its stack. The switch to the
-- pair then halts the processor: the trampoline's `call` in the first task has overwritten the frame
-- of the second.
pub switch_to_task_pair-halts :
    (p : Platform) (m : Machine) (first second : ℕ)
    → first ≢ second
    → Laid (slot_of m first)
    → Laid (slot_of m second)
    → CanRun p m.kernel.tasks first
    → OnStack p (slot_of m first)
    → frame_pointer (slot_of m second).stack_top ≡ frame_pointer (slot_of m first).stack_top
    → switch_to_task_pair p m first second ≡ halts
unfolding initial_context
switch_to_task_pair-halts p m first second other l k c on_stack shared =
    let m1 = write_frame p m first in
    let m2 = write_frame p m1 second in
    let differ : (first == second) ≡ false = ground (arith, other) in
    let on : second ≢ first = λ e. other (sym e) in
    let l1 : Laid (slot_of m1 first) = Laid-write_frame_self p m first l in
    let l2 : Laid (slot_of m2 first) = write_frame-Laid p m1 first second on l1 in
    let k1 : Laid (slot_of m1 second) = write_frame-Laid p m second first other k in
    let at_first : slot_of m2 first ≡ framed p m first =
      write_frame_other p m1 first second on ∙ write_frame_self p m first in
    let rsp : (slot_of m2 second).context.rsp ≡ frame_pointer (slot_of m second).stack_top =
      ap (λ (s : Tcb). s.context.rsp) (write_frame_self p m1 second)
      ∙ ap (λ (s : Tcb). frame_pointer s.stack_top) (write_frame_other p m second first other) in
    let top : frame_pointer (slot_of m2 first).stack_top
        ≡ frame_pointer (slot_of m first).stack_top =
      ap (λ (s : Tcb). frame_pointer s.stack_top) at_first in
    switch_to_task_pair-prepared p m m1 m2 first second differ
      (prepare-ok p m first (Valid-validate_task _ l.valid))
      (prepare-ok p m1 second (Valid-validate_task _ k1.valid))
    ∙ switch_prepared-between p m2 first second (Valid-validate_task _ l2.valid)
        (write_frame-CanRun p m1 first second (write_frame-CanRun p m first first c))
        (write_frame-keeps p m1 first second on (write_frame-Enterable p m first))
    ∙ ap completed (
        between-halts p m2 first second other (ap (λ (s : Tcb). s.context.rsp) at_first ∙ sym top)
          (rsp ∙ shared ∙ sym top) (subst (OnStack p) (sym at_first) on_stack))
