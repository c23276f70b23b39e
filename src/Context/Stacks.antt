-- ===== src/Context/Stacks.antt =====
-- Where the run of a task's entry function writes, for the pairs of kernel/task_context.c.
use itron_rtos.Common.{ℕ, ◌+◌, ◌<◌, ◌≤◌, ◌≡◌, ◌≢◌, sym, ◌∙◌, ◌⊎◌, inl, inr, arith}
use itron_rtos.Task.{Tcb}
use itron_rtos.Kernel.{Kernel}
use itron_rtos.Context.{Platform, frame_pointer}
use itron_rtos.Context.Frames.{Laid, frame_pointer-InStack}

-- A run on the first frame of a task writes on its stack only, below that frame.
abbrev pub OnStack : Platform → Tcb → Type 0
OnStack p s =
    (k : Kernel) (memory : ℕ → ℕ) (a : ℕ)
    → (a < s.stack_base) ⊎ (frame_pointer s.stack_top ≤ a)
    → p.run_on_stack s.entry (frame_pointer s.stack_top) k memory a ≡ memory a

-- Two tasks with stacks of their own, of which the first one's entry function stays on its stack.
pub record Apart (p : Platform) (s u : Tcb) : Type 0 where
  pub on_stack : OnStack p s
  pub disjoint : (u.stack_top ≤ s.stack_base) ⊎ (s.stack_top ≤ u.stack_base)

-- What a task's run needs to leave alone for the second of a pair to be entered behind it.
pub record Spares (p : Platform) (s u : Tcb) : Type 0 where
  pub other_frame : u.context.rsp ≢ s.context.rsp
  pub keeps :
      (k : Kernel) (memory : ℕ → ℕ)
      → p.run_on_stack s.entry s.context.rsp k memory u.context.rsp ≡ memory u.context.rsp

pub Apart-Spares :
    (p : Platform) (s u : Tcb)
    → Laid s
    → Laid u
    → Apart p s u
    → s.context.rsp ≡ frame_pointer s.stack_top
    → u.context.rsp ≡ frame_pointer u.stack_top
    → Spares p s u
Apart-Spares p s u l k apart at_s at_u =
    let a = frame_pointer-InStack s l.valid.roomy l.laid_out l.fits in
    let b = frame_pointer-InStack u k.valid.roomy k.laid_out k.fits in
    let (outside, other) =
      placed a.above_base a.below_top b.above_base b.below_top apart.disjoint in
    record {
      other_frame = λ e. other (sym at_u ∙ e ∙ at_s);
      keeps = λ q memory. rw (at_s, at_u) (apart.on_stack q memory _ outside);
    }
  where
    placed :
        {f g base top base' top' : ℕ}
        → base ≤ f
        → f + 8 ≤ top
        → base' ≤ g
        → g + 8 ≤ top'
        → (top' ≤ base) ⊎ (top ≤ base')
        → ((g < base) ⊎ (f ≤ g)) × (g ≢ f)
    placed b t b' t' (inl h) = (inl (omega arith), λ e. omega arith)
    placed b t b' t' (inr h) = (inr (omega arith), λ e. omega arith)
