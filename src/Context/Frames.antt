-- ===== src/Context/Frames.antt =====
-- The first frame of a task: task_context_prepare_initial_frame, and the `ret` that takes it.
use itron_rtos.Common.{
  ℕ, ◌+◌, ◌%◌, ◌^◌, ◌<◌, ◌≤◌, ◌≡◌, ◌≢◌, refl, sym, subst, ap, ◌∙◌, ◌⊎◌, inl, inr, ◌||◌, Option,
  some, ◌==◌, ltb, update_self, update_ne, Bool-cases, Control, arith,
}
use itron_rtos.Task.{Tcb, max_tasks}
use itron_rtos.Context.{
  Platform, Machine, ContextResult, ok, inval, bad_state, slot_of, validate_task, frame_pointer,
  initial_context, write_frame, prepare_initial_frame, called, arrive,
}

-- What context_validate_task asks of a task.
pub record Valid (s : Tcb) : Type 0 where
  pub has_base : s.stack_base ≢ 0
  pub has_top : s.stack_top ≢ 0
  pub roomy : 64 ≤ s.stack_size
  pub has_rsp : s.context.rsp ≢ 0

-- A task that context_validate_task accepts, with its stack as task_register lays it out.
pub record Laid (s : Tcb) : Type 0 where
  pub valid : Valid s
  pub laid_out : s.stack_base + s.stack_size ≡ s.stack_top
  pub fits : s.stack_top < 2 ^ 64

pub validate_task-Valid : (s : Tcb) → validate_task s ≡ ok → Valid s
unfolding validate_task
validate_task-Valid s h = elim (Bool-cases (s.stack_base == 0 || s.stack_top == 0)) [
  | inl e ↦ absurd (cc (rw e at (h)))
  | inr e ↦ elim (Bool-cases (ltb s.stack_size 64)) [
    | inl f ↦ absurd (cc (rw (e, f) at (h)))
    | inr f ↦ elim (Bool-cases (s.context.rsp == 0)) [
      | inl g ↦ absurd (cc (rw (e, f, g) at (h)))
      | inr g ↦ record {
        has_base = ground arith;
        has_top = ground arith;
        roomy = ground arith;
        has_rsp = ground arith;
      }
    ]
  ]
]

pub Valid-validate_task : (s : Tcb) → Valid s → validate_task s ≡ ok
unfolding validate_task
Valid-validate_task s v = ground (arith, v.has_base, v.has_top, v.roomy, v.has_rsp)

pub prepare-ok :
    (p : Platform) (m : Machine) (i : ℕ)
    → validate_task (slot_of m i) ≡ ok
    → prepare_initial_frame p m i ≡ (write_frame p m i, ok)
unfolding prepare_initial_frame
prepare-ok p m i h = rw (prepare_initial_frame, h) refl

-- Only a task that passes the validation is prepared; for another nothing changes.
pub prepare_cases :
    (p : Platform) (m : Machine) (i : ℕ)
    → ((validate_task (slot_of m i) ≡ ok) × (prepare_initial_frame p m i ≡ (write_frame p m i, ok)))
      ⊎ (prepare_initial_frame p m i ≡ (m, inval))
unfolding prepare_initial_frame
prepare_cases p m i = go (validate_task (slot_of m i)) refl
  where
    go :
        (r : ContextResult)
        → validate_task (slot_of m i) ≡ r
        → ((validate_task (slot_of m i) ≡ ok)
            × (prepare_initial_frame p m i ≡ (write_frame p m i, ok)))
          ⊎ (prepare_initial_frame p m i ≡ (m, inval))
    go ok e = inl (e, prepare-ok p m i e)
    go inval e = inr (rw (prepare_initial_frame, e) refl)
    go bad_state e = inr (rw (prepare_initial_frame, e) refl)

-- The only slot that a write of the frame changes, and what is there then.
abbrev pub framed : Platform → Machine → ℕ → Tcb
framed p m i = record (slot_of m i) {
  context = initial_context p i (frame_pointer (slot_of m i).stack_top);
}

pub write_frame_self :
    (p : Platform) (m : Machine) (i : ℕ) → slot_of (write_frame p m i) i ≡ framed p m i
unfolding write_frame
write_frame_self p m i = update_self m.kernel.tasks.slots i (framed p m i)

-- The frame of a prepared task is one word inside its stack, and the stack pointer has the
-- alignment that a function expects on its entry.
pub record InStack (s : Tcb) (rsp : ℕ) : Type 0 where
  pub above_base : s.stack_base ≤ rsp
  pub below_top : rsp + 8 ≤ s.stack_top
  pub near_top : s.stack_top ≤ rsp + 23
  pub aligned : rsp % 16 ≡ 8

pub frame_pointer-InStack :
    (s : Tcb)
    → 64 ≤ s.stack_size
    → s.stack_base + s.stack_size ≡ s.stack_top
    → s.stack_top < 2 ^ 64
    → InStack s (frame_pointer s.stack_top)
unfolding frame_pointer
frame_pointer-InStack s roomy laid_out fits = record {
  above_base = omega arith;
  below_top = omega arith;
  near_top = omega arith;
  aligned = omega arith;
}

-- What the `ret` of arch_context_switch to a task finds: the trampoline's address, and the task.
pub record Enterable (p : Platform) (m : Machine) (i : ℕ) : Type 0 where
  pub frame : m.memory (slot_of m i).context.rsp ≡ p.trampoline
  pub told : (slot_of m i).context.r12 ≡ p.tcb_address i

pub write_frame-Enterable : (p : Platform) (m : Machine) (i : ℕ) → Enterable p (write_frame p m i) i
unfolding write_frame initial_context
write_frame-Enterable p m i = record {
  frame =
      ap (λ s. (write_frame p m i).memory s.context.rsp) (write_frame_self p m i)
      ∙ update_self m.memory (frame_pointer (slot_of m i).stack_top) p.trampoline;
  told = ap (λ s. s.context.r12) (write_frame_self p m i);
}

pub write_frame_other :
    (p : Platform) (m : Machine) (i j : ℕ) → j ≢ i → slot_of (write_frame p m j) i ≡ slot_of m i
unfolding write_frame
write_frame_other p m i j other = update_ne m.kernel.tasks.slots j i (framed p m j) other

write_frame_memory :
    (p : Platform) (m : Machine) (j a : ℕ)
    → m.memory a ≡ p.trampoline
    → (write_frame p m j).memory a ≡ p.trampoline
unfolding write_frame
write_frame_memory p m j a h = ground (arith, h)

-- The next frame does not take the frame of another task away before it runs, even on the same
-- stack.
pub write_frame-keeps :
    (p : Platform) (m : Machine) (i j : ℕ)
    → j ≢ i
    → Enterable p m i
    → Enterable p (write_frame p m j) i
write_frame-keeps p m i j other e =
    let same = write_frame_other p m i j other in
    record { frame = rw same (write_frame_memory p m j _ e.frame); told = rw same e.told }

pub Enterable-arrive :
    (p : Platform) (enter : Machine → Option ℕ → Control Machine) (m : Machine) (i : ℕ)
    → i < max_tasks
    → Enterable p m i
    → arrive p enter m (slot_of m i).context ≡ enter (called p m (slot_of m i).context.rsp) (some i)
unfolding arrive
Enterable-arrive p enter m i inside e =
    rw (e.frame, e.told, p.tcb_at_address i inside) (ground arith)

-- A task whose stack_top is stack_base + stack_size and fits in 64 bits, and that
-- task_context_prepare_initial_frame accepts: its saved stack pointer is then on a word inside its
-- stack, at most 23 bytes below the top and congruent to 8 modulo 16, and that word holds the
-- address of the trampoline.
pub prepare_initial_frame-InStack :
    (p : Platform) (m : Machine) (i : ℕ)
    → (slot_of m i).stack_base + (slot_of m i).stack_size ≡ (slot_of m i).stack_top
    → (slot_of m i).stack_top < 2 ^ 64
    → (prepare_initial_frame p m i).1 ≡ ok
    → let m' = (prepare_initial_frame p m i).0 in
      InStack (slot_of m i) (slot_of m' i).context.rsp
      × (m'.memory (slot_of m' i).context.rsp ≡ p.trampoline)
unfolding initial_context
prepare_initial_frame-InStack p m i laid_out fits h = elim (prepare_cases p m i) [
  | inr e ↦ absurd (cc (rw e at (h)))
  | inl (valid, e) ↦ rw e (
    subst (λ (u : Tcb). InStack (slot_of m i) u.context.rsp) (sym (write_frame_self p m i))
        (frame_pointer-InStack (slot_of m i) (validate_task-Valid _ valid).roomy laid_out fits),
    (write_frame-Enterable p m i).frame,
  )
]

-- Preparing a task and then restoring its context is a round trip: for a task in the table that
-- task_context_prepare_initial_frame accepts, the `ret` of arch_context_switch goes through the
-- trampoline into task_context_enter with that same task, and leaves the address of `.halt` on the
-- word that held the trampoline's.
pub prepare-arrive :
    (p : Platform) (enter : Machine → Option ℕ → Control Machine) (m : Machine) (i : ℕ)
    → i < max_tasks
    → (prepare_initial_frame p m i).1 ≡ ok
    → let m' = (prepare_initial_frame p m i).0 in
      arrive p enter m' (slot_of m' i).context
      ≡ enter (called p m' (slot_of m' i).context.rsp) (some i)
prepare-arrive p enter m i inside h = elim (prepare_cases p m i) [
  | inr e ↦ absurd (cc (rw e at (h)))
  | inl (_, e) ↦
      rw e (Enterable-arrive p enter (write_frame p m i) i inside (write_frame-Enterable p m i))
]
