-- ===== src/Context/Fuel.antt =====
-- Two entries are enough: the fuel of task_context_enter of kernel/task_context.c.
use itron_rtos.Common.{
  ℕ, suc, ◌≡◌, ◌≢◌, refl, ap, ◌∙◌, sym, subst, inl, inr, Option, none, some, ◌==◌, Bool-cases,
  Option-cases, Control, AfterReturn, halts, strays, unfinished, if◌then◌else◌,
}
use itron_rtos.Task.{TaskContext}
use itron_rtos.Context.Kept.{anything, enter-Keeps}
use itron_rtos.Context.Entering.{leave_task-boot, leave_task-next, reserved_next-none}
use itron_rtos.Context.{
  Platform, Machine, slot_of, called, arrive, finish_entry, reserved_next, leave_for, leave_task,
  enter_fuel, enter,
}

-- Without a pair to go on with, what is entered next does not matter.
leave_task-alone :
    (p : Platform) (f g : Machine → Option ℕ → Control Machine) (m : Machine) (i : ℕ)
    → reserved_next m i ≡ none
    → leave_task p f m i ≡ leave_task p g m i
leave_task-alone p f g m i h = leave_task-boot p f m i h ∙ sym (leave_task-boot p g m i h)

enter_alone :
    (p : Platform) (n : ℕ) (m : Machine) (o : Option ℕ)
    → m.smoke_from ≡ none
    → enter p (suc n) m o ≡ enter p 1 m o
unfolding enter finish_entry
enter_alone p n m none h = refl
enter_alone p n m (some i) h = elim (Bool-cases ((slot_of m i).entry == 0)) [
  | inl e ↦ rw (enter, e) refl
  | inr e ↦
      let m' = finish_entry p m i in
      rw (enter, e) (leave_task-alone p (enter p n) (enter p 0) m' i (reserved_next-none m' i h))
]

arrive-alone :
    (p : Platform) (n : ℕ) (m : Machine) (c : TaskContext)
    → m.smoke_from ≡ none
    → arrive p (enter p (suc n)) m c ≡ arrive p (enter p 1) m c
unfolding arrive
arrive-alone p n m c h =
    ap
      (λ (r : Control Machine).
        if m.memory c.rsp == p.trampoline
        then r
        else if m.memory c.rsp == p.halt_address
        then halts
        else strays)
      (enter_alone p n (called p m c.rsp) (p.tcb_at c.r12) h)

leave_task-fuel :
    (p : Platform) (n : ℕ) (m : Machine) (i : ℕ)
    → leave_task p (enter p (suc n)) m i ≡ leave_task p (enter p 1) m i
leave_task-fuel p n m i = elim (Option-cases (reserved_next m i)) [
  | inl e ↦ leave_task-alone p (enter p (suc n)) (enter p 1) m i e
  | inr (next, e) ↦
      let m' = leave_for p m i next in
      leave_task-next p (enter p (suc n)) m i next e
      ∙ arrive-alone p n m' (slot_of m' next).context refl
      ∙ sym (leave_task-next p (enter p 1) m i next e)
]

-- From any state of the machine and for any task, task_context_enter goes through at most two entry
-- functions: with fuel for two it ends, that is, it comes back to the boot context, halts or leaves
-- the modelled code, and with more fuel it does the same.
pub enter_ends :
    (p : Platform) (n : ℕ) (m : Machine) (o : Option ℕ)
    → (enter p enter_fuel m o ≢ unfinished) × (enter p (suc (suc n)) m o ≡ enter p enter_fuel m o)
unfolding enter
enter_ends p n m o = (
  λ e. subst (AfterReturn (λ _. Unit)) e (enter-Keeps p (λ _. Unit) (anything p) 0 m o tt),
  more n m o,
)
  where
    more : (n : ℕ) (m : Machine) (o : Option ℕ) → enter p (suc (suc n)) m o ≡ enter p enter_fuel m o
    more n m none = refl
    more n m (some i) = elim (Bool-cases ((slot_of m i).entry == 0)) [
      | inl e ↦ rw (enter, e) refl
      | inr e ↦ rw (enter, e) (leave_task-fuel p n (finish_entry p m i) i)
    ]
