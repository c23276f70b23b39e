-- ===== src/Context/Kept.antt =====
-- What every switch of kernel/task_context.c keeps: two entries are enough for the model's fuel, and
-- of the kernel only the tasks and what the entry functions do is changed.
use itron_rtos.Common.{
  ℕ, suc, ◌≡◌, refl, inl, inr, Option, none, some, ◌==◌, Bool-cases, Option-cases, Control,
  AfterReturn, AfterReturn->>=, comes_back,
}
use itron_rtos.Task.{TaskContext}
use itron_rtos.Task.Lookup.{write_slot}
use itron_rtos.Task.Moves.{mark_dormant_from_entry_return}
use itron_rtos.Kernel.{Kernel}
use itron_rtos.Context.{
  Platform, Machine, ContextResult, ok, inval, bad_state, slot_of, validate_task,
  prepare_initial_frame, called, arrive, finish_entry, reserved_next, leave_for, leave_task,
  leave_boot, enter_fuel, enter, switch_to_task, clear_reservation, switch_prepared, prepare_second,
  switch_to_task_pair, write_frame,
}
use itron_rtos.Context.Frames.{prepare_cases}

-- A predicate on the kernel that neither a saved context, nor the end of a task, nor an entry function
-- takes away.
pub record Insensitive (p : Platform) (P : Kernel → Type 0) : Type 0 where
  pub to_context :
      (k : Kernel) (i : ℕ) (c : TaskContext)
      → P k
      → P (record k { tasks = write_slot k.tasks i (record (k.tasks.slots i) { context = c }) })
  pub to_finish :
      (k : Kernel) (task_id : ℕ)
      → P k
      → P (record k { tasks = (mark_dormant_from_entry_return k.tasks task_id).0 })
  pub to_entries : (k : Kernel) (entry : ℕ) → P k → P (p.run_entry entry k)

pub anything : (p : Platform) → Insensitive p (λ _. Unit)
anything p = record {
  to_context = λ k i c v. tt;
  to_finish = λ k task_id v. tt;
  to_entries = λ k entry v. tt;
}

module _ (p : Platform) (P : Kernel → Type 0) (law : Insensitive p P) where
  abbrev pub Keeps : Control Machine → Type 0
  Keeps = AfterReturn (λ m. P m.kernel)

  abbrev pub KeepsWith {ℓ} : {A : Type ℓ} → Control (Machine × A) → Type 0
  KeepsWith = AfterReturn (λ r. P r.0.kernel)

  arrive-Keeps :
      (enter : Machine → Option ℕ → Control Machine) (m : Machine) (c : TaskContext)
      → ((o : Option ℕ) → Keeps (enter (called p m c.rsp) o))
      → Keeps (arrive p enter m c)
  unfolding arrive
  arrive-Keeps enter m c h = elim (Bool-cases (m.memory c.rsp == p.trampoline)) [
    | inl e ↦ rw e (h (p.tcb_at c.r12))
    | inr e ↦ elim (Bool-cases (m.memory c.rsp == p.halt_address)) [
      | inl f ↦ rw (e, f) tt
      | inr f ↦ rw (e, f) tt
    ]
  ]

  finish_entry-kept : (m : Machine) (i : ℕ) → P m.kernel → P (finish_entry p m i).kernel
  unfolding finish_entry
  finish_entry-kept m i h =
      let k = p.run_entry (slot_of m i).entry m.kernel in
      law.to_finish k (k.tasks.slots i).id (law.to_entries m.kernel (slot_of m i).entry h)

  -- A task that no pair starts with goes back to the boot context.
  enter_unreserved :
      (n : ℕ) (m : Machine) (o : Option ℕ)
      → m.smoke_from ≡ none
      → P m.kernel
      → Keeps (enter p (suc n) m o)
  unfolding enter leave_task finish_entry reserved_next
  enter_unreserved n m none h v = tt
  enter_unreserved n m (some i) h v = elim (Bool-cases ((slot_of m i).entry == 0)) [
    | inl e ↦ rw (enter, e) tt
    | inr e ↦ rw (enter, e, h) (law.to_context _ i _ (finish_entry-kept m i v))
  ]

  leave_task-Keeps :
      (n : ℕ) (m : Machine) (i : ℕ) → P m.kernel → Keeps (leave_task p (enter p (suc n)) m i)
  unfolding leave_task
  leave_task-Keeps n m i v = elim (Option-cases (reserved_next m i)) [
    | inl e ↦ rw (leave_task, e) (law.to_context m.kernel i _ v)
    | inr (next, e) ↦
        let m' = leave_for p m i next in
        let v' = law.to_context m.kernel i (p.live m.kernel i) v in
        rw (leave_task, e)
          (arrive-Keeps (enter p (suc n)) m' (slot_of m' next).context
            λ o. enter_unreserved n (called p m' (slot_of m' next).context.rsp) o refl v')
  ]

  pub enter-Keeps :
      (n : ℕ) (m : Machine) (o : Option ℕ) → P m.kernel → Keeps (enter p (suc (suc n)) m o)
  unfolding enter
  enter-Keeps n m none v = tt
  enter-Keeps n m (some i) v = elim (Bool-cases ((slot_of m i).entry == 0)) [
    | inl e ↦ rw (enter, e) tt
    | inr e ↦ rw (enter, e) (leave_task-Keeps n (finish_entry p m i) i (finish_entry-kept m i v))
  ]

  pub switch_to_task-Keeps : (m : Machine) (to : ℕ) → P m.kernel → KeepsWith (switch_to_task p m to)
  unfolding switch_to_task
  switch_to_task-Keeps m to v = go (validate_task (slot_of m to)) refl
    where
      go :
          (r : ContextResult) → validate_task (slot_of m to) ≡ r → KeepsWith (switch_to_task p m to)
      go ok e =
          rw (switch_to_task, e)
            (let m' = leave_boot p m to in
              AfterReturn->>= (λ a. P a.kernel) (λ a. P a.0.kernel)
                (arrive p (enter p enter_fuel) m' (slot_of m to).context)
                (λ m''. comes_back (record m'' { active_task = none }, ok))
                (arrive-Keeps (enter p enter_fuel) m' (slot_of m to).context
                  (λ o. enter-Keeps 0 (called p m' (slot_of m to).context.rsp) o v))
                λ m'' v'. v')
      go inval e = rw (switch_to_task, e) v
      go bad_state e = rw (switch_to_task, e) v

  switch_prepared-Keeps :
      (first second : ℕ) (m : Machine) (r : ContextResult)
      → P m.kernel
      → KeepsWith (switch_prepared p first second (m, r))
  unfolding switch_prepared
  switch_prepared-Keeps first second m ok v =
      let m' = record m { smoke_from = some first; smoke_to = some second } in
      AfterReturn->>= (λ a. P a.0.kernel) (λ a. P a.0.kernel) (switch_to_task p m' first)
        clear_reservation (switch_to_task-Keeps m' first v) λ (_, _) v'. v'
  switch_prepared-Keeps first second m inval v = v
  switch_prepared-Keeps first second m bad_state v = v

  pub prepare-kept : (m : Machine) (i : ℕ) → P m.kernel → P (prepare_initial_frame p m i).0.kernel
  unfolding write_frame
  prepare-kept m i v = elim (prepare_cases p m i) [
    | inl (_, e) ↦ rw e (law.to_context m.kernel i _ v)
    | inr e ↦ rw e v
  ]

  prepare_second-Keeps :
      (first second : ℕ) (m : Machine) (r : ContextResult)
      → P m.kernel
      → KeepsWith (prepare_second p first second (m, r))
  unfolding prepare_second
  prepare_second-Keeps first second m ok v =
      let (m', r) = prepare_initial_frame p m second in
      switch_prepared-Keeps first second m' r (prepare-kept m second v)
  prepare_second-Keeps first second m inval v = v
  prepare_second-Keeps first second m bad_state v = v

  pub switch_to_task_pair-Keeps :
      (m : Machine) (first second : ℕ)
      → P m.kernel
      → KeepsWith (switch_to_task_pair p m first second)
  unfolding switch_to_task_pair
  switch_to_task_pair-Keeps m first second v = elim (Bool-cases (first == second)) [
    | inl e ↦ rw e v
    | inr e ↦
        let (m', r) = prepare_initial_frame p m first in
        rw e (prepare_second-Keeps first second m' r (prepare-kept m first v))
  ]
