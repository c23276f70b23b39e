-- ===== src/Context/Entering.antt =====
-- One stay on the stack of a task: task_context_enter from the trampoline to the next
-- arch_context_switch, for an entry function that leaves the kernel as it is.
use itron_rtos.Common.{
  ℕ, suc, ◌<◌, ◌≡◌, ◌≢◌, refl, sym, subst, ap, ◌∙◌, true, false, ◌||◌, ◌&&◌, not, Option, none,
  some, ◌==◌, update_self, update_ne, Control, comes_back, arith, is_positive,
}
use itron_rtos.Task.{
  TaskContext, Tcb, TaskTable, max_tasks, unused, dormant, ready, running, waiting, is_unused,
  is_running, is_ready,
}
use itron_rtos.Task.Lookup.{
  task_get_by_id, find_task, find_task-write, write_slot, names, change_task-ok,
}
use itron_rtos.Task.Moves.{mark_dormant_from_entry_return, settle}
use itron_rtos.Kernel.{Kernel}
use itron_rtos.Context.{
  Platform, Machine, slot_of, with_tasks, save_task, leave_for, finish_entry, reserved_next,
  leave_task, enter, arrive,
}

-- A task that is RUNNING or READY, with an entry function that leaves the kernel alone.
pub record Fit (p : Platform) (s : Tcb) : Type 0 where
  pub positive : is_positive s.id ≡ true
  pub has_entry : s.entry ≢ 0
  pub quiet : (k : Kernel) → p.run_entry s.entry k ≡ k
  pub may_end : (is_running s.state || is_ready s.state) ≡ true

-- Such a task is in a slot of the table, and its id leads there.
pub record CanRun (p : Platform) (t : TaskTable) (i : ℕ) : Type 0 where
  pub inside : i < max_tasks
  pub found : find_task t (t.slots i).id ≡ some i
  pub fit : Fit p (t.slots i)

pub task_get_by_id-CanRun :
    (p : Platform) (t : TaskTable) (i : ℕ) → CanRun p t i → task_get_by_id t (t.slots i).id ≡ some i
unfolding task_get_by_id
task_get_by_id-CanRun p t i c = rw (c.fit.positive) c.found

-- The task as its run leaves it, and the machine behind task_mark_dormant_from_entry_return.
abbrev pub ended : TaskTable → ℕ → TaskTable
ended t i = write_slot t i (settle dormant (t.slots i))

abbrev pub rest : Platform → Machine → ℕ → Machine
rest p m i = record (with_tasks m (ended m.kernel.tasks i)) {
  memory = p.run_on_stack (slot_of m i).entry (slot_of m i).context.rsp m.kernel m.memory;
}

-- The end of a run leaves the id in use.
pub ends_in_use :
    (s : Tcb) (a : ℕ)
    → (is_running s.state || is_ready s.state) ≡ true
    → names a (settle dormant s) ≡ names a s
ends_in_use s a h =
    elim s.state
        as (λ u.
          (is_running u || is_ready u) ≡ true → (s.id == a) ≡ (not (is_unused u) && s.id == a)) [
            | running ↦ λ _. refl
            | ready ↦ λ _. refl
            | unused ↦ λ n. absurd (cc n)
            | dormant ↦ λ _. refl
            | waiting ↦ λ _. refl
          ]
      h

-- What a write to a slot keeps, where the id stays in use or out of use: the task in another slot,
-- and the task in the slot where it is still fit.
pub CanRun-other :
    (p : Platform) (t : TaskTable) (i j : ℕ) (s : Tcb)
    → j ≢ i
    → ((a : ℕ) → names a s ≡ names a (t.slots j))
    → CanRun p t i
    → CanRun p (write_slot t j s) i
CanRun-other p t i j s other same c =
    let slot : (write_slot t j s).slots i ≡ t.slots i = update_ne t.slots j i s other in
    record {
      inside = c.inside;
      found =
          ap (λ (u : Tcb). find_task (write_slot t j s) u.id) slot
          ∙ find_task-write t (t.slots i).id j s (same (t.slots i).id)
          ∙ c.found;
      fit = subst (Fit p) (sym slot) c.fit;
    }

pub CanRun-same :
    (p : Platform) (t : TaskTable) (i : ℕ) (s : Tcb)
    → s.id ≡ (t.slots i).id
    → ((a : ℕ) → names a s ≡ names a (t.slots i))
    → Fit p s
    → CanRun p t i
    → CanRun p (write_slot t i s) i
CanRun-same p t i s id same fit c =
    let slot : (write_slot t i s).slots i ≡ s = update_self t.slots i s in
    record {
      inside = c.inside;
      found =
          ap (λ (u : Tcb). find_task (write_slot t i s) u.id) slot
          ∙ find_task-write t s.id i s (same s.id)
          ∙ ap (find_task t) id
          ∙ c.found;
      fit = subst (Fit p) (sym slot) fit;
    }

pub CanRun-context :
    (p : Platform) (t : TaskTable) (i : ℕ) (context : TaskContext)
    → CanRun p t i
    → CanRun p (write_slot t i (record (t.slots i) { context = context })) i
CanRun-context p t i context c =
    CanRun-same p t i _ refl (λ a. refl)
      (record {
        positive = c.fit.positive;
        has_entry = c.fit.has_entry;
        quiet = c.fit.quiet;
        may_end = c.fit.may_end;
      })
      c

mark_dormant-CanRun :
    (p : Platform) (t : TaskTable) (i : ℕ)
    → CanRun p t i
    → (mark_dormant_from_entry_return t (t.slots i).id).0 ≡ ended t i
unfolding mark_dormant_from_entry_return
mark_dormant-CanRun p t i c =
    rw
      (
        c.fit.positive,
        change_task-ok t (t.slots i).id i (λ s. is_running s.state || is_ready s.state)
            (settle dormant) c.found c.fit.may_end,
      )
      refl

finish_entry-CanRun :
    (p : Platform) (m : Machine) (i : ℕ)
    → CanRun p m.kernel.tasks i
    → finish_entry p m i ≡ rest p m i
unfolding finish_entry
finish_entry-CanRun p m i c = rw (c.fit.quiet m.kernel) (
    ap (λ t. record (with_tasks m t) { memory = (rest p m i).memory })
      (mark_dormant-CanRun p m.kernel.tasks i c))

enter-CanRun :
    (p : Platform) (n : ℕ) (m : Machine) (i : ℕ)
    → CanRun p m.kernel.tasks i
    → enter p (suc n) m (some i) ≡ leave_task p (enter p n) (rest p m i) i
unfolding enter
enter-CanRun p n m i c =
    let e : ((slot_of m i).entry == 0) ≡ false = ground (arith, c.fit.has_entry) in
    rw (enter, e) (ap (λ m'. leave_task p (enter p n) m' i) (finish_entry-CanRun p m i c))

-- The end of a run without a pair, and of one that goes on to the second of a pair.
pub leave_task-boot :
    (p : Platform) (enter : Machine → Option ℕ → Control Machine) (m : Machine) (i : ℕ)
    → reserved_next m i ≡ none
    → leave_task p enter m i ≡ comes_back (save_task p m i)
unfolding leave_task
leave_task-boot p enter m i h = rw (leave_task, h) refl

pub leave_task-next :
    (p : Platform) (enter : Machine → Option ℕ → Control Machine) (m : Machine) (i next : ℕ)
    → reserved_next m i ≡ some next
    → leave_task p enter m i
      ≡ arrive p enter (leave_for p m i next) (slot_of (leave_for p m i next) next).context
unfolding leave_task
leave_task-next p enter m i next h = rw (leave_task, h) refl

pub reserved_next-none : (m : Machine) (i : ℕ) → m.smoke_from ≡ none → reserved_next m i ≡ none
unfolding reserved_next
reserved_next-none m i h = rw (reserved_next, h) refl

reserved_next-some :
    (m : Machine) (i next : ℕ)
    → m.smoke_from ≡ some i
    → m.smoke_to ≡ some next
    → reserved_next m i ≡ some next
unfolding reserved_next
reserved_next-some m i next from to =
    let same : (i == i) ≡ true = ground arith in rw (reserved_next, from, same, to) refl

pub enter_last :
    (p : Platform) (n : ℕ) (m : Machine) (i : ℕ)
    → CanRun p m.kernel.tasks i
    → m.smoke_from ≡ none
    → enter p (suc n) m (some i) ≡ comes_back (save_task p (rest p m i) i)
enter_last p n m i c alone =
    enter-CanRun p n m i c
    ∙ leave_task-boot p (enter p n) (rest p m i) i (reserved_next-none (rest p m i) i alone)

pub enter_first :
    (p : Platform) (n : ℕ) (m : Machine) (i next : ℕ)
    → CanRun p m.kernel.tasks i
    → m.smoke_from ≡ some i
    → m.smoke_to ≡ some next
    → enter p (suc n) m (some i)
      ≡ arrive p
          (enter p n)
          (leave_for p (rest p m i) i next)
          (slot_of (leave_for p (rest p m i) i next) next).context
enter_first p n m i next c from to =
    enter-CanRun p n m i c
    ∙ leave_task-next p (enter p n) (rest p m i) i next
        (reserved_next-some (rest p m i) i next from to)
