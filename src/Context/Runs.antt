-- ===== src/Context/Runs.antt =====
-- The whole run behind a switch: task_context_switch_to_task and task_context_switch_to_task_pair
-- for tasks whose entry functions leave the kernel as it is.
use itron_rtos.Common.{
  ℕ, ◌≡◌, ◌≢◌, refl, sym, subst, ap, ◌∙◌, inl, inr, Bool, true, false, ◌||◌, none, some, ◌==◌,
  update_ne, Bool-cases, Control, comes_back, ◌>>=◌, arith,
}
use itron_rtos.Task.{Tcb, dormant}
use itron_rtos.Task.Moves.{settle}
use itron_rtos.Context.{
  Platform, Machine, ContextResult, ok, slot_of, validate_task, save_task, leave_boot, leave_for,
  enter, enter_fuel, called, arrive, switch_to_task, clear_reservation, switch_prepared,
}
use itron_rtos.Context.Frames.{Enterable, Enterable-arrive}
use itron_rtos.Context.Stacks.{Spares}
use itron_rtos.Context.Entering.{
  CanRun, CanRun-other, ended, rest, ends_in_use, enter_last, enter_first,
}

-- The task has become DORMANT, with no wait left over; but for its saved registers nothing else of
-- it is changed.
abbrev pub Ended : Tcb → Tcb → Type 0
Ended s s' = s' ≡ record (settle dormant s) { context = s'.context }

-- From `m` to `m'` the tasks that `among` names have ended, and nothing else has changed
-- in the kernel.
pub record Ran (among : ℕ → Bool) (m m' : Machine) : Type 0 where
  pub ran : (j : ℕ) → among j ≡ true → Ended (slot_of m j) (slot_of m' j)
  pub same : (j : ℕ) → among j ≡ false → slot_of m' j ≡ slot_of m j
  pub kernel : record m'.kernel { tasks = m.kernel.tasks } ≡ m.kernel
  pub next_task_id : m'.kernel.tasks.next_task_id ≡ m.kernel.tasks.next_task_id
  pub unreserved : m'.smoke_from ≡ none
  pub inactive : m'.active_task ≡ none

abbrev pub only : ℕ → ℕ → Bool
only i j = i == j

abbrev pub either : ℕ → ℕ → ℕ → Bool
either first second j = first == j || second == j

abbrev pub alone : Platform → Machine → ℕ → Machine
alone p m to =
    record (save_task p (rest p (called p (leave_boot p m to) (slot_of m to).context.rsp) to) to) {
      active_task = none;
    }

pub switch_to_task-alone :
    (p : Platform) (m : Machine) (to : ℕ)
    → validate_task (slot_of m to) ≡ ok
    → CanRun p m.kernel.tasks to
    → Enterable p m to
    → m.smoke_from ≡ none
    → switch_to_task p m to ≡ comes_back (alone p m to, ok)
unfolding switch_to_task
switch_to_task-alone p m to valid c e unreserved =
    rw (switch_to_task, valid)
      (ap (λ (r : Control Machine). r >>= λ m'. comes_back (record m' { active_task = none }, ok))
        (Enterable-arrive p (enter p enter_fuel) (leave_boot p m to) to c.inside
            (record { frame = e.frame; told = e.told })
          ∙ enter_last p 1 (called p (leave_boot p m to) (slot_of m to).context.rsp) to c
              unreserved))

pub alone-Ran :
    (p : Platform) (m : Machine) (to : ℕ) → m.smoke_from ≡ none → Ran (only to) m (alone p m to)
alone-Ran p m to unreserved = record {
  ran = λ j h.
      let here : to ≡ j = ground arith in
      let self : (to == to) ≡ true = ground arith in
      subst (λ k. Ended (slot_of m k) (slot_of (alone p m to) k)) here (rw self refl);
  same = λ j h. rw h refl;
  kernel = refl;
  next_task_id = refl;
  unreserved = unreserved;
  inactive = refl;
}

-- The machine when the first of a pair is entered, when the second is switched to and when it is
-- entered, and at the end.
abbrev pub at_first : Platform → Machine → ℕ → ℕ → Machine
at_first p m first second =
    called p (leave_boot p (record m { smoke_from = some first; smoke_to = some second }) first)
      (slot_of m first).context.rsp

abbrev pub between : Platform → Machine → ℕ → ℕ → Machine
between p m first second = leave_for p (rest p (at_first p m first second) first) first second

abbrev pub at_second : Platform → Machine → ℕ → ℕ → Machine
at_second p m first second =
    let m' = between p m first second in called p m' (slot_of m' second).context.rsp

abbrev pub both : Platform → Machine → ℕ → ℕ → Machine
both p m first second = record (save_task p (rest p (at_second p m first second) second) second) {
  active_task = none;
  smoke_from = none;
  smoke_to = none;
}

between-CanRun :
    (p : Platform) (m : Machine) (first second : ℕ)
    → first ≢ second
    → CanRun p m.kernel.tasks first
    → CanRun p m.kernel.tasks second
    → CanRun p (between p m first second).kernel.tasks second
between-CanRun p m first second other c d =
    CanRun-other p (ended m.kernel.tasks first) second first _ other (λ a. refl)
      (CanRun-other p m.kernel.tasks second first _ other
        (λ a. ends_in_use (m.kernel.tasks.slots first) a c.fit.may_end) d)

pub between_second :
    (p : Platform) (m : Machine) (first second : ℕ)
    → first ≢ second
    → slot_of (between p m first second) second ≡ slot_of m second
between_second p m first second other =
    let t = m.kernel.tasks in
    update_ne (ended t first).slots first second _ other
    ∙ update_ne t.slots first second (settle dormant (t.slots first)) other

between-Enterable :
    (p : Platform) (m : Machine) (first second : ℕ)
    → first ≢ second
    → Enterable p m second
    → Spares p (slot_of m first) (slot_of m second)
    → Enterable p (between p m first second) second
between-Enterable p m first second other e spares =
    let same = between_second p m first second other in
    record {
      frame =
          ap (λ (s : Tcb). (between p m first second).memory s.context.rsp) same
          ∙ spares.keeps m.kernel _
          ∙ update_ne m.memory (slot_of m first).context.rsp (slot_of m second).context.rsp
              p.halt_address (λ h. spares.other_frame (sym h))
          ∙ e.frame;
      told = ap (λ (s : Tcb). s.context.r12) same ∙ e.told;
    }

-- What follows the run of a pair.
abbrev pub completed : Control Machine → Control (Machine × ContextResult)
completed r = r >>= (λ m'. comes_back (record m' { active_task = none }, ok)) >>= clear_reservation

-- The first of a pair runs, and leads to the `ret` onto the stack of the second.
pub switch_prepared-between :
    (p : Platform) (m : Machine) (first second : ℕ)
    → validate_task (slot_of m first) ≡ ok
    → CanRun p m.kernel.tasks first
    → Enterable p m first
    → let m' = between p m first second in
      switch_prepared p first second (m, ok)
      ≡ completed (arrive p (enter p 1) m' (slot_of m' second).context)
unfolding switch_prepared switch_to_task
switch_prepared-between p m first second valid c e =
    let m0 = leave_boot p (record m { smoke_from = some first; smoke_to = some second }) first in
    rw (switch_to_task, valid)
      (ap completed (
        Enterable-arrive p (enter p enter_fuel) m0 first c.inside
          (record { frame = e.frame; told = e.told })
        ∙ enter_first p 1 (at_first p m first second) first second c refl refl))

pub switch_prepared-both :
    (p : Platform) (m : Machine) (first second : ℕ)
    → first ≢ second
    → validate_task (slot_of m first) ≡ ok
    → CanRun p m.kernel.tasks first
    → CanRun p m.kernel.tasks second
    → Enterable p m first
    → Enterable p m second
    → Spares p (slot_of m first) (slot_of m second)
    → switch_prepared p first second (m, ok) ≡ comes_back (both p m first second, ok)
switch_prepared-both p m first second other valid c d e f spares =
    switch_prepared-between p m first second valid c e
    ∙ ap completed (
        Enterable-arrive p (enter p 1) (between p m first second) second d.inside
          (between-Enterable p m first second other f spares)
        ∙ enter_last p 0 (at_second p m first second) second
            (between-CanRun p m first second other c d) refl)

pub both-Ran :
    (p : Platform) (m : Machine) (first second : ℕ)
    → first ≢ second
    → Ran (either first second) m (both p m first second)
both-Ran p m first second other = record {
  ran = λ j h.
      let apart : (first == second) ≡ false = ground (arith, other) in
      let on : (second == first) ≡ false = ground (arith, other) in
      let self : (second == second) ≡ true = ground arith in
      let self1 : (first == first) ≡ true = ground arith in
      elim (Bool-cases (first == j)) [
        | inl e ↦
            let here : first ≡ j = ground arith in
            subst (λ k. Ended (slot_of m k) (slot_of (both p m first second) k)) here
              (rw (self1, on) refl)
        | inr e ↦
            let here : second ≡ j = ground arith in
            subst (λ k. Ended (slot_of m k) (slot_of (both p m first second) k)) here
              (rw (self, apart) refl)
      ];
  same = λ j h.
      let a : (first == j) ≡ false = ground arith in
      let b : (second == j) ≡ false = ground arith in rw (a, b) refl;
  kernel = refl;
  next_task_id = refl;
  unreserved = refl;
  inactive = refl;
}
