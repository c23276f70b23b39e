-- ===== src/Context/Pairs.antt =====
-- A switch from its preparation on: the frames of kernel/task_context.c, then the runs on them.
use itron_rtos.Common.{
  ℕ, ◌≡◌, ◌≢◌, refl, sym, subst, ap, ◌∙◌, inl, inr, Bool, true, false, none, ◌==◌, Bool-cases,
  comes_back, arith,
}
use itron_rtos.Task.{TaskTable, Tcb}
use itron_rtos.Kernel.{Kernel}
use itron_rtos.Context.{
  Platform, Machine, ok, slot_of, frame_pointer, initial_context, write_frame,
  prepare_initial_frame, switch_to_task, switch_prepared, prepare_second, switch_to_task_pair,
}
use itron_rtos.Context.Frames.{
  Laid, Valid-validate_task, prepare-ok, framed, write_frame_self, write_frame_other,
  write_frame-Enterable, write_frame-keeps, frame_pointer-InStack,
}
use itron_rtos.Context.Stacks.{Apart, Spares, Apart-Spares}
use itron_rtos.Context.Entering.{CanRun, CanRun-other, CanRun-context}
use itron_rtos.Context.Runs.{
  Ran, Ended, only, either, alone, both, alone-Ran, both-Ran, switch_to_task-alone,
  switch_prepared-both,
}

-- A READY task that a switch can go to.
abbrev pub Switchable : Platform → TaskTable → ℕ → Type 0
Switchable p t i = Laid (t.slots i) × CanRun p t i

framed-Laid : (p : Platform) (m : Machine) (i : ℕ) → Laid (slot_of m i) → Laid (framed p m i)
unfolding initial_context
framed-Laid p m i l =
    let at = frame_pointer-InStack (slot_of m i) l.valid.roomy l.laid_out l.fits in
    record {
      valid = record {
        has_base = l.valid.has_base;
        has_top = l.valid.has_top;
        roomy = l.valid.roomy;
        has_rsp = omega (arith, at.aligned);
      };
      laid_out = l.laid_out;
      fits = l.fits;
    }

pub write_frame-CanRun :
    (p : Platform) (m : Machine) (i j : ℕ)
    → CanRun p m.kernel.tasks i
    → CanRun p (write_frame p m j).kernel.tasks i
unfolding write_frame
write_frame-CanRun p m i j c = elim (Bool-cases (j == i)) [
  | inl e ↦
      let same : j ≡ i = ground arith in
      subst (λ k. CanRun p (write_frame p m k).kernel.tasks i) (sym same)
        (CanRun-context p m.kernel.tasks i (framed p m i).context c)
  | inr e ↦ CanRun-other p m.kernel.tasks i j (framed p m j) (ground arith) (λ a. refl) c
]

pub write_frame-Laid :
    (p : Platform) (m : Machine) (i j : ℕ)
    → j ≢ i
    → Laid (slot_of m i)
    → Laid (slot_of (write_frame p m j) i)
write_frame-Laid p m i j other l = subst Laid (sym (write_frame_other p m i j other)) l

pub Laid-write_frame_self :
    (p : Platform) (m : Machine) (i : ℕ) → Laid (slot_of m i) → Laid (slot_of (write_frame p m i) i)
Laid-write_frame_self p m i l = subst Laid (sym (write_frame_self p m i)) (framed-Laid p m i l)

-- What runs on frames that were only just written has run from the machine before.
framed-Ended :
    (p : Platform) (m : Machine) (i j : ℕ) (s' : Tcb)
    → Ended (slot_of (write_frame p m i) j) s'
    → Ended (slot_of m j) s'
unfolding write_frame
framed-Ended p m i j s' e = elim (Bool-cases (i == j)) [
  | inl here ↦
      let same : i ≡ j = ground arith in
      let now : slot_of (write_frame p m i) j ≡ framed p m i =
        ap (slot_of (write_frame p m i)) (sym same) ∙ write_frame_self p m i in
      subst (λ k. Ended (slot_of m k) s') same (subst (λ (s : Tcb). Ended s s') now e)
  | inr other ↦ subst (λ (s : Tcb). Ended s s') (write_frame_other p m j i (ground arith)) e
]

Ran-write_frame :
    (p : Platform) (among : ℕ → Bool) (m m' : Machine) (i : ℕ)
    → among i ≡ true
    → Ran among (write_frame p m i) m'
    → Ran among m m'
unfolding write_frame
Ran-write_frame p among m m' i h r = record {
  ran = λ j g. framed-Ended p m i j (slot_of m' j) (r.ran j g);
  same = λ j g. r.same j g ∙ write_frame_other p m j i (λ (e : i ≡ j). cc (h, g, e));
  kernel = ap (λ (k : Kernel). record k { tasks = m.kernel.tasks }) r.kernel;
  next_task_id = r.next_task_id;
  unreserved = r.unreserved;
  inactive = r.inactive;
}

-- A switch to one task, and to a pair of them: frames, runs and all.
pub prepared-Ran :
    (p : Platform) (m : Machine) (to : ℕ)
    → Laid (slot_of m to)
    → CanRun p m.kernel.tasks to
    → m.smoke_from ≡ none
    → (prepare_initial_frame p m to ≡ (write_frame p m to, ok))
      × (switch_to_task p (write_frame p m to) to
          ≡ comes_back (alone p (write_frame p m to) to, ok))
      × Ran (only to) m (alone p (write_frame p m to) to)
unfolding write_frame
prepared-Ran p m to l c unreserved =
    let m' = write_frame p m to in
    (
      prepare-ok p m to (Valid-validate_task _ l.valid),
      switch_to_task-alone p m' to (Valid-validate_task _ (Laid-write_frame_self p m to l).valid)
          (write_frame-CanRun p m to to c) (write_frame-Enterable p m to) unreserved,
      Ran-write_frame p (only to) m (alone p m' to) to (ground arith)
          (alone-Ran p m' to unreserved),
    )

framed-Spares :
    (p : Platform) (m : Machine) (first second : ℕ)
    → first ≢ second
    → Laid (slot_of m first)
    → Laid (slot_of m second)
    → Apart p (slot_of m first) (slot_of m second)
    → let m' = write_frame p (write_frame p m first) second in
      Spares p (slot_of m' first) (slot_of m' second)
unfolding initial_context
framed-Spares p m first second other l k apart =
    let m1 = write_frame p m first in
    let at_first : slot_of (write_frame p m1 second) first ≡ framed p m first =
      write_frame_other p m1 first second (λ e. other (sym e)) ∙ write_frame_self p m first in
    let at_second : slot_of (write_frame p m1 second) second ≡ framed p m second =
      write_frame_self p m1 second
      ∙ ap
          (λ (s : Tcb).
            let s' : Tcb = record s {
              context = initial_context p second (frame_pointer s.stack_top);
            } in
            s')
          (write_frame_other p m second first other) in
    rw (at_first, at_second)
      (Apart-Spares p (framed p m first) (framed p m second) (framed-Laid p m first l)
        (framed-Laid p m second k) (record { on_stack = apart.on_stack; disjoint = apart.disjoint })
        refl refl)

pub switch_to_task_pair-prepared :
    (p : Platform) (m m1 m2 : Machine) (first second : ℕ)
    → (first == second) ≡ false
    → prepare_initial_frame p m first ≡ (m1, ok)
    → prepare_initial_frame p m1 second ≡ (m2, ok)
    → switch_to_task_pair p m first second ≡ switch_prepared p first second (m2, ok)
unfolding switch_to_task_pair prepare_second
switch_to_task_pair-prepared p m m1 m2 first second apart a b =
    rw (switch_to_task_pair, apart)
      (ap (prepare_second p first second) a ∙ ap (switch_prepared p first second) b)

pub pair-Ran :
    (p : Platform) (m : Machine) (first second : ℕ)
    → first ≢ second
    → Laid (slot_of m first)
    → Laid (slot_of m second)
    → CanRun p m.kernel.tasks first
    → CanRun p m.kernel.tasks second
    → Apart p (slot_of m first) (slot_of m second)
    → let m' = both p (write_frame p (write_frame p m first) second) first second in
      (switch_to_task_pair p m first second ≡ comes_back (m', ok)) × Ran (either first second) m m'
pair-Ran p m first second other l k c d apart =
    let m1 = write_frame p m first in
    let m2 = write_frame p m1 second in
    let differ : (first == second) ≡ false = ground (arith, other) in
    let on : second ≢ first = λ e. other (sym e) in
    let l1 : Laid (slot_of m1 first) = Laid-write_frame_self p m first l in
    let l2 : Laid (slot_of m2 first) = write_frame-Laid p m1 first second on l1 in
    let k1 : Laid (slot_of m1 second) = write_frame-Laid p m second first other k in
    (
      switch_to_task_pair-prepared p m m1 m2 first second differ
            (prepare-ok p m first (Valid-validate_task _ l.valid))
            (prepare-ok p m1 second (Valid-validate_task _ k1.valid))
          ∙ switch_prepared-both p m2 first second other (Valid-validate_task _ l2.valid)
              (write_frame-CanRun p m1 first second (write_frame-CanRun p m first first c))
              (write_frame-CanRun p m1 second second (write_frame-CanRun p m second first d))
              (write_frame-keeps p m1 first second on (write_frame-Enterable p m first))
              (write_frame-Enterable p m1 second) (framed-Spares p m first second other l k apart),
      Ran-write_frame p (either first second) m (both p m2 first second) first (ground arith) (
          Ran-write_frame p (either first second) m1 (both p m2 first second) second (ground arith)
            (both-Ran p m2 first second other)),
    )
