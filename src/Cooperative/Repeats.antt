-- ===== src/Cooperative/Repeats.antt =====
-- The rounds of the cooperative loop of kernel/kernel.c: the same task, over and over.
use itron_rtos.Common.{
  ℕ, zero, suc, ◌≡◌, refl, subst, ap, ◌∙◌, fun_ext, inl, inr, true, false, Option, none, some, ◌==◌,
  Bool-cases, arith, update_self,
}
use itron_rtos.Task.{Tcb, TaskTable, TaskState, ready, running, max_tasks, is_running}
use itron_rtos.Task.Moves.{settle}
use itron_rtos.Scheduler.Choice.{IsBest, IsReady, key, select_next_iff}
use itron_rtos.Kernel.{Kernel}
use itron_rtos.Context.{Platform}
use itron_rtos.Context.Entering.{CanRun}
use itron_rtos.Dispatcher
use itron_rtos.Dispatcher.{DispatchResult, commit_current, commit_marked}
use itron_rtos.Dispatcher.Moving.{moved, moved-CanRun}
use itron_rtos.Dispatcher.Switching.{mark_running-CanRun, mark_ready-CanRun}
use itron_rtos.Cooperative.{
  no_ready, limit_reached, Round, stops, goes_on, recandidate, run_current, committed,
  cooperative_round, cooperative_loop, cooperative_entries,
}

-- A second move of the same task takes the place of the first.
pub moved_twice :
    (t : TaskTable) (b : ℕ) (s s' : TaskState) → moved (moved t b s) b s' ≡ moved t b s'
moved_twice t b s s' =
    ap (λ (f : ℕ → Tcb). let t' : TaskTable = record t { slots = f } in t')
      (fun_ext λ j. elim (Bool-cases (b == j)) [
        | inl e ↦ let self : (b == b) ≡ true = ground arith in rw (e, self) refl
        | inr e ↦ rw e refl
      ])

-- Putting the best READY task back among the READY ones leaves it the best.
moved-key : (t : TaskTable) (b j : ℕ) → key (moved t b ready) j ≡ key t j
moved-key t b j = elim (Bool-cases (b == j)) [
  | inl e ↦
      let same : b ≡ j = ground arith in
      let self : (b == b) ≡ true = ground arith in
      subst (λ i. key (moved t b ready) i ≡ key t i) same (rw self refl)
  | inr e ↦ rw e refl
]

was_ready : (t : TaskTable) (b j : ℕ) → IsReady t b → IsReady (moved t b ready) j → IsReady t j
was_ready t b j h r = elim (Bool-cases (b == j)) [
  | inl e ↦ subst (IsReady t) (let same : b ≡ j = ground arith in same) h
  | inr e ↦ rw e at (r)
]

moved-IsBest : (t : TaskTable) (b : ℕ) → IsBest t max_tasks b → IsBest (moved t b ready) max_tasks b
moved-IsBest t b best = record {
  below = best.below;
  is_candidate = let self : (b == b) ≡ true = ground arith in rw self refl;
  least = λ k lt r.
      rw (moved-key t b b, moved-key t b k) (best.least k lt (was_ready t b k best.is_candidate r));
  first = λ k lt r.
      rw (moved-key t b b, moved-key t b k) (best.first k lt (was_ready t b k best.is_candidate r));
}

module _ (p : Platform) (k : Kernel) (b : ℕ) (best : IsBest k.tasks max_tasks b)
    (c : CanRun p k.tasks b) where
  abbrev t : TaskTable
  t = k.tasks

  abbrev running_kernel : Kernel
  running_kernel = record k { tasks = moved t b running; current = some b }

  commits : commit_current k (some b) ≡ (running_kernel, Dispatcher.ok)
  unfolding commit_current commit_marked
  commits =
      rw (commit_current, best.is_candidate)
        (ap (commit_marked k b) (mark_running-CanRun p t b c best.is_candidate))

  runs_again :
      run_current p running_kernel (some b)
      ≡ goes_on (record k { tasks = moved t b ready; current = some b })
  unfolding run_current recandidate
  runs_again =
      let d = moved-CanRun p t b b running refl c c in
      let now : running_kernel.tasks.slots b ≡ settle running (t.slots b) =
        update_self t.slots b (settle running (t.slots b)) in
      let runs : is_running (running_kernel.tasks.slots b).state ≡ true =
        ap (λ (u : Tcb). is_running u.state) now in
      let entry : ((running_kernel.tasks.slots b).entry == 0) ≡ false =
        ground (arith, d.fit.has_entry) in
      rw (run_current, runs, entry, d.fit.quiet running_kernel)
        (ap (recandidate running_kernel) (mark_ready-CanRun p (moved t b running) b d runs)
          ∙ ap (λ (t' : TaskTable). goes_on (record k { tasks = t'; current = some b }))
              (moved_twice t b running ready))

  pub round-again :
      cooperative_round p k ≡ goes_on (record k { tasks = moved t b ready; current = some b })
  unfolding cooperative_round committed
  round-again =
      ap
        (λ (o : Option ℕ). elim o [
          | none ↦ stops k no_ready
          | some selected ↦ committed p (commit_current k (some selected))
        ])
        ((select_next_iff t b).1 best)
      ∙ ap (committed p) commits
      ∙ runs_again

cooperative_loop-goes_on :
    (p : Platform) (n : ℕ) (k k' : Kernel)
    → cooperative_round p k ≡ goes_on k'
    → cooperative_loop p (suc n) k ≡ cooperative_loop p n k'
unfolding cooperative_loop
cooperative_loop-goes_on p n k k' e =
    ap
      (λ (r : Round). elim r [
        | stops k'' why ↦ (k'', why)
        | goes_on k'' ↦ cooperative_loop p n k''
      ])
      e

cooperative_loop-again :
    (p : Platform) (n : ℕ) (k : Kernel) (b : ℕ)
    → IsBest k.tasks max_tasks b
    → CanRun p k.tasks b
    → cooperative_loop p (suc n) k
      ≡ (record k { tasks = moved k.tasks b ready; current = some b }, limit_reached)
unfolding cooperative_loop
cooperative_loop-again p zero k b best c =
    cooperative_loop-goes_on p zero k _ (round-again p k b best c)
cooperative_loop-again p (suc n) k b best c =
    let k' = record k { tasks = moved k.tasks b ready; current = some b } in
    cooperative_loop-goes_on p (suc n) k k' (round-again p k b best c)
    ∙ cooperative_loop-again p n k' b (moved-IsBest k.tasks b best)
        (moved-CanRun p k.tasks b b ready refl c c)
    ∙ ap (λ (t' : TaskTable). (record k { tasks = t'; current = some b }, limit_reached))
        (moved_twice k.tasks b ready ready)

-- The scheduler prefers a READY task, whose id leads to it and whose entry function leaves the kernel
-- as it is. Then kernel_run_cooperative_entries goes on until its limit is reached. At the end that
-- task is READY with no wait left over and the dispatcher's current task, and nothing else of the
-- kernel has changed, the other tasks included.
pub cooperative_entries-again :
    (p : Platform) (k : Kernel) (b : ℕ)
    → IsBest k.tasks max_tasks b
    → CanRun p k.tasks b
    → cooperative_entries p k
      ≡ (record k { tasks = moved k.tasks b ready; current = some b }, limit_reached)
unfolding cooperative_entries
cooperative_entries-again p k b best c = cooperative_loop-again p 2 k b best c
