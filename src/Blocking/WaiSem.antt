-- ===== src/Blocking/WaiSem.antt =====
-- wai_sem of kernel/itron_api.c as a whole, with the switch.
use itron_rtos.Common.{
  ℕ, ◌-◌, ◌<◌, ◌≡◌, ◌≢◌, sym, subst, ap, ap₂, ◌∙◌, ◌⊎◌, inl, inr, [], ◌∷◌, ◌++◌, true, false, not,
  ◌&&◌, Option, none, some, ◌==◌, Bool-cases, Option-cases, Control, comes_back, ◌>>=◌, arith,
  is_positive, update_self, update_ne,
}
use itron_rtos.Task.{
  Tcb, TaskTable, TaskState, WaitReason, max_tasks, is_ready, is_waiting, unused, dormant, ready,
  running, waiting, on_semaphore,
}
use itron_rtos.Task.Lookup.{task_get_by_id, write_slot}
use itron_rtos.Task.Moves.{begin_wait}
use itron_rtos.Scheduler.{select_next}
use itron_rtos.Scheduler.Choice.{IsBest, select_next-IsBest, select_next-none}
use itron_rtos.Semaphore.{write_sem}
use itron_rtos.Semaphore.Ring.{RingOk, contents, contents-push}
use itron_rtos.Kernel.{Kernel}
use itron_rtos.Api.{Er, e_ok}
use itron_rtos.Context.{Platform, Machine}
use itron_rtos.Context.Entering.{CanRun-other, task_get_by_id-CanRun}
use itron_rtos.Context.Runs.{Ran, only}
use itron_rtos.Context.Frames.{Laid}
use itron_rtos.Context.Pairs.{Switchable}
use itron_rtos.Dispatcher.{DispatchResult}
use itron_rtos.Dispatcher.Switching.{with_current, Switches}
use itron_rtos.Dispatcher.Outcome.{switch_to_from_waiting-Switches}
use itron_rtos.Blocking.{switch_found, switch_away, take_step, wai_sem, er_of}
use itron_rtos.Blocking.Waiting.{
  Runs, Names, in_use, waits, begin_wai_sem-takes, begin_wai_sem-waits, found_begun,
}

-- What a call that has made its task wait comes to: it stays so where no task is READY, and else the
-- task that the scheduler prefers has ended.
abbrev pub Away : Platform → Machine → Control (Machine × Er) → Type 0
Away p m r =
    (((j : ℕ) → j < max_tasks → is_ready (m.kernel.tasks.slots j).state ≡ false)
      × (r ≡ comes_back (m, e_ok)))
    ⊎ ((b : ℕ) × (m' : Machine) × IsBest m.kernel.tasks max_tasks b
        × (r ≡ comes_back (m', e_ok))
        × Ran (only b) (with_current m b) m')

module _ (p : Platform) (m : Machine) (c : ℕ) where
  abbrev t : TaskTable
  t = m.kernel.tasks

  switch_away-next :
      (next : ℕ)
      → select_next t ≡ some next
      → switch_away p m c
        ≡ switch_found p m (task_get_by_id t (t.slots c).id) (task_get_by_id t (t.slots next).id)
  unfolding switch_away
  switch_away-next next e =
      ap
        (λ (o : Option ℕ). elim o [
          | none ↦ comes_back (m, e_ok)
          | some b ↦
              switch_found p m (task_get_by_id t (t.slots c).id) (task_get_by_id t (t.slots b).id)
        ])
        e

  switch_away-none : select_next t ≡ none → switch_away p m c ≡ comes_back (m, e_ok)
  unfolding switch_away
  switch_away-none e =
      ap
        (λ (o : Option ℕ). elim o [
          | none ↦ comes_back (m, e_ok)
          | some b ↦
              switch_found p m (task_get_by_id t (t.slots c).id) (task_get_by_id t (t.slots b).id)
        ])
        e

  pub switch_away-Away :
      is_waiting (t.slots c).state ≡ true
      → task_get_by_id t (t.slots c).id ≡ some c
      → ((j : ℕ) → is_ready (t.slots j).state ≡ true → Switchable p t j)
      → m.smoke_from ≡ none
      → Away p m (switch_away p m c)
  unfolding switch_found Switches
  switch_away-Away w found all unreserved = elim (Option-cases (select_next t)) [
    | inl e ↦ inl (λ j lt. select_next-none t j e lt, switch_away-none e)
    | inr (b, e) ↦
        let best = select_next-IsBest t b e in
        let (l, r) = all b best.is_candidate in
        let other : c ≢ b = λ same.
          apart (t.slots b).state (ap (λ j. is_waiting (t.slots j).state) (sym same) ∙ w)
            best.is_candidate in
        let (m', done, ran) =
          switch_to_from_waiting-Switches p m c b other w l r best.is_candidate unreserved in
        inr (
          b,
          m',
          best,
          switch_away-next b e
              ∙ ap₂ (switch_found p m) found (task_get_by_id-CanRun p t b r)
              ∙ ap
                  (λ (s : Control (Machine × DispatchResult)).
                    s >>= λ (m'', r'). comes_back (m'', er_of r'))
                  done,
          ran,
        )
  ]
    where
      apart : (u : TaskState) → is_waiting u ≡ true → is_ready u ≡ true → ⊥
      apart waiting h g = cc g
      apart ready h g = cc h
      apart running h g = cc g
      apart unused h g = cc g
      apart dormant h g = cc g

-- The tasks once the one in a slot waits.
abbrev pub begun : TaskTable → ℕ → WaitReason → ℕ → ℕ → TaskTable
begun t c reason sem_id ticks = write_slot t c (begin_wait reason sem_id ticks (t.slots c))

module _ (p : Platform) (m : Machine) (c : ℕ) (reason : WaitReason) (sem_id ticks : ℕ)
    (at : Runs m.kernel c)
    (all : (j : ℕ)
      → is_ready (m.kernel.tasks.slots j).state ≡ true
      → Switchable p m.kernel.tasks j) where
  abbrev s' : Tcb
  s' = begin_wait reason sem_id ticks (m.kernel.tasks.slots c)

  abbrev t' : TaskTable
  t' = begun m.kernel.tasks c reason sem_id ticks

  begun-Switchable : (j : ℕ) → is_ready (t'.slots j).state ≡ true → Switchable p t' j
  begun-Switchable j h = elim (Bool-cases (c == j)) [
    | inl e ↦ absurd (cc (rw e at (h)))
    | inr e ↦
        let other : c ≢ j = ground arith in
        let (l, r) = all j (rw e at (h)) in
        (
          subst Laid (sym (update_ne m.kernel.tasks.slots c j s' other)) l,
          CanRun-other p m.kernel.tasks j c s' other
              (λ a.
                ap (λ b. not b && (m.kernel.tasks.slots c).id == a)
                  (sym (in_use (m.kernel.tasks.slots c).state at.running)))
              r,
        )
  ]

  -- The switch away from a task that has begun to wait, whatever else the call has changed.
  pub begun-Away :
      (k : Kernel)
      → m.smoke_from ≡ none
      → let m' = record m { kernel = record k { tasks = t' } } in Away p m' (switch_away p m' c)
  begun-Away k unreserved =
      let m' = record m { kernel = record k { tasks = t' } } in
      let now : t'.slots c ≡ s' = update_self m.kernel.tasks.slots c s' in
      switch_away-Away p m' c (ap (λ u. is_waiting u.state) now)
        (ap (λ u. task_get_by_id t' u.id) now ∙ found_begun m.kernel c reason sem_id ticks at)
        begun-Switchable unreserved

-- The current task is RUNNING and its id leads to it; `sem_id` is that of a semaphore whose wait
-- queue is in order and has room; no pair is reserved, and every READY task has a valid stack and an
-- entry function that leaves the kernel as it is. wai_sem then returns E_OK in each of three ways.
-- Where the count is positive it is lowered by one, and nothing else happens. Else the task is WAITING
-- and its id last in the wait queue; then either no task is READY and the call comes back at once, or
-- the READY task that the scheduler prefers is DORMANT at the end and the dispatcher's current task,
-- and nothing else has changed.
pub wai_sem_cases :
    (p : Platform) (m : Machine) (c sem_id i : ℕ)
    → Runs m.kernel c
    → Names m.kernel.sems sem_id i
    → RingOk (m.kernel.sems.sems i)
    → (m.kernel.sems.sems i).wait_count < max_tasks
    → ((j : ℕ) → is_ready (m.kernel.tasks.slots j).state ≡ true → Switchable p m.kernel.tasks j)
    → m.smoke_from ≡ none
    → let k = m.kernel in
      let s = k.sems.sems i in
      ((is_positive s.count ≡ true)
        × (wai_sem p m sem_id
            ≡ comes_back (
              record m {
                kernel = record k { sems = write_sem k.sems i (record s { count = s.count - 1 }) };
              },
              e_ok,
            )))
      ⊎ ((is_positive s.count ≡ false)
          × (contents ((waits k c sem_id i).sems.sems i) ≡ contents s ++ (k.tasks.slots c).id ∷ [])
          × Away p (record m { kernel = waits k c sem_id i }) (wai_sem p m sem_id))
unfolding wai_sem take_step
wai_sem_cases p m c sem_id i at sem ring room all unreserved =
    let k = m.kernel in
    let s = k.sems.sems i in
    elim (Bool-cases (is_positive s.count)) [
      | inl e ↦ inl (e, ap (take_step p m) (begin_wai_sem-takes k c sem_id i at sem e))
      | inr e ↦
          let m' = record m { kernel = waits k c sem_id i } in
          inr (
            e,
            ap contents (update_self k.sems.sems i _)
                ∙ contents-push (k.tasks.slots c).id ring room,
            subst (Away p m')
                (sym (ap (take_step p m) (begin_wai_sem-waits k c sem_id i at sem e room)))
                (begun-Away p m c on_semaphore sem_id 0 at all (waits k c sem_id i) unreserved),
          )
    ]
