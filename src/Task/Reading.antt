-- ===== src/Task/Reading.antt =====
-- Each call of kernel/task.c has an outcome.
use itron_rtos.Common.{
  ℕ, ◌+◌, ◌≤◌, ◌<◌, ◌≡◌, refl, ◌⊎◌, inl, inr, Bool, true, false, some, arith, not, ◌||◌, ◌==◌, ◌&&◌,
  first_index, Option-cases, Bool-cases, if◌then◌else◌, is_positive, int_max, rank, int_le,
  int_succ, first_index-IsFirst, first_index-none,
}
use itron_rtos.Task.{
  TaskState, unused, dormant, ready, running, waiting, is_unused, is_waiting, is_on_semaphore,
  max_tasks, TaskTable, TaskResult, id_overflow, registered, refused,
}
use itron_rtos.Task.Lookup.{
  names, find_task, find_free_slot, task_find_waiting_on_sem, task_id_is_in_use,
}
use itron_rtos.Task.Create.{
  TaskSpec, task_register, task_create_dormant, register_in, create_in, fill_slot, allocate_task_id,
  lacks_attribute, configure_slot,
}
use itron_rtos.Task.Moves.{
  mark_running, mark_ready_from_running, start_dormant, mark_dormant_from_entry_return,
  mark_waiting_on_sem, mark_waiting_on_delay, mark_waiting_on_sem_timeout, mark_waiting_on_sleep,
  wake_one_waiting_on_sem, wake_waiting_on_sem_by_id, wake_waiting_on_delay_by_id,
  wake_waiting_on_sem_timeout_by_id, wake_waiting_on_sleep_by_id, settle, wake_found,
}
use itron_rtos.Task.Ops.{
  TaskCall, registers, creates, runs_task, readies, starts, finishes, sleeps, wakes_sleeper,
  wakes_delayed, wakes_one, waits_sem, waits_delay, wakes_sem, wakes_sem_timeout, waits_sem_timeout,
  run_call, outcome_of,
}
use itron_rtos.Task.Outcome.{
  target, kept, numbered, chosen, Outcome, refusal, success, change_task-Outcome,
}

-- A guard in front of a call that returns TASK_ERR_INVAL.
guarded :
    (c : TaskCall) (t : TaskTable) (b : Bool) (r : TaskTable × TaskResult)
    → (b ≡ true → Outcome c t r)
    → Outcome c t (if b then r else (t, TaskResult.inval))
guarded c t true r h = h refl
guarded c t false r h = refusal refl (λ e. cc)

guarded_not :
    (c : TaskCall) (t : TaskTable) (b : Bool) (r : TaskTable × TaskResult)
    → (b ≡ false → Outcome c t r)
    → Outcome c t (if b then (t, TaskResult.inval) else r)
guarded_not c t false r h = h refl
guarded_not c t true r h = refusal refl (λ e. cc)

pub find_free_slot-unused :
    (t : TaskTable) (i : ℕ)
    → find_free_slot t ≡ some i
    → (is_unused (t.slots i).state ≡ true) × (i < max_tasks)
unfolding find_free_slot
find_free_slot-unused t i h = let r = first_index-IsFirst _ 0 max_tasks i h in (r.passes, r.below)

target_registers :
    (a : TaskSpec) (s : TaskState) → is_unused s ≡ true → target (registers a) s ≡ some ready
target_registers a unused h = refl
target_registers a _ h = cc

target_creates :
    (k : ℕ) (a : TaskSpec) (s : TaskState)
    → is_unused s ≡ true
    → target (creates k a) s ≡ some dormant
target_creates k a unused h = refl
target_creates k a _ h = cc

target_wakes_one :
    (k : ℕ) (s : TaskState) → is_waiting s ≡ true → target (wakes_one k) s ≡ some ready
target_wakes_one k waiting h = refl
target_wakes_one k unused h = cc
target_wakes_one k dormant h = cc
target_wakes_one k running h = cc
target_wakes_one k ready h = cc

allocate_task_id-cases :
    (t : TaskTable)
    → (allocate_task_id t ≡ (t, refused id_overflow))
      ⊎ ((0 < t.next_task_id)
          × (t.next_task_id < int_max)
          × (allocate_task_id t
              ≡ (record t { next_task_id = t.next_task_id + 1 }, registered t.next_task_id)))
unfolding allocate_task_id rank
allocate_task_id-cases t =
    elim (Bool-cases (not (is_positive t.next_task_id) || int_le int_max t.next_task_id)) [
      | inl e ↦ inl (rw e)
      | inr e ↦ inr (ground arith, ground arith, ground arith)
    ]

fill_slot-Outcome :
    (a : TaskSpec) (t : TaskTable) (i : ℕ)
    → find_free_slot t ≡ some i
    → Outcome (registers a) t (outcome_of (fill_slot t i a (allocate_task_id t)))
fill_slot-Outcome a t i f = elim (allocate_task_id-cases t) [
  | inl e ↦ rw e (unfold fill_slot in refusal refl (λ h. cc))
  | inr (pos, small, e) ↦ rw e (
      unfold fill_slot in
      success i (t.next_task_id + 1) (configure_slot t.next_task_id a ready) refl refl
        (find_free_slot-unused t i f).1 (target_registers a _ (find_free_slot-unused t i f).0)
        (refl, refl, refl) (numbered pos small refl refl))
]

register-Outcome :
    (a : TaskSpec) (t : TaskTable) → Outcome (registers a) t (run_call (registers a) t)
unfolding run_call task_register
register-Outcome a t = elim (Bool-cases (lacks_attribute a)) [
  | inl e ↦ rw e (refusal refl (λ h. cc))
  | inr e ↦ rw e (elim (Option-cases (find_free_slot t)) [
    | inl f ↦ rw (f, register_in) (refusal refl (λ h. cc))
    | inr (i, f) ↦ rw f (fill_slot-Outcome a t i f)
  ])
]

waits_on : TaskTable → ℕ → ℕ → Bool
waits_on t sem_id i =
    is_waiting (t.slots i).state
    && is_on_semaphore (t.slots i).wait_reason
    && (t.slots i).wait_sem_id == sem_id

names_free :
    (t : TaskTable) (task_id : ℕ)
    → task_id_is_in_use t task_id ≡ false
    → (j : ℕ) → j < max_tasks
    → names task_id (t.slots j) ≡ false
unfolding task_id_is_in_use find_task
names_free t task_id h j lt =
    first_index-none (λ i. names task_id (t.slots i)) 0 max_tasks (ground arith) j (omega arith)
      (omega arith)

advance_cases :
    (t : TaskTable) (task_id : ℕ)
    → is_positive task_id ≡ true
    → let n = if int_le t.next_task_id task_id then int_succ task_id else t.next_task_id in
      ((n ≡ t.next_task_id) × (rank task_id < rank t.next_task_id)
        ⊎ ((task_id < int_max → n ≡ task_id + 1) × (rank t.next_task_id ≤ rank task_id)))
advance_cases t task_id pos = elim (Bool-cases (int_le t.next_task_id task_id)) [
  | inl e ↦ rw e (inr ((λ h. omega arith), ground arith))
  | inr e ↦ rw e (inl (refl, ground arith))
]

create-Outcome :
    (task_id : ℕ) (a : TaskSpec) (t : TaskTable)
    → Outcome (creates task_id a) t (run_call (creates task_id a) t)
unfolding run_call task_create_dormant
create-Outcome task_id a t =
    guarded_not _ t (not (is_positive task_id) || lacks_attribute a) _ λ valid.
      elim (Bool-cases (task_id_is_in_use t task_id)) [
        | inl e ↦ rw e (refusal refl (λ h. cc))
        | inr e ↦ rw e (elim (Option-cases (find_free_slot t)) [
          | inl f ↦ rw (f, create_in) (refusal refl (λ h. cc))
          | inr (i, f) ↦
              rw (f, create_in)
                (success i _ (configure_slot task_id a dormant) refl refl
                  (find_free_slot-unused t i f).1
                  (target_creates task_id a _ (find_free_slot-unused t i f).0) (refl, refl, refl)
                  (chosen (ground arith) (λ h. h) (names_free t task_id e)
                    (advance_cases t task_id (ground arith))))
        ])
      ]

wake_one-Outcome :
    (sem_id : ℕ) (t : TaskTable) → Outcome (wakes_one sem_id) t (run_call (wakes_one sem_id) t)
unfolding run_call waits_on wake_one_waiting_on_sem task_find_waiting_on_sem
wake_one-Outcome sem_id t = elim (Bool-cases (is_positive sem_id)) [
  | inr e ↦ rw e (refusal refl (λ h. cc))
  | inl e ↦ rw e (elim (Option-cases (first_index (waits_on t sem_id) 0 max_tasks)) [
    | inl f ↦ rw (f, wake_found) (refusal refl (λ h. cc))
    | inr (i, f) ↦
        let r = first_index-IsFirst (waits_on t sem_id) 0 max_tasks i f in
        rw (f, wake_found)
          (success i t.next_task_id (settle ready (t.slots i)) refl refl (omega (arith, r.below))
            (target_wakes_one sem_id _ (ground (arith, r.passes))) (refl, refl, refl)
            (kept (ground (arith, r.passes)) refl refl))
  ])
]

-- Every call that changes the task table has an outcome.
pub run_call-Outcome : (c : TaskCall) (t : TaskTable) → Outcome c t (run_call c t)
unfolding run_call
run_call-Outcome (registers a) t = register-Outcome a t
run_call-Outcome (creates task_id a) t = create-Outcome task_id a t
run_call-Outcome (wakes_one sem_id) t = wake_one-Outcome sem_id t
run_call-Outcome (runs_task k) t =
    unfold mark_running in
    guarded _ t (is_positive k) _
      λ _. change_task-Outcome _ t k _ _ (λ s h. ground arith) (λ s. (refl, refl, refl)) (λ s. refl)
run_call-Outcome (readies k) t =
    unfold mark_ready_from_running in
    guarded _ t (is_positive k) _
      λ _. change_task-Outcome _ t k _ _ (λ s h. ground arith) (λ s. (refl, refl, refl)) (λ s. refl)
run_call-Outcome (starts k) t =
    unfold start_dormant in
    guarded _ t (is_positive k) _
      λ _. change_task-Outcome _ t k _ _ (λ s h. ground arith) (λ s. (refl, refl, refl)) (λ s. refl)
run_call-Outcome (finishes k) t =
    unfold mark_dormant_from_entry_return in
    guarded _ t (is_positive k) _
      λ _. change_task-Outcome _ t k _ _ (λ s h. ground arith) (λ s. (refl, refl, refl)) (λ s. refl)
run_call-Outcome (sleeps k) t =
    unfold mark_waiting_on_sleep in
    guarded _ t (is_positive k) _
      λ _. change_task-Outcome _ t k _ _ (λ s h. ground arith) (λ s. (refl, refl)) (λ s. refl)
run_call-Outcome (wakes_sleeper k) t =
    unfold wake_waiting_on_sleep_by_id in
    guarded _ t (is_positive k) _
      λ _. change_task-Outcome _ t k _ _ (λ s h. ground arith) (λ s. (refl, refl, refl)) (λ s. refl)
run_call-Outcome (wakes_delayed k) t =
    unfold wake_waiting_on_delay_by_id in
    guarded _ t (is_positive k) _
      λ _. change_task-Outcome _ t k _ _ (λ s h. ground arith) (λ s. (refl, refl, refl)) (λ s. refl)
run_call-Outcome (waits_sem k m) t =
    unfold mark_waiting_on_sem in
    guarded_not _ t (not (is_positive k) || not (is_positive m)) _ λ valid.
      change_task-Outcome _ t k _ _ (λ s h. ground arith) (λ s. (ground arith, refl)) (λ s. refl)
run_call-Outcome (waits_delay k n) t =
    unfold mark_waiting_on_delay in
    guarded_not _ t (not (is_positive k) || n == 0) _ λ valid.
      change_task-Outcome _ t k _ _ (λ s h. ground arith) (λ s. (refl, ground arith)) (λ s. refl)
run_call-Outcome (waits_sem_timeout k m n) t =
    unfold mark_waiting_on_sem_timeout in
    guarded_not _ t (not (is_positive k) || not (is_positive m) || n == 0) _ λ valid.
      change_task-Outcome _ t k _ _ (λ s h. ground arith) (λ s. (ground arith, ground arith))
        (λ s. refl)
run_call-Outcome (wakes_sem k m) t =
    unfold wake_waiting_on_sem_by_id in
    guarded_not _ t (not (is_positive k) || not (is_positive m)) _ λ valid.
      change_task-Outcome _ t k _ _ (λ s h. ground arith) (λ s. (refl, refl, refl)) (λ s. refl)
run_call-Outcome (wakes_sem_timeout k m) t =
    unfold wake_waiting_on_sem_timeout_by_id in
    guarded_not _ t (not (is_positive k) || not (is_positive m)) _ λ valid.
      change_task-Outcome _ t k _ _ (λ s h. ground arith) (λ s. (refl, refl, refl)) (λ s. refl)
