-- ===== src/Api/Readying.antt =====
-- sta_tsk and wup_tsk of kernel/itron_api.c: what they make READY, and the request that follows.
use itron_rtos.Common.{
  ℕ, ◌≡◌, ◌⊎◌, inl, inr, refl, sym, subst, ap, ◌∙◌, Bool, true, ◌&&◌, none, some, arith,
  if◌then◌else◌, Bool-cases, Option-cases, is_positive, int_lt, update_self,
}
use itron_rtos.Task
use itron_rtos.Task.{
  TaskTable, TaskResult, Tcb, dormant, ready, is_dormant, is_waiting, is_on_sleep, is_running,
}
use itron_rtos.Task.Lookup.{
  task_get_by_id, task_get_by_id-found, find_task-write, change_task-ok, find_task-id, write_slot,
  names,
}
use itron_rtos.Task.Moves.{settle, start_dormant, wake_waiting_on_sleep_by_id}
use itron_rtos.Pending.{
  Pending, request, from_task, Reason, task_start, task_wakeup, request_from_task_start,
  request_from_task_wakeup,
}
use itron_rtos.Kernel.{Kernel}
use itron_rtos.Api.{Er, e_ok, e_id, e_obj, outranks_current, started, sta_tsk, woken, wup_tsk}

-- The table with the task in slot `j` made READY.
abbrev pub readied : TaskTable → ℕ → TaskTable
readied t j = write_slot t j (settle ready (t.slots j))

-- The request that follows, for the current task and the one that has just become READY.
abbrev pub request_after : Kernel → Reason → ℕ → Pending
request_after k why j = elim k.current [
  | none ↦ k.pending
  | some c ↦
      if is_running ((readied k.tasks j).slots c).state
        && int_lt (k.tasks.slots j).priority ((readied k.tasks j).slots c).priority
      then request (readied k.tasks j) from_task why c j
      else k.pending
]

-- The task of the id is in slot `j`, is in a state that the call accepts, and becomes READY; nothing
-- else changes but the request.
pub record MadeReady (k : Kernel) (why : Reason) (accepts : Tcb → Bool) (task_id : ℕ) (k' : Kernel)
    : Type 0 where
  pub slot : ℕ
  pub found : task_get_by_id k.tasks task_id ≡ some slot
  pub accepted : accepts (k.tasks.slots slot) ≡ true
  pub whole : k' ≡ record k { tasks = readied k.tasks slot; pending = request_after k why slot }

-- The call is turned down with one of the two errors, and the kernel is left as it was.
pub record TurnedDown (k k' : Kernel) (er : Er) : Type 0 where
  pub error : (er ≡ e_id) ⊎ (er ≡ e_obj)
  pub same : k' ≡ k

module _ (k : Kernel) (task_id j : ℕ) (found : task_get_by_id k.tasks task_id ≡ some j)
    (used : names task_id (k.tasks.slots j) ≡ names task_id (settle ready (k.tasks.slots j))) where
  found_after : task_get_by_id (readied k.tasks j) task_id ≡ some j
  unfolding task_get_by_id
  found_after =
      let (pos, at_j) = task_get_by_id-found k.tasks task_id j found in
      rw pos (find_task-write k.tasks task_id j (settle ready (k.tasks.slots j)) (sym used) ∙ at_j)

  outranks-priority :
      (c : ℕ)
      → outranks_current (readied k.tasks j) (some c) (some j) ≡ (
          is_running ((readied k.tasks j).slots c).state
          && int_lt (k.tasks.slots j).priority ((readied k.tasks j).slots c).priority)
  unfolding outranks_current
  outranks-priority c =
      ap
        (λ (s : Tcb).
          is_running ((readied k.tasks j).slots c).state
          && int_lt s.priority ((readied k.tasks j).slots c).priority)
        (update_self k.tasks.slots j (settle ready (k.tasks.slots j)))

  pending-start :
      (if outranks_current (readied k.tasks j) k.current (some j)
        then request_from_task_start (readied k.tasks j) k.current (some j) k.pending
        else k.pending)
      ≡ request_after k task_start j
  unfolding request_from_task_start outranks_current
  pending-start = elim (Option-cases k.current) [
    | inl e ↦ rw e refl
    | inr (c, e) ↦ rw (e, outranks-priority c) refl
  ]

  pending-wakeup :
      (if outranks_current (readied k.tasks j) k.current (some j)
        then request_from_task_wakeup (readied k.tasks j) k.current (some j) k.pending
        else k.pending)
      ≡ request_after k task_wakeup j
  unfolding request_from_task_wakeup outranks_current
  pending-wakeup = elim (Option-cases k.current) [
    | inl e ↦ rw e refl
    | inr (c, e) ↦ rw (e, outranks-priority c) refl
  ]

  with_pending : Pending → Kernel × Er
  with_pending p = (record k { tasks = readied k.tasks j; pending = p }, e_ok)

  started-ok :
      started k task_id (readied k.tasks j, Task.ok)
      ≡ (record k { tasks = readied k.tasks j; pending = request_after k task_start j }, e_ok)
  unfolding started with_pending
  started-ok = rw found_after (ap with_pending pending-start)

  woken-ok :
      woken k task_id (readied k.tasks j, Task.ok)
      ≡ (record k { tasks = readied k.tasks j; pending = request_after k task_wakeup j }, e_ok)
  unfolding woken with_pending
  woken-ok = rw found_after (ap with_pending pending-wakeup)

-- Becoming READY keeps a task under its id.
stays_named :
    (t : TaskTable) (task_id j : ℕ)
    → task_get_by_id t task_id ≡ some j
    → names task_id (t.slots j) ≡ names task_id (settle ready (t.slots j))
stays_named t task_id j found =
    let (_, at_j) = task_get_by_id-found t task_id j found in
    let used = (find_task-id t task_id j at_j).1 in ground (arith, used)

start_dormant-ok :
    (t : TaskTable) (task_id j : ℕ)
    → task_get_by_id t task_id ≡ some j
    → is_dormant (t.slots j).state ≡ true
    → start_dormant t task_id ≡ (readied t j, Task.ok)
unfolding start_dormant
start_dormant-ok t task_id j found may =
    let (pos, at_j) = task_get_by_id-found t task_id j found in
    rw pos (change_task-ok t task_id j (λ s. is_dormant s.state) (settle ready) at_j may)

wake_sleep-ok :
    (t : TaskTable) (task_id j : ℕ)
    → task_get_by_id t task_id ≡ some j
    → (is_waiting (t.slots j).state && is_on_sleep (t.slots j).wait_reason) ≡ true
    → wake_waiting_on_sleep_by_id t task_id ≡ (readied t j, Task.ok)
unfolding wake_waiting_on_sleep_by_id
wake_sleep-ok t task_id j found may =
    let (pos, at_j) = task_get_by_id-found t task_id j found in
    rw pos (
      change_task-ok t task_id j (λ s. is_waiting s.state && is_on_sleep s.wait_reason)
        (settle ready) at_j may)

-- What the two calls do: the task becomes READY, or the call is turned down.
abbrev pub ReadiesOrNot : Kernel → Reason → (Tcb → Bool) → ℕ → Kernel × Er → Type 0
ReadiesOrNot k why accepts task_id r =
    ((r.1 ≡ e_ok) × MadeReady k why accepts task_id r.0) ⊎ TurnedDown k r.0 r.1

turned_down-id :
    (k : Kernel) (why : Reason) (accepts : Tcb → Bool) (task_id : ℕ)
    → ReadiesOrNot k why accepts task_id (k, e_id)
turned_down-id k why accepts task_id = inr (record { error = inl refl; same = refl })

turned_down-obj :
    (k : Kernel) (why : Reason) (accepts : Tcb → Bool) (task_id : ℕ)
    → ReadiesOrNot k why accepts task_id (k, e_obj)
turned_down-obj k why accepts task_id = inr (record { error = inr refl; same = refl })

sta_tsk-found :
    (k : Kernel) (tskid j : ℕ)
    → is_positive tskid ≡ true
    → task_get_by_id k.tasks tskid ≡ some j
    → is_dormant (k.tasks.slots j).state ≡ true
    → sta_tsk k tskid ≡ started k tskid (start_dormant k.tasks tskid)
unfolding sta_tsk
sta_tsk-found k tskid j pos e may = rw (pos, e, may) refl

-- sta_tsk makes the DORMANT task of the id READY and clears its wait fields, or returns E_ID or
-- E_OBJ and changes nothing. With a RUNNING current task of a greater priority value it leaves a
-- request to dispatch from that task to the started one; otherwise the request is as before.
pub sta_tsk-ReadiesOrNot :
    (k : Kernel) (tskid : ℕ)
    → ReadiesOrNot k task_start (λ s. is_dormant s.state) tskid (sta_tsk k tskid)
unfolding sta_tsk
sta_tsk-ReadiesOrNot k tskid = elim (Bool-cases (is_positive tskid)) [
  | inr neg ↦ rw (sta_tsk, neg) (turned_down-id k task_start _ tskid)
  | inl pos ↦ elim (Option-cases (task_get_by_id k.tasks tskid)) [
    | inl e ↦ rw (sta_tsk, pos, e) (turned_down-id k task_start _ tskid)
    | inr (j, e) ↦ elim (Bool-cases (is_dormant (k.tasks.slots j).state)) [
      | inr may_not ↦ rw (sta_tsk, pos, e, may_not) (turned_down-obj k task_start _ tskid)
      | inl may ↦
          let whole =
            sta_tsk-found k tskid j pos e may
            ∙ ap (started k tskid) (start_dormant-ok k.tasks tskid j e may)
            ∙ started-ok k tskid j e (stays_named k.tasks tskid j e) in
          subst (ReadiesOrNot k task_start (λ s. is_dormant s.state) tskid) (sym whole)
            (inl (refl, record { slot = j; found = e; accepted = may; whole = refl }))
    ]
  ]
]

abbrev pub sleeps : Tcb → Bool
sleeps s = is_waiting s.state && is_on_sleep s.wait_reason

wup_tsk-found :
    (k : Kernel) (tskid j : ℕ)
    → is_positive tskid ≡ true
    → task_get_by_id k.tasks tskid ≡ some j
    → sleeps (k.tasks.slots j) ≡ true
    → wup_tsk k tskid ≡ woken k tskid (wake_waiting_on_sleep_by_id k.tasks tskid)
unfolding wup_tsk
wup_tsk-found k tskid j pos e may = rw (pos, e, may) refl

-- wup_tsk makes the task of the id READY, which must be WAITING in slp_tsk, and clears its wait
-- fields, or returns E_ID or E_OBJ and changes nothing. With a RUNNING current task of a greater
-- priority value it leaves a request to dispatch from that task to the woken one; otherwise the
-- request is as before.
pub wup_tsk-ReadiesOrNot :
    (k : Kernel) (tskid : ℕ) → ReadiesOrNot k task_wakeup sleeps tskid (wup_tsk k tskid)
unfolding wup_tsk
wup_tsk-ReadiesOrNot k tskid = elim (Bool-cases (is_positive tskid)) [
  | inr neg ↦ rw (wup_tsk, neg) (turned_down-id k task_wakeup _ tskid)
  | inl pos ↦ elim (Option-cases (task_get_by_id k.tasks tskid)) [
    | inl e ↦ rw (wup_tsk, pos, e) (turned_down-id k task_wakeup _ tskid)
    | inr (j, e) ↦ elim (Bool-cases (sleeps (k.tasks.slots j))) [
      | inr may_not ↦ rw (wup_tsk, pos, e, may_not) (turned_down-obj k task_wakeup _ tskid)
      | inl may ↦
          let whole =
            wup_tsk-found k tskid j pos e may
            ∙ ap (woken k tskid) (wake_sleep-ok k.tasks tskid j e may)
            ∙ woken-ok k tskid j e (stays_named k.tasks tskid j e) in
          subst (ReadiesOrNot k task_wakeup sleeps tskid) (sym whole)
            (inl (refl, record { slot = j; found = e; accepted = may; whole = refl }))
    ]
  ]
]
