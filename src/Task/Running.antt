-- ===== src/Task/Running.antt =====
-- Which calls of kernel/task.c make a task RUNNING, and which end that.
use itron_rtos.Common.{
  ℕ, ◌<◌, ◌≡◌, refl, sym, ◌∙◌, inl, inr, Bool, true, false, Option, none, some, arith, ◌==◌,
  Bool-cases, subst, not, ◌&&◌, ◌||◌,
}
use itron_rtos.Task.{
  TaskState, unused, dormant, ready, running, waiting, Tcb, TaskTable, TaskResult, ok, is_running,
  is_ready, is_unused, max_tasks,
}
use itron_rtos.Task.Lookup.{write_slot}
use itron_rtos.Task.Ops.{
  TaskCall, registers, creates, runs_task, readies, starts, finishes, sleeps, wakes_sleeper,
  wakes_delayed, wakes_one, waits_sem, waits_delay, wakes_sem, wakes_sem_timeout, waits_sem_timeout,
  run_call,
}
use itron_rtos.Task.Outcome.{target, LeavesRoom, Outcome, refusal, success}
use itron_rtos.Task.Identity.{IdsOk, run_call-IdsOk}
use itron_rtos.Task.Lifecycle.{run_call-Moved}
use itron_rtos.Task.Reading.{run_call-Outcome}

-- task_mark_running is the one call that makes a task RUNNING.
abbrev pub runs_none : TaskCall → Bool
runs_none (runs_task _) = false
runs_none _ = true

-- The calls that take a RUNNING task out of that state.
abbrev pub stops_runner : TaskCall → Bool
stops_runner (readies _) = true
stops_runner (sleeps _) = true
stops_runner (waits_sem _ _) = true
stops_runner (waits_delay _ _) = true
stops_runner (waits_sem_timeout _ _ _) = true
stops_runner _ = false

-- What an arrow of the state diagram obeys: it leads to RUNNING only for the call that runs a task,
-- and it starts at RUNNING for the calls that stop one.
abbrev obeys : TaskCall → TaskState → Option TaskState → Bool
obeys c s none = true
obeys c s (some u) =
    (not (runs_none c) || not (is_running u)) && (not (stops_runner c) || is_running s)

states :
    (b : TaskState → Bool)
    → b unused ≡ true
    → b dormant ≡ true
    → b ready ≡ true
    → b running ≡ true
    → b waiting ≡ true
    → (s : TaskState) → b s ≡ true
states b hu hd hr hn hw unused = hu
states b hu hd hr hn hw dormant = hd
states b hu hd hr hn hw ready = hr
states b hu hd hr hn hw running = hn
states b hu hd hr hn hw waiting = hw

target-obeys : (c : TaskCall) (s : TaskState) → obeys c s (target c s) ≡ true
target-obeys (registers a) =
    states (λ s. obeys (registers a) s (target (registers a) s)) refl refl refl refl refl
target-obeys (creates i a) =
    states (λ s. obeys (creates i a) s (target (creates i a) s)) refl refl refl refl refl
target-obeys (runs_task i) =
    states (λ s. obeys (runs_task i) s (target (runs_task i) s)) refl refl refl refl refl
target-obeys (readies i) =
    states (λ s. obeys (readies i) s (target (readies i) s)) refl refl refl refl refl
target-obeys (starts i) =
    states (λ s. obeys (starts i) s (target (starts i) s)) refl refl refl refl refl
target-obeys (finishes i) =
    states (λ s. obeys (finishes i) s (target (finishes i) s)) refl refl refl refl refl
target-obeys (sleeps i) =
    states (λ s. obeys (sleeps i) s (target (sleeps i) s)) refl refl refl refl refl
target-obeys (wakes_sleeper i) =
    states (λ s. obeys (wakes_sleeper i) s (target (wakes_sleeper i) s)) refl refl refl refl refl
target-obeys (wakes_delayed i) =
    states (λ s. obeys (wakes_delayed i) s (target (wakes_delayed i) s)) refl refl refl refl refl
target-obeys (wakes_one i) =
    states (λ s. obeys (wakes_one i) s (target (wakes_one i) s)) refl refl refl refl refl
target-obeys (waits_sem i n) =
    states (λ s. obeys (waits_sem i n) s (target (waits_sem i n) s)) refl refl refl refl refl
target-obeys (waits_delay i n) =
    states (λ s. obeys (waits_delay i n) s (target (waits_delay i n) s)) refl refl refl refl refl
target-obeys (wakes_sem i n) =
    states (λ s. obeys (wakes_sem i n) s (target (wakes_sem i n) s)) refl refl refl refl refl
target-obeys (wakes_sem_timeout i n) =
    states (λ s. obeys (wakes_sem_timeout i n) s (target (wakes_sem_timeout i n) s)) refl refl refl
      refl refl
target-obeys (waits_sem_timeout i n l) =
    states (λ s. obeys (waits_sem_timeout i n l) s (target (waits_sem_timeout i n l) s)) refl refl
      refl refl refl

module _ (c : TaskCall) (s u : TaskState) (e : target c s ≡ some u) where
  arrow-obeys : obeys c s (some u) ≡ true
  arrow-obeys = subst (λ o. obeys c s o ≡ true) e (target-obeys c s)

  target-idle : runs_none c ≡ true → is_running u ≡ false
  target-idle h = ground (arith, arrow-obeys)

  target-stops : stops_runner c ≡ true → is_running s ≡ true
  target-stops h = ground (arith, arrow-obeys)

stops-idle : (c : TaskCall) → stops_runner c ≡ true → runs_none c ≡ true
stops-idle (runs_task i) h = h
stops-idle (registers a) h = refl
stops-idle (creates i a) h = refl
stops-idle (readies i) h = refl
stops-idle (starts i) h = refl
stops-idle (finishes i) h = refl
stops-idle (sleeps i) h = refl
stops-idle (wakes_sleeper i) h = refl
stops-idle (wakes_delayed i) h = refl
stops-idle (wakes_one i) h = refl
stops-idle (waits_sem i n) h = refl
stops-idle (waits_delay i n) h = refl
stops-idle (wakes_sem i n) h = refl
stops-idle (wakes_sem_timeout i n) h = refl
stops-idle (waits_sem_timeout i n l) h = refl

-- With the ids in order they stay so, and a task that is RUNNING after was so before.
pub record NoNewRunner (t u : TaskTable) : Type 0 where
  pub ids : IdsOk t → IdsOk u
  pub before :
      (j : ℕ)
      → j < max_tasks
      → is_running (u.slots j).state ≡ true
      → is_running (t.slots j).state ≡ true

pub NoNewRunner-refl : (t : TaskTable) → NoNewRunner t t
NoNewRunner-refl t = record { ids = λ v. v; before = λ j lt h. h }

pub NoNewRunner-trans : (t u w : TaskTable) → NoNewRunner t u → NoNewRunner u w → NoNewRunner t w
NoNewRunner-trans t u w f g = record {
  ids = λ v. g.ids (f.ids v);
  before = λ j lt h. f.before j lt (g.before j lt h);
}

-- A write to a slot that keeps its id and what is in use.
pub write-NoNewRunner :
    (t : TaskTable) (i : ℕ) (s : Tcb)
    → s.id ≡ (t.slots i).id
    → is_unused s.state ≡ is_unused (t.slots i).state
    → (is_running s.state ≡ true → is_running (t.slots i).state ≡ true)
    → NoNewRunner t (write_slot t i s)
write-NoNewRunner t i s same used idle = record {
  ids = λ v. record {
    next_pos = v.next_pos;
    next_le = v.next_le;
    in_range = λ j lt h. ground (arith, v.in_range j lt, same, used);
    unique = λ j k lj lk uj uk e. ground (arith, v.unique j k lj lk, same, used);
  };
  before = λ j lt h. ground (arith, idle);
}

Outcome-before :
    (c : TaskCall) (t : TaskTable) {r : TaskTable × TaskResult}
    → Outcome c t r
    → runs_none c ≡ true
    → (j : ℕ) → is_running (r.0.slots j).state ≡ true
    → is_running (t.slots j).state ≡ true
Outcome-before c t (refusal same bad) idle j h = rw same at (h)
Outcome-before c t (success i n s _ e lt arrow _ _) idle j h = elim (Bool-cases (i == j)) [
  | inl same ↦
      let idle_at_i = target-idle c (t.slots i).state s.state arrow idle in absurd (ground arith)
  | inr other ↦ ground arith
]

pub run_call-NoNewRunner :
    (c : TaskCall) (t : TaskTable)
    → runs_none c ≡ true
    → LeavesRoom c
    → NoNewRunner t (run_call c t).0
run_call-NoNewRunner c t idle room = record {
  ids = run_call-IdsOk c t room;
  before = λ j lt. Outcome-before c t (run_call-Outcome c t) idle j;
}

-- The tasks of a table that is quiet: none is RUNNING.
abbrev pub NoneRuns : TaskTable → Type 0
NoneRuns t = (j : ℕ) → j < max_tasks → is_running (t.slots j).state ≡ false

-- Only the task in a given slot may be RUNNING.
abbrev pub OnlyRuns : TaskTable → Option ℕ → Type 0
OnlyRuns t o = (j : ℕ) → j < max_tasks → is_running (t.slots j).state ≡ true → o ≡ some j

pub run_call-NoneRuns :
    (c : TaskCall) (t : TaskTable) (o : Option ℕ)
    → stops_runner c ≡ true
    → (run_call c t).1 ≡ ok
    → OnlyRuns t o
    → NoneRuns (run_call c t).0
run_call-NoneRuns c t o stops good only j lt =
    let m = run_call-Moved c t good in
    let u = (run_call c t).0 in
    let now = target-idle c _ _ m.arrow (stops-idle c stops) in
    let old = only m.slot m.inside (target-stops c _ _ m.arrow stops) in
    elim (Bool-cases (m.slot == j)) [
      | inl same ↦ ground (arith, now)
      | inr other ↦ elim (Bool-cases (is_running (t.slots j).state)) [
        | inl runs ↦ absurd (ground (arith, sym old ∙ only j lt runs))
        | inr idle ↦ rw (m.others j (λ e. ground arith)) idle
      ]
    ]

-- Stopping the RUNNING task leaves the READY ones READY.
pub run_call-ready_stays :
    (c : TaskCall) (t : TaskTable) (j : ℕ)
    → stops_runner c ≡ true
    → (run_call c t).1 ≡ ok
    → is_ready (t.slots j).state ≡ true
    → is_ready ((run_call c t).0.slots j).state ≡ true
run_call-ready_stays c t j stops good h =
    let m = run_call-Moved c t good in
    let old = target-stops c _ _ m.arrow stops in
    elim (Bool-cases (m.slot == j)) [
      | inl same ↦ absurd (ground (arith, old))
      | inr other ↦ rw (m.others j (λ e. ground arith)) h
    ]
