-- ===== src/Task/Identity.antt =====
-- Task ids, under any history of calls of kernel/task.c.
use itron_rtos.Common.{
  ℕ, ◌≤◌, ◌<◌, ◌≡◌, sym, ◌≢◌, inl, inr, false, List, [], ◌∷◌, arith, update, int_max, rank-le_iff,
  rank-lt→lt, is_positive_range, ◌==◌, Bool-cases, ◌∙◌,
}
use itron_rtos.Task.{Tcb, is_unused, TaskTable, TaskResult, max_tasks}
use itron_rtos.Task.Create.{task_init}
use itron_rtos.Task.Lookup.{names}
use itron_rtos.Task.Ops.{TaskCall, run_call, run_calls}
use itron_rtos.Task.Outcome.{
  LeavesRoom, IdChange, kept, numbered, chosen, Outcome, refusal, success,
}
use itron_rtos.Task.Reading.{run_call-Outcome}

-- The slot holds a task, that is, it is not UNUSED.
abbrev pub IsTask : Tcb → Type 0
IsTask s = is_unused s.state ≡ false

-- Ids are positive, below the next one, and no two tasks share one.
pub record IdsOk (t : TaskTable) : Type 0 where
  pub next_pos : 0 < t.next_task_id
  pub next_le : t.next_task_id ≤ int_max
  pub in_range :
      (j : ℕ)
      → j < max_tasks
      → IsTask (t.slots j)
      → (0 < (t.slots j).id) × ((t.slots j).id < t.next_task_id)
  pub unique :
      (j k : ℕ)
      → j < max_tasks
      → k < max_tasks
      → IsTask (t.slots j)
      → IsTask (t.slots k)
      → (t.slots j).id ≡ (t.slots k).id
      → j ≡ k

-- What the change of a slot must bring to keep the ids in order.
record IdStep (t : TaskTable) (i n : ℕ) (s : Tcb) : Type 0 where
  grows : t.next_task_id ≤ n
  bounded : n ≤ int_max
  pos : 0 < s.id
  lower : s.id < n
  apart : (j : ℕ) → j < max_tasks → IsTask (t.slots j) → i ≢ j → (t.slots j).id ≢ s.id

IdStep-IdsOk :
    (t : TaskTable) (i n : ℕ) (s : Tcb)
    → IdsOk t
    → IdStep t i n s
    → IdsOk (record { slots = update t.slots i s; next_task_id = n })
IdStep-IdsOk t i n s v w = record {
  next_pos = omega (arith, w.grows, v.next_pos);
  next_le = w.bounded;
  in_range = λ j lt used. elim (Bool-cases (i == j)) [
    | inl e ↦ rw e (w.pos, w.lower)
    | inr e ↦ rw e (grind (arith, v.in_range j lt, w.grows))
  ];
  unique = λ j k lj lk uj uk same. ground (arith, v.unique j k lj lk, w.apart j lj, w.apart k lk);
}

-- The ids of the tasks differ from one that no task has.
names-apart :
    (t : TaskTable) (s : Tcb) (j : ℕ)
    → names s.id (t.slots j) ≡ false
    → IsTask (t.slots j)
    → (t.slots j).id ≢ s.id
names-apart t s j h used same = ground arith

IdChange-IdStep :
    (c : TaskCall) (t : TaskTable) (i n : ℕ) (s : Tcb)
    → i < max_tasks
    → IdsOk t
    → LeavesRoom c
    → IdChange c t (t.slots i) s n
    → IdStep t i n s
IdChange-IdStep c t i n s lt v room (kept used same e) = record {
  grows = omega arith;
  bounded = omega (arith, v.next_le);
  pos = omega (arith, v.in_range i lt used);
  lower = omega (arith, v.in_range i lt used);
  apart = λ j lj uj ne eq. ne (sym (v.unique j i lj lt uj used (eq ∙ same)));
}
IdChange-IdStep c t i n s lt v room (numbered pos small e en) = record {
  grows = omega arith;
  bounded = omega arith;
  pos = omega arith;
  lower = omega arith;
  apart = λ j lj uj ne eq. omega (arith, v.in_range j lj uj);
}
IdChange-IdStep c t i n s lt v room (chosen pos other free (inl (en, less))) = record {
  grows = omega arith;
  bounded = omega (arith, v.next_le);
  pos = ground arith;
  lower = rw en (rank-lt→lt _ _ (is_positive_range _ pos).1 v.next_le less);
  apart = λ j lj uj ne. names-apart t s j (free j lj) uj;
}
IdChange-IdStep c t i n s lt v room (chosen pos other free (inr (en, less))) =
    let (lo, hi) = is_positive_range s.id pos in
    let below : s.id < int_max = omega (arith, other room) in
    let order = (rank-le_iff t.next_task_id s.id v.next_le hi).0 less in
    record {
      grows = omega (arith, en below);
      bounded = omega (arith, en below);
      pos = lo;
      lower = omega (arith, en below);
      apart = λ j lj uj ne. names-apart t s j (free j lj) uj;
    }

Outcome-IdsOk :
    (c : TaskCall) (t : TaskTable) {r : TaskTable × TaskResult}
    → Outcome c t r
    → LeavesRoom c
    → IdsOk t
    → IdsOk r.0
Outcome-IdsOk c t (refusal same bad) room v = rw same v
Outcome-IdsOk c t (success i n s _ e lt _ _ ids) room v =
    rw e (IdStep-IdsOk t i n s v (IdChange-IdStep c t i n s lt v room ids))

pub run_call-IdsOk :
    (c : TaskCall) (t : TaskTable) → LeavesRoom c → IdsOk t → IdsOk (run_call c t).0
run_call-IdsOk c t = Outcome-IdsOk c t (run_call-Outcome c t)

abbrev pub AllLeaveRoom : List TaskCall → Type 0
AllLeaveRoom [] = Unit {0}
AllLeaveRoom (c ∷ cs) = LeavesRoom c × AllLeaveRoom cs

-- If the tasks have distinct positive ids below the next id, they still have after any sequence of
-- calls in which `task_create_dormant` is never given the greatest `int`. So `task_register` never
-- hands out an id that a task has.
pub run_calls-IdsOk :
    (cs : List TaskCall) (t : TaskTable) → AllLeaveRoom cs → IdsOk t → IdsOk (run_calls cs t)
unfolding run_calls
run_calls-IdsOk [] t room v = v
run_calls-IdsOk (c ∷ cs) t room v = run_calls-IdsOk cs _ room.1 (run_call-IdsOk c t room.0 v)

pub task_init-IdsOk : IdsOk task_init
task_init-IdsOk = record {
  next_pos = omega arith;
  next_le = omega arith;
  in_range = λ j lt used. cc;
  unique = λ j k lj lk uj uk same. cc;
}
