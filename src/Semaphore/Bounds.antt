-- ===== src/Semaphore/Bounds.antt =====
-- The counts and the rings of all semaphores, under any history of calls of kernel/semaphore.c.
use itron_rtos.Common.{
  ℕ, ◌≤◌, ◌≡◌, refl, inl, inr, false, Option, none, some, List, [], ◌∷◌, arith, update-All, int_max,
  is_positive, rank, Bool-cases, Option-cases, not, ◌||◌, ◌==◌, int_le,
}
use itron_rtos.Task
use itron_rtos.Task.{TaskTable}
use itron_rtos.Task.Lookup.{task_get_by_id}
use itron_rtos.Semaphore.{
  Semaphore, SemTable, SemResult, SemSpec, Creation, created, refused, bad_spec, sem_init,
  new_semaphore, allocate_sem_id, fill_sem, create_in, sem_create, sem_get_by_id,
}
use itron_rtos.Semaphore.Count.{take, increment, at_sem, sem_take_if_available, sem_increment_count}
use itron_rtos.Semaphore.WaitQueue.{
  push, drop_head, Kept, rebuild, finish_removal, enqueue, dequeue, remove, sem_enqueue_waiter,
  sem_dequeue_waiter, sem_remove_waiter,
}
use itron_rtos.Semaphore.Ring.{RingOk, enqueue_refines, dequeue_refines}
use itron_rtos.Semaphore.Removal.{remove_refines}

-- 0 <= count <= max_count as `int`s, and a wait queue in order.
pub record SemOk (s : Semaphore) : Type 0 where
  pub count_le : s.count ≤ s.max_count
  pub max_le : s.max_count ≤ int_max
  pub ring : RingOk s

pub data SemCall : Type 0 where
  creates : SemSpec → SemCall
  takes increments dequeues : ℕ → SemCall
  enqueues removes : ℕ → ℕ → SemCall

unfoldable pub run_sem : TaskTable → SemCall → SemTable → SemTable
run_sem tasks (creates a) t = (sem_create t a).0
run_sem tasks (takes sem_id) t = (sem_take_if_available t sem_id).0
run_sem tasks (increments sem_id) t = (sem_increment_count t sem_id).0
run_sem tasks (dequeues sem_id) t = (sem_dequeue_waiter t sem_id).0
run_sem tasks (enqueues sem_id task_id) t = (sem_enqueue_waiter t tasks sem_id task_id).0
run_sem tasks (removes sem_id task_id) t = (sem_remove_waiter t sem_id task_id).0

unfoldable pub run_sems : TaskTable → List SemCall → SemTable → SemTable
run_sems tasks [] t = t
run_sems tasks (c ∷ cs) t = run_sems tasks cs (run_sem tasks c t)

abbrev pub AllSemsOk : SemTable → Type 0
AllSemsOk t = (i : ℕ) → SemOk (t.sems i)

take-SemOk : (s : Semaphore) → SemOk s → SemOk (take s).0
unfolding take
take-SemOk s v = ground arith

increment-SemOk : (s : Semaphore) → SemOk s → SemOk (increment s).0
unfolding increment rank
increment-SemOk s v = ground arith

-- The queue operations leave both counts as they are.
record SameCounts (s s' : Semaphore) : Type 0 where
  same_count : s'.count ≡ s.count
  same_max : s'.max_count ≡ s.max_count

enqueue-SameCounts :
    (sem_id task_id : ℕ) (task : Task.Tcb) (s : Semaphore)
    → SameCounts s (enqueue sem_id task_id task s).0
unfolding enqueue push
enqueue-SameCounts sem_id task_id task s = ground arith

dequeue-SameCounts : (s : Semaphore) → SameCounts s (dequeue s).0
unfolding dequeue drop_head
dequeue-SameCounts s = ground arith

finish_removal-SameCounts : (s : Semaphore) (k : Kept) → SameCounts s (finish_removal s k).0
unfolding finish_removal rebuild
finish_removal-SameCounts s k = ground arith

remove-SameCounts : (task_id : ℕ) (s : Semaphore) → SameCounts s (remove task_id s).0
unfolding remove
remove-SameCounts task_id s = elim (Bool-cases (s.wait_count == 0)) [
  | inl e ↦ rw e (record { same_count = refl; same_max = refl })
  | inr e ↦ rw e (finish_removal-SameCounts s _)
]

SameCounts-SemOk : {s s' : Semaphore} → SemOk s → SameCounts s s' → RingOk s' → SemOk s'
SameCounts-SemOk v c r = record {
  count_le = omega (arith, v.count_le, c.same_count, c.same_max);
  max_le = omega (arith, v.max_le, c.same_max);
  ring = r;
}

enqueue-SemOk :
    (sem_id task_id : ℕ) (task : Task.Tcb) (s : Semaphore)
    → SemOk s
    → SemOk (enqueue sem_id task_id task s).0
enqueue-SemOk sem_id task_id task s v =
    SameCounts-SemOk v (enqueue-SameCounts sem_id task_id task s)
      (enqueue_refines sem_id task_id task s v.ring).0

dequeue-SemOk : (s : Semaphore) → SemOk s → SemOk (dequeue s).0
dequeue-SemOk s v = SameCounts-SemOk v (dequeue-SameCounts s) (dequeue_refines s v.ring).0

remove-SemOk : (task_id : ℕ) (s : Semaphore) → SemOk s → SemOk (remove task_id s).0
remove-SemOk task_id s v =
    SameCounts-SemOk v (remove-SameCounts task_id s) (remove_refines task_id s v.ring).0

at_sem-AllSemsOk :
    (t : SemTable) (f : Semaphore → Semaphore × SemResult) (o : Option ℕ)
    → ((s : Semaphore) → SemOk s → SemOk (f s).0)
    → AllSemsOk t
    → AllSemsOk (at_sem t f o).0
unfolding at_sem
at_sem-AllSemsOk t f none keeps v = v
at_sem-AllSemsOk t f (some i) keeps v = update-All SemOk t.sems i _ v (keeps (t.sems i) (v i))

new_semaphore-SemOk :
    (sem_id : ℕ) (a : SemSpec) (s : Semaphore)
    → bad_spec a ≡ false
    → SemOk (new_semaphore sem_id a s)
unfolding rank
new_semaphore-SemOk sem_id a s good = ground arith

fill_sem-AllSemsOk :
    (t : SemTable) (i : ℕ) (a : SemSpec) (t' : SemTable) (c : Creation)
    → bad_spec a ≡ false
    → AllSemsOk t
    → AllSemsOk t'
    → AllSemsOk (fill_sem t i a (t', c)).0
unfolding fill_sem
fill_sem-AllSemsOk t i a t' (created sem_id) good v v' =
    update-All SemOk t'.sems i _ v' (new_semaphore-SemOk sem_id a (t'.sems i) good)
fill_sem-AllSemsOk t i a t' (refused e) good v v' = v

allocate_sem_id-AllSemsOk : (t : SemTable) → AllSemsOk t → AllSemsOk (allocate_sem_id t).0
unfolding allocate_sem_id
allocate_sem_id-AllSemsOk t v =
    elim (Bool-cases (not (is_positive t.next_sem_id) || int_le int_max t.next_sem_id)) [
      | inl e ↦ rw e v
      | inr e ↦ rw e v
    ]

create_in-AllSemsOk :
    (t : SemTable) (a : SemSpec) (o : Option ℕ)
    → bad_spec a ≡ false
    → AllSemsOk t
    → AllSemsOk (create_in t a o).0
unfolding create_in
create_in-AllSemsOk t a none good v = v
create_in-AllSemsOk t a (some i) good v =
    fill_sem-AllSemsOk t i a (allocate_sem_id t).0 (allocate_sem_id t).1 good v
      (allocate_sem_id-AllSemsOk t v)

sem_create-AllSemsOk : (t : SemTable) (a : SemSpec) → AllSemsOk t → AllSemsOk (sem_create t a).0
unfolding sem_create
sem_create-AllSemsOk t a v = elim (Bool-cases (bad_spec a)) [
  | inl e ↦ rw e v
  | inr e ↦ rw e (create_in-AllSemsOk t a _ e v)
]

pub sem_init-AllSemsOk : AllSemsOk sem_init
sem_init-AllSemsOk i = omega arith

-- sem_enqueue_waiter and its like, behind their lookups.
enqueue-AllSemsOk :
    (t : SemTable) (tasks : TaskTable) (sem_id task_id : ℕ)
    → AllSemsOk t
    → AllSemsOk (sem_enqueue_waiter t tasks sem_id task_id).0
unfolding sem_enqueue_waiter
enqueue-AllSemsOk t tasks sem_id task_id v = elim (Option-cases (task_get_by_id tasks task_id)) [
  | inl e ↦ rw (sem_enqueue_waiter, e) v
  | inr (j, e) ↦
      rw (sem_enqueue_waiter, e)
        (at_sem-AllSemsOk t (enqueue sem_id task_id (tasks.slots j)) (sem_get_by_id t sem_id)
          (enqueue-SemOk sem_id task_id (tasks.slots j)) v)
]

pub dequeue-AllSemsOk :
    (t : SemTable) (sem_id : ℕ) → AllSemsOk t → AllSemsOk (sem_dequeue_waiter t sem_id).0
unfolding sem_dequeue_waiter
dequeue-AllSemsOk t sem_id v = elim (Option-cases (sem_get_by_id t sem_id)) [
  | inl e ↦ rw (sem_dequeue_waiter, e) v
  | inr (i, e) ↦
      rw (sem_dequeue_waiter, e) (update-All SemOk t.sems i _ v (dequeue-SemOk (t.sems i) (v i)))
]

pub remove-AllSemsOk :
    (t : SemTable) (sem_id task_id : ℕ)
    → AllSemsOk t
    → AllSemsOk (sem_remove_waiter t sem_id task_id).0
unfolding sem_remove_waiter
remove-AllSemsOk t sem_id task_id v = elim (Bool-cases (is_positive task_id)) [
  | inl e ↦
      rw e (at_sem-AllSemsOk t (remove task_id) (sem_get_by_id t sem_id) (remove-SemOk task_id) v)
  | inr e ↦ rw e v
]

pub run_sem-AllSemsOk :
    (tasks : TaskTable) (c : SemCall) (t : SemTable) → AllSemsOk t → AllSemsOk (run_sem tasks c t)
unfolding sem_take_if_available sem_increment_count run_sem
run_sem-AllSemsOk tasks (creates a) t v = sem_create-AllSemsOk t a v
run_sem-AllSemsOk tasks (takes sem_id) t v =
    at_sem-AllSemsOk t take (sem_get_by_id t sem_id) take-SemOk v
run_sem-AllSemsOk tasks (increments sem_id) t v =
    at_sem-AllSemsOk t increment (sem_get_by_id t sem_id) increment-SemOk v
run_sem-AllSemsOk tasks (dequeues sem_id) t v = dequeue-AllSemsOk t sem_id v
run_sem-AllSemsOk tasks (enqueues sem_id task_id) t v = enqueue-AllSemsOk t tasks sem_id task_id v
run_sem-AllSemsOk tasks (removes sem_id task_id) t v = remove-AllSemsOk t sem_id task_id v

-- After sem_init, whatever calls follow, every semaphore has `0 <= count <= max_count <= INT_MAX`
-- and a wait queue whose head and tail lie inside the array and whose length fits it.
pub run_sems-AllSemsOk :
    (tasks : TaskTable) (cs : List SemCall) → AllSemsOk (run_sems tasks cs sem_init)
unfolding run_sems
run_sems-AllSemsOk tasks cs = go cs sem_init sem_init-AllSemsOk
  where
    go : (cs : List SemCall) (t : SemTable) → AllSemsOk t → AllSemsOk (run_sems tasks cs t)
    go [] t v = v
    go (c ∷ cs) t v = go cs (run_sem tasks c t) (run_sem-AllSemsOk tasks c t v)
