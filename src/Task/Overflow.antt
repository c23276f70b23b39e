-- ===== src/Task/Overflow.antt =====
-- `next_task_id = task_id + 1` in task_create_dormant at the greatest `int`: the sum leaves the
-- range of `int`, and where it wraps the counter of ids starts over from whatever is created next.
use itron_rtos.Common.{
  ℕ, ◌+◌, ◌<◌, ◌≡◌, refl, sym, ap, true, Option, none, some, arith, int_max, rank,
}
use itron_rtos.Task.{dormant, is_unused, TaskTable, ok, registered}
use itron_rtos.Task.Lookup.{names, find_free_slot, write_slot}
use itron_rtos.Task.Create.{
  TaskSpec, configure_slot, advance_past, allocate_task_id, task_create_dormant, create_in,
}
use itron_rtos.Task.Reading.{find_free_slot-unused}

record Created (t : TaskTable) (task_id : ℕ) (a : TaskSpec) (t' : TaskTable) : Type 0 where
  slot : ℕ
  free : is_unused (t.slots slot).state ≡ true
  result : t' ≡ advance_past task_id (write_slot t slot (configure_slot task_id a dormant))

create_in-Created :
    (t t' : TaskTable) (task_id : ℕ) (a : TaskSpec) (o : Option ℕ)
    → find_free_slot t ≡ o
    → create_in t task_id a o ≡ (t', ok)
    → Created t task_id a t'
unfolding create_in
create_in-Created t t' task_id a none f h = cc
create_in-Created t t' task_id a (some i) f h = record {
  slot = i;
  free = (find_free_slot-unused t i f).0;
  result = sym (ap (λ p. p.0) h);
}

create-Created :
    (t t' : TaskTable) (task_id : ℕ) (a : TaskSpec)
    → task_create_dormant t task_id a ≡ (t', ok)
    → Created t task_id a t'
unfolding task_create_dormant
create-Created t t' task_id a h =
    create_in-Created t t' task_id a (find_free_slot t) refl (ground arith)

-- Creating at the greatest `int` makes the counter negative.
create_max :
    (t t' : TaskTable) (a : TaskSpec)
    → task_create_dormant t int_max a ≡ (t', ok)
    → t'.next_task_id ≡ 2147483648
unfolding rank
create_max t t' a h = let c = create-Created t t' int_max a h in rw c.result (ground arith)

-- A created task leaves the others, with their ids.
create_keeps :
    (t t' : TaskTable) (task_id k j : ℕ) (a : TaskSpec)
    → task_create_dormant t task_id a ≡ (t', ok)
    → names k (t.slots j) ≡ true
    → names k (t'.slots j) ≡ true
create_keeps t t' task_id k j a h used =
    let c = create-Created t t' task_id a h in rw c.result (ground (arith, c.free))

-- After a successful `task_create_dormant` at 2147483647 and one at `k`, the next id to be handed
-- out is `k + 1`, also where a task had that id all along.
pub wrap_reuses_id :
    (t t1 t2 : TaskTable) (k j : ℕ) (a b : TaskSpec)
    → 0 < k
    → k + 1 < int_max
    → task_create_dormant t int_max a ≡ (t1, ok)
    → task_create_dormant t1 k b ≡ (t2, ok)
    → names (k + 1) (t.slots j) ≡ true
    → ((allocate_task_id t2).1 ≡ registered (k + 1)) × (names (k + 1) (t2.slots j) ≡ true)
unfolding allocate_task_id rank
wrap_reuses_id t t1 t2 k j a b pos small h1 h2 used =
    let c = create-Created t1 t2 k b h2 in
    let e : t1.next_task_id ≡ 2147483648 = create_max t t1 a h1 in
    let n : t2.next_task_id ≡ k + 1 = rw c.result (ground arith) in
    (
      rw n (ground arith),
      create_keeps t1 t2 k (k + 1) j b h2 (create_keeps t t1 int_max (k + 1) j a h1 used),
    )
