-- ===== src/DelayQueue/Invariant.antt =====
-- What always holds of the queue of kernel/delay_queue.c.
use itron_rtos.Common.{
  ℕ, suc, ◌+◌, ◌-◌, ◌≤◌, ◌<◌, ◌≡◌, ◌≢◌, refl, sym, subst, ap, ap₂, ◌∙◌, true, false, ◌&&◌, Option,
  none, some, List, [], ◌∷◌, ◌++◌, arith, ◌==◌, Bool-cases, Option-cases, inl, inr, collect, length,
  length-collect, is_positive, first_index-IsFirst, first_index-none, IsFirst,
}
use itron_rtos.Task.{TaskTable, max_tasks, is_waiting, is_on_semaphore_timeout}
use itron_rtos.Task.Lookup.{task_get_by_id}
use itron_rtos.DelayQueue.{
  Entry, DelayQueue, DelayResult, ok, inval, full, duplicate, task_state, init, append, append_if,
  can_enqueue, find_index, enqueue, remove_at, waits_for_ticks, remove_sem_timeout_waiter,
  remove_found,
}
use itron_rtos.DelayQueue.Tick.{Tables, Loop, tick}
use itron_rtos.DelayQueue.Contents.{
  contents, contents-append, remove_at-before, remove_at-behind, count-remove_at,
}
use itron_rtos.DelayQueue.Ageing.{tick_refines}
use itron_rtos.DelayQueue.Entries.{
  has_id, EntriesOk, EntriesOk-snoc, EntriesOk-left, length-left, EntriesOk-drop, collect-front,
  has_id-collect,
}

pub record QueueOk (q : DelayQueue) : Type 0 where
  pub count_in : q.count ≤ max_tasks
  pub entries_ok : EntriesOk (contents q)

find_index-none : (q : DelayQueue) (a : ℕ) → find_index q a ≡ none → has_id a (contents q) ≡ false
unfolding find_index
find_index-none q a h = has_id-collect q.entries a 0 q.count (first_index-none _ 0 q.count h)

can_enqueue-ok :
    (q : DelayQueue) (a : ℕ)
    → can_enqueue q a ≡ ok
    → (is_positive a ≡ true) × (q.count < max_tasks) × (has_id a (contents q) ≡ false)
unfolding can_enqueue
can_enqueue-ok q a h = elim (Option-cases (find_index q a)) [
  | inl e ↦ let new = find_index-none q a e in (ground arith, ground arith, new)
  | inr (k, e) ↦ absurd (ground arith)
]

append-QueueOk :
    (q : DelayQueue) (e : Entry)
    → e.ticks ≢ 0
    → QueueOk q
    → can_enqueue q e.task_id ≡ ok
    → QueueOk (append q e)
unfolding append
append-QueueOk q e more v h =
    let (pos, room, new) = can_enqueue-ok q e.task_id h in
    record {
      count_in = omega arith;
      entries_ok =
          subst EntriesOk (sym (contents-append q e))
            (EntriesOk-snoc (contents q) e pos more new v.entries_ok);
    }

append_if-QueueOk :
    (q : DelayQueue) (e : Entry) (r : DelayResult)
    → e.ticks ≢ 0
    → QueueOk q
    → can_enqueue q e.task_id ≡ r
    → QueueOk (append_if q e r).0
unfolding append_if
append_if-QueueOk q e ok more v h = append-QueueOk q e more v h
append_if-QueueOk q e inval more v h = v
append_if-QueueOk q e full more v h = v
append_if-QueueOk q e duplicate more v h = v
append_if-QueueOk q e task_state more v h = v

pub enqueue-QueueOk :
    (q : DelayQueue) (tasks : TaskTable) (task_id ticks : ℕ)
    → QueueOk q
    → QueueOk (enqueue q tasks task_id ticks).0
unfolding enqueue
enqueue-QueueOk q tasks task_id ticks v = elim (Option-cases (task_get_by_id tasks task_id)) [
  | inl e ↦ rw (enqueue, e) v
  | inr (j, e) ↦ elim (Bool-cases (ticks == 0)) [
    | inl z ↦ rw (enqueue, e, z) v
    | inr z ↦ elim (Bool-cases (waits_for_ticks (tasks.slots j))) [
      | inl g ↦ rw (enqueue, e, z, g) (append_if-QueueOk q _ _ (ground arith) v refl)
      | inr g ↦ rw (enqueue, e, z, g) v
    ]
  ]
]

remove_at-QueueOk : (q : DelayQueue) (i : ℕ) → i < q.count → QueueOk q → QueueOk (remove_at q i)
unfolding collect
remove_at-QueueOk q i inside v =
    let n : ℕ = q.count - 1 - i in
    let size : i + n ≡ (remove_at q i).count = omega (arith, count-remove_at q i inside) in
    let old_size : q.count ≡ i + suc n = omega arith in
    let whole = ap (collect q.entries 0) old_size ∙ collect-front q.entries i (suc n) in
    let short =
      ap (collect (remove_at q i).entries 0) (sym size)
      ∙ collect-front (remove_at q i).entries i n
      ∙ ap₂ ◌++◌ (remove_at-before q i inside) (remove_at-behind q i inside) in
    record {
      count_in = omega (arith, count-remove_at q i inside, v.count_in);
      entries_ok = subst EntriesOk (sym short) (
          EntriesOk-drop (collect q.entries 0 i) (collect q.entries (i + 1) n) (q.entries i)
            (subst EntriesOk whole v.entries_ok));
    }

remove_found-QueueOk :
    (q : DelayQueue) (a : ℕ) (o : Option ℕ)
    → find_index q a ≡ o
    → QueueOk q
    → QueueOk (remove_found q o).0
unfolding remove_found find_index
remove_found-QueueOk q a none e v = v
remove_found-QueueOk q a (some i) e v =
    let first : IsFirst _ 0 q.count i = first_index-IsFirst _ 0 q.count i e in
    remove_at-QueueOk q i (omega (arith, first.below)) v

pub remove_sem_timeout_waiter-QueueOk :
    (q : DelayQueue) (tasks : TaskTable) (task_id : ℕ)
    → QueueOk q
    → QueueOk (remove_sem_timeout_waiter q tasks task_id).0
unfolding remove_sem_timeout_waiter
remove_sem_timeout_waiter-QueueOk q tasks task_id v =
    elim (Option-cases (task_get_by_id tasks task_id)) [
      | inl e ↦ rw (remove_sem_timeout_waiter, e) v
      | inr (j, e) ↦
          elim (Bool-cases (
            is_waiting (tasks.slots j).state
            && is_on_semaphore_timeout (tasks.slots j).wait_reason)) [
              | inl g ↦
                  rw (remove_sem_timeout_waiter, e, g) (remove_found-QueueOk q task_id _ refl v)
              | inr g ↦ rw (remove_sem_timeout_waiter, e, g) v
            ]
    ]

-- The queue after a tick.
unfoldable pub queue_after : DelayQueue → Option Loop → DelayQueue
queue_after q none = q
queue_after q (some l) = l.queue

pub tick-QueueOk : (q : DelayQueue) (w : Tables) → QueueOk q → QueueOk (queue_after q (tick q w))
unfolding queue_after
tick-QueueOk q w v =
    let (out, runs, entries, _, _) = tick_refines q w in
    let shorter : out.queue.count ≤ q.count = omega (
      arith,
      length-left (contents q),
      ap length entries,
      length-collect out.queue.entries 0 out.queue.count,
      length-collect q.entries 0 q.count,
    ) in
    rw runs (record {
      count_in = omega (arith, v.count_in);
      entries_ok = subst EntriesOk (sym entries) (EntriesOk-left (contents q) v.entries_ok);
    })

-- The calls that change the queue, each with the tables that it finds.
pub data DelayCall : Type 0 where
  enqueues : TaskTable → ℕ → ℕ → DelayCall
  removes : TaskTable → ℕ → DelayCall
  ticks_with : Tables → DelayCall

unfoldable pub run_delay : DelayCall → DelayQueue → DelayQueue
run_delay (enqueues tasks task_id n) q = (enqueue q tasks task_id n).0
run_delay (removes tasks task_id) q = (remove_sem_timeout_waiter q tasks task_id).0
run_delay (ticks_with w) q = queue_after q (tick q w)

unfoldable pub run_delays : List DelayCall → DelayQueue → DelayQueue
run_delays [] q = q
run_delays (c ∷ cs) q = run_delays cs (run_delay c q)

run_delay-QueueOk : (c : DelayCall) (q : DelayQueue) → QueueOk q → QueueOk (run_delay c q)
unfolding run_delay
run_delay-QueueOk (enqueues tasks task_id n) q v = enqueue-QueueOk q tasks task_id n v
run_delay-QueueOk (removes tasks task_id) q v = remove_sem_timeout_waiter-QueueOk q tasks task_id v
run_delay-QueueOk (ticks_with w) q v = tick-QueueOk q w v

-- After delay_queue_init, whatever calls follow and whatever the tables are at each of them, the
-- queue fits its array, every entry in it has a positive id and at least one tick to go, and no two
-- entries have the same id.
pub run_delays-QueueOk : (cs : List DelayCall) → QueueOk (run_delays cs init)
unfolding run_delays collect
run_delays-QueueOk cs = go cs init (record { count_in = omega arith; entries_ok = tt })
  where
    go : (cs : List DelayCall) (q : DelayQueue) → QueueOk q → QueueOk (run_delays cs q)
    go [] q v = v
    go (c ∷ cs) q v = go cs (run_delay c q) (run_delay-QueueOk c q v)
