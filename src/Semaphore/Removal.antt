-- ===== src/Semaphore/Removal.antt =====
-- sem_remove_waiter of kernel/semaphore.c: its second loop, and the whole on the list of the waiters.
use native.Mathlib.Decide.{dec_lt, ℕ_discrete}
use itron_rtos.Common.{
  ℕ, zero, suc, ◌+◌, ◌≤◌, ◌<◌, ◌≡◌, refl, sym, ap, ◌∙◌, ◌≢◌, false, arith, inl, inr, Bool-cases,
  if◌then◌else◌, update, update_self, update_ne, collect, collect-cong, elem, erase, length-collect,
}
use itron_rtos.Task.{max_tasks}
use itron_rtos.Semaphore.{Semaphore, ok, queue_empty}
use itron_rtos.Semaphore.WaitQueue.{Kept, keep_loop, copy_loop, rebuild, remove}
use itron_rtos.Semaphore.Fifo
use itron_rtos.Semaphore.Ring.{contents, RingOk, contents_of_empty}
use itron_rtos.Semaphore.Scan.{kept_ids, queued, keep_loop-KeepsRest}

copy_loop-below :
    (kept : ℕ → ℕ) (index n j : ℕ) (queue : ℕ → ℕ)
    → j < index
    → copy_loop kept index n queue j ≡ queue j
unfolding copy_loop
copy_loop-below kept index zero j queue h = refl
copy_loop-below kept index (suc n) j queue h =
    copy_loop-below kept (index + 1) n j _ (omega arith)
    ∙ update_ne queue index j (kept index) (omega arith)

copy_loop-in :
    (kept : ℕ → ℕ) (index n j : ℕ) (queue : ℕ → ℕ)
    → index ≤ j
    → j < index + n
    → copy_loop kept index n queue j ≡ kept j
unfolding copy_loop
copy_loop-in kept index zero j queue lo hi = absurd (omega arith)
copy_loop-in kept index (suc n) j queue lo hi = elim (dec_lt index j) [
  | yes p ↦ copy_loop-in kept (index + 1) n j _ (omega arith) (omega arith)
  | no p ↦
      let same : index ≡ j = omega arith in
      copy_loop-below kept (index + 1) n j _ (omega arith)
      ∙ ap (update queue index (kept index)) (sym same)
      ∙ update_self queue index (kept index)
      ∙ ap kept same
]

-- The rebuilt queue holds the kept ids.
contents-rebuild :
    (s : Semaphore) (k : Kept) → k.kept_count ≤ max_tasks → contents (rebuild s k) ≡ kept_ids k
unfolding rebuild
contents-rebuild s k few = collect-cong _ k.queue 0 k.kept_count λ j lo hi.
    ap (copy_loop k.queue 0 k.kept_count (λ _. 0)) (omega arith)
    ∙ copy_loop-in k.queue 0 k.kept_count j (λ _. 0) lo hi

rebuild-RingOk : (s : Semaphore) (k : Kept) → k.kept_count ≤ max_tasks → RingOk (rebuild s k)
unfolding rebuild
rebuild-RingOk s k few = omega arith

fresh : Kept
fresh = record { queue = λ _. 0; kept_count = 0; removed = false }

abbrev after_scan : ℕ → Semaphore → Kept
after_scan task_id s = keep_loop s task_id 0 s.wait_count fresh

record Scanned (task_id : ℕ) (s : Semaphore) : Type 0 where
  ids : kept_ids (after_scan task_id s) ≡ erase task_id (contents s)
  found : (after_scan task_id s).removed ≡ elem task_id (contents s)
  few : (after_scan task_id s).kept_count ≤ s.wait_count

after_scan-Scanned : (task_id : ℕ) (s : Semaphore) → Scanned task_id s
unfolding fresh collect
after_scan-Scanned task_id s =
    let h = keep_loop-KeepsRest s task_id 0 s.wait_count fresh in
    record {
      ids = h.ids;
      found = h.found;
      few = omega (arith, h.few, length-collect (queued s) 0 s.wait_count);
    }

remove-empty :
    (task_id : ℕ) (s : Semaphore) → s.wait_count ≡ 0 → remove task_id s ≡ (s, queue_empty)
unfolding remove
remove-empty task_id s e = ground arith

remove-scanned :
    (task_id : ℕ) (s : Semaphore)
    → s.wait_count ≢ 0
    → remove task_id s ≡ (
        if (after_scan task_id s).removed
        then (rebuild s (after_scan task_id s), ok)
        else (s, queue_empty))
unfolding remove fresh
remove-scanned task_id s e = ground arith

-- But for the array, the positions and the number of its waiters a semaphore stays as it is.
abbrev pub SameBut : Semaphore → Semaphore → Type 0
SameBut s s' = s' ≡ record s {
  wait_queue = s'.wait_queue;
  wait_head = s'.wait_head;
  wait_tail = s'.wait_tail;
  wait_count = s'.wait_count;
}

pub remove-SameBut : (task_id : ℕ) (s : Semaphore) → SameBut s (remove task_id s).0
unfolding rebuild
remove-SameBut task_id s = elim (ℕ_discrete s.wait_count 0) [
  | yes e ↦ rw (remove-empty task_id s e) refl
  | no ne ↦ elim (Bool-cases (after_scan task_id s).removed) [
    | inl h ↦ rw (remove-scanned task_id s ne, h) refl
    | inr h ↦ rw (remove-scanned task_id s ne, h) refl
  ]
]

pub remove_refines :
    (task_id : ℕ) (s : Semaphore)
    → RingOk s
    → RingOk (remove task_id s).0
      × ((contents (remove task_id s).0, (remove task_id s).1) ≡ Fifo.remove (contents s) task_id)
unfolding elem
remove_refines task_id s v =
    let h = after_scan-Scanned task_id s in
    elim (ℕ_discrete s.wait_count 0) [
      | yes e ↦ rw (remove-empty task_id s e) (v, rw (contents_of_empty s e))
      | no ne ↦ elim (Bool-cases (elem task_id (contents s))) [
        | inl e ↦
            rw (remove-scanned task_id s ne, h.found, e)
              (
                rebuild-RingOk s _ (omega (arith, h.few, v.count_in)),
                ap (λ l. (l, ok)) (contents-rebuild s _ (omega (arith, h.few, v.count_in)) ∙ h.ids),
              )
        | inr e ↦ rw (remove-scanned task_id s ne, h.found, e) (v, refl)
      ]
    ]
