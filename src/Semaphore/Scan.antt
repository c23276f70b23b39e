-- ===== src/Semaphore/Scan.antt =====
-- The first loop of sem_remove_waiter in kernel/semaphore.c, on the list of the ids that it reads.
use itron_rtos.Common.{
  ℕ, zero, suc, ◌+◌, ◌%◌, ◌≤◌, ◌≡◌, refl, sym, ap, ◌∙◌, Bool, true, false, not, ◌&&◌, ◌||◌, List,
  [], ◌∷◌, ◌++◌, arith, ◌==◌, inl, inr, Bool-cases, update, update_self, update_ne, collect,
  collect-append, elem, erase, length,
}
use itron_rtos.Task.{max_tasks}
use itron_rtos.Semaphore.{Semaphore}
use itron_rtos.Semaphore.WaitQueue.{Kept, keep, keep_loop}
use mathlib.Core.List.{append_assoc, append-nil}

-- The ids that the first loop has kept.
abbrev pub kept_ids : Kept → List ℕ
kept_ids k = collect k.queue 0 k.kept_count

-- The ids to keep of those that are still to be read.
abbrev pub to_keep : Bool → ℕ → List ℕ → List ℕ
to_keep true task_id xs = xs
to_keep false task_id xs = erase task_id xs

pub record KeepsRest (task_id : ℕ) (k out : Kept) (rest : List ℕ) : Type 0 where
  pub ids : kept_ids out ≡ kept_ids k ++ to_keep k.removed task_id rest
  pub found : out.removed ≡ (k.removed || elem task_id rest)
  pub few : out.kept_count ≤ k.kept_count + length rest

-- One more id at the end of those that were kept.
kept_ids-snoc :
    (k : Kept) (x : ℕ)
    → collect (update k.queue k.kept_count x) 0 (k.kept_count + 1) ≡ kept_ids k ++ x ∷ []
kept_ids-snoc k x =
    ap (collect _ 0) (omega arith)
    ∙ collect-append k.queue _ 0 k.kept_count x (λ j lo hi. update_ne k.queue _ _ x (omega arith))
        (ap (update k.queue k.kept_count x) (omega arith) ∙ update_self k.queue k.kept_count x)

keep_hit :
    (task_id x : ℕ) (k : Kept)
    → k.removed ≡ false
    → x ≡ task_id
    → keep task_id x k ≡ record k { removed = true }
unfolding keep
keep_hit task_id x k e same = ground arith

keep_miss :
    (task_id x : ℕ) (k : Kept)
    → (k.removed || not (x == task_id)) ≡ true
    → keep task_id x k
      ≡ record k { queue = update k.queue k.kept_count x; kept_count = k.kept_count + 1 }
unfolding keep
keep_miss task_id x k e = elim (Bool-cases (not k.removed && x == task_id)) [
  | inl hit ↦ ground arith
  | inr miss ↦ rw miss
]

to_keep-nil : (task_id : ℕ) (r : Bool) → [] ≡ to_keep r task_id []
unfolding erase
to_keep-nil task_id true = refl
to_keep-nil task_id false = refl

or_elem-nil : (task_id : ℕ) (r : Bool) → r ≡ (r || elem task_id [])
unfolding elem
or_elem-nil task_id true = refl
or_elem-nil task_id false = refl

module _ (task_id x : ℕ) (rest : List ℕ) where
  to_keep-miss :
      (r : Bool)
      → (r || not (x == task_id)) ≡ true
      → x ∷ to_keep r task_id rest ≡ to_keep r task_id (x ∷ rest)
  unfolding erase
  to_keep-miss true h = refl
  to_keep-miss false h = ground arith

  to_keep-hit : x ≡ task_id → rest ≡ to_keep false task_id (x ∷ rest)
  unfolding erase
  to_keep-hit same = ground arith

  found-miss :
      (r : Bool)
      → (r || not (x == task_id)) ≡ true
      → (r || elem task_id rest) ≡ (r || elem task_id (x ∷ rest))
  unfolding elem
  found-miss true h = refl
  found-miss false h = ground arith

  found-hit : x ≡ task_id → true ≡ elem task_id (x ∷ rest)
  unfolding elem
  found-hit same = ground arith

  -- A round that keeps the id, and one that leaves it out.
  KeepsRest-miss :
      (k out : Kept)
      → (k.removed || not (x == task_id)) ≡ true
      → KeepsRest task_id
          (record k { queue = update k.queue k.kept_count x; kept_count = k.kept_count + 1 })
          out
          rest
      → KeepsRest task_id k out (x ∷ rest)
  KeepsRest-miss k out miss h = record {
    ids =
        h.ids
        ∙ ap (λ l. l ++ to_keep k.removed task_id rest) (kept_ids-snoc k x)
        ∙ append_assoc (kept_ids k) (x ∷ []) (to_keep k.removed task_id rest)
        ∙ ap (◌++◌ (kept_ids k)) (to_keep-miss k.removed miss);
    found = h.found ∙ found-miss k.removed miss;
    few = omega (arith, h.few);
  }

  KeepsRest-hit :
      (k out : Kept)
      → k.removed ≡ false
      → x ≡ task_id
      → KeepsRest task_id (record k { removed = true }) out rest
      → KeepsRest task_id k out (x ∷ rest)
  KeepsRest-hit k out e same h = record {
    ids =
        h.ids
        ∙ ap (◌++◌ (kept_ids k))
            (to_keep-hit same ∙ ap (λ r. to_keep r task_id (x ∷ rest)) (sym e));
    found = h.found ∙ found-hit same ∙ ap (λ r. r || elem task_id (x ∷ rest)) (sym e);
    few = omega (arith, h.few);
  }

-- The id that the first loop reads in round `index`.
abbrev pub queued : Semaphore → ℕ → ℕ
queued s index = s.wait_queue ((s.wait_head + index) % max_tasks)

pub keep_loop-KeepsRest :
    (s : Semaphore) (task_id index n : ℕ) (k : Kept)
    → KeepsRest task_id k (keep_loop s task_id index n k) (collect (queued s) index n)
unfolding keep_loop collect
keep_loop-KeepsRest s task_id index zero k = record {
  ids = sym (append-nil (kept_ids k)) ∙ ap (◌++◌ (kept_ids k)) (to_keep-nil task_id k.removed);
  found = or_elem-nil task_id k.removed;
  few = omega arith;
}
keep_loop-KeepsRest s task_id index (suc n) k =
    elim (Bool-cases (k.removed || not (queued s index == task_id))) [
      | inl miss ↦ rw (keep_miss task_id (queued s index) k miss) (
          KeepsRest-miss task_id (queued s index) _ k _ miss
            (keep_loop-KeepsRest s task_id (index + 1) n _))
      | inr hit ↦ rw (keep_hit task_id (queued s index) k (ground arith) (ground arith)) (
          KeepsRest-hit task_id (queued s index) _ k _ (ground arith) (ground arith)
            (keep_loop-KeepsRest s task_id (index + 1) n _))
    ]
