-- ===== src/DelayQueue/Contents.antt =====
-- The array operations of kernel/delay_queue.c as operations on the list of the entries in use.
use native.Mathlib.Decide.{dec_lt}
use itron_rtos.Common.{
  ℕ, zero, suc, ◌+◌, ◌-◌, ◌≤◌, ◌<◌, ◌≡◌, refl, sym, ap, ◌∙◌, List, [], ◌∷◌, ◌++◌, arith, update,
  update_self, update_ne, collect, collect-cong, collect-shift, collect-append,
}
use itron_rtos.DelayQueue.{Entry, DelayQueue, no_entry, append, shift_loop, remove_at}

-- The entries in use, in the order in which they were put in.
abbrev pub contents : DelayQueue → List Entry
contents q = collect q.entries 0 q.count

pub contents-append : (q : DelayQueue) (e : Entry) → contents (append q e) ≡ contents q ++ e ∷ []
unfolding append
contents-append q e =
    ap (collect (update q.entries q.count e) 0) (omega arith)
    ∙ collect-append q.entries _ 0 q.count e (λ k lo hi. update_ne q.entries _ _ e (omega arith))
        (ap (update q.entries q.count e) (omega arith) ∙ update_self q.entries q.count e)

shift_loop-below :
    (index n k : ℕ) (entries : ℕ → Entry) → k < index → shift_loop index n entries k ≡ entries k
unfolding shift_loop
shift_loop-below index zero k entries h = refl
shift_loop-below index (suc n) k entries h =
    shift_loop-below (index + 1) n k _ (omega arith)
    ∙ update_ne entries index k (entries (index + 1)) (omega arith)

shift_loop-in :
    (index n k : ℕ) (entries : ℕ → Entry)
    → index ≤ k
    → k < index + n
    → shift_loop index n entries k ≡ entries (k + 1)
unfolding shift_loop
shift_loop-in index zero k entries lo hi = absurd (omega arith)
shift_loop-in index (suc n) k entries lo hi = elim (dec_lt index k) [
  | yes p ↦
      shift_loop-in (index + 1) n k _ (omega arith) (omega arith)
      ∙ update_ne entries index (k + 1) (entries (index + 1)) (omega arith)
  | no p ↦
      let same : index ≡ k = omega arith in
      shift_loop-below (index + 1) n k _ (omega arith)
      ∙ ap (update entries index (entries (index + 1))) (sym same)
      ∙ update_self entries index (entries (index + 1))
      ∙ ap (λ (j : ℕ). entries (j + 1)) same
]

module _ (q : DelayQueue) (index : ℕ) (inside : index < q.count) where
  shifted : ℕ → Entry
  shifted = shift_loop index (q.count - 1 - index) q.entries

  remove_at-inside : remove_at q index ≡ record {
    entries = update (shift_loop index (q.count - 1 - index) q.entries) (q.count - 1) no_entry;
    count = q.count - 1;
  }
  unfolding remove_at
  remove_at-inside = ground arith

  pub count-remove_at : (remove_at q index).count ≡ q.count - 1
  count-remove_at = ap (λ (r : DelayQueue). r.count) remove_at-inside

  -- The entries in front of the removed one stay,
  pub remove_at-before : collect (remove_at q index).entries 0 index ≡ collect q.entries 0 index
  unfolding shifted
  remove_at-before = rw remove_at-inside (
      collect-cong _ _ 0 index λ k lo hi.
        update_ne shifted _ k no_entry (omega arith)
        ∙ shift_loop-below index (q.count - 1 - index) k q.entries (omega arith))

  -- and those behind it move to the front by one.
  pub remove_at-behind :
      collect (remove_at q index).entries index (q.count - 1 - index)
      ≡ collect q.entries (index + 1) (q.count - 1 - index)
  unfolding shifted
  remove_at-behind = rw remove_at-inside (
      sym (
        collect-shift _ _ index (q.count - 1 - index) λ k lo hi. sym (
          update_ne shifted _ k no_entry (omega arith)
          ∙ shift_loop-in index (q.count - 1 - index) k q.entries lo hi)))
