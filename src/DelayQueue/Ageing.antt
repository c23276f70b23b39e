-- ===== src/DelayQueue/Ageing.antt =====
-- delay_queue_tick as a pass over the list of the entries, with its array, index and removals gone.
use itron_rtos.Common.{
  ℕ, zero, suc, ◌+◌, ◌-◌, ◌≤◌, ◌<◌, ◌≡◌, refl, sym, ap, ◌∙◌, true, false, some, List, [], ◌∷◌, ◌++◌,
  arith, ltb, if◌then◌else◌, Bool-cases, inl, inr, update, update_self, update_ne, collect,
  collect-cong, collect-append,
}
use mathlib.Core.List.{append_assoc, append-nil}
use itron_rtos.DelayQueue.{Entry, DelayQueue, remove_at}
use itron_rtos.DelayQueue.Tick.{
  Tables, after, aged, visit, Loop, round, write_aged, tick_loop, tick,
}
use itron_rtos.DelayQueue.Contents.{contents, remove_at-before, remove_at-behind, count-remove_at}

-- The entries that a tick leaves, one tick nearer to their timeout,
abbrev pub left : List Entry → List Entry
left [] = []
left (e ∷ es) = let rest = left es in if ltb 0 (after e) then aged e ∷ rest else rest

-- the number of those that it takes away,
abbrev pub expired_in : List Entry → ℕ
expired_in [] = 0
expired_in (e ∷ es) = let rest = expired_in es in if ltb 0 (after e) then rest else suc rest

-- and what it does to the tables, entry by entry.
abbrev pub visit_all : Tables → List Entry → Tables
visit_all w [] = w
visit_all w (e ∷ es) = visit_all (visit w e) es

-- The loop ends with `front` and what `rest` leaves, where `rest` is still to be read.
pub record Aged (front rest : List Entry) (w : Tables) (n : ℕ) (out : Loop) : Type 0 where
  pub entries : contents out.queue ≡ front ++ left rest
  pub tables : out.tables ≡ visit_all w rest
  pub expired : out.expired ≡ n + expired_in rest

module _ (front rest : List Entry) (e : Entry) (w : Tables) (n : ℕ) (out : Loop) where
  Aged-keep :
      ltb 0 (after e) ≡ true
      → Aged (front ++ aged e ∷ []) rest (visit w e) n out
      → Aged front (e ∷ rest) w n out
  Aged-keep more h = record {
    entries = h.entries ∙ append_assoc front (aged e ∷ []) (left rest) ∙ rw more refl;
    tables = h.tables;
    expired = h.expired ∙ rw more refl;
  }

  Aged-expire :
      ltb 0 (after e) ≡ false
      → Aged front rest (visit w e) (n + 1) out
      → Aged front (e ∷ rest) w n out
  Aged-expire over h = record {
    entries = h.entries ∙ rw over refl;
    tables = h.tables;
    expired = h.expired ∙ rw over (omega arith);
  }

abbrev current : Loop → Entry
current l = l.queue.entries l.index

-- The loop's variables after a round that keeps the entry, and after one that takes it away.
abbrev kept : Loop → Loop
kept l = record {
  index = l.index + 1;
  expired = l.expired;
  queue = write_aged l.queue l.index;
  tables = visit l.tables (current l);
}

abbrev shortened : Loop → Loop
shortened l = record {
  index = l.index;
  expired = l.expired + 1;
  queue = remove_at (write_aged l.queue l.index) l.index;
  tables = visit l.tables (current l);
}

round-keep : (l : Loop) → ltb 0 (after (current l)) ≡ true → round l ≡ kept l
unfolding round
round-keep l more = rw more refl

round-expire : (l : Loop) → ltb 0 (after (current l)) ≡ false → round l ≡ shortened l
unfolding round
round-expire l over = rw over refl

module _ (q : DelayQueue) (i : ℕ) where
  front-write_aged :
      collect (write_aged q i).entries 0 (i + 1) ≡ collect q.entries 0 i ++ aged (q.entries i) ∷ []
  unfolding write_aged
  front-write_aged =
      ap (collect _ 0) (omega arith)
      ∙ collect-append q.entries _ 0 i (aged (q.entries i))
          (λ k lo hi. update_ne q.entries i k _ (omega arith))
          (ap (update q.entries i (aged (q.entries i))) (omega arith)
            ∙ update_self q.entries i (aged (q.entries i)))

  before-write_aged : collect (write_aged q i).entries 0 i ≡ collect q.entries 0 i
  unfolding write_aged
  before-write_aged = collect-cong _ _ 0 i (λ k lo hi. update_ne q.entries i k _ (omega arith))

  behind-write_aged :
      (m : ℕ) → collect (write_aged q i).entries (i + 1) m ≡ collect q.entries (i + 1) m
  unfolding write_aged
  behind-write_aged m =
      collect-cong _ _ (i + 1) m (λ k lo hi. update_ne q.entries i k _ (omega arith))

  count-write_aged : (write_aged q i).count ≡ q.count
  unfolding write_aged
  count-write_aged = refl

  front-removed :
      i < q.count → collect (remove_at (write_aged q i) i).entries 0 i ≡ collect q.entries 0 i
  front-removed inside =
      remove_at-before (write_aged q i) i (omega (arith, count-write_aged)) ∙ before-write_aged

  -- The removal of the entry that has just been aged.
  behind-removed :
      (m : ℕ)
      → i + suc m ≡ q.count
      → collect (remove_at (write_aged q i) i).entries i m ≡ collect q.entries (i + 1) m
  behind-removed m e =
      let size : m ≡ (write_aged q i).count - 1 - i = omega (arith, count-write_aged) in
      ap (collect (remove_at (write_aged q i) i).entries i) size
      ∙ remove_at-behind (write_aged q i) i (omega (arith, count-write_aged))
      ∙ ap (collect (write_aged q i).entries (i + 1)) (sym size)
      ∙ behind-write_aged m

abbrev LoopAges : ℕ → ℕ → Loop → Type 0
LoopAges fuel m l =
    (out : Loop) × (tick_loop fuel l ≡ some out)
    × Aged (collect l.queue.entries 0 l.index) (collect l.queue.entries l.index m) l.tables
        l.expired out

tick_loop-step :
    (fuel : ℕ) (l : Loop)
    → l.index < l.queue.count
    → tick_loop (suc fuel) l ≡ tick_loop fuel (round l)
unfolding tick_loop
tick_loop-step fuel l h = ground arith

tick_loop-end : (fuel : ℕ) (l : Loop) → l.index ≡ l.queue.count → tick_loop fuel l ≡ some l
unfolding tick_loop
tick_loop-end zero l h = ground arith
tick_loop-end (suc fuel) l h = ground arith

-- With one round of fuel per entry that is still to be read, the loop ends.
tick_loop-Aged :
    (m fuel : ℕ) (l : Loop) → l.index + m ≡ l.queue.count → m ≤ fuel → LoopAges fuel m l
unfolding collect
tick_loop-Aged zero fuel l e enough = (
  l,
  tick_loop-end fuel l (omega arith),
  record {
    entries = ap (collect l.queue.entries 0) (omega arith) ∙ sym (append-nil _);
    tables = refl;
    expired = omega arith;
  },
)
tick_loop-Aged (suc m) zero l e enough = absurd (omega arith)
tick_loop-Aged (suc m) (suc fuel) l e enough = elim (Bool-cases (ltb 0 (after (current l)))) [
  | inl more ↦
      let (out, runs, h) =
        tick_loop-Aged m fuel (kept l) (omega (arith, count-write_aged l.queue l.index))
          (omega arith) in
      (
        out,
        tick_loop-step fuel l (omega arith) ∙ ap (tick_loop fuel) (round-keep l more) ∙ runs,
        Aged-keep _ _ (current l) l.tables l.expired out more
            (rw (front-write_aged l.queue l.index, behind-write_aged l.queue l.index m) at (h)),
      )
  | inr over ↦
      let (out, runs, h) =
        tick_loop-Aged m fuel (shortened l)
          (omega (
            arith,
            count-write_aged l.queue l.index,
            count-remove_at (write_aged l.queue l.index) l.index
                (omega (arith, count-write_aged l.queue l.index)),
          ))
          (omega arith) in
      (
        out,
        tick_loop-step fuel l (omega arith) ∙ ap (tick_loop fuel) (round-expire l over) ∙ runs,
        Aged-expire _ _ (current l) l.tables l.expired out over (
            rw (front-removed l.queue l.index (omega arith), behind-removed l.queue l.index m e) at
              (h)),
      )
]

-- A tick ends within one round per entry. It leaves the entries that have more than one tick to go,
-- in their order and with one tick less; it visits the tasks of all entries in that order; and it
-- counts the entries that it took away.
pub tick_refines :
    (q : DelayQueue) (w : Tables)
    → (out : Loop) × (tick q w ≡ some out)
      × (contents out.queue ≡ left (contents q))
      × (out.tables ≡ visit_all w (contents q))
      × (out.expired ≡ expired_in (contents q))
unfolding tick collect
tick_refines q w =
    let (out, runs, h) =
      tick_loop-Aged q.count q.count (record { index = 0; expired = 0; queue = q; tables = w })
        (omega arith) (omega arith) in
    (out, runs, h.entries, h.tables, h.expired ∙ omega arith)
