-- ===== src/DelayQueue/Entries.antt =====
-- Lists of queue entries of kernel/delay_queue.c in which every task occurs once.
use itron_rtos.Common.{
  ℕ, zero, suc, ◌+◌, ◌≤◌, ◌<◌, ◌≡◌, ◌≢◌, refl, ap, ap₂, ◌∙◌, Bool, true, false, ◌||◌, List, [], ◌∷◌,
  ◌++◌, arith, ◌==◌, ltb, Bool-cases, inl, inr, collect, length, is_positive,
}
use itron_rtos.DelayQueue.{Entry}
use itron_rtos.DelayQueue.Tick.{after}
use itron_rtos.DelayQueue.Ageing.{left}

-- Whether a task is queued.
abbrev pub has_id : ℕ → List Entry → Bool
has_id a [] = false
has_id a (e ∷ es) = e.task_id == a || has_id a es

-- Every entry has an id, has ticks to go, and is the only one of its task.
abbrev pub EntriesOk : List Entry → Type 0
EntriesOk [] = Unit
EntriesOk (e ∷ es) =
    (is_positive e.task_id ≡ true) × (e.ticks ≢ 0) × (has_id e.task_id es ≡ false) × EntriesOk es

pub has_id-append :
    (a : ℕ) (xs ys : List Entry) → has_id a (xs ++ ys) ≡ (has_id a xs || has_id a ys)
has_id-append a [] ys = refl
has_id-append a (x ∷ xs) ys = let h = has_id-append a xs ys in ground arith

pub EntriesOk-snoc :
    (es : List Entry) (e : Entry)
    → is_positive e.task_id ≡ true
    → e.ticks ≢ 0
    → has_id e.task_id es ≡ false
    → EntriesOk es
    → EntriesOk (es ++ e ∷ [])
EntriesOk-snoc [] e pos more new v = (pos, more, refl, tt)
EntriesOk-snoc (x ∷ es) e pos more new (p, m, n, v) = (
  p,
  m,
  ground (arith, has_id-append x.task_id es (e ∷ [])),
  EntriesOk-snoc es e pos more (ground arith) v,
)

has_id-left : (a : ℕ) (es : List Entry) → has_id a es ≡ false → has_id a (left es) ≡ false
has_id-left a [] h = refl
has_id-left a (e ∷ es) h =
    let rest : has_id a (left es) ≡ false = has_id-left a es (ground arith) in
    elim (Bool-cases (ltb 0 (after e))) [
      | inl more ↦ rw more (ground arith)
      | inr over ↦ rw over rest
    ]

pub EntriesOk-left : (es : List Entry) → EntriesOk es → EntriesOk (left es)
EntriesOk-left [] v = tt
EntriesOk-left (e ∷ es) (p, m, n, v) = elim (Bool-cases (ltb 0 (after e))) [
  | inl more ↦ rw more (p, ground arith, has_id-left e.task_id es n, EntriesOk-left es v)
  | inr over ↦ rw over (EntriesOk-left es v)
]

pub length-left : (es : List Entry) → length (left es) ≤ length es
length-left [] = omega arith
length-left (e ∷ es) =
    let rest = length-left es in
    elim (Bool-cases (ltb 0 (after e))) [
      | inl more ↦ rw more (omega arith)
      | inr over ↦ rw over (omega arith)
    ]

pub EntriesOk-drop :
    (front back : List Entry) (e : Entry)
    → EntriesOk (front ++ e ∷ back)
    → EntriesOk (front ++ back)
EntriesOk-drop [] back e (_, _, _, v) = v
EntriesOk-drop (x ∷ front) back e (p, m, n, v) = (
  p,
  m,
  ground (arith, has_id-append x.task_id front (e ∷ back), has_id-append x.task_id front back),
  EntriesOk-drop front back e v,
)

collect-split :
    (f : ℕ → Entry) (i n m : ℕ) → collect f i (n + m) ≡ collect f i n ++ collect f (i + n) m
unfolding collect
collect-split f i zero m = ap₂ (collect f) (omega arith) (omega arith)
collect-split f i (suc n) m =
    let size : suc n + m ≡ suc (n + m) = omega arith in
    let place : i + 1 + n ≡ i + suc n = omega arith in
    ap (collect f i) size
    ∙ ap (◌∷◌ (f i))
        (collect-split f (i + 1) n m ∙ ap (λ (k : ℕ). collect f (i + 1) n ++ collect f k m) place)

pub collect-front : (f : ℕ → Entry) (n m : ℕ) → collect f 0 (n + m) ≡ collect f 0 n ++ collect f n m
collect-front f n m =
    let place : 0 + n ≡ n = omega arith in
    collect-split f 0 n m ∙ ap (λ (k : ℕ). collect f 0 n ++ collect f k m) place

pub has_id-collect :
    (f : ℕ → Entry) (a i n : ℕ)
    → ((k : ℕ) → i ≤ k → k < i + n → ((f k).task_id == a) ≡ false)
    → has_id a (collect f i n) ≡ false
unfolding collect
has_id-collect f a i zero h = refl
has_id-collect f a i (suc n) h =
    let rest = has_id-collect f a (i + 1) n (λ k lo hi. h k (omega arith) (omega arith)) in
    rw (h i (omega arith) (omega arith)) rest
