-- ===== src/Scheduler/Choice.antt =====
-- What scheduler_select_next chooses.
use native.Mathlib.Decide.{dec_lt}
use itron_rtos.Common.{
  ℕ, zero, suc, ◌+◌, ◌≤◌, ◌<◌, ◌≡◌, refl, ◌⊎◌, inl, inr, true, false, Option, none, some, arith,
  Bool-cases, int_lt, rank, Option-cases, ◌↔◌, ◌∙◌, ap,
}
use itron_rtos.Task.{TaskTable, is_ready, max_tasks}
use itron_rtos.Scheduler.{consider, select_from, select_next}

abbrev pub IsReady : TaskTable → ℕ → Type 0
IsReady t i = is_ready (t.slots i).state ≡ true

abbrev pub key : TaskTable → ℕ → ℕ
key t i = rank (t.slots i).priority

-- Slot `b` is READY, no READY slot below `n` has a smaller priority value, and those in front of it
-- have greater ones.
pub record IsBest (t : TaskTable) (n b : ℕ) : Type 0 where
  pub below : b < n
  pub is_candidate : IsReady t b
  pub least : (k : ℕ) → k < n → IsReady t k → key t b ≤ key t k
  pub first : (k : ℕ) → k < b → IsReady t k → key t b < key t k

-- What the loop knows after the slots below `n`.
abbrev pub Chosen : TaskTable → ℕ → Option ℕ → Type 0
Chosen t n none = (k : ℕ) → k < n → is_ready (t.slots k).state ≡ false
Chosen t n (some b) = IsBest t n b

lt-suc-cases : (k n : ℕ) → k < n + 1 → (k < n) ⊎ (k ≡ n)
lt-suc-cases k n h = omega arith

-- The best slot stays so past a slot that does not beat it.
IsBest-keep :
    (t : TaskTable) (n b : ℕ)
    → IsBest t n b
    → (IsReady t n → key t b ≤ key t n)
    → IsBest t (n + 1) b
IsBest-keep t n b h loses = record {
  below = omega (arith, h.below);
  is_candidate = h.is_candidate;
  least = λ k lt r. elim (lt-suc-cases k n lt) [
    | inl less ↦ h.least k less r
    | inr same ↦ rw same (loses (rw same at r))
  ];
  first = h.first;
}

-- A READY slot with a smaller priority value takes its place.
IsBest-replace :
    (t : TaskTable) (n b : ℕ) → IsBest t n b → IsReady t n → key t n < key t b → IsBest t (n + 1) n
IsBest-replace t n b h r wins = record {
  below = omega arith;
  is_candidate = r;
  least = λ k lt rk. elim (lt-suc-cases k n lt) [
    | inl less ↦ omega (arith, h.least k less rk)
    | inr same ↦ rw same (omega arith)
  ];
  first = λ k lt rk. omega (arith, h.least k lt rk);
}

consider-Chosen :
    (t : TaskTable) (n : ℕ) (o : Option ℕ) → Chosen t n o → Chosen t (n + 1) (consider t n o)
unfolding consider
consider-Chosen t n none h = elim (Bool-cases (is_ready (t.slots n).state)) [
  | inl e ↦ rw e (record {
    below = omega arith;
    is_candidate = e;
    least = λ k lt r. elim (lt-suc-cases k n lt) [
      | inl less ↦ ground (arith, h k less)
      | inr same ↦ rw same (omega arith)
    ];
    first = λ k lt r. ground (arith, h k lt);
  })
  | inr e ↦ rw e (λ k lt. elim (lt-suc-cases k n lt) [ inl less ↦ h k less | inr same ↦ rw same e ])
]
consider-Chosen t n (some b) h = elim (Bool-cases (is_ready (t.slots n).state)) [
  | inl e ↦ rw e (elim (Bool-cases (int_lt (t.slots n).priority (t.slots b).priority)) [
    | inl p ↦ rw p (IsBest-replace t n b h e (ground arith))
    | inr p ↦ rw p (IsBest-keep t n b h (λ r. ground arith))
  ])
  | inr e ↦ rw e (IsBest-keep t n b h (λ r. cc))
]

select_from-Chosen :
    (t : TaskTable) (i n m : ℕ) (o : Option ℕ)
    → i + n ≡ m
    → Chosen t i o
    → Chosen t m (select_from t i n o)
unfolding select_from
select_from-Chosen t i zero m o e h = let e' : i ≡ m = omega arith in rw (← e') h
select_from-Chosen t i (suc n) m o e h =
    select_from-Chosen t (i + 1) n m (consider t i o) (omega arith) (consider-Chosen t i o h)

-- The scheduler selects the READY task with the smallest priority value, and among those with that
-- value the one in front in the table. It selects none exactly when no task is READY.
pub select_next-Chosen : (t : TaskTable) → Chosen t max_tasks (select_next t)
unfolding select_next
select_next-Chosen t =
    select_from-Chosen t 0 max_tasks max_tasks none refl (λ k lt. absurd (omega arith))

IsBest-unique : (t : TaskTable) (b c : ℕ) → IsBest t max_tasks b → IsBest t max_tasks c → b ≡ c
IsBest-unique t b c h k = elim (dec_lt b c) [
  | yes p ↦ absurd (omega (arith, k.first b p h.is_candidate, h.least c k.below k.is_candidate))
  | no p ↦ elim (dec_lt c b) [
    | yes q ↦ absurd (omega (arith, h.first c q k.is_candidate, k.least b h.below h.is_candidate))
    | no q ↦ omega arith
  ]
]

pub select_next-IsBest : (t : TaskTable) (b : ℕ) → select_next t ≡ some b → IsBest t max_tasks b
select_next-IsBest t b e = rw e at (select_next-Chosen t)

pub select_next-none :
    (t : TaskTable) (k : ℕ)
    → select_next t ≡ none
    → k < max_tasks
    → is_ready (t.slots k).state ≡ false
select_next-none t k e = (rw e at (select_next-Chosen t)) k

-- A slot is selected if and only if it is READY, no READY slot of the table has a smaller priority
-- value, and every READY slot in front of it has a greater one.
pub select_next_iff : (t : TaskTable) (b : ℕ) → (select_next t ≡ some b) ↔ IsBest t max_tasks b
select_next_iff t b = (
  select_next-IsBest t b,
  λ best. elim (Option-cases (select_next t)) [
    | inl e ↦ cc (best.is_candidate, select_next-none t b e best.below)
    | inr (c, e) ↦ e ∙ ap some (IsBest-unique t c b (select_next-IsBest t c e) best)
  ],
)
