-- ===== src/Common/Arrays.antt =====
-- An array of a fixed size is a function of the index, with the size written at each loop. The
-- kernel's loops over a table are one scan, `first_index`.
use Prim.Native.Nat.{ℕ, zero, suc, ◌+◌, ◌≤◌, ◌<◌}
use mathlib.Core.Path.{◌≡◌}
use mathlib.Core.Logic.{◌≢◌, inl, inr}
use mathlib.Core.Bool.{Bool, true, false}
use mathlib.Core.Option.{Option, none, some}
use native.Mathlib.Omega.{arith}
use itron_rtos.Common.Tests.{◌==◌, if◌then◌else◌, Bool-cases}

module _ {ℓ} {A : Type ℓ} where
  -- array[i] = v
  abbrev pub update : (ℕ → A) → ℕ → A → ℕ → A
  update f i v j = if i == j then v else f j

  pub update_self : (f : ℕ → A) (i : ℕ) (v : A) → update f i v i ≡ v
  update_self f i v = ground arith

  pub update_ne : (f : ℕ → A) (i j : ℕ) (v : A) → i ≢ j → update f i v j ≡ f j
  update_ne f i j v h = ground arith

  -- What holds of every element still holds after a write of a value that has it.
  pub update-All {κ} :
      (P : A → Type κ) (f : ℕ → A) (i : ℕ) (v : A)
      → ((j : ℕ) → P (f j))
      → P v
      → (j : ℕ) → P (update f i v j)
  update-All P f i v all h j = elim (i == j) as (λ b. P (if b then v else f j)) [
    | true ↦ h
    | false ↦ all j
  ]

-- for (k = i; k < i + n; k++) if (p(k)) return k;
unfoldable pub first_index : (ℕ → Bool) → ℕ → ℕ → Option ℕ
first_index p i zero = none
first_index p i (suc n) = let rest = first_index p (i + 1) n in if p i then some i else rest

-- Index `j` is the first in `[i, i + n)` that passes the test.
pub record IsFirst (p : ℕ → Bool) (i n j : ℕ) : Type 0 where
  pub passes : p j ≡ true
  pub above : i ≤ j
  pub below : j < i + n
  pub earlier : (k : ℕ) → i ≤ k → k < j → p k ≡ false

pub first_index-IsFirst : (p : ℕ → Bool) (i n j : ℕ) → first_index p i n ≡ some j → IsFirst p i n j
unfolding first_index
first_index-IsFirst p i zero j h = ground arith
first_index-IsFirst p i (suc n) j h = elim (Bool-cases (p i)) [
  | inl e ↦
      let same : i ≡ j = ground arith in
      record {
        passes = ground arith;
        above = omega arith;
        below = omega arith;
        earlier = λ k lo hi. absurd (omega arith);
      }
  | inr e ↦
      let r : IsFirst p (i + 1) n j = first_index-IsFirst p (i + 1) n j (ground arith) in
      record {
        passes = r.passes;
        above = omega (arith, r.above);
        below = omega (arith, r.below);
        earlier = λ k lo hi. grind (arith, r.earlier k);
      }
]

pub first_index-none :
    (p : ℕ → Bool) (i n : ℕ) → first_index p i n ≡ none → (k : ℕ) → i ≤ k → k < i + n → p k ≡ false
unfolding first_index
first_index-none p i zero h k lo hi = absurd (omega arith)
first_index-none p i (suc n) h k lo hi = elim (Bool-cases (p i)) [
  | inl e ↦ ground arith
  | inr e ↦ elim (Bool-cases (i == k)) [
    | inl same ↦ ground arith
    | inr other ↦ first_index-none p (i + 1) n (ground arith) k (ground arith) (omega arith)
  ]
]

-- The scan finds something where something passes.
pub first_index-total :
    (p : ℕ → Bool) (i n k : ℕ)
    → i ≤ k
    → k < i + n
    → p k ≡ true
    → (j : ℕ) × (first_index p i n ≡ some j) × (p j ≡ true) × (j ≤ k)
unfolding first_index
first_index-total p i zero k lo hi h = absurd (omega arith)
first_index-total p i (suc n) k lo hi h = elim (Bool-cases (p i)) [
  | inl e ↦ (i, rw e, e, lo)
  | inr e ↦
      let (j, found, passes, before) =
        first_index-total p (i + 1) n k (ground arith) (omega arith) h in
      (j, rw e found, passes, before)
]
