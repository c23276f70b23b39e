-- ===== src/Common/Lists.antt =====
-- The part of an array that is in use, as a list, with the two list functions that speak of it.
use Prim.Native.Nat.{ℕ, zero, suc, ◌+◌, ◌≤◌, ◌<◌}
use mathlib.Core.Path.{◌≡◌, refl, ap, ◌∙◌, ap₂}
use mathlib.Core.Bool.{Bool, false, ◌||◌}
use mathlib.Core.List.{List, [], ◌∷◌, ◌++◌}
use native.Mathlib.Omega.{arith}
use itron_rtos.Common.Tests.{◌==◌, if◌then◌else◌}

module _ {ℓ} {A : Type ℓ} where
  abbrev pub length : List A → ℕ
  length [] = 0
  length (x ∷ xs) = suc (length xs)

  -- The elements at `i`, …, `i + n - 1`.
  unfoldable pub collect : (ℕ → A) → ℕ → ℕ → List A
  collect f i zero = []
  collect f i (suc n) = f i ∷ collect f (i + 1) n

  pub length-collect : (f : ℕ → A) (i n : ℕ) → length (collect f i n) ≡ n
  unfolding collect
  length-collect f i zero = refl
  length-collect f i (suc n) = ap suc (length-collect f (i + 1) n)

  -- Arrays that agree on the range hold the same list.
  pub collect-cong :
      (f g : ℕ → A) (i n : ℕ)
      → ((k : ℕ) → i ≤ k → k < i + n → f k ≡ g k)
      → collect f i n ≡ collect g i n
  unfolding collect
  collect-cong f g i zero h = refl
  collect-cong f g i (suc n) h =
      ap₂ ◌∷◌ (h i (omega arith) (omega arith))
        (collect-cong f g (i + 1) n (λ k lo hi. h k (omega arith) (omega arith)))

  -- The same list at a place one higher.
  pub collect-shift :
      (f g : ℕ → A) (i n : ℕ)
      → ((k : ℕ) → i ≤ k → k < i + n → f (k + 1) ≡ g k)
      → collect f (i + 1) n ≡ collect g i n
  unfolding collect
  collect-shift f g i zero h = refl
  collect-shift f g i (suc n) h =
      ap₂ ◌∷◌ (h i (omega arith) (omega arith))
        (collect-shift f g (i + 1) n (λ k lo hi. h k (omega arith) (omega arith)))

  pub collect-snoc : (f : ℕ → A) (i n : ℕ) → collect f i (suc n) ≡ collect f i n ++ f (i + n) ∷ []
  unfolding collect
  collect-snoc f i zero = ap (λ (k : ℕ). f k ∷ []) (omega arith)
  collect-snoc f i (suc n) =
      ap (◌∷◌ (f i))
        (collect-snoc f (i + 1) n ∙ ap (λ (k : ℕ). collect f (i + 1) n ++ f k ∷ []) (omega arith))

  -- A write behind the range, together with a longer range, appends.
  pub collect-append :
      (f g : ℕ → A) (i n : ℕ) (v : A)
      → ((k : ℕ) → i ≤ k → k < i + n → g k ≡ f k)
      → g (i + n) ≡ v
      → collect g i (suc n) ≡ collect f i n ++ v ∷ []
  collect-append f g i n v h e =
      collect-snoc g i n ∙ ap₂ (λ xs x. xs ++ x ∷ []) (collect-cong g f i n h) e

-- Whether a list of numbers has a number, and the list without its first occurrence.
unfoldable pub elem : ℕ → List ℕ → Bool
elem a [] = false
elem a (x ∷ xs) = x == a || elem a xs

unfoldable pub erase : ℕ → List ℕ → List ℕ
erase a [] = []
erase a (x ∷ xs) = if x == a then xs else x ∷ erase a xs
