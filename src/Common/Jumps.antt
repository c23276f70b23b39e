-- ===== src/Common/Jumps.antt =====
-- What a call that may switch stacks comes to.

-- The call comes back with a result; or the processor stops at a `hlt` loop; or a `ret` goes to an
-- address that holds none of the modelled code; or the fuel of the model has run out.
pub data Control {ℓ} (A : Type ℓ) : Type ℓ where
  comes_back : A → Control A
  halts strays unfinished : Control A

infixl 5 ◌>>=◌
abbrev pub ◌>>=◌ {ℓ κ} : {A : Type ℓ} {B : Type κ} → Control A → (A → Control B) → Control B
comes_back a >>= f = f a
halts >>= f = halts
strays >>= f = strays
unfinished >>= f = unfinished

-- The fuel of the model is enough, and `P` holds of the result where there is one.
abbrev pub AfterReturn {ℓ} : {A : Type ℓ} → (A → Type 0) → Control A → Type 0
AfterReturn P (comes_back a) = P a
AfterReturn P halts = Unit
AfterReturn P strays = Unit
AfterReturn P unfinished = ⊥

pub AfterReturn->>= {ℓ κ} :
    {A : Type ℓ} {B : Type κ} (P : A → Type 0) (Q : B → Type 0) (c : Control A) (f : A → Control B)
    → AfterReturn P c
    → ((a : A) → P a → AfterReturn Q (f a))
    → AfterReturn Q (c >>= f)
AfterReturn->>= P Q (comes_back a) f h k = k a h
AfterReturn->>= P Q halts f h k = tt
AfterReturn->>= P Q strays f h k = tt
AfterReturn->>= P Q unfinished f h k = h
