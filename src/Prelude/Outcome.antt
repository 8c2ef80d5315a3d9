-- ===== src/Prelude/Outcome.antt =====
-- What an awaited call ends in: a value, or an exception with its message.
use mathlib.Core.Path.{◌≡◌, refl, ap}
use mathlib.Core.Logic.{◌⊎◌, inl, inr}
use native.Mathlib.Omega.{arith}
use ad4m_link_language_tests.Prelude.Strings.{Text}

pub data Outcome (A : Type 0) : Type 0 where
  returned : A → Outcome A
  threw : Text → Outcome A

infixl 5 ◌>>=◌
unfoldable pub ◌>>=◌ : {A B : Type 0} → Outcome A → (A → Outcome B) → Outcome B
◌>>=◌ (returned a) f = f a
◌>>=◌ (threw e) f = threw e

-- The value, if there is one, has the property.
unfoldable pub Yields : {A : Type 0} → (A → Type 0) → Outcome A → Type 0
Yields P (returned a) = P a
Yields P (threw e) = Unit

pub Yields-bind :
    {A B : Type 0} (P : B → Type 0) (o : Outcome A) (f : A → Outcome B)
    → ((a : A) → Yields P (f a))
    → Yields P (o >>= f)
unfolding Yields ◌>>=◌
Yields-bind P (returned a) f h = h a
Yields-bind P (threw e) f h = tt

pub Outcome-cases :
    {A : Type 0} (o : Outcome A) → ((a : A) × (o ≡ returned a)) ⊎ ((e : Text) × (o ≡ threw e))
Outcome-cases (returned a) = inl (a, refl)
Outcome-cases (threw e) = inr (e, refl)

-- A chain that ends in a value went through a value of its first part.
pub bind-returned :
    {A B : Type 0} (o : Outcome A) (f : A → Outcome B) (b : B)
    → o >>= f ≡ returned b
    → (a : A) × (o ≡ returned a) × (f a ≡ returned b)
unfolding ◌>>=◌
bind-returned (returned a) f b h = (a, refl, h)
bind-returned (threw e) f b h = absurd (ground (arith, h))

or_else : {A : Type 0} → A → Outcome A → A
or_else a (returned b) = b
or_else a (threw e) = a

pub returned_inj : {A : Type 0} (a b : A) → returned a ≡ returned b → a ≡ b
unfolding or_else
returned_inj a b h = ap (or_else a) h
