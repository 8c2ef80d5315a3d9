-- ===== src/Prelude/Sets.antt =====
-- A JavaScript `Set` of strings: its members in insertion order.
use mathlib.Core.Path.{◌≡◌, refl}
use mathlib.Core.Logic.{◌≢◌}
use mathlib.Core.Bool.{Bool, true, false}
use mathlib.Core.List.{List, [], ◌∷◌, ◌++◌}
use native.Mathlib.Omega.{arith}
use ad4m_link_language_tests.Prelude.Tests.{if◌then◌else◌}
use ad4m_link_language_tests.Prelude.Lists.{All}
use ad4m_link_language_tests.Prelude.Strings.{Text, ◌===◌, text_iff, text_refl}

-- `set.has(x)`
unfoldable pub contains : Text → List Text → Bool
contains x [] = false
contains x (y ∷ ys) = let rest = contains x ys in if y === x then true else rest

-- `set.add(x)`
unfoldable pub add : Text → List Text → List Text
unfolding contains
add x set = if contains x set then set else set ++ x ∷ []

-- `new Set(xs)`
unfoldable pub set_from : List Text → List Text → List Text
unfolding add
set_from set [] = set
set_from set (x ∷ xs) = set_from (add x set) xs

contains-append :
    (x : Text) (xs ys : List Text) → contains x xs ≡ true → contains x (xs ++ ys) ≡ true
unfolding contains
contains-append x [] ys h = cc
contains-append x (y ∷ xs) ys h = ground (arith, contains-append x xs ys)

contains-snoc : (x : Text) (xs : List Text) → contains x (xs ++ x ∷ []) ≡ true
unfolding contains
contains-snoc x [] = ground (arith, text_refl x)
contains-snoc x (y ∷ xs) = ground (arith, contains-snoc x xs)

pub contains-add_new : (x : Text) (set : List Text) → contains x (add x set) ≡ true
unfolding add
contains-add_new x set = ground (arith, contains-snoc x set)

pub contains-add_old :
    (x y : Text) (set : List Text) → contains y set ≡ true → contains y (add x set) ≡ true
unfolding add
contains-add_old x y set h = ground (arith, contains-append y set (x ∷ []))

contains_away : (x : Text) (set : List Text) → All (λ y. y ≢ x) set → contains x set ≡ false
unfolding contains
contains_away x [] h = refl
contains_away x (y ∷ set) (p, h) = ground (arith, contains_away x set h, text_iff y x, p)

-- A member that is new stands at the end.
pub add_new : (x : Text) (set : List Text) → All (λ y. y ≢ x) set → add x set ≡ set ++ x ∷ []
unfolding add contains
add_new x set h = rw (contains_away x set h) refl
