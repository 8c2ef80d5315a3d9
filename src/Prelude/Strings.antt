-- ===== src/Prelude/Strings.antt =====
-- JavaScript strings: lists of UTF-16 code units. Literals are written `str "…"` (ASCII).
use Prim.Native.Nat.{ℕ}
use Prim.Native.Char.{code}
use Prim.Native.String.{String}
use mathlib.Core.Path.{◌≡◌, refl}
use mathlib.Core.Logic.{◌↔◌}
use mathlib.Core.Bool.{Bool, true, false, ◌&&◌, ◌||◌}
use mathlib.Core.List.{List, [], ◌∷◌, ◌++◌}
use native.Mathlib.Omega.{arith}
use mathlib.Core.Option.{Option, none, some}
use ad4m_link_language_tests.Prelude.Tests.{◌==◌, if◌then◌else◌}

abbrev pub Text : Type 0
Text = List ℕ

abbrev pub str : String → Text
str String.[] = []
str (String.◌∷◌ c s) = code c ∷ str s

-- `a === b` on strings.
infix 50 ◌===◌
unfoldable pub ◌===◌ : Text → Text → Bool
[] === [] = true
[] === (y ∷ ys) = false
(x ∷ xs) === [] = false
(x ∷ xs) === (y ∷ ys) = x == y && xs === ys

pub text_iff : (a b : Text) → ((a === b) ≡ true) ↔ (a ≡ b)
unfolding ◌===◌
text_iff [] [] = ground arith
text_iff [] (y ∷ ys) = ground arith
text_iff (x ∷ xs) [] = ground arith
text_iff (x ∷ xs) (y ∷ ys) = ground (arith, text_iff xs ys)

pub text_refl : (a : Text) → (a === a) ≡ true
text_refl a = (text_iff a a).1 refl

-- `s.startsWith(p)`
unfoldable pub starts_with : Text → Text → Bool
starts_with s [] = true
starts_with [] (p ∷ ps) = false
starts_with (x ∷ s) (p ∷ ps) = x == p && starts_with s ps

-- `s.includes(p)`
unfoldable pub includes : Text → Text → Bool
unfolding starts_with
includes [] p = starts_with [] p
includes (x ∷ s) p = starts_with (x ∷ s) p || includes s p

pub starts_with-append : (p s : Text) → starts_with (p ++ s) p ≡ true
unfolding starts_with
starts_with-append [] s = refl
starts_with-append (x ∷ p) s = ground (arith, starts_with-append p s)

pub includes-append : (a p b : Text) → includes (a ++ (p ++ b)) p ≡ true
unfolding includes
includes-append [] [] [] = refl
includes-append [] [] (y ∷ b) = refl
includes-append [] (x ∷ p) b = ground (arith, starts_with-append p b)
includes-append (y ∷ a) p b = ground (arith, includes-append a p b)

pub append_cancel_left : (s a b : Text) → s ++ a ≡ s ++ b → a ≡ b
append_cancel_left [] a b h = h
append_cancel_left (c ∷ s) a b h = append_cancel_left s a b (ground (arith, h))

pub append_cancel_right : (a b : Text) (c : ℕ) → a ++ c ∷ [] ≡ b ++ c ∷ [] → a ≡ b
append_cancel_right [] [] c h = refl
append_cancel_right [] (y ∷ []) c h = ground (arith, h)
append_cancel_right [] (y ∷ (z ∷ b)) c h = ground (arith, h)
append_cancel_right (x ∷ []) [] c h = ground (arith, h)
append_cancel_right (x ∷ (z ∷ a)) [] c h = ground (arith, h)
append_cancel_right (x ∷ a) (y ∷ b) c h =
    let heads : x ≡ y = ground (arith, h) in
    let tails : a ++ c ∷ [] ≡ b ++ c ∷ [] = ground (arith, h) in
    rw (heads, append_cancel_right a b c tails)

-- What stands before the first `=`, if there is one.
upto_equals : Text → Text
upto_equals [] = []
upto_equals (c ∷ s) = let rest = upto_equals s in if c == b'=' then [] else c ∷ rest

-- `a.split("=")[1]`
unfoldable pub second_piece : Text → Option Text
unfolding upto_equals
second_piece [] = none
second_piece (c ∷ s) =
    let piece = upto_equals s in
    let later = second_piece s in if c == b'=' then some piece else later
