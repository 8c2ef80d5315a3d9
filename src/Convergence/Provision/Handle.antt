-- ===== src/Convergence/Provision/Handle.antt =====
-- src/convergence/provision.ts: the names derived from a neighbourhood's id.
use ad4m_link_language_tests.Prelude.{
  Text, str, ℕ, zero, suc, ◌≤◌, true, ◌&&◌, ◌||◌, [], ◌∷◌, leb, All, All-append, length,
  length-append, filter, map, arith, ◌≡◌, refl, Bool-cases, inl, inr,
}
use ad4m_link_language_tests.Convergence.Provision.{
  is_alnum, to_lower, take, safe_localpart, handle_front,
}

-- `[a-z0-9]`: what Matrix localparts and AT Proto handles both take.
pub IsSafe : ℕ → Type 0
IsSafe c = (leb b'a' c && leb c b'z' || leb b'0' c && leb c b'9') ≡ true

to_lower-IsSafe : (c : ℕ) → is_alnum c ≡ true → IsSafe (to_lower c)
unfolding IsSafe is_alnum to_lower
to_lower-IsSafe c h = ground arith

filter-IsSafe : (s : Text) → All IsSafe (map to_lower (filter is_alnum s))
filter-IsSafe [] = tt
filter-IsSafe (c ∷ s) = elim (Bool-cases (is_alnum c)) [
  | inl kept ↦ rw kept (to_lower-IsSafe c kept, filter-IsSafe s)
  | inr dropped ↦ rw dropped (filter-IsSafe s)
]

take-IsSafe : (n : ℕ) (s : Text) → All IsSafe s → All IsSafe (take n s)
unfolding take
take-IsSafe zero s h = tt
take-IsSafe (suc n) [] h = tt
take-IsSafe (suc n) (c ∷ s) (p, h) = (p, take-IsSafe n s h)

length-take : (n : ℕ) (s : Text) → length (take n s) ≤ n
unfolding take
length-take zero s = omega arith
length-take (suc n) [] = omega arith
length-take (suc n) (c ∷ s) = omega (arith, length-take n s)

safe_localpart-IsSafe : (id : Text) → All IsSafe (safe_localpart id)
unfolding safe_localpart
safe_localpart-IsSafe id = take-IsSafe 24 _ (filter-IsSafe id)

-- Whatever the neighbourhood's id is: the local part is at most 24 characters long, the front label
-- of the handle has the 3 to 18 characters that the PDS allows, and all are lower-case ASCII letters
-- or digits.
pub handle_front-fits :
    (id : Text)
    → (length (safe_localpart id) ≤ 24)
      × All IsSafe (safe_localpart id)
      × (3 ≤ length (handle_front id))
      × (length (handle_front id) ≤ 18)
      × All IsSafe (handle_front id)
unfolding handle_front IsSafe
handle_front-fits id = (
  unfold safe_localpart in length-take 24 _,
  safe_localpart-IsSafe id,
  omega (arith, length-append (str "ad4m") (take 14 (safe_localpart id))),
  omega (
    arith,
    length-append (str "ad4m") (take 14 (safe_localpart id)),
    length-take 14 (safe_localpart id),
  ),
  All-append IsSafe (str "ad4m") _ (refl, (refl, (refl, (refl, tt))))
      (take-IsSafe 14 _ (safe_localpart-IsSafe id)),
)
