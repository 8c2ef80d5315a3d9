-- ===== src/Rpc/Sorting.antt =====
-- `[...xs].sort((a, b) => a - b)`, as the sorting of numbers that src/client.ts relies on.
use ad4m_link_language_tests.Prelude.{
  ℕ, zero, suc, ◌≤◌, ◌<◌, ◌≡◌, refl, some, List, [], ◌∷◌, arith, leb, length, get_elem?, All,
  if◌then◌else◌, Bool-cases, inl, inr,
}

insert_sorted : ℕ → List ℕ → List ℕ
insert_sorted x [] = x ∷ []
insert_sorted x (y ∷ ys) = let rest = insert_sorted x ys in if leb x y then x ∷ y ∷ ys else y ∷ rest

-- `[...xs].sort((a, b) => a - b)`
unfoldable pub sort : List ℕ → List ℕ
unfolding insert_sorted
sort [] = []
sort (x ∷ xs) = insert_sorted x (sort xs)

abbrev pub IsSorted : List ℕ → Type 0
IsSorted [] = Unit
IsSorted (x ∷ xs) = All (λ y. x ≤ y) xs × IsSorted xs

pub All-mono : (x y : ℕ) (xs : List ℕ) → x ≤ y → All (λ z. y ≤ z) xs → All (λ z. x ≤ z) xs
All-mono x y [] le h = tt
All-mono x y (z ∷ xs) le (p, h) = (omega arith, All-mono x y xs le h)

insert_sorted-All :
    (lo x : ℕ) (xs : List ℕ)
    → lo ≤ x
    → All (λ y. lo ≤ y) xs
    → All (λ y. lo ≤ y) (insert_sorted x xs)
unfolding insert_sorted
insert_sorted-All lo x [] le h = (le, tt)
insert_sorted-All lo x (y ∷ ys) le (p, h) = ground (arith, insert_sorted-All lo x ys le h)

insert_sorted-IsSorted : (x : ℕ) (xs : List ℕ) → IsSorted xs → IsSorted (insert_sorted x xs)
unfolding insert_sorted
insert_sorted-IsSorted x [] h = (tt, tt)
insert_sorted-IsSorted x (y ∷ ys) (p, h) =
    ground (arith, insert_sorted-IsSorted x ys h, insert_sorted-All y x ys, All-mono x y ys)

pub sort-IsSorted : (xs : List ℕ) → IsSorted (sort xs)
unfolding sort
sort-IsSorted [] = tt
sort-IsSorted (x ∷ xs) = insert_sorted-IsSorted x (sort xs) (sort-IsSorted xs)

length-insert_sorted : (x : ℕ) (xs : List ℕ) → length (insert_sorted x xs) ≡ suc (length xs)
unfolding insert_sorted
length-insert_sorted x [] = refl
length-insert_sorted x (y ∷ ys) = ground (arith, length-insert_sorted x ys)

pub length-sort : (xs : List ℕ) → length (sort xs) ≡ length xs
unfolding sort
length-sort [] = refl
length-sort (x ∷ xs) = omega (arith, length-insert_sorted x (sort xs), length-sort xs)

-- An index below the length reads an element, and a later index a larger one.
abbrev pub In : ℕ → List ℕ → Type 0
In v xs = (i : ℕ) × (get_elem? xs i ≡ some v)

insert_sorted-In_self : (x : ℕ) (xs : List ℕ) → In x (insert_sorted x xs)
unfolding insert_sorted
insert_sorted-In_self x [] = (0, refl)
insert_sorted-In_self x (y ∷ ys) = elim (Bool-cases (leb x y)) [
  | inl first ↦ rw first (0, refl)
  | inr later ↦ let (i, e) = insert_sorted-In_self x ys in rw later (suc i, e)
]

insert_sorted-In : (x v : ℕ) (xs : List ℕ) → In v xs → In v (insert_sorted x xs)
unfolding insert_sorted
insert_sorted-In x v [] (i, e) = absurd (cc)
insert_sorted-In x v (y ∷ ys) (i, e) = elim (Bool-cases (leb x y)) [
  | inl first ↦ rw first (suc i, e)
  | inr later ↦ rw later (shift (insert_sorted-In x v ys) i e)
]
  where
    shift :
        (In v ys → In v (insert_sorted x ys))
        → (i : ℕ) → get_elem? (y ∷ ys) i ≡ some v
        → In v (y ∷ insert_sorted x ys)
    shift ih zero e = (0, e)
    shift ih (suc i) e = let (j, f) = ih (i, e) in (suc j, f)

pub sort-In : (v : ℕ) (xs : List ℕ) → In v xs → In v (sort xs)
unfolding sort
sort-In v [] (i, e) = absurd (cc)
sort-In v (x ∷ xs) (zero, e) =
    let same : x ≡ v = ground arith in rw (← same) (insert_sorted-In_self x (sort xs))
sort-In v (x ∷ xs) (suc i, e) = insert_sorted-In x v (sort xs) (sort-In v xs (i, e))

pub In-lt : (v : ℕ) (xs : List ℕ) (i : ℕ) → get_elem? xs i ≡ some v → i < length xs
In-lt v [] i e = absurd (cc)
In-lt v (x ∷ xs) zero e = omega arith
In-lt v (x ∷ xs) (suc i) e = omega (arith, In-lt v xs i e)
