-- ===== src/GitShim/Trees/Paths.antt =====
-- infra/git-data-shim.mjs: the paths of the files of a tree, and where lists have their members.
use ad4m_link_language_tests.Prelude.{
  Text, str, ℕ, zero, suc, ◌≤◌, true, false, ◌==◌, Bool-cases, Option, none, some, List, [], ◌∷◌,
  ◌++◌, ◌===◌, if◌then◌else◌, All, ◌≡◌, ◌≢◌, refl, sym, ap, subst, ◌⊎◌, inl, inr, arith,
  append_assoc,
}
use ad4m_link_language_tests.GitShim.{Entry, TreeEntry}
use ad4m_link_language_tests.GitShim.Trees.{split_slash, leaf_of, full_path}

abbrev pub In : {A : Type 0} → A → List A → Type 0
In x [] = true ≡ false
In x (y ∷ ys) = (x ≡ y) ⊎ In x ys

module _ {A : Type 0} where
  pub In-left : (x : A) (xs ys : List A) → In x xs → In x (xs ++ ys)
  In-left x [] ys h = absurd (ground (arith, h))
  In-left x (y ∷ xs) ys (inl here) = inl here
  In-left x (y ∷ xs) ys (inr there) = inr (In-left x xs ys there)

  pub In-right : (x : A) (xs ys : List A) → In x ys → In x (xs ++ ys)
  In-right x [] ys h = h
  In-right x (y ∷ xs) ys h = inr (In-right x xs ys h)

  pub All-In : (P : A → Type 0) (x : A) (xs : List A) → All P xs → In x xs → P x
  All-In P x [] h i = absurd (ground (arith, i))
  All-In P x (y ∷ xs) (p, h) (inl here) = subst P (sym here) p
  All-In P x (y ∷ xs) (p, h) (inr there) = All-In P x xs h there

  pub All-by_In : (P : A → Type 0) (xs : List A) → ((x : A) → In x xs → P x) → All P xs
  All-by_In P [] f = tt
  All-by_In P (x ∷ xs) f = (f x (inl refl), All-by_In P xs (λ y h. f y (inr h)))

unfoldable pub slashes : Text → ℕ
slashes [] = 0
slashes (c ∷ s) = let rest = slashes s in if c == b'/' then suc rest else rest

-- The two sides of the first slash, behind which there is one slash less.
abbrev pub SplitOf : Text → Option (Text × Text) → Type 0
SplitOf p none = Unit
SplitOf p (some (top, rest)) = (p ≡ top ++ b'/' ∷ rest) × (slashes p ≡ suc (slashes rest))

split-later :
    (c : ℕ) (s : Text) (o : Option (Text × Text))
    → (c == b'/') ≡ false
    → SplitOf s o
    → SplitOf (c ∷ s) (elim o [ none ↦ none | some (a, b) ↦ some (c ∷ a, b) ])
unfolding slashes
split-later c s none away h = tt
split-later c s (some (top, rest)) away (joined, fewer) =
    (ap (λ r. c ∷ r) joined, ground (arith, away, fewer))

pub split_lem : (p : Text) → SplitOf p (split_slash p)
unfolding split_slash slashes
split_lem [] = tt
split_lem (c ∷ s) = elim (Bool-cases (c == b'/')) [
  | inl here ↦
      rw here
        (let same : c ≡ b'/' = ground (arith, here) in (ap (λ d. d ∷ s) same, ground (arith, here)))
  | inr away ↦ rw away (split-later c s (split_slash s) away (split_lem s))
]

-- Joining a prefix twice is joining it with the joined paths.
pub full_path-append :
    (prefix top rest : Text)
    → top ≢ []
    → full_path (full_path prefix top) rest ≡ full_path prefix (top ++ b'/' ∷ rest)
unfolding full_path
full_path-append [] [] rest h = absurd (h refl)
full_path-append [] (c ∷ top) rest h = refl
full_path-append (c ∷ prefix) top rest h =
    ap (λ r. c ∷ r) (append_assoc prefix (b'/' ∷ top) (b'/' ∷ rest))

module _ (accepts : TreeEntry → Type 0) (safe : Text → Type 0) where
  -- No part of the path before one of its first `n` slashes is empty, each is safe as the name of a
  -- directory, and the leaf that is left of the entry is accepted.
  unfoldable pub HasNames : ℕ → Entry → Type 0
  HasNames zero e = accepts (leaf_of e)
  HasNames (suc n) e = elim (split_slash e.path) [
    | none ↦ accepts (leaf_of e)
    | some (top, rest) ↦ (top ≢ []) × safe top × HasNames n (record e { path = rest })
  ]

  -- A file whose path has at most `n` slashes, no empty part before one, and parts that are accepted.
  pub record IsFile (n : ℕ) (e : Entry) : Type 0 where
    pub shallow : slashes e.path ≤ n
    pub named : HasNames n e
    pub plain : ((leaf_of e).type === str "tree") ≡ false
