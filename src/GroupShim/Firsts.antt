-- ===== src/GroupShim/Firsts.antt =====
-- Entries of a list that are the first with their key: what a map that keeps old entries ends as.
use ad4m_link_language_tests.Prelude.{
  Text, Dict, ◌≡◌, ◌≢◌, refl, ap, ◌∙◌, Bool, not, none, some, inl, inr, [], ◌∷◌, ◌++◌, ◌===◌, map,
  filter, arith, text_iff, text_refl, append-nil, lookup, insert, All, Bool-cases, Option-cases,
}

module _ {V : Type 0} where
  other_than : Text → Text × V → Bool
  unfolding ◌===◌
  other_than i e = not (e.0 === i)

  -- The entries with which a key stands for the first time, in their order.
  unfoldable pub firsts : Dict V → Dict V
  unfolding other_than
  firsts [] = []
  firsts ((i, v) ∷ es) = (i, v) ∷ filter (other_than i) (firsts es)

  filter-append :
      (i : Text) (xs ys : Dict V)
      → filter (other_than i) (xs ++ ys) ≡ filter (other_than i) xs ++ filter (other_than i) ys
  filter-append i [] ys = refl
  filter-append i ((j, v) ∷ xs) ys = ground (arith, filter-append i xs ys)

  lookup-filter :
      (i j : Text) (es : Dict V) → i ≢ j → lookup i (filter (other_than j) es) ≡ lookup i es
  unfolding lookup other_than
  lookup-filter i j [] h = refl
  lookup-filter i j ((k, v) ∷ es) h =
      ground (arith, lookup-filter i j es h, text_iff k j, text_iff k i, h)

  pub lookup-firsts : (i : Text) (es : Dict V) → lookup i (firsts es) ≡ lookup i es
  unfolding lookup firsts
  lookup-firsts i [] = refl
  lookup-firsts i ((j, v) ∷ es) = elim (Bool-cases (j === i)) [
    | inl e ↦ ground (arith, e)
    | inr e ↦ ground (
      arith,
      e,
      lookup-filter i j (firsts es) (λ q. ground (arith, e, text_iff j i, q)),
      lookup-firsts i es,
    )
  ]

  filter-snoc :
      (i j : Text) (v : V) (es : Dict V)
      → j ≢ i
      → filter (other_than j) (es ++ (i, v) ∷ []) ≡ filter (other_than j) es ++ (i, v) ∷ []
  unfolding other_than
  filter-snoc i j v es h = filter-append j es ((i, v) ∷ []) ∙ ground (arith, h, text_iff i j)

  filter-snoc_same :
      (i : Text) (v : V) (es : Dict V)
      → filter (other_than i) (es ++ (i, v) ∷ []) ≡ filter (other_than i) es
  unfolding other_than
  filter-snoc_same i v es =
      filter-append i es ((i, v) ∷ [])
      ∙ ground (arith, text_refl i, append-nil (filter (other_than i) es))

  pub firsts-new :
      (i : Text) (v : V) (es : Dict V)
      → lookup i es ≡ none
      → firsts (es ++ (i, v) ∷ []) ≡ firsts es ++ (i, v) ∷ []
  unfolding firsts lookup
  firsts-new i v [] h = refl
  firsts-new i v ((j, w) ∷ es) h = elim (Bool-cases (j === i)) [
    | inl e ↦ absurd (ground (arith, e, h))
    | inr e ↦
        (let rest : lookup i es ≡ none = ground (arith, e, h) in
          ap (λ xs. (j, w) ∷ xs)
            (ap (filter (other_than j)) (firsts-new i v es rest)
              ∙ filter-snoc i j v (firsts es) (λ q. ground (arith, e, text_iff j i, q))))
  ]

  pub firsts-old :
      (i : Text) (v w : V) (es : Dict V)
      → lookup i es ≡ some w
      → firsts (es ++ (i, v) ∷ []) ≡ firsts es
  unfolding firsts lookup
  firsts-old i v w [] h = absurd (ground (arith, h))
  firsts-old i v w ((j, x) ∷ es) h = elim (Option-cases (lookup i es)) [
    | inr (y, e) ↦ ap (λ xs. (j, x) ∷ filter (other_than j) xs) (firsts-old i v y es e)
    | inl e ↦
        (let same : i ≡ j = ground (arith, e, h, text_iff j i) in
          ap (λ xs. (j, x) ∷ xs)
            (ap (filter (other_than j)) (firsts-new i v es e)
              ∙ rw same (filter-snoc_same j v (firsts es))))
  ]

  -- Keys that stand once: no later entry has the key of an earlier one.
  unfoldable pub IsUnique : Dict V → Type 0
  IsUnique [] = Unit
  IsUnique ((i, v) ∷ es) = All (λ e. i ≢ e.0) es × IsUnique es

  filter-All :
      (i k : Text) (es : Dict V)
      → All (λ e. k ≢ e.0) es
      → All (λ e. k ≢ e.0) (filter (other_than i) es)
  filter-All i k [] h = tt
  filter-All i k (e ∷ es) (p, h) = elim (Bool-cases (other_than i e)) [
    | inl b ↦ rw b (p, filter-All i k es h)
    | inr b ↦ rw b (filter-All i k es h)
  ]

  filter-IsUnique : (i : Text) (es : Dict V) → IsUnique es → IsUnique (filter (other_than i) es)
  unfolding IsUnique
  filter-IsUnique i [] h = tt
  filter-IsUnique i ((j, v) ∷ es) (p, h) = elim (Bool-cases (other_than i (j, v))) [
    | inl b ↦ rw b (filter-All i j es p, filter-IsUnique i es h)
    | inr b ↦ rw b (filter-IsUnique i es h)
  ]

  filter_away : (i : Text) (es : Dict V) → All (λ e. i ≢ e.0) (filter (other_than i) es)
  unfolding other_than
  filter_away i [] = tt
  filter_away i ((j, v) ∷ es) = elim (Bool-cases (j === i)) [
    | inl b ↦ rw b (filter_away i es)
    | inr b ↦ rw b (λ q. ground (arith, b, text_iff j i, q), filter_away i es)
  ]

  pub firsts-IsUnique : (es : Dict V) → IsUnique (firsts es)
  unfolding IsUnique firsts
  firsts-IsUnique [] = tt
  firsts-IsUnique ((i, v) ∷ es) =
      (filter_away i (firsts es), filter-IsUnique i (firsts es) (firsts-IsUnique es))

  pub insert-new :
      (i : Text) (v : V) (es : Dict V) → lookup i es ≡ none → insert i v es ≡ es ++ (i, v) ∷ []
  unfolding lookup insert
  insert-new i v [] h = refl
  insert-new i v ((j, w) ∷ es) h = ground (arith, h, insert-new i v es)

  pub map-snoc :
      {B : Type 0} (f : Text × V → B) (es : Dict V) (e : Text × V)
      → map f (es ++ e ∷ []) ≡ map f es ++ f e ∷ []
  map-snoc f [] e = refl
  map-snoc f (d ∷ es) e = ap (λ xs. f d ∷ xs) (map-snoc f es e)
