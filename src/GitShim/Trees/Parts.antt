-- ===== src/GitShim/Trees/Parts.antt =====
-- infra/git-data-shim.mjs: how `writeNestedTree` parts the entries into leaves and subdirectories.
use ad4m_link_language_tests.Prelude.{
  Text, Dict, str, ℕ, zero, suc, true, false, Bool-cases, Option, none, some, List, [], ◌∷◌, ◌++◌,
  ◌===◌, if◌then◌else◌, lookup, insert, lookup-insert, All, All-append, ◌≡◌, ◌≢◌, refl, ap, ◌∙◌,
  subst, inl, inr, arith, text_iff, text_refl,
}
use ad4m_link_language_tests.GitShim.Trees
use ad4m_link_language_tests.GitShim.{Entry, TreeEntry}
use ad4m_link_language_tests.GitShim.Trees.{
  split_slash, leaf_of, add_entry, partition, Parts, subtree, full_path, write_subdirs,
  write_nested_tree, full_entry, read_entries, read_tree_recursive,
}
use ad4m_link_language_tests.GitShim.Trees.Paths.{
  In, In-left, In-right, SplitOf, split_lem, HasNames, IsFile,
}

abbrev pub moved : Entry → Text → Entry
moved e rest = record e { path = rest }

insert-All :
    (P : Text × List Entry → Type 0) (k : Text) (v : List Entry) (m : Dict (List Entry))
    → P (k, v)
    → All P m
    → All P (insert k v m)
unfolding insert
insert-All P k v [] p h = (p, tt)
insert-All P k v ((j, w) ∷ m) p (q, h) = elim (Bool-cases (j === k)) [
  | inl same ↦ rw same (p, h)
  | inr away ↦ rw away (q, insert-All P k v m p h)
]

lookup-All :
    (P : Text × List Entry → Type 0) (k : Text) (v : List Entry) (m : Dict (List Entry))
    → All P m
    → lookup k m ≡ some v
    → P (k, v)
unfolding lookup
lookup-All P k v [] h e = absurd (ground (arith, e))
lookup-All P k v ((j, w) ∷ m) (q, h) e = elim (Bool-cases (j === k)) [
  | inl same ↦
      (let key : j ≡ k = (text_iff j k).0 same in
        let value : w ≡ v = ground (arith, same, e) in
        subst (λ x. P (k, x)) value (subst (λ x. P (x, w)) key q))
  | inr away ↦ lookup-All P k v m h (ground (arith, away, e))
]

module _ (accepts : TreeEntry → Type 0) (safe : Text → Type 0) where
  -- What is put into a subdirectory at the depth `n`.
  unfoldable pub IsSubdir : ℕ → Text × List Entry → Type 0
  IsSubdir zero d = true ≡ false
  IsSubdir (suc n) d = (d.0 ≢ []) × safe d.0 × All (IsFile accepts safe n) d.1

  unfoldable pub IsParts : ℕ → Parts → Type 0
  IsParts n (leaves, subdirs) =
      All (λ t. (t.type === str "tree") ≡ false) leaves
      × All accepts leaves
      × All (IsSubdir n) subdirs

  -- A file with a slash goes on one level below.
  IsFile-moved :
      (n : ℕ) (e : Entry) (top rest : Text)
      → IsFile accepts safe n e
      → split_slash e.path ≡ some (top, rest)
      → (es : List Entry) → ((m : ℕ) → n ≡ suc m → All (IsFile accepts safe m) es)
      → IsSubdir n (top, es ++ moved e rest ∷ [])
  unfolding IsSubdir HasNames leaf_of
  IsFile-moved zero e top rest file at es h =
      let (joined, fewer) : SplitOf e.path (some (top, rest)) =
        subst (SplitOf e.path) at (split_lem e.path) in
      let low = file.shallow in absurd (omega (arith, fewer, low))
  IsFile-moved (suc n) e top rest file at es h =
      let (joined, fewer) : SplitOf e.path (some (top, rest)) =
        subst (SplitOf e.path) at (split_lem e.path) in
      let low = file.shallow in
      let (name, fine, names) : (top ≢ []) × safe top × HasNames accepts safe n (moved e rest) =
        subst
          (λ o. elim o [
            | none ↦ accepts (leaf_of e)
            | some (a, b) ↦ (a ≢ []) × safe a × HasNames accepts safe n (moved e b)
          ])
          at file.named in
      (
        name,
        fine,
        All-append (IsFile accepts safe n) es (moved e rest ∷ []) (h n refl)
            (record { shallow = omega (arith, fewer, low); named = names; plain = file.plain }, tt),
      )

  -- What stands under a name so far.
  kept-All :
      (n m : ℕ) (top : Text) (o : Option (List Entry))
      → n ≡ suc m
      → ((v : List Entry) → o ≡ some v → IsSubdir n (top, v))
      → All (IsFile accepts safe m) (Trees.or_empty o)
  unfolding Trees.or_empty IsSubdir
  kept-All n m top none same f = tt
  kept-All n m top (some v) same f =
      let (_, _, files) : IsSubdir (suc m) (top, v) = rw same at f v refl in files

  -- A file without a slash is accepted as a leaf.
  IsFile-accepts :
      (n : ℕ) (e : Entry)
      → IsFile accepts safe n e
      → split_slash e.path ≡ none
      → accepts (leaf_of e)
  unfolding HasNames
  IsFile-accepts zero e file at = file.named
  IsFile-accepts (suc n) e file at =
      subst
        (λ o. elim o [
          | none ↦ accepts (leaf_of e)
          | some (a, b) ↦ (a ≢ []) × safe a × HasNames accepts safe n (moved e b)
        ])
        at file.named

  add_entry-IsParts :
      (n : ℕ) (e : Entry) (o : Option (Text × Text)) (parts : Parts)
      → split_slash e.path ≡ o
      → IsFile accepts safe n e
      → IsParts n parts
      → IsParts n (add_entry e o parts)
  unfolding IsParts add_entry
  add_entry-IsParts n e none (leaves, subdirs) at file (plain, fine, below) = (
    All-append (λ t. (t.type === str "tree") ≡ false) leaves (leaf_of e ∷ []) plain
        (file.plain, tt),
    All-append accepts leaves (leaf_of e ∷ []) fine (IsFile-accepts n e file at, tt),
    below,
  )
  add_entry-IsParts n e (some (top, rest)) (leaves, subdirs) at file (plain, fine, below) =
      let before = Trees.or_empty (lookup top subdirs) in
      (
        plain,
        fine,
        insert-All (IsSubdir n) top (before ++ moved e rest ∷ []) subdirs
            (IsFile-moved n e top rest file at before (λ m same.
              kept-All n m top (lookup top subdirs) same
                (λ v found. lookup-All (IsSubdir n) top v subdirs below found)))
            below,
      )

  pub partition-IsParts :
      (n : ℕ) (es : List Entry) (parts : Parts)
      → All (IsFile accepts safe n) es
      → IsParts n parts
      → IsParts n (partition es parts)
  unfolding partition
  partition-IsParts n [] parts files h = h
  partition-IsParts n (e ∷ es) parts (file, files) h =
      partition-IsParts n es (add_entry e (split_slash e.path) parts) files
        (add_entry-IsParts n e (split_slash e.path) parts refl file h)

-- Where an entry is put.
unfoldable pub IsPlaced : Entry → Option (Text × Text) → Parts → Type 0
IsPlaced e none parts = In (leaf_of e) parts.0
IsPlaced e (some (top, rest)) parts =
    (es : List Entry) × (lookup top parts.1 ≡ some es) × In (moved e rest) es

add_entry-IsPlaced :
    (e : Entry) (o : Option (Text × Text)) (parts : Parts) → IsPlaced e o (add_entry e o parts)
unfolding IsPlaced add_entry
add_entry-IsPlaced e none (leaves, subdirs) =
    In-right (leaf_of e) leaves (leaf_of e ∷ []) (inl refl)
add_entry-IsPlaced e (some (top, rest)) (leaves, subdirs) =
    let before = Trees.or_empty (lookup top subdirs) in
    let after = before ++ moved e rest ∷ [] in
    (
      after,
      lookup-insert top top after subdirs
          ∙ ap (λ b. if b then some after else lookup top subdirs) (text_refl top),
      In-right (moved e rest) before (moved e rest ∷ []) (inl refl),
    )

-- Another entry leaves it where it is.
add_entry-still :
    (e f : Entry) (o p : Option (Text × Text)) (parts : Parts)
    → IsPlaced e o parts
    → IsPlaced e o (add_entry f p parts)
unfolding IsPlaced add_entry Trees.or_empty
add_entry-still e f none none (leaves, subdirs) h = In-left (leaf_of e) leaves (leaf_of f ∷ []) h
add_entry-still e f none (some (name, below)) (leaves, subdirs) h = h
add_entry-still e f (some (top, rest)) none (leaves, subdirs) h = h
add_entry-still e f (some (top, rest)) (some (name, below)) (leaves, subdirs) (es, found, here) =
    let after = Trees.or_empty (lookup name subdirs) ++ moved f below ∷ [] in
    let looked = lookup-insert name top after subdirs in
    elim (Bool-cases (name === top)) [
      | inl same ↦
          (let key : name ≡ top = (text_iff name top).0 same in
            let grown : after ≡ es ++ moved f below ∷ [] = rw (key, found) refl in
            (
              es ++ moved f below ∷ [],
              looked ∙ ap (λ b. if b then some after else lookup top subdirs) same ∙ ap some grown,
              In-left (moved e rest) es (moved f below ∷ []) here,
            ))
      | inr away ↦
          (es, looked ∙ ap (λ b. if b then some after else lookup top subdirs) away ∙ found, here)
    ]

partition-still :
    (e : Entry) (o : Option (Text × Text)) (es : List Entry) (parts : Parts)
    → IsPlaced e o parts
    → IsPlaced e o (partition es parts)
unfolding partition
partition-still e o [] parts h = h
partition-still e o (f ∷ es) parts h =
    partition-still e o es (add_entry f (split_slash f.path) parts)
      (add_entry-still e f o (split_slash f.path) parts h)

pub partition-IsPlaced :
    (e : Entry) (es : List Entry) (parts : Parts)
    → In e es
    → IsPlaced e (split_slash e.path) (partition es parts)
unfolding partition
partition-IsPlaced e [] parts h = absurd (ground (arith, h))
partition-IsPlaced e (f ∷ es) parts (inl here) =
    partition-still e (split_slash e.path) es (add_entry f (split_slash f.path) parts) (
      subst (λ x. IsPlaced e (split_slash e.path) (add_entry x (split_slash x.path) parts)) here
        (add_entry-IsPlaced e (split_slash e.path) parts))
partition-IsPlaced e (f ∷ es) parts (inr there) =
    partition-IsPlaced e es (add_entry f (split_slash f.path) parts) there
