-- ===== src/GitShim/Trees/Reads.antt =====
-- infra/git-data-shim.mjs: what `readTreeRecursive` lists of a tree that was written.
use ad4m_link_language_tests.Prelude.{
  Text, str, ℕ, suc, true, false, Bool-cases, Option, none, some, List, [], ◌∷◌, ◌++◌, ◌===◌, All,
  ◌≡◌, ◌≢◌, refl, sym, ap, ◌∙◌, subst, ◌⊎◌, inl, inr, arith,
}
use ad4m_link_language_tests.Prelude.Outcome.{Outcome, returned, returned_inj}
use ad4m_link_language_tests.GitShim.{Git, TreeEntry, Entry, FullEntry}
use ad4m_link_language_tests.GitShim.Trees
use ad4m_link_language_tests.GitShim.Trees.Paths.{
  In, In-left, In-right, All-In, All-by_In, SplitOf, split_lem, full_path-append,
}
use ad4m_link_language_tests.GitShim.Trees.Parts.{moved}

-- The library writes a list of entries that it accepts as a tree, of which the entries are read back
-- in an order of its own, and a tree that was written is never lost. Under a name that is safe it
-- accepts a tree that it wrote as an entry.
pub record IsTreeStore {G : Type 0} (git : Git G) (accepts : TreeEntry → Type 0)
    (safe : Text → Type 0) : Type 0 where
  pub writes :
      (tree : List TreeEntry) (g : G)
      → All accepts tree
      → (oid : Text) × (ts : List TreeEntry) × ((git.write_tree tree g).1 ≡ returned oid)
        × (git.read_tree oid (git.write_tree tree g).0 ≡ returned ts)
        × ((t : TreeEntry) → In t tree → In t ts)
        × ((t : TreeEntry) → In t ts → In t tree)
  pub subtrees :
      (tree : List TreeEntry) (g : G) (name oid : Text)
      → (git.write_tree tree g).1 ≡ returned oid
      → safe name
      → accepts (Trees.subtree name oid)
  pub keeps :
      (tree : List TreeEntry) (g : G) (oid : Text) (ts : List TreeEntry)
      → git.read_tree oid g ≡ returned ts
      → git.read_tree oid (git.write_tree tree g).0 ≡ returned ts

-- A full entry of this path and object is listed.
unfoldable pub Has : Text → Text → List FullEntry → Type 0
Has path sha fs = (f : FullEntry) × In f fs × (f.path ≡ path) × (f.sha ≡ sha)

module _ {G : Type 0} (git : Git G) where
  IsTree : TreeEntry → Type 0
  IsTree t = (t.type === str "tree") ≡ true

  -- Every tree of `g` can be read in `g'`.
  unfoldable pub Persists : G → G → Type 0
  Persists g g' =
      (oid : Text) (ts : List TreeEntry)
      → git.read_tree oid g ≡ returned ts
      → git.read_tree oid g' ≡ returned ts

  -- From `g` on the tree is read to the depth `n`, with every one of these entries.
  unfoldable pub Holds : ℕ → Text → List Entry → G → Type 0
  Holds n oid es g =
      (g' : G)
      → Persists g g'
      → (prefix : Text)
      → (fs : List FullEntry) × (Trees.read_tree_recursive git n g' oid prefix ≡ returned fs)
        × ((e : Entry) → In e es → Has (Trees.full_path prefix e.path) e.sha fs)

  pub Persists-trans : (g g' g'' : G) → Persists g g' → Persists g' g'' → Persists g g''
  unfolding Persists
  Persists-trans g g' g'' h k oid ts r = k oid ts (h oid ts r)

  pub Holds-later :
      (n : ℕ) (oid : Text) (es : List Entry) (g g' : G)
      → Persists g g'
      → Holds n oid es g
      → Holds n oid es g'
  unfolding Holds
  Holds-later n oid es g g' p h g'' q = h g'' (Persists-trans g g' g'' p q)

  -- An entry that is no tree, or a tree that can be read to the depth `n`.
  unfoldable pub IsGood : ℕ → G → TreeEntry → Type 0
  IsGood n g t = ((t.type === str "tree") ≡ false) ⊎ ((es : List Entry) × Holds n t.oid es g)

  -- What is read for one entry: nothing below one that is no tree.
  below_of : (Text → Text → Outcome (List FullEntry)) → Text → TreeEntry → Outcome (List FullEntry)
  below_of read prefix t = elim (t.type === str "tree") [
    | true ↦ read t.oid (Trees.full_path prefix t.path)
    | false ↦ returned []
  ]

  below_of-tree :
      (read : Text → Text → Outcome (List FullEntry)) (prefix : Text) (t : TreeEntry)
      → (t.type === str "tree") ≡ true
      → below_of read prefix t ≡ read t.oid (Trees.full_path prefix t.path)
  unfolding below_of
  below_of-tree read prefix t tree =
      ap (λ b. elim b [ true ↦ read t.oid (Trees.full_path prefix t.path) | false ↦ returned [] ])
        tree

  below_of-plain :
      (read : Text → Text → Outcome (List FullEntry)) (prefix : Text) (t : TreeEntry)
      → (t.type === str "tree") ≡ false
      → below_of read prefix t ≡ returned []
  unfolding below_of
  below_of-plain read prefix t plain =
      ap (λ b. elim b [ true ↦ read t.oid (Trees.full_path prefix t.path) | false ↦ returned [] ])
        plain

  module _ (read : Text → Text → Outcome (List FullEntry)) (prefix : Text) where
    -- Of each entry, and of each entry below, there is one in what is read.
    ListsAll : List TreeEntry → List FullEntry → Type 0
    ListsAll ts fs =
        ((t : TreeEntry) → In t ts → Has (Trees.full_path prefix t.path) t.oid fs)
        × ((t : TreeEntry) (below : List FullEntry)
            → In t ts
            → below_of read prefix t ≡ returned below
            → (f : FullEntry) → In f below
            → In f fs)

    ListsAll-cons :
        (t : TreeEntry) (ts : List TreeEntry) (full : FullEntry) (below fs : List FullEntry)
        → full.path ≡ Trees.full_path prefix t.path
        → full.sha ≡ t.oid
        → below_of read prefix t ≡ returned below
        → ListsAll ts fs
        → ListsAll (t ∷ ts) (full ∷ (below ++ fs))
    unfolding ListsAll Has
    ListsAll-cons t ts full below fs at_path at_sha at (has, keeps) = (
      (λ u i. elim i [
        | inl same ↦ (
          full,
          inl refl,
          at_path ∙ ap (λ x. Trees.full_path prefix x.path) (sym same),
          at_sha ∙ ap (λ x. x.oid) (sym same),
        )
        | inr there ↦
            (let (f, here, p, s) = has u there in (f, inr (In-right f below fs here), p, s))
      ]),
      (λ u below' i found f j. elim i [
        | inl same ↦
            (let one : below' ≡ below =
                returned_inj below' below (sym found ∙ ap (below_of read prefix) same ∙ at) in
              inr (In-left f below fs (subst (In f) one j)))
        | inr there ↦ inr (In-right f below fs (keeps u below' there found f j))
      ]),
    )

    read_entries-ListsAll :
        (g : G) (ts : List TreeEntry)
        → All (λ t. (below : List FullEntry) × (below_of read prefix t ≡ returned below)) ts
        → (fs : List FullEntry) × (Trees.read_entries git read prefix ts g ≡ returned fs)
          × ListsAll ts fs
    unfolding Trees.read_entries ListsAll below_of Trees.full_entry
    read_entries-ListsAll g [] h =
        ([], refl, ((λ t i. absurd (ground (arith, i))), λ t below i. absurd (ground (arith, i))))
    read_entries-ListsAll g (t ∷ ts) ((below, at), h) =
        let (fs, runs, lists) = read_entries-ListsAll g ts h in
        let full =
          Trees.full_entry git (t.type === str "tree") (Trees.full_path prefix t.path) t g in
        (
          full ∷ (below ++ fs),
          rw (at, runs) refl,
          ListsAll-cons t ts full below fs refl refl at lists,
        )

  -- Where an entry stands in a tree: as a leaf, or below a subtree that holds it.
  unfoldable pub IsSited : ℕ → G → List TreeEntry → Entry → Option (Text × Text) → Type 0
  IsSited n g tree e none = In (Trees.leaf_of e) tree
  IsSited n g tree e (some (top, rest)) =
      (top ≢ [])
      × (oid : Text) × (es : List Entry) × In (Trees.subtree top oid) tree
      × Holds n oid es g
      × In (moved e rest) es

  IsGood-below :
      (n : ℕ) (g g' : G) (prefix : Text) (t : TreeEntry)
      → IsGood n g t
      → Persists g g'
      → (below : List FullEntry) × (below_of (Trees.read_tree_recursive git n g') prefix t
          ≡ returned below)
  unfolding IsGood Holds
  IsGood-below n g g' prefix t (inl plain) later =
      ([], below_of-plain (Trees.read_tree_recursive git n g') prefix t plain)
  IsGood-below n g g' prefix t (inr (es, holds)) later = elim (Bool-cases (t.type === str "tree")) [
    | inl tree ↦
        (let (fs, runs, _) = holds g' later (Trees.full_path prefix t.path) in
          (fs, below_of-tree (Trees.read_tree_recursive git n g') prefix t tree ∙ runs))
    | inr plain ↦ ([], below_of-plain (Trees.read_tree_recursive git n g') prefix t plain)
  ]

  -- An entry that is sited is listed when the tree is read.
  IsSited-Has :
      (n : ℕ) (g g' : G) (prefix : Text) (tree ts : List TreeEntry) (fs : List FullEntry)
      (e : Entry) (o : Option (Text × Text))
      → SplitOf e.path o
      → Persists g g'
      → ((t : TreeEntry) → In t tree → In t ts)
      → ListsAll (Trees.read_tree_recursive git n g') prefix ts fs
      → IsSited n g tree e o
      → Has (Trees.full_path prefix e.path) e.sha fs
  unfolding IsSited ListsAll Trees.leaf_of Holds Has below_of Trees.subtree ◌===◌
  IsSited-Has n g g' prefix tree ts fs e none split later all (has, keeps) at =
      has (Trees.leaf_of e) (all (Trees.leaf_of e) at)
  IsSited-Has n g g' prefix tree ts fs e (some (top, rest)) (joined, _) later all (has, keeps)
        (name, oid, es, at, holds, below) =
      let (fs2, runs, lists) = holds g' later (Trees.full_path prefix top) in
      let (f, here, p, s) = lists (moved e rest) below in
      (
        f,
        keeps (Trees.subtree top oid) fs2 (all (Trees.subtree top oid) at) runs f here,
        p ∙ full_path-append prefix top rest name ∙ ap (Trees.full_path prefix) (sym joined),
        s,
      )

  pub tree-Holds :
      (n : ℕ) (g : G) (oid : Text) (tree ts : List TreeEntry) (es : List Entry)
      → git.read_tree oid g ≡ returned ts
      → ((t : TreeEntry) → In t tree → In t ts)
      → ((t : TreeEntry) → In t ts → In t tree)
      → All (IsGood n g) tree
      → ((e : Entry) → In e es → IsSited n g tree e (Trees.split_slash e.path))
      → Holds (suc n) oid es g
  unfolding Holds Persists Trees.read_tree_recursive
  tree-Holds n g oid tree ts es reads all only good sited g' later prefix =
      let read = Trees.read_tree_recursive git n g' in
      let (fs, runs, lists) = read_entries-ListsAll read prefix g' ts (
        All-by_In (λ t. (below : List FullEntry) × (below_of read prefix t ≡ returned below)) ts
          (λ t i.
            IsGood-below n g g' prefix t (All-In (IsGood n g) t tree good (only t i)) later)) in
      (
        fs,
        rw (later oid ts reads) runs,
        λ e i.
            IsSited-Has n g g' prefix tree ts fs e (Trees.split_slash e.path) (split_lem e.path)
              later all lists (sited e i),
      )
