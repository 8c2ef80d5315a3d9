-- ===== src/GitShim/Trees/RoundTrip.antt =====
-- infra/git-data-shim.mjs: what `writeNestedTree` writes, `readTreeRecursive` reads back.
use ad4m_link_language_tests.Prelude.{
  Text, Dict, str, ℕ, zero, suc, false, Bool-cases, Option, none, some, List, [], ◌∷◌, ◌++◌, ◌===◌,
  All, All-append, All-mono, ◌≡◌, ◌≢◌, refl, sym, ap, ◌∙◌, subst, inl, inr, arith, lookup, text_iff,
}
use ad4m_link_language_tests.Prelude.Outcome.{Outcome, returned, threw, returned_inj}
use ad4m_link_language_tests.GitShim.{Git, TreeEntry, Entry, FullEntry, and_then}
use ad4m_link_language_tests.GitShim.Trees
use ad4m_link_language_tests.GitShim.Trees.Paths.{In, In-left, In-right, All-In, All-by_In, IsFile}
use ad4m_link_language_tests.GitShim.Trees.Parts.{
  IsSubdir, IsParts, partition-IsParts, IsPlaced, partition-IsPlaced,
}
use ad4m_link_language_tests.GitShim.Trees.Reads.{
  IsTreeStore, Has, Persists, Holds, Persists-trans, Holds-later, IsGood, IsSited, tree-Holds,
}

module _ {G : Type 0} (git : Git G) (accepts : TreeEntry → Type 0) (safe : Text → Type 0) where
  and_then-returned :
      {A B : Type 0} (p : G × Outcome A) (f : A → G → G × Outcome B) (a : A)
      → p.1 ≡ returned a
      → and_then p f ≡ f a p.0
  unfolding and_then
  and_then-returned (g, returned b) f a h = ap (λ x. f x g) (returned_inj b a h)
  and_then-returned (g, threw e) f a h = absurd (ground (arith, h))

  -- What a tree that is written at the depth `n` promises.
  IsWritten : ℕ → List Entry → G → G × Outcome Text → Type 0
  IsWritten n es g p =
      (oid : Text) × (p.1 ≡ returned oid)
      × Persists git g p.0
      × Holds git n oid es p.0
      × ((name : Text) → safe name → accepts (Trees.subtree name oid))

  -- The subtrees are written behind the leaves, and every one holds its entries.
  Behind : ℕ → Dict (List Entry) → List TreeEntry → G → G × Outcome (List TreeEntry) → Type 0
  Behind n subdirs tree g p =
      (tree' : List TreeEntry) × (p.1 ≡ returned tree')
      × Persists git g p.0
      × ((t : TreeEntry) → In t tree → In t tree')
      × All (IsGood git n p.0) tree'
      × All accepts tree'
      × ((name : Text) (es : List Entry)
          → In (name, es) subdirs
          → (oid : Text) × In (Trees.subtree name oid) tree' × Holds git n oid es p.0)

  IsGood-later :
      (n : ℕ) (g g' : G)
      → Persists git g g'
      → (t : TreeEntry) → IsGood git n g t
      → IsGood git n g' t
  unfolding IsGood
  IsGood-later n g g' p t (inl plain) = inl plain
  IsGood-later n g g' p t (inr (es, holds)) = inr (es, Holds-later git n t.oid es g g' p holds)

  Behind-cons :
      (n : ℕ) (name : Text) (es : List Entry) (subdirs : Dict (List Entry)) (tree : List TreeEntry)
      (g g1 : G) (oid : Text) (p : G × Outcome (List TreeEntry))
      → Persists git g g1
      → Holds git n oid es g1
      → Behind n subdirs (tree ++ Trees.subtree name oid ∷ []) g1 p
      → Behind n ((name, es) ∷ subdirs) tree g p
  unfolding Behind
  Behind-cons n name es subdirs tree g g1 oid p first holds
        (tree', ret, later, all, good, fine, each) =
      (
        tree',
        ret,
        Persists-trans git g g1 p.0 first later,
        (λ t i. all t (In-left t tree (Trees.subtree name oid ∷ []) i)),
        good,
        fine,
        (λ name' es' i. elim i [
          | inl same ↦
              subst (λ d. (oid : Text) × In (Trees.subtree d.0 oid) tree' × Holds git n oid d.1 p.0)
                (sym same)
                (
                  oid,
                  all (Trees.subtree name oid) (
                      In-right (Trees.subtree name oid) tree (Trees.subtree name oid ∷ [])
                        (inl refl)),
                  Holds-later git n oid es g1 p.0 later holds,
                )
          | inr there ↦ each name' es' there
        ]),
      )

  Behind-nil :
      (n : ℕ) (tree : List TreeEntry) (g : G)
      → All (IsGood git n g) tree
      → All accepts tree
      → Behind n [] tree g (g, returned tree)
  unfolding Behind Persists
  Behind-nil n tree g good fine =
      (tree, refl, (λ oid ts r. r), (λ t i. i), good, fine, λ name es i. absurd (ground (arith, i)))

  write_subdirs-Behind :
      (n : ℕ) (subdirs : Dict (List Entry)) (tree : List TreeEntry) (g : G)
      → ((d : Text × List Entry)
          → In d subdirs
          → (g : G) → IsWritten n d.1 g (Trees.write_nested_tree git n d.1 g))
      → ((d : Text × List Entry) → In d subdirs → safe d.0)
      → All (IsGood git n g) tree
      → All accepts tree
      → Behind n subdirs tree g
          (Trees.write_subdirs git (Trees.write_nested_tree git n) subdirs tree g)
  unfolding Trees.write_subdirs IsWritten IsGood
  write_subdirs-Behind n [] tree g writes safes good fine = Behind-nil n tree g good fine
  write_subdirs-Behind n ((name, es) ∷ subdirs) tree g writes safes good fine =
      let write = Trees.write_nested_tree git n in
      let (oid, ret, first, holds, named) = writes (name, es) (inl refl) g in
      let g1 = (write es g).0 in
      let grown = tree ++ Trees.subtree name oid ∷ [] in
      subst (Behind n ((name, es) ∷ subdirs) tree g)
        (sym (
          and_then-returned (write es g)
            (λ oid g'.
              Trees.write_subdirs git write subdirs (tree ++ Trees.subtree name oid ∷ []) g')
            oid ret))
        (Behind-cons n name es subdirs tree g g1 oid
          (Trees.write_subdirs git write subdirs grown g1) first holds
          (write_subdirs-Behind n subdirs grown g1 (λ d i. writes d (inr i))
            (λ d i. safes d (inr i))
            (All-append (IsGood git n g1) tree (Trees.subtree name oid ∷ [])
              (All-mono (IsGood git n g) (IsGood git n g1) tree (IsGood-later n g g1 first) good)
              (inr (es, holds), tt))
            (All-append accepts tree (Trees.subtree name oid ∷ []) fine
              (named name (safes (name, es) (inl refl)), tt))))

  IsSubdir-named :
      (n : ℕ) (d : Text × List Entry) → IsSubdir accepts safe n d → (d.0 ≢ []) × safe d.0
  unfolding IsSubdir
  IsSubdir-named zero d h = absurd (ground (arith, h))
  IsSubdir-named (suc n) d (name, fine, files) = (name, fine)

  lookup-In :
      (k : Text) (v : List Entry) (m : Dict (List Entry)) → lookup k m ≡ some v → In (k, v) m
  unfolding lookup
  lookup-In k v [] h = absurd (ground (arith, h))
  lookup-In k v ((j, w) ∷ m) h = elim (Bool-cases (j === k)) [
    | inl same ↦
        (let key : k ≡ j = sym ((text_iff j k).0 same) in
          let value : v ≡ w = ground (arith, same, h) in
          inl (ap (λ x. (x, v)) key ∙ ap (λ x. (j, x)) value))
    | inr away ↦ inr (lookup-In k v m (ground (arith, away, h)))
  ]

  -- An entry that was put somewhere stands there in the tree that is written.
  IsPlaced-IsSited :
      (n : ℕ) (g : G) (tree : List TreeEntry) (e : Entry) (o : Option (Text × Text))
      (parts : Trees.Parts)
      → All (IsSubdir accepts safe n) parts.1
      → ((t : TreeEntry) → In t parts.0 → In t tree)
      → ((name : Text) (es : List Entry)
          → In (name, es) parts.1
          → (oid : Text) × In (Trees.subtree name oid) tree × Holds git n oid es g)
      → IsPlaced e o parts
      → IsSited git n g tree e o
  unfolding IsPlaced IsSited
  IsPlaced-IsSited n g tree e none parts below all each h = all (Trees.leaf_of e) h
  IsPlaced-IsSited n g tree e (some (top, rest)) parts below all each (es, found, here) =
      let there = lookup-In top es parts.1 found in
      let (oid, at, holds) = each top es there in
      (
        (IsSubdir-named n (top, es)
            (All-In (IsSubdir accepts safe n) (top, es) parts.1 below there)).0,
        oid,
        es,
        at,
        holds,
        here,
      )

  module _ (laws : IsTreeStore git accepts safe) where
    write_level :
        (n : ℕ) (es : List Entry) (g : G)
        → All (IsFile accepts safe n) es
        → ((d : Text × List Entry)
            → IsSubdir accepts safe n d
            → (g : G) → IsWritten n d.1 g (Trees.write_nested_tree git n d.1 g))
        → IsWritten (suc n) es g (Trees.write_nested_tree git (suc n) es g)
    unfolding Trees.write_nested_tree IsParts Behind IsWritten Persists IsGood
    write_level n es g files ih =
        let parts = Trees.partition es ([], []) in
        let (plain, fine, below) =
          partition-IsParts accepts safe n es ([], []) files (tt, tt, tt) in
        let subtrees = Trees.write_subdirs git (Trees.write_nested_tree git n) parts.1 parts.0 g in
        let (tree, ret, first, all, good, ok, each) =
          write_subdirs-Behind n parts.1 parts.0 g
            (λ d i. ih d (All-In (IsSubdir accepts safe n) d parts.1 below i))
            (λ d i. (IsSubdir-named n d (All-In (IsSubdir accepts safe n) d parts.1 below i)).1)
            (All-mono (λ t. (t.type === str "tree") ≡ false) (IsGood git n g) parts.0 (λ t h. inl h)
              plain)
            fine in
        let g1 = subtrees.0 in
        let g2 = (git.write_tree tree g1).0 in
        let (oid, ts, wrote, reads, every, only) = laws.writes tree g1 ok in
        let second : Persists git g1 g2 = laws.keeps tree g1 in
        subst (IsWritten (suc n) es g)
          (sym (and_then-returned subtrees (λ tree g'. git.write_tree tree g') tree ret))
          (
            oid,
            wrote,
            Persists-trans git g g1 g2 first second,
            tree-Holds git n g2 oid tree ts es reads every only
                (All-mono (IsGood git n g1) (IsGood git n g2) tree (IsGood-later n g1 g2 second)
                  good)
                (λ e i.
                  IsPlaced-IsSited n g2 tree e (Trees.split_slash e.path) parts below all
                    (λ name es i.
                      let (oid, at, holds) = each name es i in
                      (oid, at, Holds-later git n oid es g1 g2 second holds))
                    (partition-IsPlaced e es ([], []) i)),
            λ name. laws.subtrees tree g1 name oid wrote,
          )

    write_nested_tree-IsWritten :
        (n : ℕ) (es : List Entry) (g : G)
        → All (IsFile accepts safe n) es
        → IsWritten (suc n) es g (Trees.write_nested_tree git (suc n) es g)
    unfolding IsSubdir
    write_nested_tree-IsWritten zero es g files =
        write_level zero es g files (λ d h. absurd (ground (arith, h)))
    write_nested_tree-IsWritten (suc n) es g files =
        write_level (suc n) es g files (λ d (_, _, fs) g. write_nested_tree-IsWritten n d.1 g fs)

    -- Where the library writes every tree whose entries it accepts, reads it back in some order and
    -- never loses one, and the entries are files whose paths have at most `n` slashes, no empty part
    -- before one, directory names that are safe and leaves that are accepted, then
    -- `writeNestedTree` on a stack of `n + 1` calls returns the id of a tree, which
    -- `readTreeRecursive` reads on as many calls, and for every entry there is one of its path and
    -- object in what is read.
    pub write_nested_tree-read_tree_recursive :
        (n : ℕ) (es : List Entry) (g : G)
        → All (IsFile accepts safe n) es
        → (oid : Text) × (fs : List FullEntry) × ((Trees.write_nested_tree git (suc n) es g).1
            ≡ returned oid)
          × (Trees.read_tree_recursive git
                (suc n)
                (Trees.write_nested_tree git (suc n) es g).0
                oid
                []
              ≡ returned fs)
          × All (λ e. Has e.path e.sha fs) es
    unfolding IsWritten Holds Persists Trees.full_path
    write_nested_tree-read_tree_recursive n es g files =
        let (oid, ret, _, holds, _) = write_nested_tree-IsWritten n es g files in
        let (fs, runs, has) =
          holds (Trees.write_nested_tree git (suc n) es g).0 (λ oid ts r. r) [] in
        (oid, fs, ret, runs, All-by_In (λ e. Has e.path e.sha fs) es has)
