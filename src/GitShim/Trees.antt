-- ===== src/GitShim/Trees.antt =====
-- infra/git-data-shim.mjs: `writeNestedTree` and `readTreeRecursive`. Both call themselves at most
-- `stack` times within each other; what is written is at most as deep as a path has slashes.
pub mod Paths
pub mod Parts
pub mod Reads
pub mod RoundTrip
use ad4m_link_language_tests.Prelude.{
  Text, Dict, str, ℕ, zero, suc, Bool, true, false, ◌==◌, Option, none, some, List, [], ◌∷◌, ◌++◌,
  ◌===◌, if◌then◌else◌, lookup, insert, length,
}
use ad4m_link_language_tests.Prelude.Outcome.{Outcome, returned, threw, ◌>>=◌}
use ad4m_link_language_tests.GitShim.{Git, TreeEntry, Entry, FullEntry, and_then}

-- `path.indexOf("/")`, with what stands before and behind it.
unfoldable pub split_slash : Text → Option (Text × Text)
split_slash [] = none
split_slash (c ∷ s) =
    let rest = split_slash s in
    if c == b'/' then some ([], s) else elim rest [ none ↦ none | some (a, b) ↦ some (c ∷ a, b) ]

-- `a || b` on texts.
or_else : Text → Text → Text
or_else [] b = b
or_else (c ∷ a) b = c ∷ a

unfoldable pub leaf_of : Entry → TreeEntry
unfolding or_else ◌===◌
leaf_of e = record {
  mode = or_else e.mode (if e.type === str "tree" then str "040000" else str "100644");
  path = e.path;
  oid = e.sha;
  type = or_else e.type (str "blob");
}

unfoldable pub or_empty : Option (List Entry) → List Entry
or_empty none = []
or_empty (some es) = es

abbrev pub Parts : Type 0
Parts = List TreeEntry × Dict (List Entry)

unfoldable pub add_entry : Entry → Option (Text × Text) → Parts → Parts
unfolding leaf_of insert lookup or_empty
add_entry e none (leaves, subdirs) = (leaves ++ leaf_of e ∷ [], subdirs)
add_entry e (some (top, rest)) (leaves, subdirs) =
    (leaves, insert top (or_empty (lookup top subdirs) ++ record e { path = rest } ∷ []) subdirs)

unfoldable pub partition : List Entry → Parts → Parts
unfolding add_entry split_slash
partition [] parts = parts
partition (e ∷ es) parts = partition es (add_entry e (split_slash e.path) parts)

unfoldable pub subtree : Text → Text → TreeEntry
subtree name oid = record { mode = str "040000"; path = name; oid = oid; type = str "tree" }

abbrev pub too_deep : {A : Type 0} → Outcome A
too_deep = threw (str "Maximum call stack size exceeded")

unfoldable pub full_path : Text → Text → Text
full_path [] path = path
full_path (c ∷ prefix) path = (c ∷ prefix) ++ (b'/' ∷ path)

size_of : Outcome Text → Option ℕ
size_of (returned blob) = some (length blob)
size_of (threw e) = none

module _ {G : Type 0} (git : Git G) where
  -- The subtrees one after the other, behind the entries that stand in `tree`.
  unfoldable pub write_subdirs :
      (List Entry → G → G × Outcome Text)
      → Dict (List Entry)
      → List TreeEntry
      → G
      → G × Outcome (List TreeEntry)
  unfolding and_then subtree
  write_subdirs write [] tree g = (g, returned tree)
  write_subdirs write ((name, es) ∷ subdirs) tree g =
      and_then (write es g)
        (λ oid g'. write_subdirs write subdirs (tree ++ subtree name oid ∷ []) g')

  unfoldable pub write_nested_tree : ℕ → List Entry → G → G × Outcome Text
  unfolding and_then write_subdirs partition
  write_nested_tree zero es g = (g, too_deep)
  write_nested_tree (suc stack) es g =
      let (leaves, subdirs) = partition es ([], []) in
      and_then (write_subdirs (write_nested_tree stack) subdirs leaves g)
        (λ tree g'. git.write_tree tree g')

  unfoldable pub full_entry : Bool → Text → TreeEntry → G → FullEntry
  unfolding size_of
  full_entry is_tree full e g = record {
    path = full;
    mode = e.mode;
    type = if is_tree then str "tree" else e.type;
    sha = e.oid;
    size = if is_tree then none else size_of (git.read_blob e.oid g);
  }

  -- The entries of one tree, each followed by those of the tree that it names.
  unfoldable pub read_entries :
      (Text → Text → Outcome (List FullEntry))
      → Text
      → List TreeEntry
      → G
      → Outcome (List FullEntry)
  unfolding ◌>>=◌ full_entry full_path ◌===◌
  read_entries read prefix [] g = returned []
  read_entries read prefix (e ∷ es) g =
      let full = full_path prefix e.path in
      let is_tree = e.type === str "tree" in
      (elim is_tree [ true ↦ read e.oid full | false ↦ returned [] ]) >>= (λ below.
        read_entries read prefix es g
        >>= (λ later. returned (full_entry is_tree full e g ∷ (below ++ later))))

  unfoldable pub read_tree_recursive : ℕ → G → Text → Text → Outcome (List FullEntry)
  unfolding ◌>>=◌ read_entries
  read_tree_recursive zero g oid prefix = too_deep
  read_tree_recursive (suc stack) g oid prefix =
      git.read_tree oid g >>= (λ tree. read_entries (read_tree_recursive stack g) prefix tree g)
