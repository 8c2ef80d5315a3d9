-- ===== src/GitShim/Objects/Apart.antt =====
-- infra/git-data-shim.mjs: writing objects moves no ref.
use ad4m_link_language_tests.Prelude.{
  Text, Dict, ℕ, zero, suc, Option, none, some, List, [], ◌∷◌, ◌++◌,
}
use ad4m_link_language_tests.Prelude.Outcome.{Outcome}
use ad4m_link_language_tests.GitShim.{Git, Platform, TreeEntry, Entry, and_then}
use ad4m_link_language_tests.GitShim.Trees.{subtree, partition, write_subdirs, write_nested_tree}
use ad4m_link_language_tests.GitShim.Heads.{
  IsRefStore, Advances, Advances-refl, Advances-same, Advances-and_then,
}
use ad4m_link_language_tests.GitShim.Objects.{
  bytes_of, commit_of, created, post_tree, handle_post_blob, handle_post_tree, handle_post_commit,
}

module _ {G : Type 0} (git : Git G) (laws : IsRefStore git) where
  write_subdirs-Advances :
      (write : List Entry → G → G × Outcome Text)
      → ((es : List Entry) (g : G) → Advances git g ((write es g).0))
      → (subdirs : Dict (List Entry)) (tree : List TreeEntry) (g : G)
      → Advances git g ((write_subdirs git write subdirs tree g).0)
  unfolding write_subdirs
  write_subdirs-Advances write safe [] tree g = Advances-refl git g
  write_subdirs-Advances write safe ((name, es) ∷ subdirs) tree g =
      Advances-and_then git g (write es g)
        (λ oid g'. write_subdirs git write subdirs (tree ++ subtree name oid ∷ []) g') (safe es g)
        (λ oid _.
          write_subdirs-Advances write safe subdirs (tree ++ subtree name oid ∷ [])
            ((write es g).0))

  write_tree-Advances : (tree : List TreeEntry) (g : G) → Advances git g ((git.write_tree tree g).0)
  write_tree-Advances tree g =
      Advances-same git g ((git.write_tree tree g).0) (λ ref. laws.tree_apart ref tree g)

  write_nested_tree-Advances :
      (stack : ℕ) (es : List Entry) (g : G) → Advances git g ((write_nested_tree git stack es g).0)
  unfolding write_nested_tree
  write_nested_tree-Advances zero es g = Advances-refl git g
  write_nested_tree-Advances (suc stack) es g =
      let (leaves, subdirs) = partition es ([], []) in
      let first = write_subdirs git (write_nested_tree git stack) subdirs leaves g in
      Advances-and_then git g first (λ tree g'. git.write_tree tree g')
        (write_subdirs-Advances (write_nested_tree git stack) (write_nested_tree-Advances stack)
          subdirs leaves g)
        (λ tree _. write_tree-Advances tree (first.0))

  module _ (platform : Platform) (stack : ℕ) where
    reply-Advances :
        (g : G) (p : G × Outcome Text)
        → Advances git g (p.0)
        → Advances git g ((and_then p (created platform git stack)).0)
    unfolding created
    reply-Advances g p safe =
        Advances-and_then git g p (created platform git stack) safe (λ _ _. Advances-refl git (p.0))

    pub handle_post_blob-Advances :
        (body : Text) (g : G) → Advances git g ((handle_post_blob platform git stack body g).0)
    unfolding handle_post_blob
    handle_post_blob-Advances body g =
        Advances-and_then git g (g, platform.blob_body body)
          (λ b g'. and_then (git.write_blob (bytes_of platform b) g') (created platform git stack))
          (Advances-refl git g)
          (λ b _. reply-Advances g (git.write_blob (bytes_of platform b) g) (
            Advances-same git g ((git.write_blob (bytes_of platform b) g).0)
              (λ ref. laws.blob_apart ref (bytes_of platform b) g)))

    pub handle_post_commit-Advances :
        (body : Text) (g : G) → Advances git g ((handle_post_commit platform git stack body g).0)
    unfolding handle_post_commit
    handle_post_commit-Advances body g =
        Advances-and_then git g (g, platform.commit_body body)
          (λ b g'.
            and_then (git.write_commit (commit_of platform b) g') (created platform git stack))
          (Advances-refl git g)
          (λ b _. reply-Advances g (git.write_commit (commit_of platform b) g) (
            Advances-same git g ((git.write_commit (commit_of platform b) g).0)
              (λ ref. laws.commit_apart ref (commit_of platform b) g)))

    post_tree-Advances :
        (tree : Option (List Entry)) (g : G)
        → Advances git g ((post_tree platform git stack tree g).0)
    unfolding post_tree
    post_tree-Advances none g = Advances-refl git g
    post_tree-Advances (some tree) g =
        reply-Advances g (write_nested_tree git stack tree g)
          (write_nested_tree-Advances stack tree g)

    pub handle_post_tree-Advances :
        (body : Text) (g : G) → Advances git g ((handle_post_tree platform git stack body g).0)
    unfolding handle_post_tree
    handle_post_tree-Advances body g =
        Advances-and_then git g (g, platform.tree_body body) (post_tree platform git stack)
          (Advances-refl git g) (λ tree _. post_tree-Advances tree g)
