-- ===== src/GitShim/Routes/Safe.antt =====
-- infra/git-data-shim.mjs: the branches of a repository over a sequence of requests.
use ad4m_link_language_tests.Prelude.{
  Text, str, ℕ, ◌≡◌, Bool, true, false, inl, inr, List, [], ◌∷◌, ◌++◌, ◌===◌, if◌then◌else◌,
  Bool-cases,
}
use ad4m_link_language_tests.Prelude.Outcome.{Outcome, returned, threw}
use ad4m_link_language_tests.GitShim.{Git, Platform, RefBody, Response}
use ad4m_link_language_tests.GitShim.Objects.{
  handle_post_blob, handle_post_tree, handle_post_commit, handle_get_blob, handle_get_tree,
  handle_get_commit,
}
use ad4m_link_language_tests.GitShim.Objects.Apart.{
  handle_post_blob-Advances, handle_post_tree-Advances, handle_post_commit-Advances,
}
use ad4m_link_language_tests.GitShim.Refs.{handle_get_ref, handle_post_ref, handle_patch_ref}
use ad4m_link_language_tests.GitShim.Refs.Moves.{
  names_branch, handle_post_ref-Advances, handle_patch_ref-Advances,
}
use ad4m_link_language_tests.GitShim.Heads.{IsRefStore, Advances, Advances-refl}
use ad4m_link_language_tests.GitShim.Routes.{
  Request, refused, join, on_branch, on_head, on_refs, on_object, on_resource, is_empty,
}

unfoldable pub is_forced : Outcome RefBody → Bool
is_forced (returned b) = b.force
is_forced (threw e) = false

unfoldable pub keeps_to_branches : Outcome RefBody → Bool
unfolding names_branch
keeps_to_branches (returned b) = names_branch b.ref
keeps_to_branches (threw e) = true

-- A request that forces nothing and, where it names a ref, names a branch in full.
abbrev pub IsUnforced : Platform → Request → Type 0
IsUnforced platform r =
    (is_forced (platform.ref_body r.body) ≡ false)
    × (keeps_to_branches (platform.ref_body r.body) ≡ true)

module _ {G : Type 0} (git : Git G) (laws : IsRefStore git) (platform : Platform) (stack : ℕ) where
  unforced_body :
      (r : Request)
      → IsUnforced platform r
      → (b : RefBody) → platform.ref_body r.body ≡ returned b
      → b.force ≡ false
  unfolding is_forced
  unforced_body r (h, _) b e = rw e at h

  named_body :
      (r : Request)
      → IsUnforced platform r
      → (b : RefBody) → platform.ref_body r.body ≡ returned b
      → names_branch b.ref ≡ true
  unfolding keeps_to_branches
  named_body r (_, h) b e = rw e at h

  -- A handler after which every branch is where it was or ahead.
  IsSafe : (G → G × Outcome Response) → Type 0
  IsSafe h = (g : G) → Advances git g ((h g).0)

  if-IsSafe :
      (b : Bool) (h k : G → G × Outcome Response)
      → IsSafe h
      → IsSafe k
      → IsSafe (if b then h else k)
  if-IsSafe true h k p q = p
  if-IsSafe false h k p q = q

  refused-IsSafe : (text : Text) → IsSafe (refused platform git stack text)
  unfolding IsSafe refused
  refused-IsSafe text g = Advances-refl git g

  on_branch-IsSafe :
      (r : Request) (branch : Text)
      → IsUnforced platform r
      → IsSafe (on_branch platform git stack r branch)
  unfolding IsSafe on_branch handle_get_ref
  on_branch-IsSafe r branch h =
      let bad = refused platform git stack (str "bad refs route") in
      let patch = handle_patch_ref git platform branch r.body in
      if-IsSafe (r.method === str "GET") (handle_get_ref git branch r.if_none_match)
        (if r.method === str "PATCH" then patch else bad) (λ g. Advances-refl git g)
        (if-IsSafe (r.method === str "PATCH") patch bad
          (λ g. handle_patch_ref-Advances git laws platform branch r.body g (unforced_body r h))
          (refused-IsSafe (str "bad refs route")))

  on_head-IsSafe :
      (r : Request) (rest : List Text)
      → IsUnforced platform r
      → IsSafe (on_head platform git stack r rest)
  unfolding on_head
  on_head-IsSafe r [] h = refused-IsSafe (str "bad refs route")
  on_head-IsSafe r (kind ∷ []) h = refused-IsSafe (str "bad refs route")
  on_head-IsSafe r (kind ∷ (name ∷ names)) h =
      if-IsSafe (kind === str "heads") (on_branch platform git stack r (join (name ∷ names)))
        (refused platform git stack (str "bad refs route"))
        (on_branch-IsSafe r (join (name ∷ names)) h) (refused-IsSafe (str "bad refs route"))

  on_refs-IsSafe :
      (r : Request) (rest : List Text)
      → IsUnforced platform r
      → IsSafe (on_refs platform git stack r rest)
  unfolding IsSafe on_refs
  on_refs-IsSafe r rest h =
      if-IsSafe (r.method === str "POST") (handle_post_ref git platform r.body)
        (on_head platform git stack r rest)
        (λ g. handle_post_ref-Advances git laws platform r.body g (named_body r h))
        (on_head-IsSafe r rest h)

  read-IsSafe :
      (name : Text) (get : Text → G → G × Outcome Response) (rest : List Text)
      → ((sha : Text) → IsSafe (get sha))
      → IsSafe (elim rest [
        | [] ↦ refused platform git stack (str "bad " ++ (name ++ str " route"))
        | sha ∷ _ ↦
            if is_empty sha
            then refused platform git stack (str "bad " ++ (name ++ str " route"))
            else get sha
      ])
  read-IsSafe name get [] safe = refused-IsSafe (str "bad " ++ (name ++ str " route"))
  read-IsSafe name get (sha ∷ shas) safe =
      let bad = str "bad " ++ (name ++ str " route") in
      if-IsSafe (is_empty sha) (refused platform git stack bad) (get sha) (refused-IsSafe bad)
        (safe sha)

  on_object-IsSafe :
      (name : Text) (post get : Text → G → G × Outcome Response) (r : Request) (rest : List Text)
      → ((body : Text) → IsSafe (post body))
      → ((sha : Text) → IsSafe (get sha))
      → IsSafe (on_object platform git stack name post get r rest)
  unfolding on_object
  on_object-IsSafe name post get r rest posts gets = elim (Bool-cases (r.method === str "POST")) [
    | inl e ↦ rw e (posts r.body)
    | inr e ↦ elim (Bool-cases (r.method === str "GET")) [
      | inl f ↦ rw e (rw f (read-IsSafe name get rest gets))
      | inr f ↦ rw e (rw f (refused-IsSafe (str "bad " ++ (name ++ str " route"))))
    ]
  ]

  pub on_resource-IsSafe :
      (r : Request) (resource : Text) (rest : List Text) (g : G)
      → IsUnforced platform r
      → Advances git g ((on_resource platform git stack r resource rest g).0)
  unfolding IsSafe on_resource handle_get_commit handle_get_tree handle_get_blob
  on_resource-IsSafe r resource rest g h =
      let commits =
        on_object-IsSafe resource (handle_post_commit platform git stack)
          (handle_get_commit platform git stack) r rest
          (handle_post_commit-Advances git laws platform stack) (λ sha k. Advances-refl git k) in
      let trees =
        on_object-IsSafe resource (handle_post_tree platform git stack)
          (handle_get_tree platform git stack) r rest
          (handle_post_tree-Advances git laws platform stack) (λ sha k. Advances-refl git k) in
      let blobs =
        on_object-IsSafe resource (handle_post_blob platform git stack)
          (handle_get_blob platform git stack) r rest
          (handle_post_blob-Advances git laws platform stack) (λ sha k. Advances-refl git k) in
      elim (Bool-cases (resource === str "refs")) [
        | inl e ↦ rw e (on_refs-IsSafe r rest h g)
        | inr e ↦ elim (Bool-cases (resource === str "commits")) [
          | inl f ↦ rw e (rw f (commits g))
          | inr f ↦ elim (Bool-cases (resource === str "trees")) [
            | inl k ↦ rw e (rw f (rw k (trees g)))
            | inr k ↦ elim (Bool-cases (resource === str "blobs")) [
              | inl l ↦ rw e (rw f (rw k (rw l (blobs g))))
              | inr l ↦
                  rw e (rw f (rw k (rw l (refused-IsSafe (str "unknown resource " ++ resource) g))))
            ]
          ]
        ]
      ]
