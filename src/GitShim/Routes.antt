-- ===== src/GitShim/Routes.antt =====
-- infra/git-data-shim.mjs: `requestHandler`, request by request, as the lock of a repository makes
-- its requests follow each other. The state is the repositories under `ROOT` by their key.
pub mod Safe
pub mod Serve
use ad4m_link_language_tests.Prelude.{
  Text, Dict, str, ℕ, Bool, true, false, not, ◌&&◌, ◌||◌, ◌==◌, ltb, Option, none, some, List, [],
  ◌∷◌, ◌++◌, ◌===◌, if◌then◌else◌, lookup, insert, length, filter,
}
use ad4m_link_language_tests.Prelude.Outcome.{Outcome, returned, threw, ◌>>=◌}
use ad4m_link_language_tests.GitShim.{
  Git, Platform, Response, Body, service, message, send_json, not_found, repo_key,
}
use ad4m_link_language_tests.GitShim.Objects.{
  handle_get_commit, handle_get_tree, handle_get_blob, handle_post_blob, handle_post_tree,
  handle_post_commit,
}
use ad4m_link_language_tests.GitShim.Refs.{handle_get_ref, handle_post_ref, handle_patch_ref}

-- `pathname` is what `new URL` makes of the request's URL.
pub record Request : Type 0 where
  pub method : Text
  pub pathname : Outcome Text
  pub if_none_match : Option Text
  pub body : Text

-- A handler that rejects sends no reply.
pub data Result : Type 0 where
  replied : Response → Result
  rejected : Text → Result

-- `split("/")`
segments : Text → List Text
segments [] = [] ∷ []
segments (c ∷ s) =
    if c == b'/'
    then [] ∷ segments s
    else elim (segments s) [ [] ↦ (c ∷ []) ∷ [] | p ∷ ps ↦ (c ∷ p) ∷ ps ]

is_empty : Text → Bool
is_empty [] = true
is_empty (c ∷ s) = false

parts_of : Text → List Text
unfolding segments is_empty
parts_of path = filter (λ p. not (is_empty p)) (segments path)

-- `rest.join("/")`
join : List Text → Text
join [] = []
join (p ∷ []) = p
join (p ∷ (q ∷ ps)) = p ++ (b'/' ∷ join (q ∷ ps))

module _ (platform : Platform) where
  decode_all : List Text → Outcome (List Text)
  unfolding ◌>>=◌
  decode_all [] = returned []
  decode_all (p ∷ ps) = platform.decode_uri p >>= (λ q. decode_all ps >>= (λ qs. returned (q ∷ qs)))

  -- The key of a repository and the decoded rest of a path.
  target : Text → Text → List Text → Outcome (Text × List Text)
  unfolding ◌>>=◌ decode_all repo_key
  target owner repo rest = platform.decode_uri owner >>= (λ o.
      platform.decode_uri repo >>= (λ p. decode_all rest >>= (λ ps. returned (repo_key o p, ps))))

  module _ {G : Type 0} (git : Git G) (stack : ℕ) where
    refused : Text → G → G × Outcome Response
    unfolding not_found
    refused text g = (g, returned (not_found text))

    on_branch : Request → Text → G → G × Outcome Response
    unfolding handle_get_ref handle_patch_ref refused ◌===◌
    on_branch r branch =
        if r.method === str "GET"
        then handle_get_ref git branch r.if_none_match
        else if r.method === str "PATCH"
        then handle_patch_ref git platform branch r.body
        else refused (str "bad refs route")

    on_head : Request → List Text → G → G × Outcome Response
    unfolding on_branch refused join
    on_head r (kind ∷ (name ∷ names)) =
        if kind === str "heads"
        then on_branch r (join (name ∷ names))
        else refused (str "bad refs route")
    on_head r _ = refused (str "bad refs route")

    on_refs : Request → List Text → G → G × Outcome Response
    unfolding handle_post_ref on_head
    on_refs r rest =
        if r.method === str "POST" then handle_post_ref git platform r.body else on_head r rest

    -- A handler of a posted body, or one of a `sha` that is read.
    on_object :
        Text
        → (Text → G → G × Outcome Response)
        → (Text → G → G × Outcome Response)
        → Request
        → List Text
        → G
        → G × Outcome Response
    unfolding refused ◌===◌
    on_object name post get r rest =
        if r.method === str "POST"
        then post r.body
        else if r.method === str "GET"
        then elim rest [
          | [] ↦ refused (str "bad " ++ (name ++ str " route"))
          | sha ∷ _ ↦
              if is_empty sha then refused (str "bad " ++ (name ++ str " route")) else get sha
        ]
        else refused (str "bad " ++ (name ++ str " route"))

    unfoldable pub on_resource : Request → Text → List Text → G → G × Outcome Response
    unfolding on_refs on_object refused is_empty
    on_resource r resource rest =
        if resource === str "refs"
        then on_refs r rest
        else if resource === str "commits"
        then on_object resource (handle_post_commit platform git stack)
            (handle_get_commit platform git stack) r rest
        else if resource === str "trees"
        then on_object resource (handle_post_tree platform git stack)
            (handle_get_tree platform git stack) r rest
        else if resource === str "blobs"
        then on_object resource (handle_post_blob platform git stack)
            (handle_get_blob platform git stack) r rest
        else refused (str "unknown resource " ++ resource)

    -- What becomes of the repository, and the reply; a failure is answered with 500.
    finished : Text → Dict G → G × Outcome Response → Dict G × Result
    unfolding send_json insert
    finished key repos (g, returned response) = (insert key g repos, replied response)
    finished key repos (g, threw e) = (insert key g repos, replied (send_json 500 (message e)))

    -- `init` is what `ensureRepo` makes of a directory that holds no repository.
    module _ (init : Outcome G) where
      ensure_repo : Option G → Outcome G
      ensure_repo (some g) = returned g
      ensure_repo none = init

      opened : Request → Text → Text → List Text → Dict G → Outcome G → Dict G × Result
      unfolding finished send_json
      opened r key resource rest repos (threw e) = (repos, replied (send_json 500 (message e)))
      opened r key resource rest repos (returned g) =
          finished key repos (on_resource r resource rest g)

      on_repo : Request → Text → Dict G → Outcome (Text × List Text) → Dict G × Result
      unfolding ensure_repo opened lookup
      on_repo r resource repos (threw e) = (repos, rejected e)
      on_repo r resource repos (returned (key, rest)) =
          opened r key resource rest repos (ensure_repo (lookup key repos))

      routed : Request → List Text → Dict G → Dict G × Result
      unfolding on_repo target send_json not_found ◌===◌
      routed r [] repos = (repos, replied (send_json 200 service))
      routed r (api ∷ (owner ∷ (repo ∷ (kind ∷ (resource ∷ rest))))) repos =
          if api === str "repos" && kind === str "git"
          then on_repo r resource repos (target owner repo rest)
          else (repos, replied (not_found (str "no such route")))
      routed r _ repos = (repos, replied (not_found (str "no such route")))

      at_path : Request → Outcome Text → Dict G → Dict G × Result
      unfolding routed parts_of send_json
      at_path r (threw e) repos = (repos, replied (send_json 400 (message (str "bad url"))))
      at_path r (returned path) repos = routed r (parts_of path) repos

      unfoldable pub request_handler : Request → Dict G → Dict G × Result
      unfolding at_path
      request_handler r repos = at_path r r.pathname repos

      -- The requests as they are served one after the other.
      unfoldable pub serve : List Request → Dict G → Dict G
      unfolding request_handler
      serve [] repos = repos
      serve (r ∷ rs) repos = serve rs ((request_handler r repos).0)
