-- ===== src/GitShim/Refs.antt =====
-- infra/git-data-shim.mjs: the handlers that read, create and move a branch.
pub mod Moves
use ad4m_link_language_tests.Prelude.{
  Text, str, ℕ, Bool, true, false, Option, none, some, List, [], ◌∷◌, ◌++◌, ◌===◌, if◌then◌else◌,
}
use ad4m_link_language_tests.Prelude.Outcome.{Outcome, returned, threw}
use ad4m_link_language_tests.GitShim.{
  Git, Platform, RefBody, Response, Body, ref_body, message, nothing, send_json, not_found,
  and_then,
}

abbrev pub head : Text → Text
head branch = str "refs/heads/" ++ branch

-- `sha === current`
same_as : Text → Option Text → Bool
unfolding ◌===◌
same_as current none = false
same_as current (some sha) = sha === current

-- A text of a body that is missing or empty is falsy.
given : Option Text → Option Text
given none = none
given (some []) = none
given (some (c ∷ s)) = some (c ∷ s)

-- What `isDescendent` answers; a failure counts as no.
answer : Outcome Bool → Bool
answer (returned b) = b
answer (threw e) = false

not_found_branch : Text → Response
unfolding not_found
not_found_branch branch = not_found (str "branch " ++ (branch ++ str " not found"))

etag_of : Text → Text
etag_of sha = 34 ∷ (sha ++ 34 ∷ [])

or_empty : Option Text → Text
or_empty none = []
or_empty (some t) = t

-- The reply once a ref is written.
sent : {G : Type 0} → ℕ → Text → Text → Unit {0} → G → G × Outcome Response
unfolding send_json
sent status ref sha _ g = (g, returned (send_json status (ref_body ref sha)))

module _ {G : Type 0} (git : Git G) where
  matches : Option Text → Text → Bool
  unfolding ◌===◌
  matches none etag = false
  matches (some inm) etag = inm === etag

  shown_ref : Text → Option Text → Text → Response
  unfolding etag_of send_json matches
  shown_ref branch none_match sha =
      if matches none_match (etag_of sha)
      then record { status = 304; etag = some (etag_of sha); body = nothing }
      else record (send_json 200 (ref_body (head branch) sha)) { etag = some (etag_of sha) }

  -- `handleGetRef` and what the router makes of it.
  unfoldable pub handle_get_ref : Text → Option Text → G → G × Outcome Response
  unfolding not_found_branch shown_ref
  handle_get_ref branch none_match g = (
    g,
    returned (elim (git.resolve_ref (head branch) g) [
      | none ↦ not_found_branch branch
      | some sha ↦ shown_ref branch none_match sha
    ]),
  )

  -- A ref that resolves is not created again.
  create : Text → Text → Option Text → G → G × Outcome Response
  unfolding and_then send_json sent
  create ref sha none g = and_then (git.write_ref ref (some sha) false g) (sent 201 ref sha)
  create ref sha (some _) g =
      (g, returned (send_json 422 (message (str "Reference already exists"))))

  post_ref : Option Text → Option Text → G → G × Outcome Response
  unfolding create send_json
  post_ref (some ref) (some sha) g = create ref sha (git.resolve_ref ref g) g
  post_ref _ _ g = (g, returned (send_json 422 (message (str "ref and sha are required"))))

  -- `handlePostRef` of a parsed body.
  unfoldable pub create_ref : RefBody → G → G × Outcome Response
  unfolding post_ref given
  create_ref b g = post_ref (given b.ref) (given b.sha) g

  is_fast_forward : RefBody → Text → G → Bool
  unfolding answer
  is_fast_forward b current g = if b.force then true else answer (git.is_descendent b.sha current g)

  moved : Text → Option Text → G → G × Outcome Response
  unfolding and_then sent or_empty
  moved ref sha g = and_then (git.write_ref ref sha true g) (sent 200 ref (or_empty sha))

  move_from : Text → Text → RefBody → Option Text → G → G × Outcome Response
  unfolding moved is_fast_forward same_as send_json not_found_branch
  move_from branch ref b none g = (g, returned (not_found_branch branch))
  move_from branch ref b (some current) g =
      if same_as current b.sha
      then (g, returned (send_json 200 (ref_body ref current)))
      else if is_fast_forward b current g
      then moved ref b.sha g
      else (g, returned (send_json 422 (message (str "Update is not a fast forward"))))

  -- `handlePatchRef` of a parsed body.
  unfoldable pub move_ref : Text → RefBody → G → G × Outcome Response
  unfolding move_from
  move_ref branch b g = move_from branch (head branch) b (git.resolve_ref (head branch) g) g

  module _ (platform : Platform) where
    unfoldable pub handle_post_ref : Text → G → G × Outcome Response
    unfolding and_then create_ref
    handle_post_ref body g = and_then (g, platform.ref_body body) create_ref

    unfoldable pub handle_patch_ref : Text → Text → G → G × Outcome Response
    unfolding and_then move_ref
    handle_patch_ref branch body g = and_then (g, platform.ref_body body) (move_ref branch)
