-- ===== src/GitShim/Objects.antt =====
-- infra/git-data-shim.mjs: the handlers that read and write commits, trees and blobs.
pub mod Apart
use ad4m_link_language_tests.Prelude.{
  Text, str, ℕ, ◌*◌, ◌/◌, Bool, Option, none, some, List, [], ◌++◌, ◌===◌, if◌then◌else◌, length,
}
use ad4m_link_language_tests.Prelude.Outcome.{Outcome, returned, threw}
use ad4m_link_language_tests.GitShim.{
  Git, Platform, Signature, Commit, SignatureBody, BlobBody, CommitBody, Entry, Person, Response,
  Body, sha_body, commit_body, tree_body, blob_body, message, send_json, not_found, is_not_found,
  and_then,
}
use ad4m_link_language_tests.GitShim.Trees.{write_nested_tree, read_tree_recursive}

-- `x ?? ""`
text_of : Option Text → Text
text_of none = []
text_of (some t) = t

-- A missing object is answered with 404, any other failure is passed on.
missing_or_throw : Text → Text → Outcome Response
unfolding not_found is_not_found
missing_or_throw what e = if is_not_found e then returned (not_found what) else threw e

module _ (platform : Platform) where
  seconds_of : Option ℕ → ℕ
  seconds_of none = 0
  seconds_of (some ms) = ms / 1000

  parse_sig : Option SignatureBody → Signature
  unfolding text_of seconds_of
  parse_sig none = record { name = []; email = []; timestamp = seconds_of (platform.parse_date []) }
  parse_sig (some sig) = record {
    name = text_of sig.name;
    email = text_of sig.email;
    timestamp = seconds_of (platform.parse_date (text_of sig.date));
  }

  -- `input.committer ?? input.author`
  committer_of : CommitBody → Option SignatureBody
  committer_of input = elim input.committer [ none ↦ input.author | some sig ↦ some sig ]

  parents_of : Option (List Text) → List Text
  parents_of none = []
  parents_of (some parents) = parents

  commit_of : CommitBody → Commit
  unfolding parse_sig text_of committer_of parents_of
  commit_of input = record {
    message = text_of input.message;
    tree = input.tree;
    parent = parents_of input.parents;
    author = parse_sig input.author;
    committer = parse_sig (committer_of input);
  }

  person_of : Signature → Person
  person_of sig = record {
    name = sig.name;
    email = sig.email;
    date = platform.to_iso (sig.timestamp * 1000);
  }

  bytes_of : BlobBody → Text
  unfolding text_of ◌===◌
  bytes_of b =
      if text_of b.encoding === str "base64"
      then platform.from_base64 (text_of b.content)
      else platform.from_utf8 (text_of b.content)

  module _ {G : Type 0} (git : Git G) (stack : ℕ) where
    shown_commit : Text → Outcome Commit → Outcome Response
    unfolding missing_or_throw person_of send_json
    shown_commit sha (threw e) = missing_or_throw (str "commit " ++ sha) e
    shown_commit sha (returned c) = returned (
        send_json 200
          (commit_body sha c.tree c.parent c.message (person_of c.author) (person_of c.committer)))

    unfoldable pub handle_get_commit : Text → G → G × Outcome Response
    unfolding shown_commit
    handle_get_commit sha g = (g, shown_commit sha (git.read_commit sha g))

    unfoldable pub handle_get_tree : Text → G → G × Outcome Response
    unfolding missing_or_throw read_tree_recursive send_json
    handle_get_tree sha g = (
      g,
      elim (read_tree_recursive git stack g sha []) [
        | threw e ↦ missing_or_throw (str "tree " ++ sha) e
        | returned out ↦ returned (send_json 200 (tree_body sha out))
      ],
    )

    unfoldable pub handle_get_blob : Text → G → G × Outcome Response
    unfolding missing_or_throw send_json
    handle_get_blob sha g = (
      g,
      elim (git.read_blob sha g) [
        | threw e ↦ missing_or_throw (str "blob " ++ sha) e
        | returned blob ↦
            returned (send_json 200 (blob_body sha (platform.to_base64 blob) (length blob)))
      ],
    )

    created : Text → G → G × Outcome Response
    unfolding send_json
    created oid g = (g, returned (send_json 201 (sha_body oid)))

    unfoldable pub handle_post_blob : Text → G → G × Outcome Response
    unfolding and_then bytes_of created
    handle_post_blob body g =
        and_then (g, platform.blob_body body)
          (λ b g'. and_then (git.write_blob (bytes_of b) g') created)

    post_tree : Option (List Entry) → G → G × Outcome Response
    unfolding and_then write_nested_tree created send_json
    post_tree none g = (g, returned (send_json 422 (message (str "tree must be an array"))))
    post_tree (some tree) g = and_then (write_nested_tree git stack tree g) created

    unfoldable pub handle_post_tree : Text → G → G × Outcome Response
    unfolding and_then post_tree
    handle_post_tree body g = and_then (g, platform.tree_body body) post_tree

    unfoldable pub handle_post_commit : Text → G → G × Outcome Response
    unfolding and_then commit_of created
    handle_post_commit body g =
        and_then (g, platform.commit_body body)
          (λ input g'. and_then (git.write_commit (commit_of input) g') created)
