-- ===== src/GitShim.antt =====
-- infra/git-data-shim.mjs: a server of git objects and refs. The library isomorphic-git is the
-- interface `Git` over a repository's state `G`, `JSON.parse`, base64, dates and URI escapes are the
-- fields of `Platform`.
mod Trees
mod Objects
mod Refs
mod Routes
mod Heads
mod Tests
use ad4m_link_language_tests.Prelude.{
  Text, str, ℕ, Bool, true, false, ◌&&◌, ◌||◌, leb, ◌==◌, Option, none, some, List, [], ◌∷◌, ◌++◌,
  map, if◌then◌else◌, any, includes, ◌+◌,
}
use ad4m_link_language_tests.Prelude.Outcome.{Outcome, returned, threw}

-- An entry of a tree object.
pub record TreeEntry : Type 0 where
  pub mode : Text
  pub path : Text
  pub oid : Text
  pub type : Text

pub record Signature : Type 0 where
  pub name : Text
  pub email : Text
  pub timestamp : ℕ

pub record Commit : Type 0 where
  pub message : Text
  pub tree : Option Text
  pub parent : List Text
  pub author : Signature
  pub committer : Signature

-- What the shim calls of the library: an operation that writes also returns the repository.
pub record Git (G : Type 0) : Type 0 where
  pub resolve_ref : Text → G → Option Text
  pub write_ref : Text → Option Text → Bool → G → G × Outcome (Unit {0})
  pub is_descendent : Option Text → Text → G → Outcome Bool
  pub write_blob : Text → G → G × Outcome Text
  pub write_tree : List TreeEntry → G → G × Outcome Text
  pub write_commit : Commit → G → G × Outcome Text
  pub read_blob : Text → G → Outcome Text
  pub read_tree : Text → G → Outcome (List TreeEntry)
  pub read_commit : Text → G → Outcome Commit

-- What a body that was sent holds; a missing text field of an entry is empty, as both are falsy.
pub record RefBody : Type 0 where
  pub ref : Option Text
  pub sha : Option Text
  pub force : Bool

pub record BlobBody : Type 0 where
  pub content : Option Text
  pub encoding : Option Text

pub record Entry : Type 0 where
  pub path : Text
  pub mode : Text
  pub type : Text
  pub sha : Text

pub record SignatureBody : Type 0 where
  pub name : Option Text
  pub email : Option Text
  pub date : Option Text

pub record CommitBody : Type 0 where
  pub message : Option Text
  pub tree : Option Text
  pub parents : Option (List Text)
  pub author : Option SignatureBody
  pub committer : Option SignatureBody

pub record Platform : Type 0 where
  pub ref_body : Text → Outcome RefBody
  pub blob_body : Text → Outcome BlobBody
  pub tree_body : Text → Outcome (Option (List Entry))
  pub commit_body : Text → Outcome CommitBody
  pub from_base64 : Text → Text
  pub from_utf8 : Text → Text
  pub to_base64 : Text → Text
  pub parse_date : Text → Option ℕ
  pub to_iso : ℕ → Text
  pub decode_uri : Text → Outcome Text

-- An entry of a flattened tree, with the size of a blob that can be read.
pub record FullEntry : Type 0 where
  pub path : Text
  pub mode : Text
  pub type : Text
  pub sha : Text
  pub size : Option ℕ

pub record Person : Type 0 where
  pub name : Text
  pub email : Text
  pub date : Text

pub data Body : Type 0 where
  nothing service : Body
  message : Text → Body
  ref_body : (ref sha : Text) → Body
  sha_body : Text → Body
  commit_body :
      (sha : Text)
      → (tree : Option Text) → (parents : List Text) → (message : Text)
      → (author committer : Person) → Body
  tree_body : Text → List FullEntry → Body
  blob_body : (sha content : Text) → (size : ℕ) → Body

pub record Response : Type 0 where
  pub status : ℕ
  pub etag : Option Text
  pub body : Body

unfoldable pub send_json : ℕ → Body → Response
send_json status body = record { status = status; etag = none; body = body }

unfoldable pub not_found : Text → Response
unfolding send_json
not_found text = send_json 404 (message text)

-- `/[^A-Za-z0-9._-]/g` replaced by `_`.
is_safe : ℕ → Bool
is_safe c =
    leb b'A' c && leb c b'Z'
    || leb b'a' c && leb c b'z'
    || leb b'0' c && leb c b'9'
    || c == b'.'
    || c == b'_'
    || c == b'-'

safe : Text → Text
unfolding is_safe
safe = map (λ c. if is_safe c then c else b'_')

unfoldable pub repo_key : Text → Text → Text
unfolding safe
repo_key owner repo = safe owner ++ (str "__" ++ safe repo)

to_lower : ℕ → ℕ
to_lower c = if leb b'A' c && leb c b'Z' then c + 32 else c

-- `NOT_FOUND_RE.test`, whose words are given in lower case.
unfoldable pub is_not_found : Text → Bool
unfolding to_lower includes
is_not_found text =
    any (includes (map to_lower text))
      (str "could not find" ∷ str "notfounderror" ∷ str "does not exist" ∷ str "enoent" ∷ [])

-- An awaited call that may change the repository, and what follows if it returns.
unfoldable pub and_then : {G A B : Type 0} → G × Outcome A → (A → G → G × Outcome B) → G × Outcome B
and_then (g, returned a) f = f a g
and_then (g, threw e) f = (g, threw e)
