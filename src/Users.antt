-- ===== src/Users.antt =====
-- src/users.ts: provisioning peers on one executor or on a cluster, and registering them as SFU
-- members. What an executor answers may depend on every request it has had: an `Executor` is a
-- parameter, functions of the requests so far. `random` gives the draws of `randomSuffix`.
pub mod Provision
pub mod Members
pub mod Cluster
mod Tests
use ad4m_link_language_tests.Prelude.Outcome.{Outcome, returned, threw}
use ad4m_link_language_tests.Prelude.{
  Text, str, decimal, ℕ, zero, suc, ◌+◌, ◌*◌, Bool, true, false, Option, none, some, List, [], ◌∷◌,
  ◌++◌, ◌===◌, if◌then◌else◌, Dict, insert, contains, add,
}

pub data Request : Type 0 where
  user_create : Text → Text → Request
  user_login : Text → Text → Request
  connect : Text → Request

pub record CreateReply : Type 0 where
  pub did : Text
  pub success : Bool
  pub error : Option Text

-- `login` is `none` where the reply is not a string.
pub record Executor : Type 0 where
  pub create : List Request → Text → Text → Outcome CreateReply
  pub login : List Request → Text → Text → Outcome (Option Text)
  pub open_client : List Request → Text → Outcome (Unit {0})

-- An action on an executor: the requests so far, and with the result those made since.
abbrev pub Action : Type 0 → Type 0
Action A = List Request → Outcome A × List Request

infixl 5 ◌>>=◌ ◌>>◌
abbrev pub ◌>>=◌ : {A B : Type 0} → Action A → (A → Action B) → Action B
◌>>=◌ m f s = let (r, s') = m s in elim r [ returned a ↦ f a s' | threw e ↦ (threw e, s') ]

abbrev pub ◌>>◌ : {B : Type 0} → Action (Unit {0}) → Action B → Action B
m >> k = m >>= λ _. k

abbrev pure : {A : Type 0} → A → Action A
pure a s = (returned a, s)

abbrev throw : {A : Type 0} → Text → Action A
throw e s = (threw e, s)

abbrev request : {A : Type 0} → Request → (List Request → Outcome A) → Action A
request q reply s = (reply s, s ++ q ∷ [])

pub record PeerSession : Type 0 where
  pub label : Text
  pub email : Text
  pub password : Text
  pub token : Text
  pub did : Text

abbrev or_unknown : Option Text → Text
or_unknown none = str "unknown"
or_unknown (some e) = e

-- `${labelPrefix}-${i}`
abbrev pub label_of : Text → ℕ → Text
label_of prefix i = prefix ++ (b'-' ∷ decimal i)

-- `${label}@${emailDomain}`
abbrev pub email_of : Text → Text → Text
email_of label domain = label ++ (b'@' ∷ domain)

module _ (ex : Executor) where
  require_created : Text → Text → CreateReply → Action Text
  require_created label email r =
      if r.success
      then pure r.did
      else throw (
          str "provisionPeers: user.create failed for "
          ++ label
          ++ str " ("
          ++ email
          ++ str "): "
          ++ or_unknown r.error)

  require_token : Text → Option Text → Action Text
  require_token label none =
      throw (str "provisionPeers: user.login returned empty token for " ++ label)
  require_token label (some []) =
      throw (str "provisionPeers: user.login returned empty token for " ++ label)
  require_token label (some (c ∷ t)) = pure (c ∷ t)

  -- One round of `provisionPeers`.
  provision_one : Text → Text → Text → Action PeerSession
  unfolding require_created require_token
  provision_one label domain password = do
    let email = email_of label domain
    reply ← request (user_create email password) (λ s. ex.create s email password)
    did ← require_created label email reply
    answer ← request (user_login email password) (λ s. ex.login s email password)
    token ← require_token label answer
    request (connect token) (λ s. ex.open_client s token)
    pure (record { label = label; email = email; password = password; token = token; did = did })

  module _ (random : ℕ → Text) (prefix domain : Text) where
    -- The loop, with the rounds left and the index.
    provision_from : ℕ → ℕ → Action (List PeerSession)
    provision_from zero i = pure []
    provision_from (suc n) i = do
      session ← provision_one (label_of prefix i) domain (str "pw-" ++ random i)
      rest ← provision_from n (suc i)
      pure (session ∷ rest)

    unfoldable pub provision_peers : ℕ → Action (List PeerSession)
    unfolding provision_from provision_one
    provision_peers count = provision_from count 0

-- `registerSfuMembers`: the calls of `sfu.ensureMembership`, as (node, did).
unfoldable pub register_sfu_members : Text → List PeerSession → List (Text × Text)
register_sfu_members admin [] = []
register_sfu_members admin (s ∷ ss) = (admin, s.did) ∷ register_sfu_members admin ss

pub record NodeEntry : Type 0 where
  pub token : Text
  pub did : Text

pub record ClusterPeerSession : Type 0 where
  pub label : Text
  pub email : Text
  pub password : Text
  pub by_node : Dict NodeEntry

all_dids : List Text → Dict NodeEntry → List Text
unfolding add
all_dids set [] = set
all_dids set ((_, e) ∷ es) = all_dids (add e.did set) es

register_did : Text → List Text → List (Text × Text)
register_did did [] = []
register_did did (node ∷ nodes) = (node, did) ∷ register_did did nodes

register_dids : List Text → List Text → List (Text × Text)
unfolding register_did
register_dids nodes [] = []
register_dids nodes (did ∷ dids) = register_did did nodes ++ register_dids nodes dids

-- `registerClusterSfuMembers`, where every call returns.
unfoldable pub register_cluster_sfu_members :
    List Text → List ClusterPeerSession → List (Text × Text)
unfolding register_dids all_dids
register_cluster_sfu_members nodes [] = []
register_cluster_sfu_members nodes (s ∷ ss) =
    register_dids nodes (all_dids [] s.by_node) ++ register_cluster_sfu_members nodes ss
