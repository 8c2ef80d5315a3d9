-- ===== src/Users/Cluster.antt =====
-- src/users.ts: `provisionClusterPeers`. What a node answers may depend on every request that was
-- made to the cluster so far.
use ad4m_link_language_tests.Prelude.{
  Text, Dict, str, ℕ, zero, suc, Option, none, some, List, [], ◌∷◌, ◌++◌, if◌then◌else◌, insert,
}
use ad4m_link_language_tests.Users.{
  user_create, user_login, connect, CreateReply, Executor, Action, ◌>>=◌, ◌>>◌, pure, throw,
  request, or_unknown, label_of, email_of, NodeEntry, ClusterPeerSession,
}

-- A node's id and its executor.
pub record Node : Type 0 where
  pub node_id : Text
  pub admin : Executor

require_created : Text → Text → CreateReply → Action Text
require_created node_id label r =
    if r.success
    then pure r.did
    else throw (
        str "provisionClusterPeers: user.create failed on "
        ++ node_id
        ++ str " for "
        ++ label
        ++ str ": "
        ++ or_unknown r.error)

empty_token : Text → Text → Text
empty_token node_id label =
    str "provisionClusterPeers: empty token on " ++ node_id ++ str " for " ++ label

require_token : Text → Text → Option Text → Action Text
unfolding empty_token
require_token node_id label none = throw (empty_token node_id label)
require_token node_id label (some []) = throw (empty_token node_id label)
require_token node_id label (some (c ∷ t)) = pure (c ∷ t)

module _ (label email password : Text) where
  provision_on : Node → Action NodeEntry
  unfolding require_created require_token
  provision_on n = do
    reply ← request (user_create email password) (λ s. n.admin.create s email password)
    did ← require_created n.node_id label reply
    answer ← request (user_login email password) (λ s. n.admin.login s email password)
    token ← require_token n.node_id label answer
    request (connect token) (λ s. n.admin.open_client s token)
    pure (record { token = token; did = did })

  -- The loop over the nodes.
  provision_nodes : List Node → Dict NodeEntry → Action (Dict NodeEntry)
  unfolding provision_on insert
  provision_nodes [] by_node = pure by_node
  provision_nodes (n ∷ nodes) by_node = do
    entry ← provision_on n
    provision_nodes nodes (insert n.node_id entry by_node)

module _ (random : ℕ → Text) (nodes : List Node) (prefix domain : Text) where
  provision_cluster_one : ℕ → Action ClusterPeerSession
  unfolding provision_nodes
  provision_cluster_one i = do
    let label = label_of prefix i
    let email = email_of label domain
    let password = str "pw-" ++ random i
    by_node ← provision_nodes label email password nodes []
    pure (record { label = label; email = email; password = password; by_node = by_node })

  provision_cluster_from : ℕ → ℕ → Action (List ClusterPeerSession)
  unfolding provision_cluster_one
  provision_cluster_from zero i = pure []
  provision_cluster_from (suc n) i = do
    session ← provision_cluster_one i
    rest ← provision_cluster_from n (suc i)
    pure (session ∷ rest)

  unfoldable pub provision_cluster_peers : ℕ → Action (List ClusterPeerSession)
  unfolding provision_cluster_from
  provision_cluster_peers count = provision_cluster_from count 0
