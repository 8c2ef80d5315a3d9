-- ===== src/Users/Tests.antt =====
-- Two peers on an executor that answers everything, and a cluster of two nodes.
use ad4m_link_language_tests.Prelude.{
  contains, str, ◌≡◌, ◌≢◌, refl, true, none, some, List, [], ◌∷◌, map, All, IsDistinct, ◌===◌,
}
use ad4m_link_language_tests.Prelude.Outcome.{returned}
use ad4m_link_language_tests.Users.{
  Executor, PeerSession, provision_peers, email_of, ClusterPeerSession,
  register_cluster_sfu_members,
}
use ad4m_link_language_tests.Users.Provision.{IsNew, IsCooperative, labels, provision_peers_ok}
use ad4m_link_language_tests.Users.Members.{IsRegistered, cluster_registers_all}

abbrev executor : Executor
executor = record {
  create =
      λ s email password. returned (record { did = str "did:x"; success = true; error = none });
  login = λ s email password. returned (some (str "token"));
  open_client = λ s token. returned tt;
}

executor-IsCooperative : IsCooperative executor
executor-IsCooperative = record {
  creates = λ s email password _.
      (record { did = str "did:x"; success = true; error = none }, refl, refl);
  logs_in = λ s email password _. (b't', str "oken", refl);
  connects = λ s email password token _. refl;
}

provision_peers_ok_example :
    (ps : List PeerSession) × ((provision_peers executor
        (λ i. str "r")
        (str "peer")
        (str "test.local")
        2
        []).0
      ≡ returned ps)
    × (map (λ p. p.label) ps ≡ labels (str "peer") 2 0)
    × IsDistinct (map (λ p. p.email) ps)
    × All (λ p. (p.email ≡ email_of p.label (str "test.local")) × (p.token ≢ [])) ps
unfolding IsNew labels
provision_peers_ok_example =
    provision_peers_ok executor (λ i. str "r") (str "peer") (str "test.local") 2 []
      executor-IsCooperative (refl, (refl, tt))

abbrev sessions : List ClusterPeerSession
sessions =
    record {
      label = str "peer-0";
      email = str "peer-0@test.local";
      password = str "pw";
      by_node =
          (str "n1", record { token = str "t1"; did = str "did:a" })
          ∷ (str "n2", record { token = str "t2"; did = str "did:b" })
          ∷ [];
    }
    ∷ []

two-calls :
    register_cluster_sfu_members (str "n1" ∷ str "n2" ∷ []) sessions
    ≡ (str "n1", str "did:a")
      ∷ (str "n2", str "did:a")
      ∷ (str "n1", str "did:b")
      ∷ (str "n2", str "did:b")
      ∷ []
unfolding register_cluster_sfu_members contains ◌===◌
two-calls = refl

cluster_registers_all_example :
    IsRegistered
      (str "n2")
      (register_cluster_sfu_members (str "n1" ∷ str "n2" ∷ []) sessions)
      sessions
unfolding contains ◌===◌
cluster_registers_all_example =
    cluster_registers_all (str "n1" ∷ str "n2" ∷ []) sessions (str "n2") refl
