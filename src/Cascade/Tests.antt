-- ===== src/Cascade/Tests.antt =====
-- src/cascade.ts: a cluster of two executors.
use ad4m_link_language_tests.Cascade
use ad4m_link_language_tests.Cascade.Peers
use ad4m_link_language_tests.Prelude.Outcome.{returned, threw}
use ad4m_link_language_tests.Prelude.{
  Text, str, true, false, Option, some, none, ◌++◌, get_elem?, IsDistinct, ◌≡◌, refl, inl, arith,
  map,
}

abbrev two_nodes : Cascade.Options
two_nodes = record {
  node_count = 2;
  max_participants_per_node = 5;
  ws_base_port = none;
  gossip_base_port = none;
}

-- Every answer is the good one, but `agent.generate` says what `answer` is.
abbrev world : Option Text → Cascade.World
world answer = record {
  init_data_dir = λ _. returned tt;
  healthy = λ _. returned tt;
  connects = λ _. returned tt;
  generates = λ _. returned answer;
  has_exited = λ i. false;
  exists = λ _. true;
}

tolerates_already :
    (Cascade.start_cluster (world (some (str "Agent ALREADY exists"))) (str "token") two_nodes).1
    ≡ returned (Cascade.planned_nodes two_nodes)
unfolding Cascade.start_cluster
tolerates_already = refl

fails_otherwise :
    (Cascade.start_cluster (world (some (str "timeout"))) (str "token") two_nodes).1
    ≡ threw (str "cascade: node node-0 agent.generate failed: timeout")
unfolding Cascade.start_cluster
fails_otherwise = refl

start_cluster-peers_example :
    (get_elem? (Cascade.start_cluster (world none) (str "token") two_nodes).0 5
      ≡ some (
          Cascade.spawn 1 (
            Cascade.own_args (str "token") two_nodes (Cascade.planned_node 12000 24000 1)
            ++ Peers.peers_args (
                map Cascade.address
                  (Cascade.planned_from 12000 24000 1 0 ++ Cascade.planned_from 12000 24000 0 2)))))
    × IsDistinct (Peers.ports (Cascade.planned_nodes two_nodes))
unfolding Cascade.planned_nodes
start_cluster-peers_example =
    Peers.start_cluster-peers (world none) (str "token") two_nodes (refl, (refl, tt))
      (inl (omega arith)) 1 (omega arith)
