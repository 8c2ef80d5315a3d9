-- ===== src/Topology/Cells.antt =====
-- src/scenarios/t5-topology-table.ts: what the table decides, and why no cell of it diverges.
use ad4m_link_language_tests.Topology
use ad4m_link_language_tests.Prelude.Outcome.{returned}
use ad4m_link_language_tests.Prelude.{str, ℕ, ◌<◌, Bool, List, [], ◌∷◌, All, ◌≡◌, ◌↔◌, refl, arith}

same_topology_refl : (t : Topology.Mode) → Topology.same_topology t t ≡ Bool.true
unfolding Topology.same_topology
same_topology_refl Topology.mesh = refl
same_topology_refl Topology.sfu = refl
same_topology_refl Topology.cascaded = refl

-- Whatever `resolve` decides, a cell whose expectation was made by `resolve` does not diverge.
failures-nil :
    (matrix : List Topology.Case)
    → All (λ c. c.expected ≡ Topology.resolve c.mode c.participant_count c.max_mesh c.avail) matrix
    → Topology.failures matrix ≡ []
unfolding Topology.failures Topology.diverges
failures-nil [] h = refl
failures-nil (c ∷ cs) (made, h) =
    let same = same_topology_refl c.expected in ground (arith, made, same, failures-nil cs h)

-- The table sends participants through the server exactly when it is asked for and there is a reason:
-- in mode sfu with some server and more participants than the mesh takes, or in mode cascaded with a single server.
resolve-sfu :
    (count max : ℕ)
    → (Topology.resolve Topology.sfu count max Topology.single ≡ Topology.sfu) ↔ (max < count)
unfolding Topology.resolve Topology.by_count
resolve-sfu count max = ground arith

run_passes : Topology.run ≡ returned (str "T5: 90 cells PASS — mesh=60 sfu=20 cascaded=10")
unfolding Topology.run
run_passes = refl
