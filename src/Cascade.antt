-- ===== src/Cascade.antt =====
-- src/cascade.ts: a cluster of executors that gossip with each other. What the operating system and
-- the executors do is a `World`; processes, signals and directories are listed as effects, in order.
mod Peers
mod Pod
mod Tests
use ad4m_link_language_tests.Prelude.Outcome.{Outcome, returned, threw, ◌>>=◌}
use ad4m_link_language_tests.Prelude.{
  Text, str, decimal, ℕ, zero, suc, ◌+◌, Bool, true, false, not, ◌&&◌, ◌==◌, leb, Option, none,
  some, List, [], ◌∷◌, ◌++◌, map, includes, if◌then◌else◌,
}

pub record Options : Type 0 where
  pub node_count : ℕ
  pub max_participants_per_node : ℕ
  pub ws_base_port : Option ℕ
  pub gossip_base_port : Option ℕ

pub record Planned : Type 0 where
  pub id : Text
  pub port : ℕ
  pub gossip_port : ℕ
  pub data_path : Text
  pub did : Text

or_default : Option ℕ → ℕ → ℕ
or_default none d = d
or_default (some n) d = n

unfoldable pub planned_node : ℕ → ℕ → ℕ → Planned
unfolding decimal
planned_node ws gossip i = record {
  id = str "node-" ++ decimal i;
  port = ws + i;
  gossip_port = gossip + i;
  data_path = str "/tmp/ad4m-cascade-node-" ++ decimal i;
  did = str "did:windtunnel:cascade:node-" ++ decimal i;
}

-- The nodes from `i` on, with the number that is left.
unfoldable pub planned_from : ℕ → ℕ → ℕ → ℕ → List Planned
unfolding planned_node
planned_from ws gossip zero i = []
planned_from ws gossip (suc left) i = planned_node ws gossip i ∷ planned_from ws gossip left (suc i)

unfoldable pub ws_base : Options → ℕ
unfolding or_default
ws_base o = or_default o.ws_base_port 12000

unfoldable pub gossip_base : Options → ℕ
unfolding or_default
gossip_base o = or_default o.gossip_base_port 24000

unfoldable pub planned_nodes : Options → List Planned
unfolding planned_from ws_base gossip_base
planned_nodes o = planned_from (ws_base o) (gossip_base o) o.node_count 0

-- `${p.did}=127.0.0.1:${p.gossipPort}`
unfoldable pub address : Planned → Text
unfolding decimal
address p = p.did ++ (str "=127.0.0.1:" ++ decimal p.gossip_port)

-- `plannedNodes.filter((_, j) => j !== i)`, from the index `j` on.
unfoldable pub others : ℕ → ℕ → List Planned → List Planned
others i j [] = []
others i j (p ∷ ps) = let rest = others i (suc j) ps in if j == i then rest else p ∷ rest

-- `join(",")`
join : List Text → Text
join [] = []
join (a ∷ []) = a
join (a ∷ (b ∷ rest)) = a ++ (b',' ∷ join (b ∷ rest))

with_peers : List Text → Text → List Text
with_peers args [] = args
with_peers args (c ∷ entries) = args ++ str "--sfu-cascade-peers" ∷ (c ∷ entries) ∷ []

-- The arguments of an executor, but for the peers it is told of.
unfoldable pub own_args : Text → Options → Planned → List Text
unfolding decimal
own_args admin_token o p =
    (str "run"
      ∷ str "--app-data-path"
      ∷ p.data_path
      ∷ str "--port"
      ∷ decimal p.port
      ∷ str "--admin-credential"
      ∷ admin_token
      ∷ str "--run-dapp-server"
      ∷ str "false"
      ∷ str "--hc-use-bootstrap"
      ∷ str "false"
      ∷ str "--hc-use-proxy"
      ∷ str "false"
      ∷ str "--enable-multi-user"
      ∷ str "true"
      ∷ str "--connect-holochain"
      ∷ str "false"
      ∷ str "--sfu-local-did"
      ∷ p.did
      ∷ str "--sfu-max-participants-per-node"
      ∷ decimal o.max_participants_per_node
      ∷ str "--sfu-cascade-listen"
      ∷ (str "127.0.0.1:" ++ decimal p.gossip_port)
      ∷ [])

-- The arguments of the `i`-th executor.
unfoldable pub args_of : Text → Options → ℕ → Planned → List Text
unfolding with_peers join others address planned_nodes own_args
args_of admin_token o i p =
    with_peers (own_args admin_token o p) (join (map address (others i 0 (planned_nodes o))))

pub data Effect : Type 0 where
  free_port : ℕ → Effect
  spawn : ℕ → List Text → Effect
  disconnect terminate kill : ℕ → Effect
  remove : Text → Effect

-- What `agent.generate` answers: nothing wrong, or an error.
pub record World : Type 0 where
  pub init_data_dir : Text → Outcome (Unit {0})
  pub healthy : ℕ → Outcome (Unit {0})
  pub connects : ℕ → Outcome (Unit {0})
  pub generates : ℕ → Outcome (Option Text)
  pub has_exited : ℕ → Bool
  pub exists : Text → Bool

to_lower : ℕ → ℕ
to_lower c = if leb b'A' c && leb c b'Z' then c + 32 else c

-- The ports that stragglers are driven from.
free_ports : List Planned → List Effect
free_ports [] = []
free_ports (p ∷ ps) = free_port p.port ∷ free_port p.gossip_port ∷ free_ports ps

-- `Promise.all`: a failure if one of them fails; the first in the list stands for the first in time.
all_ok : (Planned → Outcome (Unit {0})) → List Planned → Outcome (Unit {0})
unfolding ◌>>=◌
all_ok f [] = returned tt
all_ok f (p ∷ ps) = f p >>= (λ _. all_ok f ps)

-- `/already/i.test(error)`
says_already : Text → Bool
unfolding includes to_lower
says_already e = includes (map to_lower e) (str "already")

tolerated : Planned → Option Text → Outcome (Unit {0})
unfolding says_already
tolerated p none = returned tt
tolerated p (some []) = returned tt
tolerated p (some (c ∷ e)) =
    if says_already (c ∷ e)
    then returned tt
    else threw (str "cascade: node " ++ p.id ++ str " agent.generate failed: " ++ (c ∷ e))

spawned : ℕ → List Text → List Effect × Outcome (Unit {0}) → List Effect × Outcome (Unit {0})
spawned i args (effects, rest) = (spawn i args ∷ effects, rest)

-- The loop that spawns, from the index `i` on; what was spawned before a failure stays.
unfoldable pub spawn_all :
    World → Text → Options → ℕ → List Planned → List Effect × Outcome (Unit {0})
unfolding args_of spawned
spawn_all w admin_token o i [] = ([], returned tt)
spawn_all w admin_token o i (p ∷ ps) = elim (w.init_data_dir p.data_path) [
  | threw e ↦ ([], threw e)
  | returned _ ↦ spawned i (args_of admin_token o i p) (spawn_all w admin_token o (suc i) ps)
]

generated : World → ℕ → List Planned → Outcome (Unit {0})
unfolding tolerated ◌>>=◌
generated w i [] = returned tt
generated w i (p ∷ ps) =
    w.generates i >>= (λ answer. tolerated p answer >>= (λ _. generated w (suc i) ps))

-- What follows the loop that spawns.
unfoldable pub brought_up : World → List Planned → Outcome (List Planned)
unfolding all_ok generated ◌>>=◌
brought_up w nodes = all_ok (λ p. w.healthy p.port) nodes >>= (λ _.
    all_ok (λ p. w.connects p.port) nodes >>= (λ _. generated w 0 nodes >>= (λ _. returned nodes)))

after_spawn :
    World → List Planned → List Effect × Outcome (Unit {0}) → List Effect × Outcome (List Planned)
unfolding brought_up free_ports ◌>>=◌
after_spawn w nodes (effects, outcome) =
    (free_ports nodes ++ effects, outcome >>= (λ _. brought_up w nodes))

-- `startCluster`: what was done, and the nodes or the failure.
unfoldable pub start_cluster : World → Text → Options → List Effect × Outcome (List Planned)
unfolding after_spawn spawn_all planned_nodes
start_cluster w admin_token o =
    after_spawn w (planned_nodes o) (spawn_all w admin_token o 0 (planned_nodes o))

-- Each client is disconnected before its process is signalled.
terminate_all : ℕ → List Planned → List Effect
terminate_all i [] = []
terminate_all i (p ∷ ps) = disconnect i ∷ terminate i ∷ terminate_all (suc i) ps

module _ (w : World) where
  -- Those that have not exited when the wait ends.
  kill_rest : ℕ → List Planned → List Effect
  kill_rest i [] = []
  kill_rest i (p ∷ ps) =
      let rest = kill_rest (suc i) ps in if w.has_exited i then rest else kill i ∷ rest

  remove_dirs : List Planned → List Effect
  remove_dirs [] = []
  remove_dirs (p ∷ ps) =
      let rest = remove_dirs ps in if w.exists p.data_path then remove p.data_path ∷ rest else rest

  unfoldable pub shutdown : List Planned → List Effect
  unfolding terminate_all kill_rest remove_dirs
  shutdown nodes = terminate_all 0 nodes ++ kill_rest 0 nodes ++ remove_dirs nodes
