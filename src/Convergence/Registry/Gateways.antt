-- ===== src/Convergence/Registry/Gateways.antt =====
-- src/convergence/languages.ts: the languages behind a gateway or a shim.
use ad4m_link_language_tests.Prelude.{Text, str, none, [], ◌∷◌, ◌++◌}
use ad4m_link_language_tests.Convergence.{ConvergenceLanguage, Environment}
use ad4m_link_language_tests.Convergence.Registry.Bundle.{bundle, at_home}

abbrev group_actor_url : Text → Text
group_actor_url id = str "http://127.0.0.1:7791/ap/v1/groups/" ++ id

abbrev pub nextgraph : Environment → ConvergenceLanguage
nextgraph env = record {
  id = str "nextgraph";
  bundle_path = bundle env.workspace_root (str "nextgraph");
  possible_template_params =
      str "NEXTGRAPH_GATEWAY_URL" ∷ str "NEXTGRAPH_REPO_ID" ∷ str "NEIGHBOURHOOD_META" ∷ [];
  backend = at_home (str "gateway (nextgraph-link-language/gateway, npm start on :7779)") 7779;
  make_template_data = λ id.
      (str "NEXTGRAPH_GATEWAY_URL", str "http://127.0.0.1:7779")
      ∷ (str "NEXTGRAPH_REPO_ID", id)
      ∷ (str "NEIGHBOURHOOD_META", str "{}")
      ∷ [];
  provision = none;
}

abbrev pub peer2panda : Environment → ConvergenceLanguage
peer2panda env = record {
  id = str "peer2panda";
  bundle_path = bundle env.workspace_root (str "peer2panda");
  possible_template_params =
      str "PEER2PANDA_GATEWAY_URL" ∷ str "PEER2PANDA_TOPIC_ID" ∷ str "NEIGHBOURHOOD_META" ∷ [];
  backend =
      at_home (str "gateway (peer2panda-link-language/gateway, cargo run --release on :7780)") 7780;
  make_template_data = λ id.
      (str "PEER2PANDA_GATEWAY_URL", str "http://127.0.0.1:7780")
      ∷ (str "PEER2PANDA_TOPIC_ID", id)
      ∷ (str "NEIGHBOURHOOD_META", str "{}")
      ∷ [];
  provision = none;
}

abbrev pub hypercore : Environment → ConvergenceLanguage
hypercore env = record {
  id = str "hypercore";
  bundle_path = bundle env.workspace_root (str "hypercore");
  possible_template_params =
      str "HYPERCORE_KEY"
      ∷ str "DISCOVERY_KEY"
      ∷ str "BOOTSTRAP_NODES"
      ∷ str "NEIGHBOURHOOD_META"
      ∷ str "HYPERCORE_GATEWAY_URL"
      ∷ [];
  backend = at_home (str "gateway (hypercore-link-language/gateway, npm start on :7790)") 7790;
  make_template_data = λ id.
      (str "HYPERCORE_GATEWAY_URL", str "http://127.0.0.1:7790")
      ∷ (str "HYPERCORE_KEY", env.hex32 id)
      ∷ (str "NEIGHBOURHOOD_META", str "{}")
      ∷ [];
  provision = none;
}

abbrev pub ap : Environment → ConvergenceLanguage
ap env = record {
  id = str "ap";
  bundle_path = bundle env.workspace_root (str "ap");
  possible_template_params =
      str "GROUP_ACTOR_URL"
      ∷ str "GROUP_INBOX_URL"
      ∷ str "GROUP_OUTBOX_URL"
      ∷ str "FEDERATION_DOMAIN"
      ∷ str "NEIGHBOURHOOD_META"
      ∷ [];
  backend = at_home (str "shim (node infra/ap-group-shim.mjs on :7791)") 7791;
  make_template_data = λ id.
      (str "GROUP_ACTOR_URL", group_actor_url id)
      ∷ (str "GROUP_INBOX_URL", group_actor_url id ++ str "/inbox")
      ∷ (str "GROUP_OUTBOX_URL", group_actor_url id ++ str "/outbox")
      ∷ (str "FEDERATION_DOMAIN", str "127.0.0.1:7791")
      ∷ (str "NEIGHBOURHOOD_META", str "{}")
      ∷ [];
  provision = none;
}

abbrev pub git : Environment → ConvergenceLanguage
git env = record {
  id = str "git";
  bundle_path = bundle env.workspace_root (str "git");
  possible_template_params =
      str "REMOTE_URL"
      ∷ str "REMOTE_KIND"
      ∷ str "DEFAULT_BRANCH"
      ∷ str "AUTH_TOKEN"
      ∷ str "GIT_API_BASE"
      ∷ str "MERGE_POLICY"
      ∷ str "PUSH_DEBOUNCE_MS"
      ∷ str "PULL_INTERVAL_MS"
      ∷ [];
  backend = at_home (str "shim (node infra/git-data-shim.mjs on :7792)") 7792;
  make_template_data = λ id.
      (str "REMOTE_URL", str "http://127.0.0.1:7792/c1/" ++ id)
      ∷ (str "GIT_API_BASE", str "http://127.0.0.1:7792")
      ∷ (str "REMOTE_KIND", str "github")
      ∷ (str "DEFAULT_BRANCH", str "main")
      ∷ (str "AUTH_TOKEN", [])
      ∷ (str "MERGE_POLICY", str "add-wins")
      ∷ (str "PUSH_DEBOUNCE_MS", str "500")
      ∷ (str "PULL_INTERVAL_MS", str "2000")
      ∷ [];
  provision = none;
}

abbrev pub anytype : Environment → ConvergenceLanguage
anytype env = record {
  id = str "anytype";
  bundle_path = bundle env.workspace_root (str "anytype");
  possible_template_params =
      str "ANYTYPE_GATEWAY_URL" ∷ str "ANYTYPE_SPACE_ID" ∷ str "NEIGHBOURHOOD_META" ∷ [];
  backend =
      at_home
        (str "gateway (anytype-link-language/gateway, go build -o anytype-gateway . on :7794)")
        7794;
  make_template_data = λ id.
      (str "ANYTYPE_GATEWAY_URL", str "http://127.0.0.1:7794")
      ∷ (str "ANYTYPE_SPACE_ID", id)
      ∷ (str "NEIGHBOURHOOD_META", str "{}")
      ∷ [];
  provision = none;
}

abbrev pub freenet : Environment → ConvergenceLanguage
freenet env = record {
  id = str "freenet";
  bundle_path = bundle env.workspace_root (str "freenet");
  possible_template_params =
      str "FREENET_GATEWAY_URL" ∷ str "FREENET_CONTRACT_KEY" ∷ str "NEIGHBOURHOOD_META" ∷ [];
  backend =
      at_home
        (str
          "node + gateway (freenet-link-language/gateway, cargo build --release on :7795; freenet local node on :7509)")
        7795;
  make_template_data = λ id.
      (str "FREENET_GATEWAY_URL", str "http://127.0.0.1:7795")
      ∷ (str "FREENET_CONTRACT_KEY", id)
      ∷ (str "NEIGHBOURHOOD_META", str "{}")
      ∷ [];
  provision = none;
}
