-- ===== src/Convergence/Registry/Hosted.antt =====
-- src/convergence/languages.ts: the languages whose backend is a server of its own.
use ad4m_link_language_tests.Prelude.{Text, str, none, some, [], ◌∷◌, ◌++◌}
use ad4m_link_language_tests.Convergence.{ConvergenceLanguage, Environment}
use ad4m_link_language_tests.Convergence.Provision.{provision_matrix, provision_atproto}
use ad4m_link_language_tests.Convergence.Registry.Bundle.{bundle, at_home}

abbrev nostr_privkey : Text
nostr_privkey = str "19a9195a85f6aae3214da4a226b25efa1367ece744bc499f60fbee780303af82"

abbrev nostr_pubkey : Text
nostr_pubkey = str "064a6bf3e959379b7ecf026354af5295439f8f525def6102b946251e09741149"

abbrev pub nostr : Environment → ConvergenceLanguage
nostr env = record {
  id = str "nostr";
  bundle_path = bundle env.workspace_root (str "nostr");
  possible_template_params =
      str "NOSTR_RELAY_URLS"
      ∷ str "NOSTR_NEIGHBOURHOOD_ID"
      ∷ str "NOSTR_PUBKEY"
      ∷ str "NOSTR_PRIVKEY"
      ∷ str "NEIGHBOURHOOD_META"
      ∷ [];
  backend = at_home (str "docker-compose.nostr.yml") 7777;
  make_template_data = λ id.
      (str "NOSTR_RELAY_URLS", str "[\"ws://127.0.0.1:7777\"]")
      ∷ (str "NOSTR_NEIGHBOURHOOD_ID", id)
      ∷ (str "NOSTR_PUBKEY", nostr_pubkey)
      ∷ (str "NOSTR_PRIVKEY", nostr_privkey)
      ∷ (str "NEIGHBOURHOOD_META", str "{}")
      ∷ [];
  provision = none;
}

abbrev pub ipfs : Environment → ConvergenceLanguage
ipfs env = record {
  id = str "ipfs";
  bundle_path = bundle env.workspace_root (str "ipfs");
  possible_template_params =
      str "IPFS_API_URL"
      ∷ str "IPFS_GATEWAY_URL"
      ∷ str "IPNS_NAME"
      ∷ str "PINNING_SERVICE_URL"
      ∷ str "NEIGHBOURHOOD_META"
      ∷ str "NEIGHBOURHOOD_URL"
      ∷ str "SIDECAR_URL"
      ∷ [];
  backend =
      at_home
        (str
          "docker-compose.ipfs.yml (two Kubo nodes) + sidecar (ipfs-link-language/gateway, npm start on :7793)")
        7793;
  make_template_data = λ id.
      (str "IPFS_API_URL", str "http://127.0.0.1:5001")
      ∷ (str "IPFS_GATEWAY_URL", str "http://127.0.0.1:8080")
      ∷ (str "SIDECAR_URL", str "http://127.0.0.1:7793")
      ∷ (str "NEIGHBOURHOOD_URL", str "neighbourhood://" ++ id)
      ∷ (str "NEIGHBOURHOOD_META", str "{}")
      ∷ [];
  provision = none;
}

abbrev pub solid : Environment → ConvergenceLanguage
solid env = record {
  id = str "solid";
  bundle_path = bundle env.workspace_root (str "solid");
  possible_template_params =
      str "SOLID_POD_URL"
      ∷ str "SOLID_CONTAINER_PATH"
      ∷ str "SOLID_IDP_URL"
      ∷ str "SOLID_WEBID"
      ∷ str "NEIGHBOURHOOD_META"
      ∷ [];
  backend = at_home (str "docker-compose.solid.yml") env.solid_port;
  make_template_data = λ id.
      (str "SOLID_POD_URL", env.solid_base_url)
      ∷ (str "SOLID_CONTAINER_PATH", str "ad4m/" ++ (id ++ b'/' ∷ []))
      ∷ (str "NEIGHBOURHOOD_META", str "{}")
      ∷ [];
  provision = none;
}

abbrev pub matrix : Environment → ConvergenceLanguage
matrix env = record {
  id = str "matrix";
  bundle_path = bundle env.workspace_root (str "matrix");
  possible_template_params =
      str "MATRIX_HOMESERVER_URL"
      ∷ str "MATRIX_ROOM_ID"
      ∷ str "MATRIX_USER_ID"
      ∷ str "MATRIX_ACCESS_TOKEN"
      ∷ str "MATRIX_ROOM_ALIAS"
      ∷ str "NEIGHBOURHOOD_META"
      ∷ [];
  backend = at_home (str "docker-compose.matrix.yml") 6167;
  make_template_data = λ id. (str "NEIGHBOURHOOD_META", str "{}") ∷ [];
  provision = some (provision_matrix env);
}

abbrev pub atproto : Environment → ConvergenceLanguage
atproto env = record {
  id = str "atproto";
  bundle_path = bundle env.workspace_root (str "atproto");
  possible_template_params =
      str "AT_PDS_URL"
      ∷ str "AT_RELAY_URL"
      ∷ str "AT_DID"
      ∷ str "AT_HANDLE"
      ∷ str "AT_COLLECTION_NSID"
      ∷ str "AT_APP_PASSWORD"
      ∷ str "NEIGHBOURHOOD_META"
      ∷ [];
  backend = at_home (str "docker-compose.atproto.yml") 2583;
  make_template_data = λ id. (str "NEIGHBOURHOOD_META", str "{}") ∷ [];
  provision = some (provision_atproto env);
}
