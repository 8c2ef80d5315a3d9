-- ===== src/Convergence/Provision/Variables.antt =====
-- src/convergence/provision.ts: the template variables that provisioning supplies.
use ad4m_link_language_tests.Prelude.{Text, Dict, str, List, [], ◌∷◌, ◌≡◌, refl, map}
use ad4m_link_language_tests.Prelude.Outcome.{Yields, Yields-bind}
use ad4m_link_language_tests.Convergence.{Environment}
use ad4m_link_language_tests.Convergence.Provision.{provision_matrix, provision_atproto}

abbrev pub names : Dict Text → List Text
names = map (λ e. e.0)

pub names-provision_matrix :
    (env : Environment) (id : Text)
    → Yields
        (λ d.
          names d
          ≡ str "MATRIX_HOMESERVER_URL"
            ∷ str "MATRIX_USER_ID"
            ∷ str "MATRIX_ACCESS_TOKEN"
            ∷ str "MATRIX_ROOM_ID"
            ∷ str "MATRIX_ROOM_ALIAS"
            ∷ [])
        (provision_matrix env id)
unfolding provision_matrix Yields
names-provision_matrix env id = Yields-bind _ _ _ λ reg.
    Yields-bind _ _ _
      λ token. Yields-bind _ _ _ λ user. Yields-bind _ _ _ λ room. Yields-bind _ _ _ λ room_id. refl

pub names-provision_atproto :
    (env : Environment) (id : Text)
    → Yields
        (λ d.
          names d ≡ str "AT_PDS_URL" ∷ str "AT_DID" ∷ str "AT_HANDLE" ∷ str "AT_APP_PASSWORD" ∷ [])
        (provision_atproto env id)
unfolding provision_atproto Yields
names-provision_atproto env id = Yields-bind _ _ _ λ acct. Yields-bind _ _ _ λ did. refl
