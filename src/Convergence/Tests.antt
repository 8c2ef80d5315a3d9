-- ===== src/Convergence/Tests.antt =====
-- The registry in an environment whose servers answer, and whose `hex32` is the identity.
use ad4m_link_language_tests.Prelude.{str, ◌≤◌, refl, none, some, length, All, ◌===◌, ◌≢◌, arith}
use ad4m_link_language_tests.Prelude.Outcome.{returned}
use ad4m_link_language_tests.Convergence.{Environment, registered}
use ad4m_link_language_tests.Convergence.Provision.{safe_localpart, handle_front}
use ad4m_link_language_tests.Convergence.Provision.Handle.{IsSafe, handle_front-fits}
use ad4m_link_language_tests.Convergence.Registry.{get_convergence_language}
use ad4m_link_language_tests.Convergence.Registry.Hosted.{matrix}
use ad4m_link_language_tests.Convergence.Registry.Gateways.{hypercore}
use ad4m_link_language_tests.Convergence.Registry.Templates.{
  DeclaresTemplates, get_convergence_language-DeclaresTemplates,
}
use ad4m_link_language_tests.Convergence.Registry.Entries.{get_convergence_language-Separates}

abbrev environment : Environment
environment = record {
  workspace_root = str "/w";
  solid_port = 3000;
  solid_base_url = str "http://127.0.0.1:3000";
  matrix_base = str "http://127.0.0.1:6167";
  atproto_pds_base = str "http://127.0.0.1:2583";
  hex32 = λ s. s;
  servers = record {
    register = λ username password session. registered (some (str "t")) (some (str "@u"));
    create_room = λ name token. returned (some (str "!room"));
    create_account = λ handle email password. returned (some (str "did:plc:1"), none);
  };
}

get_convergence_language-DeclaresTemplates_example : DeclaresTemplates (matrix environment)
unfolding get_convergence_language ◌===◌
get_convergence_language-DeclaresTemplates_example =
    get_convergence_language-DeclaresTemplates environment (str "matrix") (matrix environment) refl

get_convergence_language-Separates_example :
    (hypercore environment).make_template_data (str "c1-7")
    ≢ (hypercore environment).make_template_data (str "c1-8")
unfolding get_convergence_language ◌===◌
get_convergence_language-Separates_example =
    get_convergence_language-Separates environment (str "c1-7") (str "c1-8") (λ e. e)
      (str "hypercore") (hypercore environment) refl refl (λ p. ground (arith, p))

handle_front-fits_example :
    (length (safe_localpart (str "c1-0F3b")) ≤ 24)
    × All IsSafe (safe_localpart (str "c1-0F3b"))
    × (3 ≤ length (handle_front (str "c1-0F3b")))
    × (length (handle_front (str "c1-0F3b")) ≤ 18)
    × All IsSafe (handle_front (str "c1-0F3b"))
handle_front-fits_example = handle_front-fits (str "c1-0F3b")
