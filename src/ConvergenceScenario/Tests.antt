-- ===== src/ConvergenceScenario/Tests.antt =====
-- A run over hypercore, in which each agent writes one link and the second poll finds both.
use ad4m_link_language_tests.Prelude.{
  str, decimal, ◌*◌, ◌≡◌, refl, ◌⊎◌, true, none, some, List, [], ◌∷◌, ◌===◌, length, IsDistinct,
  contains, add, set_from, starts_with,
}
use ad4m_link_language_tests.Prelude.Outcome.{returned, threw, ◌>>=◌}
use ad4m_link_language_tests.Convergence.{Environment, registered}
use ad4m_link_language_tests.Convergence.Registry.{get_convergence_language}
use ad4m_link_language_tests.Convergence.Registry.Templates.{template_of}
use ad4m_link_language_tests.ConvergenceScenario.{
  World, Link, link_a, link_b, link_key, key_set, superset_of, expected, expected_from, rounds,
  arg_flag, language_id,
}
use ad4m_link_language_tests.ConvergenceScenario.Links.{expected-IsDistinct}
use ad4m_link_language_tests.ConvergenceScenario.Polls.{converge_poll, check_removal}
use ad4m_link_language_tests.ConvergenceScenario.Run.{run}
use ad4m_link_language_tests.ConvergenceScenario.Run.Verdict.{
  IsSkipped, Reason, Converged, run-passed,
}

abbrev environment : Environment
environment = record {
  workspace_root = str "/w";
  solid_port = 3000;
  solid_base_url = str "http://127.0.0.1:3000";
  matrix_base = str "http://127.0.0.1:6167";
  atproto_pds_base = str "http://127.0.0.1:2583";
  hex32 = λ s. s;
  servers = record {
    register = λ username password session. registered none none;
    create_room = λ name token. threw (str "no server");
    create_account = λ handle email password. threw (str "no server");
  };
}

unfoldable both : List Link
unfolding link_a link_b
both = link_b 0 ∷ link_a 0 ∷ []

unfoldable world : World
unfolding both link_a
world = record {
  branch = str "dev";
  duration_ms = 9000;
  converge_ms = 1000;
  argv = str "c1" ∷ str "--convergence-language" ∷ str "hypercore" ∷ [];
  language_variable = none;
  links = some 1;
  environment = environment;
  neighbourhood_id = str "c1-7";
  reachable = λ host port. true;
  boots = returned tt;
  connects = returned tt;
  publish_language = λ path params. record { error = none; answer = some (str "Qm1") };
  apply_template = λ source template. record { error = none; answer = some (str "Qm2") };
  create_perspective = record { error = none; answer = some (str "p") };
  publish_neighbourhood = λ uuid address. record { error = none; answer = some (str "nh://1") };
  join = λ url. returned (some (str "q"), str "{}");
  polls = λ a b. (link_a 0 ∷ [], []) ∷ (both, both) ∷ [];
  removal = λ a b. record {
    queried = both;
    removes = λ l. returned tt;
    polls = (both, []) ∷ (link_b 0 ∷ [], link_b 0 ∷ []) ∷ [];
    elapsed_ms = 500;
  };
}

world-passes : (run world).passed ≡ true
unfolding run world both expected expected_from rounds language_id arg_flag get_convergence_language
    template_of converge_poll check_removal key_set set_from superset_of link_key link_a link_b
    decimal contains add starts_with ◌===◌ ◌>>=◌
world-passes = refl

run-passed_example : (Reason world × IsSkipped (run world)) ⊎ Converged world
run-passed_example = run-passed world world-passes

expected-IsDistinct_example :
    IsDistinct (expected world) × (length (expected world) ≡ 2 * rounds world.links)
expected-IsDistinct_example = expected-IsDistinct world
