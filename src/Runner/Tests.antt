-- ===== src/Runner/Tests.antt =====
-- One branch with a scenario `m1` whose body fails, and one that passes.
use ad4m_link_language_tests.Prelude.{
  Text, Dict, str, ◌≡◌, ◌≢◌, ◌⊎◌, ◌↔◌, refl, true, false, none, some, [], ◌∷◌, length, map, arith,
  filter, ◌===◌, lookup, insert, IsDistinct,
}
use ad4m_link_language_tests.Prelude.Outcome.{returned, threw}
use ad4m_link_language_tests.Scenario.{Scenario, ScenarioResult}
use ad4m_link_language_tests.Runner.{
  Trial, World, run_scenario, run_scenarios_for_branch, branch_to_dir_name,
}
use ad4m_link_language_tests.Runner.CommandLine.{parse_args, command_line, parse_args-command_line}
use ad4m_link_language_tests.Runner.Processes.{IsClean, run_scenarios_for_branch-IsClean}
use ad4m_link_language_tests.Runner.Verdict.{IsReached, HasPassed, run_scenario-passed}
use ad4m_link_language_tests.Runner.Exit.{
  Settings, main, success, failure, selected, chosen_branches, locate, located,
}
use ad4m_link_language_tests.Runner.Exit.Failures.{EachPasses, main-success}

abbrev good : ScenarioResult
good = record {
  scenario = str "s1-good";
  branch = str "dev";
  duration_ms = 5;
  passed = true;
  metrics = [];
  summary = str "fine";
}

abbrev s1 : Scenario
s1 = record { id = str "s1"; name = str "Good one"; manages_own_environment = false }

abbrev m1 : Scenario
m1 = record { id = str "m1"; name = str "Two agents"; manages_own_environment = false }

abbrev passes : Trial
passes = record {
  starts = λ p. returned tt;
  healthy = λ p. returned tt;
  connects = returned tt;
  runs = returned good;
}

abbrev crashes : Trial
crashes = record passes { runs = threw (str "boom") }

abbrev world : World
world = record {
  binary_exists = λ p. true;
  builds = λ b. returned (str "/bin/ad4m");
  repo_is_valid = true;
  tmp_dir = str "/tmp";
  base_port = 12000;
  trial = λ b s. elim b [ [] ↦ crashes | _ ∷ _ ↦ passes ];
}

abbrev two_branches : Settings
two_branches = record {
  scenarios = [];
  branches = str "a/b" ∷ str "c" ∷ [];
  skip_build = true;
  executor_path = none;
}

main-two : main world (s1 ∷ m1 ∷ []) two_branches ≡ success
unfolding main run_scenarios_for_branch run_scenario ◌===◌ lookup insert
main-two = refl

abbrev one_lost : Settings
one_lost = record two_branches { branches = str "a" ∷ [] }

main-failure : main (record world { trial = λ b s. crashes }) (s1 ∷ []) one_lost ≡ failure
unfolding main run_scenarios_for_branch run_scenario ◌===◌ lookup insert
main-failure = refl

two-IsDistinct : IsDistinct (map branch_to_dir_name (chosen_branches two_branches.branches))
two-IsDistinct = ((λ p. ground (arith, p), tt), (tt, tt))

parse_args-command_line_example :
    ((parse_args (command_line (str "s1" ∷ []) (str "a/b" ∷ []))).scenarios ≡ some (str "s1") ∷ [])
    × ((parse_args (command_line (str "s1" ∷ []) (str "a/b" ∷ []))).branches
        ≡ some (str "a/b") ∷ [])
parse_args-command_line_example = parse_args-command_line (str "s1" ∷ []) (str "a/b" ∷ [])

run_scenarios_for_branch-IsClean_example :
    IsClean (run_scenarios_for_branch world [] 12000 (m1 ∷ s1 ∷ [])).1
    × (length (run_scenarios_for_branch world [] 12000 (m1 ∷ s1 ∷ [])).0 ≡ 2)
run_scenarios_for_branch-IsClean_example =
    run_scenarios_for_branch-IsClean world [] 12000 (m1 ∷ s1 ∷ [])

run_scenario-passed_example :
    ((run_scenario (str "/tmp") (str "dev") 12000 m1 crashes).0.passed ≡ true)
    ↔ (((false ≡ true) ⊎ IsReached crashes 12000) × HasPassed (threw (str "boom")))
run_scenario-passed_example = run_scenario-passed (str "/tmp") (str "dev") 12000 m1 crashes

main-success_example : (main world (s1 ∷ m1 ∷ []) two_branches ≡ success) ↔ (
    (paths : Dict Text) × (locate world two_branches
        (selected (s1 ∷ m1 ∷ []) [])
        (chosen_branches two_branches.branches)
      ≡ some paths)
    × (paths ≢ [])
    × EachPasses world
        (selected (s1 ∷ m1 ∷ []) [])
        (filter (located paths) (chosen_branches two_branches.branches))
        0)
main-success_example = main-success world (s1 ∷ m1 ∷ []) two_branches two-IsDistinct
