-- ===== src/Runner.antt =====
-- src/main.ts: the runner. What the executor binary, the file system and a scenario's body do is a
-- `World`; the processes that are started and stopped are listed in order. Console output and
-- clock readings are left out.
pub mod CommandLine
pub mod Slug
pub mod Exit
pub mod Processes
pub mod Verdict
mod Tests
use ad4m_link_language_tests.Prelude.Outcome.{Outcome, returned, threw}
use ad4m_link_language_tests.Prelude.{
  Text, Dict, str, ℕ, zero, suc, ◌+◌, ◌*◌, Bool, true, false, not, Option, none, some, List, [],
  ◌∷◌, ◌++◌, ◌===◌, map, any, filter, if◌then◌else◌, insert, lookup, length, ltb,
}
use ad4m_link_language_tests.Scenario.{Scenario, ScenarioResult, plain}
use ad4m_link_language_tests.Runner.Slug.{slug, dashed}

-- `stop` is the call of `stopExecutor`, which sends SIGTERM and does not wait for the exit; an `rmSync`
-- that throws is left out.
pub data Effect : Type 0 where
  start stop : ℕ → Effect
  clean : Text → Effect

-- For one branch and scenario: booting an executor on a port, its health check, the client's
-- connection and the body of the scenario.
pub record Trial : Type 0 where
  pub starts : ℕ → Outcome (Unit {0})
  pub healthy : ℕ → Outcome (Unit {0})
  pub connects : Outcome (Unit {0})
  pub runs : Outcome ScenarioResult

-- The file system (`existsSync` of a binary, `validateAdamRepo`), `buildExecutor` of a branch, the
-- configuration and the trials.
pub record World : Type 0 where
  pub binary_exists : Text → Bool
  pub builds : Text → Outcome Text
  pub repo_is_valid : Bool
  pub tmp_dir : Text
  pub base_port : ℕ
  pub trial : Text → Text → Trial

-- `branch.replace(/\//g, "-")`
abbrev pub branch_to_dir_name : Text → Text
branch_to_dir_name branch = dashed branch

failed_result : Text → Text → Text → Text → ScenarioResult
failed_result name branch error summary = record {
  scenario = name;
  branch = branch;
  duration_ms = 0;
  passed = false;
  metrics = (str "error", plain error) ∷ [];
  summary = summary;
}

crashed : Text → Text → Text → ScenarioResult
unfolding failed_result
crashed name branch e = failed_result name branch e (str "CRASHED: " ++ e)

-- `${scenario.id}-${slug}`
full_name : Scenario → Text
full_name s = s.id ++ (b'-' ∷ slug s.name)

result_of : Text → Text → Outcome ScenarioResult → ScenarioResult
unfolding crashed
result_of name branch (returned r) = r
result_of name branch (threw e) = crashed name branch e

-- The `try` around the second executor of M1: its effects, and whether it is left running.
second_health : ℕ → Outcome (Unit {0}) → List Effect × Bool
second_health port (returned _) = (start port ∷ [], true)
second_health port (threw e) = (start port ∷ stop port ∷ [], false)

second_start : Trial → ℕ → Outcome (Unit {0}) → List Effect × Bool
unfolding second_health
second_start t port (threw e) = ([], false)
second_start t port (returned _) = second_health port (t.healthy port)

second_executor : Trial → ℕ → Scenario → List Effect × Bool
unfolding second_start
second_executor t port s =
    if s.id === str "m1" then second_start t port (t.starts port) else ([], false)

executor_failed : Text → Scenario → Text → ScenarioResult
unfolding failed_result full_name
executor_failed branch s e =
    failed_result (full_name s) branch (str "Executor start failed: " ++ e)
      (str "EXECUTOR FAILED: " ++ e)

-- From the client's connection on.
connected : Text → Scenario → Outcome (Unit {0}) → Outcome ScenarioResult → ScenarioResult
unfolding result_of executor_failed full_name
connected branch s (threw e) run = executor_failed branch s e
connected branch s (returned _) run = result_of (full_name s) branch run

-- From the health check on: the result, the effects, and whether a second executor runs.
checked : Text → Scenario → Trial → ℕ → Outcome (Unit {0}) → ScenarioResult × List Effect × Bool
unfolding connected second_executor
checked branch s t port (threw e) = (executor_failed branch s e, [], false)
checked branch s t port (returned _) =
    let (effects, second) = second_executor t (suc port) s in
    (connected branch s t.connects t.runs, effects, second)

-- The `finally` of a started executor: what it calls.
finally : ℕ → Bool → List Effect
finally port second = (if second then stop (suc port) ∷ [] else []) ++ stop port ∷ []

started : Text → Scenario → Trial → ℕ → Outcome (Unit {0}) → ScenarioResult × List Effect
unfolding checked finally
started branch s t port (threw e) = (executor_failed branch s e, [])
started branch s t port (returned _) =
    let (r, effects, second) = checked branch s t port (t.healthy port) in
    (r, start port ∷ (effects ++ finally port second))

abbrev data_path : Text → Text → Scenario → Text
data_path tmp branch s = tmp ++ str "/ad4m-wt-data-" ++ branch_to_dir_name branch ++ (b'-' ∷ s.id)

-- One round of `runScenariosForBranch`.
unfoldable pub run_scenario : Text → Text → ℕ → Scenario → Trial → ScenarioResult × List Effect
unfolding result_of started
run_scenario tmp branch port s t =
    if s.manages_own_environment
    then (result_of (s.id ++ str "-provision-connect") branch t.runs, [])
    else let (r, effects) = started branch s t port (t.starts port) in
      (r, effects ++ clean (data_path tmp branch s) ∷ [])

unfoldable pub run_scenarios_for_branch :
    World → Text → ℕ → List Scenario → List ScenarioResult × List Effect
unfolding run_scenario
run_scenarios_for_branch w branch port [] = ([], [])
run_scenarios_for_branch w branch port (s ∷ ss) =
    let (r, effects) = run_scenario w.tmp_dir branch port s (w.trial branch s.id) in
    let (rs, more) = run_scenarios_for_branch w branch port ss in (r ∷ rs, effects ++ more)
