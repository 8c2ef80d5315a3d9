-- ===== src/Report/Command.antt =====
-- src/report.ts: the command that reads the results that were written and compares them. Directories
-- and files are a `Directory`; console output is left out.
use ad4m_link_language_tests.Report.{Results, comparison_report}
use ad4m_link_language_tests.Scenario.{ScenarioResult}
use ad4m_link_language_tests.Prelude.Outcome.{Outcome, returned, threw, ◌>>=◌}
use ad4m_link_language_tests.Prelude.{
  Text, str, Bool, true, false, Option, none, some, List, [], ◌∷◌, ◌===◌, insert, if◌then◌else◌,
  ltb, length,
}

-- The names in `results`, with whether each is a directory (nothing, if there is no `results`), the
-- names in a branch's directory, and what reading and parsing one file ends in.
pub record Directory : Type 0 where
  pub entries : Option (List (Text × Bool))
  pub names : Text → List Text
  pub reads : Text → Text → Outcome ScenarioResult

-- `f.endsWith(".json")`
is_json : Text → Bool
unfolding ◌===◌
is_json [] = false
is_json (c ∷ s) = let later = is_json s in if (c ∷ s) === str ".json" then true else later

module _ (d : Directory) where
  read_files : Text → List Text → Outcome (List ScenarioResult)
  unfolding is_json ◌>>=◌
  read_files branch [] = returned []
  read_files branch (f ∷ fs) =
      let rest = read_files branch fs in
      if is_json f then d.reads branch f >>= (λ r. rest >>= (λ rs. returned (r ∷ rs))) else rest

  -- The loop over the branches: a directory is a branch.
  load_from : List (Text × Bool) → Results → Outcome Results
  unfolding read_files insert ◌>>=◌
  load_from [] all = returned all
  load_from ((name, false) ∷ entries) all = load_from entries all
  load_from ((branch, true) ∷ entries) all =
      read_files branch (d.names branch) >>= (λ rs. load_from entries (insert branch rs all))

  loaded : Option (List (Text × Bool)) → Outcome Results
  unfolding load_from
  loaded none = threw (str "No results directory found. Run scenarios first.")
  loaded (some entries) = load_from entries []

  -- `loadResults`: a failure ends the command with status 1.
  unfoldable pub load_results : Outcome Results
  unfolding loaded
  load_results = loaded d.entries

compared : Text → Results → Option (List Text)
unfolding comparison_report
compared generated all = if ltb 1 (length all) then some (comparison_report generated all) else none

-- `main`: the lines of `comparison.md`, which is written for two branches or more.
unfoldable pub main : Text → Directory → Outcome (Option (List Text))
unfolding load_results compared ◌>>=◌
main generated d = load_results d >>= (λ all. returned (compared generated all))
