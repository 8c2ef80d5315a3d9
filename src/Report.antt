-- ===== src/Report.antt =====
-- src/reporters.ts: `comparisonReport`, up to the text that it writes, and the names of the files
-- of `jsonReport`. The date is a parameter; the keys of `metrics` are in the order of
-- `Object.entries`, and a file's name keeps the characters `[a-z0-9._-]` of either case.
pub mod Cells
mod Command
mod Tests
use ad4m_link_language_tests.Prelude.{
  Text, Dict, str, ℕ, Bool, true, false, ◌&&◌, ◌||◌, Option, none, some, List, [], ◌∷◌, ◌++◌, ◌===◌,
  ◌==◌, leb, map, find?, lookup, insert, if◌then◌else◌,
}
use ad4m_link_language_tests.Scenario.{ScenarioResult, Value, num, plain, compound}

abbrev pub Results : Type 0
Results = Dict (List ScenarioResult)

-- What a value is written as; objects and arrays are skipped.
pub written : Value → Option Text
written (num t) = some t
written (plain t) = some t
written compound = none

abbrev pub or_empty : Option (Dict Text) → Dict Text
or_empty none = []
or_empty (some row) = row

-- `metricsMap.get(key)!.set(branch, …)`, with the row made where it is missing.
pub set_cell : Text → Text → Text → Dict (Dict Text) → Dict (Dict Text)
set_cell branch key t table = insert key (insert branch t (or_empty (lookup key table))) table

pub add_value : Text → Text → Option Text → Dict (Dict Text) → Dict (Dict Text)
unfolding set_cell
add_value branch key none table = table
add_value branch key (some t) table = set_cell branch key t table

pub add_metrics : Text → Dict Value → Dict (Dict Text) → Dict (Dict Text)
unfolding add_value written
add_metrics branch [] table = table
add_metrics branch ((key, v) ∷ metrics) table =
    add_metrics branch metrics (add_value branch key (written v) table)

-- The result of a scenario on one branch.
abbrev pub result_for : Text → List ScenarioResult → Option ScenarioResult
result_for id results = find? (λ r. r.scenario === id) results

pub add_result : Text → Option ScenarioResult → Dict (Dict Text) → Dict (Dict Text)
unfolding add_metrics
add_result branch none table = table
add_result branch (some r) table = add_metrics branch r.metrics table

-- `metricsMap` of one scenario.
pub collect : Text → Results → Dict (Dict Text) → Dict (Dict Text)
unfolding add_result
collect id [] table = table
collect id ((branch, results) ∷ rest) table =
    collect id rest (add_result branch (result_for id results) table)

abbrev joined : List Text → Text
joined [] = []
joined (t ∷ []) = t
joined (t ∷ (u ∷ ts)) = t ++ str " | " ++ joined (u ∷ ts)

-- `values.get(b) || "—"`
abbrev shown_cell : Option Text → Text
shown_cell none = 0x2014 ∷ []
shown_cell (some []) = 0x2014 ∷ []
shown_cell (some (c ∷ t)) = c ∷ t

row : List Text → Text × Dict Text → Text
row branches (metric, values) =
    str "| "
    ++ metric
    ++ str " | "
    ++ joined (map (λ b. shown_cell (lookup b values)) branches)
    ++ str " |"

summaries : Text → Results → List Text
summaries id [] = []
summaries id ((branch, results) ∷ rest) =
    let more = summaries id rest in
    elim (result_for id results) [
      | none ↦ more
      | some r ↦ (str "- **" ++ branch ++ str ":** " ++ r.summary) ∷ more
    ]

section : Results → Text → List Text
unfolding collect row summaries
section results id =
    let branches = map (λ e. e.0) results in
    (str "## " ++ id)
      ∷ []
      ∷ (str "| Metric | " ++ joined branches ++ str " |")
      ∷ (str "| --- | " ++ joined (map (λ b. str "---") branches) ++ str " |")
      ∷ map (row branches) (collect id results [])
    ++ ([] ∷ str "**Summaries:**" ∷ [])
    ++ summaries id results
    ++ ([] ∷ [])

sections : Results → List ScenarioResult → List Text
unfolding section
sections results [] = []
sections results (r ∷ rs) = section results r.scenario ++ sections results rs

-- The scenarios of the first branch.
abbrev first_results : Results → List ScenarioResult
first_results [] = []
first_results ((branch, results) ∷ rest) = results

-- The lines of the report.
unfoldable pub comparison_report : Text → Results → List Text
unfolding sections
comparison_report now results =
    (str "# AD4M Wind Tunnel " ++ (0x2014 ∷ str " Comparison Report"))
    ∷ []
    ∷ (str "Generated: " ++ now)
    ∷ str "Machine: Apple Silicon MacBook Pro (48GB RAM, 14 CPUs)"
    ∷ []
    ∷ sections results (first_results results)

is_file_char : ℕ → Bool
is_file_char c =
    leb b'a' c && leb c b'z'
    || leb b'A' c && leb c b'Z'
    || leb b'0' c && leb c b'9'
    || c == b'.'
    || c == b'_'
    || c == b'-'

-- The file that `jsonReport` writes a result to.
unfoldable pub json_filename : ScenarioResult → Text
unfolding is_file_char
json_filename r = map (λ c. if is_file_char c then c else b'-') r.scenario ++ str ".json"
