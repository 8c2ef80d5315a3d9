-- ===== src/Report/Tests.antt =====
-- Two branches with one scenario: a number on both, and a text on the second.
use ad4m_link_language_tests.Prelude.{Dict, str, ◌≡◌, refl, true, [], ◌∷◌, lookup, arith}
use ad4m_link_language_tests.Scenario.{ScenarioResult, Value, num, plain}
use ad4m_link_language_tests.Report.{Results, collect, json_filename}
use ad4m_link_language_tests.Report.Cells.{cell, measured, on_branch, HasMetrics, cell-collect}

abbrev result : Dict Value → ScenarioResult
result metrics = record {
  scenario = str "s1 x";
  branch = str "dev";
  duration_ms = 5;
  passed = true;
  metrics = metrics;
  summary = str "fine";
}

abbrev results : Results
results =
    (str "a", result ((str "ms", num (str "1.00")) ∷ []) ∷ [])
    ∷ (str "b", result ((str "ms", num (str "2.00")) ∷ (str "mode", plain (str "x")) ∷ []) ∷ [])
    ∷ []

s1-file : json_filename (result []) ≡ str "s1-x.json"
unfolding json_filename
s1-file = refl

cell-collect_example :
    cell (str "mode") (str "b") (collect (str "s1 x") results [])
    ≡ measured (str "mode") (on_branch (str "s1 x") (lookup (str "b") results))
unfolding HasMetrics
cell-collect_example =
    cell-collect (str "s1 x") (str "b") (str "mode") results
      ((λ p. ground (arith, p), tt), (tt, tt))
      (((tt, tt), tt), ((((λ p. ground (arith, p), tt), (tt, tt)), tt), tt))
