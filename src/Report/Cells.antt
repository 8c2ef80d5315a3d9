-- ===== src/Report/Cells.antt =====
-- src/reporters.ts: what stands in a cell of the comparison table.
use ad4m_link_language_tests.Prelude.{
  Text, Dict, true, Bool-cases, Option-cases, inl, inr, Option, none, some, List, [], ◌∷◌, ◌===◌,
  text_iff, map, find?-All, lookup, insert, if◌then◌else◌, arith, lookup-insert, IsDistinct, All,
  ◌≡◌, ◌≢◌, refl, ap, ◌∙◌,
}
use ad4m_link_language_tests.Scenario.{ScenarioResult, Value, num, plain, compound}
use ad4m_link_language_tests.Report.{
  Results, written, or_empty, set_cell, add_value, add_metrics, result_for, add_result, collect,
}

abbrev read : Text → Option (Dict Text) → Option Text
read b none = none
read b (some r) = lookup b r

-- The text in the row of a metric and the column of a branch.
pub cell : Text → Text → Dict (Dict Text) → Option Text
cell k b table = read b (lookup k table)

lookup-empty : (b : Text) (m : Dict Text) → m ≡ [] → lookup b m ≡ none
unfolding lookup
lookup-empty b m e = rw e

read-or_empty : (b : Text) (o : Option (Dict Text)) → lookup b (or_empty o) ≡ read b o
read-or_empty b none = lookup-empty b [] refl
read-or_empty b (some r) = refl

cell-set_cell :
    (b k t c j : Text) (table : Dict (Dict Text))
    → cell j c (set_cell b k t table)
      ≡ (if k === j then (if b === c then some t else cell j c table) else cell j c table)
unfolding cell set_cell
cell-set_cell b k t c j table =
    let row = insert b t (or_empty (lookup k table)) in
    elim (Bool-cases (k === j)) [
      | inr other ↦ rw (other, lookup-insert k j row table, other) refl
      | inl same ↦
          let e : k ≡ j = (text_iff k j).0 same in
          let here = lookup-insert k j row table in
          let inner =
            lookup-insert b c t (or_empty (lookup k table))
            ∙ ap (λ r. if b === c then some t else r) (read-or_empty c (lookup k table))
            ∙ ap (λ i. if b === c then some t else read c (lookup i table)) e in
          rw (here, same) inner
    ]

-- The text that a result's metric should be written as: none for an object or an array.
value_of : Text → Dict Value → Option Text
value_of k metrics = read_value (lookup k metrics)
  where
    read_value : Option Value → Option Text
    read_value none = none
    read_value (some (num t)) = some t
    read_value (some (plain t)) = some t
    read_value (some compound) = none

abbrev keys : Dict Value → List Text
keys = map (λ e. e.0)

lookup-away :
    (k : Text) (metrics : Dict Value) → All (λ j. k ≢ j) (keys metrics) → lookup k metrics ≡ none
unfolding lookup
lookup-away k [] h = refl
lookup-away k ((j, v) ∷ metrics) (apart, h) =
    ground (arith, text_iff j k, apart, lookup-away k metrics h)

or_else : Option Text → Option Text → Option Text
or_else none o = o
or_else (some t) o = some t

cell-add_value :
    (b k : Text) (o : Option Text) (c j : Text) (table : Dict (Dict Text))
    → cell j c (add_value b k o table) ≡ (
        if k === j
        then (if b === c then or_else o (cell j c table) else cell j c table)
        else cell j c table)
unfolding add_value or_else
cell-add_value b k none c j table = ground arith
cell-add_value b k (some t) c j table = cell-set_cell b k t c j table

value_of-cons :
    (j k : Text) (v : Value) (metrics : Dict Value)
    → value_of j ((k, v) ∷ metrics) ≡ (if k === j then written v else value_of j metrics)
unfolding value_of lookup written
value_of-cons j k (num t) metrics = elim (Bool-cases (k === j)) [
  | inl here ↦ rw here refl
  | inr away ↦ rw away refl
]
value_of-cons j k (plain t) metrics = elim (Bool-cases (k === j)) [
  | inl here ↦ rw here refl
  | inr away ↦ rw away refl
]
value_of-cons j k compound metrics = elim (Bool-cases (k === j)) [
  | inl here ↦ rw here refl
  | inr away ↦ rw away refl
]

value_of-away :
    (k j : Text) (metrics : Dict Value)
    → All (λ i. k ≢ i) (keys metrics)
    → (k === j) ≡ true
    → value_of j metrics ≡ none
unfolding value_of
value_of-away k j metrics h same = rw (← (text_iff k j).0 same, lookup-away k metrics h) refl

cell-add_metrics :
    (b c j : Text) (metrics : Dict Value) (table : Dict (Dict Text))
    → IsDistinct (keys metrics)
    → cell j c (add_metrics b metrics table)
      ≡ (if b === c then or_else (value_of j metrics) (cell j c table) else cell j c table)
unfolding add_metrics or_else
cell-add_metrics b c j [] table d = unfold value_of lookup in ground arith
cell-add_metrics b c j ((k, v) ∷ metrics) table (away, d) =
    let rest = cell-add_metrics b c j metrics (add_value b k (written v) table) d in
    let one = cell-add_value b k (written v) c j table in
    let head = value_of-cons j k v metrics in
    elim (Bool-cases (k === j)) [
      | inl here ↦ ground (arith, rest, one, head, here, value_of-away k j metrics away here)
      | inr other ↦ ground (arith, rest, one, head, other)
    ]

-- What the result of a scenario has for a metric.
pub measured : Text → Option ScenarioResult → Option Text
measured j none = none
measured j (some r) = value_of j r.metrics

pub on_branch : Text → Option (List ScenarioResult) → Option ScenarioResult
on_branch id none = none
on_branch id (some results) = result_for id results

-- No result has two metrics of one name.
unfoldable pub HasMetrics : List ScenarioResult → Type 0
HasMetrics = All (λ r. IsDistinct (keys r.metrics))

cell-add_result :
    (id b c j : Text) (results : List ScenarioResult) (table : Dict (Dict Text))
    → HasMetrics results
    → cell j c (add_result b (result_for id results) table) ≡ (
        if b === c
        then or_else (measured j (result_for id results)) (cell j c table)
        else cell j c table)
unfolding HasMetrics
cell-add_result id b c j results table h = elim (Option-cases (result_for id results)) [
  | inl missing ↦ rw missing (unfold add_result measured or_else in ground arith)
  | inr (r, found) ↦
      let d =
        find?-All (λ q. IsDistinct (keys q.metrics)) (λ q. q.scenario === id) results r h found in
      rw found (unfold add_result measured in cell-add_metrics b c j r.metrics table d)
]

lookup-other :
    (c : Text) (results : Results)
    → All (λ b. c ≢ b) (map (λ e. e.0) results)
    → lookup c results ≡ none
unfolding lookup
lookup-other c [] h = refl
lookup-other c ((b, rs) ∷ results) (apart, h) =
    ground (arith, text_iff b c, apart, lookup-other c results h)

or_else-none : (o : Option Text) → or_else o none ≡ o
unfolding or_else
or_else-none none = refl
or_else-none (some t) = refl

cell-collect_from :
    (id c j : Text) (results : Results) (table : Dict (Dict Text))
    → IsDistinct (map (λ e. e.0) results)
    → All (λ e. HasMetrics e.1) results
    → cell j c (collect id results table)
      ≡ or_else (measured j (on_branch id (lookup c results))) (cell j c table)
unfolding collect lookup on_branch or_else measured
cell-collect_from id c j [] table d h = refl
cell-collect_from id c j ((b, rs) ∷ results) table (away, d) (m, h) =
    let rest = cell-collect_from id c j results (add_result b (result_for id rs) table) d h in
    let one = cell-add_result id b c j rs table m in
    elim (Bool-cases (b === c)) [
      | inr other ↦
          let kept = rw other at one in
          rw other (rest ∙ ap (or_else (measured j (on_branch id (lookup c results)))) kept)
      | inl here ↦
          let added = rw here at one in
          let e : b ≡ c = (text_iff b c).0 here in
          let gone : lookup c results ≡ none = rw (← e) (lookup-other b results away) in
          let later =
            ap
              (λ o.
                or_else (measured j (on_branch id o))
                  (cell j c (add_result b (result_for id rs) table)))
              gone in
          rw here (rest ∙ later ∙ added)
    ]

-- In the table of a scenario, for branches and metrics with distinct names: the cell of a metric
-- and a branch holds what the branch's first result of the scenario has for the metric, and is
-- blank if there is no such result, or no such metric, or its value is an object or an array.
pub cell-collect :
    (id c j : Text) (results : Results)
    → IsDistinct (map (λ e. e.0) results)
    → All (λ e. HasMetrics e.1) results
    → cell j c (collect id results []) ≡ measured j (on_branch id (lookup c results))
unfolding cell lookup
cell-collect id c j results d h = cell-collect_from id c j results [] d h ∙ or_else-none _
