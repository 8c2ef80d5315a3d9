-- ===== src/Scenario.antt =====
-- src/scenario.ts: results and scenarios. A metric value is what the reports make of it: a number
-- with its `toFixed(2)` text, another primitive with its `String(…)` text, or an object or array.
use ad4m_link_language_tests.Prelude.{Text, Dict, ℕ, Bool}

pub data Value : Type 0 where
  num : Text → Value
  plain : Text → Value
  compound : Value

pub record ScenarioResult : Type 0 where
  pub scenario : Text
  pub branch : Text
  pub duration_ms : ℕ
  pub passed : Bool
  pub metrics : Dict Value
  pub summary : Text

pub record Scenario : Type 0 where
  pub id : Text
  pub name : Text
  pub manages_own_environment : Bool
