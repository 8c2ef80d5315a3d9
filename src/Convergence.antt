-- ===== src/Convergence.antt =====
-- src/convergence/languages.ts: what the registry knows of a language, and what it takes from its
-- environment. `resolve` of an absolute normalised root and a relative path joins them by a slash;
-- `hex32` is SHA-256 of Node's crypto module.
pub mod Provision
pub mod Registry
mod Tests
use ad4m_link_language_tests.Prelude.{Text, Dict, str, ℕ, Option, List, ◌++◌}
use ad4m_link_language_tests.Prelude.Outcome.{Outcome}

pub record BackendHealth : Type 0 where
  pub compose : Text
  pub host : Text
  pub port : ℕ

-- A reply of `POST …/register`: parsed, or an error with its status and the body's `session` and
-- stages of each flow.
pub data Registration : Type 0 where
  registered : Option Text → Option Text → Registration
  refused : ℕ → Option Text → List (List Text) → Text → Registration

-- The servers that provisioning asks.
pub record Servers : Type 0 where
  pub register : Text → Text → Option Text → Registration
  pub create_room : Text → Text → Outcome (Option Text)
  pub create_account : Text → Text → Text → Outcome (Option Text × Option Text)

pub record Environment : Type 0 where
  pub workspace_root : Text
  pub solid_port : ℕ
  pub solid_base_url : Text
  pub matrix_base : Text
  pub atproto_pds_base : Text
  pub hex32 : Text → Text
  pub servers : Servers

pub record ConvergenceLanguage : Type 0 where
  pub id : Text
  pub bundle_path : Text
  pub possible_template_params : List Text
  pub backend : Option BackendHealth
  pub make_template_data : Text → Dict Text
  pub provision : Option (Text → Outcome (Dict Text))
