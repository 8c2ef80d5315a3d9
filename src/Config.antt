-- ===== src/Config.antt =====
-- src/config.ts: the configuration, from the command line, the environment and defaults. `parseInt`
-- is the parameter `parse_int`, which gives nothing for NaN.
mod Precedence
mod Tests
use ad4m_link_language_tests.Prelude.{
  Text, str, ℕ, Bool, true, false, Option, none, some, List, [], ◌∷◌, ◌++◌, ◌===◌, if◌then◌else◌,
}

pub data Flag : Type 0 where
  adam_repo admin_token tmp_dir base_port results_dir : Flag

unfoldable pub flag_of : Text → Option Flag
unfolding ◌===◌
flag_of a =
    if a === str "--ad4m-repo"
    then some adam_repo
    else if a === str "--admin-token"
    then some admin_token
    else if a === str "--tmp-dir"
    then some tmp_dir
    else if a === str "--base-port"
    then some base_port
    else if a === str "--results-dir"
    then some results_dir
    else none

-- `Partial<WindTunnelConfig>`, where the port may be NaN.
pub record Partial : Type 0 where
  pub adam_repo_path : Option Text
  pub admin_token : Option Text
  pub tmp_dir_base : Option Text
  pub base_port : Option (Option ℕ)
  pub results_dir : Option Text

pub record Config : Type 0 where
  pub adam_repo_path : Text
  pub admin_token : Text
  pub tmp_dir_base : Text
  pub base_port : Option ℕ
  pub results_dir : Text

-- The variables, and `tmpdir()` and `join(process.cwd(), "results")`.
pub record Environment : Type 0 where
  pub ad4m_repo : Option Text
  pub ad4m_admin_token : Option Text
  pub ad4m_wt_tmpdir : Option Text
  pub ad4m_wt_base_port : Option Text
  pub ad4m_wt_results_dir : Option Text
  pub system_tmp : Text
  pub default_results : Text

no_config : Partial
no_config = record {
  adam_repo_path = none;
  admin_token = none;
  tmp_dir_base = none;
  base_port = none;
  results_dir = none;
}

-- `a ?? b`
unfoldable pub or : {A : Type 0} → Option A → A → A
or none b = b
or (some a) b = a

module _ (parse_int : Text → Option ℕ) where
  number_of : Option Text → Option ℕ
  number_of none = none
  number_of (some t) = parse_int t

  -- `result.field = args[++i]`, which is undefined behind the last word.
  set_flag : Flag → Option Text → Partial → Partial
  unfolding number_of
  set_flag adam_repo v p = record p { adam_repo_path = v }
  set_flag admin_token v p = record p { admin_token = v }
  set_flag tmp_dir v p = record p { tmp_dir_base = v }
  set_flag base_port v p = record p { base_port = some (number_of v) }
  set_flag results_dir v p = record p { results_dir = v }

  set_last : Option Flag → Partial → Partial
  unfolding set_flag
  set_last none p = p
  set_last (some f) p = set_flag f none p

  parse_from : List Text → Partial → Partial
  unfolding set_flag set_last flag_of
  parse_from [] p = p
  parse_from (a ∷ []) p = set_last (flag_of a) p
  parse_from (a ∷ (b ∷ args)) p = elim (flag_of a) [
    | none ↦ parse_from (b ∷ args) p
    | some f ↦ parse_from args (set_flag f (some b) p)
  ]

  unfoldable pub parse_config_args : List Text → Partial
  unfolding parse_from no_config
  parse_config_args args = parse_from args no_config

  -- An empty variable is falsy.
  unfoldable pub port_of : Option Text → Option ℕ
  port_of none = some 12100
  port_of (some []) = some 12100
  port_of (some (c ∷ t)) = parse_int (c ∷ t)

  unfoldable pub resolve_config : Environment → List Text → Config
  unfolding parse_config_args or port_of
  resolve_config e args =
      let cli = parse_config_args args in
      record {
        adam_repo_path = or cli.adam_repo_path (or e.ad4m_repo []);
        admin_token = or cli.admin_token (or e.ad4m_admin_token (str "test123"));
        tmp_dir_base = or cli.tmp_dir_base (or e.ad4m_wt_tmpdir e.system_tmp);
        base_port = or cli.base_port (port_of e.ad4m_wt_base_port);
        results_dir = or cli.results_dir (or e.ad4m_wt_results_dir e.default_results);
      }

-- `validateAdamRepo` returns, and does not exit.
unfoldable pub is_valid : Config → Bool
is_valid c = elim c.adam_repo_path [ [] ↦ false | _ ↦ true ]
