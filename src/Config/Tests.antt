-- ===== src/Config/Tests.antt =====
-- A command line of the runner with two tokens and a port, and an environment with a token.
use ad4m_link_language_tests.Prelude.{
  Text, str, ℕ, ◌≡◌, refl, Option, none, some, List, [], ◌∷◌, ◌===◌, All,
}
use ad4m_link_language_tests.Config.{
  Environment, adam_repo, admin_token, tmp_dir, base_port, results_dir, flag_of, or, port_of,
  resolve_config,
}
use ad4m_link_language_tests.Config.Precedence.{
  Word, setting, other, words, IsApart, last_value, number, resolve_config-words,
}

abbrev environment : Environment
environment = record {
  ad4m_repo = none;
  ad4m_admin_token = some (str "secret");
  ad4m_wt_tmpdir = none;
  ad4m_wt_base_port = some [];
  ad4m_wt_results_dir = none;
  system_tmp = str "/tmp";
  default_results = str "results";
}

unfoldable count_digits : Text → Option ℕ
count_digits [] = none
count_digits (c ∷ s) = some c

abbrev line : List Word
line =
    other (str "--scenario")
    ∷ other (str "s1")
    ∷ setting admin_token (str "one")
    ∷ setting base_port (str "x")
    ∷ setting admin_token (str "two")
    ∷ []

line-IsApart : All IsApart line
unfolding IsApart flag_of ◌===◌
line-IsApart = (refl, (refl, (tt, (tt, (tt, tt)))))

line-token : (resolve_config count_digits environment (words line)).admin_token ≡ str "two"
unfolding resolve_config words flag_of ◌===◌
line-token = refl

resolve_config-words_example : resolve_config count_digits environment (words line) ≡ record {
  adam_repo_path = or (last_value adam_repo line none) (or environment.ad4m_repo []);
  admin_token =
      or (last_value admin_token line none) (or environment.ad4m_admin_token (str "test123"));
  tmp_dir_base =
      or (last_value tmp_dir line none) (or environment.ad4m_wt_tmpdir environment.system_tmp);
  base_port =
      or
        (number count_digits (last_value base_port line none))
        (port_of count_digits environment.ad4m_wt_base_port);
  results_dir =
      or
        (last_value results_dir line none)
        (or environment.ad4m_wt_results_dir environment.default_results);
}
resolve_config-words_example = resolve_config-words count_digits environment line line-IsApart
