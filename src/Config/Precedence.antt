-- ===== src/Config/Precedence.antt =====
-- src/config.ts: what a command line of settings and other words resolves to.
use ad4m_link_language_tests.Prelude.{
  Text, str, ℕ, ◌≡◌, refl, ◌∙◌, Option, none, some, List, [], ◌∷◌, ◌===◌, All, arith,
}
use ad4m_link_language_tests.Config.{
  Flag, adam_repo, admin_token, tmp_dir, base_port, results_dir, flag_of, Partial, Environment,
  no_config, or, number_of, set_flag, set_last, parse_from, parse_config_args, port_of,
  resolve_config,
}

-- A flag with its value, or a word for the runner.
pub data Word : Type 0 where
  setting : Flag → Text → Word
  other : Text → Word

unfoldable pub spelled : Flag → Text
spelled adam_repo = str "--ad4m-repo"
spelled admin_token = str "--admin-token"
spelled tmp_dir = str "--tmp-dir"
spelled base_port = str "--base-port"
spelled results_dir = str "--results-dir"

unfoldable pub words : List Word → List Text
unfolding spelled
words [] = []
words (setting f v ∷ ws) = spelled f ∷ v ∷ words ws
words (other w ∷ ws) = w ∷ words ws

-- A word that is no flag of the configuration.
unfoldable pub IsApart : Word → Type 0
unfolding flag_of
IsApart (setting f v) = Unit
IsApart (other w) = flag_of w ≡ none

flag_of-spelled : (f : Flag) → flag_of (spelled f) ≡ some f
unfolding flag_of spelled ◌===◌
flag_of-spelled adam_repo = refl
flag_of-spelled admin_token = refl
flag_of-spelled tmp_dir = refl
flag_of-spelled base_port = refl
flag_of-spelled results_dir = refl

is_same : Flag → Flag → Option Text → Option Text → Option Text
is_same adam_repo adam_repo v before = v
is_same admin_token admin_token v before = v
is_same tmp_dir tmp_dir v before = v
is_same base_port base_port v before = v
is_same results_dir results_dir v before = v
is_same f g v before = before

-- The last value that is given for the flag.
unfoldable pub last_value : Flag → List Word → Option Text → Option Text
unfolding is_same
last_value f [] before = before
last_value f (setting g v ∷ ws) before = last_value f ws (is_same f g (some v) before)
last_value f (other w ∷ ws) before = last_value f ws before

module _ (parse_int : Text → Option ℕ) where
  unfoldable pub number : Option Text → Option (Option ℕ)
  number none = none
  number (some t) = some (parse_int t)

  taken : Option Text → Option Text → Option Text → Option Text → Option Text → Partial
  unfolding number
  taken a b c d e = record {
    adam_repo_path = a;
    admin_token = b;
    tmp_dir_base = c;
    base_port = number d;
    results_dir = e;
  }

  parse_other :
      (w : Text) (args : List Text) (p : Partial)
      → flag_of w ≡ none
      → parse_from parse_int (w ∷ args) p ≡ parse_from parse_int args p
  unfolding parse_from set_last
  parse_other w [] p h = rw h refl
  parse_other w (b ∷ args) p h = ground (arith, h)

  parse_setting :
      (f : Flag) (v : Text) (args : List Text) (p : Partial)
      → parse_from parse_int (spelled f ∷ (v ∷ args)) p
        ≡ parse_from parse_int args (set_flag parse_int f (some v) p)
  unfolding parse_from
  parse_setting f v args p = ground (arith, flag_of-spelled f)

  parse-words :
      (ws : List Word) (a b c d e : Option Text)
      → All IsApart ws
      → parse_from parse_int (words ws) (taken a b c d e)
        ≡ taken
            (last_value adam_repo ws a)
            (last_value admin_token ws b)
            (last_value tmp_dir ws c)
            (last_value base_port ws d)
            (last_value results_dir ws e)
  unfolding words last_value is_same taken number IsApart parse_from set_flag number_of
  parse-words [] a b c d e h = refl
  parse-words (other w ∷ ws) a b c d e (p, h) =
      parse_other w (words ws) (taken a b c d e) p ∙ parse-words ws a b c d e h
  parse-words (setting adam_repo v ∷ ws) a b c d e (p, h) =
      parse_setting adam_repo v (words ws) (taken a b c d e) ∙ parse-words ws (some v) b c d e h
  parse-words (setting admin_token v ∷ ws) a b c d e (p, h) =
      parse_setting admin_token v (words ws) (taken a b c d e) ∙ parse-words ws a (some v) c d e h
  parse-words (setting tmp_dir v ∷ ws) a b c d e (p, h) =
      parse_setting tmp_dir v (words ws) (taken a b c d e) ∙ parse-words ws a b (some v) d e h
  parse-words (setting base_port v ∷ ws) a b c d e (p, h) =
      parse_setting base_port v (words ws) (taken a b c d e) ∙ parse-words ws a b c (some v) e h
  parse-words (setting results_dir v ∷ ws) a b c d e (p, h) =
      parse_setting results_dir v (words ws) (taken a b c d e) ∙ parse-words ws a b c d (some v) h

  -- On a command line of settings, with words of other programs between them, each field is the
  -- last value that is given for its flag, else the environment variable, else the default; a port
  -- that is given is parsed, and one that does not parse is not replaced by a default.
  pub resolve_config-words :
      (e : Environment) (ws : List Word)
      → All IsApart ws
      → resolve_config parse_int e (words ws) ≡ record {
        adam_repo_path = or (last_value adam_repo ws none) (or e.ad4m_repo []);
        admin_token = or (last_value admin_token ws none) (or e.ad4m_admin_token (str "test123"));
        tmp_dir_base = or (last_value tmp_dir ws none) (or e.ad4m_wt_tmpdir e.system_tmp);
        base_port =
            or (number (last_value base_port ws none)) (port_of parse_int e.ad4m_wt_base_port);
        results_dir =
            or (last_value results_dir ws none) (or e.ad4m_wt_results_dir e.default_results);
      }
  unfolding resolve_config parse_config_args no_config taken number
  resolve_config-words e ws h = rw (parse-words ws none none none none none h) refl
