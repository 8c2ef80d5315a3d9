-- ===== src/Runner/CommandLine.antt =====
-- src/main.ts: `parseArgs`. `none` in the lists is the `undefined` of a flag with no value.
use ad4m_link_language_tests.Prelude.{
  Text, str, Bool, true, false, Option, none, some, List, [], ◌∷◌, ◌++◌, ◌===◌, if◌then◌else◌, ◌≡◌,
  ap, map, append_assoc, append-nil, sym,
}

pub record Args : Type 0 where
  pub scenarios : List (Option Text)
  pub branches : List (Option Text)
  pub skip_build : Bool
  pub executor_path : Option Text

abbrev no_args : Args
no_args = record { scenarios = []; branches = []; skip_build = false; executor_path = none }

pub data Flag : Type 0 where
  scenario branch skip_build executor_path other : Flag

-- The `switch`.
flag_of : Text → Flag
flag_of a =
    if a === str "--scenario"
    then scenario
    else if a === str "--branch"
    then branch
    else if a === str "--skip-build"
    then skip_build
    else if a === str "--executor-path"
    then executor_path
    else other

-- The case of one flag, with `args[i + 1]`.
set_flag : Flag → Option Text → Args → Args
set_flag scenario v r = record r { scenarios = r.scenarios ++ v ∷ [] }
set_flag branch v r = record r { branches = r.branches ++ v ∷ [] }
set_flag skip_build v r = record r { skip_build = true }
set_flag executor_path v r = record r { executor_path = v }
set_flag other v r = r

takes_value : Flag → Bool
takes_value skip_build = false
takes_value other = false
takes_value _ = true

parse_from : List Text → Args → Args
unfolding set_flag flag_of takes_value
parse_from [] r = r
parse_from (a ∷ []) r = set_flag (flag_of a) none r
parse_from (a ∷ (v ∷ rest)) r =
    let skipped = parse_from rest (set_flag (flag_of a) (some v) r) in
    let next = parse_from (v ∷ rest) (set_flag (flag_of a) (some v) r) in
    if takes_value (flag_of a) then skipped else next

unfoldable pub parse_args : List Text → Args
unfolding parse_from
parse_args argv = parse_from argv no_args

-- The command line that asks for these scenarios and branches.
pub command_line : List Text → List Text → List Text
command_line [] [] = []
command_line [] (b ∷ bs) = str "--branch" ∷ b ∷ command_line [] bs
command_line (s ∷ ss) bs = str "--scenario" ∷ s ∷ command_line ss bs

parse_from-command_line :
    (ss bs : List Text) (r : Args)
    → parse_from (command_line ss bs) r
      ≡ record r { scenarios = r.scenarios ++ map some ss; branches = r.branches ++ map some bs }
unfolding parse_from command_line ◌===◌
parse_from-command_line [] [] r = λ i. record r {
  scenarios = sym (append-nil r.scenarios) i;
  branches = sym (append-nil r.branches) i;
}
parse_from-command_line [] (b ∷ bs) r =
    let ih = parse_from-command_line [] bs (record r { branches = r.branches ++ some b ∷ [] }) in
    rw (← append_assoc r.branches (some b ∷ []) (map some bs)) ih
parse_from-command_line (s ∷ ss) bs r =
    let ih = parse_from-command_line ss bs (record r { scenarios = r.scenarios ++ some s ∷ [] }) in
    rw (← append_assoc r.scenarios (some s ∷ []) (map some ss)) ih

-- The scenarios and branches asked for by `--scenario` and `--branch` flags are read back, all of
-- them and in order, whatever their texts are.
pub parse_args-command_line :
    (ss bs : List Text)
    → ((parse_args (command_line ss bs)).scenarios ≡ map some ss)
      × ((parse_args (command_line ss bs)).branches ≡ map some bs)
unfolding parse_args
parse_args-command_line ss bs =
    let e = parse_from-command_line ss bs no_args in
    (ap (λ (r : Args). r.scenarios) e, ap (λ (r : Args). r.branches) e)
