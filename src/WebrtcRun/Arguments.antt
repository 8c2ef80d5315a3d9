-- ===== src/WebrtcRun/Arguments.antt =====
-- src/run-webrtc.ts: `parseArgs`. `none` is the `undefined` of a flag with no value.
use ad4m_link_language_tests.Prelude.{
  Text, str, Bool, true, false, Option, none, some, List, [], ◌∷◌, ◌++◌, ◌===◌, starts_with,
  second_piece, not, if◌then◌else◌,
}

pub record Args : Type 0 where
  pub ids : List Text
  pub executor_url : Option Text
  pub executor_token : Option Text
  pub results_dir : Option Text
  pub label : Option Text

pub data Target : Type 0 where
  executor_url executor_token results_dir label : Target

-- What one word is: a flag with its value behind `=`, a flag whose value is the next word, the id of
-- a scenario, or another flag.
pub data Word : Type 0 where
  glued spaced : Target → Word
  id skipped : Word

word_of : Text → Word
unfolding ◌===◌ starts_with
word_of a =
    if starts_with a (str "--executor-url=")
    then glued executor_url
    else if a === str "--executor-url"
    then spaced executor_url
    else if starts_with a (str "--executor-token=")
    then glued executor_token
    else if a === str "--executor-token"
    then spaced executor_token
    else if starts_with a (str "--results-dir=")
    then glued results_dir
    else if a === str "--results-dir"
    then spaced results_dir
    else if starts_with a (str "--label=")
    then glued label
    else if a === str "--label"
    then spaced label
    else if not (starts_with a (str "--"))
    then id
    else skipped

set_target : Target → Option Text → Args → Args
set_target executor_url v r = record r { executor_url = v }
set_target executor_token v r = record r { executor_token = v }
set_target results_dir v r = record r { results_dir = v }
set_target label v r = record r { label = v }

-- The branch of one word, with `argv[i + 1]`.
set_word : Word → Text → Option Text → Args → Args
unfolding set_target second_piece
set_word (glued t) a next r = set_target t (second_piece a) r
set_word (spaced t) a next r = set_target t next r
set_word id a next r = record r { ids = r.ids ++ a ∷ [] }
set_word skipped a next r = r

takes_next : Word → Bool
takes_next (spaced t) = true
takes_next _ = false

parse_from : List Text → Args → Args
unfolding set_word word_of takes_next
parse_from [] r = r
parse_from (a ∷ []) r = set_word (word_of a) a none r
parse_from (a ∷ (v ∷ rest)) r =
    let behind = parse_from rest (set_word (word_of a) a (some v) r) in
    let next = parse_from (v ∷ rest) (set_word (word_of a) a (some v) r) in
    if takes_next (word_of a) then behind else next

all_if_none : List Text → List Text
all_if_none [] = str "all" ∷ []
all_if_none (a ∷ ids) = a ∷ ids

with_all : Args → Args
unfolding all_if_none
with_all r = record r { ids = all_if_none r.ids }

-- `default_label` is the label made of the time.
unfoldable pub parse_args : Text → List Text → Args
unfolding parse_from with_all
parse_args default_label argv = with_all (
    parse_from argv (record {
      ids = [];
      executor_url = none;
      executor_token = none;
      results_dir = some (str "results/webrtc");
      label = some default_label;
    }))
