-- ===== src/PeerServer/Arguments.antt =====
-- src/peer-server.ts: `parseArgs`. A port is nothing where `Number` gives NaN, and `none` of an address
-- is the `undefined` of a flag with no value. `Number` is the parameter `number`.
use ad4m_link_language_tests.Prelude.{
  Text, str, ℕ, Bool, true, false, ◌||◌, Option, none, some, List, [], ◌∷◌, ◌===◌, starts_with,
  second_piece, if◌then◌else◌,
}

pub record Args : Type 0 where
  pub port : Option ℕ
  pub bind : Option Text

pub data Word : Type 0 where
  port glued_port bind glued_bind other : Word

word_of : Text → Word
unfolding ◌===◌ starts_with
word_of a =
    if (a === str "--port") || (a === str "-p")
    then port
    else if starts_with a (str "--port=")
    then glued_port
    else if a === str "--bind"
    then bind
    else if starts_with a (str "--bind=")
    then glued_bind
    else other

takes_next : Word → Bool
takes_next port = true
takes_next bind = true
takes_next _ = false

module _ (number : Text → Option ℕ) where
  -- `Number(text)`, where `Number(undefined)` is NaN.
  port_of : Option Text → Option ℕ
  port_of none = none
  port_of (some t) = number t

  -- The branch of one word, with `argv[i + 1]`.
  set_word : Word → Text → Option Text → Args → Args
  unfolding port_of second_piece
  set_word port a next r = record r { port = port_of next }
  set_word glued_port a next r = record r { port = port_of (second_piece a) }
  set_word bind a next r = record r { bind = next }
  set_word glued_bind a next r = record r { bind = second_piece a }
  set_word other a next r = r

  parse_from : List Text → Args → Args
  unfolding set_word word_of takes_next
  parse_from [] r = r
  parse_from (a ∷ []) r = set_word (word_of a) a none r
  parse_from (a ∷ (v ∷ rest)) r =
      let behind = parse_from rest (set_word (word_of a) a (some v) r) in
      let next = parse_from (v ∷ rest) (set_word (word_of a) a (some v) r) in
      if takes_next (word_of a) then behind else next

  unfoldable pub parse_args : List Text → Args
  unfolding parse_from
  parse_args argv = parse_from argv (record { port = some 7000; bind = some (str "0.0.0.0") })
