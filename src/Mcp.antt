-- ===== src/Mcp.antt =====
-- src/mcp-client.ts: `McpClient`. What `fetch` answers is given with each call; `JSON.parse` of a
-- frame is a parameter. A read that comes after the deadline is no longer made, so the chunks are
-- those read in time.
mod Frames
mod Chunks
mod Answers
mod Tools
mod Tests
use ad4m_link_language_tests.Prelude.{
  Text, Dict, str, decimal, ℕ, zero, suc, ◌+◌, Bool, true, false, not, ◌&&◌, ◌||◌, Option, none,
  some, List, [], ◌∷◌, ◌++◌, ◌===◌, ◌==◌, leb, any, length, starts_with, if◌then◌else◌,
}
use ad4m_link_language_tests.Prelude.Outcome.{Outcome, returned, threw, ◌>>=◌}

-- `buf.indexOf("\n\n")`, with what stands before and behind it.
pub find_break : Text → Option (Text × Text)
find_break [] = none
find_break (c ∷ []) = none
find_break (c ∷ (d ∷ s)) =
    let rest = find_break (d ∷ s) in
    if c == 10 && d == 10
    then some ([], s)
    else elim rest [ none ↦ none | some (f, r) ↦ some (c ∷ f, r) ]

-- The `while` over the buffer: the frames taken off, and the buffer that is left. Each round makes
-- the buffer shorter, so its length is enough fuel.
pub take_frames : ℕ → Text → List Text × Text
unfolding find_break
take_frames zero buf = ([], buf)
take_frames (suc n) buf = elim (find_break buf) [
  | none ↦ ([], buf)
  | some (f, r) ↦ let (fs, rest) = take_frames n r in (f ∷ fs, rest)
]

unfoldable pub frames_of : Text → List Text × Text
unfolding take_frames
frames_of buf = take_frames (length buf) buf

-- `\s`
is_space : ℕ → Bool
is_space c =
    leb 9 c && leb c 13
    || c == 32
    || c == 160
    || c == 0x1680
    || leb 0x2000 c && leb c 0x200a
    || c == 0x2028
    || c == 0x2029
    || c == 0x202f
    || c == 0x205f
    || c == 0x3000
    || c == 0xfeff

-- What `.` does not match.
is_terminator : ℕ → Bool
is_terminator c = c == 10 || c == 13 || c == 0x2028 || c == 0x2029

skip_space : Text → Text
unfolding is_space
skip_space [] = []
skip_space (c ∷ s) = if is_space c then s else c ∷ s

-- What follows a prefix.
after : Text → Text → Option Text
after [] s = some s
after (p ∷ ps) [] = none
after (p ∷ ps) (c ∷ s) = let rest = after ps s in if p == c then rest else none

value_of : Text → Option Text
unfolding is_terminator
value_of v = if any is_terminator v then none else some v

-- Group 1 of `/^data:\s?(.*)$/`, where it matches.
data_of : Text → Option Text
unfolding skip_space value_of after
data_of line = elim (after (str "data:") line) [ none ↦ none | some s ↦ value_of (skip_space s) ]

-- `frame.split("\n")`
lines_of : Text → List Text
lines_of [] = [] ∷ []
lines_of (c ∷ s) =
    if c == 10
    then [] ∷ lines_of s
    else elim (lines_of s) [ [] ↦ (c ∷ []) ∷ [] | l ∷ ls ↦ (c ∷ l) ∷ ls ]

-- A parsed frame; `error` is the JSON text of `msg.error`.
pub record Message (V : Type 0) : Type 0 where
  pub id : Option ℕ
  pub error : Option Text
  pub result : V

-- What `JSON.parse` makes of a text: an exception, `null`, or a value with properties.
pub data Parsed (V : Type 0) : Type 0 where
  invalid null : Parsed V
  message : Message V → Parsed V

pub data Read : Type 0 where
  chunk : Text → Read
  broken : Text → Read

module _ {V : Type 0} (parse : Text → Parsed V) (id : ℕ) where
  -- A message of our id ends the reading.
  matching : Bool → Message V → Option (Outcome V)
  matching false m = none
  matching true m =
      some (elim m.error [ none ↦ returned m.result | some e ↦ threw (str "MCP error: " ++ e) ])

  on_message : Parsed V → Option (Outcome V)
  unfolding matching
  on_message invalid = none
  on_message null = some (threw (str "Cannot read properties of null (reading 'id')"))
  on_message (message m) = matching (elim m.id [ none ↦ false | some n ↦ n == id ]) m

  on_data : Option Text → Option (Outcome V)
  unfolding on_message
  on_data none = none
  on_data (some []) = none
  on_data (some (c ∷ s)) = on_message (parse (c ∷ s))

  on_lines : List Text → Option (Outcome V)
  unfolding on_data data_of
  on_lines [] = none
  on_lines (l ∷ ls) = elim (on_data (data_of l)) [ some o ↦ some o | none ↦ on_lines ls ]

  -- The frames up to the one that ends the reading.
  pub scan : List Text → Option (Outcome V)
  unfolding on_lines lines_of
  scan [] = none
  scan (f ∷ fs) = elim (on_lines (lines_of f)) [ some o ↦ some o | none ↦ scan fs ]

  abbrev no_response : Outcome V
  no_response = threw (str "MCP: no response for id " ++ (decimal id ++ str " within 20000ms"))

  -- `readSseForId` from a buffer on.
  pub read_from : Text → List Read → Outcome V
  unfolding scan frames_of
  read_from buf [] = no_response
  read_from buf (broken e ∷ reads) = threw e
  read_from buf (chunk c ∷ reads) =
      let (frames, rest) = frames_of (buf ++ c) in
      elim (scan frames) [ some o ↦ o | none ↦ read_from rest reads ]

  unfoldable pub read_sse_for_id : List Read → Outcome V
  unfolding read_from
  read_sse_for_id reads = read_from [] reads

pub record Client : Type 0 where
  pub token : Option Text
  pub session_id : Option Text
  pub next_id : ℕ

unfoldable pub fresh : Option Text → Client
fresh token = record { token = token; session_id = none; next_id = 1 }

unfoldable pub set_token : Text → Client → Client
set_token token c = record c { token = some token }

-- A header is left out where its value is missing or empty.
add_header : Text → Text → Option Text → Dict Text → Dict Text
add_header name prefix none h = h
add_header name prefix (some []) h = h
add_header name prefix (some (c ∷ v)) h = h ++ (name, prefix ++ (c ∷ v)) ∷ []

unfoldable pub headers : Client → Dict Text
unfolding add_header
headers c = add_header (str "Mcp-Session-Id") [] c.session_id (
    add_header (str "Authorization") (str "Bearer ") c.token (
      (str "Content-Type", str "application/json")
      ∷ (str "Accept", str "application/json, text/event-stream")
      ∷ []))

-- The body of a response: an event stream, which may be missing, or JSON that may hold an error.
pub data ResponseBody (V : Type 0) : Type 0 where
  no_body : ResponseBody V
  events : List Read → ResponseBody V
  json : Outcome V → ResponseBody V

pub record Response (V : Type 0) : Type 0 where
  pub session_header : Option Text
  pub body : ResponseBody V

unfoldable pub keep_session : Option Text → Client → Client
keep_session none c = c
keep_session (some []) c = c
keep_session (some (s ∷ t)) c = record c { session_id = some (s ∷ t) }

module _ {V : Type 0} (parse : Text → Parsed V) where
  body_of : ℕ → ResponseBody V → Outcome V
  unfolding read_sse_for_id
  body_of id no_body = threw (str "MCP: empty response body")
  body_of id (events reads) = read_sse_for_id parse id reads
  body_of id (json o) = o

  answered : ℕ → Client → Outcome (Response V) → Client × Outcome V
  unfolding body_of keep_session
  answered id c (threw e) = (c, threw e)
  answered id c (returned r) = (keep_session r.session_header c, body_of id r.body)

  -- `rpc`, with what `fetch` ends in.
  unfoldable pub rpc : Client → Outcome (Response V) → Client × Outcome V
  unfolding answered
  rpc c response = answered c.next_id (record c { next_id = suc c.next_id }) response
