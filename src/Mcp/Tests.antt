-- ===== src/Mcp/Tests.antt =====
-- An event stream with a notice and two answers, cut in the middle of a line break.
use ad4m_link_language_tests.Prelude.{
  Text, str, ◌≡◌, refl, none, some, List, [], ◌∷◌, ◌++◌, ◌===◌, map, if◌then◌else◌, ℕ, ◌≤◌, length,
  All,
}
use ad4m_link_language_tests.Prelude.Outcome.{Outcome, returned}
use ad4m_link_language_tests.Mcp.{
  Parsed, invalid, message, chunk, broken, fresh, events, headers, find_break, frames_of,
  take_frames, rpc, read_sse_for_id,
}
use ad4m_link_language_tests.Mcp.Frames.{frames_of-terminates}
use ad4m_link_language_tests.Mcp.Chunks.{concat, read_sse_for_id-concat}
use ad4m_link_language_tests.Mcp.Answers.{
  wire, frame, IsLine, EndsIn, session_after, rpc-first_answer,
}

unfoldable parse : Text → Parsed Text
parse t =
    if t === str "one"
    then message (record { id = some 1; error = none; result = str "first" })
    else if t === str "two"
    then message (record { id = some 2; error = none; result = str "second" })
    else invalid

abbrev notice : List Text
notice = str "notice" ∷ str "two" ∷ str "one" ∷ []

abbrev pieces : List Text
pieces =
    str "data: notice"
    ∷ (10 ∷ [])
    ∷ (10 ∷ str "data: t")
    ∷ (str "wo" ++ 10 ∷ 10 ∷ [])
    ∷ (str "data: one" ++ 10 ∷ 10 ∷ [])
    ∷ []

frames-run : frames_of (concat pieces) ≡ (map frame notice, [])
unfolding frames_of concat frame
frames-run = refl

headers-run :
    headers (fresh (some (str "t")))
    ≡ (str "Content-Type", str "application/json")
      ∷ (str "Accept", str "application/json, text/event-stream")
      ∷ (str "Authorization", str "Bearer t")
      ∷ []
unfolding headers fresh
headers-run = refl

frames_of-terminates_example :
    (find_break ((frames_of (str "a")).1) ≡ none)
    × ((n : ℕ) → length (str "a") ≤ n → take_frames n (str "a") ≡ frames_of (str "a"))
frames_of-terminates_example = frames_of-terminates (str "a")

read_sse_for_id-concat_example :
    read_sse_for_id parse 1 (map chunk pieces ++ broken (str "reset") ∷ [])
    ≡ read_sse_for_id parse 1 (chunk (concat pieces) ∷ broken (str "reset") ∷ [])
read_sse_for_id-concat_example = read_sse_for_id-concat parse 1 pieces (broken (str "reset") ∷ [])

notice-lines : All IsLine notice
unfolding IsLine
notice-lines = (refl, (refl, (refl, tt)))

pieces-wire : concat pieces ≡ wire notice
unfolding concat wire
pieces-wire = refl

rpc-first_answer_example :
    (o : Outcome Text) × EndsIn parse 1 notice o
    × (rpc parse
          (fresh none)
          (returned (record { session_header = some (str "s"); body = events (map chunk pieces) }))
        ≡ (
          record (fresh none) { next_id = 2; session_id = session_after (some (str "s")) none },
          o,
        ))
unfolding fresh
rpc-first_answer_example =
    rpc-first_answer parse (fresh none) (some (str "s")) pieces notice notice-lines pieces-wire

notice-answer : read_sse_for_id parse 1 (map chunk pieces) ≡ returned (str "first")
unfolding read_sse_for_id parse ◌===◌
notice-answer = refl
