-- ===== src/Mcp/Answers.antt =====
-- src/mcp-client.ts: `rpc`, answered by an event stream of one-line frames.
use ad4m_link_language_tests.Prelude.{
  Text, ℕ, suc, str, ◌≡◌, refl, sym, ap, ◌∙◌, false, Option, none, some, inl, inr, List, [], ◌∷◌,
  ◌++◌, any, map, arith, All, ◌≢◌, ◌==◌, decimal, Bool, true, Option-cases, append-nil,
}
use ad4m_link_language_tests.Prelude.Outcome.{Outcome, returned, threw}
use ad4m_link_language_tests.Mcp.{
  Parsed, invalid, null, message, Message, matching, chunk, Client, events, find_break, frames_of,
  is_terminator, data_of, value_of, after, skip_space, lines_of, on_message, on_data, on_lines,
  scan, read_from, read_sse_for_id, no_response, rpc, answered, keep_session, body_of,
}
use ad4m_link_language_tests.Mcp.Frames.{frames_of-none, frames_of-some}
use ad4m_link_language_tests.Mcp.Chunks.{concat, read_sse_for_id-concat}

-- A server's frame that holds one text.
unfoldable pub frame : Text → Text
frame t = str "data: " ++ t

unfoldable pub wire : List Text → Text
unfolding frame
wire [] = []
wire (t ∷ ts) = frame t ++ (10 ∷ (10 ∷ wire ts))

-- A text that is not empty and has no line terminator.
unfoldable pub IsLine : Text → Type 0
unfolding is_terminator
IsLine [] = ⊥
IsLine (c ∷ s) = any is_terminator (c ∷ s) ≡ false

no_break :
    (s r : Text) → any is_terminator s ≡ false → find_break (s ++ (10 ∷ (10 ∷ r))) ≡ some (s, r)
unfolding find_break is_terminator
no_break [] r h = refl
no_break (c ∷ []) r h = ground (arith, h)
no_break (c ∷ (d ∷ s)) r h = ground (arith, h, no_break (d ∷ s) r (ground (arith, h)))

one_line : (s : Text) → any is_terminator s ≡ false → lines_of s ≡ s ∷ []
unfolding lines_of is_terminator
one_line [] h = refl
one_line (c ∷ s) h = ground (arith, h, one_line s (ground (arith, h)))

frame_plain : (t : Text) → IsLine t → any is_terminator (frame t) ≡ false
unfolding frame IsLine is_terminator
frame_plain [] h = absurd h
frame_plain (c ∷ s) h = h

data_of-frame : (t : Text) → IsLine t → data_of (frame t) ≡ some t
unfolding frame IsLine data_of after skip_space value_of
data_of-frame [] h = absurd h
data_of-frame (c ∷ s) h = rw h refl

frames-wire : (ts : List Text) → All IsLine ts → (frames_of (wire ts)).0 ≡ map frame ts
unfolding wire find_break
frames-wire [] h = rw (frames_of-none [] refl) refl
frames-wire (t ∷ ts) (p, h) =
    rw
      (frames_of-some (wire (t ∷ ts)) (frame t) (wire ts)
        (no_break (frame t) (wire ts) (frame_plain t p)))
      (ap (λ fs. frame t ∷ fs) (frames-wire ts h))

module _ {V : Type 0} (parse : Text → Parsed V) (id : ℕ) where
  -- What a request ends in when these texts come: a text that is not JSON, or has another id or
  -- none, is passed over; `null` ends the request with an exception; the first text with the
  -- request's id decides.
  pub data EndsIn : List Text → Outcome V → Type 0 where
    none_comes :
        EndsIn [] (threw (str "MCP: no response for id " ++ (decimal id ++ str " within 20000ms")))
    not_json :
        {t : Text} {ts : List Text} {o : Outcome V}
        → parse t ≡ invalid
        → EndsIn ts o
        → EndsIn (t ∷ ts) o
    not_ours :
        {t : Text} {ts : List Text} {o : Outcome V} (m : Message V)
        → parse t ≡ message m
        → m.id ≢ some id
        → EndsIn ts o
        → EndsIn (t ∷ ts) o
    of_null :
        {t : Text} {ts : List Text}
        → parse t ≡ null
        → EndsIn (t ∷ ts) (threw (str "Cannot read properties of null (reading 'id')"))
    of_result :
        {t : Text} {ts : List Text} (m : Message V)
        → parse t ≡ message m
        → m.id ≡ some id
        → m.error ≡ none
        → EndsIn (t ∷ ts) (returned m.result)
    of_error :
        {t : Text} {ts : List Text} (m : Message V) (e : Text)
        → parse t ≡ message m
        → m.id ≡ some id
        → m.error ≡ some e
        → EndsIn (t ∷ ts) (threw (str "MCP error: " ++ e))

  -- What the first text that answers the request makes of it.
  first_answer : List Text → Outcome V
  unfolding on_message
  first_answer [] = no_response parse id
  first_answer (t ∷ ts) = elim (on_message parse id (parse t)) [
    | some o ↦ o
    | none ↦ first_answer ts
  ]

  -- What a text with this meaning makes of the answer of those behind it.
  decided : Parsed V → Outcome V → Outcome V
  unfolding on_message
  decided p rest = elim (on_message parse id p) [ some o ↦ o | none ↦ rest ]

  said-EndsIn :
      (t : Text) (ts : List Text) (m : Message V) (error : Option Text)
      → parse t ≡ message m
      → m.id ≡ some id
      → m.error ≡ error
      → EndsIn
          (t ∷ ts)
          (elim error [ none ↦ returned m.result | some e ↦ threw (str "MCP error: " ++ e) ])
  said-EndsIn t ts m none at ours good = of_result m at ours good
  said-EndsIn t ts m (some e) at ours bad = of_error m e at ours bad

  matching-EndsIn :
      (t : Text) (ts : List Text) (m : Message V) (ours : Bool) (o : Outcome V)
      → parse t ≡ message m
      → (ours ≡ true → m.id ≡ some id)
      → (ours ≡ false → m.id ≢ some id)
      → EndsIn ts o
      → EndsIn (t ∷ ts) (elim (matching parse id ours m) [ some o ↦ o | none ↦ o ])
  unfolding matching
  matching-EndsIn t ts m true o at same apart rest = said-EndsIn t ts m m.error at (same refl) refl
  matching-EndsIn t ts m false o at same apart rest = not_ours m at (apart refl) rest

  matched-EndsIn :
      (t : Text) (ts : List Text) (m : Message V) (i : Option ℕ) (o : Outcome V)
      → parse t ≡ message m
      → m.id ≡ i
      → EndsIn ts o
      → EndsIn (t ∷ ts) (elim (matching parse id (elim i [ none ↦ false | some n ↦ n == id ]) m) [
        | some o ↦ o
        | none ↦ o
      ])
  matched-EndsIn t ts m none o at has rest =
      matching-EndsIn t ts m false o at (λ e. absurd (ground (arith, e)))
        (λ _ e. ground (arith, has, e)) rest
  matched-EndsIn t ts m (some n) o at has rest =
      matching-EndsIn t ts m (n == id) o at (λ e. ground (arith, has, e))
        (λ e f. ground (arith, has, e, f)) rest

  decided-EndsIn :
      (t : Text) (ts : List Text) (p : Parsed V) (o : Outcome V)
      → parse t ≡ p
      → EndsIn ts o
      → EndsIn (t ∷ ts) (decided p o)
  unfolding decided
  decided-EndsIn t ts invalid o at rest = not_json at rest
  decided-EndsIn t ts null o at rest = of_null at
  decided-EndsIn t ts (message m) o at rest = matched-EndsIn t ts m m.id o at refl rest

  first_answer-EndsIn : (ts : List Text) → EndsIn ts (first_answer ts)
  unfolding first_answer decided
  first_answer-EndsIn [] = none_comes
  first_answer-EndsIn (t ∷ ts) =
      decided-EndsIn t ts (parse t) (first_answer ts) refl (first_answer-EndsIn ts)

  verdict : Option (Outcome V) → Outcome V
  verdict none = no_response parse id
  verdict (some o) = o

  on_one_line : (l : Text) → on_lines parse id (l ∷ []) ≡ on_data parse id (data_of l)
  unfolding on_lines
  on_one_line l = elim (Option-cases (on_data parse id (data_of l))) [
    | inl e ↦ ground (arith, e)
    | inr (o, e) ↦ ground (arith, e)
  ]

  on_frame :
      (t : Text) → IsLine t → on_lines parse id (lines_of (frame t)) ≡ on_message parse id (parse t)
  unfolding on_data IsLine
  on_frame [] h = absurd h
  on_frame (c ∷ s) h =
      ap (on_lines parse id) (one_line (frame (c ∷ s)) (frame_plain (c ∷ s) h))
      ∙ on_one_line (frame (c ∷ s))
      ∙ ap (on_data parse id) (data_of-frame (c ∷ s) h)

  scan-frames :
      (ts : List Text) → All IsLine ts → verdict (scan parse id (map frame ts)) ≡ first_answer ts
  unfolding scan first_answer verdict
  scan-frames [] h = refl
  scan-frames (t ∷ ts) (p, h) = elim (Option-cases (on_message parse id (parse t))) [
    | inl e ↦ ground (arith, on_frame t p, e, scan-frames ts h)
    | inr (o, e) ↦ ground (arith, on_frame t p, e)
  ]

  read_once :
      (s : Text)
      → read_sse_for_id parse id (chunk s ∷ []) ≡ verdict (scan parse id ((frames_of s).0))
  unfolding read_sse_for_id read_from verdict
  read_once s = elim (Option-cases (scan parse id ((frames_of s).0))) [
    | inl e ↦ ground (arith, e)
    | inr (o, e) ↦ ground (arith, e)
  ]

  read-wire :
      (cs ts : List Text)
      → All IsLine ts
      → concat cs ≡ wire ts
      → read_sse_for_id parse id (map chunk cs) ≡ first_answer ts
  read-wire cs ts lines e =
      ap (read_sse_for_id parse id) (sym (append-nil (map chunk cs)))
      ∙ read_sse_for_id-concat parse id cs []
      ∙ ap (λ s. read_sse_for_id parse id (chunk s ∷ [])) e
      ∙ read_once (wire ts)
      ∙ (rw (frames-wire ts lines) (scan-frames ts lines))

-- The session that a client has after a response that names this one, or an empty one, or none.
pub session_after : Option Text → Option Text → Option Text
session_after none old = old
session_after (some []) old = old
session_after (some (c ∷ s)) old = some (c ∷ s)

keep_session-session_after :
    (session : Option Text) (c : Client)
    → keep_session session c ≡ record c { session_id = session_after session c.session_id }
unfolding keep_session session_after
keep_session-session_after none c = refl
keep_session-session_after (some []) c = refl
keep_session-session_after (some (x ∷ s)) c = refl

module _ {V : Type 0} (parse : Text → Parsed V) where
  -- A request that is answered by an event stream, which holds texts without line terminators in
  -- frames of their own and arrives in any chunks, ends in what the first text with the request's
  -- id says, its result or its error; texts that are not JSON or have no or another id are passed
  -- over, but a text `null` before it ends the request with an exception, and without such a text
  -- the request fails. The client's next request has the next id, and the session that the response
  -- names, if it does.
  pub rpc-first_answer :
      (c : Client) (session : Option Text) (cs ts : List Text)
      → All IsLine ts
      → concat cs ≡ wire ts
      → (o : Outcome V) × EndsIn parse c.next_id ts o
        × (rpc parse c
              (returned (record { session_header = session; body = events (map chunk cs) }))
            ≡ (
              record c { next_id = suc c.next_id; session_id = session_after session c.session_id },
              o,
            ))
  unfolding rpc answered body_of
  rpc-first_answer c session cs ts lines e = (
    first_answer parse c.next_id ts,
    first_answer-EndsIn parse c.next_id ts,
    rw (read-wire parse c.next_id cs ts lines e) (
        ap (λ d. (d, first_answer parse c.next_id ts))
          (keep_session-session_after session (record c { next_id = suc c.next_id }))),
  )
