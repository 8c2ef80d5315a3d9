-- ===== src/Mcp/Tools.antt =====
-- src/mcp-client.ts: the calls of tools, on top of `rpc`. A JSON value is the parameter `V`, its
-- view as a tool's result another, and `JSON.parse` of a text a third.
use ad4m_link_language_tests.Prelude.{Text, str, Option, none, some, List, [], find?, ◌===◌}
use ad4m_link_language_tests.Prelude.Outcome.{Outcome, returned, threw}
use ad4m_link_language_tests.Mcp.{Parsed, Response, Client, rpc}

pub record Block : Type 0 where
  pub type : Text
  pub text : Option Text

-- What `callToolJson` hands back: the result itself, a parsed text, or a text that is not JSON.
pub data ToolJson (V W : Type 0) : Type 0 where
  whole : V → ToolJson V W
  value : W → ToolJson V W
  plain : Text → ToolJson V W

-- `r?.tools ?? []`
list_of : {A : Type 0} → Option (List A) → List A
list_of none = []
list_of (some tools) = tools

text_of_block : Option Block → Option Text
text_of_block none = none
text_of_block (some b) = b.text

-- `r?.content?.find((c) => c.type === "text")?.text`
text_of : Option (List Block) → Option Text
unfolding text_of_block
text_of none = none
text_of (some blocks) = text_of_block (find? (λ b. b.type === str "text") blocks)

module _ {V W A : Type 0} (parse : Text → Parsed V) (tools : V → Option (List A))
    (content : V → Option (List Block)) (json : Text → Option W) where
  unfoldable pub list_tools : Client → Outcome (Response V) → Client × Outcome (List A)
  unfolding rpc list_of
  list_tools c response =
      let (c', o) = rpc parse c response in
      (c', elim o [ threw e ↦ threw e | returned r ↦ returned (list_of (tools r)) ])

  parse_or_keep : Text → Option W → ToolJson V W
  parse_or_keep text none = plain text
  parse_or_keep text (some w) = value w

  of_text : V → Option Text → ToolJson V W
  unfolding parse_or_keep
  of_text r none = whole r
  of_text r (some text) = parse_or_keep text (json text)

  unfoldable pub call_tool_json : Client → Outcome (Response V) → Client × Outcome (ToolJson V W)
  unfolding rpc of_text text_of
  call_tool_json c response =
      let (c', o) = rpc parse c response in
      (c', elim o [ threw e ↦ threw e | returned r ↦ returned (of_text r (text_of (content r))) ])
