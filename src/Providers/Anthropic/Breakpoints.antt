-- ===== src/Providers/Anthropic/Breakpoints.antt =====
-- internal/providers/anthropic.go, injectCacheBreakpoints: the breakpoints of the prompt cache.
use llm_pico.Common.{
  List, none, if◌then◌else◌, ℕ, some, ◌+◌, leb, ◌∷◌, Option, [], Bool, false, true,
}
use llm_pico.Common.Bytes.{Bytes, codes}
use llm_pico.Common.Signed.{ℤ}
use llm_pico.Providers.Chat.{ContentPart}

-- A content, or a system prompt: parts, or any other value.
pub data Content : Type 0 where
  in_parts : List ContentPart → Content
  other_content : Content

pub record AnthropicMessage : Type 0 where
  pub role : Bytes
  pub content : Content

pub record AnthropicTool : Type 0 where
  pub name : Bytes
  pub description : Bytes
  pub input_schema : Bytes

-- `anthropicToolChoice`: its type and its name, which may be empty.
pub record AnthropicChoice : Type 0 where
  pub kind : Bytes
  pub name : Bytes

-- `anthropicRequest`; thinking is by its budget, and always enabled when it is there.
pub record AnthropicRequest : Type 0 where
  pub model : Bytes
  pub messages : List AnthropicMessage
  pub system : Content
  pub max_tokens : ℤ
  pub streams : Bool
  pub temperature : Option Bytes
  pub top_p : Option Bytes
  pub stop_seqs : List Bytes
  pub tools : List AnthropicTool
  pub tool_choice : Option AnthropicChoice
  pub thinking : Option ℤ

abbrev pub max_cache_breakpoints : ℕ
max_cache_breakpoints = 4

unfoldable pub marked_parts : List ContentPart → ℕ
marked_parts [] = 0
marked_parts (p ∷ ps) =
    let rest = marked_parts ps in elim p.cache_control [ none ↦ rest | some t ↦ 1 + rest ]

abbrev pub content_count : Content → ℕ
content_count (Content.in_parts ps) = marked_parts ps
content_count Content.other_content = 0

unfoldable pub message_count : List AnthropicMessage → ℕ
message_count [] = 0
message_count (m ∷ ms) = content_count m.content + message_count ms

-- `cacheBreakpointCount`.
unfoldable pub cache_breakpoint_count : AnthropicRequest → ℕ
cache_breakpoint_count r = content_count r.system + message_count r.messages

abbrev pub mark_part : ContentPart → ContentPart
mark_part p = elim p.cache_control [
  | none ↦ record p { cache_control = some (codes "ephemeral") }
  | some t ↦ p
]

-- Parts with the last one marked.
unfoldable pub mark_last : List ContentPart → List ContentPart
mark_last [] = []
mark_last (p ∷ []) = mark_part p ∷ []
mark_last (p ∷ q ∷ ps) = p ∷ mark_last (q ∷ ps)

abbrev pub mark_content : Content → Content
mark_content (Content.in_parts ps) = Content.in_parts (mark_last ps)
mark_content Content.other_content = Content.other_content

abbrev pub has_parts : Content → Bool
has_parts (Content.in_parts []) = false
has_parts (Content.in_parts (p ∷ ps)) = true
has_parts Content.other_content = false

-- Messages with the last part of the first one that has parts marked.
unfoldable pub mark_first : List AnthropicMessage → List AnthropicMessage
mark_first [] = []
mark_first (m ∷ ms) =
    let rest = mark_first ms in
    if has_parts m.content then record m { content = mark_content m.content } ∷ ms else m ∷ rest

-- `injectCacheBreakpoints`. What the code counts up is the breakpoint that the system prompt gains.
unfoldable pub inject_cache_breakpoints : AnthropicRequest → AnthropicRequest
inject_cache_breakpoints r =
    let marked = record r { system = mark_content r.system } in
    if leb max_cache_breakpoints (cache_breakpoint_count r)
    then r
    else if leb max_cache_breakpoints (cache_breakpoint_count marked)
    then marked
    else record marked { messages = mark_first r.messages }
