-- ===== src/Providers/Anthropic/Request.antt =====
-- internal/providers/anthropic.go, buildAnthropic: from the body of a chat request to a request of
-- Anthropic. The ids that it makes up are an argument, by the number of the message and of its call.
pub mod Accepted
pub mod Marked
pub mod Called
pub mod Built
use llm_pico.Common.{
  ℕ, List, Option, ◌∷◌, some, Bool, if◌then◌else◌, none, ◌+◌, not, [], map, ◌&&◌, ◌||◌, ◌++◌,
}
use llm_pico.Common.Bytes.{Bytes, codes, bytes_eq, assign}
use llm_pico.Common.Signed.{ℤ, pos, ltb_ℤ, add64}
use llm_pico.Providers.Anthropic.Breakpoints.{
  AnthropicRequest, AnthropicMessage, AnthropicTool, Content, AnthropicChoice,
  inject_cache_breakpoints,
}
use llm_pico.Providers.Chat.{
  ChatJson, ToolChoice, ContentPart, ChatTool, ChatMessage, ChatRequest, ChatToolCall,
  first_non_empty, empty_part, is_null, flatten_text, text_part, function_tools,
  strip_provider_prefix, tool_arguments, stop_sequences,
}
use llm_pico.Providers.Turns.{ChatTurn, push_turns}
use llm_pico.Proxy.Estimate.Media.{split_data_uri}
use llm_pico.Proxy.Select.{is_positive}

abbrev pub default_max_tokens : ℕ
default_max_tokens = 16384

-- `anthropicConfig`.
pub record AnthropicConfig : Type 0 where
  pub max_output : ℤ
  pub no_cache : Bool

-- `anthropicEffortBudget`.
unfoldable pub effort_budget : Bytes → Option ℤ
effort_budget effort =
    if bytes_eq effort (codes "none")
    then some (pos 0)
    else if bytes_eq effort (codes "low")
    then some (pos 1024)
    else if bytes_eq effort (codes "medium")
    then some (pos 8192)
    else if bytes_eq effort (codes "high")
    then some (pos 16384)
    else none

-- `anthropicToolChoiceFrom`.
unfoldable pub tool_choice_from : ToolChoice → Option AnthropicChoice
tool_choice_from (ToolChoice.choice_word w) =
    if bytes_eq w (codes "none")
    then some (record { kind = codes "none"; name = [] })
    else if bytes_eq w (codes "required") || bytes_eq w (codes "any")
    then some (record { kind = codes "any"; name = [] })
    else none
tool_choice_from (ToolChoice.choice_object kind name) =
    if not (bytes_eq kind (codes "function"))
    then none
    else if bytes_eq name []
    then none
    else some (record { kind = codes "tool"; name = name })
tool_choice_from ToolChoice.no_choice = none

abbrev pub anthropic_tool : ChatTool → AnthropicTool
anthropic_tool t = record {
  name = t.name;
  description = t.description;
  input_schema =
      if is_null t.parameters
      then codes "{\"type\":\"object\",\"properties\":{}}"
      else t.parameters;
}

-- The part that a decoded part becomes, if it becomes one.
unfoldable pub convert_part : ContentPart → Option ContentPart
convert_part p =
    if bytes_eq p.kind (codes "text")
    then some (text_part p.text)
    else if bytes_eq p.kind (codes "image_url") || bytes_eq p.kind (codes "input_image")
    then elim p.image_url [
      | none ↦ none
      | some url ↦ elim (split_data_uri url) [
        | none ↦ none
        | some (media, payload) ↦ some (record empty_part {
          kind = codes "image";
          source = some (record { media_type = media; payload = payload });
        })
      ]
    ]
    else none

unfoldable pub convert_parts : List ContentPart → List ContentPart
convert_parts [] = []
convert_parts (p ∷ ps) =
    let rest = convert_parts ps in elim (convert_part p) [ none ↦ rest | some q ↦ q ∷ rest ]

-- `idsByName`: the id of the last call of a function, if one has an id.
unfoldable pub call_ids : List ChatToolCall → (Bytes → Bytes) → Bytes → Bytes
call_ids [] ids = ids
call_ids (c ∷ cs) ids = call_ids cs (
    if not (bytes_eq c.id []) && not (bytes_eq c.function_name [])
    then assign ids c.function_name c.id
    else ids)

unfoldable pub ids_by_name : List ChatMessage → (Bytes → Bytes) → Bytes → Bytes
ids_by_name [] ids = ids
ids_by_name (m ∷ ms) ids = ids_by_name ms (call_ids m.tool_calls ids)

abbrev pub is_system : ChatMessage → Bool
is_system m = bytes_eq m.role (codes "system") || bytes_eq m.role (codes "developer")

abbrev pub is_tool_result : ChatMessage → Bool
is_tool_result m = bytes_eq m.role (codes "tool") || bytes_eq m.role (codes "function")

-- The completion budget, before thinking.
unfoldable pub completion_budget : AnthropicConfig → ChatRequest → ℤ
completion_budget cfg r =
    if is_positive r.max_completion_tokens
    then r.max_completion_tokens
    else if is_positive r.max_tokens
    then r.max_tokens
    else if is_positive cfg.max_output
    then cfg.max_output
    else pos default_max_tokens

-- The thinking budget; zero when there is none.
unfoldable pub thinking_of : ChatRequest → ℤ
thinking_of r = elim r.thinking_budget [
  | some b ↦ b
  | none ↦ elim (effort_budget r.reasoning_effort) [ some b ↦ b | none ↦ pos 0 ]
]

-- A request with thinking enabled for a budget that is above zero.
unfoldable pub with_thinking : ℤ → AnthropicRequest → AnthropicRequest
with_thinking budget r =
    if is_positive budget
    then record r {
      thinking = some budget;
      max_tokens = if ltb_ℤ budget r.max_tokens then r.max_tokens else add64 budget (pos 4096);
      temperature = none;
    }
    else r

abbrev pub in_turn : ChatTurn ContentPart → AnthropicMessage
in_turn t = record { role = t.role; content = Content.in_parts t.parts }

abbrev pub system_of : List ContentPart → Content
system_of [] = Content.other_content
system_of (p ∷ ps) = Content.in_parts (p ∷ ps)

module _ (json : ChatJson) (fresh : ℕ → ℕ → Bytes) where
  -- `convertContentParts`.
  unfoldable pub convert_content_parts : Bytes → List ContentPart
  convert_content_parts raw = if is_null raw then [] else elim (json.string raw) [
    | some [] ↦ []
    | some (b ∷ bs) ↦ text_part (b ∷ bs) ∷ []
    | none ↦ elim (json.parts raw) [ none ↦ [] | some ps ↦ convert_parts ps ]
  ]

  -- The calls of the message `i`, from its call `k`, as parts.
  unfoldable pub tool_uses : ℕ → ℕ → List ChatToolCall → List ContentPart
  tool_uses i k [] = []
  tool_uses i k (c ∷ cs) =
      record empty_part {
        kind = codes "tool_use";
        id = if bytes_eq c.id [] then codes "toolu_" ++ fresh i k else c.id;
        name = c.function_name;
        input = tool_arguments json c.arguments;
      }
      ∷ tool_uses i (k + 1) cs

  abbrev pub tool_result : Bytes → Bytes → ContentPart
  tool_result id raw = record empty_part {
    kind = codes "tool_result";
    tool_use_id = id;
    content = json.encode (flatten_text json raw);
  }

  -- The turn that a message which is no system message becomes.
  unfoldable pub turn_of : (Bytes → Bytes) → ℕ → ChatMessage → ChatTurn ContentPart
  turn_of ids i m =
      let id = first_non_empty (m.tool_call_id ∷ ids m.name ∷ []) in
      if bytes_eq m.role (codes "assistant")
      then record {
        role = codes "assistant";
        parts = convert_content_parts m.content ++ tool_uses i 0 m.tool_calls;
      }
      else if is_tool_result m
      then record {
        role = codes "user";
        parts = if bytes_eq id [] then [] else tool_result id m.content ∷ [];
      }
      else record { role = codes "user"; parts = convert_content_parts m.content }

  unfoldable pub turns_of : (Bytes → Bytes) → ℕ → List ChatMessage → List (ChatTurn ContentPart)
  turns_of ids i [] = []
  turns_of ids i (m ∷ ms) =
      let rest = turns_of ids (i + 1) ms in if is_system m then rest else turn_of ids i m ∷ rest

  -- The parts of the system prompt.
  unfoldable pub system_parts : List ChatMessage → List ContentPart
  system_parts [] = []
  system_parts (m ∷ ms) =
      let rest = system_parts ms in
      let text = flatten_text json m.content in
      if is_system m && not (bytes_eq text []) then text_part text ∷ rest else rest

  -- The request before thinking and breakpoints.
  unfoldable pub plain_request : Bytes → AnthropicConfig → ChatRequest → AnthropicRequest
  plain_request model cfg r =
      let tools = map anthropic_tool (function_tools r.tools) in
      record {
        model = strip_provider_prefix model;
        messages =
            map in_turn
              (push_turns [] (turns_of (ids_by_name r.messages (λ name. [])) 0 r.messages));
        system = system_of (system_parts r.messages);
        max_tokens = completion_budget cfg r;
        streams = r.streams;
        temperature = r.temperature;
        top_p = r.top_p;
        stop_seqs = stop_sequences r.stop;
        tools = tools;
        tool_choice = elim tools [ [] ↦ none | t ∷ ts ↦ tool_choice_from r.tool_choice ];
        thinking = none;
      }

  -- `buildAnthropic`; none is `ErrInvalidRequest`.
  unfoldable pub build_anthropic : Bytes → Bytes → AnthropicConfig → Option AnthropicRequest
  build_anthropic body model cfg = elim (json.request body) [
    | none ↦ none
    | some r ↦
        let out = with_thinking (thinking_of r) (plain_request model cfg r) in
        some (if cfg.no_cache then out else inject_cache_breakpoints out)
  ]
