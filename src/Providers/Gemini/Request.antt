-- ===== src/Providers/Gemini/Request.antt =====
-- internal/providers/gemini.go, toGemini: from the body of a chat request to one of generateContent.
pub mod Sendable
pub mod Payload
use llm_pico.Common.{
  ℕ, Option, List, some, if◌then◌else◌, none, ◌∷◌, map, Bool, ◌&&◌, ◌++◌, false, [], not, ◌||◌,
}
use llm_pico.Common.Bytes.{Bytes, codes, bytes_eq, assign}
use llm_pico.Common.Signed.{ℤ, pos, eq_ℤ}
use llm_pico.Common.Text.{lower, contains}
use llm_pico.Providers.Anthropic.Request.{is_tool_result}
use llm_pico.Providers.Chat.{
  ChatRequest, ContentPart, ChatTool, ChatMessage, ChatJson, ToolChoice, ResponseFormat,
  flatten_text, stop_sequences, ChatToolCall, function_tools, first_non_empty, is_null, wrapped,
  ObjectReading, strip_provider_prefix, tool_arguments,
}
use llm_pico.Providers.Gemini.{GeminiPart, blank_part, skip_thought_signature}
use llm_pico.Providers.Gemini.Generation.{
  GeminiRequest, function_decl, generation_config, tool_config_from,
}
use llm_pico.Providers.Turns.{ChatTurn, push_turns}
use llm_pico.Proxy.Estimate.Media.{split_data_uri}
use llm_pico.Proxy.Select.{is_positive}

-- `toolNames`: the function of a call by its id; the last call of an id counts.
unfoldable pub call_names : List ChatToolCall → (Bytes → Bytes) → Bytes → Bytes
call_names [] names = names
call_names (c ∷ cs) names = call_names cs (
    if not (bytes_eq c.id []) && not (bytes_eq c.function_name [])
    then assign names c.id c.function_name
    else names)

unfoldable pub tool_names : List ChatMessage → (Bytes → Bytes) → Bytes → Bytes
tool_names [] names = names
tool_names (m ∷ ms) names = tool_names ms (call_names m.tool_calls names)

abbrev pub media_part : Bytes → Bytes → GeminiPart
media_part media payload = record blank_part {
  inline_data = some (record { media_type = media; payload = payload });
}

abbrev pub words_part : Bytes → GeminiPart
words_part text = record blank_part { text = text }

-- The type of an audio format.
abbrev pub audio_type : Bytes → Bytes
audio_type format =
    let mime = codes "audio/" ++ format in
    if bytes_eq mime (codes "audio/mp3") then codes "audio/mpeg" else mime

-- The part that a decoded part becomes, if it becomes one.
unfoldable pub gemini_part : ContentPart → Option GeminiPart
gemini_part p =
    if bytes_eq p.kind (codes "text")
    then some (words_part p.text)
    else if bytes_eq p.kind (codes "image_url") || bytes_eq p.kind (codes "input_image")
    then elim p.image_url [
      | none ↦ none
      | some url ↦ elim (split_data_uri url) [
        | none ↦ none
        | some (media, payload) ↦ some (media_part media payload)
      ]
    ]
    else if bytes_eq p.kind (codes "input_audio")
    then elim p.input_audio [
      | none ↦ none
      | some audio ↦
          if bytes_eq audio.payload []
          then none
          else some (media_part (audio_type audio.format) audio.payload)
    ]
    else none

unfoldable pub gemini_parts : List ContentPart → List GeminiPart
gemini_parts [] = []
gemini_parts (p ∷ ps) =
    let rest = gemini_parts ps in elim (gemini_part p) [ none ↦ rest | some q ↦ q ∷ rest ]

abbrev pub is_instruction : ChatMessage → Bool
is_instruction m = bytes_eq m.role (codes "system")

unfoldable pub any_instruction : List ChatMessage → Bool
any_instruction [] = false
any_instruction (m ∷ ms) = is_instruction m || any_instruction ms

-- `supportsZeroThinkingBudget`.
unfoldable pub supports_zero_thinking : Bytes → Bool
supports_zero_thinking model =
    let m = lower (strip_provider_prefix model) in
    contains m (codes "gemini-2.5") && contains m (codes "flash")

-- `dropUnsupportedZeroThinking`, on a request that has a config.
unfoldable pub drop_zero_thinking : Bytes → GeminiRequest → GeminiRequest
drop_zero_thinking model r = elim r.config.thinking [
  | none ↦ r
  | some budget ↦
      if not (eq_ℤ budget (pos 0)) || supports_zero_thinking model
      then r
      else record r { config = record r.config { thinking = none } }
]

module _ (json : ChatJson) where
  -- `convertGeminiParts`.
  unfoldable pub convert_gemini_parts : Bytes → List GeminiPart
  convert_gemini_parts raw = if is_null raw then [] else elim (json.string raw) [
    | some [] ↦ []
    | some (b ∷ bs) ↦ words_part (b ∷ bs) ∷ []
    | none ↦ elim (json.parts raw) [ none ↦ [] | some ps ↦ gemini_parts ps ]
  ]

  -- `toolResultPayload`.
  unfoldable pub tool_result_payload : Bytes → Bytes
  tool_result_payload raw =
      let text = flatten_text json raw in
      let other : Bytes = elim (json.value text) [
        | some v ↦ wrapped (codes "result") v
        | none ↦ wrapped (codes "result") (json.encode text)
      ] in
      if bytes_eq text [] then codes "{}" else elim (json.reading text) [
        | ObjectReading.an_object ↦ text
        | ObjectReading.a_null ↦ other
        | ObjectReading.not_object ↦ other
      ]

  abbrev pub call_part : ChatToolCall → GeminiPart
  call_part c =
      let signature =
        if bytes_eq c.thought_signature [] then skip_thought_signature else c.thought_signature in
      record blank_part {
        function_call = some (record {
          name = c.function_name;
          args = tool_arguments json c.arguments;
          signature = [];
        });
        thought_signature = signature;
      }

  abbrev pub result_part : (Bytes → Bytes) → ChatMessage → GeminiPart
  result_part names m = record blank_part {
    function_response = some (record {
      name =
          first_non_empty (m.name ∷ names m.tool_call_id ∷ m.tool_call_id ∷ codes "function" ∷ []);
      response = tool_result_payload m.content;
    });
  }

  -- The turn that a message which is no system message becomes.
  unfoldable pub gemini_turn : (Bytes → Bytes) → ChatMessage → ChatTurn GeminiPart
  gemini_turn names m =
      if bytes_eq m.role (codes "assistant")
      then record {
        role = codes "model";
        parts = convert_gemini_parts m.content ++ map call_part m.tool_calls;
      }
      else if is_tool_result m
      then record { role = codes "user"; parts = result_part names m ∷ [] }
      else record { role = codes "user"; parts = convert_gemini_parts m.content }

  unfoldable pub gemini_turns : (Bytes → Bytes) → List ChatMessage → List (ChatTurn GeminiPart)
  gemini_turns names [] = []
  gemini_turns names (m ∷ ms) =
      let rest = gemini_turns names ms in
      if is_instruction m then rest else gemini_turn names m ∷ rest

  -- The system instruction: its parts, once there is a system message.
  unfoldable pub instruction_parts : List ChatMessage → List GeminiPart
  instruction_parts [] = []
  instruction_parts (m ∷ ms) =
      let rest = instruction_parts ms in
      let text = flatten_text json m.content in
      if is_instruction m && not (bytes_eq text []) then words_part text ∷ rest else rest

  unfoldable pub instruction : List ChatMessage → Option (List GeminiPart)
  instruction ms = if any_instruction ms then some (instruction_parts ms) else none

  -- `toGemini`; none is `ErrInvalidRequest`.
  unfoldable pub gemini_request : ChatRequest → GeminiRequest
  gemini_request r =
      let tools = map function_decl (function_tools r.tools) in
      record {
        contents = push_turns [] (gemini_turns (tool_names r.messages (λ id. [])) r.messages);
        system_instruction = instruction r.messages;
        config = generation_config r;
        tools = tools;
        tool_config = elim tools [ [] ↦ none | t ∷ ts ↦ tool_config_from r.tool_choice ];
      }

  unfoldable pub to_gemini : Bytes → Option GeminiRequest
  to_gemini body = elim (json.request body) [ none ↦ none | some r ↦ some (gemini_request r) ]

  -- What `Complete` and `Stream` send for a body.
  unfoldable pub gemini_payload : Bytes → Bytes → Option GeminiRequest
  gemini_payload body model = elim (to_gemini body) [
    | none ↦ none
    | some r ↦ some (drop_zero_thinking model r)
  ]
