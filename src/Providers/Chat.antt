-- ===== src/Providers/Chat.antt =====
-- The types of a chat request in internal/providers/gemini.go and internal/providers/anthropic.go, and
-- the texts that both adapters read off it. A value that `encoding/json` decodes is what it decodes
-- to, a missing field its zero value; a floating point number, which is only copied, is its text.
use llm_pico.Common.{List, [], if◌then◌else◌, Bool, Option, some, ◌∷◌, none, not, ◌++◌, ◌&&◌, ◌||◌}
use llm_pico.Common.Bytes.{Bytes, codes, bytes_eq}
use llm_pico.Common.Signed.{ℤ}
use llm_pico.Proxy.Estimate.Media.{split_at_byte}

-- One call of a tool in a message.
pub record ChatToolCall : Type 0 where
  pub id : Bytes
  pub thought_signature : Bytes
  pub function_name : Bytes
  pub arguments : Bytes

-- A turn of the conversation; its content is JSON.
pub record ChatMessage : Type 0 where
  pub role : Bytes
  pub content : Bytes
  pub tool_calls : List ChatToolCall
  pub tool_call_id : Bytes
  pub name : Bytes

pub record ChatTool : Type 0 where
  pub kind : Bytes
  pub name : Bytes
  pub description : Bytes
  pub parameters : Bytes

-- `stop`: a text, or a list whose members that are no texts are skipped, or anything else.
pub data StopValue : Type 0 where
  one_stop : Bytes → StopValue
  stops : List (Option Bytes) → StopValue
  no_stop : StopValue

-- `tool_choice`: a text, or an object by its type and the name of its function, each empty when it is
-- missing or no text, or anything else.
pub data ToolChoice : Type 0 where
  choice_word : Bytes → ToolChoice
  choice_object : Bytes → Bytes → ToolChoice
  no_choice : ToolChoice

-- `response_format`: its type, and the schema if there is an object for it.
pub record ResponseFormat : Type 0 where
  pub kind : Bytes
  pub schema : Option Bytes

-- The fields that the adapters decode a body to.
pub record ChatRequest : Type 0 where
  pub messages : List ChatMessage
  pub max_tokens : ℤ
  pub max_completion_tokens : ℤ
  pub temperature : Option Bytes
  pub top_p : Option Bytes
  pub stop : StopValue
  pub streams : Bool
  pub tools : List ChatTool
  pub tool_choice : ToolChoice
  pub reasoning_effort : Bytes
  pub thinking_budget : Option ℤ
  pub response_format : Option ResponseFormat

pub record MediaSource : Type 0 where
  pub media_type : Bytes
  pub payload : Bytes

-- Audio by its format and its bytes in base64.
pub record InputAudio : Type 0 where
  pub format : Bytes
  pub payload : Bytes

-- `contentPart`: a part of a content, of the request or of Anthropic.
pub record ContentPart : Type 0 where
  pub kind : Bytes
  pub text : Bytes
  pub image_url : Option Bytes
  pub input_audio : Option InputAudio
  pub source : Option MediaSource
  pub id : Bytes
  pub name : Bytes
  pub input : Bytes
  pub tool_use_id : Bytes
  pub content : Bytes
  pub cache_control : Option Bytes

abbrev pub empty_part : ContentPart
empty_part = record {
  kind = [];
  text = [];
  image_url = none;
  input_audio = none;
  source = none;
  id = [];
  name = [];
  input = [];
  tool_use_id = [];
  content = [];
  cache_control = none;
}

abbrev pub text_part : Bytes → ContentPart
text_part text = record empty_part { kind = codes "text"; text = text }

-- What a text decodes to as an object of fields.
pub data ObjectReading : Type 0 where
  an_object a_null not_object : ObjectReading

-- What `encoding/json` decodes and encodes. `value` is the encoding of what a text decodes to.
pub record ChatJson : Type 0 where
  pub request : Bytes → Option ChatRequest
  pub string : Bytes → Option Bytes
  pub parts : Bytes → Option (List ContentPart)
  pub reading : Bytes → ObjectReading
  pub value : Bytes → Option Bytes
  pub encode : Bytes → Bytes

abbrev pub is_null : Bytes → Bool
is_null raw = bytes_eq raw [] || bytes_eq raw (codes "null")

-- `firstNonEmpty`.
unfoldable pub first_non_empty : List Bytes → Bytes
first_non_empty [] = []
first_non_empty (v ∷ vs) = let rest = first_non_empty vs in if bytes_eq v [] then rest else v

-- `stripProviderPrefix`.
unfoldable pub strip_provider_prefix : Bytes → Bytes
strip_provider_prefix model = elim (split_at_byte b'/' model) [
  | none ↦ model
  | some (before, after) ↦ after
]

-- The texts of the parts that are texts.
unfoldable pub part_texts : List ContentPart → Bytes
part_texts [] = []
part_texts (p ∷ ps) =
    let rest = part_texts ps in if bytes_eq p.kind (codes "text") then p.text ++ rest else rest

unfoldable pub stop_list : List (Option Bytes) → List Bytes
stop_list [] = []
stop_list (some s ∷ rest) = s ∷ stop_list rest
stop_list (none ∷ rest) = stop_list rest

-- The stop sequences of both adapters.
abbrev pub stop_sequences : StopValue → List Bytes
stop_sequences (StopValue.one_stop s) = s ∷ []
stop_sequences (StopValue.stops ss) = stop_list ss
stop_sequences StopValue.no_stop = []

-- Tools of another type and tools without a name are skipped.
unfoldable pub function_tools : List ChatTool → List ChatTool
function_tools [] = []
function_tools (t ∷ ts) =
    let rest = function_tools ts in
    if not (bytes_eq t.kind []) && not (bytes_eq t.kind (codes "function"))
    then rest
    else if bytes_eq t.name []
    then rest
    else t ∷ rest

abbrev pub wrapped : Bytes → Bytes → Bytes
wrapped key value = codes "{\"" ++ key ++ codes "\":" ++ value ++ codes "}"

module _ (json : ChatJson) where
  -- `flattenText`.
  unfoldable pub flatten_text : Bytes → Bytes
  flatten_text raw = elim (json.string raw) [
    | some s ↦ s
    | none ↦ elim (json.parts raw) [ none ↦ [] | some ps ↦ part_texts ps ]
  ]

  -- `toolArguments`.
  unfoldable pub tool_arguments : Bytes → Bytes
  tool_arguments raw = if bytes_eq raw [] then codes "{}" else elim (json.reading raw) [
    | ObjectReading.an_object ↦ raw
    | ObjectReading.a_null ↦ codes "{}"
    | ObjectReading.not_object ↦ elim (json.value raw) [
      | some v ↦ wrapped (codes "value") v
      | none ↦ codes "{}"
    ]
  ]
