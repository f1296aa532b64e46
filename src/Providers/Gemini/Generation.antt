-- ===== src/Providers/Gemini/Generation.antt =====
-- internal/providers/gemini.go: a request of generateContent, with what toGemini sets beside its
-- turns.
use llm_pico.Common.{List, Option, if◌then◌else◌, some, none, [], not, ◌∷◌}
use llm_pico.Common.Bytes.{Bytes, bytes_eq, codes}
use llm_pico.Common.Signed.{ℤ, pos}
use llm_pico.Providers.Chat.{
  ChatRequest, ToolChoice, ChatTool, ResponseFormat, stop_sequences, is_null,
}
use llm_pico.Providers.Gemini.{GeminiPart}
use llm_pico.Providers.Turns.{ChatTurn}
use llm_pico.Proxy.Select.{is_positive}

-- `geminiFunctionDecl`; an empty schema is left out.
pub record FunctionDecl : Type 0 where
  pub name : Bytes
  pub description : Bytes
  pub schema : Bytes

-- `geminiFunctionCallingConfig`.
pub record CallingConfig : Type 0 where
  pub mode : Bytes
  pub allowed_names : List Bytes

-- `generationCfg`, with the budget of its `thinkingCfg`.
pub record GenerationConfig : Type 0 where
  pub max_output_tokens : ℤ
  pub temperature : Option Bytes
  pub top_p : Option Bytes
  pub stop_seqs : List Bytes
  pub thinking : Option ℤ
  pub mime_type : Bytes
  pub schema : Bytes

-- `geminiRequest`; the system instruction is its parts.
pub record GeminiRequest : Type 0 where
  pub contents : List (ChatTurn GeminiPart)
  pub system_instruction : Option (List GeminiPart)
  pub config : GenerationConfig
  pub tools : List FunctionDecl
  pub tool_config : Option CallingConfig

-- `thinkingBudgetFrom`.
unfoldable pub thinking_budget_from : Bytes → Option ℤ
thinking_budget_from effort =
    if bytes_eq effort (codes "none")
    then some (pos 0)
    else if bytes_eq effort (codes "low")
    then some (pos 1024)
    else if bytes_eq effort (codes "medium")
    then some (pos 8192)
    else if bytes_eq effort (codes "high")
    then some (pos 24576)
    else none

-- `applyResponseFormat`.
unfoldable pub apply_response_format : Option ResponseFormat → GenerationConfig → GenerationConfig
apply_response_format none cfg = cfg
apply_response_format (some f) cfg =
    if bytes_eq f.kind (codes "json_object")
    then record cfg { mime_type = codes "application/json" }
    else if bytes_eq f.kind (codes "json_schema")
    then elim f.schema [
      | none ↦ cfg
      | some schema ↦
          if is_null schema
          then cfg
          else record cfg { mime_type = codes "application/json"; schema = schema }
    ]
    else cfg

-- `geminiToolDeclarations`, for one tool.
abbrev pub function_decl : ChatTool → FunctionDecl
function_decl t = record {
  name = t.name;
  description = t.description;
  schema = if is_null t.parameters then [] else t.parameters;
}

-- `geminiToolConfigFrom`.
unfoldable pub tool_config_from : ToolChoice → Option CallingConfig
tool_config_from (ToolChoice.choice_word w) =
    if bytes_eq w (codes "none")
    then some (record { mode = codes "NONE"; allowed_names = [] })
    else if bytes_eq w (codes "required")
    then some (record { mode = codes "ANY"; allowed_names = [] })
    else none
tool_config_from (ToolChoice.choice_object kind name) =
    if not (bytes_eq kind (codes "function"))
    then none
    else if bytes_eq name []
    then none
    else some (record { mode = codes "ANY"; allowed_names = name ∷ [] })
tool_config_from ToolChoice.no_choice = none

-- The output limit of a request.
unfoldable pub output_limit : ChatRequest → ℤ
output_limit r =
    let limit =
      if is_positive r.max_completion_tokens then r.max_completion_tokens else r.max_tokens in
    if is_positive limit then limit else pos 4096

-- The thinking budget of a request; an explicit one wins.
unfoldable pub gemini_thinking : ChatRequest → Option ℤ
gemini_thinking r = elim r.thinking_budget [
  | some b ↦ some b
  | none ↦ thinking_budget_from r.reasoning_effort
]

abbrev pub generation_config : ChatRequest → GenerationConfig
generation_config r = apply_response_format r.response_format (record {
  max_output_tokens = output_limit r;
  temperature = r.temperature;
  top_p = r.top_p;
  stop_seqs = stop_sequences r.stop;
  thinking = gemini_thinking r;
  mime_type = [];
  schema = [];
})
