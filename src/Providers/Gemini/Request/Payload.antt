-- ===== src/Providers/Gemini/Request/Payload.antt =====
-- internal/providers/gemini.go, toGemini and dropUnsupportedZeroThinking: what is sent for a body.
use llm_pico.Common.{List, Option, ◌≡◌, some, All, true, [], false, none}
use llm_pico.Common.Bytes.{Bytes, bytes_eq}
use llm_pico.Common.Signed.{pos}
use llm_pico.Providers.Chat.{ChatJson, ChatRequest}
use llm_pico.Providers.Gemini.{GeminiPart}
use llm_pico.Providers.Gemini.Generation.{GeminiRequest, FunctionDecl}
use llm_pico.Providers.Gemini.Request.{supports_zero_thinking, gemini_turns, tool_names}
use llm_pico.Providers.Gemini.Request.Sendable.{CanSend}
use llm_pico.Providers.Turns.Alternate.{AreTurns, flat}
use llm_pico.Proxy.Select.{is_positive}

-- A request for the model with the parts `xs` that keeps to the rules of Gemini's API.
pub record IsGeminiRequest (model : Bytes) (xs : List (Bytes × GeminiPart)) (out : GeminiRequest)
    : Type 0 where
  -- Turns have parts, and adjacent ones have different roles.
  pub alternates : AreTurns out.contents
  pub in_order : flat out.contents ≡ xs
  pub sendable : All CanSend xs
  pub limited : is_positive out.config.max_output_tokens ≡ true
  -- A zero budget goes only to a model that takes it.
  pub thinks : out.config.thinking ≡ some (pos 0) → supports_zero_thinking model ≡ true
  pub named : All (λ (t : FunctionDecl). bytes_eq t.name [] ≡ false) out.tools
  pub configured : out.tools ≡ [] → out.tool_config ≡ none

module _ (json : ChatJson) where
  -- The parts that the messages of a request come to, with their roles.
  abbrev pub gemini_converted : ChatRequest → List (Bytes × GeminiPart)
  gemini_converted r = flat (gemini_turns json (tool_names r.messages (λ id. [])) r.messages)
