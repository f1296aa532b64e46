-- ===== src/Providers/Gemini.antt =====
-- internal/providers/gemini.go: the adapter of Google's generateContent. The parts of its messages.
pub mod Generation
pub mod Request
pub mod Reply
pub mod Stream
pub mod Embeddings
use llm_pico.Common.{[], Option, Bool, none, false}
use llm_pico.Common.Bytes.{Bytes, codes}
use llm_pico.Providers.Chat.{MediaSource}

-- `geminiFunctionCall`; its signature is copied off the part it stands in.
pub record FunctionCall : Type 0 where
  pub name : Bytes
  pub args : Bytes
  pub signature : Bytes

pub record FunctionResult : Type 0 where
  pub name : Bytes
  pub response : Bytes

pub record GeminiPart : Type 0 where
  pub text : Bytes
  pub inline_data : Option MediaSource
  pub function_call : Option FunctionCall
  pub function_response : Option FunctionResult
  pub thought_signature : Bytes
  pub thought : Bool

abbrev pub blank_part : GeminiPart
blank_part = record {
  text = [];
  inline_data = none;
  function_call = none;
  function_response = none;
  thought_signature = [];
  thought = false;
}

abbrev pub skip_thought_signature : Bytes
skip_thought_signature = codes "skip_thought_signature_validator"
