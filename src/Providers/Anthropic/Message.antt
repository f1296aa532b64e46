-- ===== src/Providers/Anthropic/Message.antt =====
-- internal/providers/anthropic.go, toOpenAI: a message of Anthropic as a chat completion. The ids, the
-- time and the role that it fills in are left out.
use llm_pico.Common.{Option, List, ◌∷◌, ltb, ◌++◌, length, [], if◌then◌else◌, ◌&&◌, not, none, some}
use llm_pico.Common.Bytes.{Bytes, bytes_eq, codes}
use llm_pico.Common.Signed.{ℤ, add64}
use llm_pico.Providers.Anthropic.{AnthropicUsage, map_stop_reason, prompt_total}
use llm_pico.Proxy.Select.{is_positive}

-- A text, a call of a tool by its id, name and input, or another kind of block.
pub data Block : Type 0 where
  text_block : Bytes → Block
  tool_block : Bytes → Bytes → Bytes → Block
  other_block : Block

-- `anthropicResponse`.
pub record AnthropicResponse : Type 0 where
  pub blocks : List Block
  pub stop_reason : Bytes
  pub usage : AnthropicUsage

pub record ToolCall : Type 0 where
  pub id : Bytes
  pub name : Bytes
  pub arguments : Bytes

-- The message, its finish reason and its usage; no content is that of a message with calls only.
pub record Completion : Type 0 where
  pub content : Option Bytes
  pub calls : List ToolCall
  pub finish : Bytes
  pub prompt_tokens : ℤ
  pub completion_tokens : ℤ
  pub total_tokens : ℤ
  pub cached_tokens : Option ℤ

unfoldable pub content_text : List Block → Bytes
content_text [] = []
content_text (Block.text_block t ∷ bs) = t ++ content_text bs
content_text (Block.tool_block id name input ∷ bs) = content_text bs
content_text (Block.other_block ∷ bs) = content_text bs

abbrev pub call_arguments : Bytes → Bytes
call_arguments input =
    if ltb 0 (length input) && not (bytes_eq input (codes "null")) then input else codes "{}"

unfoldable pub tool_calls_of : List Block → List ToolCall
tool_calls_of [] = []
tool_calls_of (Block.tool_block id name input ∷ bs) =
    record { id = id; name = name; arguments = call_arguments input } ∷ tool_calls_of bs
tool_calls_of (Block.text_block t ∷ bs) = tool_calls_of bs
tool_calls_of (Block.other_block ∷ bs) = tool_calls_of bs

unfoldable pub to_openai : AnthropicResponse → Completion
to_openai a =
    let text = content_text a.blocks in
    let calls = tool_calls_of a.blocks in
    let called = ltb 0 (length calls) in
    let reason = map_stop_reason a.stop_reason in
    let prompt = prompt_total a.usage in
    record {
      content = if called && bytes_eq text [] then none else some text;
      calls = calls;
      finish = if called && bytes_eq reason (codes "stop") then codes "tool_calls" else reason;
      prompt_tokens = prompt;
      completion_tokens = a.usage.output_tokens;
      total_tokens = add64 prompt a.usage.output_tokens;
      cached_tokens =
          if is_positive a.usage.cache_read_input_tokens
          then some a.usage.cache_read_input_tokens
          else none;
    }
