-- ===== src/Providers/Anthropic.antt =====
-- internal/providers/anthropic.go: the translation of Anthropic's events into OpenAI chunks. JSON is decoded and encoded by the library: an event is its decoded
-- envelope, and a chunk is what is put into its payload.
pub mod Indexes
pub mod Cache
pub mod Breakpoints
pub mod Request
pub mod Message
pub mod Streamed
pub mod Chunked
pub mod Spoken
pub mod Agreement
use llm_pico.Common.{
  Option, if◌then◌else◌, [], ◌&&◌, ℕ, List, some, ◌∷◌, Bool, none, ◌+◌, ◌||◌, false, true, leb,
}
use llm_pico.Common.Bytes.{Bytes, bytes_eq, codes}
use llm_pico.Common.Signed.{ℤ, add64, pos, eq_ℤ}
use llm_pico.Common.Text.{has_prefix}
use llm_pico.Proxy.Select.{is_positive}
use llm_pico.Proxy.Stream.{Usage}

pub record AnthropicUsage : Type 0 where
  pub input_tokens : ℤ
  pub output_tokens : ℤ
  pub cache_read_input_tokens : ℤ
  pub cache_creation_input_tokens : ℤ

-- `promptTotal`.
unfoldable pub prompt_total : AnthropicUsage → ℤ
prompt_total u =
    add64 (add64 u.input_tokens u.cache_read_input_tokens) u.cache_creation_input_tokens

-- `mapStopReason`.
unfoldable pub map_stop_reason : Bytes → Bytes
map_stop_reason reason =
    if bytes_eq reason (codes "max_tokens")
    then codes "length"
    else if bytes_eq reason (codes "stop_sequence")
    then codes "stop"
    else if bytes_eq reason (codes "tool_use")
    then codes "tool_calls"
    else codes "stop"

-- The decoded envelope of an event; a field that is missing is its zero value.
pub record Envelope : Type 0 where
  pub event : Bytes
  pub index : ℤ
  pub delta_kind : Bytes
  pub delta_text : Bytes
  pub partial_json : Bytes
  pub stop_reason : Bytes
  pub block_kind : Bytes
  pub block_id : Bytes
  pub block_name : Bytes
  pub message_id : Bytes
  pub message_usage : AnthropicUsage
  pub usage : AnthropicUsage

-- What a chunk carries: the role, a text with its choice index, a delta of a tool call with its index,
-- id, name and arguments, the usage with the finish reason, or the end.
pub data Emitted : Type 0 where
  opening : Emitted
  text_delta : ℤ → Bytes → Emitted
  tool_delta : ℕ → Bytes → Bytes → Bytes → Emitted
  final : Option Usage → Option Bytes → Emitted
  done : Emitted

-- `anthropicStream`, without the message id and the model, which it only copies into chunks.
pub record StreamState : Type 0 where
  pub event_type : Bytes
  pub prompt_tokens : ℤ
  pub cached_tokens : ℤ
  pub completion_tokens : ℤ
  pub last_reason : Bytes
  pub tool_index_by_block : ℤ → Option ℕ
  pub tool_calls : ℕ
  pub saw_tool_calls : Bool

abbrev pub fresh_stream : StreamState
fresh_stream = record {
  event_type = [];
  prompt_tokens = pos 0;
  cached_tokens = pos 0;
  completion_tokens = pos 0;
  last_reason = [];
  tool_index_by_block = λ block. none;
  tool_calls = 0;
  saw_tool_calls = false;
}

abbrev pub set_index : (ℤ → Option ℕ) → ℤ → ℕ → ℤ → Option ℕ
set_index indexes block index other = if eq_ℤ other block then some index else indexes other

-- `finalChunk`.
abbrev pub finish_reason : StreamState → Bytes
finish_reason s =
    let reason = map_stop_reason s.last_reason in
    if s.saw_tool_calls && bytes_eq reason (codes "stop") then codes "tool_calls" else reason

abbrev pub final_usage : StreamState → Option Usage
final_usage s =
    if is_positive s.prompt_tokens || is_positive s.completion_tokens
    then some (record {
      prompt_tokens = s.prompt_tokens;
      total_tokens = add64 s.prompt_tokens s.completion_tokens;
      cached_tokens = s.cached_tokens;
    })
    else none

unfoldable pub final_chunk : StreamState → Emitted
final_chunk s =
    Emitted.final (final_usage s)
      (if bytes_eq s.last_reason [] then none else some (finish_reason s))

-- The cases of `Next`, with the type of the event settled: the state and the chunk, if one is emitted.
unfoldable pub message_start : StreamState → Envelope → StreamState × Option Emitted
message_start s e = (
  record s {
    prompt_tokens = prompt_total e.message_usage;
    cached_tokens = e.message_usage.cache_read_input_tokens;
  },
  some Emitted.opening,
)

unfoldable pub block_start : StreamState → Envelope → StreamState × Option Emitted
block_start s e =
    if bytes_eq e.block_kind (codes "tool_use")
    then (
      record s {
        tool_index_by_block = set_index s.tool_index_by_block e.index s.tool_calls;
        tool_calls = s.tool_calls + 1;
        saw_tool_calls = true;
      },
      some (Emitted.tool_delta s.tool_calls e.block_id e.block_name []),
    )
    else (s, none)

unfoldable pub block_delta : StreamState → Envelope → StreamState × Option Emitted
block_delta s e =
    if bytes_eq e.delta_kind (codes "text_delta")
    then if bytes_eq e.delta_text []
      then (s, none)
      else (s, some (Emitted.text_delta e.index e.delta_text))
    else if bytes_eq e.delta_kind (codes "input_json_delta")
    then elim (s.tool_index_by_block e.index) [
      | none ↦ (s, none)
      | some index ↦ (s, some (Emitted.tool_delta index [] [] e.partial_json))
    ]
    else (s, none)

abbrev pub with_reason : StreamState → Envelope → StreamState
with_reason s e = record s {
  completion_tokens = e.usage.output_tokens;
  last_reason = if bytes_eq e.stop_reason [] then s.last_reason else e.stop_reason;
}

unfoldable pub message_delta : StreamState → Envelope → StreamState × Option Emitted
message_delta s e = (with_reason s e, some (final_chunk (with_reason s e)))

-- One turn of the loop of `Next` on an envelope that decodes.
unfoldable pub take_event : StreamState → Envelope → StreamState × Option Emitted
take_event s₀ e =
    let event = if bytes_eq e.event [] then s₀.event_type else e.event in
    let s = record s₀ { event_type = event } in
    if bytes_eq event (codes "message_start")
    then message_start s e
    else if bytes_eq event (codes "content_block_start")
    then block_start s e
    else if bytes_eq event (codes "content_block_delta")
    then block_delta s e
    else if bytes_eq event (codes "message_delta")
    then message_delta s e
    else if bytes_eq event (codes "message_stop")
    then (s, some Emitted.done)
    else (s, none)

abbrev pub ends_stream : Emitted → Bool
ends_stream Emitted.done = true
ends_stream _ = false

-- The chunks that the calls of `Next` return on the payloads of a stream, read until the first chunk
-- that ends it; `decode` is the library's.
unfoldable pub translate : (Bytes → Option Envelope) → StreamState → List Bytes → List Emitted
translate decode s [] = []
translate decode s (p ∷ ps) =
    let skipped = translate decode s ps in
    if has_prefix p (codes "[DONE]") then Emitted.done ∷ [] else elim (decode p) [
      | none ↦ skipped
      | some e ↦
          let (s', emitted) = take_event s e in
          let rest = translate decode s' ps in
          elim emitted [ none ↦ rest | some c ↦ if ends_stream c then c ∷ [] else c ∷ rest ]
    ]
