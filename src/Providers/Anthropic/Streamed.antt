-- ===== src/Providers/Anthropic/Streamed.antt =====
-- internal/providers/anthropic.go: the events of a message that is streamed, its blocks in pieces.
use llm_pico.Common.{ℕ, Option, List, ◌∷◌, ◌≡◌, [], some, ◌+◌, false, ◌++◌}
use llm_pico.Common.Bytes.{Bytes, codes}
use llm_pico.Common.Signed.{ℤ, pos}
use llm_pico.Common.Text.{has_prefix}
use llm_pico.Providers.Anthropic.{AnthropicUsage, Envelope}
use llm_pico.Providers.Anthropic.Message.{AnthropicResponse, Block}

abbrev no_usage_yet : AnthropicUsage
no_usage_yet = record {
  input_tokens = pos 0;
  output_tokens = pos 0;
  cache_read_input_tokens = pos 0;
  cache_creation_input_tokens = pos 0;
}

abbrev pub blank : Bytes → ℤ → Envelope
blank event index = record {
  event = event;
  index = index;
  delta_kind = [];
  delta_text = [];
  partial_json = [];
  stop_reason = [];
  block_kind = [];
  block_id = [];
  block_name = [];
  message_id = [];
  message_usage = no_usage_yet;
  usage = no_usage_yet;
}

abbrev pub start_of : ℤ → Block → Envelope
start_of k (Block.text_block t) = record (blank (codes "content_block_start") k) {
  block_kind = codes "text";
}
start_of k (Block.tool_block id name input) = record (blank (codes "content_block_start") k) {
  block_kind = codes "tool_use";
  block_id = id;
  block_name = name;
}
start_of k Block.other_block = record (blank (codes "content_block_start") k) {
  block_kind = codes "thinking";
}

-- A block as it is streamed: its text, or the arguments of its call, in any number of pieces.
pub data Sent : Type 0 where
  sent_text : List Bytes → Sent
  sent_call : Bytes → Bytes → List Bytes → Sent
  sent_other : List Bytes → Sent

abbrev pub joined : List Bytes → Bytes
joined [] = []
joined (p ∷ ps) = p ++ joined ps

abbrev pub pieces : Sent → List Bytes
pieces (Sent.sent_text ps) = ps
pieces (Sent.sent_call id name ps) = ps
pieces (Sent.sent_other ps) = ps

-- The block that the pieces come to.
abbrev pub whole : Sent → Block
whole (Sent.sent_text ps) = Block.text_block (joined ps)
whole (Sent.sent_call id name ps) = Block.tool_block id name (joined ps)
whole (Sent.sent_other ps) = Block.other_block

abbrev pub delta_of : ℤ → Sent → Bytes → Envelope
delta_of k (Sent.sent_text ps) p = record (blank (codes "content_block_delta") k) {
  delta_kind = codes "text_delta";
  delta_text = p;
}
delta_of k (Sent.sent_call id name ps) p = record (blank (codes "content_block_delta") k) {
  delta_kind = codes "input_json_delta";
  partial_json = p;
}
delta_of k (Sent.sent_other ps) p = record (blank (codes "content_block_delta") k) {
  delta_kind = codes "thinking_delta";
}

-- A delta for each piece, before other events.
unfoldable pub deltas : ℤ → Sent → List Bytes → List Envelope → List Envelope
deltas k x [] rest = rest
deltas k x (p ∷ ps) rest = delta_of k x p ∷ deltas k x ps rest

-- The events of blocks, numbered from `k`, before others: each starts, brings its pieces, and stops.
unfoldable pub block_events : ℕ → List Sent → List Envelope → List Envelope
block_events k [] rest = rest
block_events k (x ∷ xs) rest =
    start_of (pos k) (whole x)
    ∷ deltas (pos k) x (pieces x)
        (blank (codes "content_block_stop") (pos k) ∷ block_events (k + 1) xs rest)

-- The events of a message with its blocks in pieces: its input tokens come first, its output tokens and
-- stop reason last.
abbrev pub message_events : AnthropicResponse → List Sent → List Envelope
message_events a xs =
    record (blank (codes "message_start") (pos 0)) { message_usage = a.usage }
    ∷ block_events 0 xs (
        record (blank (codes "message_delta") (pos 0)) {
          stop_reason = a.stop_reason;
          usage = a.usage;
        }
        ∷ blank (codes "message_stop") (pos 0)
        ∷ [])

-- Payloads that decode to the events.
pub data Carries (decode : Bytes → Option Envelope) : List Bytes → List Envelope → Type 0 where
  carries_none : Carries decode [] []
  carries :
      (p : Bytes) (ps : List Bytes) (e : Envelope) (es : List Envelope)
      → decode p ≡ some e
      → has_prefix p (codes "[DONE]") ≡ false
      → Carries decode ps es
      → Carries decode (p ∷ ps) (e ∷ es)
