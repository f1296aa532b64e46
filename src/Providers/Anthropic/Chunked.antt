-- ===== src/Providers/Anthropic/Chunked.antt =====
-- internal/providers/anthropic.go: the chunks that the events of a streamed message come to.
use llm_pico.Common.{
  ℕ, Option, List, ◌∷◌, ◌≡◌, [], true, some, ◌+◌, none, if◌then◌else◌, refl, arith, false, ap, ◌∙◌,
  map,
}
use llm_pico.Common.Bytes.{Bytes, codes, bytes_eq}
use llm_pico.Common.Signed.{ℤ, pos}
use llm_pico.Providers.Anthropic.{
  translate, take_event, StreamState, Envelope, block_start, block_delta, Emitted, set_index,
  ends_stream,
}
use llm_pico.Providers.Anthropic.Message.{Block}
use llm_pico.Providers.Anthropic.Streamed.{
  Sent, pieces, whole, start_of, delta_of, deltas, block_events, blank, Carries,
}

-- The chunks of events.
unfoldable pub chunks_of : StreamState → List Envelope → List Emitted
chunks_of s [] = []
chunks_of s (e ∷ es) =
    let rest = chunks_of (take_event s e).0 es in
    elim (take_event s e).1 [ none ↦ rest | some c ↦ if ends_stream c then c ∷ [] else c ∷ rest ]

pub translate-chunks_of :
    (decode : Bytes → Option Envelope) (s : StreamState) (ps : List Bytes) (es : List Envelope)
    → Carries decode ps es
    → translate decode s ps ≡ chunks_of s es
unfolding translate chunks_of
translate-chunks_of decode s ps es Carries.carries_none = refl
translate-chunks_of decode s ps es (Carries.carries p ps' e es' h other rest) =
    rw (translate, other)
      (rw h (
        ap
          (λ (after : List Emitted). elim (take_event s e).1 [
            | none ↦ after
            | some c ↦ if ends_stream c then c ∷ [] else c ∷ after
          ])
          (translate-chunks_of decode (take_event s e).0 ps' es' rest)))

abbrev pub stopped : StreamState → ℕ → Block → StreamState
stopped s k (Block.text_block t) = record s { event_type = codes "content_block_stop" }
stopped s k (Block.tool_block id name input) = record s {
  event_type = codes "content_block_stop";
  tool_index_by_block = set_index s.tool_index_by_block (pos k) s.tool_calls;
  tool_calls = s.tool_calls + 1;
  saw_tool_calls = true;
}
stopped s k Block.other_block = record s { event_type = codes "content_block_stop" }

-- The chunk of a delta in the block `k`, whose call has the index `i`, before others.
abbrev pub delta_chunk : ℕ → ℕ → Sent → Bytes → List Emitted → List Emitted
delta_chunk i k (Sent.sent_text ps) [] rest = rest
delta_chunk i k (Sent.sent_text ps) (c ∷ cs) rest = Emitted.text_delta (pos k) (c ∷ cs) ∷ rest
delta_chunk i k (Sent.sent_call id name ps) p rest = Emitted.tool_delta i [] [] p ∷ rest
delta_chunk i k (Sent.sent_other ps) p rest = rest

unfoldable pub delta_chunks : ℕ → ℕ → Sent → List Bytes → List Emitted → List Emitted
delta_chunks i k x [] rest = rest
delta_chunks i k x (p ∷ ps) rest = delta_chunk i k x p (delta_chunks i k x ps rest)

abbrev pub block_chunks : StreamState → ℕ → Sent → List Emitted → List Emitted
block_chunks s k (Sent.sent_text ps) rest = delta_chunks s.tool_calls k (Sent.sent_text ps) ps rest
block_chunks s k (Sent.sent_call id name ps) rest =
    Emitted.tool_delta s.tool_calls id name []
    ∷ delta_chunks s.tool_calls k (Sent.sent_call id name ps) ps rest
block_chunks s k (Sent.sent_other ps) rest =
    delta_chunks s.tool_calls k (Sent.sent_other ps) ps rest

set_index-same : (indexes : ℤ → Option ℕ) (k n : ℕ) → set_index indexes (pos k) n (pos k) ≡ some n
set_index-same indexes k n = ground arith

-- The state within a block, after its delta.
abbrev within_block : StreamState → StreamState
within_block s = record s { event_type = codes "content_block_delta" }

abbrev opened : StreamState → ℕ → StreamState
opened s k = record s {
  event_type = codes "content_block_start";
  tool_index_by_block = set_index s.tool_index_by_block (pos k) s.tool_calls;
  tool_calls = s.tool_calls + 1;
  saw_tool_calls = true;
}

-- The call of a block, if it is one, has the index `i`.
abbrev IsOpened : StreamState → ℕ → ℕ → Sent → Type 0
IsOpened s k i (Sent.sent_call id name ps) = s.tool_index_by_block (pos k) ≡ some i
IsOpened s k i (Sent.sent_text ps) = Unit {0}
IsOpened s k i (Sent.sent_other ps) = Unit {0}

tool_delta-taken :
    (s : StreamState) (k i : ℕ) (id name p : Bytes) (ps : List Bytes)
    → s.tool_index_by_block (pos k) ≡ some i
    → take_event s (delta_of (pos k) (Sent.sent_call id name ps) p)
      ≡ (within_block s, some (Emitted.tool_delta i [] [] p))
unfolding take_event block_delta bytes_eq
tool_delta-taken s k i id name p ps h =
    ap
      (λ (o : Option ℕ). elim o as (λ x. StreamState × Option Emitted) [
        | none ↦ (within_block s, none)
        | some index ↦ (within_block s, some (Emitted.tool_delta index [] [] p))
      ])
      h

chunks_of-emits :
    (s s' : StreamState) (e : Envelope) (es : List Envelope) (c : Emitted)
    → take_event s e ≡ (s', some c)
    → ends_stream c ≡ false
    → chunks_of s (e ∷ es) ≡ c ∷ chunks_of s' es
unfolding chunks_of
chunks_of-emits s s' e es c h goes_on =
    ap
      (λ (t : StreamState × Option Emitted). elim t.1 as (λ x. List Emitted) [
        | none ↦ chunks_of t.0 es
        | some d ↦ if ends_stream d then d ∷ [] else d ∷ chunks_of t.0 es
      ])
      h
    ∙ rw goes_on refl

abbrev closed : StreamState → StreamState
closed s = record s { event_type = codes "content_block_stop" }

chunks_of-delta :
    (s : StreamState) (k i : ℕ) (x : Sent) (p : Bytes) (es : List Envelope)
    → IsOpened s k i x
    → chunks_of s (delta_of (pos k) x p ∷ es) ≡ delta_chunk i k x p (chunks_of (within_block s) es)
unfolding chunks_of take_event block_delta bytes_eq
chunks_of-delta s k i (Sent.sent_text ps) [] es h = refl
chunks_of-delta s k i (Sent.sent_text ps) (c ∷ cs) es h = refl
chunks_of-delta s k i (Sent.sent_call id name ps) p es h =
    chunks_of-emits s (within_block s) (delta_of (pos k) (Sent.sent_call id name ps) p) es
      (Emitted.tool_delta i [] [] p) (tool_delta-taken s k i id name p ps h) refl
chunks_of-delta s k i (Sent.sent_other ps) p es h = refl

within-IsOpened :
    (s : StreamState) (k i : ℕ) (x : Sent) → IsOpened s k i x → IsOpened (within_block s) k i x
within-IsOpened s k i (Sent.sent_text ps) h = tt
within-IsOpened s k i (Sent.sent_call id name ps) h = h
within-IsOpened s k i (Sent.sent_other ps) h = tt

chunks_of-deltas :
    (s : StreamState) (k i : ℕ) (x : Sent) (ps : List Bytes) (rest : List Envelope)
    → IsOpened s k i x
    → chunks_of s (deltas (pos k) x ps (blank (codes "content_block_stop") (pos k) ∷ rest))
      ≡ delta_chunks i k x ps (chunks_of (closed s) rest)
unfolding chunks_of deltas delta_chunks take_event bytes_eq
chunks_of-deltas s k i x [] rest h = refl
chunks_of-deltas s k i x (p ∷ ps) rest h =
    chunks_of-delta s k i x p
      (deltas (pos k) x ps (blank (codes "content_block_stop") (pos k) ∷ rest)) h
    ∙ ap (delta_chunk i k x p)
        (chunks_of-deltas (within_block s) k i x ps rest (within-IsOpened s k i x h))

chunks_of-block :
    (s : StreamState) (k : ℕ) (x : Sent) (rest : List Envelope)
    → chunks_of s (
        start_of (pos k) (whole x)
        ∷ deltas (pos k) x (pieces x) (blank (codes "content_block_stop") (pos k) ∷ rest))
      ≡ block_chunks s k x (chunks_of (stopped s k (whole x)) rest)
unfolding chunks_of take_event block_start bytes_eq
chunks_of-block s k (Sent.sent_text ps) rest =
    chunks_of-deltas (record s { event_type = codes "content_block_start" }) k s.tool_calls
      (Sent.sent_text ps) ps rest tt
chunks_of-block s k (Sent.sent_call id name ps) rest =
    ap (λ (cs : List Emitted). Emitted.tool_delta s.tool_calls id name [] ∷ cs)
      (chunks_of-deltas (opened s k) k s.tool_calls (Sent.sent_call id name ps) ps rest
        (set_index-same s.tool_index_by_block k s.tool_calls))
chunks_of-block s k (Sent.sent_other ps) rest =
    chunks_of-deltas (record s { event_type = codes "content_block_start" }) k s.tool_calls
      (Sent.sent_other ps) ps rest tt

-- The chunks of a message's blocks, numbered from `k`, and the state after them.
unfoldable pub blocks_chunks : StreamState → ℕ → List Sent → List Emitted → List Emitted
blocks_chunks s k [] rest = rest
blocks_chunks s k (x ∷ xs) rest =
    block_chunks s k x (blocks_chunks (stopped s k (whole x)) (k + 1) xs rest)

unfoldable pub blocks_state : StreamState → ℕ → List Block → StreamState
blocks_state s k [] = s
blocks_state s k (b ∷ bs) = blocks_state (stopped s k b) (k + 1) bs

pub chunks_of-blocks :
    (s : StreamState) (k : ℕ) (xs : List Sent) (rest : List Envelope)
    → chunks_of s (block_events k xs rest)
      ≡ blocks_chunks s k xs (chunks_of (blocks_state s k (map whole xs)) rest)
unfolding block_events blocks_chunks blocks_state
chunks_of-blocks s k [] rest = refl
chunks_of-blocks s k (x ∷ xs) rest =
    chunks_of-block s k x (block_events (k + 1) xs rest)
    ∙ ap (block_chunks s k x) (chunks_of-blocks (stopped s k (whole x)) (k + 1) xs rest)
