-- ===== src/Providers/Anthropic/Agreement.antt =====
-- internal/providers/anthropic.go: a message that is streamed, against the same message in one piece.
-- What a client of the chunks puts together: the text, and the end.
use llm_pico.Common.{
  Option, List, [], some, if◌then◌else◌, ℕ, none, ◌≡◌, ◌||◌, ◌∷◌, false, ◌+◌, ltb, ap, length, refl,
  ◌∙◌, arith, sym, Bool, ◌&&◌, true, map, get_elem?,
}
use llm_pico.Common.Bytes.{Bytes, codes, bytes_eq}
use llm_pico.Common.Signed.{pos, eq_ℤ, ℤ}
use llm_pico.Providers.Anthropic.{
  StreamState, take_event, Emitted, Envelope, message_delta, final_chunk, prompt_total, translate,
  fresh_stream, message_start,
}
use llm_pico.Providers.Anthropic.Chunked.{
  chunks_of, blocks_chunks, blocks_state, stopped, delta_chunks, block_chunks, translate-chunks_of,
  chunks_of-blocks,
}
use llm_pico.Providers.Anthropic.Message.{
  AnthropicResponse, tool_calls_of, content_text, Block, to_openai,
}
use llm_pico.Providers.Anthropic.Spoken.{
  text_where, text_of, text_at, text_in, picked, picked-all, picked-one, text_where-blocks_chunks,
}
use llm_pico.Providers.Anthropic.Streamed.{blank, Carries, message_events, Sent, whole}
use llm_pico.Proxy.Select.{is_positive}
use llm_pico.Proxy.Stream.{Usage}

unfoldable pub finals : List Emitted → List (Option Usage × Option Bytes)
finals [] = []
finals (Emitted.final u r ∷ cs) = (u, r) ∷ finals cs
finals (Emitted.opening ∷ cs) = finals cs
finals (Emitted.text_delta i t ∷ cs) = finals cs
finals (Emitted.tool_delta i id name args ∷ cs) = finals cs
finals (Emitted.done ∷ cs) = finals cs

finals-delta_chunks :
    (i k : ℕ) (x : Sent) (ps : List Bytes) (rest : List Emitted)
    → finals (delta_chunks i k x ps rest) ≡ finals rest
unfolding delta_chunks finals
finals-delta_chunks i k x [] rest = refl
finals-delta_chunks i k (Sent.sent_text qs) ([] ∷ ps) rest =
    finals-delta_chunks i k (Sent.sent_text qs) ps rest
finals-delta_chunks i k (Sent.sent_text qs) ((c ∷ cs) ∷ ps) rest =
    finals-delta_chunks i k (Sent.sent_text qs) ps rest
finals-delta_chunks i k (Sent.sent_call id name qs) (p ∷ ps) rest =
    finals-delta_chunks i k (Sent.sent_call id name qs) ps rest
finals-delta_chunks i k (Sent.sent_other qs) (p ∷ ps) rest =
    finals-delta_chunks i k (Sent.sent_other qs) ps rest

finals-block_chunks :
    (s : StreamState) (k : ℕ) (x : Sent) (rest : List Emitted)
    → finals (block_chunks s k x rest) ≡ finals rest
unfolding finals
finals-block_chunks s k (Sent.sent_text ps) rest =
    finals-delta_chunks s.tool_calls k (Sent.sent_text ps) ps rest
finals-block_chunks s k (Sent.sent_call id name ps) rest =
    finals-delta_chunks s.tool_calls k (Sent.sent_call id name ps) ps rest
finals-block_chunks s k (Sent.sent_other ps) rest =
    finals-delta_chunks s.tool_calls k (Sent.sent_other ps) ps rest

finals-blocks_chunks :
    (s : StreamState) (k : ℕ) (xs : List Sent) (rest : List Emitted)
    → finals (blocks_chunks s k xs rest) ≡ finals rest
unfolding blocks_chunks
finals-blocks_chunks s k [] rest = refl
finals-blocks_chunks s k (x ∷ xs) rest =
    finals-block_chunks s k x (blocks_chunks (stopped s k (whole x)) (k + 1) xs rest)
    ∙ finals-blocks_chunks (stopped s k (whole x)) (k + 1) xs rest

-- What blocks leave of the state: the tokens as they were, and whether a tool was called.
blocks_state-keeps :
    (s : StreamState) (k : ℕ) (bs : List Block)
    → ((blocks_state s k bs).prompt_tokens ≡ s.prompt_tokens)
      × ((blocks_state s k bs).cached_tokens ≡ s.cached_tokens)
      × ((blocks_state s k bs).saw_tool_calls
          ≡ s.saw_tool_calls || ltb 0 (length (tool_calls_of bs)))
unfolding blocks_state tool_calls_of
blocks_state-keeps s k [] = ground arith
blocks_state-keeps s k (Block.text_block t ∷ bs) =
    blocks_state-keeps (stopped s k (Block.text_block t)) (k + 1) bs
blocks_state-keeps s k (Block.tool_block id name input ∷ bs) =
    ground (arith, blocks_state-keeps (stopped s k (Block.tool_block id name input)) (k + 1) bs)
blocks_state-keeps s k (Block.other_block ∷ bs) =
    blocks_state-keeps (stopped s k Block.other_block) (k + 1) bs

-- The usage of a completion as a chunk reports it.
abbrev pub reported : AnthropicResponse → Option Usage
reported a =
    if is_positive (to_openai a).prompt_tokens || is_positive (to_openai a).completion_tokens
    then some (record {
      prompt_tokens = (to_openai a).prompt_tokens;
      total_tokens = (to_openai a).total_tokens;
      cached_tokens = a.usage.cache_read_input_tokens;
    })
    else none

abbrev pub or_empty : Option Bytes → Bytes
or_empty none = []
or_empty (some t) = t

abbrev last_events : AnthropicResponse → List Envelope
last_events a =
    record (blank (codes "message_delta") (pos 0)) { stop_reason = a.stop_reason; usage = a.usage }
    ∷ blank (codes "message_stop") (pos 0)
    ∷ []

finals-last_events :
    (s : StreamState) (a : AnthropicResponse)
    → s.prompt_tokens ≡ prompt_total a.usage
    → s.cached_tokens ≡ a.usage.cache_read_input_tokens
    → s.saw_tool_calls ≡ ltb 0 (length (tool_calls_of a.blocks))
    → bytes_eq a.stop_reason [] ≡ false
    → finals (chunks_of s (last_events a)) ≡ (reported a, some (to_openai a).finish) ∷ []
unfolding finals chunks_of take_event message_delta final_chunk to_openai bytes_eq
finals-last_events s a prompt cached saw reason = rw (prompt, cached, saw, reason) (rw reason refl)

text_where-last_events :
    (p : ℤ → Bool) (s : StreamState) (a : AnthropicResponse)
    → text_where p (chunks_of s (last_events a)) ≡ []
unfolding text_where chunks_of take_event message_delta final_chunk bytes_eq
text_where-last_events p s a = refl

or_empty-content :
    (called : Bool) (text : Bytes)
    → or_empty (if called && bytes_eq text [] then none else some text) ≡ text
unfolding bytes_eq
or_empty-content false text = refl
or_empty-content true [] = refl
or_empty-content true (c ∷ cs) = refl

abbrev started : AnthropicResponse → StreamState
started a = record fresh_stream {
  event_type = codes "message_start";
  prompt_tokens = prompt_total a.usage;
  cached_tokens = a.usage.cache_read_input_tokens;
}

-- The chunks of a message's blocks and of its end.
abbrev body_chunks : AnthropicResponse → List Sent → List Emitted
body_chunks a xs =
    blocks_chunks (started a) 0 xs
      (chunks_of (blocks_state (started a) 0 (map whole xs)) (last_events a))

translate-message :
    (decode : Bytes → Option Envelope) (ps : List Bytes) (a : AnthropicResponse) (xs : List Sent)
    → Carries decode ps (message_events a xs)
    → translate decode fresh_stream ps ≡ Emitted.opening ∷ body_chunks a xs
unfolding chunks_of take_event message_start bytes_eq
translate-message decode ps a xs sent =
    translate-chunks_of decode fresh_stream ps (message_events a xs) sent
    ∙ ap (λ (cs : List Emitted). Emitted.opening ∷ cs)
        (chunks_of-blocks (started a) 0 xs (last_events a))

text_where-message :
    (p : ℤ → Bool) (decode : Bytes → Option Envelope) (ps : List Bytes) (a : AnthropicResponse)
    (xs : List Sent)
    → Carries decode ps (message_events a xs)
    → map whole xs ≡ a.blocks
    → text_where p (translate decode fresh_stream ps) ≡ picked p 0 a.blocks
unfolding text_where
text_where-message p decode ps a xs sent same =
    ap (text_where p) (translate-message decode ps a xs sent)
    ∙ text_where-blocks_chunks p (started a) 0 xs
        (chunks_of (blocks_state (started a) 0 (map whole xs)) (last_events a))
        (text_where-last_events p (blocks_state (started a) 0 (map whole xs)) a)
    ∙ ap (picked p 0) same

-- The chunks of a message with a stop reason that is streamed in full, each of its blocks in any
-- number of deltas, come to what the same message comes to in one piece: the texts of all choices,
-- joined, are its text, and there is one final chunk, with the same finish reason and the same
-- numbers of tokens. Of the choice `n` alone the text is that of the block `n` and of no other.
pub translate-agrees :
    (decode : Bytes → Option Envelope) (ps : List Bytes) (a : AnthropicResponse) (xs : List Sent)
    (n : ℕ)
    → Carries decode ps (message_events a xs)
    → map whole xs ≡ a.blocks
    → bytes_eq a.stop_reason [] ≡ false
    → (text_of (translate decode fresh_stream ps) ≡ or_empty (to_openai a).content)
      × (finals (translate decode fresh_stream ps) ≡ (reported a, some (to_openai a).finish) ∷ [])
      × (text_at n (translate decode fresh_stream ps) ≡ text_in (get_elem? a.blocks n))
unfolding finals to_openai
translate-agrees decode ps a xs n sent same reason =
    let s = blocks_state (started a) 0 (map whole xs) in
    let (prompt, cached, saw) = blocks_state-keeps (started a) 0 (map whole xs) in
    let position : n ≡ n + 0 = omega arith in
    (
      text_where-message (λ i. true) decode ps a xs sent same
          ∙ picked-all 0 a.blocks
          ∙ sym
              (or_empty-content (ltb 0 (length (tool_calls_of a.blocks))) (content_text a.blocks)),
      ap finals (translate-message decode ps a xs sent)
          ∙ finals-blocks_chunks (started a) 0 xs (chunks_of s (last_events a))
          ∙ finals-last_events s a prompt cached
              (saw ∙ ap (λ bs. ltb 0 (length (tool_calls_of bs))) same) reason,
      text_where-message (λ i. eq_ℤ i (pos n)) decode ps a xs sent same
          ∙ ap (λ m. picked (λ i. eq_ℤ i (pos m)) 0 a.blocks) position
          ∙ picked-one n 0 a.blocks,
    )
