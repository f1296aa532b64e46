-- ===== src/Providers/Gemini/Stream.antt =====
-- internal/providers/gemini.go, geminiStream: the chunks of a stream of generateContent. What the
-- reader below it yields is a list, at whose end it reports io.EOF.
pub mod Drained
pub mod Spoken
pub mod Agreement
use llm_pico.Common.{
  ℕ, Option, Bool, false, List, if◌then◌else◌, none, true, ◌∷◌, some, suc, ◌||◌, [], ◌&&◌, ◌+◌,
  zero, not, length,
}
use llm_pico.Common.Bytes.{Bytes, bytes_eq}
use llm_pico.Providers.Gemini.{FunctionCall}
use llm_pico.Providers.Gemini.Reply.{
  GeminiUsage, GeminiReply, answer_text, OpenCall, first_parts, openai_call, answer_calls,
  total_tokens_of, first_finish, upgraded, any_call,
}
use llm_pico.Proxy.Select.{is_positive}
use llm_pico.Proxy.Stream.{Usage}

-- One read of the stream below: a payload, its end sentinel, or an error.
pub data InnerRead : Type 0 where
  a_payload : Bytes → InnerRead
  inner_done : InnerRead
  inner_error : Bytes → InnerRead

-- `geminiStream`, without the model, which it only copies into chunks.
pub record GeminiStream : Type 0 where
  pub tool_index : ℕ
  pub saw_tool_calls : Bool
  pub finished : Bool

abbrev pub fresh_gemini : GeminiStream
fresh_gemini = record { tool_index = 0; saw_tool_calls = false; finished = false }

-- What a payload of a chunk carries: a text, left out when empty, calls with their indexes, and a
-- finish reason.
pub record GeminiDelta : Type 0 where
  pub text : Bytes
  pub calls : List (ℕ × OpenCall)
  pub finish : Option Bytes

pub data GeminiChunk : Type 0 where
  piece : Option GeminiDelta → Option Usage → GeminiChunk
  the_end : GeminiChunk

-- What `Next` returns: a chunk, io.EOF, or an error of the stream below.
pub data NextResult : Type 0 where
  a_chunk : GeminiChunk → NextResult
  at_eof : NextResult
  next_error : Bytes → NextResult

unfoldable pub stream_calls : (ℕ → Bytes) → ℕ → List FunctionCall → List (ℕ × OpenCall)
stream_calls fresh k [] = []
stream_calls fresh k (c ∷ cs) = (k, openai_call (fresh k) c) ∷ stream_calls fresh (k + 1) cs

-- `streamChunkPayload`.
unfoldable pub stream_chunk_payload :
    (ℕ → Bytes) → Bytes → Bytes → List FunctionCall → ℕ → Bool → Option GeminiDelta
stream_chunk_payload fresh text finish calls start had =
    if bytes_eq text [] && bytes_eq finish [] && not (any_call calls)
    then none
    else some (record {
      text = text;
      calls = stream_calls fresh start calls;
      finish = if bytes_eq finish [] then none else some (upgraded (any_call calls || had) finish);
    })

-- The usage of a chunk.
abbrev pub chunk_usage : GeminiUsage → Option Usage
chunk_usage u =
    if is_positive u.prompt_count
      || is_positive u.candidates_count
      || is_positive u.thoughts_count
      || is_positive u.total_count
    then some (record {
      prompt_tokens = u.prompt_count;
      total_tokens = total_tokens_of u;
      cached_tokens = u.cached_count;
    })
    else none

module _ (fresh : ℕ → Bytes) where
  -- The chunk for a text, a finish reason and calls with a usage, if there is one, and the stream
  -- after it.
  unfoldable pub relay_parts :
      GeminiStream
      → Option Usage
      → Bytes
      → Bytes
      → List FunctionCall
      → GeminiStream × Option GeminiChunk
  relay_parts s usage text finish calls =
      elim (stream_chunk_payload fresh text finish calls s.tool_index
        (s.saw_tool_calls || any_call calls)) [
          | none ↦ (s, elim usage [ none ↦ none | some u ↦ some (GeminiChunk.piece none (some u)) ])
          | some delta ↦ (
            if any_call calls
                then record s { saw_tool_calls = true; tool_index = s.tool_index + length calls }
                else s,
            some (GeminiChunk.piece (some delta) usage),
          )
        ]

  -- The same for a decoded payload, with `geminiChunkParts`.
  abbrev pub relay_reply : GeminiStream → GeminiReply → GeminiStream × Option GeminiChunk
  relay_reply s g =
      relay_parts s (chunk_usage g.usage) (answer_text (first_parts g.candidates))
        (first_finish g.candidates) (answer_calls (first_parts g.candidates))

  module _ (decode : Bytes → Option GeminiReply) where
    abbrev pub ended : GeminiStream → GeminiStream
    ended s = record s { finished = true }

    -- `Next`, on the reads that are left: what it returns, the stream and the reads left after it.
    unfoldable pub gemini_next :
        GeminiStream → List InnerRead → NextResult × GeminiStream × List InnerRead
    gemini_next s [] =
        if s.finished
        then (NextResult.at_eof, s, [])
        else (NextResult.a_chunk GeminiChunk.the_end, ended s, [])
    gemini_next s (InnerRead.inner_done ∷ rest) =
        if s.finished
        then (NextResult.at_eof, s, InnerRead.inner_done ∷ rest)
        else (NextResult.a_chunk GeminiChunk.the_end, ended s, rest)
    gemini_next s (InnerRead.inner_error e ∷ rest) =
        if s.finished
        then (NextResult.at_eof, s, InnerRead.inner_error e ∷ rest)
        else (NextResult.next_error e, s, rest)
    gemini_next s (InnerRead.a_payload raw ∷ rest) =
        if s.finished
        then (NextResult.at_eof, s, InnerRead.a_payload raw ∷ rest)
        else elim (decode raw) [
          | none ↦ gemini_next s rest
          | some g ↦ elim (relay_reply s g).1 [
            | none ↦ gemini_next (relay_reply s g).0 rest
            | some c ↦ (NextResult.a_chunk c, (relay_reply s g).0, rest)
          ]
        ]

    -- A caller that reads the stream to its end, by at most so many calls of `Next`: the chunks, and
    -- the error that ended it, if one did.
    unfoldable pub drain :
        ℕ → GeminiStream → List InnerRead → Option (List GeminiChunk × Option Bytes)
    drain zero s reads = none
    drain (suc fuel) s reads =
        let (result, t, rest) = gemini_next s reads in
        let more = drain fuel t rest in
        elim result [
          | NextResult.a_chunk c ↦ elim more [ none ↦ none | some (cs, e) ↦ some (c ∷ cs, e) ]
          | NextResult.at_eof ↦ some ([], none)
          | NextResult.next_error e ↦ some ([], some e)
        ]
