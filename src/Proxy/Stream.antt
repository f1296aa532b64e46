-- ===== src/Proxy/Stream.antt =====
-- internal/proxy/proxy.go, callStreaming, with the reader of server-sent events of
-- internal/providers/providers.go. The input is the lines that the scanner finds; whether the
-- connection breaks after them, and which writes the client still takes, are given. Decoding JSON is
-- the library's and a parameter.
pub mod Forward
pub mod Account
use llm_pico.Common.{
  Option, List, ℕ, none, Bool, if◌then◌else◌, some, [], ◌+◌, zero, ◌++◌, ◌∷◌, ◌==◌, true, false,
}
use llm_pico.Common.Bytes.{Bytes, codes, bytes_eq}
use llm_pico.Common.Signed.{pos, ℤ, ltb_ℤ, add64}
use llm_pico.Common.Text.{contains, trim_space}
use llm_pico.Proxy.Attempt.{CallUsage, State, Reservation, give_up_reservation, settle}
use llm_pico.RateLimit.Limiter.{is_zero}
use llm_pico.Router.Float.{Float}
use mathlib.Core.Option

-- The numbers of a usage object, as they are decoded; `details` is that of `prompt_tokens_details`.
pub record UsageFields : Type 0 where
  pub prompt : ℤ
  pub completion : ℤ
  pub total : ℤ
  pub cached : ℤ
  pub details : Option ℤ

-- The usage object of a chunk, if it decodes and has one; that of a body, if it decodes.
pub record UsageDecoder : Type 0 where
  pub of_chunk : Bytes → Option UsageFields
  pub of_body : Bytes → Option UsageFields

-- `providers.Usage` without its completion tokens, which only its total is read of, and `callUsage`
-- without the latency.
pub record Usage : Type 0 where
  pub prompt_tokens : ℤ
  pub total_tokens : ℤ
  pub cached_tokens : ℤ

abbrev pub greater_cached : ℤ → Option ℤ → ℤ
greater_cached cached none = cached
greater_cached cached (some d) = if ltb_ℤ cached d then d else cached

abbrev pub total_or_sum : UsageFields → ℤ
total_or_sum u = if is_zero u.total then add64 u.prompt u.completion else u.total

unfoldable pub usage_from : UsageFields → Usage
usage_from u = record {
  prompt_tokens = u.prompt;
  total_tokens = total_or_sum u;
  cached_tokens = greater_cached u.cached u.details;
}

-- `extractUsage`.
unfoldable pub extract_usage : UsageDecoder → Bytes → Option Usage
extract_usage d payload =
    if contains payload (codes "usage") then Option.map usage_from (d.of_chunk payload) else none

abbrev pub no_usage : Usage
no_usage = record { prompt_tokens = pos 0; total_tokens = pos 0; cached_tokens = pos 0 }

-- `bufferedUsage`.
unfoldable pub buffered_usage : UsageDecoder → Bytes → Usage
buffered_usage d body = elim (d.of_body body) [ none ↦ no_usage | some u ↦ usage_from u ]

-- A text without the prefix that it begins with.
unfoldable pub trim_prefix : Bytes → Bytes → Option Bytes
trim_prefix s [] = some s
trim_prefix [] (p ∷ ps) = none
trim_prefix (b ∷ bs) (p ∷ ps) = if b == p then trim_prefix bs ps else none

-- `parseSSELine`. An empty line and a comment do not begin with "data:".
unfoldable pub parse_sse_line : Bytes → Option Bytes
parse_sse_line line = Option.map trim_space (trim_prefix (trim_space line) (codes "data:"))

pub record Chunk : Type 0 where
  pub payload : Bytes
  pub usage : Option Usage
  pub is_done : Bool

-- What `Next` returns: a chunk, or an error of the connection. The end of the list is `io.EOF`.
pub data StreamEvent : Type 0 where
  arrives : Chunk → StreamEvent
  breaks : StreamEvent

abbrev pub done_mark : Bytes
done_mark = codes "[DONE]"

-- The chunks of `sseStream`; nothing is read after the mark.
unfoldable pub events_of : UsageDecoder → List Bytes → Bool → List StreamEvent
events_of d [] broken = if broken then StreamEvent.breaks ∷ [] else []
events_of d (l ∷ ls) broken =
    let rest = events_of d ls broken in
    elim (parse_sse_line l) [
      | none ↦ rest
      | some payload ↦
          if bytes_eq payload done_mark
          then StreamEvent.arrives (record { payload = []; usage = none; is_done = true }) ∷ []
          else StreamEvent.arrives
              (record { payload = payload; usage = extract_usage d payload; is_done = false })
            ∷ rest
    ]

abbrev pub frame : Bytes → Bytes
frame payload = codes "data: " ++ payload ++ codes "\n\n"

-- How the copy ends: by an error of the connection, or with the last usage seen; and the frames that
-- the client has taken.
pub data StreamEnd : Type 0 where
  stream_failed : List Bytes → StreamEnd
  stream_over : Option Usage → List Bytes → StreamEnd

abbrev pub newer : Option Usage → Option Usage → Option Usage
newer (some u) last = some u
newer none last = last

-- The loop of the copy, with the number of writes so far.
unfoldable pub copy_from : (ℕ → Bool) → ℕ → List StreamEvent → Option Usage → List Bytes → StreamEnd
copy_from takes k [] last out = StreamEnd.stream_over last out
copy_from takes k (StreamEvent.breaks ∷ es) last out = StreamEnd.stream_failed out
copy_from takes k (StreamEvent.arrives c ∷ es) last out =
    let last' = newer c.usage last in
    let skipped = copy_from takes k es last' out in
    let written = copy_from takes (k + 1) es last' (out ++ frame c.payload ∷ []) in
    if bytes_eq c.payload []
    then (if c.is_done
        then StreamEnd.stream_over last' (if takes k then out ++ frame done_mark ∷ [] else out)
        else skipped)
    else if takes k
    then written
    else StreamEnd.stream_over last' out

unfoldable pub copy_stream : UsageDecoder → (ℕ → Bool) → List Bytes → Bool → StreamEnd
copy_stream d takes lines broken = copy_from takes 0 (events_of d lines broken) none []

-- The usage that a stream is settled by: zeros when none was seen.
abbrev pub stream_usage : Option Usage → CallUsage
stream_usage none = record { total_tokens = pos 0; cached_tokens = pos 0 }
stream_usage (some u) = record { total_tokens = u.total_tokens; cached_tokens = u.cached_tokens }

module _ (fl : Float) where
  -- `streamFinalize`, which runs once, when the copy ends.
  unfoldable pub finalize_stream : State fl.F → Reservation → StreamEnd → ℕ → State fl.F
  finalize_stream s res (StreamEnd.stream_failed out) now = give_up_reservation fl s (some res) now
  finalize_stream s res (StreamEnd.stream_over last out) now =
      settle fl s res (stream_usage last) now
