-- ===== src/Proxy/Stream/Forward.antt =====
-- internal/proxy/proxy.go, callStreaming: what the client of a stream is sent, when every write is
-- taken.
use llm_pico.Common.{
  List, ℕ, Option, ◌≡◌, ◌∷◌, Bool, some, ◌++◌, [], none, false, ap, refl, ◌∙◌, true, ◌+◌, sym,
}
use llm_pico.Common.Bytes.{Bytes, codes, bytes_eq}
use llm_pico.Common.Text.{trim_left, trim_right, trim_space}
use llm_pico.Proxy.Stream.{
  UsageDecoder, parse_sse_line, trim_prefix, Usage, StreamEnd, frame, newer, done_mark,
  extract_usage, events_of, copy_from, StreamEvent, copy_stream,
}
use mathlib.Core.List.{append-nil, append_assoc}
use mathlib.Core.Path.{ap₂}

-- A line that carries a payload.
abbrev pub data_line : Bytes → Bytes
data_line payload = codes "data: " ++ payload

-- No white space at either end.
abbrev pub IsTrimmed : Bytes → Type 0
IsTrimmed s = (trim_left s ≡ s) × (trim_right s ≡ s)

-- `Sends lines payloads marked`: a provider that sends the lines sends the payloads, with empty lines
-- and comments between them, and with the end mark (after which anything may follow) or without it.
pub data Sends : List Bytes → List Bytes → Bool → Type 0 where
  cut : Sends [] [] false
  mark : (rest : List Bytes) → Sends (data_line done_mark ∷ rest) [] true
  separator : (ls ps : List Bytes) (marked : Bool) → Sends ls ps marked → Sends ([] ∷ ls) ps marked
  comment :
      (text : Bytes) (ls ps : List Bytes) (marked : Bool)
      → Sends ls ps marked
      → Sends ((b':' ∷ text) ∷ ls) ps marked
  payload :
      (b : ℕ) (bs : Bytes) (ls ps : List Bytes) (marked : Bool)
      → IsTrimmed (b ∷ bs)
      → bytes_eq (b ∷ bs) done_mark ≡ false
      → Sends ls ps marked
      → Sends (data_line (b ∷ bs) ∷ ls) ((b ∷ bs) ∷ ps) marked

-- The usage of the last payload that has one, sought from the end.
unfoldable pub last_usage : UsageDecoder → List Bytes → Option Usage
last_usage d [] = none
last_usage d (p ∷ ps) = elim (last_usage d ps) [ some u ↦ some u | none ↦ extract_usage d p ]

-- What the loop holds in the end, when it starts with `last`.
held : Option Usage → Option Usage → Option Usage
held (some u) last = some u
held none last = last

unfoldable pub frames : List Bytes → List Bytes
frames [] = []
frames (p ∷ ps) = frame p ∷ frames ps

-- How the copy of a stream should end.
unfoldable pub relayed : Option Usage → List Bytes → Bool → Bool → StreamEnd
relayed last out true broken = StreamEnd.stream_over last (out ++ frame done_mark ∷ [])
relayed last out false true = StreamEnd.stream_failed out
relayed last out false false = StreamEnd.stream_over last out

trim_right-cons :
    (b : ℕ) (c : ℕ) (s cs : Bytes) → trim_right s ≡ c ∷ cs → trim_right (b ∷ s) ≡ b ∷ c ∷ cs
unfolding trim_right
trim_right-cons b c s cs h = rw h

trim_right-data_line :
    (b : ℕ) (bs : Bytes)
    → trim_right (b ∷ bs) ≡ b ∷ bs
    → trim_right (data_line (b ∷ bs)) ≡ data_line (b ∷ bs)
trim_right-data_line b bs h = trim_right-cons _ _ _ _ (
    trim_right-cons _ _ _ _ (
      trim_right-cons _ _ _ _
        (trim_right-cons _ _ _ _ (trim_right-cons _ _ _ _ (trim_right-cons _ _ _ _ h)))))

-- The payload of a line is read as it was put there.
pub parse_sse_line-data_line :
    (b : ℕ) (bs : Bytes) → IsTrimmed (b ∷ bs) → parse_sse_line (data_line (b ∷ bs)) ≡ some (b ∷ bs)
unfolding parse_sse_line trim_space trim_left trim_prefix
parse_sse_line-data_line b bs (l, r) =
    rw (trim_right-data_line b bs r) (ap some (ap trim_right l ∙ r))

parse_sse_line-comment : (text : Bytes) → parse_sse_line (b':' ∷ text) ≡ none
unfolding parse_sse_line trim_space trim_left trim_prefix trim_right
parse_sse_line-comment text = cases (trim_right text) refl
  where
    cases : (t : Bytes) → trim_right text ≡ t → parse_sse_line (b':' ∷ text) ≡ none
    cases [] h = rw h refl
    cases (c ∷ cs) h = rw h refl

events_of-skip :
    (d : UsageDecoder) (l : Bytes) (ls : List Bytes) (broken : Bool)
    → parse_sse_line l ≡ none
    → events_of d (l ∷ ls) broken ≡ events_of d ls broken
unfolding events_of
events_of-skip d l ls broken h = rw (events_of, h) refl

events_of-mark :
    (d : UsageDecoder) (l : Bytes) (ls : List Bytes) (broken : Bool)
    → parse_sse_line l ≡ some done_mark
    → events_of d (l ∷ ls) broken
      ≡ StreamEvent.arrives (record { payload = []; usage = none; is_done = true }) ∷ []
unfolding events_of bytes_eq
events_of-mark d l ls broken h = rw (events_of, h) refl

events_of-payload :
    (d : UsageDecoder) (l p : Bytes) (ls : List Bytes) (broken : Bool)
    → parse_sse_line l ≡ some p
    → bytes_eq p done_mark ≡ false
    → events_of d (l ∷ ls) broken
      ≡ StreamEvent.arrives (record { payload = p; usage = extract_usage d p; is_done = false })
        ∷ events_of d ls broken
unfolding events_of
events_of-payload d l p ls broken h other = rw (events_of, h) (rw other refl)

parse_sse_line-separator : parse_sse_line [] ≡ none
unfolding parse_sse_line trim_space trim_left trim_prefix trim_right
parse_sse_line-separator = refl

parse_sse_line-mark : parse_sse_line (data_line done_mark) ≡ some done_mark
unfolding parse_sse_line trim_space trim_left trim_prefix trim_right
parse_sse_line-mark = refl

held-last_usage :
    (d : UsageDecoder) (p : Bytes) (ps : List Bytes) (last : Option Usage)
    → held (last_usage d (p ∷ ps)) last ≡ held (last_usage d ps) (newer (extract_usage d p) last)
unfolding last_usage held
held-last_usage d p ps last = cases (last_usage d ps) (extract_usage d p)
  where
    cases :
        (o e : Option Usage)
        → held (elim o [ some u ↦ some u | none ↦ e ]) last ≡ held o (newer e last)
    cases (some u) e = refl
    cases none (some u) = refl
    cases none none = refl

held-none : (o : Option Usage) → held o none ≡ o
unfolding held
held-none (some u) = refl
held-none none = refl

copy_from-relays :
    (d : UsageDecoder) (k : ℕ) (lines ps : List Bytes) (marked broken : Bool) (last : Option Usage)
    (out : List Bytes)
    → Sends lines ps marked
    → copy_from (λ _. true) k (events_of d lines broken) last out
      ≡ relayed (held (last_usage d ps) last) (out ++ frames ps) marked broken
unfolding events_of copy_from last_usage held frames relayed bytes_eq
copy_from-relays d k lines ps marked true last out Sends.cut =
    ap StreamEnd.stream_failed (sym (append-nil out))
copy_from-relays d k lines ps marked false last out Sends.cut =
    ap (StreamEnd.stream_over last) (sym (append-nil out))
copy_from-relays d k lines ps marked broken last out (Sends.mark rest) =
    rw (events_of-mark d (data_line done_mark) rest broken parse_sse_line-mark)
      (ap (λ o. StreamEnd.stream_over last (o ++ frame done_mark ∷ [])) (sym (append-nil out)))
copy_from-relays d k lines ps marked broken last out (Sends.separator ls ps' m sends) =
    rw (events_of-skip d [] ls broken parse_sse_line-separator)
      (copy_from-relays d k ls ps' m broken last out sends)
copy_from-relays d k lines ps marked broken last out (Sends.comment text ls ps' m sends) =
    rw (events_of-skip d (b':' ∷ text) ls broken (parse_sse_line-comment text))
      (copy_from-relays d k ls ps' m broken last out sends)
copy_from-relays d k lines ps marked broken last out
      (Sends.payload b bs ls ps' m trimmed other sends) =
    rw
      (events_of-payload d (data_line (b ∷ bs)) (b ∷ bs) ls broken
        (parse_sse_line-data_line b bs trimmed) other)
      (copy_from-relays d (k + 1) ls ps' m broken (newer (extract_usage d (b ∷ bs)) last)
          (out ++ frame (b ∷ bs) ∷ []) sends
        ∙ ap₂ (λ u o. relayed u o m broken) (sym (held-last_usage d (b ∷ bs) ps' last))
            (append_assoc out (frame (b ∷ bs) ∷ []) (frames ps')))

-- When every write to the client is taken, the client of a stream gets one frame for each payload
-- that the provider sends before its end mark, in their order and unchanged, and then the frame of
-- the mark if there was one. The copy fails exactly when the connection breaks before the mark, and
-- else it ends with the usage of the last payload that reports one.
pub copy_stream-relays :
    (d : UsageDecoder) (lines ps : List Bytes) (marked broken : Bool)
    → Sends lines ps marked
    → copy_stream d (λ _. true) lines broken ≡ relayed (last_usage d ps) (frames ps) marked broken
unfolding copy_stream
copy_stream-relays d lines ps marked broken sends =
    copy_from-relays d 0 lines ps marked broken none [] sends
    ∙ ap (λ o. relayed o (frames ps) marked broken) (held-none (last_usage d ps))
