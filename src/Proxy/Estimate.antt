-- ===== src/Proxy/Estimate.antt =====
-- internal/proxy/estimate.go, and HasMediaInput of internal/providers/providers.go with splitDataURI
-- of internal/providers/anthropic.go: what is read off a request's body. Decoding JSON is the
-- library's and a parameter. Counts are of bytes of a body that is in memory, so that their sums stay
-- far below 2 ^ 63. A JSON text is valid UTF-8, where a rune starts at every byte outside 128 to 191.
pub mod Media
pub mod Text
use llm_pico.Common.{
  List, ℕ, some, none, Bool, ◌/◌, ◌∷◌, Option, if◌then◌else◌, ◌+◌, ltb, length, leb, true, ◌*◌,
  false, [], ◌&&◌, ◌==◌, ◌||◌, max,
}
use llm_pico.Common.Bytes.{Bytes, bytes_eq, codes}
use llm_pico.Common.Text.{lower_byte}

-- One part of a message's content.
pub record Part : Type 0 where
  pub kind : Bytes
  pub text : Bytes
  pub image_url : Bytes
  pub audio_data : Option Bytes

-- What `json.Unmarshal` gives for each of the types that a body, or a value in it, is decoded to. The
-- parts are decoded with their texts for the estimate and without them for the media.
pub record Json : Type 0 where
  pub object : Bytes → Option (Bytes → Option Bytes)
  pub array : Bytes → Option (List Bytes)
  pub string : Bytes → Option Bytes
  pub parts : Bytes → Option (List Part)
  pub media_parts : Bytes → Option (List Part)
  pub content : Bytes → Option Bytes
  pub url : Bytes → Option Bytes
  pub stream : Bytes → Option Bool

abbrev pub ascii_count : Bytes → ℕ
ascii_count [] = 0
ascii_count (b ∷ bs) = let rest = ascii_count bs in if ltb b 128 then rest + 1 else rest

abbrev pub wide_count : Bytes → ℕ
wide_count [] = 0
wide_count (b ∷ bs) = let rest = wide_count bs in if ltb b 192 then rest else rest + 1

-- `textTokens`.
unfoldable pub text_tokens : Bytes → ℕ
text_tokens s =
    let ascii = ascii_count s in
    let wide = wide_count s in
    let total = ascii / 4 + wide * 2 / 3 in
    if total == 0 && (ltb 0 ascii || ltb 0 wide) then 1 else total

-- `containsFold`: the needle is compared at every position that leaves room for it.
unfoldable pub matches_fold : Bytes → Bytes → Bool
matches_fold haystack [] = true
matches_fold [] (n ∷ ns) = false
matches_fold (h ∷ hs) (n ∷ ns) = lower_byte h == lower_byte n && matches_fold hs ns

unfoldable pub contains_fold : Bytes → Bytes → Bool
contains_fold [] needle = leb (length needle) 0
contains_fold (h ∷ hs) needle =
    let rest = contains_fold hs needle in
    leb (length needle) (length (h ∷ hs)) && (matches_fold (h ∷ hs) needle || rest)

unfoldable pub contains_video_media : Bytes → Bool
contains_video_media raw = ltb 0 (length raw) && contains_fold raw (codes "data:video/")

module _ (json : Json) where
  unfoldable pub value_tokens : Bytes → ℕ
  value_tokens raw = elim (json.string raw) [ some s ↦ text_tokens s | none ↦ length raw / 4 ]

  -- One part of a content of `size` bytes with `count` parts.
  unfoldable pub part_tokens : ℕ → ℕ → Part → ℕ
  part_tokens size count p =
      if bytes_eq p.kind (codes "text")
      then text_tokens p.text
      else if bytes_eq p.kind (codes "image_url") || bytes_eq p.kind (codes "input_image")
      then if contains_video_media p.image_url then 4000 else 1000
      else if bytes_eq p.kind (codes "input_audio")
      then elim p.audio_data [ none ↦ 0 | some sound ↦ length sound / 4000 + 1 ]
      else size / 4 / max 1 count

  unfoldable pub parts_tokens : ℕ → ℕ → List Part → ℕ
  parts_tokens size count [] = 0
  parts_tokens size count (p ∷ ps) = part_tokens size count p + parts_tokens size count ps

  unfoldable pub content_tokens : Bytes → ℕ
  content_tokens raw =
      if bytes_eq raw [] || bytes_eq raw (codes "null") then 0 else elim (json.string raw) [
        | some s ↦ text_tokens s
        | none ↦ elim (json.parts raw) [
          | none ↦ length raw / 4
          | some ps ↦ parts_tokens (length raw) (length ps) ps
        ]
      ]

  -- The tokens of a field that may be missing.
  abbrev pub field_tokens : (Bytes → ℕ) → Option Bytes → ℕ
  field_tokens count none = 0
  field_tokens count (some raw) = count raw

  unfoldable pub one_message : Bytes → ℕ
  one_message m = elim (json.object m) [
    | none ↦ 4 + length m / 4
    | some fields ↦
        4
        + field_tokens content_tokens (fields (codes "content"))
        + field_tokens value_tokens (fields (codes "tool_calls"))
  ]

  unfoldable pub messages_total : List Bytes → ℕ
  messages_total [] = 0
  messages_total (m ∷ ms) = one_message m + messages_total ms

  unfoldable pub message_tokens : Bytes → ℕ
  message_tokens raw = elim (json.array raw) [ none ↦ length raw / 4 | some ms ↦ messages_total ms ]

  unfoldable pub estimate_body_tokens : Bytes → ℕ
  estimate_body_tokens body = elim (json.object body) [
    | none ↦ length body / 4
    | some root ↦
        let total =
          field_tokens message_tokens (root (codes "messages"))
          + field_tokens value_tokens (root (codes "input"))
          + field_tokens (λ raw. length raw / 4) (root (codes "tools")) in
        if total == 0 then length body / 4 else total
  ]
