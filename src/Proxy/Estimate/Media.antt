-- ===== src/Proxy/Estimate/Media.antt =====
-- internal/providers/providers.go, HasMediaInput and mediaURL, with splitDataURI of
-- internal/providers/anthropic.go: the media that a chat request carries.
-- What stands before the first `stop` of a text and after it, if there is one.
use llm_pico.Common.{
  false, ℕ, Bool, none, List, ◌∷◌, Option, if◌then◌else◌, some, [], ◌==◌, ◌||◌, true,
}
use llm_pico.Common.Bytes.{Bytes, codes, bytes_eq}
use llm_pico.Common.Text.{has_prefix, lower}
use llm_pico.Proxy.Estimate.{Json, Part}
use llm_pico.Proxy.Stream.{trim_prefix}

unfoldable pub split_at_byte : ℕ → Bytes → Option (Bytes × Bytes)
split_at_byte stop [] = none
split_at_byte stop (b ∷ bs) =
    let rest = split_at_byte stop bs in
    if b == stop
    then some ([], bs)
    else elim rest [ none ↦ none | some (before, after) ↦ some (b ∷ before, after) ]

-- A text without the suffix that it ends in.
unfoldable pub without_suffix : Bytes → Bytes → Option Bytes
without_suffix suffix [] = if bytes_eq [] suffix then some [] else none
without_suffix suffix (b ∷ bs) =
    let rest = without_suffix suffix bs in
    if bytes_eq (b ∷ bs) suffix
    then some []
    else elim rest [ none ↦ none | some before ↦ some (b ∷ before) ]

-- `splitDataURI`.
unfoldable pub split_data_uri : Bytes → Option (Bytes × Bytes)
split_data_uri uri = elim (trim_prefix uri (codes "data:")) [
  | none ↦ none
  | some rest ↦ elim (split_at_byte b',' rest) [
    | none ↦ none
    | some (meta, payload) ↦ elim (without_suffix (codes ";base64") meta) [
      | none ↦ none
      | some [] ↦ none
      | some (m ∷ media) ↦ some (m ∷ media, payload)
    ]
  ]
]

pub record MediaKinds : Type 0 where
  pub image : Bool
  pub audio : Bool
  pub video : Bool

abbrev pub no_media : MediaKinds
no_media = record { image = false; audio = false; video = false }

module _ (json : Json) where
  -- `mediaURL`.
  unfoldable pub media_url : Bytes → Bytes
  media_url [] = []
  media_url (b ∷ raw) = elim (json.string (b ∷ raw)) [
    | some s ↦ s
    | none ↦ elim (json.url (b ∷ raw)) [ some u ↦ u | none ↦ [] ]
  ]

  -- Whether the URL of an image part is that of a video.
  unfoldable pub is_video : Bytes → Bool
  is_video raw = elim (split_data_uri (media_url raw)) [
    | none ↦ false
    | some (media, payload) ↦ has_prefix (lower media) (codes "video/")
  ]

  unfoldable pub add_part : Part → MediaKinds → MediaKinds
  add_part p seen =
      if bytes_eq p.kind (codes "image_url") || bytes_eq p.kind (codes "input_image")
      then if is_video p.image_url
        then record seen { video = true }
        else record seen { image = true }
      else if bytes_eq p.kind (codes "input_audio")
      then elim p.audio_data [
        | none ↦ seen
        | some [] ↦ seen
        | some (b ∷ bs) ↦ record seen { audio = true }
      ]
      else seen

  unfoldable pub add_parts : List Part → MediaKinds → MediaKinds
  add_parts [] seen = seen
  add_parts (p ∷ ps) seen = add_parts ps (add_part p seen)

  abbrev pub add_content : Option Bytes → MediaKinds → MediaKinds
  add_content none seen = seen
  add_content (some raw) seen = elim (json.media_parts raw) [
    | none ↦ seen
    | some ps ↦ add_parts ps seen
  ]

  unfoldable pub add_messages : List Bytes → MediaKinds → MediaKinds
  add_messages [] seen = seen
  add_messages (m ∷ ms) seen = add_messages ms (add_content (json.content m) seen)

  -- `HasMediaInput`.
  unfoldable pub has_media_input : Bytes → MediaKinds
  has_media_input body = elim (json.object body) [
    | none ↦ no_media
    | some fields ↦ elim (fields (codes "messages")) [
      | none ↦ no_media
      | some raw ↦ elim (json.array raw) [ none ↦ no_media | some ms ↦ add_messages ms no_media ]
    ]
  ]

  -- `wantsStream`.
  unfoldable pub wants_stream : Bytes → Bool
  wants_stream body = elim (json.stream body) [ none ↦ false | some b ↦ b ]
