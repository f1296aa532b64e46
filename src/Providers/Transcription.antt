-- ===== src/Providers/Transcription.antt =====
-- internal/providers/openai.go, Transcribe: the fields of the form that it uploads, beside the file.
use llm_pico.Common.{List, none, ◌∷◌, [], some, if◌then◌else◌}
use llm_pico.Common.Bytes.{Bytes, codes, bytes_eq}
use llm_pico.Providers.Chat.{strip_provider_prefix}
use llm_pico.Providers.Fields.{FieldsJson, UpstreamRequest, RawFields, fields_of, text_field}

-- The fields of a body, of which there are none when it does not decode.
abbrev pub peeked : FieldsJson → Bytes → RawFields
peeked json body = elim (json.decode body) [ none ↦ λ name. none | some d ↦ fields_of d ]

-- The model: that of the route, or else that of the body.
unfoldable pub transcribed_model : FieldsJson → UpstreamRequest → Bytes
transcribed_model json r =
    let routed = strip_provider_prefix r.model in
    let asked : Bytes = elim (text_field json (peeked json r.body) (codes "model")) [
      | none ↦ []
      | some m ↦ strip_provider_prefix m
    ] in
    if bytes_eq routed [] then asked else routed

-- The fields of a body that are texts and not empty, by their names.
unfoldable pub forwarded : FieldsJson → RawFields → List Bytes → List (Bytes × Bytes)
forwarded json f [] = []
forwarded json f (name ∷ names) =
    let rest = forwarded json f names in
    elim (text_field json f name) [
      | none ↦ rest
      | some v ↦ if bytes_eq v [] then rest else (name, v) ∷ rest
    ]

abbrev pub tuning_fields : List Bytes
tuning_fields =
    codes "response_format"
    ∷ codes "language"
    ∷ codes "temperature"
    ∷ codes "timestamp_granularities"
    ∷ codes "prompt"
    ∷ []

unfoldable pub transcription_form : FieldsJson → UpstreamRequest → List (Bytes × Bytes)
transcription_form json r =
    (codes "model", transcribed_model json r) ∷ forwarded json (peeked json r.body) tuning_fields
