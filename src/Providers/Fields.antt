-- ===== src/Providers/Fields.antt =====
-- internal/providers/providers.go: the fields of a body, and the URLs of the upstreams.
use llm_pico.Common.{some, none, ◌∷◌, Option, if◌then◌else◌, ◌++◌, Bool, ◌==◌, []}
use llm_pico.Common.Bytes.{assign, Bytes, codes, bytes_eq}
use llm_pico.Common.Text.{contains}

-- The fields of an object with their JSON, as Go's map has them.
abbrev pub RawFields : Type 0
RawFields = Bytes → Option Bytes

-- What a body decodes to: an object, or null, which leaves Go's map nil.
pub data Decoded : Type 0 where
  a_map : RawFields → Decoded
  nil_map : Decoded

-- What `encoding/json` makes of bodies and of values.
pub record FieldsJson : Type 0 where
  pub decode : Bytes → Option Decoded
  pub encode : Decoded → Bytes
  pub quote : Bytes → Bytes
  pub text : Bytes → Option Bytes
  pub flag : Bytes → Option Bool
  pub is_nonzero : Bytes → Option Bool

abbrev pub fields_of : Decoded → RawFields
fields_of (Decoded.a_map f) = f
fields_of Decoded.nil_map = λ name. none

abbrev pub with_field : RawFields → Bytes → Bytes → RawFields
with_field f name value = assign f name (some value)

abbrev pub without_field : RawFields → Bytes → RawFields
without_field f name = assign f name none

-- `StringField`; none is a field that is missing or no text.
unfoldable pub text_field : FieldsJson → RawFields → Bytes → Option Bytes
text_field json f name = elim (f name) [ none ↦ none | some raw ↦ json.text raw ]

-- `BoolField`: a flag, a number or a text; none is a field that is missing or none of these.
unfoldable pub bool_field : FieldsJson → RawFields → Bytes → Option Bool
bool_field json f name = elim (f name) [
  | none ↦ none
  | some raw ↦ elim (json.flag raw) [
    | some b ↦ some b
    | none ↦ elim (json.is_nonzero raw) [
      | some b ↦ some b
      | none ↦ elim (json.text raw) [ none ↦ none | some s ↦ some (bytes_eq s (codes "true")) ]
    ]
  ]
]

-- What becomes of a body: another one, `ErrInvalidRequest`, or a panic on a nil map.
pub data Rewritten : Type 0 where
  rewritten : Bytes → Rewritten
  not_json : Rewritten
  panics : Rewritten

-- `rewriteModel`.
unfoldable pub rewrite_model : FieldsJson → Bytes → Bytes → Rewritten
rewrite_model json body model = elim (json.decode body) [
  | none ↦ Rewritten.not_json
  | some Decoded.nil_map ↦ Rewritten.panics
  | some (Decoded.a_map f) ↦
      Rewritten.rewritten
        (json.encode (Decoded.a_map (with_field f (codes "model") (json.quote model))))
]

-- `strings.TrimRight` and `strings.TrimLeft` of slashes.
unfoldable pub trim_right_slashes : Bytes → Bytes
trim_right_slashes [] = []
trim_right_slashes (b ∷ bs) = elim (trim_right_slashes bs) [
  | [] ↦ if b == 47 then [] else b ∷ []
  | c ∷ cs ↦ b ∷ c ∷ cs
]

unfoldable pub trim_left_slashes : Bytes → Bytes
trim_left_slashes [] = []
trim_left_slashes (b ∷ bs) = let rest = trim_left_slashes bs in if b == 47 then rest else b ∷ bs

-- `joinURL`.
abbrev pub join_url : Bytes → Bytes → Bytes
join_url base path = trim_right_slashes base ++ codes "/" ++ trim_left_slashes path

-- The base of a request's URL: its own, or that of the adapter; `endpoint` of both adapters.
abbrev pub endpoint : Bytes → Bytes → Bytes
endpoint own base = if bytes_eq own [] then base else trim_right_slashes own

-- A URL with one more query parameter.
abbrev pub with_query : Bytes → Bytes → Bytes → Bytes
with_query url param value =
    url
    ++ (if contains url (codes "?") then codes "&" else codes "?")
    ++ param
    ++ codes "="
    ++ value

-- `Request`, of what the adapters read.
pub record UpstreamRequest : Type 0 where
  pub model : Bytes
  pub body : Bytes
  pub base_url : Bytes
  pub api_key : Bytes

-- A request to an upstream: its URL, its headers and its body.
pub record UpstreamCall : Type 0 where
  pub url : Bytes
  pub headers : RawFields
  pub body : Bytes

-- The headers of a map over others.
abbrev pub over : RawFields → RawFields → RawFields
over extra headers = λ name. elim (extra name) [ some v ↦ some v | none ↦ headers name ]

abbrev pub json_header : RawFields
json_header = assign (λ name. none) (codes "Content-Type") (some (codes "application/json"))
