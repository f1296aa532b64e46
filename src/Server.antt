-- ===== src/Server.antt =====
-- internal/server/server.go, with internal/auth/auth.go: from a request to its dispatch. The hashes
-- of internal/auth, reading the body, the parsing of a multipart form and the decoding of JSON are the
-- library's and parameters.
pub mod Admission
pub mod Listing
pub mod Response
use llm_pico.Common.{
  ℕ, List, Bool, if◌then◌else◌, none, [], Option, some, zero, false, not, ◌++◌, ◌∷◌, true, ◌||◌,
  max, ltb, length, ◌/◌, ◌+◌, ◌==◌,
}
use llm_pico.Common.Bytes.{Bytes, codes, bytes_eq}
use llm_pico.Common.Result.{Result, ok, ◌>>=◌, guard, err, ◌>>◌}
use llm_pico.Common.Signed.{ℤ, pos, eq_ℤ}
use llm_pico.Common.Text.{trim_space}
use llm_pico.Config.{ModelEntry, slots}
use llm_pico.Proxy.Attempt.{World, State}
use llm_pico.Proxy.Dispatch.{Service, Outcome, dispatch}
use llm_pico.Proxy.Errors.{ApiError, errorf, bad_request}
use llm_pico.Proxy.Estimate.{Json, estimate_body_tokens}
use llm_pico.Proxy.Estimate.Media.{has_media_input, wants_stream}
use llm_pico.Proxy.Select.{RouteType, DispatchInput, is_positive}
use llm_pico.Proxy.Stream.{trim_prefix}
use llm_pico.RateLimit.Limiter.{is_zero}
use llm_pico.Router.Float.{Float}

-- A value of a decoded body; a number by whether it is above zero and by its whole part.
pub data FieldValue : Type 0 where
  missing : FieldValue
  string_value : Bytes → FieldValue
  number : Bool → ℤ → FieldValue
  other : FieldValue

abbrev pub Fields : Type 0
Fields = Bytes → FieldValue

-- What reading at most that many bytes gives.
pub data BodyRead : Type 0 where
  body_is : Bytes → BodyRead
  too_large unreadable : BodyRead

-- What `parseAudio` finds in a form: the file, and the model, which may be empty.
pub data AudioForm : Type 0 where
  upload : Bytes → Bytes → AudioForm
  refused : AudioForm

pub record Request : Type 0 where
  pub authorization : Bytes
  pub signature : Bytes
  pub read : ℕ → BodyRead

-- What the standard library computes.
pub record Library : Type 0 where
  pub json : Json
  pub decode_map : Bytes → Option Fields
  pub parse_audio : Bytes → AudioForm
  pub hash_key : Bytes → Bytes
  pub sign : Bytes → Bytes → Bytes

-- The configuration and options that a request is checked against.
pub record Settings : Type 0 where
  pub proxy_keys : List Bytes
  pub hmac_enabled : Bool
  pub hmac_secret : Bytes
  pub max_body_bytes : ℕ

abbrev pub unauthorized : ApiError
unauthorized = errorf 401 (codes "unauthorized")

abbrev pub not_found : ApiError
not_found = errorf 404 (codes "not_found")

abbrev pub entity_too_large : ApiError
entity_too_large = errorf 413 (codes "bad_request")

-- `ExtractBearer`.
unfoldable pub extract_bearer : Bytes → Bytes
extract_bearer header = elim (trim_prefix header (codes "Bearer ")) [
  | none ↦ []
  | some token ↦ trim_space token
]

abbrev pub max_audio_bytes : ℕ
max_audio_bytes = 104857600

abbrev pub body_limit : Settings → RouteType → ℕ
body_limit cfg RouteType.stt = max_audio_bytes
body_limit cfg _ = cfg.max_body_bytes

unfoldable pub read_body : Settings → RouteType → Request → Result ApiError Bytes
read_body cfg route r = elim (r.read (body_limit cfg route)) [
  | BodyRead.body_is body ↦ ok body
  | BodyRead.too_large ↦ err entity_too_large
  | BodyRead.unreadable ↦ err bad_request
]

-- `stringField`, `intField` with the default 0, and `requestedMaxTokens`.
abbrev pub string_field : Fields → Bytes → Bytes
string_field fields name = elim (fields name) [
  | FieldValue.string_value s ↦ s
  | FieldValue.missing ↦ []
  | FieldValue.number p n ↦ []
  | FieldValue.other ↦ []
]

abbrev pub int_field : Fields → Bytes → ℤ
int_field fields name = elim (fields name) [
  | FieldValue.number positive n ↦ if positive then n else pos 0
  | FieldValue.missing ↦ pos 0
  | FieldValue.string_value s ↦ pos 0
  | FieldValue.other ↦ pos 0
]

abbrev pub requested_max_tokens : Fields → ℤ
requested_max_tokens fields =
    let newer = int_field fields (codes "max_completion_tokens") in
    if is_positive newer then newer else int_field fields (codes "max_tokens")

-- `checkDims`, with the last ceiling seen: whether a slot declares the size, or none declares any.
unfoldable pub dims_fit : ℤ → ℤ → List ModelEntry → Bool
dims_fit asked last [] = is_zero last
dims_fit asked last (e ∷ es) =
    let skipped = dims_fit asked last es in
    elim e.dims [
      | none ↦ skipped
      | some d ↦ let rest = dims_fit asked d es in if eq_ℤ asked d then true else rest
    ]

unfoldable pub check_dims : List ModelEntry → ℤ → Result ApiError (Unit {0})
check_dims es asked = if is_zero asked then ok tt else guard (dims_fit asked (pos 0) es) bad_request

-- The checks that a read input has to pass.
unfoldable pub check_model :
    List ModelEntry → RouteType → DispatchInput → Fields → Result ApiError (Unit {0})
check_model model_list route input fields =
    guard (not (bytes_eq input.model [])) bad_request
    >> guard (ltb 0 (length (slots model_list input.model))) not_found
    >> elim route [
      | RouteType.embeddings ↦
          check_dims (slots model_list input.model) (int_field fields (codes "dimensions"))
      | RouteType.chat ↦ ok tt
      | RouteType.stt ↦ ok tt
      | RouteType.tts ↦ ok tt
    ]

module _ (lib : Library) where
  -- The set of hashed keys, as the list of its members, and `resolveIdentity`, which gives the key's hash.
  abbrev pub is_known : Bytes → List Bytes → Bool
  is_known hash [] = false
  is_known hash (k ∷ ks) = let rest = is_known hash ks in bytes_eq hash (lib.hash_key k) || rest

  unfoldable pub resolve_identity : Settings → Request → Result ApiError Bytes
  resolve_identity cfg r =
      let raw = extract_bearer r.authorization in
      if bytes_eq raw []
      then err unauthorized
      else if is_known (lib.hash_key raw) cfg.proxy_keys
      then ok (lib.hash_key raw)
      else err unauthorized

  -- `verifyHMAC` of the server and `VerifyHMAC`; `sign` gives the hexadecimal digits.
  abbrev pub expected_signature : Settings → Bytes → Bytes
  expected_signature cfg body = codes "sha256=" ++ lib.sign cfg.hmac_secret body

  unfoldable pub verify_hmac : Settings → Request → Bytes → Result ApiError (Unit {0})
  verify_hmac cfg r body =
      if not cfg.hmac_enabled
      then ok tt
      else if bytes_eq r.signature []
      then err unauthorized
      else guard (bytes_eq (expected_signature cfg body) r.signature) unauthorized

  -- The fields of a body that is decoded on every route but that of transcription.
  abbrev pub decoded : Bytes → Result ApiError Fields
  decoded body = elim (lib.decode_map body) [ none ↦ err bad_request | some fields ↦ ok fields ]

  abbrev pub input_of : RouteType → Bytes → Bytes → Bytes → DispatchInput
  input_of route hash body model =
      let media = has_media_input lib.json body in
      record {
        model = model;
        route_type = route;
        max_tokens = pos 0;
        body_tokens = pos (estimate_body_tokens lib.json body);
        has_image = media.image;
        has_audio = media.audio;
        has_video = media.video;
        streams = wants_stream lib.json body;
        audio_file = false;
        chars = pos 0;
        audio_seconds = pos 0;
        key_hash = hash;
      }

  -- The input of a request on each route, with the fields that `checkDims` reads.
  unfoldable pub read_input : RouteType → Bytes → Bytes → Result ApiError (DispatchInput × Fields)
  read_input RouteType.stt hash body = elim (lib.parse_audio body) [
    | AudioForm.refused ↦ err bad_request
    | AudioForm.upload sound model ↦ ok (
      record (input_of RouteType.stt hash body model) {
        audio_file = true;
        audio_seconds = pos (max 1 (length sound / 32000));
      },
      λ _. FieldValue.missing,
    )
  ]
  read_input RouteType.tts hash body = decoded body >>= λ fields.
      let chars = length (string_field fields (codes "input")) in
      ok (
        record (input_of RouteType.tts hash body (string_field fields (codes "model"))) {
          chars = pos chars;
          audio_seconds = pos ((chars + 14) / 15);
        },
        fields,
      )
  read_input RouteType.embeddings hash body = decoded body >>= λ fields. ok (
    record (input_of RouteType.embeddings hash body (string_field fields (codes "model"))) {
      max_tokens = requested_max_tokens fields;
    },
    fields,
  )
  read_input RouteType.chat hash body = decoded body >>= λ fields. ok (
    record (input_of RouteType.chat hash body (string_field fields (codes "model"))) {
      max_tokens = requested_max_tokens fields;
    },
    fields,
  )

  -- `handle` up to `Dispatch`.
  unfoldable pub prepare :
      Settings → List ModelEntry → RouteType → Request → Result ApiError DispatchInput
  prepare cfg model_list route r = do
    hash ← resolve_identity cfg r
    body ← read_body cfg route r
    signed ← verify_hmac cfg r body
    (input, fields) ← read_input route hash body
    checked ← check_model model_list route input fields
    ok input

  -- `handle`: the outcome, as a status or a provider's answer, and the state after it.
  module _ (fl : Float) where
    unfoldable pub handle :
        Settings → World → Service → RouteType → Request → State fl.F → Outcome × State fl.F
    handle cfg w v route r s = elim (prepare cfg v.model_list route r) [
      | err e ↦ (Outcome.error e, s)
      | ok input ↦ dispatch fl w v input s
    ]
