-- ===== src/Config/Models.antt =====
-- internal/config/load.go: the entries of models.yaml and their expansion over provider slots.
use llm_pico.Common.{
  List, Option, if◌then◌else◌, none, [], Bool, ◌||◌, some, false, true, ◌∷◌, ◌&&◌, not,
}
use llm_pico.Common.Bytes.{Bytes, codes, bytes_eq, assign}
use llm_pico.Common.Result.{Result, ok, err, ◌>>=◌, ◌>>◌, guard}
use llm_pico.Common.Signed.{ℤ, pos, negsuc}
use llm_pico.Common.Text.{lower, trim_space}
use llm_pico.Config.{Kind}
use llm_pico.Config.Providers.{ProviderSlot, LoadError, or_error, is_some, above_zero}
use llm_pico.Config.Yaml.{Yaml, Node, value_of, name_list}
use llm_pico.KeysEnv.{is_empty}

-- `modelDef`, before the expansion. `none` for the kind is the empty kind.
pub record ModelDef : Type 0 where
  pub name : Bytes
  pub kind : Option Kind
  pub provider : List Bytes
  pub limits : Bytes → Option ℤ
  pub ctx : Option ℤ
  pub dims : Option ℤ
  pub upstream : Bytes
  pub images : Option Bool
  pub audio : Option Bool
  pub video : Option Bool
  pub thinking : Option Bool
  pub media_set : Bool
  pub retries : Option ℤ
  pub budget : Option ℤ
  pub max_out : Option ℤ
  pub cache : Option Bool

-- `limitNames`, whose keys are the kinds that there are.
abbrev pub limit_names : Kind → List Bytes
limit_names Kind.chat = codes "rpm" ∷ codes "rpd" ∷ codes "tpm" ∷ codes "tpd" ∷ []
limit_names Kind.embeddings = codes "rpm" ∷ codes "rpd" ∷ codes "tpm" ∷ codes "tpd" ∷ []
limit_names Kind.tts =
    codes "rpm" ∷ codes "rpd" ∷ codes "cpm" ∷ codes "cpd" ∷ codes "daily-audio-sec" ∷ []
limit_names Kind.stt = codes "rpm" ∷ codes "rpd" ∷ codes "daily-audio-sec" ∷ codes "audio-min" ∷ []

unfoldable pub kind_named : Bytes → Option Kind
kind_named s =
    if bytes_eq s (codes "chat")
    then some Kind.chat
    else if bytes_eq s (codes "embeddings")
    then some Kind.embeddings
    else if bytes_eq s (codes "tts")
    then some Kind.tts
    else if bytes_eq s (codes "stt")
    then some Kind.stt
    else none

unfoldable pub is_among : Bytes → List Bytes → Bool
is_among n [] = false
is_among n (m ∷ ms) = bytes_eq m n || is_among n ms

-- `byName`: of slots with one name the last counts.
unfoldable pub slot_named : List ProviderSlot → Bytes → Option ProviderSlot
slot_named [] name = none
slot_named (p ∷ ps) name = elim (slot_named ps name) [
  | some q ↦ some q
  | none ↦ if bytes_eq p.name name then some p else none
]

unfoldable pub all_known : List ProviderSlot → List Bytes → Bool
all_known slots [] = true
all_known slots (n ∷ ns) = is_some (slot_named slots n) && all_known slots ns

-- A number that passes a test: above zero, or not below it.
unfoldable pub checked_int : (ℤ → Bool) → LoadError → Yaml → Node → Result LoadError ℤ
checked_int test e y n = do
  v ← or_error LoadError.not_an_integer (y.decode_int n)
  guard (test v) e
  ok v

unfoldable pub positive_int : Yaml → Node → Result LoadError ℤ
unfolding checked_int
positive_int y n = checked_int above_zero LoadError.not_positive y n

abbrev pub not_negative : ℤ → Bool
not_negative (pos n) = true
not_negative (negsuc n) = false

unfoldable pub non_negative_int : Yaml → Node → Result LoadError ℤ
unfolding checked_int
non_negative_int y n = checked_int not_negative LoadError.negative y n

-- `boolValue`.
unfoldable pub bool_value : Yaml → Node → Result LoadError Bool
bool_value y n = or_error LoadError.not_a_boolean (y.decode_bool n)

-- The flags that a list of media names sets.
unfoldable pub media_flags : List Bytes → Bool × Bool × Bool → Result LoadError (Bool × Bool × Bool)
media_flags [] flags = ok flags
media_flags (n ∷ ns) (images, audio, video) =
    let name = lower (trim_space n) in
    let images_on = media_flags ns (true, audio, video) in
    let audio_on = media_flags ns (images, true, video) in
    let video_on = media_flags ns (images, audio, true) in
    if bytes_eq name (codes "image") || bytes_eq name (codes "images")
    then images_on
    else if bytes_eq name (codes "audio")
    then audio_on
    else if bytes_eq name (codes "video")
    then video_on
    else err LoadError.unknown_media

-- The fields that `parseModel` knows by name.
pub data Field : Type 0 where
  kind_field providers_field ctx_field dims_field model_field media_field thinking_field : Field
  retries_field budget_field max_output_field cache_field upstream_field other_field : Field

unfoldable pub field_named : Bytes → Field
field_named k =
    if bytes_eq k (codes "kind")
    then Field.kind_field
    else if bytes_eq k (codes "providers")
    then Field.providers_field
    else if bytes_eq k (codes "ctx")
    then Field.ctx_field
    else if bytes_eq k (codes "dims")
    then Field.dims_field
    else if bytes_eq k (codes "model")
    then Field.model_field
    else if bytes_eq k (codes "media")
    then Field.media_field
    else if bytes_eq k (codes "thinking")
    then Field.thinking_field
    else if bytes_eq k (codes "retries")
    then Field.retries_field
    else if bytes_eq k (codes "attempt-budget") || bytes_eq k (codes "attempt_budget")
    then Field.budget_field
    else if bytes_eq k (codes "max-output") || bytes_eq k (codes "max_output")
    then Field.max_output_field
    else if bytes_eq k (codes "cache")
    then Field.cache_field
    else if bytes_eq k (codes "upstream")
    then Field.upstream_field
    else Field.other_field

-- The limits of the kind so far; the empty kind has none.
abbrev pub own_limits : Option Kind → List Bytes
own_limits none = []
own_limits (some k) = limit_names k

abbrev pub any_limit : Bytes → Bool
any_limit key =
    is_among key (limit_names Kind.chat)
    || (is_among key (limit_names Kind.embeddings)
        || (is_among key (limit_names Kind.tts) || is_among key (limit_names Kind.stt)))

-- `maybeLimit`. A name among the limits of the own kind has been returned before the other kinds are
-- looked through, so the search may go through all of them.
unfoldable pub maybe_limit : Yaml → ModelDef → Bytes → Node → Result LoadError ℤ
maybe_limit y md key n =
    if is_among key (own_limits md.kind)
    then positive_int y n
    else err (if any_limit key then LoadError.misplaced_limit else LoadError.unknown_field)

-- One turn of the loop of `parseModel`.
unfoldable pub parse_field :
    Yaml → List ProviderSlot → Field → Bytes → Node → ModelDef → Result LoadError ModelDef
parse_field y slots Field.kind_field key n md = do
  k ← or_error LoadError.unknown_kind (kind_named (value_of n))
  ok (record md { kind = some k })
parse_field y slots Field.providers_field key n md = do
  names ← or_error LoadError.bad_providers (name_list n)
  guard (not (is_empty names)) LoadError.empty_providers
  guard (all_known slots names) LoadError.unknown_provider
  ok (record md { provider = names })
parse_field y slots Field.ctx_field key n md = do
  v ← positive_int y n
  ok (record md { ctx = some v })
parse_field y slots Field.dims_field key n md = do
  v ← positive_int y n
  ok (record md { dims = some v })
parse_field y slots Field.model_field key n md = do
  guard (not (is_empty (trim_space (value_of n)))) LoadError.empty_model
  ok (record md { upstream = trim_space (value_of n) })
parse_field y slots Field.media_field key n md = do
  names ← or_error LoadError.bad_media (name_list n)
  flags ← media_flags names (false, false, false)
  ok (record md {
    media_set = true;
    images = some flags.0;
    audio = some flags.1;
    video = some flags.2;
  })
parse_field y slots Field.thinking_field key n md = do
  v ← bool_value y n
  ok (record md { thinking = some v })
parse_field y slots Field.retries_field key n md = do
  v ← non_negative_int y n
  ok (record md { retries = some v })
parse_field y slots Field.budget_field key n md = do
  v ← positive_int y n
  ok (record md { budget = some v })
parse_field y slots Field.max_output_field key n md = do
  v ← positive_int y n
  ok (record md { max_out = some v })
parse_field y slots Field.cache_field key n md = do
  v ← bool_value y n
  ok (record md { cache = some v })
parse_field y slots Field.upstream_field key n md = err LoadError.renamed_field
parse_field y slots Field.other_field key n md = do
  v ← maybe_limit y md key n
  ok (record md { limits = assign md.limits key (some v) })

unfoldable pub parse_fields :
    Yaml → List ProviderSlot → List (Bytes × Node) → ModelDef → Result LoadError ModelDef
parse_fields y slots [] md = ok md
parse_fields y slots ((k, n) ∷ es) md =
    parse_field y slots (field_named k) k n md >>= λ md'. parse_fields y slots es md'

-- The definition that `parseModel` starts from.
abbrev pub empty_def : Bytes → ModelDef
empty_def name = record {
  name = name;
  kind = none;
  provider = [];
  limits = λ k. none;
  ctx = none;
  dims = none;
  upstream = name;
  images = none;
  audio = none;
  video = none;
  thinking = none;
  media_set = false;
  retries = none;
  budget = none;
  max_out = none;
  cache = none;
}
