-- ===== src/Providers/Registry/Adapters.antt =====
-- internal/providers/registry.go: the adapter of a provider, and the listing of its models. The
-- answers of providers are decoded by an argument.
use llm_pico.Common.{
  ℕ, List, if◌then◌else◌, Option, ◌∷◌, none, [], ◌==◌, some, false, not, ◌++◌, ◌&&◌, leb,
}
use llm_pico.Common.Bytes.{Bytes, bytes_eq, codes}
use llm_pico.Common.Result.{Result, ok, err, ◌>>=◌}
use llm_pico.Config.Providers.{no_caps}
use llm_pico.Providers.Calls.{
  AnthropicAdapter, GeminiAdapter, new_anthropic_adapter, new_gemini_adapter,
}
use llm_pico.Providers.Fields.{RawFields, trim_right_slashes, UpstreamCall, with_field}
use llm_pico.Providers.OpenAi.{OpenAiAdapter, new_openai_adapter}
use llm_pico.Providers.Registry.{Spec, lookup, UrlParser, openai_spec, Registry, is_base_url}
use llm_pico.Proxy.Estimate.Media.{without_suffix}
use llm_pico.Proxy.Stream.{trim_prefix}

pub data Adapter : Type 0 where
  openai_adapter : OpenAiAdapter → Adapter
  anthropic_adapter : AnthropicAdapter → Adapter
  gemini_adapter : GeminiAdapter → Adapter

abbrev pub no_fields : RawFields
no_fields name = none

-- `adapterFor`.
unfoldable pub adapter_for : Spec → Adapter
adapter_for spec =
    if bytes_eq spec.protocol (codes "anthropic")
    then Adapter.anthropic_adapter (
        new_anthropic_adapter spec.base_url
          (with_field no_fields (codes "anthropic-version") (codes "2023-06-01")))
    else if bytes_eq spec.protocol (codes "gemini")
    then Adapter.gemini_adapter (new_gemini_adapter spec.base_url no_fields)
    else Adapter.openai_adapter
        (new_openai_adapter spec.base_url spec.auth_header spec.query_param no_fields)

-- `Adapter`: a provider that is not known is taken to speak OpenAI's protocol.
unfoldable pub adapter_of : Registry → Bytes → Adapter
adapter_of reg slug = elim (lookup reg slug) [
  | none ↦ Adapter.openai_adapter (new_openai_adapter [] [] [] no_fields)
  | some spec ↦ adapter_for spec
]

-- `AdapterFor`, with the base URL of a request.
unfoldable pub adapter_at : Registry → Bytes → Bytes → Adapter
adapter_at reg slug base =
    let a = adapter_of reg slug in
    let moved : Adapter = elim a [
      | Adapter.openai_adapter o ↦
          Adapter.openai_adapter (record o { base_url = trim_right_slashes base })
      | Adapter.anthropic_adapter o ↦ Adapter.anthropic_adapter o
      | Adapter.gemini_adapter o ↦ Adapter.gemini_adapter o
    ] in
    if bytes_eq base [] then a else moved

-- `ModelInfo` of the package.
pub record ListedModel : Type 0 where
  pub id : Bytes
  pub name : Bytes

-- `modelsURL`.
unfoldable pub models_url : Bytes → Bytes
models_url base =
    let root = trim_right_slashes base in
    elim (without_suffix root (codes "/v1")) [
      | some r ↦ root ++ codes "/models"
      | none ↦ root ++ codes "/v1/models"
    ]

abbrev pub base_or : Bytes → Bytes → Bytes → Bytes
base_or base own default =
    if bytes_eq base [] then (if bytes_eq own [] then default else own) else base

-- `fetchOpenAIModels`, up to the request that it sends.
unfoldable pub openai_models_call : Spec → Bytes → Bytes → UpstreamCall
openai_models_call spec key base =
    let url = models_url (base_or base spec.base_url (codes "https://api.openai.com/v1")) in
    let bearer = with_field no_fields (codes "Authorization") (codes "Bearer " ++ key) in
    let is = bytes_eq spec.auth in
    if is (codes "header_key")
    then record {
      url = url;
      headers =
          with_field no_fields
            (if bytes_eq spec.auth_header [] then codes "x-api-key" else spec.auth_header) key;
      body = [];
    }
    else if is (codes "query_key")
    then record {
      url =
          url
          ++ codes "&"
          ++ (if bytes_eq spec.query_param [] then codes "key" else spec.query_param)
          ++ codes "="
          ++ key;
      headers = no_fields;
      body = [];
    }
    else record { url = url; headers = if is (codes "none") then no_fields else bearer; body = [] }

-- The models of a listing of OpenAI's shape, by their ids.
unfoldable pub openai_models : List Bytes → List ListedModel
openai_models [] = []
openai_models (id ∷ ids) =
    let rest = openai_models ids in
    if bytes_eq id [] then rest else record { id = id; name = id } ∷ rest

-- `fetchGeminiModels`, up to the request that it sends.
unfoldable pub gemini_models_call : Spec → Bytes → Bytes → UpstreamCall
gemini_models_call spec key base = record {
  url =
      trim_right_slashes
        (base_or base spec.base_url (codes "https://generativelanguage.googleapis.com/v1beta"))
      ++ codes "/models?key="
      ++ key;
  headers = no_fields;
  body = [];
}

-- The models of a listing of Gemini's shape, by their names and display names.
unfoldable pub gemini_models : List (Bytes × Bytes) → List ListedModel
gemini_models [] = []
gemini_models ((name, display) ∷ rest) =
    let more = gemini_models rest in
    let id : Bytes = elim (trim_prefix name (codes "models/")) [ none ↦ name | some r ↦ r ] in
    if bytes_eq id []
    then more
    else record { id = id; name = if bytes_eq display [] then id else display } ∷ more

-- `getJSON`, on the status and the body of a reply: the key is refused, access is denied, the quota
-- is exhausted, another failure, or a body.
pub data FetchError : Type 0 where
  key_rejected access_denied quota_exhausted bad_listing bad_address : FetchError
  failed_with : ℕ → FetchError

unfoldable pub get_json : ℕ → Bytes → Result FetchError Bytes
get_json status body =
    if status == 401
    then err FetchError.key_rejected
    else if status == 403
    then err FetchError.access_denied
    else if status == 402
    then err FetchError.quota_exhausted
    else if leb 400 status
    then err (FetchError.failed_with status)
    else ok body

-- The spec that `FetchModels` takes for an unknown provider.
abbrev pub unknown_spec : Spec
unknown_spec = record openai_spec {
  protocol = codes "openai";
  slug = [];
  display_name = [];
  base_url = [];
  auth = codes "bearer";
  auth_header = [];
  query_param = [];
  capabilities = no_caps;
  probeable = false;
}

-- What the listings of providers decode to.
pub record ListingJson : Type 0 where
  pub ids : Bytes → Option (List Bytes)
  pub named : Bytes → Option (List (Bytes × Bytes))

module _ (parse : UrlParser) (json : ListingJson) (send : UpstreamCall → ℕ × Bytes) where
  unfoldable pub anthropic_known_models : List Bytes
  anthropic_known_models =
      codes "claude-opus-4-20250514"
      ∷ codes "claude-sonnet-4-20250514"
      ∷ codes "claude-3-5-haiku-20241022"
      ∷ codes "claude-3-5-sonnet-20241022"
      ∷ codes "claude-3-opus-20240229"
      ∷ []

  abbrev pub gemini_listing : Bytes → Result FetchError (List ListedModel)
  gemini_listing body = elim (json.named body) [
    | none ↦ err FetchError.bad_listing
    | some ms ↦ ok (gemini_models ms)
  ]

  abbrev pub openai_listing : Bytes → Result FetchError (List ListedModel)
  openai_listing body = elim (json.ids body) [
    | none ↦ err FetchError.bad_listing
    | some ids ↦ ok (openai_models ids)
  ]

  -- The listing of a spec over HTTP or, for Anthropic, the known models.
  unfoldable pub fetched : Spec → Bytes → Bytes → Result FetchError (List ListedModel)
  fetched spec key base =
      let asked_gemini = send (gemini_models_call spec key base) in
      let asked_openai = send (openai_models_call spec key base) in
      if bytes_eq spec.protocol (codes "anthropic")
      then ok (openai_models anthropic_known_models)
      else if bytes_eq spec.protocol (codes "gemini")
      then get_json asked_gemini.0 asked_gemini.1 >>= gemini_listing
      else get_json asked_openai.0 asked_openai.1 >>= openai_listing

  -- `FetchModels`.
  unfoldable pub fetch_models :
      Registry → Bytes → Bytes → Bytes → Result FetchError (List ListedModel)
  fetch_models reg slug key base =
      let spec : Spec = elim (lookup reg slug) [ none ↦ unknown_spec | some s ↦ s ] in
      if not (bytes_eq base []) && not (is_base_url parse base)
      then err FetchError.bad_address
      else fetched spec key base
