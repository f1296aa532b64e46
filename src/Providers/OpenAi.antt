-- ===== src/Providers/OpenAi.antt =====
-- internal/providers/openai.go: the adapter of OpenAI's own protocol. The requests that it sends.
pub mod Prepared
use llm_pico.Common.{ℕ, Bool, if◌then◌else◌, none, not, [], ◌||◌, ◌++◌, some, true, false, ◌==◌}
use llm_pico.Common.Bytes.{Bytes, codes, bytes_eq}
use llm_pico.Common.Result.{Result, err, ok}
use llm_pico.Common.Text.{has_prefix, lower, contains}
use llm_pico.Providers.Chat.{strip_provider_prefix}
use llm_pico.Providers.Fields.{
  FieldsJson, UpstreamRequest, Rewritten, over, with_query, trim_right_slashes, UpstreamCall,
  with_field, rewrite_model, join_url, endpoint, without_field, json_header, fields_of, Decoded,
  RawFields, bool_field,
}

pub data AuthStyle : Type 0 where
  auth_bearer auth_header_key auth_query_key auth_none : AuthStyle

-- `OpenAIAdapter`.
pub record OpenAiAdapter : Type 0 where
  pub base_url : Bytes
  pub auth_header : Bytes
  pub query_param : Bytes
  pub extra_headers : RawFields

-- `NewOpenAIAdapter`, from the base URL and the parts of `AuthHeaderNames` that it keeps.
unfoldable pub new_openai_adapter : Bytes → Bytes → Bytes → RawFields → OpenAiAdapter
new_openai_adapter base header param extra = record {
  base_url =
      trim_right_slashes (if bytes_eq base [] then codes "https://api.openai.com/v1" else base);
  auth_header = header;
  query_param = param;
  extra_headers = extra;
}

-- `AuthStyleFromHeader`.
unfoldable pub auth_style_from_header : Bytes → Bytes → AuthStyle
auth_style_from_header header param =
    if not (bytes_eq header [])
    then AuthStyle.auth_header_key
    else if not (bytes_eq param [])
    then AuthStyle.auth_query_key
    else AuthStyle.auth_bearer

-- `authHeaders`.
unfoldable pub auth_headers : OpenAiAdapter → Bytes → RawFields → RawFields
auth_headers a key headers =
    let merged = over a.extra_headers headers in
    let bearer = with_field merged (codes "Authorization") (codes "Bearer " ++ key) in
    elim (auth_style_from_header a.auth_header a.query_param) [
      | AuthStyle.auth_header_key ↦
          with_field merged (if bytes_eq a.auth_header [] then codes "x-api-key" else a.auth_header)
            key
      | AuthStyle.auth_none ↦ merged
      | AuthStyle.auth_bearer ↦ bearer
      | AuthStyle.auth_query_key ↦ bearer
    ]

-- `queryAuth`.
unfoldable pub query_auth : OpenAiAdapter → Bytes → Bytes → Bytes
query_auth a url key = elim (auth_style_from_header a.auth_header a.query_param) [
  | AuthStyle.auth_query_key ↦
      with_query url (if bytes_eq a.query_param [] then codes "key" else a.query_param) key
  | AuthStyle.auth_header_key ↦ url
  | AuthStyle.auth_none ↦ url
  | AuthStyle.auth_bearer ↦ url
]

-- `requiresMaxCompletionTokens`.
unfoldable pub requires_max_completion_tokens : Bytes → Bool
requires_max_completion_tokens model =
    has_prefix model (codes "gpt-5")
    || has_prefix model (codes "o3")
    || has_prefix model (codes "o4")

-- The fields with `max_tokens` under its newer name, unless that is there.
unfoldable pub renamed_budget : RawFields → RawFields
renamed_budget f = elim (f (codes "max_tokens")) [
  | none ↦ f
  | some raw ↦ elim (f (codes "max_completion_tokens")) [
    | some new ↦ f
    | none ↦ without_field (with_field f (codes "max_completion_tokens") raw) (codes "max_tokens")
  ]
]

-- `ErrInvalidRequest` for a body that does not decode or does not ask for a stream, or a panic.
pub data OpenAiError : Type 0 where
  invalid_body not_streaming nil_map_panic : OpenAiError

module _ (json : FieldsJson) where
  -- `normalizeParams`.
  unfoldable pub normalize_params : Bytes → Bytes → Rewritten
  normalize_params body model =
      if requires_max_completion_tokens model
      then elim (json.decode body) [
        | none ↦ Rewritten.not_json
        | some Decoded.nil_map ↦ Rewritten.rewritten (json.encode Decoded.nil_map)
        | some (Decoded.a_map f) ↦
            Rewritten.rewritten (json.encode (Decoded.a_map (renamed_budget f)))
      ]
      else Rewritten.rewritten body

  -- `prepareBody`.
  unfoldable pub prepare_body : Bytes → Bytes → Rewritten
  prepare_body body model = elim (rewrite_model json body (strip_provider_prefix model)) [
    | Rewritten.rewritten b ↦ normalize_params b (strip_provider_prefix model)
    | Rewritten.not_json ↦ Rewritten.not_json
    | Rewritten.panics ↦ Rewritten.panics
  ]

  -- `doJSON`, up to the request that it sends.
  unfoldable pub openai_request : OpenAiAdapter → UpstreamRequest → Bytes → Bytes → UpstreamCall
  openai_request a r path body = record {
    url = query_auth a (join_url (endpoint r.base_url a.base_url) path) r.api_key;
    headers = auth_headers a r.api_key json_header;
    body = body;
  }

  -- The request of `Stream`, or why there is none.
  unfoldable pub openai_stream : OpenAiAdapter → UpstreamRequest → Result OpenAiError UpstreamCall
  openai_stream a r = elim (prepare_body r.body r.model) [
    | Rewritten.not_json ↦ err OpenAiError.invalid_body
    | Rewritten.panics ↦ err OpenAiError.nil_map_panic
    | Rewritten.rewritten body ↦ elim (json.decode body) [
      | none ↦ err OpenAiError.invalid_body
      | some d ↦ elim (bool_field json (fields_of d) (codes "stream")) [
        | none ↦ err OpenAiError.not_streaming
        | some false ↦ err OpenAiError.not_streaming
        | some true ↦ ok (record {
          url =
              query_auth a (join_url (endpoint r.base_url a.base_url) (codes "chat/completions"))
                r.api_key;
          headers =
              auth_headers a r.api_key
                (with_field json_header (codes "Accept") (codes "text/event-stream"));
          body = body;
        })
      ]
    ]
  ]

  -- The requests of `Complete`, `Embeddings` and `Speak`, by their path.
  unfoldable pub openai_send :
      OpenAiAdapter → UpstreamRequest → Bytes → Result OpenAiError UpstreamCall
  openai_send a r path = elim (prepare_body r.body r.model) [
    | Rewritten.not_json ↦ err OpenAiError.invalid_body
    | Rewritten.panics ↦ err OpenAiError.nil_map_panic
    | Rewritten.rewritten body ↦ ok (openai_request a r path body)
  ]

-- `ModelCapability`, of what a probe finds.
pub record ProbedModel : Type 0 where
  pub supports_stream : Bool
  pub supports_tools : Bool
  pub supports_json : Bool

-- `Probe`, on the status and the body of the reply.
unfoldable pub probed_capability : ℕ → Bytes → ProbedModel
probed_capability status payload =
    let text = lower payload in
    let plain : ProbedModel = record {
      supports_stream = true;
      supports_tools = true;
      supports_json = false;
    } in
    if status == 200
    then record plain { supports_tools = true; supports_json = true }
    else if status == 400
    then record plain {
      supports_tools = not (contains text (codes "tools") || contains text (codes "function"));
    }
    else plain
