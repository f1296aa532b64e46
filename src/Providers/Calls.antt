-- ===== src/Providers/Calls.antt =====
-- internal/providers/anthropic.go and internal/providers/gemini.go: the requests that Complete and
-- Stream of the two adapters send. The encoding of a request and the escaping of a query are
-- arguments.
use llm_pico.Common.{ℕ, if◌then◌else◌, Bool, [], Option, ◌++◌, none, some}
use llm_pico.Common.Bytes.{Bytes, codes, bytes_eq}
use llm_pico.Providers.Anthropic.Breakpoints.{AnthropicRequest}
use llm_pico.Providers.Anthropic.Request.{AnthropicConfig, build_anthropic}
use llm_pico.Providers.Chat.{ChatJson, strip_provider_prefix}
use llm_pico.Providers.Fields.{
  endpoint, RawFields, with_query, trim_right_slashes, with_field, over, json_header,
  UpstreamRequest, UpstreamCall, join_url,
}
use llm_pico.Providers.Gemini.Generation.{GeminiRequest}
use llm_pico.Providers.Gemini.Request.{gemini_payload}

-- `AnthropicAdapter`.
pub record AnthropicAdapter : Type 0 where
  pub base_url : Bytes
  pub api_version : Bytes
  pub extra : RawFields

unfoldable pub new_anthropic_adapter : Bytes → RawFields → AnthropicAdapter
new_anthropic_adapter base extra = record {
  base_url =
      trim_right_slashes (if bytes_eq base [] then codes "https://api.anthropic.com/v1" else base);
  api_version = codes "2023-06-01";
  extra = extra;
}

unfoldable pub anthropic_headers : AnthropicAdapter → Bytes → RawFields
anthropic_headers a key = over a.extra (
    with_field (with_field json_header (codes "x-api-key") key) (codes "anthropic-version")
      a.api_version)

-- `GeminiAdapter`.
pub record GeminiAdapter : Type 0 where
  pub base_url : Bytes
  pub query_param : Bytes
  pub extra : RawFields

unfoldable pub new_gemini_adapter : Bytes → RawFields → GeminiAdapter
new_gemini_adapter base extra = record {
  base_url =
      trim_right_slashes (
        if bytes_eq base []
        then codes "https://generativelanguage.googleapis.com/v1beta"
        else base);
  query_param = codes "key";
  extra = extra;
}

-- `withKey`.
abbrev pub with_key : (Bytes → Bytes) → GeminiAdapter → Bytes → Bytes → Bytes
with_key escape a url key =
    with_query url (if bytes_eq a.query_param [] then codes "key" else a.query_param) (escape key)

abbrev pub gemini_headers : GeminiAdapter → RawFields
gemini_headers a = over a.extra json_header

abbrev pub event_stream : RawFields → RawFields
event_stream headers = with_field headers (codes "Accept") (codes "text/event-stream")

module _ (json : ChatJson) where
  -- The request of `Complete` and that of `Stream`, by whether it streams; none is
  -- `ErrInvalidRequest`.
  unfoldable pub anthropic_call :
      (ℕ → ℕ → Bytes)
      → (AnthropicRequest → Bytes)
      → AnthropicAdapter
      → AnthropicConfig
      → Bool
      → UpstreamRequest
      → Option UpstreamCall
  anthropic_call fresh encode a cfg streams r =
      let headers = anthropic_headers a r.api_key in
      elim (build_anthropic json fresh r.body r.model cfg) [
        | none ↦ none
        | some payload ↦ some (record {
          url = join_url (endpoint r.base_url a.base_url) (codes "messages");
          headers = if streams then event_stream headers else headers;
          body = encode (record payload { streams = streams });
        })
      ]

  unfoldable pub gemini_call :
      (Bytes → Bytes)
      → (GeminiRequest → Bytes)
      → GeminiAdapter
      → Bool
      → UpstreamRequest
      → Option UpstreamCall
  gemini_call escape encode a streams r =
      let model = codes "models/" ++ strip_provider_prefix r.model in
      let base = endpoint r.base_url a.base_url in
      elim (gemini_payload json r.body r.model) [
        | none ↦ none
        | some payload ↦ some (record {
          url =
              with_key escape a
                (if streams
                  then join_url base (model ++ codes ":streamGenerateContent") ++ codes "?alt=sse"
                  else join_url base (model ++ codes ":generateContent"))
                r.api_key;
          headers = if streams then event_stream (gemini_headers a) else gemini_headers a;
          body = encode payload;
        })
      ]
