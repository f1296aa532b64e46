-- ===== src/Proxy/Errors.antt =====
-- internal/httpx/errors.go, internal/usage/usage.go and the error tests of internal/proxy/proxy.go.
-- An API error is its status, type, source and retry hint; message texts and headers are left out.
use llm_pico.Common.{ℕ, Bool, true, false, ◌&&◌, ◌||◌, not, ltb, leb, ◌==◌, if◌then◌else◌}
use llm_pico.Common.Bytes.{Bytes, codes, bytes_eq}
use llm_pico.Common.Text.{contains, lower}

pub data Source : Type 0 where
  caller proxy upstream : Source

pub record ApiError : Type 0 where
  pub status : ℕ
  pub kind : Bytes
  pub source : Source
  -- Seconds; 0 when there is no hint.
  pub retry_after : ℕ

-- `Errorf` and the constructors on it.
abbrev pub errorf : ℕ → Bytes → ApiError
errorf status kind = record {
  status = status;
  kind = kind;
  source = Source.caller;
  retry_after = 0;
}

abbrev pub bad_request : ApiError
bad_request = errorf 400 (codes "bad_request")

abbrev pub degraded : ApiError
degraded = errorf 503 (codes "degraded")

abbrev pub draining : ApiError
draining = errorf 503 (codes "draining")

abbrev pub rate_limit_type : Bytes
rate_limit_type = codes "rate_limit_exceeded"

abbrev pub rate_limit_error : ℕ → ApiError
rate_limit_error retry_after = record {
  status = 429;
  kind = rate_limit_type;
  source = Source.caller;
  retry_after = retry_after;
}

-- `Upstream`: a status that is no error becomes 502.
abbrev pub upstream_status : ℕ → ℕ
upstream_status status = if ltb status 400 then 502 else status

abbrev pub upstream_failed : ℕ → ApiError
upstream_failed status = errorf (upstream_status status) (codes "upstream_error")

abbrev pub upstream_timeout : ApiError
upstream_timeout = errorf 504 (codes "upstream_timeout")

-- The errors that the walk over the slots sees. A quota error wraps an API error.
pub data Error : Type 0 where
  api : ApiError → Error
  quota : ApiError → Error

-- `errors.As` on `*httpx.Error` unwraps a quota error.
unfoldable pub as_api : Error → ApiError
as_api (Error.api e) = e
as_api (Error.quota e) = e

abbrev pub is_quota : Error → Bool
is_quota (Error.api e) = false
is_quota (Error.quota e) = true

unfoldable pub is_terminal : Error → Bool
unfolding as_api
is_terminal err =
    let status = (as_api err).status in
    if status == 429 then false else leb 400 status && ltb status 500

abbrev pub is_upstream : Source → Bool
is_upstream Source.upstream = true
is_upstream _ = false

unfoldable pub is_client_rejection : Error → Bool
unfolding as_api
is_client_rejection err =
    bytes_eq (as_api err).kind rate_limit_type && not (is_upstream (as_api err).source)

unfoldable pub status_of : Error → ℕ
unfolding as_api
status_of err = (as_api err).status

unfoldable pub retryable_upstream : Error → Bool
unfolding status_of
retryable_upstream err = status_of err == 429 || leb 500 (status_of err)

-- `Classify`.
unfoldable pub classify : ℕ → Bytes → Bytes
classify status body =
    if status == 429
    then codes "rate_limit"
    else if status == 401
    then codes "invalid_key"
    else if status == 402
    then codes "quota_exceeded"
    else if status == 503
    then codes "model_overloaded"
    else if status == 504
    then codes "timeout"
    else if contains (lower body) (codes "content_filter")
    then codes "content_filter"
    else if leb 500 status
    then codes "upstream_error"
    else codes "unknown"

-- A failed provider call: an answer with an error status, a deadline, or anything else.
pub data Failure : Type 0 where
  endpoint : ℕ → Bytes → ℕ → Failure
  deadline : Failure
  broken : Failure

-- `upstreamError`. The retry hint of an answer is in seconds, from its headers.
unfoldable pub upstream_error : Failure → ApiError
upstream_error (Failure.endpoint status body retry_after) = record {
  status = upstream_status status;
  kind = classify (upstream_status status) body;
  source = Source.upstream;
  retry_after = retry_after;
}
upstream_error Failure.deadline = record upstream_timeout { source = Source.upstream }
upstream_error Failure.broken = record (upstream_failed 502) { source = Source.upstream }
