-- ===== src/Headers.antt =====
-- internal/httpx/headers.go: the rate-limit headers of an answer, as numbers. A header set is the list
-- of the windows that it reports, in the order in which they are set.
use llm_pico.Common.Signed.{sub64, max_zero, ℤ}
use llm_pico.Common.{◌/◌, some, none, if◌then◌else◌, ℕ, [], ◌∷◌, List}
use llm_pico.RateLimit.Types.{second, window_end, has_any, Limits, Cell, Window}
use llm_pico.RateLimit.Limiter.{usage, Limiter}
pub mod Report

-- `rateLimitWindows`.
abbrev pub header_windows : List Window
header_windows =
    Window.rpm ∷ Window.rpd ∷ Window.tpm ∷ Window.tpd ∷ Window.cpm ∷ Window.cpd ∷ Window.asec
    ∷ Window.amin ∷ []

-- The three headers of one window; `reset` is in seconds.
pub record WindowHeaders : Type 0 where
  pub window : Window
  pub limit : ℤ
  pub remaining : ℤ
  pub reset : ℕ

-- One turn of the loop of `RateLimitHeaders`.
unfoldable pub window_headers : Limiter → Cell → Window → ℤ → ℕ → ℕ → WindowHeaders
window_headers l c w limit now end_now = record {
  window = w;
  limit = limit;
  remaining = max_zero (sub64 limit (usage l c w now));
  reset = window_end w end_now / second;
}

unfoldable pub headers_from : Limiter → Cell → Limits → ℕ → ℕ → List Window → List WindowHeaders
headers_from l c limits now end_now [] = []
headers_from l c limits now end_now (w ∷ ws) =
    let rest = headers_from l c limits now end_now ws in
    elim (limits w) [ none ↦ rest | some limit ↦ window_headers l c w limit now end_now ∷ rest ]

-- `RateLimitHeaders`, which reads the clock for the usage and for the ends of the windows.
unfoldable pub rate_limit_headers : Limiter → Cell → Limits → ℕ → ℕ → List WindowHeaders
rate_limit_headers l c limits now end_now =
    if has_any limits then headers_from l c limits now end_now header_windows else []
