-- ===== src/Router/Breaker.antt =====
-- internal/router/router.go: the circuit breaker of a provider group. A method takes the time that
-- it reads as an argument and returns the breaker that it leaves. Counters are unbounded numbers.
use llm_pico.Common.{
  ℕ, ◌+◌, ◌-◌, Bool, true, false, ◌||◌, Option, none, some, leb, ltb, if◌then◌else◌,
}

pub data BreakerState : Type 0 where
  closed open_ half_open : BreakerState

-- `opened_at` is `none` for the zero time, which lies further back than any timeout.
pub record Breaker : Type 0 where
  pub state : BreakerState
  pub error_count : ℕ
  pub probes : ℕ
  pub opened_at : Option ℕ
  pub failure_threshold : ℕ
  pub recovery_timeout : ℕ

abbrev pub is_half_open : BreakerState → Bool
is_half_open BreakerState.half_open = true
is_half_open _ = false

unfoldable pub record_failure : Breaker → ℕ → Breaker
record_failure b now =
    let answered = record b { probes = b.probes - 1; error_count = b.error_count + 1 } in
    if is_half_open b.state || leb b.failure_threshold (b.error_count + 1)
    then record answered { state = BreakerState.open_; opened_at = some now }
    else answered

unfoldable pub record_success : Breaker → Breaker
record_success b = record b {
  state = BreakerState.closed;
  error_count = 0;
  opened_at = none;
  probes = 0;
}

-- `time.Since(b.openedAt) >= b.recoveryTimeout`
unfoldable pub recovered : Breaker → ℕ → Bool
recovered b now = elim b.opened_at [ none ↦ true | some t ↦ leb (t + b.recovery_timeout) now ]

allows_in : BreakerState → Breaker → ℕ → Bool × Breaker
unfolding recovered
allows_in BreakerState.closed b now = (true, b)
allows_in BreakerState.open_ b now =
    if recovered b now
    then (true, record b { state = BreakerState.half_open; probes = 1 })
    else (false, b)
allows_in BreakerState.half_open b now =
    if ltb 0 b.probes then (false, b) else (true, record b { probes = 1 })

unfoldable pub allows : Breaker → ℕ → Bool × Breaker
unfolding allows_in
allows b now = allows_in b.state b now
