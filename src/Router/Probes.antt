-- ===== src/Router/Probes.antt =====
-- internal/router/router.go: the circuit breaker as a state machine.
use llm_pico.Router.Breaker.{record_success, record_failure, Breaker, BreakerState, allows}
use llm_pico.Common.{
  some, suc, refl, ◌++◌, length, ◌≤◌, ◌∙◌, if◌then◌else◌, ◌+◌, none, ◌≢◌, ◌<◌, List, ℕ, ◌≡◌, arith,
  [], ◌∷◌,
}

-- The calls that reach a breaker, with their times.
pub data Call : Type 0 where
  asks : ℕ → Call
  fails : ℕ → Call
  succeeds : Call

unfoldable pub call : Breaker → Call → Breaker
call b (asks now) = (allows b now).1
call b (fails now) = record_failure b now
call b succeeds = record_success b

unfoldable pub calls : Breaker → List Call → Breaker
calls b [] = b
calls b (c ∷ cs) = calls (call b c) cs

-- A closed breaker is below its threshold, an open one knows when it opened, and a half-open one has
-- its probe out.
abbrev pub StateIsSound : BreakerState → Breaker → Type 0
StateIsSound BreakerState.closed b = (b.error_count < b.failure_threshold) × (b.probes ≡ 0)
StateIsSound BreakerState.open_ b = (b.opened_at ≢ none)
StateIsSound BreakerState.half_open b = (b.probes ≡ 1)

abbrev pub IsSound : Breaker → Type 0
IsSound b = StateIsSound b.state b

call-IsSound_in :
    (s : BreakerState) (b : Breaker) (c : Call)
    → b.state ≡ s
    → 0 < b.failure_threshold
    → StateIsSound s b
    → IsSound (call b c)
unfolding call allows record_failure record_success
call-IsSound_in s b c e h v = ground arith

threshold-call : (b : Breaker) (c : Call) → (call b c).failure_threshold ≡ b.failure_threshold
unfolding call allows record_failure record_success
threshold-call b c = ground arith

-- Every call keeps a breaker with a positive threshold sound: closed only below its threshold and
-- with no probe out, open only with the time of opening, half-open only with exactly one probe out.
pub calls-IsSound :
    (b : Breaker) (cs : List Call) → 0 < b.failure_threshold → IsSound b → IsSound (calls b cs)
unfolding calls
calls-IsSound b [] h v = v
calls-IsSound b (c ∷ cs) h v =
    calls-IsSound (call b c) cs (omega (arith, threshold-call b c))
      (call-IsSound_in b.state b c refl h v)

-- How many of a row of requests a breaker admits, and the breaker after them.
unfoldable pub ask_all : Breaker → List ℕ → ℕ × Breaker
ask_all b [] = (0, b)
ask_all b (t ∷ ts) =
    let (admitted, b') = allows b t in
    let (more, b'') = ask_all b' ts in (if admitted then suc more else more, b'')

-- A half-open breaker whose probe is out refuses every request and does not change.
ask_all-seat_taken :
    (b : Breaker) (ts : List ℕ)
    → b.state ≡ BreakerState.half_open
    → 0 < b.probes
    → ask_all b ts ≡ (0, b)
unfolding ask_all allows
ask_all-seat_taken b [] e h = refl
ask_all-seat_taken b (t ∷ ts) e h = ground (arith, ask_all-seat_taken b ts e h)

-- A sound breaker that is not closed admits at most one of any row of requests in which no outcome
-- is recorded, whatever their times.
pub ask_all-le-one :
    (b : Breaker) (ts : List ℕ) → IsSound b → b.state ≢ BreakerState.closed → (ask_all b ts).0 ≤ 1
unfolding ask_all allows
ask_all-le-one b [] v n = omega arith
ask_all-le-one b (t ∷ ts) v n = ground (
  arith,
  ask_all-le-one b ts v n,
  ask_all-seat_taken (record b { state = BreakerState.half_open; probes = 1 }) ts refl
      (omega arith),
  ask_all-seat_taken b ts,
)

-- A row of failures, the times in order.
unfoldable pub fail_all : Breaker → List ℕ → Breaker
fail_all b [] = b
fail_all b (t ∷ ts) = fail_all (record_failure b t) ts

fail_all-counts :
    (b : Breaker) (ts : List ℕ)
    → b.state ≡ BreakerState.closed
    → b.error_count + length ts < b.failure_threshold
    → ((fail_all b ts).state ≡ BreakerState.closed)
      × ((fail_all b ts).error_count ≡ b.error_count + length ts)
unfolding fail_all record_failure
fail_all-counts b [] e h = (e, omega arith)
fail_all-counts b (t ∷ ts) e h =
    let c = record_failure b t in
    let (s, n) = fail_all-counts c ts (ground arith) (ground arith) in (s, ground (arith, n))

-- The failure that reaches the threshold.
fail-opens :
    (b : Breaker) (t : ℕ)
    → b.failure_threshold ≤ b.error_count + 1
    → ((record_failure b t).state ≡ BreakerState.open_) × ((record_failure b t).opened_at ≡ some t)
unfolding record_failure
fail-opens b t h = ground arith

fail_all-append :
    (b : Breaker) (ts us : List ℕ) → fail_all b (ts ++ us) ≡ fail_all (fail_all b ts) us
unfolding fail_all
fail_all-append b [] us = refl
fail_all-append b (t ∷ ts) us = fail_all-append (record_failure b t) ts us

fail_all-threshold :
    (b : Breaker) (ts : List ℕ) → (fail_all b ts).failure_threshold ≡ b.failure_threshold
unfolding fail_all record_failure
fail_all-threshold b [] = refl
fail_all-threshold b (t ∷ ts) = fail_all-threshold (record_failure b t) ts ∙ (ground arith)

-- After a success a breaker stays closed for fewer failures than its threshold, and the failure
-- that makes them as many as the threshold opens it, at the time of that failure.
pub record_success-fail_all :
    (b : Breaker) (ts : List ℕ) (t : ℕ)
    → length ts + 1 ≡ b.failure_threshold
    → ((fail_all (record_success b) ts).state ≡ BreakerState.closed)
      × ((fail_all (record_success b) (ts ++ t ∷ [])).state ≡ BreakerState.open_)
      × ((fail_all (record_success b) (ts ++ t ∷ [])).opened_at ≡ some t)
unfolding record_success
record_success-fail_all b ts t h =
    let c = record_success b in
    let (s, n) = fail_all-counts c ts refl (omega arith) in
    let opened = fail-opens (fail_all c ts) t (omega (arith, n, fail_all-threshold c ts)) in
    rw (fail_all-append c ts (t ∷ []))
      (s, (unfold fail_all in opened.0), (unfold fail_all in opened.1))
