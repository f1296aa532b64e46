-- ===== src/Proxy/Attempt.antt =====
-- internal/proxy/proxy.go: the tries against one provider slot, with the reservation that they share
-- and the accounting that settles or refunds it.
use llm_pico.Router.Feedback.{router_failure, router_success}
use llm_pico.Router.Table.{RouteError, Resolved, resolve_slot, Table, Target}
use llm_pico.Proxy.Select.{RouteType, estimate_tokens, is_positive, DispatchInput}
use llm_pico.RateLimit.Types.{Window, Costs, Limits, Level, second, Cell}
use llm_pico.RateLimit.Limiter.{check_and_reserve, refund, is_zero, reconcile, Limiter}
use llm_pico.Config.{ModelEntry}
use llm_pico.Proxy.Errors.{
  rate_limit_error, retryable_upstream, is_terminal, upstream_error, bad_request, ApiError, Error,
  Failure,
}
use llm_pico.Common.{
  ℕ, zero, suc, ◌+◌, ◌-◌, ◌/◌, Bool, true, false, ◌&&◌, not, Option, none, some, if◌then◌else◌, max,
  ltb, leb,
}
use llm_pico.Common.Signed.{ℤ, pos, negsuc, sub64, add64, max_zero}
use llm_pico.Router.Float.{Float}

-- What a finished upstream call reports of its cost.
pub record CallUsage : Type 0 where
  pub total_tokens : ℤ
  pub cached_tokens : ℤ

-- The outcome of one upstream call: an answer with the usage that its body reports, or a failure.
pub data Reply : Type 0 where
  answered : CallUsage → Reply
  failed : Failure → Reply

-- Everything outside the process: the time of each try, the provider's reply to it, and whether the
-- request is cancelled while it backs off after it. Tries are numbered over the whole request.
pub record World : Type 0 where
  pub clock : ℕ → ℕ
  pub reply : ℕ → Target → Reply
  pub cancelled : ℕ → Bool

pub record Reservation : Type 0 where
  pub cell : Cell
  pub limits : Limits
  pub costs : Costs

-- What a request changes: the limiter, the router, the seats taken in fallback mode, and the number
-- of calls sent upstream.
pub record State (F : Type 0) : Type 0 where
  pub limiter : Limiter
  pub router : Table F
  pub seats : ℕ
  pub attempts : ℕ
  -- Tries started, for the world's answers.
  pub tries : ℕ

-- The constant part of a request.
pub record Job : Type 0 where
  pub input : DispatchInput
  pub num_retries : ℤ
  pub budget : ℕ
  pub sem_owned : Bool

abbrev pub slot_limits : ModelEntry → Limits
slot_limits e Window.rpm = e.rpm
slot_limits e Window.rpd = e.rpd
slot_limits e Window.tpm = e.tpm
slot_limits e Window.tpd = e.tpd
slot_limits e Window.cpm = e.cpm
slot_limits e Window.cpd = e.cpd
slot_limits e Window.asec = e.audio_sec_per_day
slot_limits e Window.amin = e.audio_min

abbrev pub job_costs : DispatchInput → Costs
job_costs input = record {
  tokens = estimate_tokens input;
  chars = input.chars;
  audio_sec = input.audio_seconds;
}

abbrev pub cell_of : DispatchInput → ModelEntry → Cell
cell_of input e = record {
  key_hash = input.key_hash;
  model_name = input.model;
  slot = e.provider;
  level = Level.level_model;
}

abbrev pub reservation_of : DispatchInput → ModelEntry → Reservation
reservation_of input e = record {
  cell = cell_of input e;
  limits = slot_limits e;
  costs = job_costs input;
}

-- Whole seconds of a wait, and one more.
abbrev pub seconds_and_one : ℕ → ℕ
seconds_and_one d = d / second + 1

abbrev pub budget_spent : ℕ → ℕ → Bool
budget_spent budget attempts = ltb 0 budget && leb budget attempts

-- `max(1, r + 1)`
abbrev pub tries_of : ℤ → ℕ
tries_of r = elim (add64 r (pos 1)) [ pos n ↦ max 1 n | negsuc n ↦ 1 ]

unfoldable pub max_tries : ℤ → ModelEntry → ℕ
max_tries num_retries e = elim e.retries [ none ↦ tries_of num_retries | some r ↦ tries_of r ]

-- The tokens that a finished call is charged for.
unfoldable pub charged_tokens : Reservation → CallUsage → ℤ
charged_tokens res u =
    if is_zero u.total_tokens
    then res.costs.tokens
    else if is_positive u.cached_tokens
    then max_zero (sub64 u.total_tokens u.cached_tokens)
    else u.total_tokens

unfoldable pub release : Bool → ℕ → ℕ
release owned seats = if owned then seats - 1 else seats

-- How the tries against a slot end.
pub data SlotResult : Type 0 where
  served : SlotResult
  gave_up : Error → SlotResult
  crashed : SlotResult

abbrev pub is_stt : RouteType → Bool
is_stt RouteType.stt = true
is_stt _ = false

-- The usage of a finished call by its route: embeddings report none, audio counts as one, and a
-- stream settles only after the walk.
abbrev pub usage_of : RouteType → Bool → CallUsage → Option CallUsage
usage_of RouteType.embeddings streams u =
    some (record { total_tokens = pos 0; cached_tokens = pos 0 })
usage_of RouteType.stt streams u = some (record { total_tokens = pos 1; cached_tokens = pos 0 })
usage_of RouteType.tts streams u = some (record { total_tokens = pos 1; cached_tokens = pos 0 })
usage_of RouteType.chat true u = none
usage_of RouteType.chat false u = some u

abbrev pub call_usage : DispatchInput → CallUsage → Option CallUsage
call_usage input u = usage_of input.route_type input.streams u

-- What a call comes to for the accounting.
pub data Answer : Type 0 where
  success : Option CallUsage → Answer
  failure : ApiError → Answer

-- What the provider says, or the check for an audio file.
unfoldable pub consult : World → Job → ℕ → Target → Answer
consult w job n t =
    if is_stt job.input.route_type && not job.input.audio_file
    then Answer.failure bad_request
    else elim (w.reply n t) [
      | Reply.answered u ↦ Answer.success (call_usage job.input u)
      | Reply.failed f ↦ Answer.failure (upstream_error f)
    ]

-- A slot without a credential to give is out of quota.
abbrev pub route_wait : RouteError → ℕ
route_wait RouteError.model_not_found = 1
route_wait (RouteError.cooldown d) = seconds_and_one d

-- The error after the last try, or of a walk whose budget was spent before the first.
abbrev pub final_error : Option Error → Error
final_error none = Error.quota (rate_limit_error 1)
final_error (some e) = e

module _ (fl : Float) where
  open fl use {F}

  unfoldable pub settle : State F → Reservation → CallUsage → ℕ → State F
  settle s res u now = record s {
    limiter = reconcile s.limiter res.cell (charged_tokens res u) res.costs.tokens now;
  }

  unfoldable pub give_up_reservation : State F → Option Reservation → ℕ → State F
  give_up_reservation s none now = s
  give_up_reservation s (some res) now = record s {
    limiter = refund s.limiter res.cell res.limits res.costs now;
  }

  unfoldable pub finish : State F → Option Reservation → Option Error → ℕ → SlotResult × State F
  finish s res last now = (SlotResult.gave_up (final_error last), give_up_reservation s res now)

  -- `reserve`, unless a reservation is held.
  pub data Reserved : Type 0 where
    held : Reservation → State F → Reserved
    over_quota : ℕ → State F → Reserved

  unfoldable pub ensure_reserved : Job → ModelEntry → State F → Option Reservation → ℕ → Reserved
  ensure_reserved job e s (some res) now = Reserved.held res s
  ensure_reserved job e s none now =
      let res = reservation_of job.input e in
      let (l, rejection) = check_and_reserve s.limiter res.cell res.limits res.costs now in
      elim rejection [
        | none ↦ Reserved.held res (record s { limiter = l })
        | some r ↦ Reserved.over_quota (seconds_and_one r.retry_after) (record s { limiter = l })
      ]

  -- `call`: the seat is given back, and the provider is asked.
  unfoldable pub send : Job → State F → State F
  send job s = record s { seats = release job.sem_owned s.seats; attempts = s.attempts + 1 }

  -- One turn of the loop either ends it, or goes on with a reservation and the last error.
  pub data Turn : Type 0 where
    ended : SlotResult → State F → Turn
    again : State F → Reservation → Error → Turn

  abbrev ends : SlotResult × State F → Turn
  ends (r, s) = Turn.ended r s

  -- After a successful call: the target is credited, and a buffered call is settled.
  unfoldable pub succeed : State F → Reservation → Target → Option CallUsage → ℕ → Turn
  succeed s res t none now =
      Turn.ended SlotResult.served (record s { router = router_success fl s.router t })
  succeed s res t (some u) now =
      Turn.ended SlotResult.served
        (settle (record s { router = router_success fl s.router t }) res u now)

  -- After a failed call: a fault of the caller ends the slot; any other is tried again, unless the
  -- request is cancelled while it backs off. `more` tells whether tries are left.
  unfoldable pub fail : World → Bool → State F → Reservation → Target → ApiError → ℕ → Turn
  fail w more s res t e now =
      let s' = record s { router = router_failure fl s.router t e.status now } in
      if is_terminal (Error.api e)
      then Turn.ended (SlotResult.gave_up (Error.api e)) (give_up_reservation s' (some res) now)
      else if more && retryable_upstream (Error.api e) && w.cancelled s.tries
      then ends (finish s' (some res) (some (Error.api e)) now)
      else Turn.again s' res (Error.api e)

  unfoldable pub exchange : World → Job → Bool → State F → Reservation → Target → ℕ → Turn
  exchange w job more s res t now = elim (consult w job s.tries t) [
    | Answer.success u ↦ succeed (send job s) res t u now
    | Answer.failure e ↦ fail w more (send job s) res t e now
  ]

  unfoldable pub try_target :
      World → Job → ModelEntry → Bool → State F → Option Reservation → Target → ℕ → Turn
  try_target w job e more s res t now = elim (ensure_reserved job e s res now) [
    | Reserved.over_quota wait s' ↦
        Turn.ended (SlotResult.gave_up (Error.quota (rate_limit_error wait))) s'
    | Reserved.held res' s' ↦ exchange w job more s' res' t now
  ]

  unfoldable pub try_resolved :
      World → Job → ModelEntry → Bool → State F → Option Reservation → Resolved → ℕ → Turn
  try_resolved w job e more s res (Resolved.target t) now = try_target w job e more s res t now
  try_resolved w job e more s res (Resolved.route_error x) now =
      Turn.ended (SlotResult.gave_up (Error.quota (rate_limit_error (route_wait x)))) s
  try_resolved w job e more s res Resolved.route_panics now = Turn.ended SlotResult.crashed s

  unfoldable pub try_once :
      World → Job → ModelEntry → Bool → State F → Option Reservation → Option Error → Turn
  try_once w job e more s res last =
      let now = w.clock s.tries in
      let (found, r) = resolve_slot s.router job.input.model e.provider now in
      if budget_spent job.budget s.attempts
      then ends (finish s res last now)
      else try_resolved w job e more (record s { router = r; tries = s.tries + 1 }) res found now

  -- The loop of `attemptSlot` with the number of tries left.
  unfoldable pub try_slot :
      World
      → Job
      → ModelEntry
      → ℕ
      → State F
      → Option Reservation
      → Option Error
      → SlotResult × State F
  try_slot w job e zero s res last = finish s res last (w.clock s.tries)
  try_slot w job e (suc n) s res last = elim (try_once w job e (ltb 0 n) s res last) [
    | Turn.ended r s' ↦ (r, s')
    | Turn.again s' res' err ↦ try_slot w job e n s' (some res') (some err)
  ]

  unfoldable pub attempt_slot : World → Job → ModelEntry → State F → SlotResult × State F
  attempt_slot w job e s = try_slot w job e (max_tries job.num_retries e) s none none
