-- ===== src/Proxy/Dispatch.antt =====
-- internal/proxy/proxy.go: admission and the walk over the slots of a model.
use llm_pico.Proxy.Select.{
  MediaChoice, kind_slots, media_slots, budget_from, slots_within_context, DispatchInput,
}
use llm_pico.Router.Table.{record_model_failure}
use llm_pico.Proxy.Errors.{
  draining, bad_request, is_client_rejection, is_terminal, is_quota, as_api, upstream_failed,
  upstream_timeout, Error, degraded, ApiError,
}
use llm_pico.Common.Signed.{ℤ}
use llm_pico.Proxy.Attempt.{SlotResult, attempt_slot, budget_spent, Job, World, State}
use llm_pico.Common.{
  ℕ, ◌+◌, Bool, true, false, ◌&&◌, ◌||◌, Option, none, some, List, [], ◌∷◌, if◌then◌else◌, ltb, leb,
}
use llm_pico.Router.Float.{Float}
use llm_pico.Config.{ModelEntry}

pub data DegradationMode : Type 0 where
  normal reject fallback_only : DegradationMode

-- What a request reads of the service and of its context. `pick_done` is the choice that `select`
-- makes between two channels that are both ready.
pub record Service : Type 0 where
  pub model_list : List ModelEntry
  pub num_retries : ℤ
  pub mode : DegradationMode
  pub is_draining : Bool
  pub ctx_done : Bool
  pub pick_done : Bool

abbrev pub seat_count : ℕ
seat_count = 512

-- `admit`: whether the request owns a seat, or the error.
pub data Admission : Type 0 where
  admitted : Bool → ℕ → Admission
  turned_away : ApiError → Admission

unfoldable pub admit : Service → ℕ → Admission
admit v seats = elim v.mode [
  | DegradationMode.normal ↦ Admission.admitted false seats
  | DegradationMode.reject ↦ Admission.turned_away degraded
  | DegradationMode.fallback_only ↦
      if v.ctx_done && (v.pick_done || leb seat_count seats)
      then Admission.turned_away upstream_timeout
      else if ltb seats seat_count
      then Admission.admitted true (seats + 1)
      else Admission.turned_away degraded
]

-- How a walk ends: with the slot that answered, the slots tried before it, or with the last error.
pub data WalkResult : Type 0 where
  answered_by : ModelEntry → WalkResult
  walk_failed : Option Error → WalkResult
  walk_crashed : WalkResult

abbrev pub is_last : List ModelEntry → Bool
is_last [] = true
is_last (e ∷ es) = false

-- What a request comes to: an answer, with the provider, the hops and the calls of its headers; an
-- error; or an index out of range.
pub data Outcome : Type 0 where
  response : ModelEntry → ℕ → Outcome
  error : ApiError → Outcome
  crash : Outcome

unfoldable pub walk_error : Option Error → ApiError
walk_error none = upstream_failed 502
walk_error (some err) = as_api err

-- The constant part of a request over its slots.
unfoldable pub job_of : Service → DispatchInput → Bool → List ModelEntry → Job
job_of v input owned all = record {
  input = input;
  num_retries = v.num_retries;
  budget = budget_from 0 all;
  sem_owned = owned;
}

module _ (fl : Float) where
  open fl use {F}

  -- The error of a slot: to go on with the next one, or to stop.
  pub data Verdict : Type 0 where
    go_on stop : State F → Verdict

  unfoldable pub judge : World → Job → List ModelEntry → Error → State F → Verdict
  judge w job rest err s =
      if is_quota err
      then Verdict.go_on s
      else if is_terminal err || is_client_rejection err
      then Verdict.stop s
      else if is_last rest
      then Verdict.go_on
          (record s { router = record_model_failure s.router job.input.model (w.clock s.tries) })
      else Verdict.go_on s

  -- One turn of the loop of `Dispatch` ends the walk, or goes on with the last error.
  pub data Stage : Type 0 where
    walk_ends : WalkResult → State F → Stage
    walk_on : State F → Error → Stage

  abbrev pub proceed : Error → Verdict → Stage
  proceed err (Verdict.stop s) = Stage.walk_ends (WalkResult.walk_failed (some err)) s
  proceed err (Verdict.go_on s) = Stage.walk_on s err

  unfoldable pub after_slot :
      World → Job → ModelEntry → List ModelEntry → SlotResult → State F → Stage
  after_slot w job e rest SlotResult.served s = Stage.walk_ends (WalkResult.answered_by e) s
  after_slot w job e rest SlotResult.crashed s = Stage.walk_ends WalkResult.walk_crashed s
  after_slot w job e rest (SlotResult.gave_up err) s = proceed err (judge w job rest err s)

  unfoldable pub visit_slot :
      World → Job → ModelEntry → List ModelEntry → State F → Option Error → Stage
  visit_slot w job e rest s last =
      let (result, s') = attempt_slot fl w job e s in
      if budget_spent job.budget s.attempts
      then Stage.walk_ends (WalkResult.walk_failed last) s
      else after_slot w job e rest result s'

  -- The loop of `Dispatch` over the slots.
  unfoldable pub walk :
      World → Job → List ModelEntry → State F → Option Error → WalkResult × State F
  walk w job [] s last = (WalkResult.walk_failed last, s)
  walk w job (e ∷ es) s last = elim (visit_slot w job e es s last) [
    | Stage.walk_ends r s' ↦ (r, s')
    | Stage.walk_on s' err ↦ walk w job es s' (some err)
  ]

  unfoldable pub outcome_of : WalkResult × State F → Outcome × State F
  outcome_of (WalkResult.answered_by e, s) = (Outcome.response e s.attempts, s)
  outcome_of (WalkResult.walk_failed last, s) = (Outcome.error (walk_error last), s)
  outcome_of (WalkResult.walk_crashed, s) = (Outcome.crash, s)

  -- The walk over the slots that fit the context window, on the budget of all of them.
  unfoldable pub dispatch_slots :
      World → Service → DispatchInput → Bool → List ModelEntry → State F → Outcome × State F
  dispatch_slots w v input owned all s = elim (slots_within_context all input) [
    | [] ↦ (Outcome.error bad_request, s)
    | e ∷ es ↦ outcome_of (walk w (job_of v input owned all) (e ∷ es) s none)
  ]

  unfoldable pub dispatch_media :
      World → Service → DispatchInput → Bool → List ModelEntry → State F → Outcome × State F
  dispatch_media w v input owned [] s = (Outcome.error bad_request, s)
  dispatch_media w v input owned (e ∷ es) s = elim (media_slots (e ∷ es) input) [
    | MediaChoice.refused_media r ↦ (Outcome.error bad_request, s)
    | MediaChoice.chosen all ↦ dispatch_slots w v input owned all s
  ]

  -- `Dispatch`.
  unfoldable pub dispatch : World → Service → DispatchInput → State F → Outcome × State F
  dispatch w v input s =
      if v.is_draining then (Outcome.error draining, s) else elim (admit v s.seats) [
        | Admission.turned_away e ↦ (Outcome.error e, s)
        | Admission.admitted owned seats ↦
            dispatch_media w v input owned (kind_slots v.model_list input.model input.route_type)
              (record s { seats = seats; attempts = 0 })
      ]
