-- ===== src/Proxy/Answers.antt =====
-- internal/proxy/proxy.go: which slot can answer a request, and the attempt budget of its slots.
use llm_pico.Common.{
  ◌⊎◌, none, ℕ, Bool, some, Option, inl, inr, Bool-cases, ◌∙◌, sym, arith, false, ◌||◌, Among-keep,
  refl, [], true, ◌∷◌, keep, ◌≡◌, Among, List,
}
use llm_pico.Common.Bytes.{bytes_eq, Bytes}
use llm_pico.Config.{kind_eq, ModelEntry, slots}
use llm_pico.Proxy.Attempt.{attempt_slot, budget_spent, State, SlotResult, Job, World}
use llm_pico.Proxy.Bounds.{Choice-cases, Stage-cases}
use llm_pico.Proxy.Dispatch.{
  Admission, admit, job_of, Outcome, dispatch, outcome_of, dispatch_media, dispatch_slots,
  WalkResult, Stage, judge, visit_slot, walk, after_slot, Service,
}
use llm_pico.Proxy.Errors.{ApiError, bad_request, Error}
use llm_pico.Proxy.Select.{
  kind_slots, missing_media, refusal, choice, MediaRefusal, kind_of, is_chat, accepts, fits_context,
  MediaChoice, DispatchInput, RouteType, slots_within_context, of_kind, media_slots, accepting,
}
use llm_pico.Router.Float.{Float}
use mathlib.Core.Path.{subst}

-- The filters of the slots are one filter, by a Boolean test each.
slots-keep :
    (es : List ModelEntry) (name : Bytes)
    → slots es name ≡ keep (λ e. bytes_eq e.model_name name) es
unfolding slots
slots-keep [] name = refl
slots-keep (e ∷ es) name = rw (slots-keep es name) refl

of_kind-keep :
    (rt : RouteType) (es : List ModelEntry)
    → of_kind rt es ≡ keep (λ e. kind_eq (kind_of rt) e.kind) es
unfolding of_kind
of_kind-keep rt [] = refl
of_kind-keep rt (e ∷ es) = rw (of_kind-keep rt es) refl

accepting-keep :
    (input : DispatchInput) (es : List ModelEntry) → accepting input es ≡ keep (accepts input) es
unfolding accepting
accepting-keep input [] = refl
accepting-keep input (e ∷ es) = rw (accepting-keep input es) refl

slots_within_context-keep :
    (es : List ModelEntry) (input : DispatchInput)
    → slots_within_context es input ≡ keep (fits_context input) es
unfolding slots_within_context
slots_within_context-keep [] input = refl
slots_within_context-keep (e ∷ es) input = rw (slots_within_context-keep es input) refl

-- What a slot that answers a request satisfies.
pub record Suits (v : Service) (input : DispatchInput) (e : ModelEntry) : Type 0 where
  pub listed : Among e v.model_list
  pub named : bytes_eq e.model_name input.model ≡ true
  pub of_route : kind_eq (kind_of input.route_type) e.kind ≡ true
  pub takes_media : is_chat input.route_type ≡ true → accepts input e ≡ true
  pub fits : fits_context input e ≡ true

choice-chosen :
    (es all : List ModelEntry) (r : MediaRefusal) → choice es r ≡ MediaChoice.chosen all → es ≡ all
choice-chosen [] all r h = ground arith
choice-chosen (e ∷ es) all r h = ground arith

accepts-no_media :
    (input : DispatchInput) (e : ModelEntry)
    → (input.has_image || (input.has_audio || input.has_video)) ≡ false
    → accepts input e ≡ true
accepts-no_media input e h = ground arith

-- A slot of the media choice comes from the list and, in a chat request, accepts every kind of
-- media that the request carries.
media_slots-Among :
    (input : DispatchInput) (e : ModelEntry) (es all : List ModelEntry)
    → media_slots es input ≡ MediaChoice.chosen all
    → Among e all
    → (is_chat input.route_type ≡ true → accepts input e ≡ true) × Among e es
unfolding media_slots
media_slots-Among input e es all h a = elim (Bool-cases (is_chat input.route_type)) [
  | inr other ↦ (λ c. ground arith, subst (Among e) (sym (same_other other)) a)
  | inl chat ↦ elim (Bool-cases (input.has_image || (input.has_audio || input.has_video))) [
    | inr quiet ↦ (λ c. accepts-no_media input e quiet, subst (Among e) (sym (same_quiet quiet)) a)
    | inl media ↦
        let (t, m) =
          Among-keep (accepts input) e es (subst (Among e) (sym (picked chat media)) a) in
        (λ c. t, m)
  ]
]
  where
    same_other : is_chat input.route_type ≡ false → es ≡ all
    same_other other = ground arith

    same_quiet : (input.has_image || (input.has_audio || input.has_video)) ≡ false → es ≡ all
    same_quiet quiet = ground arith

    picked :
        is_chat input.route_type ≡ true
        → (input.has_image || (input.has_audio || input.has_video)) ≡ true
        → keep (accepts input) es ≡ all
    picked h_chat media =
        sym (accepting-keep input es)
        ∙ choice-chosen (accepting input es) all (refusal (missing_media input es)) (ground arith)

Admission-cases :
    (a : Admission)
    → ((owned : Bool) × (seats : ℕ) × (a ≡ Admission.admitted owned seats))
      ⊎ ((e : ApiError) × (a ≡ Admission.turned_away e))
Admission-cases (Admission.admitted owned seats) = inl (owned, seats, refl)
Admission-cases (Admission.turned_away e) = inr (e, refl)

module _ (fl : Float) where
  open fl use {F}

  -- Only the slot in turn can answer.
  after_slot-answers :
      (w : World) (job : Job) (e : ModelEntry) (rest : List ModelEntry) (r : SlotResult)
      (s s' : State F) (x : ModelEntry)
      → after_slot fl w job e rest r s ≡ Stage.walk_ends (WalkResult.answered_by x) s'
      → x ≡ e
  unfolding after_slot judge
  after_slot-answers w job e rest SlotResult.served s s' x h = ground arith
  after_slot-answers w job e rest SlotResult.crashed s s' x h = ground arith
  after_slot-answers w job e rest (SlotResult.gave_up err) s s' x h = ground arith

  visit_slot-answers :
      (w : World) (job : Job) (e : ModelEntry) (rest : List ModelEntry) (s s' : State F)
      (last : Option Error) (x : ModelEntry)
      → visit_slot fl w job e rest s last ≡ Stage.walk_ends (WalkResult.answered_by x) s'
      → x ≡ e
  unfolding visit_slot
  visit_slot-answers w job e rest s s' last x h =
      elim (Bool-cases (budget_spent job.budget s.attempts)) [
        | inl spent ↦ ground arith
        | inr left ↦
            after_slot-answers w job e rest (attempt_slot fl w job e s).0
              (attempt_slot fl w job e s).1 s' x (ground arith)
      ]

  walk-answers :
      (w : World) (job : Job) (es : List ModelEntry) (s : State F) (last : Option Error)
      (x : ModelEntry)
      → (walk fl w job es s last).0 ≡ WalkResult.answered_by x
      → Among x es
  unfolding walk
  walk-answers w job [] s last x h = ground arith
  walk-answers w job (e ∷ es) s last x h = elim (Stage-cases fl (visit_slot fl w job e es s last)) [
    | inl (r, s', q) ↦ inl (visit_slot-answers w job e es s s' last x (ground (arith, q, h)))
    | inr (s', err, q) ↦ inr (walk-answers w job es s' (some err) x (ground (arith, q, h)))
  ]

  outcome_of-answers :
      (p : WalkResult × State F) (x : ModelEntry) (n : ℕ)
      → (outcome_of fl p).0 ≡ Outcome.response x n
      → (p.0 ≡ WalkResult.answered_by x) × (n ≡ p.1.attempts)
  unfolding outcome_of
  outcome_of-answers (WalkResult.answered_by e, s) x n h = (ground arith, ground arith)
  outcome_of-answers (WalkResult.walk_failed last, s) x n h = ground arith
  outcome_of-answers (WalkResult.walk_crashed, s) x n h = ground arith

  dispatch_slots-answers :
      (w : World) (v : Service) (input : DispatchInput) (owned : Bool) (all : List ModelEntry)
      (s : State F) (x : ModelEntry) (n : ℕ)
      → (dispatch_slots fl w v input owned all s).0 ≡ Outcome.response x n
      → Among x (slots_within_context all input)
  unfolding dispatch_slots
  dispatch_slots-answers w v input owned all s x n = go (slots_within_context all input)
    where
      go :
          (es : List ModelEntry)
          → (elim es as (λ _. Outcome × State F) [
            | [] ↦ (Outcome.error bad_request, s)
            | e ∷ es ↦ outcome_of fl (walk fl w (job_of v input owned all) (e ∷ es) s none)
          ]).0
            ≡ Outcome.response x n
          → Among x es
      go [] h = ground arith
      go (e ∷ es) h =
          walk-answers w (job_of v input owned all) (e ∷ es) s none x
            (outcome_of-answers (walk fl w (job_of v input owned all) (e ∷ es) s none) x n h).0

  Suits-intro :
      (v : Service) (input : DispatchInput) (all : List ModelEntry) (x : ModelEntry)
      → media_slots (kind_slots v.model_list input.model input.route_type) input
        ≡ MediaChoice.chosen all
      → Among x (slots_within_context all input)
      → Suits v input x
  unfolding kind_slots
  Suits-intro v input all x q a =
      let fit =
        Among-keep (fits_context input) x all
          (subst (Among x) (slots_within_context-keep all input) a) in
      let media =
        media_slots-Among input x (kind_slots v.model_list input.model input.route_type) all q
          fit.1 in
      let kind =
        Among-keep (λ e. kind_eq (kind_of input.route_type) e.kind) x
          (slots v.model_list input.model)
          (subst (Among x) (of_kind-keep input.route_type (slots v.model_list input.model))
            media.1) in
      let name =
        Among-keep (λ e. bytes_eq e.model_name input.model) x v.model_list
          (subst (Among x) (slots-keep v.model_list input.model) kind.1) in
      record {
        listed = name.1;
        named = name.0;
        of_route = kind.0;
        takes_media = media.0;
        fits = fit.0;
      }

  dispatch_media-answers :
      (w : World) (v : Service) (input : DispatchInput) (owned : Bool) (es : List ModelEntry)
      (s : State F) (x : ModelEntry) (n : ℕ)
      → (dispatch_media fl w v input owned es s).0 ≡ Outcome.response x n
      → (all : List ModelEntry) × (media_slots es input ≡ MediaChoice.chosen all)
        × Among x (slots_within_context all input)
  unfolding dispatch_media
  dispatch_media-answers w v input owned [] s x n h = ground arith
  dispatch_media-answers w v input owned (e ∷ es) s x n h =
      elim (Choice-cases fl (media_slots (e ∷ es) input)) [
        | inl (all, q) ↦
            (all, q, dispatch_slots-answers w v input owned all s x n (ground (arith, q, h)))
        | inr (r, q) ↦ ground (arith, q, h)
      ]

  -- A slot that answers a request is an entry of the configuration, of the model that the request
  -- names and of the kind of its route; in a chat request it accepts every kind of media that the
  -- request carries; and its context window holds the estimated tokens of the request.
  pub dispatch-Suits :
      (w : World) (v : Service) (input : DispatchInput) (s : State F) (x : ModelEntry) (n : ℕ)
      → (dispatch fl w v input s).0 ≡ Outcome.response x n
      → Suits v input x
  unfolding dispatch
  dispatch-Suits w v input s x n h = elim (Bool-cases v.is_draining) [
    | inl busy ↦ ground (arith, busy, h)
    | inr calm ↦ elim (Admission-cases (admit v s.seats)) [
      | inl (owned, seats, q) ↦
          let (all, m, a) =
            dispatch_media-answers w v input owned
              (kind_slots v.model_list input.model input.route_type)
              (record s { seats = seats; attempts = 0 }) x n (ground (arith, calm, q, h)) in
          Suits-intro v input all x m a
      | inr (e, q) ↦ ground (arith, calm, q, h)
    ]
  ]
