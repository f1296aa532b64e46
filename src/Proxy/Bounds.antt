-- ===== src/Proxy/Bounds.antt =====
-- internal/proxy/proxy.go: the calls and the seats of a whole request.
use llm_pico.Proxy.Select.{
  kind_slots, MediaRefusal, MediaChoice, media_slots, slots_within_context, DispatchInput,
}
use mathlib.Core.Path.{subst}
use llm_pico.Config.{ModelEntry}
use llm_pico.Proxy.Counts.{Bounded-add, Bounded-weaken, attempt_slot-Bounded, Bounded, released}
use llm_pico.Proxy.Errors.{bad_request, Error}
use llm_pico.Proxy.Attempt.{attempt_slot, budget_spent, max_tries, World, State, Job, SlotResult}
use llm_pico.Proxy.Dispatch.{
  DegradationMode, admit, dispatch, outcome_of, Outcome, job_of, Service, dispatch_media,
  dispatch_slots, Stage, proceed, WalkResult, visit_slot, after_slot, walk, Verdict, judge,
}
use llm_pico.Router.Float.{Float}
use llm_pico.Common.Signed.{ℤ}
use llm_pico.Common.{
  true, ltb, ◌-◌, ◌<◌, false, sym, none, Bool, ap, refl, Bool-cases, inr, ◌∙◌, some, inl, Option,
  List, ℕ, ◌+◌, ◌≡◌, arith, [], ◌∷◌, ◌⊎◌,
}

-- The tries that a list of slots allows.
unfoldable pub total_tries : ℤ → List ModelEntry → ℕ
total_tries num_retries [] = 0
total_tries num_retries (e ∷ es) = max_tries num_retries e + total_tries num_retries es

released-count :
    (owned : Bool) (x y k n t : ℕ)
    → x ≡ n + k
    → n ≡ 0
    → y ≡ released owned k t
    → y ≡ released owned x t
unfolding released
released-count owned x y k n t a h b = ground arith

module _ (fl : Float) where
  open fl use {F}

  abbrev verdict_state : Verdict fl → State F
  verdict_state (Verdict.go_on s) = s
  verdict_state (Verdict.stop s) = s

  judge-counts :
      (w : World) (job : Job) (rest : List ModelEntry) (err : Error) (s : State F)
      → ((verdict_state (judge fl w job rest err s)).attempts ≡ s.attempts)
        × ((verdict_state (judge fl w job rest err s)).seats ≡ s.seats)
  unfolding judge
  judge-counts w job rest err s = ground arith

  -- A state with the same counts.
  Bounded-same :
      (job : Job) (n : ℕ) (s s' s'' : State F)
      → (s''.attempts ≡ s'.attempts) × (s''.seats ≡ s'.seats)
      → Bounded fl job n s s'
      → Bounded fl job n s s''
  Bounded-same job n s s' s'' (a, b) (k, (c, d), le, f) =
      (k, (a ∙ c, b ∙ d), le, λ h l. omega (arith, f h l))

  abbrev stage_state : Stage fl → State F
  stage_state (Stage.walk_ends r s) = s
  stage_state (Stage.walk_on s err) = s

  pub Stage-cases :
      (t : Stage fl)
      → ((r : WalkResult) × (s : State F) × (t ≡ Stage.walk_ends r s))
        ⊎ ((s : State F) × (err : Error) × (t ≡ Stage.walk_on s err))
  Stage-cases (Stage.walk_ends r s) = inl (r, s, refl)
  Stage-cases (Stage.walk_on s err) = inr (s, err, refl)

  proceed-state : (err : Error) (v : Verdict fl) → stage_state (proceed fl err v) ≡ verdict_state v
  proceed-state err (Verdict.go_on s) = refl
  proceed-state err (Verdict.stop s) = refl

  after_slot-counts :
      (w : World) (job : Job) (e : ModelEntry) (rest : List ModelEntry) (r : SlotResult)
      (s : State F)
      → ((stage_state (after_slot fl w job e rest r s)).attempts ≡ s.attempts)
        × ((stage_state (after_slot fl w job e rest r s)).seats ≡ s.seats)
  unfolding after_slot
  after_slot-counts w job e rest SlotResult.served s = (refl, refl)
  after_slot-counts w job e rest SlotResult.crashed s = (refl, refl)
  after_slot-counts w job e rest (SlotResult.gave_up err) s =
      rw (proceed-state err (judge fl w job rest err s)) (judge-counts w job rest err s)

  visit_slot-Bounded :
      (w : World) (job : Job) (e : ModelEntry) (rest : List ModelEntry) (s : State F)
      (last : Option Error)
      → Bounded fl job
          (max_tries job.num_retries e)
          s
          (stage_state (visit_slot fl w job e rest s last))
  unfolding visit_slot released
  visit_slot-Bounded w job e rest s last = elim (Bool-cases (budget_spent job.budget s.attempts)) [
    | inl spent ↦ rw spent (0, ground arith, omega arith, λ h l. l)
    | inr left ↦ rw left (
        Bounded-same job (max_tries job.num_retries e) s (attempt_slot fl w job e s).1
          (stage_state (
            after_slot fl w job e rest (attempt_slot fl w job e s).0 (attempt_slot fl w job e s).1))
          (after_slot-counts w job e rest (attempt_slot fl w job e s).0
            (attempt_slot fl w job e s).1)
          (attempt_slot-Bounded fl w job e s))
  ]

  walk-Bounded :
      (w : World) (job : Job) (es : List ModelEntry) (s : State F) (last : Option Error)
      → Bounded fl job (total_tries job.num_retries es) s (walk fl w job es s last).1
  unfolding walk total_tries released
  walk-Bounded w job [] s last = (0, ground arith, omega arith, λ h l. l)
  walk-Bounded w job (e ∷ es) s last = elim (Stage-cases (visit_slot fl w job e es s last)) [
    | inl (r, s', q) ↦
        rw (q, walk)
          (Bounded-weaken fl job (max_tries job.num_retries e)
            (max_tries job.num_retries e + total_tries job.num_retries es) s s' (omega arith)
            (here s' q))
    | inr (s', err, q) ↦
        rw (q, walk)
          (Bounded-add fl job (max_tries job.num_retries e) (total_tries job.num_retries es) s s'
            (walk fl w job es s' (some err)).1 (onward s' err q)
            (walk-Bounded w job es s' (some err)))
  ]
    where
      here :
          {r : WalkResult} (s' : State F)
          → visit_slot fl w job e es s last ≡ Stage.walk_ends r s'
          → Bounded fl job (max_tries job.num_retries e) s s'
      here s' q =
          subst (Bounded fl job (max_tries job.num_retries e) s) (ap stage_state q)
            (visit_slot-Bounded w job e es s last)

      onward :
          (s' : State F) (err : Error)
          → visit_slot fl w job e es s last ≡ Stage.walk_on s' err
          → Bounded fl job (max_tries job.num_retries e) s s'
      onward s' err q =
          subst (Bounded fl job (max_tries job.num_retries e) s) (ap stage_state q)
            (visit_slot-Bounded w job e es s last)

  outcome_of-state : (p : WalkResult × State F) → (outcome_of fl p).1 ≡ p.1
  unfolding outcome_of
  outcome_of-state (WalkResult.answered_by e, s) = refl
  outcome_of-state (WalkResult.walk_failed last, s) = refl
  outcome_of-state (WalkResult.walk_crashed, s) = refl

  pub dispatch_slots-Bounded :
      (w : World) (v : Service) (input : DispatchInput) (owned : Bool) (all : List ModelEntry)
      (s : State F)
      → Bounded fl
          (job_of v input owned all)
          (total_tries v.num_retries (slots_within_context all input))
          s
          (dispatch_slots fl w v input owned all s).1
  unfolding dispatch_slots job_of
  dispatch_slots-Bounded w v input owned all s = go (slots_within_context all input)
    where
      job : Job
      job = job_of v input owned all

      go :
          (es : List ModelEntry)
          → Bounded fl job
              (total_tries v.num_retries es)
              s
              (elim es as (λ _. Outcome × State F) [
                | [] ↦ (Outcome.error bad_request, s)
                | e ∷ es ↦ outcome_of fl (walk fl w job (e ∷ es) s none)
              ]).1
      go [] = (0, (unfold released in ground arith), (unfold total_tries in omega arith), λ h l. l)
      go (e ∷ es) =
          subst (Bounded fl job (total_tries v.num_retries (e ∷ es)) s)
            (sym (outcome_of-state (walk fl w job (e ∷ es) s none)))
            (walk-Bounded w job (e ∷ es) s none)

  pub Choice-cases :
      (c : MediaChoice)
      → ((es : List ModelEntry) × (c ≡ MediaChoice.chosen es))
        ⊎ ((r : MediaRefusal) × (c ≡ MediaChoice.refused_media r))
  Choice-cases (MediaChoice.chosen es) = inl (es, refl)
  Choice-cases (MediaChoice.refused_media r) = inr (r, refl)

  dispatch_media-seats :
      (w : World) (v : Service) (input : DispatchInput) (owned : Bool) (es : List ModelEntry)
      (s : State F)
      → s.attempts ≡ 0
      → (dispatch_media fl w v input owned es s).1.seats
        ≡ released owned (dispatch_media fl w v input owned es s).1.attempts s.seats
  unfolding dispatch_media released job_of
  dispatch_media-seats w v input owned [] s h = ground arith
  dispatch_media-seats w v input owned (e ∷ es) s h =
      elim (Choice-cases (media_slots (e ∷ es) input)) [
        | inl (all, q) ↦
            rw (q, dispatch_media) (seats_of all (dispatch_slots-Bounded w v input owned all s))
        | inr (r, q) ↦ rw (q, dispatch_media) (ground arith)
      ]
    where
      seats_of :
          (all : List ModelEntry)
          → Bounded fl
              (job_of v input owned all)
              (total_tries v.num_retries (slots_within_context all input))
              s
              (dispatch_slots fl w v input owned all s).1
          → (dispatch_slots fl w v input owned all s).1.seats
            ≡ released owned (dispatch_slots fl w v input owned all s).1.attempts s.seats
      seats_of all (k, (a, b), le, f) =
          released-count owned (dispatch_slots fl w v input owned all s).1.attempts
            (dispatch_slots fl w v input owned all s).1.seats k s.attempts s.seats a h b

  -- In the mode fallback_only, when the service is not draining, the request not cancelled and one
  -- of the 512 seats free, the seats taken after a request are those before it and one more, less one
  -- for each call that it has sent upstream, and never below none.
  pub dispatch-seats :
      (w : World) (v : Service) (input : DispatchInput) (s : State F)
      → v.is_draining ≡ false
      → v.mode ≡ DegradationMode.fallback_only
      → v.ctx_done ≡ false
      → s.seats < 512
      → (dispatch fl w v input s).1.seats ≡ s.seats + 1 - (dispatch fl w v input s).1.attempts
  unfolding dispatch admit released
  dispatch-seats w v input s calm mode live free =
      rw (calm, mode, live, has_seat)
        (dispatch_media-seats w v input true (kind_slots v.model_list input.model input.route_type)
          (record s { seats = s.seats + 1; attempts = 0 }) refl)
    where
      has_seat : ltb s.seats 512 ≡ true
      has_seat = ground arith
