-- ===== src/Proxy/Select.antt =====
-- internal/proxy/proxy.go: the request, and the slots that can serve it: by kind, by media and by
-- context window.
use llm_pico.Config.{effective_ctx, kind_eq, slots, Kind, ModelEntry}
use llm_pico.Common.{
  ◌==◌, ltb, ℕ, Bool, true, false, ◌&&◌, ◌||◌, not, Option, none, some, List, [], ◌∷◌,
  if◌then◌else◌,
}
use llm_pico.Common.Bytes.{Bytes, codes}
use llm_pico.Common.Signed.{negsuc, ℤ, pos, add64, ltb_ℤ}

pub data RouteType : Type 0 where
  chat embeddings stt tts : RouteType

-- What the dispatcher reads of a request. `body_tokens` is `EstimateBodyTokens` of the body, and the
-- media flags are `HasMediaInput` of it; `streams` is `wantsStream`.
pub record DispatchInput : Type 0 where
  pub model : Bytes
  pub route_type : RouteType
  pub max_tokens : ℤ
  pub body_tokens : ℤ
  pub has_image : Bool
  pub has_audio : Bool
  pub has_video : Bool
  pub streams : Bool
  pub audio_file : Bool
  pub chars : ℤ
  pub audio_seconds : ℤ
  pub key_hash : Bytes

abbrev pub kind_of : RouteType → Kind
kind_of RouteType.embeddings = Kind.embeddings
kind_of RouteType.stt = Kind.stt
kind_of RouteType.tts = Kind.tts
kind_of RouteType.chat = Kind.chat

unfoldable pub of_kind : RouteType → List ModelEntry → List ModelEntry
of_kind rt [] = []
of_kind rt (e ∷ es) =
    let rest = of_kind rt es in if kind_eq (kind_of rt) e.kind then e ∷ rest else rest

-- `kindSlots`.
unfoldable pub kind_slots : List ModelEntry → Bytes → RouteType → List ModelEntry
kind_slots model_list name rt = of_kind rt (slots model_list name)

abbrev pub accepts : DispatchInput → ModelEntry → Bool
accepts input slot =
    (not input.has_image || slot.images)
    && ((not input.has_audio || slot.audio) && (not input.has_video || slot.video))

abbrev pub is_chat : RouteType → Bool
is_chat RouteType.chat = true
is_chat _ = false

unfoldable pub accepting : DispatchInput → List ModelEntry → List ModelEntry
accepting input [] = []
accepting input (e ∷ es) =
    let rest = accepting input es in if accepts input e then e ∷ rest else rest

abbrev pub any_slot : (ModelEntry → Bool) → List ModelEntry → Bool
any_slot p [] = false
any_slot p (e ∷ es) = p e || any_slot p es

-- Why no slot can take the media: the kinds that no slot accepts, in order, or no slot for all of
-- them together.
pub data MediaRefusal : Type 0 where
  unsupported : List Bytes → MediaRefusal
  no_combination : MediaRefusal

pub data MediaChoice : Type 0 where
  chosen : List ModelEntry → MediaChoice
  refused_media : MediaRefusal → MediaChoice

abbrev pub missing_if : Bool → Bytes → List Bytes → List Bytes
missing_if b name rest = if b then name ∷ rest else rest

unfoldable pub missing_media : DispatchInput → List ModelEntry → List Bytes
missing_media input es =
    missing_if (input.has_image && not (any_slot (λ e. e.images) es)) (codes "image") (
      missing_if (input.has_audio && not (any_slot (λ e. e.audio) es)) (codes "audio")
        (missing_if (input.has_video && not (any_slot (λ e. e.video) es)) (codes "video") []))

abbrev pub refusal : List Bytes → MediaRefusal
refusal [] = MediaRefusal.no_combination
refusal (m ∷ ms) = MediaRefusal.unsupported (m ∷ ms)

abbrev pub choice : List ModelEntry → MediaRefusal → MediaChoice
choice [] r = MediaChoice.refused_media r
choice (e ∷ es) r = MediaChoice.chosen (e ∷ es)

-- `mediaSlots`.
unfoldable pub media_slots : List ModelEntry → DispatchInput → MediaChoice
media_slots es input =
    if not (is_chat input.route_type)
      || not (input.has_image || (input.has_audio || input.has_video))
    then MediaChoice.chosen es
    else choice (accepting input es) (refusal (missing_media input es))

abbrev pub is_positive : ℤ → Bool
is_positive (pos n) = ltb 0 n
is_positive (negsuc n) = false

-- `estimateTokens`.
unfoldable pub estimate_tokens : DispatchInput → ℤ
estimate_tokens input =
    let total = add64 input.body_tokens input.max_tokens in
    if is_positive total then total else pos 1

abbrev pub fits_context : DispatchInput → ModelEntry → Bool
fits_context input e = elim (effective_ctx e) [
  | none ↦ true
  | some ctx ↦ not (ltb_ℤ ctx (estimate_tokens input))
]

-- `slotsWithinContext`.
unfoldable pub slots_within_context : List ModelEntry → DispatchInput → List ModelEntry
slots_within_context [] input = []
slots_within_context (e ∷ es) input =
    let rest = slots_within_context es input in if fits_context input e then e ∷ rest else rest

-- One turn of the loop that finds the attempt budget.
unfoldable pub tighter : ℕ → Option ℤ → ℕ
tighter budget none = budget
tighter budget (some (negsuc n)) = budget
tighter budget (some (pos n)) =
    if n == 0 then budget else if budget == 0 || ltb n budget then n else budget

-- The attempt budget of a walk: the least positive one that a slot declares; 0 is no bound.
unfoldable pub budget_from : ℕ → List ModelEntry → ℕ
budget_from budget [] = budget
budget_from budget (e ∷ es) = budget_from (tighter budget e.attempt_budget) es
