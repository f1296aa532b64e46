-- ===== src/Server/Listing/Honest.antt =====
-- internal/server/server.go, modelInfos: what a listing says of the slots of a model and of its probes.
use llm_pico.Common.{
  ap, sym, if-split, List, Option, Bool, none, false, ◌||◌, ◌&&◌, ◌≡◌, true, ◌∷◌, refl, [], ◌∙◌,
  if◌then◌else◌, not, some,
}
use llm_pico.Common.Bytes.{bytes_eq, assign, Bytes}
use llm_pico.Config.{ModelEntry, slots}
use llm_pico.Server.Listing.{
  record_capability, model_info, with_slots, Probes, ModelInfo, is_filled, is_denied,
}

-- A slot of a list passes a test.
unfoldable pub some_slot : (ModelEntry → Bool) → List ModelEntry → Bool
some_slot p [] = false
some_slot p (e ∷ es) = p e || some_slot p es

unfoldable pub every_slot : (ModelEntry → Bool) → List ModelEntry → Bool
every_slot p [] = true
every_slot p (e ∷ es) = p e && every_slot p es

or_assoc : (a b c : Bool) → ((a || b) || c) ≡ (a || (b || c))
or_assoc true b c = refl
or_assoc false b c = refl

and_assoc : (a b c : Bool) → ((a && b) && c) ≡ (a && (b && c))
and_assoc true b c = refl
and_assoc false b c = refl

or_false : (b : Bool) → b ≡ (b || false)
or_false true = refl
or_false false = refl

and_true : (b : Bool) → b ≡ (b && true)
and_true true = refl
and_true false = refl

with_slots-lem :
    (info : ModelInfo) (es : List ModelEntry)
    → ((with_slots info es).images ≡ (info.images || some_slot (λ e. e.images) es))
      × ((with_slots info es).audio ≡ (info.audio || some_slot (λ e. e.audio) es))
      × ((with_slots info es).video ≡ (info.video || some_slot (λ e. e.video) es))
      × ((with_slots info es).thinking ≡ (info.thinking || some_slot (λ e. e.thinking) es))
      × ((with_slots info es).tools ≡ (info.tools && every_slot (λ e. e.tools) es))
      × ((with_slots info es).reasoning ≡ (info.reasoning && every_slot (λ e. e.reasoning) es))
unfolding with_slots some_slot every_slot
with_slots-lem info [] = (
  or_false info.images,
  or_false info.audio,
  or_false info.video,
  or_false info.thinking,
  and_true info.tools,
  and_true info.reasoning,
)
with_slots-lem info (e ∷ es) =
    let rest =
      with_slots-lem
        (record info {
          images = info.images || e.images;
          audio = info.audio || e.audio;
          video = info.video || e.video;
          thinking = info.thinking || e.thinking;
          tools = info.tools && e.tools;
          reasoning = info.reasoning && e.reasoning;
        })
        es in
    (
      rest.0 ∙ or_assoc info.images e.images (some_slot (λ f. f.images) es),
      rest.1 ∙ or_assoc info.audio e.audio (some_slot (λ f. f.audio) es),
      rest.2 ∙ or_assoc info.video e.video (some_slot (λ f. f.video) es),
      rest.3 ∙ or_assoc info.thinking e.thinking (some_slot (λ f. f.thinking) es),
      rest.4 ∙ and_assoc info.tools e.tools (every_slot (λ f. f.tools) es),
      rest.5 ∙ and_assoc info.reasoning e.reasoning (every_slot (λ f. f.reasoning) es),
    )

-- What a listing says of the slots of a model and of its last probe.
pub record IsHonest (es : List ModelEntry) (probe : Option Bool) (info : ModelInfo) : Type 0 where
  pub images_of_some : info.images ≡ some_slot (λ e. e.images) es
  pub audio_of_some : info.audio ≡ some_slot (λ e. e.audio) es
  pub video_of_some : info.video ≡ some_slot (λ e. e.video) es
  pub thinking_of_some : info.thinking ≡ some_slot (λ e. e.thinking) es
  pub tools_of_all :
      info.tools ≡ ((is_filled es && every_slot (λ e. e.tools) es) && not (is_denied probe))
  pub reasoning_of_all : info.reasoning ≡ (is_filled es && every_slot (λ e. e.reasoning) es)

abbrev pub no_probes : Probes
no_probes model = none

-- Probes recorded one after the other, and the last of them for a model.
unfoldable pub record_all : Probes → List (Bytes × Bool) → Probes
record_all probes [] = probes
record_all probes ((model, found) ∷ rest) = record_all (record_capability probes model found) rest

unfoldable pub last_probe : Option Bool → List (Bytes × Bool) → Bytes → Option Bool
last_probe before [] name = before
last_probe before ((model, found) ∷ rest) name =
    last_probe (if bytes_eq model name then some found else before) rest name

differs :
    (model name : Bytes)
    → bytes_eq model [] ≡ true
    → bytes_eq name [] ≡ false
    → bytes_eq model name ≡ false
unfolding bytes_eq
differs [] [] e h = absurd (cc)
differs [] (x ∷ xs) e h = refl
differs (m ∷ ms) name e h = absurd (cc)

record_capability-lem :
    (probes : Probes) (model : Bytes) (found : Bool) (name : Bytes)
    → bytes_eq name [] ≡ false
    → record_capability probes model found name
      ≡ (if bytes_eq model name then some found else probes name)
unfolding record_capability assign
record_capability-lem probes model found name named =
    if-split (λ (q : Probes). q name ≡ (if bytes_eq model name then some found else probes name))
      (bytes_eq model []) (λ e. rw (differs model name e named) refl) (λ e. refl)

record_all-lem :
    (probes : Probes) (history : List (Bytes × Bool)) (name : Bytes)
    → bytes_eq name [] ≡ false
    → record_all probes history name ≡ last_probe (probes name) history name
unfolding record_all last_probe
record_all-lem probes [] name named = refl
record_all-lem probes ((model, found) ∷ rest) name named =
    record_all-lem (record_capability probes model found) rest name named
    ∙ ap (λ o. last_probe o rest name) (record_capability-lem probes model found name named)

and_false : (b : Bool) → false ≡ (b && false)
and_false true = refl
and_false false = refl

model_info-lem :
    (models : List ModelEntry) (probes : Probes) (name : Bytes) (probe : Option Bool)
    → probes name ≡ probe
    → IsHonest (slots models name) probe (model_info models probes name)
unfolding model_info
model_info-lem models probes name probe e =
    let es : List ModelEntry = slots models name in
    let plain : ModelInfo = record {
      id = name;
      images = false;
      audio = false;
      video = false;
      thinking = false;
      tools = is_filled es;
      reasoning = is_filled es;
    } in
    let found = with_slots-lem plain es in
    let both : Bool = is_filled es && every_slot (λ s. s.tools) es in
    if-split (IsHonest es probe) (is_denied (probes name))
      (λ denied. record {
        images_of_some = found.0;
        audio_of_some = found.1;
        video_of_some = found.2;
        thinking_of_some = found.3;
        tools_of_all = and_false both ∙ ap (λ b. both && not b) (sym denied ∙ ap is_denied e);
        reasoning_of_all = found.5;
      })
      (λ allowed. record {
        images_of_some = found.0;
        audio_of_some = found.1;
        video_of_some = found.2;
        thinking_of_some = found.3;
        tools_of_all =
            found.4 ∙ and_true both ∙ ap (λ b. both && not b) (sym allowed ∙ ap is_denied e);
        reasoning_of_all = found.5;
      })

-- After any probes recorded, a model with a name that is not empty is listed with a medium or with
-- thinking exactly when some slot of it has that, with reasoning exactly when it has a slot and every
-- slot has that, and with tools exactly when moreover the last probe for it, if there was one, found
-- them.
pub model_info-IsHonest :
    (models : List ModelEntry) (history : List (Bytes × Bool)) (name : Bytes)
    → bytes_eq name [] ≡ false
    → IsHonest
        (slots models name)
        (last_probe none history name)
        (model_info models (record_all no_probes history) name)
model_info-IsHonest models history name named =
    model_info-lem models (record_all no_probes history) name (last_probe none history name)
      (record_all-lem no_probes history name named)
