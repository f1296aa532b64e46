-- ===== src/Providers/Gemini/Request/Sendable.antt =====
-- internal/providers/gemini.go, toGemini: what the parts of a request are.
use llm_pico.Common.{
  ◌≡◌, Option, ◌||◌, List, some, none, Bool, All, if-both, [], true, map, ◌∷◌, option-both, false,
  if-split, All-append, refl,
}
use llm_pico.Common.Bytes.{Bytes, bytes_eq, codes}
use llm_pico.Providers.Anthropic.Request.{is_tool_result}
use llm_pico.Providers.Chat.{
  ChatJson, first_non_empty, ContentPart, tool_arguments, ChatToolCall, ChatMessage, ObjectReading,
  wrapped, is_null,
}
use llm_pico.Providers.Gemini.{GeminiPart, FunctionCall, FunctionResult}
use llm_pico.Providers.Gemini.Request.{
  gemini_part, gemini_parts, convert_gemini_parts, gemini_turn, gemini_turns, result_part,
  words_part, call_part, is_instruction,
}
use llm_pico.Providers.Turns.{ChatTurn}
use llm_pico.Providers.Turns.Alternate.{tagged, flat}
use llm_pico.Proxy.Estimate.Media.{split_data_uri}
use mathlib.Core.Option.{some-injective}
use mathlib.Core.Path.{subst}

abbrev pub is_model : Bytes → Bool
is_model role = bytes_eq role (codes "model")

abbrev pub is_user : Bytes → Bool
is_user role = bytes_eq role (codes "user")

-- A part of a turn with the role `role` that Gemini accepts: a call stands in a turn of the model and
-- has a signature and arguments, a result stands in a turn of the user and has a name, and no other
-- part has a signature; no part is a thought.
pub record IsSendable (role : Bytes) (p : GeminiPart) : Type 0 where
  pub has_role : (is_model role || is_user role) ≡ true
  pub call_signed :
      (c : FunctionCall)
      → p.function_call ≡ some c
      → (is_model role ≡ true)
        × (bytes_eq p.thought_signature [] ≡ false)
        × (bytes_eq c.args [] ≡ false)
  pub result_named :
      (f : FunctionResult)
      → p.function_response ≡ some f
      → (is_user role ≡ true) × (bytes_eq f.name [] ≡ false)
  pub bare : p.function_call ≡ none → p.thought_signature ≡ []
  pub spoken : p.thought ≡ false

-- A part with neither a call nor a result.
abbrev IsPlain : GeminiPart → Type 0
IsPlain p =
    (p.function_call ≡ none)
    × (p.function_response ≡ none)
    × (p.thought_signature ≡ [])
    × (p.thought ≡ false)

IsPlain-IsSendable :
    (role : Bytes) (p : GeminiPart)
    → (is_model role || is_user role) ≡ true
    → IsPlain p
    → IsSendable role p
IsPlain-IsSendable role p known plain = record {
  has_role = known;
  call_signed = λ c h. absurd (cc);
  result_named = λ f h. absurd (cc);
  bare = λ h. plain.2;
  spoken = plain.3;
}

abbrev IfPlain : Option GeminiPart → Type 0
IfPlain none = Unit {0}
IfPlain (some p) = IsPlain p

gemini_part-IfPlain : (p : ContentPart) → IfPlain (gemini_part p)
unfolding gemini_part
gemini_part-IfPlain p =
    if-both IfPlain (bytes_eq p.kind (codes "text")) (refl, refl, refl, refl)
      (if-both IfPlain
        (bytes_eq p.kind (codes "image_url") || bytes_eq p.kind (codes "input_image"))
        (option-both IfPlain p.image_url tt
          λ url. option-both IfPlain (split_data_uri url) tt λ found. (refl, refl, refl, refl))
        (if-both IfPlain (bytes_eq p.kind (codes "input_audio"))
          (option-both IfPlain p.input_audio tt
            λ audio. if-both IfPlain (bytes_eq audio.payload []) tt (refl, refl, refl, refl))
          tt))

gemini_parts-IsPlain : (ps : List ContentPart) → All IsPlain (gemini_parts ps)
unfolding gemini_parts
gemini_parts-IsPlain [] = tt
gemini_parts-IsPlain (p ∷ ps) = go (gemini_part p) (gemini_part-IfPlain p) (gemini_parts-IsPlain ps)
  where
    rest : List GeminiPart
    rest = gemini_parts ps

    go :
        (o : Option GeminiPart)
        → IfPlain o
        → All IsPlain rest
        → All IsPlain (elim o [ none ↦ rest | some q ↦ q ∷ rest ])
    go none h k = k
    go (some q) h k = (h, k)

All-IsSendable :
    (role : Bytes) (ps : List GeminiPart)
    → (is_model role || is_user role) ≡ true
    → All IsPlain ps
    → All (IsSendable role) ps
All-IsSendable role [] known h = tt
All-IsSendable role (p ∷ ps) known h =
    (IsPlain-IsSendable role p known h.0, All-IsSendable role ps known h.1)

-- A part with the role of its turn.
abbrev pub CanSend : Bytes × GeminiPart → Type 0
CanSend x = IsSendable x.0 x.1

All-tagged :
    (role : Bytes) (ps : List GeminiPart) → All (IsSendable role) ps → All CanSend (tagged role ps)
unfolding tagged
All-tagged role [] h = tt
All-tagged role (p ∷ ps) h = (h.0, All-tagged role ps h.1)

first_non_empty-ends :
    (a b c d : Bytes)
    → bytes_eq d [] ≡ false
    → bytes_eq (first_non_empty (a ∷ b ∷ c ∷ d ∷ [])) [] ≡ false
unfolding first_non_empty
first_non_empty-ends a b c d h =
    if-split (λ (v : Bytes). bytes_eq v [] ≡ false) (bytes_eq a [])
      (λ _.
        if-split (λ (v : Bytes). bytes_eq v [] ≡ false) (bytes_eq b [])
          (λ _.
            if-split (λ (v : Bytes). bytes_eq v [] ≡ false) (bytes_eq c [])
              (λ _.
                if-split (λ (v : Bytes). bytes_eq v [] ≡ false) (bytes_eq d []) (λ e. absurd (cc))
                  (λ e. e))
              (λ e. e))
          (λ e. e))
      (λ e. e)

module _ (json : ChatJson) where
  convert_gemini_parts-IsPlain : (raw : Bytes) → All IsPlain (convert_gemini_parts json raw)
  unfolding convert_gemini_parts
  convert_gemini_parts-IsPlain raw = if-both (All IsPlain) (is_null raw) tt (
      option-both (All IsPlain) (json.string raw)
        (option-both (All IsPlain) (json.parts raw) tt λ ps. gemini_parts-IsPlain ps) one)
    where
      one : (s : Bytes) → All IsPlain (elim s [ [] ↦ [] | b ∷ bs ↦ words_part (b ∷ bs) ∷ [] ])
      one [] = tt
      one (b ∷ bs) = ((refl, refl, refl, refl), tt)

  tool_arguments-filled : (raw : Bytes) → bytes_eq (tool_arguments json raw) [] ≡ false
  unfolding tool_arguments bytes_eq
  tool_arguments-filled raw =
      if-split (λ (v : Bytes). bytes_eq v [] ≡ false) (bytes_eq raw []) (λ e. refl)
        λ e. filled e (json.reading raw)
    where
      filled :
          bytes_eq raw [] ≡ false
          → (o : ObjectReading)
          → bytes_eq
              (elim o [
                | ObjectReading.an_object ↦ raw
                | ObjectReading.a_null ↦ codes "{}"
                | ObjectReading.not_object ↦ elim (json.value raw) [
                  | some v ↦ wrapped (codes "value") v
                  | none ↦ codes "{}"
                ]
              ])
              []
            ≡ false
      filled e ObjectReading.an_object = e
      filled e ObjectReading.a_null = refl
      filled e ObjectReading.not_object =
          option-both (λ (v : Bytes). bytes_eq v [] ≡ false) (json.value raw) refl (λ v. refl)

  calls-IsSendable :
      (cs : List ChatToolCall) → All (IsSendable (codes "model")) (map (call_part json) cs)
  unfolding bytes_eq
  calls-IsSendable [] = tt
  calls-IsSendable (c ∷ cs) = (
    record {
      has_role = refl;
      call_signed = λ d h. (
        refl,
        if-split (λ (v : Bytes). bytes_eq v [] ≡ false) (bytes_eq c.thought_signature [])
            (λ e. refl) (λ e. e),
        subst (λ (f : FunctionCall). bytes_eq f.args [] ≡ false) (some-injective _ d h)
            (tool_arguments-filled c.arguments),
      );
      result_named = λ f h. absurd (cc);
      bare = λ h. absurd (cc);
      spoken = refl;
    },
    calls-IsSendable cs,
  )

  result-IsSendable :
      (names : Bytes → Bytes) (m : ChatMessage)
      → IsSendable (codes "user") (result_part json names m)
  unfolding bytes_eq
  result-IsSendable names m = record {
    has_role = refl;
    call_signed = λ d h. absurd (cc);
    result_named = λ f h. (
      refl,
      subst (λ (g : FunctionResult). bytes_eq g.name [] ≡ false) (some-injective _ f h)
          (first_non_empty-ends m.name (names m.tool_call_id) m.tool_call_id (codes "function")
            refl),
    );
    bare = λ h. refl;
    spoken = refl;
  }

  gemini_turn-IsSendable :
      (names : Bytes → Bytes) (m : ChatMessage)
      → All (IsSendable (gemini_turn json names m).role) (gemini_turn json names m).parts
  unfolding gemini_turn bytes_eq
  gemini_turn-IsSendable names m =
      if-both (λ (t : ChatTurn GeminiPart). All (IsSendable t.role) t.parts)
        (bytes_eq m.role (codes "assistant"))
        (All-append (IsSendable (codes "model")) (convert_gemini_parts json m.content)
          (map (call_part json) m.tool_calls)
          (All-IsSendable (codes "model") (convert_gemini_parts json m.content) refl
            (convert_gemini_parts-IsPlain m.content))
          (calls-IsSendable m.tool_calls))
        (if-both (λ (t : ChatTurn GeminiPart). All (IsSendable t.role) t.parts) (is_tool_result m)
          (result-IsSendable names m, tt)
          (All-IsSendable (codes "user") (convert_gemini_parts json m.content) refl
            (convert_gemini_parts-IsPlain m.content)))

  pub gemini_turns-IsSendable :
      (names : Bytes → Bytes) (ms : List ChatMessage)
      → All CanSend (flat (gemini_turns json names ms))
  unfolding gemini_turns flat
  gemini_turns-IsSendable names [] = tt
  gemini_turns-IsSendable names (m ∷ ms) =
      if-both (λ ts. All CanSend (flat ts)) (is_instruction m) (gemini_turns-IsSendable names ms)
        (All-append CanSend
          (tagged (gemini_turn json names m).role (gemini_turn json names m).parts)
          (flat (gemini_turns json names ms))
          (All-tagged (gemini_turn json names m).role (gemini_turn json names m).parts
            (gemini_turn-IsSendable names m))
          (gemini_turns-IsSendable names ms))
