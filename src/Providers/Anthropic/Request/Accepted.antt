-- ===== src/Providers/Anthropic/Request/Accepted.antt =====
-- internal/providers/anthropic.go, buildAnthropic: what the parts of a built request are.
use llm_pico.Common.{
  All-append, List, ℕ, ◌≡◌, All, none, some, ◌∷◌, [], false, refl, if-both, Option, if◌then◌else◌,
  ◌+◌, ◌||◌, ◌&&◌, option-both, not, if-split, ◌⊎◌, inr, inl,
}
use llm_pico.Common.Bytes.{bytes_eq, Bytes, codes}
use llm_pico.Providers.Anthropic.Request.{
  convert_parts, convert_part, turns_of, convert_content_parts, system_parts, tool_uses, turn_of,
  is_system, tool_result, is_tool_result,
}
use llm_pico.Providers.Chat.{
  ContentPart, ChatJson, text_part, ChatToolCall, ChatMessage, first_non_empty, is_null,
  flatten_text, MediaSource,
}
use llm_pico.Providers.Turns.{ChatTurn}
use llm_pico.Providers.Turns.Alternate.{tagged, flat}
use llm_pico.Proxy.Estimate.Media.{split_data_uri}

abbrev pub IsTurnRole : Bytes → Type 0
IsTurnRole role = (role ≡ codes "user") ⊎ (role ≡ codes "assistant")

-- A part that stands where Anthropic takes it: text and images in any turn, a call with an id in a turn
-- of the assistant, a result with the id of a call in one of the user, and no other part.
pub data IsPlaced (role : Bytes) (p : ContentPart) : Type 0 where
  text : IsTurnRole role → p.kind ≡ codes "text" → IsPlaced role p
  image :
      (s : MediaSource)
      → IsTurnRole role
      → p.kind ≡ codes "image"
      → p.source ≡ some s
      → IsPlaced role p
  call :
      role ≡ codes "assistant"
      → p.kind ≡ codes "tool_use"
      → bytes_eq p.id [] ≡ false
      → IsPlaced role p
  result :
      role ≡ codes "user"
      → p.kind ≡ codes "tool_result"
      → bytes_eq p.tool_use_id [] ≡ false
      → IsPlaced role p

-- A part without a breakpoint.
abbrev pub IsUnmarked : ContentPart → Type 0
IsUnmarked p = p.cache_control ≡ none

-- A part as it is before breakpoints.
abbrev pub IsFresh : Bytes → ContentPart → Type 0
IsFresh role p = IsUnmarked p × IsPlaced role p

abbrev pub OfPart : (ContentPart → Type 0) → Bytes × ContentPart → Type 0
OfPart Q x = Q x.1

abbrev pub InTurn : (Bytes → ContentPart → Type 0) → Bytes × ContentPart → Type 0
InTurn Q x = Q x.0 x.1

All-tagged :
    (Q : Bytes → ContentPart → Type 0) (role : Bytes) (ps : List ContentPart)
    → All (Q role) ps
    → All (InTurn Q) (tagged role ps)
unfolding tagged
All-tagged Q role [] h = tt
All-tagged Q role (p ∷ ps) h = (h.0, All-tagged Q role ps h.1)

All-parts :
    (xs : List (Bytes × ContentPart))
    → All (InTurn IsFresh) xs
    → All (OfPart IsUnmarked) xs × All (InTurn IsPlaced) xs
All-parts [] h = (tt, tt)
All-parts (x ∷ xs) h = let (us, ps) = All-parts xs h.1 in ((h.0.0, us), (h.0.1, ps))

module _ (role : Bytes) (known : IsTurnRole role) where
  abbrev IfFresh : Option ContentPart → Type 0
  IfFresh none = Unit {0}
  IfFresh (some p) = IsFresh role p

  convert_part-IfFresh : (p : ContentPart) → IfFresh (convert_part p)
  unfolding convert_part
  convert_part-IfFresh p =
      if-both IfFresh (bytes_eq p.kind (codes "text")) (refl, IsPlaced.text known refl)
        (if-both IfFresh
          (bytes_eq p.kind (codes "image_url") || bytes_eq p.kind (codes "input_image"))
          (option-both IfFresh p.image_url tt λ url.
            option-both IfFresh (split_data_uri url) tt
              λ found. (refl, IsPlaced.image _ known refl refl))
          tt)

  convert_parts-IsFresh : (ps : List ContentPart) → All (IsFresh role) (convert_parts ps)
  unfolding convert_parts
  convert_parts-IsFresh [] = tt
  convert_parts-IsFresh (p ∷ ps) =
      go (convert_part p) (convert_part-IfFresh p) (convert_parts-IsFresh ps)
    where
      rest : List ContentPart
      rest = convert_parts ps

      go :
          (o : Option ContentPart)
          → IfFresh o
          → All (IsFresh role) rest
          → All (IsFresh role) (elim o [ none ↦ rest | some q ↦ q ∷ rest ])
      go none h k = k
      go (some q) h k = (h, k)

module _ (json : ChatJson) (fresh : ℕ → ℕ → Bytes) where
  pub convert_content_parts-IsFresh :
      (role : Bytes)
      → IsTurnRole role
      → (raw : Bytes) → All (IsFresh role) (convert_content_parts json fresh raw)
  unfolding convert_content_parts
  convert_content_parts-IsFresh role known raw = if-both (All (IsFresh role)) (is_null raw) tt (
      option-both (All (IsFresh role)) (json.string raw)
        (option-both (All (IsFresh role)) (json.parts raw) tt
          λ ps. convert_parts-IsFresh role known ps)
        one)
    where
      one : (s : Bytes) → All (IsFresh role) (elim s [ [] ↦ [] | b ∷ bs ↦ text_part (b ∷ bs) ∷ [] ])
      one [] = tt
      one (b ∷ bs) = ((refl, IsPlaced.text known refl), tt)

  tool_uses-IsFresh :
      (i k : ℕ) (cs : List ChatToolCall)
      → All (IsFresh (codes "assistant")) (tool_uses json fresh i k cs)
  unfolding tool_uses bytes_eq
  tool_uses-IsFresh i k [] = tt
  tool_uses-IsFresh i k (c ∷ cs) = (
    (
      refl,
      IsPlaced.call refl refl (
          if-split (λ (id : Bytes). bytes_eq id [] ≡ false) (bytes_eq c.id []) (λ e. refl)
            (λ e. e)),
    ),
    tool_uses-IsFresh i (k + 1) cs,
  )

  abbrev pub IsFreshTurn : ChatTurn ContentPart → Type 0
  IsFreshTurn t = All (IsFresh t.role) t.parts

  pub turn_of-IsFreshTurn :
      (ids : Bytes → Bytes) (i : ℕ) (m : ChatMessage) → IsFreshTurn (turn_of json fresh ids i m)
  unfolding turn_of
  turn_of-IsFreshTurn ids i m =
      if-both IsFreshTurn (bytes_eq m.role (codes "assistant"))
        (All-append (IsFresh (codes "assistant")) (convert_content_parts json fresh m.content)
          (tool_uses json fresh i 0 m.tool_calls)
          (convert_content_parts-IsFresh (codes "assistant") (inr refl) m.content)
          (tool_uses-IsFresh i 0 m.tool_calls))
        (if-both IsFreshTurn (is_tool_result m) result
          (convert_content_parts-IsFresh (codes "user") (inl refl) m.content))
    where
      result : All (IsFresh (codes "user")) (
          if bytes_eq (first_non_empty (m.tool_call_id ∷ ids m.name ∷ [])) []
          then []
          else tool_result json fresh (first_non_empty (m.tool_call_id ∷ ids m.name ∷ [])) m.content
            ∷ [])
      result =
          if-split (All (IsFresh (codes "user")))
            (bytes_eq (first_non_empty (m.tool_call_id ∷ ids m.name ∷ [])) []) (λ e. tt)
            (λ e. ((refl, IsPlaced.result refl refl e), tt))

  turns_of-IsFresh :
      (ids : Bytes → Bytes) (i : ℕ) (ms : List ChatMessage)
      → All (InTurn IsFresh) (flat (turns_of json fresh ids i ms))
  unfolding turns_of flat
  turns_of-IsFresh ids i [] = tt
  turns_of-IsFresh ids i (m ∷ ms) =
      if-both (λ ts. All (InTurn IsFresh) (flat ts)) (is_system m) (turns_of-IsFresh ids (i + 1) ms)
        (All-append (InTurn IsFresh)
          (tagged (turn_of json fresh ids i m).role (turn_of json fresh ids i m).parts)
          (flat (turns_of json fresh ids (i + 1) ms))
          (All-tagged IsFresh (turn_of json fresh ids i m).role (turn_of json fresh ids i m).parts
            (turn_of-IsFreshTurn ids i m))
          (turns_of-IsFresh ids (i + 1) ms))

  pub turns_of-IsPlaced :
      (ids : Bytes → Bytes) (i : ℕ) (ms : List ChatMessage)
      → All (OfPart IsUnmarked) (flat (turns_of json fresh ids i ms))
        × All (InTurn IsPlaced) (flat (turns_of json fresh ids i ms))
  turns_of-IsPlaced ids i ms =
      All-parts (flat (turns_of json fresh ids i ms)) (turns_of-IsFresh ids i ms)

  pub system_parts-IsUnmarked :
      (ms : List ChatMessage) → All IsUnmarked (system_parts json fresh ms)
  unfolding system_parts
  system_parts-IsUnmarked [] = tt
  system_parts-IsUnmarked (m ∷ ms) =
      if-both (All IsUnmarked) (is_system m && not (bytes_eq (flatten_text json m.content) []))
        (refl, system_parts-IsUnmarked ms) (system_parts-IsUnmarked ms)
