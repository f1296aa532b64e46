-- ===== src/Providers/Anthropic/Request/Called.antt =====
-- internal/providers/anthropic.go, buildAnthropic: the calls of tools in a built request.
use llm_pico.Common.{
  List, ℕ, ◌≡◌, All, ◌∷◌, [], ◌++◌, refl, ap, map, true, false, Bool-cases, if◌then◌else◌, ◌+◌, inl,
  inr, if-both, ◌∙◌, ◌||◌,
}
use llm_pico.Common.Bytes.{bytes_eq, Bytes, codes, bytes_eq→eq}
use llm_pico.Providers.Anthropic.Request.{
  turns_of, convert_content_parts, tool_uses, turn_of, is_system, is_tool_result,
}
use llm_pico.Providers.Anthropic.Request.Accepted.{
  IsFresh, IsPlaced, convert_content_parts-IsFresh, turn_of-IsFreshTurn,
}
use llm_pico.Providers.Chat.{ContentPart, ChatJson, ChatToolCall, ChatMessage}
use llm_pico.Providers.Turns.{ChatTurn}
use llm_pico.Providers.Turns.Alternate.{tagged, flat}
use mathlib.Core.Path.{ap₂, subst}

-- The names of the tools that parts call, in their order.
unfoldable pub calls_in : List (Bytes × ContentPart) → List Bytes
calls_in [] = []
calls_in (x ∷ xs) =
    let rest = calls_in xs in if bytes_eq x.1.kind (codes "tool_use") then x.1.name ∷ rest else rest

-- The names of the tools that the assistant called in a conversation, in their order.
unfoldable pub asked : List ChatMessage → List Bytes
asked [] = []
asked (m ∷ ms) =
    let rest = asked ms in
    if bytes_eq m.role (codes "assistant")
    then map (λ (c : ChatToolCall). c.function_name) m.tool_calls ++ rest
    else rest

calls_in-append :
    (xs ys : List (Bytes × ContentPart)) → calls_in (xs ++ ys) ≡ calls_in xs ++ calls_in ys
unfolding calls_in
calls_in-append [] ys = refl
calls_in-append (x ∷ xs) ys = elim (Bool-cases (bytes_eq x.1.kind (codes "tool_use"))) [
  | inl e ↦ rw e (ap (λ r. x.1.name ∷ r) (calls_in-append xs ys))
  | inr e ↦ rw e (calls_in-append xs ys)
]

tagged-append :
    {P : Type 0} (role : Bytes) (ps qs : List P)
    → tagged role (ps ++ qs) ≡ tagged role ps ++ tagged role qs
unfolding tagged
tagged-append role [] qs = refl
tagged-append role (p ∷ ps) qs = ap (λ r. (role, p) ∷ r) (tagged-append role ps qs)

user_part :
    (p : ContentPart) → IsPlaced (codes "user") p → bytes_eq p.kind (codes "tool_use") ≡ false
unfolding bytes_eq
user_part p (IsPlaced.text known e) = ap (λ k. bytes_eq k (codes "tool_use")) e
user_part p (IsPlaced.image s known e f) = ap (λ k. bytes_eq k (codes "tool_use")) e
user_part p (IsPlaced.call role e f) = absurd (cc)
user_part p (IsPlaced.result role e f) = ap (λ k. bytes_eq k (codes "tool_use")) e

-- Parts that may stand in a turn of the user are no calls.
no_calls :
    (role : Bytes) (ps : List ContentPart)
    → All (IsFresh (codes "user")) ps
    → calls_in (tagged role ps) ≡ []
unfolding calls_in tagged
no_calls role [] h = refl
no_calls role (p ∷ ps) h = rw (user_part p h.0.1) (no_calls role ps h.1)

module _ (json : ChatJson) (fresh : ℕ → ℕ → Bytes) where
  calls_in-tool_uses :
      (role : Bytes) (i k : ℕ) (cs : List ChatToolCall)
      → calls_in (tagged role (tool_uses json fresh i k cs))
        ≡ map (λ (c : ChatToolCall). c.function_name) cs
  unfolding calls_in tagged tool_uses bytes_eq
  calls_in-tool_uses role i k [] = refl
  calls_in-tool_uses role i k (c ∷ cs) =
      ap (λ r. c.function_name ∷ r) (calls_in-tool_uses role i (k + 1) cs)

  assistant_turn :
      (ids : Bytes → Bytes) (i : ℕ) (m : ChatMessage)
      → bytes_eq m.role (codes "assistant") ≡ true
      → calls_in (tagged (turn_of json fresh ids i m).role (turn_of json fresh ids i m).parts)
        ≡ map (λ (c : ChatToolCall). c.function_name) m.tool_calls
  unfolding turn_of
  assistant_turn ids i m e =
      let parts = convert_content_parts json fresh m.content in
      let uses = tool_uses json fresh i 0 m.tool_calls in
      let view : turn_of json fresh ids i m
          ≡ record { role = codes "assistant"; parts = parts ++ uses } =
        rw (turn_of, e) refl in
      ap (λ (t : ChatTurn ContentPart). calls_in (tagged t.role t.parts)) view
      ∙ ap calls_in (tagged-append (codes "assistant") parts uses)
      ∙ calls_in-append (tagged (codes "assistant") parts) (tagged (codes "assistant") uses)
      ∙ ap₂ (λ xs ys. xs ++ ys)
          (no_calls (codes "assistant") parts
            (convert_content_parts-IsFresh json fresh (codes "user") (inl refl) m.content))
          (calls_in-tool_uses (codes "assistant") i 0 m.tool_calls)

  user_turn :
      (ids : Bytes → Bytes) (i : ℕ) (m : ChatMessage)
      → bytes_eq m.role (codes "assistant") ≡ false
      → calls_in (tagged (turn_of json fresh ids i m).role (turn_of json fresh ids i m).parts) ≡ []
  unfolding turn_of
  user_turn ids i m e =
      let role : (turn_of json fresh ids i m).role ≡ codes "user" =
        rw (turn_of, e)
          (if-both (λ (t : ChatTurn ContentPart). t.role ≡ codes "user") (is_tool_result m) refl
            refl) in
      no_calls (turn_of json fresh ids i m).role (turn_of json fresh ids i m).parts (
        subst (λ r. All (IsFresh r) (turn_of json fresh ids i m).parts) role
          (turn_of-IsFreshTurn json fresh ids i m))

  no_system : (m : ChatMessage) → is_system m ≡ true → bytes_eq m.role (codes "assistant") ≡ false
  unfolding bytes_eq
  no_system m e = elim (Bool-cases (bytes_eq m.role (codes "assistant"))) [
    | inr other ↦ other
    | inl same ↦
        let role = bytes_eq→eq m.role (codes "assistant") same in
        let none_of : is_system m ≡ false =
          ap (λ r. bytes_eq r (codes "system") || bytes_eq r (codes "developer")) role in
        absurd (cc)
  ]

  -- A conversation's calls are those of its turns.
  pub calls_in-turns_of :
      (ids : Bytes → Bytes) (i : ℕ) (ms : List ChatMessage)
      → calls_in (flat (turns_of json fresh ids i ms)) ≡ asked ms
  unfolding turns_of flat asked calls_in
  calls_in-turns_of ids i [] = refl
  calls_in-turns_of ids i (m ∷ ms) =
      let rest = calls_in-turns_of ids (i + 1) ms in
      let t = turn_of json fresh ids i m in
      let turn : calls_in (tagged t.role t.parts ++ flat (turns_of json fresh ids (i + 1) ms))
          ≡ calls_in (tagged t.role t.parts) ++ asked ms =
        calls_in-append (tagged t.role t.parts) (flat (turns_of json fresh ids (i + 1) ms))
        ∙ ap (λ r. calls_in (tagged t.role t.parts) ++ r) rest in
      elim (Bool-cases (is_system m)) [
        | inl system ↦ rw (system, no_system m system) rest
        | inr other ↦ rw other (
            turn ∙ elim (Bool-cases (bytes_eq m.role (codes "assistant"))) [
              | inl e ↦ rw e (ap (λ r. r ++ asked ms) (assistant_turn ids i m e))
              | inr e ↦ rw e (ap (λ r. r ++ asked ms) (user_turn ids i m e))
            ])
      ]
