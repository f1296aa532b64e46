-- ===== src/Providers/Anthropic/Request/Marked.antt =====
-- internal/providers/anthropic.go, injectCacheBreakpoints: what breakpoints leave of the messages of a
-- request.
use llm_pico.Common.{
  List, All, [], ◌≡◌, map, length, none, option-both, ◌∷◌, if-both, ◌++◌, ap, refl, arith, sym, suc,
}
use llm_pico.Common.Bytes.{Bytes}
use llm_pico.Providers.Anthropic.Breakpoints.{
  marked_parts, mark_last, Content, AnthropicMessage, mark_first, mark_part, message_count,
  mark_content, content_count, has_parts,
}
use llm_pico.Providers.Anthropic.Request.{in_turn, system_of}
use llm_pico.Providers.Anthropic.Request.Accepted.{OfPart, IsUnmarked}
use llm_pico.Providers.Chat.{ContentPart}
use llm_pico.Providers.Turns.{ChatTurn}
use llm_pico.Providers.Turns.Alternate.{flat, tagged, AreTurns, Follow}
use mathlib.Core.Path.{ap₂, subst}

abbrev pub clear_part : ContentPart → ContentPart
clear_part p = record p { cache_control = none }

abbrev pub parts_of : Content → List ContentPart
parts_of (Content.in_parts ps) = ps
parts_of Content.other_content = []

abbrev pub turn_view : AnthropicMessage → ChatTurn ContentPart
turn_view m = record { role = m.role; parts = parts_of m.content }

-- The parts of messages with their roles, in order and without breakpoints.
unfoldable pub sent : List AnthropicMessage → List (Bytes × ContentPart)
sent [] = []
sent (m ∷ ms) = tagged m.role (map clear_part (parts_of m.content)) ++ sent ms

clear_part-mark_part : (p : ContentPart) → clear_part (mark_part p) ≡ clear_part p
clear_part-mark_part p =
    option-both (λ (q : ContentPart). clear_part q ≡ clear_part p) p.cache_control refl (λ t. refl)

mark_last-clear : (ps : List ContentPart) → map clear_part (mark_last ps) ≡ map clear_part ps
unfolding mark_last
mark_last-clear [] = refl
mark_last-clear (p ∷ []) = ap (λ q. q ∷ []) (clear_part-mark_part p)
mark_last-clear (p ∷ q ∷ ps) = ap (λ qs. clear_part p ∷ qs) (mark_last-clear (q ∷ ps))

length-mark_last : (ps : List ContentPart) → length (mark_last ps) ≡ length ps
unfolding mark_last
length-mark_last [] = refl
length-mark_last (p ∷ []) = refl
length-mark_last (p ∷ q ∷ ps) = ap suc (length-mark_last (q ∷ ps))

mark_content-clear :
    (c : Content) → map clear_part (parts_of (mark_content c)) ≡ map clear_part (parts_of c)
mark_content-clear (Content.in_parts ps) = mark_last-clear ps
mark_content-clear Content.other_content = refl

length-mark_content : (c : Content) → length (parts_of (mark_content c)) ≡ length (parts_of c)
length-mark_content (Content.in_parts ps) = length-mark_last ps
length-mark_content Content.other_content = refl

-- A breakpoint changes no part otherwise.
pub sent-mark_first : (ms : List AnthropicMessage) → sent (mark_first ms) ≡ sent ms
unfolding sent mark_first
sent-mark_first [] = refl
sent-mark_first (m ∷ ms) =
    if-both (λ ns. sent ns ≡ sent (m ∷ ms)) (has_parts m.content)
      (ap (λ ps. tagged m.role ps ++ sent ms) (mark_content-clear m.content))
      (ap (λ r. tagged m.role (map clear_part (parts_of m.content)) ++ r) (sent-mark_first ms))

Follow-mark_first :
    (role : Bytes) (ms : List AnthropicMessage)
    → Follow role (map turn_view ms)
    → Follow role (map turn_view (mark_first ms))
unfolding mark_first
Follow-mark_first role [] h = tt
Follow-mark_first role (m ∷ ms) h =
    if-both (λ ns. Follow role (map turn_view ns)) (has_parts m.content)
      (h.0, omega (arith, length-mark_content m.content), h.2)
      (h.0, h.1, Follow-mark_first m.role ms h.2)

-- Nor the roles, and it takes no part away.
pub AreTurns-mark_first :
    (ms : List AnthropicMessage)
    → AreTurns (map turn_view ms)
    → AreTurns (map turn_view (mark_first ms))
unfolding mark_first
AreTurns-mark_first [] h = tt
AreTurns-mark_first (m ∷ ms) h =
    if-both (λ ns. AreTurns (map turn_view ns)) (has_parts m.content)
      (omega (arith, length-mark_content m.content), h.1) (h.0, Follow-mark_first m.role ms h.1)

turn_view-in_turn : (ts : List (ChatTurn ContentPart)) → map turn_view (map in_turn ts) ≡ ts
turn_view-in_turn [] = refl
turn_view-in_turn (t ∷ ts) = ap (λ us. t ∷ us) (turn_view-in_turn ts)

pub AreTurns-in_turn :
    (ts : List (ChatTurn ContentPart)) → AreTurns ts → AreTurns (map turn_view (map in_turn ts))
AreTurns-in_turn ts h = subst AreTurns (sym (turn_view-in_turn ts)) h

clear_parts-fresh : (ps : List ContentPart) → All IsUnmarked ps → map clear_part ps ≡ ps
clear_parts-fresh [] h = refl
clear_parts-fresh (p ∷ ps) h =
    ap₂ (λ q qs. q ∷ qs) (ap (λ c. record p { cache_control = c }) (sym h.0))
      (clear_parts-fresh ps h.1)

marked_parts-fresh : (ps : List ContentPart) → All IsUnmarked ps → marked_parts ps ≡ 0
unfolding marked_parts
marked_parts-fresh [] h = refl
marked_parts-fresh (p ∷ ps) h = ground (arith, h.0, marked_parts-fresh ps h.1)

All-untagged :
    (role : Bytes) (ps : List ContentPart) (xs : List (Bytes × ContentPart))
    → All (OfPart IsUnmarked) (tagged role ps ++ xs)
    → All IsUnmarked ps × All (OfPart IsUnmarked) xs
unfolding tagged
All-untagged role [] xs h = (tt, h)
All-untagged role (p ∷ ps) xs h = let (k, l) = All-untagged role ps xs h.1 in ((h.0, k), l)

-- Messages made of turns without breakpoints have none, and their parts are those of the turns.
pub in_turn-fresh :
    (ts : List (ChatTurn ContentPart))
    → All (OfPart IsUnmarked) (flat ts)
    → (sent (map in_turn ts) ≡ flat ts) × (message_count (map in_turn ts) ≡ 0)
unfolding sent flat message_count
in_turn-fresh [] h = (refl, refl)
in_turn-fresh (t ∷ ts) h =
    let (parts, rest) = All-untagged t.role t.parts (flat ts) h in
    let (same, unmarked) = in_turn-fresh ts rest in
    (
      ap₂ (λ ps r. tagged t.role ps ++ r) (clear_parts-fresh t.parts parts) same,
      omega (arith, marked_parts-fresh t.parts parts, unmarked),
    )

pub system_of-fresh : (ps : List ContentPart) → All IsUnmarked ps → content_count (system_of ps) ≡ 0
system_of-fresh [] h = refl
system_of-fresh (p ∷ ps) h = marked_parts-fresh (p ∷ ps) h
