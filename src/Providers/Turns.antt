-- ===== src/Providers/Turns.antt =====
-- The end of the loops over the messages in buildAnthropic of internal/providers/anthropic.go and
-- toGemini of internal/providers/gemini.go: a turn without parts is skipped, and one of the same role
-- as the turn before it becomes a part of that.
pub mod Alternate
use llm_pico.Common.{List, [], ◌∷◌, if◌then◌else◌, ◌++◌}
use llm_pico.Common.Bytes.{Bytes, bytes_eq}

pub record ChatTurn (P : Type 0) : Type 0 where
  pub role : Bytes
  pub parts : List P

module _ {P : Type 0} where
  -- The turns with one more at their end.
  unfoldable pub add_turn : List (ChatTurn P) → ChatTurn P → List (ChatTurn P)
  add_turn [] t = t ∷ []
  add_turn (m ∷ []) t =
      if bytes_eq m.role t.role then record m { parts = m.parts ++ t.parts } ∷ [] else m ∷ t ∷ []
  add_turn (m ∷ n ∷ ms) t = m ∷ add_turn (n ∷ ms) t

  unfoldable pub push_turn : List (ChatTurn P) → ChatTurn P → List (ChatTurn P)
  push_turn ms t = elim t.parts [ [] ↦ ms | p ∷ ps ↦ add_turn ms t ]

  unfoldable pub push_turns : List (ChatTurn P) → List (ChatTurn P) → List (ChatTurn P)
  push_turns ms [] = ms
  push_turns ms (t ∷ ts) = push_turns (push_turn ms t) ts
