-- ===== src/Providers/Turns/Alternate.antt =====
-- Turns that are pushed one after the other: their roles alternate, and their parts are those pushed.
use llm_pico.Common.{
  List, ◌<◌, ◌∷◌, ◌≡◌, ◌++◌, length, ap, sym, Bool-cases, [], arith, inl, ◌∙◌, false, refl,
  length-append, inr,
}
use llm_pico.Common.Bytes.{Bytes, bytes_eq, bytes_eq→eq}
use llm_pico.Providers.Turns.{push_turn, add_turn, push_turns, ChatTurn}
use mathlib.Core.List.{append-nil, append_assoc}
use mathlib.Core.Path.{ap₂}

abbrev pub HasPart : {P : Type 0} → ChatTurn P → Type 0
HasPart m = 0 < length m.parts

-- Turns that have parts, where none has the role of the one before it; `role` is that of the one before
-- the first.
abbrev pub Follow : {P : Type 0} → Bytes → List (ChatTurn P) → Type 0
Follow role [] = Unit {0}
Follow role (m ∷ ms) = (bytes_eq role m.role ≡ false) × HasPart m × Follow m.role ms

abbrev pub AreTurns : {P : Type 0} → List (ChatTurn P) → Type 0
AreTurns [] = Unit {0}
AreTurns (m ∷ ms) = HasPart m × Follow m.role ms

-- Parts with the role of their turn, in order.
unfoldable pub tagged : {P : Type 0} → Bytes → List P → List (Bytes × P)
tagged role [] = []
tagged role (p ∷ ps) = (role, p) ∷ tagged role ps

unfoldable pub flat : {P : Type 0} → List (ChatTurn P) → List (Bytes × P)
flat [] = []
flat (m ∷ ms) = tagged m.role m.parts ++ flat ms

module _ {P : Type 0} where
  tagged-append :
      (role : Bytes) (ps qs : List P) → tagged role (ps ++ qs) ≡ tagged role ps ++ tagged role qs
  unfolding tagged
  tagged-append role [] qs = refl
  tagged-append role (p ∷ ps) qs = ap (λ r. (role, p) ∷ r) (tagged-append role ps qs)

  add_turn-Follow :
      (role : Bytes) (m t : ChatTurn P) (ms : List (ChatTurn P))
      → Follow role (m ∷ ms)
      → HasPart t
      → Follow role (add_turn (m ∷ ms) t)
  unfolding add_turn
  add_turn-Follow role m t [] h k = elim (Bool-cases (bytes_eq m.role t.role)) [
    | inl same ↦ rw same (h.0, omega (arith, length-append m.parts t.parts), tt)
    | inr other ↦ rw other (h.0, h.1, (other, k, tt))
  ]
  add_turn-Follow role m t (n ∷ ms) h k = (h.0, h.1, add_turn-Follow m.role n t ms h.2 k)

  add_turn-AreTurns :
      (t : ChatTurn P) (ms : List (ChatTurn P)) → AreTurns ms → HasPart t → AreTurns (add_turn ms t)
  unfolding add_turn
  add_turn-AreTurns t [] h k = (k, tt)
  add_turn-AreTurns t (m ∷ []) h k = elim (Bool-cases (bytes_eq m.role t.role)) [
    | inl same ↦ rw same (omega (arith, length-append m.parts t.parts), tt)
    | inr other ↦ rw other (h.0, (other, k, tt))
  ]
  add_turn-AreTurns t (m ∷ n ∷ ms) h k = (h.0, add_turn-Follow m.role n t ms h.1 k)

  flat-add_turn :
      (t : ChatTurn P) (ms : List (ChatTurn P))
      → flat (add_turn ms t) ≡ flat ms ++ tagged t.role t.parts
  unfolding add_turn flat
  flat-add_turn t [] = append-nil (tagged t.role t.parts)
  flat-add_turn t (m ∷ []) = elim (Bool-cases (bytes_eq m.role t.role)) [
    | inl same ↦ rw same (
        append-nil (tagged m.role (m.parts ++ t.parts))
        ∙ tagged-append m.role m.parts t.parts
        ∙ ap₂ (λ l r. l ++ tagged r t.parts) (sym (append-nil (tagged m.role m.parts)))
            (bytes_eq→eq m.role t.role same))
    | inr other ↦ rw other (
        ap (λ r. tagged m.role m.parts ++ r) (append-nil (tagged t.role t.parts))
        ∙ ap (λ l. l ++ tagged t.role t.parts) (sym (append-nil (tagged m.role m.parts))))
  ]
  flat-add_turn t (m ∷ n ∷ ms) =
      ap (λ r. tagged m.role m.parts ++ r) (flat-add_turn t (n ∷ ms))
      ∙ sym (append_assoc (tagged m.role m.parts) (flat (n ∷ ms)) (tagged t.role t.parts))

  push_turn-lem :
      (t : ChatTurn P) (ms : List (ChatTurn P))
      → AreTurns ms
      → AreTurns (push_turn ms t) × (flat (push_turn ms t) ≡ flat ms ++ tagged t.role t.parts)
  unfolding push_turn tagged
  push_turn-lem t ms h = go t.parts refl
    where
      go :
          (ps : List P)
          → t.parts ≡ ps
          → AreTurns (elim ps [ [] ↦ ms | p ∷ qs ↦ add_turn ms t ])
            × (flat (elim ps [ [] ↦ ms | p ∷ qs ↦ add_turn ms t ])
                ≡ flat ms ++ tagged t.role t.parts)
      go [] e = (h, rw e (sym (append-nil (flat ms))))
      go (p ∷ qs) e = (add_turn-AreTurns t ms h (rw e (omega arith)), flat-add_turn t ms)

  pub push_turns-lem :
      (ms ts : List (ChatTurn P))
      → AreTurns ms
      → AreTurns (push_turns ms ts) × (flat (push_turns ms ts) ≡ flat ms ++ flat ts)
  unfolding push_turns flat
  push_turns-lem ms [] h = (h, sym (append-nil (flat ms)))
  push_turns-lem ms (t ∷ ts) h =
      let (turns, same) = push_turn-lem t ms h in
      let (all, whole) = push_turns-lem (push_turn ms t) ts turns in
      (
        all,
        whole
            ∙ ap (λ l. l ++ flat ts) same
            ∙ append_assoc (flat ms) (tagged t.role t.parts) (flat ts),
      )
