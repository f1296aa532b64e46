-- ===== src/Common/Text.antt =====
-- The functions of Go's package strings that the program calls, on bytes: ASCII white space and
-- letters only.
use llm_pico.Common.{ℕ, List, ◌∷◌, if◌then◌else◌, Bool, ◌==◌, [], ◌||◌, leb, true, ◌&&◌, false, ◌+◌}
use llm_pico.Common.Bytes.{Bytes}

abbrev pub is_space : ℕ → Bool
is_space b = b == 32 || (leb 9 b && leb b 13)

unfoldable pub trim_left : Bytes → Bytes
trim_left [] = []
trim_left (b ∷ bs) = let rest = trim_left bs in if is_space b then rest else b ∷ bs

-- Without the white space at its end.
unfoldable pub trim_right : Bytes → Bytes
trim_right [] = []
trim_right (b ∷ bs) = elim (trim_right bs) [
  | [] ↦ if is_space b then [] else b ∷ []
  | c ∷ cs ↦ b ∷ c ∷ cs
]

-- `strings.TrimSpace`.
unfoldable pub trim_space : Bytes → Bytes
trim_space s = trim_right (trim_left s)

-- `strings.Split` at each ','.
unfoldable pub split : Bytes → Bytes × List Bytes
split [] = ([], [])
split (b ∷ bs) =
    let (part, parts) = split bs in if b == b',' then ([], part ∷ parts) else (b ∷ part, parts)

unfoldable pub drop_empty : List Bytes → List Bytes
drop_empty [] = []
drop_empty (p ∷ ps) =
    let rest = drop_empty ps in elim (trim_space p) [ [] ↦ rest | b ∷ bs ↦ (b ∷ bs) ∷ rest ]

-- `strings.ToLower` on ASCII, and `strings.Contains`.
abbrev pub lower_byte : ℕ → ℕ
lower_byte b = if leb b'A' b && leb b b'Z' then b + 32 else b

unfoldable pub lower : Bytes → Bytes
lower [] = []
lower (b ∷ bs) = lower_byte b ∷ lower bs

unfoldable pub has_prefix : Bytes → Bytes → Bool
has_prefix s [] = true
has_prefix [] (p ∷ ps) = false
has_prefix (b ∷ bs) (p ∷ ps) = b == p && has_prefix bs ps

unfoldable pub contains : Bytes → Bytes → Bool
unfolding has_prefix
contains [] needle = has_prefix [] needle
contains (b ∷ bs) needle = has_prefix (b ∷ bs) needle || contains bs needle
