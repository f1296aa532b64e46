-- ===== src/RateLimit/Keys.antt =====
-- internal/ratelimit/ratelimit.go: comparing windows, levels and counter keys.
use llm_pico.Common.{◌≡◌, Bool, true, false, ◌&&◌, not, List, [], ◌∷◌, arith, ◌||◌}
use llm_pico.Common.Bytes.{bytes_eq→eq, bytes_eq_refl}
use llm_pico.RateLimit.Types.{
  Window, Level, Label, Cell, CellKey, at, level_eq, window_eq, key_eq, label_eq,
}

pub window_eq→eq : (a b : Window) → window_eq a b ≡ true → a ≡ b
unfolding window_eq
window_eq→eq a b h = ground arith

pub window_eq_refl : (a : Window) → window_eq a a ≡ true
unfolding window_eq
window_eq_refl a = ground arith

pub level_eq→eq : (a b : Level) → level_eq a b ≡ true → a ≡ b
unfolding level_eq
level_eq→eq a b h = ground arith

pub level_eq_refl : (a : Level) → level_eq a a ≡ true
unfolding level_eq
level_eq_refl a = ground arith

pub label_eq→eq : (a b : Label) → label_eq a b ≡ true → a ≡ b
unfolding label_eq
label_eq→eq a b h = ground arith

pub label_eq_refl : (a : Label) → label_eq a a ≡ true
unfolding label_eq
label_eq_refl a = ground arith

pub key_eq→eq : (a b : CellKey) → key_eq a b ≡ true → a ≡ b
unfolding key_eq
key_eq→eq a b h = ground (
  arith,
  bytes_eq→eq a.key_hash b.key_hash,
  bytes_eq→eq a.model_name b.model_name,
  bytes_eq→eq a.slot b.slot,
  level_eq→eq a.level b.level,
  window_eq→eq a.window b.window,
)

pub key_eq_refl : (a : CellKey) → key_eq a a ≡ true
unfolding key_eq
key_eq_refl a = ground (
  arith,
  bytes_eq_refl a.key_hash,
  bytes_eq_refl a.model_name,
  bytes_eq_refl a.slot,
  level_eq_refl a.level,
  window_eq_refl a.window,
)

-- Two keys of one cell differ by the window alone.
pub key_eq-at : (c : Cell) (v w : Window) → key_eq (at c v) (at c w) ≡ window_eq v w
unfolding key_eq
key_eq-at c v w = ground (
  arith,
  bytes_eq_refl c.key_hash,
  bytes_eq_refl c.model_name,
  bytes_eq_refl c.slot,
  level_eq_refl c.level,
)

abbrev pub has_window : Window → List Window → Bool
has_window w [] = false
has_window w (v ∷ vs) = window_eq v w || has_window w vs

-- No window stands twice.
abbrev pub distinct : List Window → Bool
distinct [] = true
distinct (w ∷ ws) = not (has_window w ws) && distinct ws
