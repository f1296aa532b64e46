-- ===== src/RateLimit/Charges.antt =====
-- internal/ratelimit/ratelimit.go: ledgers with the charges of some windows of one cell put in, the
-- independent description that the loops of the limiter are compared with.
use mathlib.Core.Path.{fun_ext}
use llm_pico.Common.{
  ℕ, ◌+◌, ◌≡◌, refl, ◌∙◌, ap, Bool, true, false, ◌&&◌, ◌||◌, not, none, some, List, [], ◌∷◌, ◌++◌,
  arith, if◌then◌else◌, ◌<◌, ◌^◌,
}
use llm_pico.Common.Signed.{ℤ, pos, add64, sub64, add64-pos, max_zero-sub64, ltb_ℤ, max_zero}
use llm_pico.RateLimit.Types.{
  window_eq, Window, Costs, Limits, Cell, CellKey, at, key_eq, level_eq, amount_of,
}
use llm_pico.Common.Bytes.{bytes_eq, bytes_eq_refl}
use llm_pico.RateLimit.Keys.{
  key_eq→eq, has_window, distinct, window_eq→eq, window_eq_refl, level_eq_refl,
}
use llm_pico.RateLimit.Ledger.{Ledger, entered}

-- A count that arithmetic on `int64` cannot bring near the end of its range.
abbrev pub IsSmall : ℤ → Type 0
IsSmall z = (n : ℕ) × (z ≡ pos n) × (n < 2 ^ 62)

pub max_zero-sub64-add64 : (x a : ℤ) → IsSmall x → IsSmall a → max_zero (sub64 (add64 x a) a) ≡ x
max_zero-sub64-add64 x a (n, e, h) (m, d, k) =
    rw (e, d, add64-pos n m (omega arith))
      (max_zero-sub64 (n + m) m (omega arith) (omega arith) ∙ ap pos (omega arith))

pub max_zero-sub64-zero : (a : ℤ) → IsSmall a → max_zero (sub64 (pos 0) a) ≡ pos 0
max_zero-sub64-zero a (m, d, k) =
    rw d (max_zero-sub64 0 m (omega arith) (omega arith) ∙ ap pos (omega arith))

abbrev pub in_cell : Cell → CellKey → Bool
in_cell c j =
    bytes_eq c.key_hash j.key_hash
    && bytes_eq c.model_name j.model_name
    && bytes_eq c.slot j.slot
    && level_eq c.level j.level

pub in_cell-at : (c : Cell) (w : Window) → in_cell c (at c w) ≡ true
in_cell-at c w = ground (
  arith,
  bytes_eq_refl c.key_hash,
  bytes_eq_refl c.model_name,
  bytes_eq_refl c.slot,
  level_eq_refl c.level,
)

pub key_eq-in_cell :
    (c : Cell) (w : Window) (j : CellKey)
    → key_eq (at c w) j ≡ (in_cell c j && window_eq w j.window)
unfolding key_eq
key_eq-in_cell c w j = ground arith

-- `L` with the amounts of the given windows added in the cell.
abbrev pub with_charges : Ledger → Cell → Costs → List Window → Ledger
with_charges L c costs done j =
    if in_cell c j && has_window j.window done then add64 (L j) (amount_of j.window costs) else L j

pub with_charges-nil : (L : Ledger) (c : Cell) (costs : Costs) → with_charges L c costs [] ≡ L
with_charges-nil L c costs = fun_ext λ j. ground arith

abbrev pub is_limited : Limits → Window → Bool
is_limited limits w = elim (limits w) [ none ↦ false | some v ↦ true ]

-- Whether the balance of a window has room for its amount.
abbrev pub has_room : Ledger → Cell → Limits → Costs → Window → Bool
has_room L c limits costs w = elim (limits w) [
  | none ↦ true
  | some limit ↦ not (ltb_ℤ limit (add64 (L (at c w)) (amount_of w costs)))
]

abbrev pub all_room : Ledger → Cell → Limits → Costs → List Window → Bool
all_room L c limits costs [] = true
all_room L c limits costs (w ∷ ws) = has_room L c limits costs w && all_room L c limits costs ws

pub has_window-append :
    (w : Window) (vs ws : List Window)
    → has_window w (vs ++ ws) ≡ (has_window w vs || has_window w ws)
has_window-append w [] ws = refl
has_window-append w (v ∷ vs) ws = ground (arith, has_window-append w vs ws)

pub distinct-middle :
    (vs : List Window) (w : Window) (ws : List Window)
    → distinct (vs ++ w ∷ ws) ≡ true
    → has_window w vs ≡ false
distinct-middle [] w ws h = refl
distinct-middle (v ∷ vs) w ws h = ground (
  arith,
  distinct-middle vs w ws,
  has_window-append v vs (w ∷ ws),
  window_eq→eq v w,
  window_eq_refl v,
)

-- The balance of a window that has not been charged.
pub with_charges-at :
    (L : Ledger) (c : Cell) (costs : Costs) (done : List Window) (w : Window)
    → has_window w done ≡ false
    → with_charges L c costs done (at c w) ≡ L (at c w)
with_charges-at L c costs done w h = ground (arith, in_cell-at c w)

-- The balance of a window that has been.
pub with_charges-at_member :
    (L : Ledger) (c : Cell) (costs : Costs) (done : List Window) (w : Window)
    → has_window w done ≡ true
    → with_charges L c costs done (at c w) ≡ add64 (L (at c w)) (amount_of w costs)
with_charges-at_member L c costs done w h = rw (in_cell-at c w) (rw h)

-- Charging one more window.
pub entered-with_charges :
    (L : Ledger) (c : Cell) (costs : Costs) (done : List Window) (w : Window)
    → entered (with_charges L c costs done) (at c w) (add64 (L (at c w)) (amount_of w costs))
      ≡ with_charges L c costs (done ++ w ∷ [])
unfolding entered
entered-with_charges L c costs done w = fun_ext λ j. ground (
  arith,
  key_eq-in_cell c w j,
  key_eq→eq (at c w) j,
  window_eq→eq w j.window,
  has_window-append j.window done (w ∷ []),
)

-- Giving the first charge back.
pub entered-with_charges_back :
    (L : Ledger) (c : Cell) (costs : Costs) (w : Window) (rest : List Window)
    → has_window w rest ≡ false
    → IsSmall (L (at c w))
    → IsSmall (amount_of w costs)
    → entered
        (with_charges L c costs (w ∷ rest))
        (at c w)
        (max_zero (sub64 (with_charges L c costs (w ∷ rest) (at c w)) (amount_of w costs)))
      ≡ with_charges L c costs rest
unfolding entered
entered-with_charges_back L c costs w rest h x a = fun_ext λ j. ground (
  arith,
  key_eq-in_cell c w j,
  key_eq→eq (at c w) j,
  window_eq→eq w j.window,
  with_charges-at_member L c costs (w ∷ rest) w,
  window_eq_refl w,
  max_zero-sub64-add64 (L (at c w)) (amount_of w costs) x a,
)
