-- ===== src/RateLimit/Refund.antt =====
-- internal/ratelimit/ratelimit.go: `Refund` and `Reconcile` against the ledger.
use llm_pico.RateLimit.Refinement.{check_and_reserve-accepted, has_window-windows, has_window-keep}
use mathlib.Core.Path.{fun_ext}
use llm_pico.Common.Signed.{ℤ, sub64, max_zero}
use llm_pico.RateLimit.Charges.{
  max_zero-sub64-add64, max_zero-sub64-zero, key_eq-in_cell, is_limited, in_cell, IsSmall,
}
use llm_pico.RateLimit.Keys.{window_eq→eq, key_eq→eq, distinct, has_window}
use llm_pico.RateLimit.Types.{
  windows, window_eq, CellKey, window_start, at, amount_of, Window, Costs, Limits, Cell,
}
use llm_pico.RateLimit.Limiter.{
  check_and_reserve, give_back, refund_one, refund, Limiter, refund_from,
}
use llm_pico.RateLimit.Ledger.{balance-give_back, balance, Ledger, entered}
use llm_pico.Common.{
  refl, ap, some, none, [], inr, inl, Option-cases, ◌∷◌, true, ◌&&◌, false, if◌then◌else◌, List, ℕ,
  ◌∙◌, ◌≡◌, arith, keep,
}

-- The ledger with the amounts of the given windows of the cell taken off, down to zero.
abbrev pub without_charges : Ledger → Cell → Costs → List Window → Ledger
without_charges L c costs ws j =
    if in_cell c j && has_window j.window ws
    then max_zero (sub64 (L j) (amount_of j.window costs))
    else L j

entered-without_charges :
    (L : Ledger) (c : Cell) (costs : Costs) (w : Window) (ws : List Window)
    → has_window w ws ≡ false
    → without_charges
        (entered L (at c w) (max_zero (sub64 (L (at c w)) (amount_of w costs))))
        c
        costs
        ws
      ≡ without_charges L c costs (w ∷ ws)
unfolding entered
entered-without_charges L c costs w ws h =
    fun_ext λ j. ground (arith, key_eq-in_cell c w j, key_eq→eq (at c w) j, window_eq→eq w j.window)

keep-unlimited :
    (limits : Limits) (w : Window) (ws : List Window)
    → limits w ≡ none
    → keep (is_limited limits) (w ∷ ws) ≡ keep (is_limited limits) ws
keep-unlimited limits w ws h = ground arith

keep-limited :
    (limits : Limits) (w : Window) (ws : List Window) (limit : ℤ)
    → limits w ≡ some limit
    → keep (is_limited limits) (w ∷ ws) ≡ w ∷ keep (is_limited limits) ws
keep-limited limits w ws limit h = ground arith

refund_one-unlimited :
    (l : Limiter) (c : Cell) (limits : Limits) (costs : Costs) (now : ℕ) (w : Window)
    → limits w ≡ none
    → refund_one l c limits costs now w ≡ l
unfolding refund_one
refund_one-unlimited l c limits costs now w h = ground arith

refund_one-limited :
    (l : Limiter) (c : Cell) (limits : Limits) (costs : Costs) (now : ℕ) (w : Window) (limit : ℤ)
    → limits w ≡ some limit
    → refund_one l c limits costs now w ≡ give_back l (at c w) (amount_of w costs) now
unfolding refund_one
refund_one-limited l c limits costs now w limit h = ground arith

refund_from-refines :
    (l : Limiter) (c : Cell) (limits : Limits) (costs : Costs) (now : ℕ) (ws : List Window)
    → ((w : Window) → IsSmall (amount_of w costs))
    → distinct ws ≡ true
    → balance (refund_from l c limits costs now ws) now
      ≡ without_charges (balance l now) c costs (keep (is_limited limits) ws)
unfolding refund_from
refund_from-refines l c limits costs now [] modest d = fun_ext λ j. ground arith
refund_from-refines l c limits costs now (w ∷ ws) modest d = elim (Option-cases (limits w)) [
  | inl h ↦
      rw (keep-unlimited limits w ws h, refund_one-unlimited l c limits costs now w h)
        (refund_from-refines l c limits costs now ws modest (ground arith))
  | inr (limit, h) ↦
      rw (keep-limited limits w ws limit h, refund_one-limited l c limits costs now w limit h)
        (refund_from-refines (give_back l (at c w) (amount_of w costs) now) c limits costs now ws
            modest (ground arith)
          ∙ ap (λ (B : Ledger). without_charges B c costs (keep (is_limited limits) ws))
              (fun_ext (λ j.
                balance-give_back l (at c w) (amount_of w costs) now j
                  (max_zero-sub64-zero (amount_of w costs) (modest w))))
          ∙ entered-without_charges (balance l now) c costs w (keep (is_limited limits) ws)
              (ground (arith, has_window-keep (is_limited limits) w ws)))
]

-- The ledger with every limited window of the cell lowered by its amount, down to zero.
abbrev pub all_refunded : Ledger → Cell → Limits → Costs → Ledger
all_refunded L c limits costs j =
    if in_cell c j && is_limited limits j.window
    then max_zero (sub64 (L j) (amount_of j.window costs))
    else L j

-- When amounts lie from 0 to below 2 ^ 62, `Refund` lowers the balance of every limited window of the cell by its amount, never below zero,
-- and changes no other balance. It does so in the buckets of the time of the refund, whichever
-- buckets the reservation was charged to.
pub refund-refines :
    (l : Limiter) (c : Cell) (limits : Limits) (costs : Costs) (now : ℕ)
    → ((w : Window) → IsSmall (amount_of w costs))
    → balance (refund l c limits costs now) now ≡ all_refunded (balance l now) c limits costs
unfolding refund window_eq
refund-refines l c limits costs now modest =
    refund_from-refines l c limits costs now windows modest refl
    ∙ fun_ext λ j.
      ground
        (arith, has_window-keep (is_limited limits) j.window windows, has_window-windows j.window)

-- Within one bucket of every window the balances do not depend on the time.
pub balance_same_bucket :
    (l : Limiter) (now later : ℕ)
    → ((w : Window) → window_start w later ≡ window_start w now)
    → balance l later ≡ balance l now
unfolding balance
balance_same_bucket l now later h = fun_ext λ j. ground (arith, h j.window)

-- A reservation that was accepted and is refunded in the same buckets, with balances and
-- amounts from 0 to below 2 ^ 62, leaves every balance as it was before the reservation.
pub refund-check_and_reserve :
    (l : Limiter) (c : Cell) (limits : Limits) (costs : Costs) (now later : ℕ)
    → ((j : CellKey) → IsSmall (balance l now j))
    → ((w : Window) → IsSmall (amount_of w costs))
    → ((w : Window) → window_start w later ≡ window_start w now)
    → (check_and_reserve l c limits costs now).1 ≡ none
    → balance (refund (check_and_reserve l c limits costs now).0 c limits costs later) later
      ≡ balance l now
refund-check_and_reserve l c limits costs now later small modest same h =
    refund-refines (check_and_reserve l c limits costs now).0 c limits costs later modest
    ∙ ap (λ (B : Ledger). all_refunded B c limits costs)
        (balance_same_bucket (check_and_reserve l c limits costs now).0 now later same
          ∙ check_and_reserve-accepted l c limits costs now small modest h)
    ∙ fun_ext λ j. ground (
      arith,
      max_zero-sub64-add64 (balance l now j) (amount_of j.window costs) (small j) (modest j.window),
    )
