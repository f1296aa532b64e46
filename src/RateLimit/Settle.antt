-- ===== src/RateLimit/Settle.antt =====
-- internal/ratelimit/ratelimit.go: `Reconcile` and `purgeStale` against the ledger.
use llm_pico.RateLimit.Refund.{balance_same_bucket}
use llm_pico.RateLimit.Refinement.{check_and_reserve-accepted, all_charged}
use llm_pico.RateLimit.Keys.{key_eq-at, key_eq→eq}
use mathlib.Core.Path.{subst, ap₂, fun_ext}
use llm_pico.RateLimit.Charges.{is_limited, in_cell-at, IsSmall, key_eq-in_cell, in_cell}
use llm_pico.Common.Signed.{max_zero-add64-sub64, negsuc, add64-pos, sub64, pos, add64, max_zero, ℤ}
use llm_pico.RateLimit.Types.{
  window_start, amount_of, Costs, Limits, at, CellKey, Cell, window_eq, Window,
}
use llm_pico.RateLimit.Limiter.{check_and_reserve, usage, is_zero, reconcile, adjust, Limiter}
use llm_pico.RateLimit.Ledger.{usage-eq-balance, balance-adjust, balance, entered, Ledger}
use llm_pico.Common.{
  none, inr, sym, some, inl, Bool-cases, true, ap, if◌then◌else◌, ℕ, ◌+◌, ◌∙◌, ◌≡◌, arith, Bool,
  ◌<◌, ◌^◌, ◌||◌, ◌&&◌,
}

abbrev pub is_token : Window → Bool
is_token w = window_eq Window.tpm w || window_eq Window.tpd w

-- The ledger with the token windows of the cell moved by the difference, down to zero.
abbrev pub settled : Ledger → Cell → ℤ → Ledger
settled L c delta j = if in_cell c j && is_token j.window then max_zero (add64 (L j) delta) else L j

adjust_twice :
    (L : Ledger) (c : Cell) (delta : ℤ) (j : CellKey)
    → entered
        (entered L (at c Window.tpm) (max_zero (add64 (L (at c Window.tpm)) delta)))
        (at c Window.tpd)
        (max_zero (add64 (L (at c Window.tpd)) delta))
        j
      ≡ settled L c delta j
unfolding entered window_eq
adjust_twice L c delta j = ground (
  arith,
  key_eq-in_cell c Window.tpm j,
  key_eq-in_cell c Window.tpd j,
  key_eq→eq (at c Window.tpm) j,
  key_eq→eq (at c Window.tpd) j,
)

entered-tpd :
    (L : Ledger) (c : Cell) (v : ℤ)
    → entered L (at c Window.tpm) v (at c Window.tpd) ≡ L (at c Window.tpd)
unfolding entered window_eq
entered-tpd L c v = rw (key_eq-at c Window.tpm Window.tpd)

adjust_both :
    (l : Limiter) (c : Cell) (delta : ℤ) (now : ℕ) (j : CellKey)
    → balance (adjust (adjust l (at c Window.tpm) delta now) (at c Window.tpd) delta now) now j
      ≡ settled (balance l now) c delta j
adjust_both l c delta now j =
    balance-adjust (adjust l (at c Window.tpm) delta now) (at c Window.tpd) delta now j
    ∙ ap
        (λ (B : Ledger).
          entered B (at c Window.tpd) (max_zero (add64 (B (at c Window.tpd)) delta)) j)
        (fun_ext (balance-adjust l (at c Window.tpm) delta now))
    ∙ ap
        (λ x.
          entered
            (entered (balance l now) (at c Window.tpm)
              (max_zero (add64 (balance l now (at c Window.tpm)) delta)))
            (at c Window.tpd) (max_zero (add64 x delta)) j)
        (entered-tpd (balance l now) c (max_zero (add64 (balance l now (at c Window.tpm)) delta)))
    ∙ adjust_twice (balance l now) c delta j

-- `Reconcile` with nothing to settle.
settled-zero :
    (L : Ledger) (c : Cell) (delta : ℤ) (j : CellKey)
    → IsSmall (L j)
    → is_zero delta ≡ true
    → settled L c delta j ≡ L j
settled-zero L c (pos d) j (n, e, h) z =
    let exact : max_zero (add64 (L j) (pos d)) ≡ L j =
      rw e (ap max_zero (add64-pos n d (ground arith)) ∙ ap pos (ground arith)) in
    ground (arith, exact)
settled-zero L c (negsuc d) j s z = cc

-- With balances from 0 to below 2 ^ 62, `Reconcile` moves the balance of the two token windows of the cell by the
-- difference of the two amounts, never below zero, and changes no other balance.
pub reconcile-refines :
    (l : Limiter) (c : Cell) (actual reserved : ℤ) (now : ℕ)
    → ((j : CellKey) → IsSmall (balance l now j))
    → balance (reconcile l c actual reserved now) now
      ≡ settled (balance l now) c (sub64 actual reserved)
unfolding reconcile
reconcile-refines l c actual reserved now small = fun_ext λ j.
    elim (Bool-cases (is_zero (sub64 actual reserved))) [
      | inl z ↦ rw z (sym (settled-zero (balance l now) c (sub64 actual reserved) j (small j) z))
      | inr z ↦ rw z (adjust_both l c (sub64 actual reserved) now j)
    ]

-- Settling a balance that holds the reservation.
settle_exact :
    (n a r : ℕ)
    → n < 2 ^ 61
    → a < 2 ^ 61
    → r < 2 ^ 61
    → max_zero (add64 (add64 (pos n) (pos r)) (sub64 (pos a) (pos r))) ≡ pos (n + a)
settle_exact n a r h k m =
    rw (add64-pos n r (omega arith))
      (max_zero-add64-sub64 (n + r) a r (omega arith) (omega arith) ∙ ap pos (omega arith))

abbrev pub IsTiny : ℤ → Type 0
IsTiny z = (n : ℕ) × (z ≡ pos n) × (n < 2 ^ 61)

pub IsSmall-of_tiny : {z : ℤ} → IsTiny z → IsSmall z
IsSmall-of_tiny (n, e, h) = (n, e, omega arith)

pub add64-IsSmall : (x y : ℤ) → IsTiny x → IsTiny y → IsSmall (add64 x y)
add64-IsSmall x y (n, e, h) (m, d, k) =
    (n + m, rw (e, d) (add64-pos n m (omega arith)), omega arith)

all_charged-IsSmall :
    (L : Ledger) (c : Cell) (limits : Limits) (costs : Costs) (j : CellKey)
    → IsTiny (L j)
    → IsTiny (amount_of j.window costs)
    → IsSmall (all_charged L c limits costs j)
all_charged-IsSmall L c limits costs j x y =
    elim (Bool-cases (in_cell c j && is_limited limits j.window)) [
      | inl b ↦ rw b (add64-IsSmall (L j) (amount_of j.window costs) x y)
      | inr b ↦ rw b (IsSmall-of_tiny x)
    ]

token_amount : (w : Window) (costs : Costs) → is_token w ≡ true → amount_of w costs ≡ costs.tokens
unfolding amount_of window_eq
token_amount w costs h = ground arith

pub all_charged-at :
    (L : Ledger) (c : Cell) (limits : Limits) (costs : Costs) (w : Window) (limit : ℤ)
    → limits w ≡ some limit
    → all_charged L c limits costs (at c w) ≡ add64 (L (at c w)) (amount_of w costs)
all_charged-at L c limits costs w limit h = ground (arith, in_cell-at c w)

settled-at :
    (L : Ledger) (c : Cell) (delta : ℤ) (w : Window)
    → is_token w ≡ true
    → settled L c delta (at c w) ≡ max_zero (add64 (L (at c w)) delta)
settled-at L c delta w h = rw (in_cell-at c w) (rw h)

-- A request whose reservation of `r` tokens was accepted and that is settled in the same buckets with
-- `a` tokens leaves each limited token window of its cell at its usage before the reservation plus
-- `a`, when balances, amounts and `a` lie from 0 to below 2 ^ 61.
pub reconcile-check_and_reserve :
    (l : Limiter) (c : Cell) (limits : Limits) (costs : Costs) (now later : ℕ) (w : Window)
    (n a r : ℕ) (limit : ℤ)
    → ((j : CellKey) → IsTiny (balance l now j))
    → ((v : Window) → IsTiny (amount_of v costs))
    → ((v : Window) → window_start v later ≡ window_start v now)
    → n < 2 ^ 61
    → a < 2 ^ 61
    → r < 2 ^ 61
    → is_token w ≡ true
    → limits w ≡ some limit
    → costs.tokens ≡ pos r
    → usage l c w now ≡ pos n
    → (check_and_reserve l c limits costs now).1 ≡ none
    → usage (reconcile (check_and_reserve l c limits costs now).0 c (pos a) (pos r) later) c w later
      ≡ pos (n + a)
reconcile-check_and_reserve l c limits costs now later w n a r limit tiny modest same hn ha hr tok
      lim tokens before ok =
    usage-eq-balance (reconcile l' c (pos a) (pos r) later) c w later
    ∙ ap (λ (B : Ledger). B (at c w))
        (reconcile-refines l' c (pos a) (pos r) later λ j.
          subst (λ (B : Ledger). IsSmall (B j)) (sym after)
            (all_charged-IsSmall (balance l now) c limits costs j (tiny j) (modest j.window)))
    ∙ settled-at (balance l' later) c (sub64 (pos a) (pos r)) w tok
    ∙ ap (λ x. max_zero (add64 x (sub64 (pos a) (pos r)))) held
    ∙ settle_exact n a r hn ha hr
  where
    l' : Limiter
    l' = (check_and_reserve l c limits costs now).0

    after : balance l' later ≡ all_charged (balance l now) c limits costs
    after =
        balance_same_bucket l' now later same
        ∙ check_and_reserve-accepted l c limits costs now (λ j. IsSmall-of_tiny (tiny j))
            (λ v. IsSmall-of_tiny (modest v)) ok

    held : balance l' later (at c w) ≡ add64 (pos n) (pos r)
    held =
        ap (λ (B : Ledger). B (at c w)) after
        ∙ all_charged-at (balance l now) c limits costs w limit lim
        ∙ ap₂ add64 (sym (usage-eq-balance l c w now) ∙ before) (token_amount w costs tok ∙ tokens)
