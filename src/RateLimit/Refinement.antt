-- ===== src/RateLimit/Refinement.antt =====
-- internal/ratelimit/ratelimit.go: what `CheckAndReserve`, `Refund`, `Reconcile` and `purgeStale`
-- promise, stated on the ledger of balances.
use llm_pico.RateLimit.Clock.{label-before_end, label-window_end, window_end-le, window_end-after}
use llm_pico.RateLimit.Reserve.{Explains, rejected, passed, check_from-Checked, Checked}
use llm_pico.Common.Signed.{ltb_ℤ, add64}
use mathlib.Core.Path.{subst, fun_ext}
use llm_pico.RateLimit.Charges.{
  with_charges-nil, IsSmall, in_cell, all_room, is_limited, with_charges,
}
use llm_pico.RateLimit.Keys.{window_eq→eq, has_window}
use llm_pico.RateLimit.Ledger.{usage-eq-balance, balance, Ledger}
use llm_pico.RateLimit.Types.{
  window_end, window_start, label_eq, bucket_length, amount_of, CellKey, Costs, Limits, windows,
  Cell, Rejection, window_eq, Window,
}
use llm_pico.RateLimit.Limiter.{check_from, usage, Limiter, check_and_reserve}
use llm_pico.Common.{
  ap, sym, ◌≤◌, ◌<◌, none, refl, if◌then◌else◌, ◌&&◌, some, Option, ℕ, ◌+◌, ◌∙◌, ◌≡◌, Bool, true,
  false, List, [], ◌∷◌, arith, keep,
}

pub has_window-keep :
    (p : Window → Bool) (w : Window) (ws : List Window)
    → has_window w (keep p ws) ≡ (has_window w ws && p w)
has_window-keep p w [] = refl
has_window-keep p w (v ∷ vs) = ground (arith, has_window-keep p w vs, window_eq→eq v w)

pub has_window-windows : (w : Window) → has_window w windows ≡ true
unfolding window_eq
has_window-windows w = ground arith

-- The ledger with every limited window of the cell charged.
abbrev pub all_charged : Ledger → Cell → Limits → Costs → Ledger
all_charged L c limits costs j =
    if in_cell c j && is_limited limits j.window
    then add64 (L j) (amount_of j.window costs)
    else L j

with_charges-limited :
    (L : Ledger) (c : Cell) (limits : Limits) (costs : Costs)
    → with_charges L c costs (keep (is_limited limits) windows) ≡ all_charged L c limits costs
with_charges-limited L c limits costs = fun_ext λ j.
    ground
      (arith, has_window-keep (is_limited limits) j.window windows, has_window-windows j.window)

-- `CheckAndReserve` on ledgers: every window, or nothing.
abbrev pub reserve : Ledger → Cell → Limits → Costs → Ledger
reserve L c limits costs =
    if all_room L c limits costs windows then all_charged L c limits costs else L

abbrev pub accepted : Option Rejection → Bool
accepted none = true
accepted (some r) = false

-- The loop from the start, with nothing charged.
checked :
    (l : Limiter) (c : Cell) (limits : Limits) (costs : Costs) (now : ℕ)
    (small : (j : CellKey) → IsSmall (balance l now j))
    (modest : (w : Window) → IsSmall (amount_of w costs))
    → Checked c limits costs now
        (balance l now)
        small
        modest
        []
        windows
        (check_from l c limits costs now windows [])
unfolding window_eq
checked l c limits costs now small modest =
    check_from-Checked c limits costs now (balance l now) small modest l [] windows refl
      (sym (with_charges-nil (balance l now) c costs))

-- When balances and amounts lie from 0 to below 2 ^ 62, a call accepts exactly when every limited
-- window has room for its amount at the balance before the call; it then charges all of them and no other key,
-- and a call that rejects leaves every balance as it was.
pub check_and_reserve-refines :
    (l : Limiter) (c : Cell) (limits : Limits) (costs : Costs) (now : ℕ)
    → ((j : CellKey) → IsSmall (balance l now j))
    → ((w : Window) → IsSmall (amount_of w costs))
    → (balance (check_and_reserve l c limits costs now).0 now
        ≡ reserve (balance l now) c limits costs)
      × (accepted (check_and_reserve l c limits costs now).1
          ≡ all_room (balance l now) c limits costs windows)
unfolding check_and_reserve
check_and_reserve-refines l c limits costs now small modest =
    from (checked l c limits costs now small modest)
  where
    from :
        Checked c limits costs now
          (balance l now)
          small
          modest
          []
          windows
          (check_from l c limits costs now windows [])
        → (balance (check_from l c limits costs now windows []).0 now
            ≡ reserve (balance l now) c limits costs)
          × (accepted (check_from l c limits costs now windows []).1
              ≡ all_room (balance l now) c limits costs windows)
    from (passed a n b) = (
      b
          ∙ with_charges-limited (balance l now) c limits costs
          ∙ sym
              (ap (λ t. if t then all_charged (balance l now) c limits costs else balance l now) a),
      ap accepted n ∙ sym a,
    )
    from (rejected e a n x b) = (
      b ∙ sym (ap (λ t. if t then all_charged (balance l now) c limits costs else balance l now) a),
      ap accepted n ∙ sym a,
    )

-- The ledger after a call that accepts.
pub check_and_reserve-accepted :
    (l : Limiter) (c : Cell) (limits : Limits) (costs : Costs) (now : ℕ)
    → ((j : CellKey) → IsSmall (balance l now j))
    → ((w : Window) → IsSmall (amount_of w costs))
    → (check_and_reserve l c limits costs now).1 ≡ none
    → balance (check_and_reserve l c limits costs now).0 now
      ≡ all_charged (balance l now) c limits costs
check_and_reserve-accepted l c limits costs now small modest h =
    let (charges, accepts) = check_and_reserve-refines l c limits costs now small modest in
    charges
    ∙ ap (λ t. if t then all_charged (balance l now) c limits costs else balance l now)
        (sym accepts ∙ ap accepted h)

-- What the caller can read off a rejection.
pub record Truthful (l : Limiter) (c : Cell) (limits : Limits) (costs : Costs) (now : ℕ)
    (r : Rejection) : Type 0 where
  configured : limits r.window ≡ some r.limit
  counted : r.count ≡ usage l c r.window now
  exceeded : ltb_ℤ r.limit (add64 r.count (amount_of r.window costs)) ≡ true
  waits : 0 < r.retry_after
  bounded : r.retry_after ≤ bucket_length r.window
  over_then :
      label_eq (window_start r.window now) (window_start r.window (now + r.retry_after)) ≡ false
  not_before :
      (t : ℕ)
      → t < r.retry_after
      → label_eq (window_start r.window now) (window_start r.window (now + t)) ≡ true

Explains-Truthful :
    (l : Limiter) (c : Cell) (limits : Limits) (costs : Costs) (now : ℕ) (r : Rejection)
    → Explains c limits costs now (balance l now) r
    → Truthful l c limits costs now r
Explains-Truthful l c limits costs now r x =
    let after = window_end-after r.window now in
    let reached : now + r.retry_after ≡ window_end r.window now = omega (arith, x.retry) in
    record {
      configured = x.configured;
      counted = x.counted ∙ sym (usage-eq-balance l c r.window now);
      exceeded = rw x.counted x.exceeded;
      waits = omega (arith, x.retry);
      bounded = omega (arith, x.retry, window_end-le r.window now);
      over_then = rw reached (label-window_end r.window now);
      not_before = λ t h. label-before_end r.window now (now + t) (omega arith) (omega arith);
    }

-- When balances and amounts lie from 0 to below 2 ^ 62, a rejection names a limited window, its limit and its
-- usage, to which the request's amount would exceed the limit; the wait that it states is positive,
-- at most the length of the window's bucket, and the time at which the bucket changes, neither
-- earlier nor later.
pub rejection-Truthful :
    (l : Limiter) (c : Cell) (limits : Limits) (costs : Costs) (now : ℕ) (r : Rejection)
    → ((j : CellKey) → IsSmall (balance l now j))
    → ((w : Window) → IsSmall (amount_of w costs))
    → (check_and_reserve l c limits costs now).1 ≡ some r
    → Truthful l c limits costs now r
unfolding check_and_reserve
rejection-Truthful l c limits costs now r small modest h =
    from (checked l c limits costs now small modest)
  where
    from :
        Checked c limits costs now
          (balance l now)
          small
          modest
          []
          windows
          (check_from l c limits costs now windows [])
        → Truthful l c limits costs now r
    from (passed a n b) = absurd (cc)
    from (rejected e a n x b) =
        Explains-Truthful l c limits costs now r
          (subst (Explains c limits costs now (balance l now)) (cc) x)
