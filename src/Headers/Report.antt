-- ===== src/Headers/Report.antt =====
-- internal/httpx/headers.go: what the headers say after a check of internal/ratelimit/ratelimit.go.
use mathlib.Core.Path.{subst}
use llm_pico.RateLimit.Refinement.{
  accepted, check_and_reserve-refines, has_window-windows, check_and_reserve-accepted,
}
use llm_pico.RateLimit.Settle.{add64-IsSmall, all_charged-at, IsSmall-of_tiny, IsTiny}
use llm_pico.RateLimit.Keys.{window_eq→eq, has_window}
use llm_pico.Common.{
  inr, inl, Option-cases, Bool-cases, All, sym, none, ap, ◌∙◌, some, ◌-◌, ◌≤◌, refl, arith, [], ◌∷◌,
  true, keep, map, false, List, ℕ, ◌≡◌,
}
use llm_pico.RateLimit.Charges.{has_room, all_room, is_limited, IsSmall}
use llm_pico.RateLimit.Ledger.{usage-eq-balance, balance, Ledger}
use llm_pico.Headers.{
  rate_limit_headers, header_windows, WindowHeaders, window_headers, headers_from,
}
use llm_pico.RateLimit.Limiter.{check_and_reserve, usage, Limiter}
use llm_pico.Common.Signed.{pos, add64-pos, max_zero-sub64, sub64, max_zero, add64, ltb_ℤ, ℤ}
use llm_pico.RateLimit.Types.{windows, at, amount_of, CellKey, Window, Costs, Cell, Limits, has_any}

-- The windows that are reported.
headers_from-windows :
    (l : Limiter) (c : Cell) (limits : Limits) (now end_now : ℕ) (ws : List Window)
    → map (λ (h : WindowHeaders). h.window) (headers_from l c limits now end_now ws)
      ≡ keep (is_limited limits) ws
unfolding headers_from window_headers
headers_from-windows l c limits now end_now [] = refl
headers_from-windows l c limits now end_now (w ∷ ws) =
    ground (arith, headers_from-windows l c limits now end_now ws)

has_any-none :
    (limits : Limits) → has_any limits ≡ false → keep (is_limited limits) header_windows ≡ []
unfolding has_any
has_any-none limits h = ground arith

all_room-at :
    (L : Ledger) (c : Cell) (limits : Limits) (costs : Costs) (w : Window) (ws : List Window)
    → has_window w ws ≡ true
    → all_room L c limits costs ws ≡ true
    → has_room L c limits costs w ≡ true
all_room-at L c limits costs w [] m h = ground arith
all_room-at L c limits costs w (v ∷ ws) m h =
    ground (arith, all_room-at L c limits costs w ws, window_eq→eq v w)

-- The rest of a limit that a count does not exceed.
add64-remaining :
    (limit x : ℤ)
    → IsSmall limit
    → IsSmall x
    → ltb_ℤ limit x ≡ false
    → add64 x (max_zero (sub64 limit x)) ≡ limit
add64-remaining limit x (m, e, h) (n, d, k) le =
    let fits : n ≤ m = ground (arith, e, d, le) in
    rw (e, d)
      (rw (max_zero-sub64 m n (omega arith) (omega arith))
        (add64-pos n (m - n) (omega arith) ∙ ap pos (omega arith)))

-- What a window's headers add up to.
abbrev pub AddsUp : Limiter → Cell → ℕ → WindowHeaders → Type 0
AddsUp l c now h = add64 (usage l c h.window now) h.remaining ≡ h.limit

room_for :
    (L : Ledger) (c : Cell) (limits : Limits) (costs : Costs) (w : Window) (limit : ℤ)
    → limits w ≡ some limit
    → has_room L c limits costs w ≡ true
    → ltb_ℤ limit (add64 (L (at c w)) (amount_of w costs)) ≡ false
room_for L c limits costs w limit lim h =
    elim (Bool-cases (ltb_ℤ limit (add64 (L (at c w)) (amount_of w costs)))) [
      | inl over ↦ ground (arith, lim, h, over)
      | inr fits ↦ fits
    ]

window_headers-AddsUp :
    (l : Limiter) (c : Cell) (limits : Limits) (costs : Costs) (now end_now : ℕ) (w : Window)
    (limit : ℤ)
    → ((j : CellKey) → IsTiny (balance l now j))
    → ((v : Window) → IsTiny (amount_of v costs))
    → IsSmall limit
    → limits w ≡ some limit
    → (check_and_reserve l c limits costs now).1 ≡ none
    → AddsUp
        (check_and_reserve l c limits costs now).0
        c
        now
        (window_headers (check_and_reserve l c limits costs now).0 c w limit now end_now)
unfolding window_headers
window_headers-AddsUp l c limits costs now end_now w limit tiny modest cap lim ok =
    add64-remaining limit (usage l' c w now) cap
      (subst IsSmall (sym after)
        (add64-IsSmall (balance l now (at c w)) (amount_of w costs) (tiny (at c w)) (modest w)))
      (ap (ltb_ℤ limit) after ∙ room_for (balance l now) c limits costs w limit lim room)
  where
    l' : Limiter
    l' = (check_and_reserve l c limits costs now).0

    small : (j : CellKey) → IsSmall (balance l now j)
    small j = IsSmall-of_tiny (tiny j)

    modest' : (v : Window) → IsSmall (amount_of v costs)
    modest' v = IsSmall-of_tiny (modest v)

    after : usage l' c w now ≡ add64 (balance l now (at c w)) (amount_of w costs)
    after =
        usage-eq-balance l' c w now
        ∙ ap (λ (B : Ledger). B (at c w))
            (check_and_reserve-accepted l c limits costs now small modest' ok)
        ∙ all_charged-at (balance l now) c limits costs w limit lim

    room : has_room (balance l now) c limits costs w ≡ true
    room =
        all_room-at (balance l now) c limits costs w windows (has_window-windows w)
          (sym (check_and_reserve-refines l c limits costs now small modest').1 ∙ ap accepted ok)

headers_from-AddsUp :
    (l : Limiter) (c : Cell) (limits : Limits) (costs : Costs) (now end_now : ℕ) (ws : List Window)
    → ((j : CellKey) → IsTiny (balance l now j))
    → ((v : Window) → IsTiny (amount_of v costs))
    → ((v : Window) (limit : ℤ) → limits v ≡ some limit → IsSmall limit)
    → (check_and_reserve l c limits costs now).1 ≡ none
    → All
        (AddsUp (check_and_reserve l c limits costs now).0 c now)
        (headers_from (check_and_reserve l c limits costs now).0 c limits now end_now ws)
unfolding headers_from
headers_from-AddsUp l c limits costs now end_now [] tiny modest caps ok = tt
headers_from-AddsUp l c limits costs now end_now (w ∷ ws) tiny modest caps ok =
    let rest = headers_from-AddsUp l c limits costs now end_now ws tiny modest caps ok in
    elim (Option-cases (limits w)) [
      | inl q ↦ rw (q, headers_from) rest
      | inr (limit, q) ↦
          rw (q, headers_from)
            (
              window_headers-AddsUp l c limits costs now end_now w limit tiny modest
                  (caps w limit q) q ok,
              rest,
            )
    ]

-- The headers after a check that accepted report exactly the limited windows, in the order of
-- `rateLimitWindows`, and in each of them the usage and what remains add up to the limit, when
-- balances and amounts are below 2 ^ 61, limits are below 2 ^ 62 and none of them is negative.
pub rate_limit_headers-AddsUp :
    (l : Limiter) (c : Cell) (limits : Limits) (costs : Costs) (now end_now : ℕ)
    → ((j : CellKey) → IsTiny (balance l now j))
    → ((v : Window) → IsTiny (amount_of v costs))
    → ((v : Window) (limit : ℤ) → limits v ≡ some limit → IsSmall limit)
    → (check_and_reserve l c limits costs now).1 ≡ none
    → (map
          (λ (h : WindowHeaders). h.window)
          (rate_limit_headers (check_and_reserve l c limits costs now).0 c limits now end_now)
        ≡ keep (is_limited limits) header_windows)
      × All
          (AddsUp (check_and_reserve l c limits costs now).0 c now)
          (rate_limit_headers (check_and_reserve l c limits costs now).0 c limits now end_now)
unfolding rate_limit_headers
rate_limit_headers-AddsUp l c limits costs now end_now tiny modest caps ok =
    elim (Bool-cases (has_any limits)) [
      | inl any ↦ rw any (
        headers_from-windows (check_and_reserve l c limits costs now).0 c limits now end_now
            header_windows,
        headers_from-AddsUp l c limits costs now end_now header_windows tiny modest caps ok,
      )
      | inr none_set ↦ rw none_set (sym (has_any-none limits none_set), tt)
    ]
