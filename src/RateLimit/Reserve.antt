-- ===== src/RateLimit/Reserve.antt =====
-- internal/ratelimit/ratelimit.go: `CheckAndReserve` against the ledger.
use llm_pico.Common.Signed.{add64, ltb_ℤ, ℤ}
use mathlib.Core.List.{append_assoc, append-nil}
use mathlib.Core.Path.{subst, fun_ext}
use llm_pico.Common.{
  refl, inr, ◌-◌, inl, Option-cases, false, sym, keep, ap, ◌++◌, none, some, Option, ℕ, ◌≡◌, ◌∙◌,
  true, List, [], ◌∷◌, arith, map,
}
use llm_pico.RateLimit.Types.{
  window_end, Rejection, Window, Costs, Limits, Cell, CellKey, at, amount_of,
}
use llm_pico.RateLimit.Keys.{distinct}
use llm_pico.RateLimit.Ledger.{
  entered, full, room, try_charge-Tried, Ledger, balance, balance-give_back,
}
use llm_pico.RateLimit.Limiter.{check_from, Limiter, StagedCharge, give_back, rollback}
use llm_pico.RateLimit.Charges.{
  distinct-middle, entered-with_charges, with_charges-at, has_window-append, has_room, is_limited,
  all_room, IsSmall, with_charges, with_charges-nil, entered-with_charges_back, max_zero-sub64-zero,
}

-- What a rejection says of the ledger that refused.
pub record Explains (c : Cell) (limits : Limits) (costs : Costs) (now : ℕ) (L : Ledger)
    (r : Rejection) : Type 0 where
  pub configured : limits r.window ≡ some r.limit
  pub counted : r.count ≡ L (at c r.window)
  pub exceeded : ltb_ℤ r.limit (add64 (L (at c r.window)) (amount_of r.window costs)) ≡ true
  pub retry : r.retry_after ≡ window_end r.window now - now

-- The facts that hold of one call: its arguments, and a ledger and amounts far from the range's end.
module _ (c : Cell) (limits : Limits) (costs : Costs) (now : ℕ) (L : Ledger)
    (small : (j : CellKey) → IsSmall (L j))
    (modest : (w : Window) → IsSmall (amount_of w costs)) where
  abbrev pub stage : Window → StagedCharge
  stage w = record { window = w; amount = amount_of w costs }

  -- Rolling back the charges of distinct windows leaves the ledger that they were put into.
  rollback-with_charges :
      (l : Limiter) (done : List Window)
      → distinct done ≡ true
      → balance l now ≡ with_charges L c costs done
      → balance (rollback l c (map stage done) now) now ≡ L
  unfolding rollback
  rollback-with_charges l [] d e = e ∙ with_charges-nil L c costs
  rollback-with_charges l (w ∷ ws) d e =
      rollback-with_charges (give_back l (at c w) (amount_of w costs) now) ws (ground arith) (
        fun_ext (λ j.
          balance-give_back l (at c w) (amount_of w costs) now j
            (max_zero-sub64-zero (amount_of w costs) (modest w)))
        ∙ rw e
            (entered-with_charges_back L c costs w ws (ground arith) (small (at c w)) (modest w)))

  pub data Checked (done ws : List Window) (r : Limiter × Option Rejection) : Type 0 where
    passed :
        all_room L c limits costs ws ≡ true
        → r.1 ≡ none
        → balance r.0 now ≡ with_charges L c costs (done ++ keep (is_limited limits) ws)
        → Checked done ws r
    rejected :
        (e : Rejection)
        → all_room L c limits costs ws ≡ false
        → r.1 ≡ some e
        → Explains c limits costs now L e
        → balance r.0 now ≡ L
        → Checked done ws r

  pass_over :
      (done ws : List Window) (w : Window) (r : Limiter × Option Rejection)
      → limits w ≡ none
      → Checked done ws r
      → Checked done (w ∷ ws) r
  pass_over done ws w r h (passed a n b) = passed (ground arith) n (ground arith)
  pass_over done ws w r h (rejected e a n x b) = rejected e (ground arith) n x b

  pass_on :
      (done ws : List Window) (w : Window) (limit : ℤ) (r : Limiter × Option Rejection)
      → limits w ≡ some limit
      → has_room L c limits costs w ≡ true
      → Checked (done ++ w ∷ []) ws r
      → Checked done (w ∷ ws) r
  pass_on done ws w limit r h fits (passed a n b) =
      passed (ground arith) n
        (ground (arith, append_assoc done (w ∷ []) (keep (is_limited limits) ws)))
  pass_on done ws w limit r h fits (rejected e a n x b) = rejected e (ground arith) n x b

  map-stage-append :
      (done : List Window) (w : Window)
      → map stage (done ++ w ∷ []) ≡ map stage done ++ stage w ∷ []
  map-stage-append [] w = refl
  map-stage-append (v ∷ vs) w = ap (◌∷◌ (stage v)) (map-stage-append vs w)

  distinct-skip :
      (done ws : List Window) (w : Window)
      → distinct (done ++ w ∷ ws) ≡ true
      → distinct (done ++ ws) ≡ true
  distinct-skip [] ws w h = ground arith
  distinct-skip (v ∷ vs) ws w h =
      ground
        (arith, distinct-skip vs ws w, has_window-append v vs (w ∷ ws), has_window-append v vs ws)

  distinct-before : (done ws : List Window) → distinct (done ++ ws) ≡ true → distinct done ≡ true
  distinct-before [] ws h = refl
  distinct-before (v ∷ vs) ws h = ground (arith, distinct-before vs ws, has_window-append v vs ws)

  -- The balance of the next window is still the ledger's.
  balance-next :
      (l : Limiter) (done : List Window) (w : Window) (ws : List Window)
      → distinct (done ++ w ∷ ws) ≡ true
      → balance l now ≡ with_charges L c costs done
      → balance l now (at c w) ≡ L (at c w)
  balance-next l done w ws d e =
      ap (λ (B : Ledger). B (at c w)) e
      ∙ with_charges-at L c costs done w (distinct-middle done w ws d)

  charged-with_charges :
      (l l' : Limiter) (done : List Window) (w : Window)
      → balance l now (at c w) ≡ L (at c w)
      → balance l now ≡ with_charges L c costs done
      → ((j : CellKey)
          → balance l' now j
            ≡ entered
                (balance l now)
                (at c w)
                (add64 (balance l now (at c w)) (amount_of w costs))
                j)
      → balance l' now ≡ with_charges L c costs (done ++ w ∷ [])
  charged-with_charges l l' done w shown e b =
      fun_ext b
      ∙ ap (λ (x : ℤ). entered (balance l now) (at c w) (add64 x (amount_of w costs))) shown
      ∙ ap (λ (B : Ledger). entered B (at c w) (add64 (L (at c w)) (amount_of w costs))) e
      ∙ entered-with_charges L c costs done w

  -- `pending` holds the charges of `done`, which the balance shows.
  pub check_from-Checked :
      (l : Limiter) (done ws : List Window)
      → distinct (done ++ ws) ≡ true
      → balance l now ≡ with_charges L c costs done
      → Checked done ws (check_from l c limits costs now ws (map stage done))
  unfolding check_from
  check_from-Checked l done [] d e =
      passed refl refl (e ∙ ap (with_charges L c costs) (sym (append-nil done)))
  check_from-Checked l done (w ∷ ws) d e = elim (Option-cases (limits w)) [
    | inl h ↦
        rw (h, check_from)
          (pass_over done ws w _ h (check_from-Checked l done ws (distinct-skip done ws w d) e))
    | inr (limit, h) ↦
        let shown = balance-next l done w ws d e in
        elim (try_charge-Tried l (at c w) limit (amount_of w costs) now) [
          | room l' q fits b ↦
              rw (h, check_from)
                (rw (q, check_from)
                  (pass_on done ws w limit _ h (ground (arith, shown)) (
                    subst (λ p. Checked (done ++ w ∷ []) ws (check_from l' c limits costs now ws p))
                      (map-stage-append done w)
                      (check_from-Checked l' (done ++ w ∷ []) ws
                        (ap distinct (append_assoc done (w ∷ []) ws) ∙ d)
                        (charged-with_charges l l' done w shown e b)))))
          | full l' q over b ↦
              rw (h, check_from)
                (rw (q, check_from)
                  (rejected _ (ground (arith, shown)) refl
                    (record {
                      configured = h;
                      counted = shown;
                      exceeded = ground (arith, shown);
                      retry = refl;
                    })
                    (rollback-with_charges l' done (distinct-before done (w ∷ ws) d)
                      (fun_ext b ∙ e))))
        ]
  ]
