-- ===== src/Proxy/Stream/Account.antt =====
-- internal/proxy/proxy.go, callStreaming: the accounting of a stream once its copy has ended.
use llm_pico.Common.{
  List, ℕ, Bool, false, ◌||◌, not, ◌≡◌, true, ◌<◌, ◌^◌, none, some, ◌+◌, Option, ap, ◌∙◌, ◌++◌, ◌∷◌,
  [], refl, arith, ◌-◌,
}
use llm_pico.Common.Bytes.{Bytes}
use llm_pico.Common.Signed.{ℤ, pos, max_zero-sub64}
use llm_pico.Proxy.Attempt.{give_up_reservation, settle, State, Reservation, charged_tokens}
use llm_pico.Proxy.Stream.{
  finalize_stream, UsageDecoder, copy_stream, stream_usage, Usage, StreamEnd, frame, done_mark,
}
use llm_pico.Proxy.Stream.Forward.{relayed, Sends, copy_stream-relays, last_usage, frames}
use llm_pico.RateLimit.Charges.{IsSmall}
use llm_pico.RateLimit.Ledger.{balance}
use llm_pico.RateLimit.Limiter.{Limiter, check_and_reserve, usage, reconcile}
use llm_pico.RateLimit.Refund.{refund-check_and_reserve}
use llm_pico.RateLimit.Settle.{IsTiny, is_token, reconcile-check_and_reserve}
use llm_pico.RateLimit.Types.{Window, CellKey, amount_of, window_start}
use llm_pico.Router.Float.{Float}
use mathlib.Core.Path.{ap₂}

-- `Charge r last a`: a stream with `r` tokens reserved that reports the usage `last` should be charged
-- `a` tokens. Without a usage, or with a total of 0, the reserved estimate stays; else it is the total
-- less the tokens that were read from a cache, and not below 0.
pub data Charge (r : ℕ) : Option Usage → ℕ → Type 0 where
  estimate : Charge r none r
  uncounted : (u : Usage) → u.total_tokens ≡ pos 0 → Charge r (some u) r
  counted :
      (u : Usage) (t c : ℕ)
      → 0 < t
      → t < 2 ^ 63
      → c < 2 ^ 63
      → u.total_tokens ≡ pos t
      → u.cached_tokens ≡ pos c
      → Charge r (some u) (t - c)

charged_tokens-Charge :
    (res : Reservation) (last : Option Usage) (r a : ℕ)
    → res.costs.tokens ≡ pos r
    → Charge r last a
    → charged_tokens res (stream_usage last) ≡ pos a
unfolding charged_tokens
charged_tokens-Charge res last r a tokens Charge.estimate = tokens
charged_tokens-Charge res last r a tokens (Charge.uncounted u total) = rw total tokens
charged_tokens-Charge res last r a tokens (Charge.counted u t c some_ ht hc total cached) =
    rw (total, cached) (ground (arith, max_zero-sub64 t c ht hc))

module _ (fl : Float) where
  -- A stream whose connection breaks before the end mark, while the client takes every write, leaves
  -- every balance as it was before the reservation, whatever usage was reported before the break,
  -- when the refund is in the same buckets as the reservation and balances and amounts lie from 0 to
  -- below 2 ^ 62.
  pub finalize_stream-refunds :
      (s : State fl.F) (res : Reservation) (l : Limiter) (d : UsageDecoder) (lines ps : List Bytes)
      (now later : ℕ)
      → Sends lines ps false
      → ((j : CellKey) → IsSmall (balance l now j))
      → ((w : Window) → IsSmall (amount_of w res.costs))
      → ((w : Window) → window_start w later ≡ window_start w now)
      → (check_and_reserve l res.cell res.limits res.costs now).1 ≡ none
      → s.limiter ≡ (check_and_reserve l res.cell res.limits res.costs now).0
      → balance
          (finalize_stream fl s res (copy_stream d (λ _. true) lines true) later).limiter
          later
        ≡ balance l now
  unfolding finalize_stream relayed give_up_reservation
  finalize_stream-refunds s res l d lines ps now later sends small modest same ok held =
      rw (copy_stream-relays d lines ps false true sends) (
        rw held
          (refund-check_and_reserve l res.cell res.limits res.costs now later small modest same ok))

  finalize_stream-over :
      (s : State fl.F) (res : Reservation) (l : Limiter) (last : Option Usage) (out : List Bytes)
      (now later : ℕ) (w : Window) (n a r : ℕ) (limit : ℤ)
      → ((j : CellKey) → IsTiny (balance l now j))
      → ((v : Window) → IsTiny (amount_of v res.costs))
      → ((v : Window) → window_start v later ≡ window_start v now)
      → n < 2 ^ 61
      → a < 2 ^ 61
      → r < 2 ^ 61
      → is_token w ≡ true
      → res.limits w ≡ some limit
      → res.costs.tokens ≡ pos r
      → charged_tokens res (stream_usage last) ≡ pos a
      → usage l res.cell w now ≡ pos n
      → (check_and_reserve l res.cell res.limits res.costs now).1 ≡ none
      → s.limiter ≡ (check_and_reserve l res.cell res.limits res.costs now).0
      → usage
          (finalize_stream fl s res (StreamEnd.stream_over last out) later).limiter
          res.cell
          w
          later
        ≡ pos (n + a)
  unfolding finalize_stream settle
  finalize_stream-over s res l last out now later w n a r limit tiny modest same hn ha hr tok lim
        tokens charged before ok held =
      ap
        (λ m.
          usage
            (reconcile m res.cell (charged_tokens res (stream_usage last)) res.costs.tokens later)
            res.cell w later)
        held
      ∙ ap₂
          (λ x y.
            usage
              (reconcile (check_and_reserve l res.cell res.limits res.costs now).0 res.cell x y
                later)
              res.cell w later)
          charged tokens
      ∙ reconcile-check_and_reserve l res.cell res.limits res.costs now later w n a r limit tiny
          modest same hn ha hr tok lim tokens before ok

  -- How the copy of a stream ends that is not broken before its mark.
  relayed-over :
      (last : Option Usage) (out : List Bytes) (marked broken : Bool)
      → marked || not broken ≡ true
      → (sent : List Bytes) × (relayed last out marked broken ≡ StreamEnd.stream_over last sent)
  unfolding relayed
  relayed-over last out true broken h = (out ++ frame done_mark ∷ [], refl)
  relayed-over last out false false h = (out, refl)
  relayed-over last out false true h = absurd (cc)

  -- A stream that sends its end mark or ends without a break, while the client takes every write,
  -- leaves each limited token window of the cell at its usage before the reservation plus the charge
  -- for the usage of its last payload that reports one: the total less the cached tokens, floored at
  -- 0, or the reserved estimate when no usage is reported or its total is 0. The conditions are that
  -- it settles in the same buckets as the reservation, that balances, amounts, the reserved and the
  -- charged tokens lie from 0 to below 2 ^ 61, and that the reported counts are not negative.
  pub finalize_stream-charges :
      (s : State fl.F) (res : Reservation) (l : Limiter) (d : UsageDecoder) (lines ps : List Bytes)
      (marked broken : Bool) (now later : ℕ) (w : Window) (n a r : ℕ) (limit : ℤ)
      → Sends lines ps marked
      → marked || not broken ≡ true
      → ((j : CellKey) → IsTiny (balance l now j))
      → ((v : Window) → IsTiny (amount_of v res.costs))
      → ((v : Window) → window_start v later ≡ window_start v now)
      → n < 2 ^ 61
      → a < 2 ^ 61
      → r < 2 ^ 61
      → is_token w ≡ true
      → res.limits w ≡ some limit
      → res.costs.tokens ≡ pos r
      → Charge r (last_usage d ps) a
      → usage l res.cell w now ≡ pos n
      → (check_and_reserve l res.cell res.limits res.costs now).1 ≡ none
      → s.limiter ≡ (check_and_reserve l res.cell res.limits res.costs now).0
      → usage
          (finalize_stream fl s res (copy_stream d (λ _. true) lines broken) later).limiter
          res.cell
          w
          later
        ≡ pos (n + a)
  finalize_stream-charges s res l d lines ps marked broken now later w n a r limit sends over tiny
        modest same hn ha hr tok lim tokens charge before ok held =
      let (sent, e) = relayed-over (last_usage d ps) (frames ps) marked broken over in
      ap (λ x. usage (finalize_stream fl s res x later).limiter res.cell w later)
        (copy_stream-relays d lines ps marked broken sends ∙ e)
      ∙ finalize_stream-over s res l (last_usage d ps) sent now later w n a r limit tiny modest same
          hn ha hr tok lim tokens (charged_tokens-Charge res (last_usage d ps) r a tokens charge)
          before ok held
