-- ===== src/Examples/Limits.antt =====
-- Concrete inputs on which the theorems of this library apply, and their data.
use llm_pico.Common.{All, keep, map, [], ◌∷◌, none, arith, ◌+◌, refl, some, ◌≡◌, ℕ, List, ◌≤◌}
use llm_pico.Common.Bytes.{bytes_eq, codes}
use llm_pico.Common.Signed.{ℤ, wrap64, add64, negsuc, sub64, pos}
use llm_pico.Headers.{header_windows, rate_limit_headers, WindowHeaders}
use llm_pico.Headers.Report.{rate_limit_headers-AddsUp, AddsUp}
use llm_pico.RateLimit.Charges.{is_limited, all_room, IsSmall}
use llm_pico.RateLimit.Interleave.{
  interleaving-IsCapped, Section, perform_all, IsCapped, overruns, overrun,
}
use llm_pico.RateLimit.Ledger.{balance}
use llm_pico.RateLimit.Limiter.{
  fnv64, shard_for, write, counter_for, try_charge, check_from, reconcile, refund, read, new, usage,
  check_and_reserve,
}
use llm_pico.RateLimit.Refinement.{
  check_and_reserve-refines, accepted, reserve, rejection-Truthful, Truthful,
}
use llm_pico.RateLimit.Refund.{refund-refines, all_refunded, refund-check_and_reserve}
use llm_pico.RateLimit.Settle.{reconcile-refines, reconcile-check_and_reserve, settled, IsTiny}
use llm_pico.RateLimit.Types.{
  window_eq, level_eq, window_end, key_eq, label_eq, windows, at, Level, Window, Cell, Rejection,
  amount_of, window_start, CellKey, Limits, Costs,
}

abbrev pub caller : Cell
caller = record {
  key_hash = codes "alice";
  model_name = codes "llama";
  slot = codes "groq";
  level = Level.level_model;
}

-- Two requests and thirty tokens a minute.
abbrev pub per_minute : Limits
per_minute Window.rpm = some (pos 2)
per_minute Window.tpm = some (pos 30)
per_minute _ = none

abbrev no_requests : Limits
no_requests Window.tpm = some (pos 30)
no_requests Window.rpm = some (pos 0)
no_requests _ = none

abbrev pub twenty_tokens : Costs
twenty_tokens = record { tokens = pos 20; chars = pos 0; audio_sec = pos 0 }

pub amount_of-IsSmall : (w : Window) → IsSmall (amount_of w twenty_tokens)
unfolding amount_of add64 wrap64
amount_of-IsSmall Window.rpm = (1, refl, omega arith)
amount_of-IsSmall Window.rpd = (1, refl, omega arith)
amount_of-IsSmall Window.tpm = (20, refl, omega arith)
amount_of-IsSmall Window.tpd = (20, refl, omega arith)
amount_of-IsSmall Window.cpm = (0, refl, omega arith)
amount_of-IsSmall Window.cpd = (0, refl, omega arith)
amount_of-IsSmall Window.asec = (0, refl, omega arith)
amount_of-IsSmall Window.amin = (0, refl, omega arith)

pub amount_of-IsTiny : (w : Window) → IsTiny (amount_of w twenty_tokens)
unfolding amount_of add64 wrap64
amount_of-IsTiny Window.rpm = (1, refl, omega arith)
amount_of-IsTiny Window.rpd = (1, refl, omega arith)
amount_of-IsTiny Window.tpm = (20, refl, omega arith)
amount_of-IsTiny Window.tpd = (20, refl, omega arith)
amount_of-IsTiny Window.cpm = (0, refl, omega arith)
amount_of-IsTiny Window.cpd = (0, refl, omega arith)
amount_of-IsTiny Window.asec = (0, refl, omega arith)
amount_of-IsTiny Window.amin = (0, refl, omega arith)

pub balance-IsSmall : (j : CellKey) → IsSmall (balance new 0 j)
unfolding balance new read
balance-IsSmall j = (0, refl, omega arith)

pub balance-IsTiny : (j : CellKey) → IsTiny (balance new 0 j)
unfolding balance new read
balance-IsTiny j = (0, refl, omega arith)

-- A check that is accepted.
pub accepted_new : (check_and_reserve new caller per_minute twenty_tokens 0).1 ≡ none
unfolding check_and_reserve check_from try_charge counter_for read write new amount_of label_eq
    window_start key_eq add64 wrap64 shard_for fnv64 bytes_eq level_eq window_eq
accepted_new = refl

abbrev refusal_now : Rejection
refusal_now = record {
  window = Window.rpm;
  limit = pos 0;
  count = pos 0;
  retry_after = 60000000000;
}

refused_new : (check_and_reserve new caller no_requests twenty_tokens 0).1 ≡ some refusal_now
unfolding check_and_reserve check_from try_charge counter_for read write new amount_of label_eq
    window_start key_eq add64 wrap64 shard_for fnv64 bytes_eq level_eq window_eq window_end
refused_new = refl

check_and_reserve-refines_example :
    (balance (check_and_reserve new caller per_minute twenty_tokens 0).0 0
      ≡ reserve (balance new 0) caller per_minute twenty_tokens)
    × (accepted (check_and_reserve new caller per_minute twenty_tokens 0).1
        ≡ all_room (balance new 0) caller per_minute twenty_tokens windows)
check_and_reserve-refines_example =
    check_and_reserve-refines new caller per_minute twenty_tokens 0 balance-IsSmall
      amount_of-IsSmall

rejection-Truthful_example : Truthful new caller no_requests twenty_tokens 0 refusal_now
rejection-Truthful_example =
    rejection-Truthful new caller no_requests twenty_tokens 0 refusal_now balance-IsSmall
      amount_of-IsSmall refused_new

refund-refines_example :
    balance (refund new caller per_minute twenty_tokens 0) 0
    ≡ all_refunded (balance new 0) caller per_minute twenty_tokens
refund-refines_example = refund-refines new caller per_minute twenty_tokens 0 amount_of-IsSmall

pub same_second : (w : Window) → window_start w 5 ≡ window_start w 0
unfolding window_start
same_second Window.rpm = refl
same_second Window.rpd = refl
same_second Window.tpm = refl
same_second Window.tpd = refl
same_second Window.cpm = refl
same_second Window.cpd = refl
same_second Window.asec = refl
same_second Window.amin = refl

refund-check_and_reserve_example :
    balance
      (refund
        (check_and_reserve new caller per_minute twenty_tokens 0).0
        caller
        per_minute
        twenty_tokens
        5)
      5
    ≡ balance new 0
refund-check_and_reserve_example =
    refund-check_and_reserve new caller per_minute twenty_tokens 0 5 balance-IsSmall
      amount_of-IsSmall same_second accepted_new

reconcile-refines_example :
    balance (reconcile new caller (pos 7) (pos 20) 0) 0
    ≡ settled (balance new 0) caller (sub64 (pos 7) (pos 20))
reconcile-refines_example = reconcile-refines new caller (pos 7) (pos 20) 0 balance-IsSmall

pub usage-new : usage new caller Window.tpm 0 ≡ pos 0
unfolding usage read new
usage-new = refl

reconcile-check_and_reserve_example :
    usage
      (reconcile
        (check_and_reserve new caller per_minute twenty_tokens 0).0
        caller
        (pos 7)
        (pos 20)
        5)
      caller
      Window.tpm
      5
    ≡ pos (0 + 7)
unfolding window_eq
reconcile-check_and_reserve_example =
    reconcile-check_and_reserve new caller per_minute twenty_tokens 0 5 Window.tpm 0 7 20 (pos 30)
      balance-IsTiny amount_of-IsTiny same_second (omega arith) (omega arith) (omega arith) refl
      refl refl usage-new accepted_new

abbrev thirty : CellKey → ℕ
thirty k = 30

-- Two callers' sections: a charge, a settlement that lowers it, another charge, a settlement above it
-- and a purge.
abbrev two_callers : List (ℕ × Section)
two_callers =
    (0, Section.charge (at caller Window.tpm) (pos 30) (pos 20))
    ∷ (3, Section.adjusting (at caller Window.tpm) (negsuc 5))
    ∷ (4, Section.charge (at caller Window.tpm) (pos 30) (pos 10))
    ∷ (5, Section.adjusting (at caller Window.tpm) (pos 4))
    ∷ (6, Section.purging)
    ∷ []

few_overruns : (k : CellKey) → overruns k two_callers ≤ 4
unfolding overruns overrun
few_overruns k = ground arith

interleaving-IsCapped_example :
    IsCapped (λ k. thirty k + overruns k two_callers) (perform_all new two_callers)
interleaving-IsCapped_example =
    interleaving-IsCapped thirty two_callers (λ k. omega (arith, few_overruns k))
      (
        (refl, (20, refl, omega (arith, few_overruns (at caller Window.tpm)))),
        (
          omega arith,
          ((refl, (10, refl, omega (arith, few_overruns (at caller Window.tpm)))), (tt, (tt, tt))),
        ),
      )

per_minute-IsSmall : (w : Window) (limit : ℤ) → per_minute w ≡ some limit → IsSmall limit
per_minute-IsSmall Window.rpm limit h = (2, ground (arith, h), omega arith)
per_minute-IsSmall Window.tpm limit h = (30, ground (arith, h), omega arith)
per_minute-IsSmall Window.rpd limit h = ground (arith, h)
per_minute-IsSmall Window.tpd limit h = ground (arith, h)
per_minute-IsSmall Window.cpm limit h = ground (arith, h)
per_minute-IsSmall Window.cpd limit h = ground (arith, h)
per_minute-IsSmall Window.asec limit h = ground (arith, h)
per_minute-IsSmall Window.amin limit h = ground (arith, h)

rate_limit_headers-AddsUp_example :
    (map
        (λ (h : WindowHeaders). h.window)
        (rate_limit_headers
          (check_and_reserve new caller per_minute twenty_tokens 0).0
          caller
          per_minute
          0
          0)
      ≡ keep (is_limited per_minute) header_windows)
    × All (AddsUp (check_and_reserve new caller per_minute twenty_tokens 0).0 caller 0) (
        rate_limit_headers
          (check_and_reserve new caller per_minute twenty_tokens 0).0
          caller
          per_minute
          0
          0)
rate_limit_headers-AddsUp_example =
    rate_limit_headers-AddsUp new caller per_minute twenty_tokens 0 0 balance-IsTiny
      amount_of-IsTiny per_minute-IsSmall accepted_new
