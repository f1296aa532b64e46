-- ===== src/Examples/Streams.antt =====
-- A stream on which the theorems of this library apply, and its data.
use llm_pico.Common.{List, ◌∷◌, some, ℕ, true, ◌++◌, false, [], none, ◌≡◌, Bool, ◌+◌, refl, arith}
use llm_pico.Common.Bytes.{Bytes, codes, bytes_eq}
use llm_pico.Common.Signed.{pos, add64, wrap64}
use llm_pico.Common.Text.{trim_left, trim_right, contains, has_prefix}
use llm_pico.Examples.Limits.{
  caller, per_minute, twenty_tokens, balance-IsSmall, balance-IsTiny, amount_of-IsSmall,
  same_second, amount_of-IsTiny, accepted_new, usage-new,
}
use llm_pico.Examples.Requests.{settings, coarse}
use llm_pico.Proxy.Attempt.{State, Reservation}
use llm_pico.Proxy.Stream.{
  copy_stream, UsageDecoder, finalize_stream, extract_usage, done_mark, usage_from,
}
use llm_pico.Proxy.Stream.Account.{Charge, finalize_stream-refunds, finalize_stream-charges}
use llm_pico.Proxy.Stream.Forward.{
  Sends, data_line, last_usage, relayed, frames, copy_stream-relays,
}
use llm_pico.RateLimit.Ledger.{balance}
use llm_pico.RateLimit.Limiter.{usage, check_and_reserve, new}
use llm_pico.RateLimit.Types.{window_eq, Window}
use llm_pico.Router.Feedback.{new_router}

abbrev delta : Bytes
delta = codes "{}"

abbrev last_delta : Bytes
last_delta = codes "{usage}"

-- Two payloads with a comment between them.
abbrev two_payloads : List Bytes
two_payloads = data_line delta ∷ [] ∷ codes ": ping" ∷ data_line last_delta ∷ []

abbrev seven_tokens : UsageDecoder
seven_tokens = record {
  of_chunk = λ _. some (record {
    prompt = pos 4;
    completion = pos 3;
    total = pos 0;
    cached = pos 0;
    details = none;
  });
  of_body = λ _. none;
}

two_payloads-Sends :
    (ls : List Bytes) (marked : Bool)
    → Sends ls [] marked
    → Sends (two_payloads ++ ls) (delta ∷ last_delta ∷ []) marked
unfolding trim_left trim_right bytes_eq
two_payloads-Sends ls marked rest =
    Sends.payload _ _ _ _ _ (refl, refl) refl
      (Sends.separator _ _ _
        (Sends.comment _ _ _ _ (Sends.payload _ _ _ _ _ (refl, refl) refl rest)))

abbrev marked_lines : List Bytes
marked_lines = two_payloads ++ data_line done_mark ∷ []

marked_lines-Sends : Sends marked_lines (delta ∷ last_delta ∷ []) true
marked_lines-Sends = two_payloads-Sends (data_line done_mark ∷ []) true (Sends.mark [])

cut_lines-Sends : Sends (two_payloads ++ []) (delta ∷ last_delta ∷ []) false
cut_lines-Sends = two_payloads-Sends [] false Sends.cut

copy_stream-relays_example :
    copy_stream seven_tokens (λ _. true) marked_lines false
    ≡ relayed
        (last_usage seven_tokens (delta ∷ last_delta ∷ []))
        (frames (delta ∷ last_delta ∷ []))
        true
        false
copy_stream-relays_example =
    copy_stream-relays seven_tokens marked_lines (delta ∷ last_delta ∷ []) true false
      marked_lines-Sends

abbrev reserved : Reservation
reserved = record { cell = caller; limits = per_minute; costs = twenty_tokens }

abbrev in_stream : State ℕ
in_stream = record {
  limiter = (check_and_reserve new caller per_minute twenty_tokens 0).0;
  router = new_router coarse settings [];
  seats = 0;
  attempts = 1;
  tries = 1;
}

finalize_stream-refunds_example :
    balance
      (finalize_stream coarse in_stream reserved
        (copy_stream seven_tokens (λ _. true) (two_payloads ++ []) true)
        5).limiter
      5
    ≡ balance new 0
finalize_stream-refunds_example =
    finalize_stream-refunds coarse in_stream reserved new seven_tokens (two_payloads ++ [])
      (delta ∷ last_delta ∷ []) 0 5 cut_lines-Sends balance-IsSmall amount_of-IsSmall same_second
      accepted_new refl

charge_seven : Charge 20 (last_usage seven_tokens (delta ∷ last_delta ∷ [])) 7
unfolding last_usage extract_usage contains has_prefix usage_from add64 wrap64
charge_seven = Charge.counted _ 7 0 (omega arith) (omega arith) (omega arith) refl refl

finalize_stream-charges_example :
    usage
      (finalize_stream coarse in_stream reserved
        (copy_stream seven_tokens (λ _. true) marked_lines false)
        5).limiter
      caller
      Window.tpm
      5
    ≡ pos (0 + 7)
unfolding window_eq
finalize_stream-charges_example =
    finalize_stream-charges coarse in_stream reserved new seven_tokens marked_lines
      (delta ∷ last_delta ∷ []) true false 0 5 Window.tpm 0 7 20 (pos 30) marked_lines-Sends refl
      balance-IsTiny amount_of-IsTiny same_second (omega arith) (omega arith) (omega arith) refl
      refl refl charge_seven usage-new accepted_new refl
