-- ===== src/Providers/Pacing.antt =====
-- internal/providers/providers.go, retryAfterFrom: the delay that a provider asks for, in nanoseconds,
-- by the values of its Retry-After and retry-after-ms headers. The parser of decimal numbers and
-- the time until an HTTP date, if a text is one, are the library's and parameters.
use llm_pico.Common.{ℕ, Option, none, ◌*◌, if◌then◌else◌, some, []}
use llm_pico.Common.Bytes.{Bytes, bytes_eq}
use llm_pico.Common.Signed.{ℤ, wrap64, pos, negsuc}
use llm_pico.Common.Text.{trim_space}
use llm_pico.Proxy.Select.{is_positive}

abbrev pub second_length : ℕ
second_length = 1000000000

abbrev pub millisecond_length : ℕ
millisecond_length = 1000000

-- A number of units as a `time.Duration`, which wraps.
abbrev pub of_units : ℕ → ℕ → ℤ
of_units unit n = wrap64 (pos (n * unit))

module _ (atoi : Bytes → Option ℤ) (until : Bytes → ℤ → Option ℤ) where
  unfoldable pub of_milliseconds : Bytes → ℤ
  of_milliseconds value = elim (atoi value) [
    | none ↦ pos 0
    | some (pos n) ↦ of_units millisecond_length n
    | some (negsuc n) ↦ pos 0
  ]

  unfoldable pub until_date : Bytes → ℤ → ℤ
  until_date value now = elim (until value now) [
    | none ↦ pos 0
    | some d ↦ if is_positive d then d else pos 0
  ]

  -- `retryAfterFrom`, at a time.
  unfoldable pub retry_after_from : Bytes → Bytes → ℤ → ℤ
  retry_after_from header ms_header now =
      let value = trim_space header in
      let ms = trim_space ms_header in
      if bytes_eq value []
      then if bytes_eq ms [] then pos 0 else of_milliseconds ms
      else elim (atoi value) [
        | some (pos n) ↦ of_units second_length n
        | some (negsuc n) ↦ until_date value now
        | none ↦ until_date value now
      ]
