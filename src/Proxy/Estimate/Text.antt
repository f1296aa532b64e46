-- ===== src/Proxy/Estimate/Text.antt =====
-- internal/proxy/estimate.go: what the estimate of a text and the search in it amount to.
use llm_pico.Common.{◌≤◌, ◌≡◌, length, ◌+◌, true, ◌∷◌, arith, [], sym, refl, ◌<◌}
use llm_pico.Common.Bytes.{Bytes}
use llm_pico.Common.Text.{has_prefix, contains, lower}
use llm_pico.Proxy.Estimate.{
  text_tokens, contains_fold, matches_fold, ascii_count, wide_count, estimate_body_tokens, Json,
}

matches_fold-has_prefix : (h n : Bytes) → matches_fold h n ≡ has_prefix (lower h) (lower n)
unfolding matches_fold has_prefix lower
matches_fold-has_prefix h [] = refl
matches_fold-has_prefix [] (n ∷ ns) = refl
matches_fold-has_prefix (h ∷ hs) (n ∷ ns) = rw (matches_fold-has_prefix hs ns) refl

matches_fold-length : (h n : Bytes) → matches_fold h n ≡ true → length n ≤ length h
unfolding matches_fold
matches_fold-length h [] e = omega arith
matches_fold-length [] (n ∷ ns) e = absurd (cc)
matches_fold-length (h ∷ hs) (n ∷ ns) e = ground (arith, matches_fold-length hs ns)

contains_fold-length : (h n : Bytes) → contains_fold h n ≡ true → length n ≤ length h
unfolding contains_fold
contains_fold-length [] n e = ground arith
contains_fold-length (h ∷ hs) n e = ground arith

-- The search without regard to case is the search for the lowered needle in the lowered text: its
-- bound on the position leaves no occurrence out.
pub contains_fold-contains :
    (haystack needle : Bytes)
    → contains_fold haystack needle ≡ contains (lower haystack) (lower needle)
unfolding contains_fold contains has_prefix lower
contains_fold-contains [] [] = refl
contains_fold-contains [] (n ∷ ns) = ground arith
contains_fold-contains (h ∷ hs) needle = rw (sym (contains_fold-contains hs needle)) (
    rw (sym (matches_fold-has_prefix (h ∷ hs) needle))
      (ground (arith, matches_fold-length (h ∷ hs) needle, contains_fold-length hs needle)))

counts-le : (s : Bytes) → ascii_count s + wide_count s ≤ length s
counts-le [] = omega arith
counts-le (b ∷ bs) = ground (arith, counts-le bs)

-- The tokens of a text are at most its bytes, and at least one if a rune starts in it.
pub text_tokens-bounds :
    (s : Bytes)
    → (text_tokens s ≤ length s) × (0 < ascii_count s + wide_count s → 0 < text_tokens s)
unfolding text_tokens
text_tokens-bounds s = (ground (arith, counts-le s), λ h. ground (arith, h))

-- A body of four bytes or more is estimated at one token or more, whatever it decodes to.
pub estimate_body_tokens-positive :
    (json : Json) (body : Bytes) → 4 ≤ length body → 0 < estimate_body_tokens json body
unfolding estimate_body_tokens
estimate_body_tokens-positive json body h = ground arith
