-- ===== src/RateLimit/Clock.antt =====
-- internal/ratelimit/ratelimit.go: buckets of time, `windowStart` and `WindowEnd`.
use llm_pico.RateLimit.Types.{bucket_length, label_eq, Window, window_start, window_end}
use llm_pico.Common.{true, false, ◌<◌, ◌≤◌, ℕ, ◌+◌, ◌≡◌, arith}

-- The wait until the end of a bucket.
pub window_end-after : (w : Window) (now : ℕ) → now < window_end w now
unfolding window_end
window_end-after w now = ground arith

pub window_end-le : (w : Window) (now : ℕ) → window_end w now ≤ now + bucket_length w
unfolding window_end
window_end-le w now = ground arith

-- The label changes at the end of the bucket, and at no time before it.
pub label-window_end :
    (w : Window) (now : ℕ)
    → label_eq (window_start w now) (window_start w (window_end w now)) ≡ false
unfolding window_end window_start label_eq
label-window_end w now = ground arith

pub label-before_end :
    (w : Window) (now later : ℕ)
    → now ≤ later
    → later < window_end w now
    → label_eq (window_start w now) (window_start w later) ≡ true
unfolding window_end window_start label_eq
label-before_end w now later h k = ground arith
