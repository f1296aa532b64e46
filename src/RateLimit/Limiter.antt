-- ===== src/RateLimit/Limiter.antt =====
-- internal/ratelimit/ratelimit.go: the sharded counter map and the operations on it. Each operation
-- takes the time that it reads from the clock as an argument and returns the new limiter. A shard's
-- map is a function from keys, and the shards are a function from indices.
use Prim.Native.Nat.{bit_and, bit_xor}
use llm_pico.Common.{
  ℕ, ◌-◌, ◌*◌, ◌%◌, ◌^◌, Bool, false, ◌&&◌, Option, none, some, List, [], ◌∷◌, ◌++◌, ◌==◌,
  if◌then◌else◌, length,
}
use llm_pico.Common.Bytes.{Bytes}
use llm_pico.Common.Signed.{ℤ, pos, negsuc, add64, sub64, ltb_ℤ, max_zero}
use llm_pico.RateLimit.Types.{
  Window, Limits, Rejection, Costs, Counter, Cell, CellKey, at, amount_of, windows, key_eq,
  label_eq, level_string, window_start, window_end,
}

pub record Limiter : Type 0 where
  pub shards : ℕ → CellKey → Option Counter

abbrev shard_count : ℕ
shard_count = 64

abbrev mask : ℕ
mask = shard_count - 1

unfoldable pub new : Limiter
new = record { shards = λ i k. none }

abbrev offset : ℕ
offset = 14695981039346656037

abbrev prime : ℕ
prime = 1099511628211

-- The loop of `fnv64` on `uint64`.
fnv64_from : ℕ → Bytes → ℕ
fnv64_from h [] = h
fnv64_from h (b ∷ bs) = fnv64_from (bit_xor h b * prime % 2 ^ 64) bs

unfoldable pub fnv64 : Bytes → ℕ
unfolding fnv64_from
fnv64 s = fnv64_from offset s

-- The index that `shardFor` computes.
unfoldable pub shard_for : CellKey → ℕ
shard_for k =
    bit_and
      (bit_xor (bit_xor (bit_xor (fnv64 k.key_hash) (fnv64 k.model_name)) (fnv64 k.slot))
        (length (level_string k.level) * 2 ^ 32 % 2 ^ 64))
      mask

-- `sh.m[key]` under the key's shard, and its assignment.
unfoldable pub read : Limiter → CellKey → Option Counter
read l k = l.shards (shard_for k) k

unfoldable pub write : Limiter → CellKey → Counter → Limiter
write l k v = record l {
  shards = λ i j. if i == shard_for k && key_eq k j then some v else l.shards i j;
}

abbrev pub fresh : CellKey → ℕ → Counter
fresh k now = record { window_start = window_start k.window now; count = pos 0 }

-- `counterFor`: the current counter, put into the map when the bucket has rolled over.
unfoldable pub counter_for : Limiter → CellKey → ℕ → Counter × Limiter
counter_for l k now = elim (read l k) [
  | none ↦ (fresh k now, write l k (fresh k now))
  | some c ↦
      if label_eq c.window_start (window_start k.window now)
      then (c, l)
      else (fresh k now, write l k (fresh k now))
]

pub record StagedCharge : Type 0 where
  pub window : Window
  pub amount : ℤ

-- Taking `amount` off a counter that is still current, the body of both refund loops.
unfoldable pub give_back : Limiter → CellKey → ℤ → ℕ → Limiter
give_back l k amount now = elim (read l k) [
  | none ↦ l
  | some c ↦
      if label_eq c.window_start (window_start k.window now)
      then write l k (record c { count = max_zero (sub64 c.count amount) })
      else l
]

unfoldable pub rollback : Limiter → Cell → List StagedCharge → ℕ → Limiter
rollback l c [] now = l
rollback l c (s ∷ ss) now = rollback (give_back l (at c s.window) s.amount now) c ss now

-- One locked section of `CheckAndReserve`.
pub data Attempt : Type 0 where
  charged : Limiter → Attempt
  refused : Limiter → Rejection → Attempt

unfoldable pub try_charge : Limiter → CellKey → ℤ → ℤ → ℕ → Attempt
try_charge l k limit amount now =
    let (counter, l') = counter_for l k now in
    if ltb_ℤ limit (add64 counter.count amount)
    then Attempt.refused l' (record {
      window = k.window;
      limit = limit;
      count = counter.count;
      retry_after = window_end k.window now - now;
    })
    else Attempt.charged (write l' k (record counter { count = add64 counter.count amount }))

-- The loop over the windows. `nil`, no rejection, is `none`.
unfoldable pub check_from :
    Limiter
    → Cell
    → Limits
    → Costs
    → ℕ
    → List Window
    → List StagedCharge
    → Limiter × Option Rejection
check_from l c limits costs now [] pending = (l, none)
check_from l c limits costs now (w ∷ ws) pending = elim (limits w) [
  | none ↦ check_from l c limits costs now ws pending
  | some limit ↦ elim (try_charge l (at c w) limit (amount_of w costs) now) [
    | Attempt.charged l' ↦
        check_from l' c limits costs now ws
          (pending ++ record { window = w; amount = amount_of w costs } ∷ [])
    | Attempt.refused l' r ↦ (rollback l' c pending now, some r)
  ]
]

unfoldable pub check_and_reserve : Limiter → Cell → Limits → Costs → ℕ → Limiter × Option Rejection
check_and_reserve l c limits costs now = check_from l c limits costs now windows []

-- One turn of the loop of `Refund`: windows outside the limit set are skipped.
unfoldable pub refund_one : Limiter → Cell → Limits → Costs → ℕ → Window → Limiter
refund_one l c limits costs now w = elim (limits w) [
  | none ↦ l
  | some limit ↦ give_back l (at c w) (amount_of w costs) now
]

unfoldable pub refund_from : Limiter → Cell → Limits → Costs → ℕ → List Window → Limiter
refund_from l c limits costs now [] = l
refund_from l c limits costs now (w ∷ ws) =
    refund_from (refund_one l c limits costs now w) c limits costs now ws

unfoldable pub refund : Limiter → Cell → Limits → Costs → ℕ → Limiter
refund l c limits costs now = refund_from l c limits costs now windows

-- One turn of the loop of `Reconcile`.
unfoldable pub adjust : Limiter → CellKey → ℤ → ℕ → Limiter
adjust l k delta now =
    let (c, l') = counter_for l k now in
    write l' k (record c { count = max_zero (add64 c.count delta) })

abbrev pub is_zero : ℤ → Bool
is_zero (pos n) = n == 0
is_zero (negsuc n) = false

unfoldable pub reconcile : Limiter → Cell → ℤ → ℤ → ℕ → Limiter
reconcile l c actual reserved now =
    let delta = sub64 actual reserved in
    if is_zero delta
    then l
    else adjust (adjust l (at c Window.tpm) delta now) (at c Window.tpd) delta now

unfoldable pub usage : Limiter → Cell → Window → ℕ → ℤ
usage l c w now = elim (read l (at c w)) [
  | none ↦ pos 0
  | some c ↦ if label_eq c.window_start (window_start w now) then c.count else pos 0
]

-- `purgeStale` goes through every shard and deletes the entries of past buckets.
unfoldable pub purge_stale : Limiter → ℕ → Limiter
purge_stale l now = record l {
  shards = λ i k. elim (l.shards i k) [
    | none ↦ none
    | some c ↦ if label_eq c.window_start (window_start k.window now) then some c else none
  ];
}
