-- ===== src/Router/Group.antt =====
-- internal/router/router.go: a provider group with its credentials, latency window and health record.
use llm_pico.Common.{
  ℕ, ◌+◌, ◌-◌, ◌*◌, ◌%◌, ◌/◌, Bool, false, Option, none, some, List, [], ◌∷◌, ◌++◌, map, leb, ltb,
  if◌then◌else◌, length, get_elem?, get_or, drop, ◌==◌, max, ◌&&◌, ◌||◌,
}
use llm_pico.Common.Bytes.{Bytes, bytes_eq}
use llm_pico.Config.{ModelEntry}
use llm_pico.Router.Breaker.{record_failure, record_success, Breaker}
use llm_pico.Router.Float.{Float}

pub record KeyState : Type 0 where
  pub api_key : Bytes
  -- `none` is the zero time.
  pub cooldown_until : Option ℕ
  pub fails : ℕ

pub record LatencyWindow : Type 0 where
  pub samples : List ℕ
  pub max_samples : ℕ

-- `latencyWindow.record`: the newest samples are kept.
unfoldable pub record_latency : LatencyWindow → ℕ → LatencyWindow
record_latency w d =
    let samples = w.samples ++ d ∷ [] in
    if ltb w.max_samples (length samples)
    then record w { samples = drop (length samples - w.max_samples) samples }
    else record w { samples = samples }

-- `sort.Slice` by `<`, as insertion.
unfoldable pub insert_sorted : ℕ → List ℕ → List ℕ
insert_sorted d [] = d ∷ []
insert_sorted d (x ∷ xs) = let rest = insert_sorted d xs in if leb d x then d ∷ x ∷ xs else x ∷ rest

unfoldable pub sorted : List ℕ → List ℕ
unfolding insert_sorted
sorted [] = []
sorted (x ∷ xs) = insert_sorted x (sorted xs)

-- `percentiles`. `scaled n` is `int(float64(n) * 0.95)`, which the model takes as a parameter.
unfoldable pub percentiles : (ℕ → ℕ) → LatencyWindow → ℕ × ℕ
unfolding sorted
percentiles scaled w =
    let s = sorted w.samples in
    let n = length s in
    let mid = n / 2 in
    let idx = if leb n (scaled n) then n - 1 else scaled n in
    if n == 0 then (0, 0) else (
      if n % 2 == 1 then get_or s mid 0 else (get_or s (mid - 1) 0 + get_or s mid 0) / 2,
      get_or s idx 0,
    )

pub record Group (F : Type 0) : Type 0 where
  pub slot : Bytes
  pub slug : Bytes
  pub api_base : Bytes
  pub entry : ModelEntry
  pub keys : List KeyState
  pub breaker : Breaker
  pub latency : LatencyWindow
  pub last_key : Bytes
  pub requests : ℕ
  pub errors : ℕ
  pub health : F

-- `cooldownUntil.After(now)`
unfoldable pub cooling : KeyState → ℕ → Bool
cooling k now = elim k.cooldown_until [ none ↦ false | some t ↦ ltb now t ]

-- The earlier of a time and the earliest so far; the zero time stands for none.
unfoldable pub earlier : Option ℕ → Option ℕ → Option ℕ
earlier earliest none = earliest
earlier none (some t) = some t
earlier (some e) (some t) = if ltb t e then some t else some e

-- The loop of `pickKey` over the credentials.
unfoldable pub scan_keys : ℕ → List KeyState → List KeyState → Option ℕ → List KeyState × Option ℕ
scan_keys now [] eligible earliest = (eligible, earliest)
scan_keys now (k ∷ ks) eligible earliest =
    let skip = scan_keys now ks eligible (earlier earliest k.cooldown_until) in
    let take = scan_keys now ks (eligible ++ k ∷ []) earliest in
    if cooling k now then skip else take

-- The position after the credential that was handed out last, or 0.
unfoldable pub start_after : Bytes → ℕ → ℕ → List KeyState → ℕ
start_after last n i [] = 0
start_after last n i (k ∷ ks) =
    let rest = start_after last n (i + 1) ks in
    if bytes_eq k.api_key last then (i + 1) % n else rest

-- What `pickKey` does: it hands out a credential, or reports the earliest end of a cooldown (if any),
-- or indexes out of range.
pub data Pick (F : Type 0) : Type 0 where
  picked : KeyState → Option ℕ → Group F → Pick F
  waits : Option ℕ → Pick F
  panics : Pick F

module _ {F : Type 0} where
  unfoldable pub pick_from : Group F → List KeyState → Option ℕ → Pick F
  pick_from g [] earliest = Pick.waits earliest
  pick_from g (k ∷ ks) earliest =
      elim (get_elem? (k ∷ ks) (start_after g.last_key (length (k ∷ ks)) 0 (k ∷ ks))) [
        | some chosen ↦ Pick.picked chosen earliest (record g { last_key = chosen.api_key })
        | none ↦ Pick.panics
      ]

  unfoldable pub pick_key : Group F → ℕ → Pick F
  unfolding pick_from
  pick_key g now =
      let (eligible, earliest) = scan_keys now g.keys [] none in pick_from g eligible earliest

  -- A failure that counts against the breaker is a 5xx.
  unfoldable pub server_failure : Group F → ℕ → ℕ → Group F
  server_failure g status now =
      if leb 500 status && ltb status 600
      then record g { breaker = record_failure g.breaker now }
      else g

abbrev pub clear_fails : KeyState → KeyState
clear_fails k = record k { fails = 0 }

abbrev pub second : ℕ
second = 1000000000

abbrev pub quarantine : ℕ
quarantine = 365 * 24 * 3600 * second

-- The credential after a 429: a short cooldown for the first failures, then a longer one.
unfoldable pub rate_limited : KeyState → ℕ → KeyState
rate_limited k now = record k {
  cooldown_until = some (now + (if leb 3 k.fails then 30 * second else 10 * second));
  fails = k.fails + 1;
}

unfoldable pub quarantined : KeyState → ℕ → KeyState
quarantined k now = record k { cooldown_until = some (now + quarantine) }

-- A write through the pointer to the first credential with the given key.
unfoldable pub update_key : Bytes → (KeyState → KeyState) → List KeyState → List KeyState
update_key a f [] = []
update_key a f (k ∷ ks) =
    let rest = update_key a f ks in if bytes_eq k.api_key a then f k ∷ ks else k ∷ rest

unfoldable pub has_key : Bytes → List KeyState → Bool
has_key a [] = false
has_key a (k ∷ ks) = bytes_eq k.api_key a || has_key a ks

module _ {F : Type 0} where
  -- The switch of `recordFailure`; `key` is the credential that was used, if the group has it.
  unfoldable pub penalise : Group F → Option Bytes → ℕ → ℕ → Group F
  penalise g key status now = elim key [
    | some a ↦
        if status == 429
        then record g { keys = update_key a (λ k. rate_limited k now) g.keys }
        else if status == 401 || status == 402 || status == 403
        then record g { keys = update_key a (λ k. quarantined k now) g.keys }
        else server_failure g status now
    | none ↦ if status == 429 then g else server_failure g status now
  ]

module _ (fl : Float) where
  open fl use {F, of_int, add, sub, mul, div, least, greatest, one, hundredth}

  -- `recomputeHealthLocked`.
  unfoldable pub recompute_health : Group F → Group F
  recompute_health g =
      let total = max 1 g.requests in
      let error_rate = div (of_int g.errors) (of_int total) in
      let availability = sub one error_rate in
      let error_factor = div one (greatest hundredth (add error_rate hundredth)) in
      record g { health = least one (mul availability (least one error_factor)) }

  unfoldable pub group_success : Group F → Group F
  group_success g =
      let counted = recompute_health (record g { requests = g.requests + 1 }) in
      record counted {
        breaker = record_success counted.breaker;
        keys = map clear_fails counted.keys;
      }

  unfoldable pub group_failure : Group F → Option Bytes → ℕ → ℕ → Group F
  group_failure g key status now =
      penalise (recompute_health (record g { requests = g.requests + 1; errors = g.errors + 1 }))
        key status now
