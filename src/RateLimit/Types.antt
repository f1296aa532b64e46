-- ===== src/RateLimit/Types.antt =====
-- internal/ratelimit/ratelimit.go: windows, levels, limit sets, costs and counter cells. Integers are
-- `int64` with its wrap-around; a map from windows is a function.
use llm_pico.Common.{
  ℕ, ◌+◌, ◌*◌, ◌/◌, Bool, true, false, ◌&&◌, Option, none, some, List, [], ◌∷◌, ◌==◌, if◌then◌else◌,
}
use llm_pico.Common.Bytes.{Bytes, bytes_eq, codes}
use llm_pico.Common.Signed.{ℤ, pos, add64, quot}

pub data Window : Type 0 where
  rpm rpd tpm tpd cpm cpd asec amin : Window

-- `Windows`, the order of the checks.
abbrev pub windows : List Window
windows =
    Window.rpm ∷ Window.tpm ∷ Window.rpd ∷ Window.tpd ∷ Window.cpm ∷ Window.cpd ∷ Window.asec
    ∷ Window.amin ∷ []

pub data Level : Type 0 where
  level_user level_model : Level

-- The string constants of the two levels.
abbrev pub level_string : Level → Bytes
level_string Level.level_user = codes "user"
level_string Level.level_model = codes "model"

-- A missing entry and a nil pointer both read as unlimited.
abbrev pub Limits : Type 0
Limits = Window → Option ℤ

-- `HasAny` walks the map; the windows are its only keys.
abbrev any_of : Limits → List Window → Bool
any_of limits [] = false
any_of limits (w ∷ ws) = elim (limits w) [ some v ↦ true | none ↦ any_of limits ws ]

unfoldable pub has_any : Limits → Bool
has_any limits = any_of limits windows

pub record Rejection : Type 0 where
  pub window : Window
  pub limit : ℤ
  pub count : ℤ
  pub retry_after : ℕ

pub record Costs : Type 0 where
  pub tokens : ℤ
  pub chars : ℤ
  pub audio_sec : ℤ

-- `AmountOf`.
unfoldable pub amount_of : Window → Costs → ℤ
amount_of Window.rpm c = pos 1
amount_of Window.rpd c = pos 1
amount_of Window.tpm c = c.tokens
amount_of Window.tpd c = c.tokens
amount_of Window.cpm c = c.chars
amount_of Window.cpd c = c.chars
amount_of Window.asec c = c.audio_sec
amount_of Window.amin c = quot (add64 c.audio_sec (pos 59)) 60

-- The label that `Format` gives a bucket: the layouts print the minute, or the day, of the UTC time
-- and nothing finer, so a label is that number.
pub data Label : Type 0 where
  minute day : ℕ → Label

unfoldable pub label_eq : Label → Label → Bool
label_eq (Label.minute a) (Label.minute b) = a == b
label_eq (Label.day a) (Label.day b) = a == b
label_eq _ _ = false

pub record Counter : Type 0 where
  pub window_start : Label
  pub count : ℤ

-- The arguments that every operation passes on to its keys.
pub record Cell : Type 0 where
  pub key_hash : Bytes
  pub model_name : Bytes
  pub slot : Bytes
  pub level : Level

pub record CellKey : Type 0 where
  pub key_hash : Bytes
  pub model_name : Bytes
  pub slot : Bytes
  pub level : Level
  pub window : Window

abbrev pub at : Cell → Window → CellKey
at c w = record {
  key_hash = c.key_hash;
  model_name = c.model_name;
  slot = c.slot;
  level = c.level;
  window = w;
}

unfoldable pub level_eq : Level → Level → Bool
level_eq Level.level_user Level.level_user = true
level_eq Level.level_model Level.level_model = true
level_eq _ _ = false

unfoldable pub window_eq : Window → Window → Bool
window_eq Window.rpm Window.rpm = true
window_eq Window.rpd Window.rpd = true
window_eq Window.tpm Window.tpm = true
window_eq Window.tpd Window.tpd = true
window_eq Window.cpm Window.cpm = true
window_eq Window.cpd Window.cpd = true
window_eq Window.asec Window.asec = true
window_eq Window.amin Window.amin = true
window_eq _ _ = false

-- Equality of map keys: the comparison of all five fields.
unfoldable pub key_eq : CellKey → CellKey → Bool
key_eq a b =
    bytes_eq a.key_hash b.key_hash
    && bytes_eq a.model_name b.model_name
    && bytes_eq a.slot b.slot
    && level_eq a.level b.level
    && window_eq a.window b.window

-- Nanoseconds; a time is the number of them since 1970 in UTC.
abbrev pub second : ℕ
second = 1000000000

abbrev pub minute_length : ℕ
minute_length = 60 * second

abbrev pub day_length : ℕ
day_length = 86400 * second

abbrev pub is_minute : Window → Bool
is_minute Window.rpm = true
is_minute Window.tpm = true
is_minute Window.cpm = true
is_minute _ = false

abbrev pub bucket_length : Window → ℕ
bucket_length w = if is_minute w then minute_length else day_length

unfoldable pub window_start : Window → ℕ → Label
window_start w t =
    if is_minute w then Label.minute (t / minute_length) else Label.day (t / day_length)

-- `WindowEnd`: `Truncate` and `time.Date` both cut down to the start of the bucket.
unfoldable pub window_end : Window → ℕ → ℕ
window_end w t =
    if is_minute w
    then t / minute_length * minute_length + minute_length
    else t / day_length * day_length + day_length
