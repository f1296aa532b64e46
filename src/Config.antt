-- ===== src/Config.antt =====
-- internal/config/config.go: model entries and the lookups on them. `*int` is an optional integer.
pub mod Yaml
pub mod Providers
pub mod Models
pub mod Expand
pub mod Load
pub mod Registered
use llm_pico.Common.{false, true, ℕ, Bool, Option, none, some, List, [], ◌∷◌, if◌then◌else◌, ◌==◌}
use llm_pico.Common.Bytes.{Bytes, bytes_eq, codes}
use llm_pico.Common.Signed.{ℤ}

pub data Kind : Type 0 where
  chat embeddings tts stt : Kind

unfoldable pub kind_eq : Kind → Kind → Bool
kind_eq Kind.chat Kind.chat = true
kind_eq Kind.embeddings Kind.embeddings = true
kind_eq Kind.tts Kind.tts = true
kind_eq Kind.stt Kind.stt = true
kind_eq _ _ = false

pub record CircuitBreakerSettings : Type 0 where
  pub enabled : Bool
  pub failure_threshold : ℕ
  pub recovery_timeout : ℕ

pub record RouterSettings : Type 0 where
  pub num_retries : ℤ
  pub cooldown_time : ℕ
  pub stream_idle_timeout : ℕ
  pub circuit_breaker : CircuitBreakerSettings

pub record ModelParams : Type 0 where
  pub model : Bytes
  pub api_key : Bytes
  pub api_keys : List Bytes
  pub api_base : Bytes

pub record ModelEntry : Type 0 where
  pub model_name : Bytes
  pub kind : Kind
  pub provider : Bytes
  pub model_params : ModelParams
  pub ctx : Option ℤ
  pub ctx_override : Option ℤ
  pub dims : Option ℤ
  pub retries : Option ℤ
  pub attempt_budget : Option ℤ
  pub max_output : Option ℤ
  pub rpm : Option ℤ
  pub rpd : Option ℤ
  pub tpm : Option ℤ
  pub tpd : Option ℤ
  pub cpm : Option ℤ
  pub cpd : Option ℤ
  pub audio_sec_per_day : Option ℤ
  pub audio_min : Option ℤ
  pub images : Bool
  pub embeddings : Bool
  pub stt : Bool
  pub tts : Bool
  pub audio : Bool
  pub video : Bool
  pub thinking : Bool
  pub tools : Bool
  pub reasoning : Bool
  pub no_cache : Bool

unfoldable pub effective_ctx : ModelEntry → Option ℤ
effective_ctx m = elim m.ctx_override [ some v ↦ some v | none ↦ m.ctx ]

-- `Config.Slots`: the entries of a model, in declared order.
unfoldable pub slots : List ModelEntry → Bytes → List ModelEntry
slots [] name = []
slots (e ∷ es) name =
    let rest = slots es name in if bytes_eq e.model_name name then e ∷ rest else rest

-- `ModelEntry.Keys`.
unfoldable pub keys : ModelEntry → List Bytes
keys m = elim m.model_params.api_keys [
  | [] ↦ if bytes_eq m.model_params.api_key [] then [] else m.model_params.api_key ∷ []
  | k ∷ ks ↦ k ∷ ks
]

-- What stands before the first '/' of a text, if there is one.
unfoldable pub before_slash : Bytes → Option Bytes
before_slash [] = none
before_slash (b ∷ bs) =
    let rest = before_slash bs in
    if b == b'/' then some [] else elim rest [ none ↦ none | some r ↦ some (b ∷ r) ]

-- `ProviderSlug`; `i > 0` asks for a prefix that is not empty.
unfoldable pub provider_slug : ModelEntry → Bytes
provider_slug m =
    if bytes_eq m.provider []
    then elim (before_slash m.model_params.model) [
      | none ↦ codes "openai"
      | some [] ↦ codes "openai"
      | some (b ∷ bs) ↦ b ∷ bs
    ]
    else m.provider
