-- ===== src/Config/Load.antt =====
-- internal/config/load.go: the configuration that the files of a directory come to.
pub mod Sound
pub mod Entries
pub mod Start
pub mod Serves
pub mod Fields
use llm_pico.Common.{Option, List, ◌∷◌, true, ◌++◌, Bool, [], some, not, none}
use llm_pico.Common.Bytes.{Bytes, codes}
use llm_pico.Common.Result.{Result, ◌>>=◌, ◌>>◌, err, guard, ok}
use llm_pico.Common.Signed.{pos}
use llm_pico.Config.{RouterSettings, ModelEntry, provider_slug}
use llm_pico.Config.Expand.{load_models}
use llm_pico.Config.Providers.{LoadError, ProviderSlot, load_providers}
use llm_pico.Config.Yaml.{Yaml}
use llm_pico.KeysEnv.{File, parse, Parsed}

-- What stands in the directory: the lines of keys.env, whether aliases.yaml is there, and the two
-- YAML files. `none` is a file that cannot be read.
pub record Directory : Type 0 where
  pub keys_env : Option (List Bytes)
  pub has_aliases : Bool
  pub provider_yaml : Option Bytes
  pub models_yaml : Option Bytes

pub record Config : Type 0 where
  pub router_settings : RouterSettings
  pub model_list : List ModelEntry
  pub proxy_keys : List Bytes
  pub degradation_mode : Bytes
  pub providers : List ProviderSlot

-- The settings that every configuration has.
abbrev pub default_settings : RouterSettings
default_settings = record {
  num_retries = pos 2;
  cooldown_time = 45;
  stream_idle_timeout = 300;
  circuit_breaker = record { enabled = true; failure_threshold = 3; recovery_timeout = 30 };
}

abbrev pub read_keys : Option (List Bytes) → Result LoadError File
read_keys none = err LoadError.no_keys_file
read_keys (some ls) = elim (parse ls) [
  | Parsed.file f ↦ ok f
  | Parsed.failed e ↦ err (LoadError.keys_file e)
]

abbrev pub concat : {A : Type 0} → List (List A) → List A
concat [] = []
concat (xs ∷ xss) = xs ++ concat xss

-- `Load`.
unfoldable pub load : Yaml → Directory → Result LoadError Config
load y dir = do
  env ← read_keys dir.keys_env
  guard (not dir.has_aliases) LoadError.legacy_aliases
  slots ← load_providers y dir.provider_yaml env
  models ← load_models y dir.models_yaml slots
  ok (record {
    router_settings = default_settings;
    model_list = concat models;
    proxy_keys = env.proxy_keys;
    degradation_mode = codes "normal";
    providers = slots;
  })
