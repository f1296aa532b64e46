-- ===== src/Config/Registered.antt =====
-- internal/config/config.go, Config.Registry, with providerDefinition of internal/config/load.go: the
-- registry of the providers of a configuration.
pub mod Found
use llm_pico.Common.{Option, none, if◌then◌else◌, List, ◌∷◌, some, []}
use llm_pico.Common.Bytes.{Bytes, bytes_eq, codes}
use llm_pico.Common.Result.{Result, err, ok, ◌>>=◌}
use llm_pico.Config.Providers.{ProviderSlot, adapter_caps, provider_protocol, Protocol}
use llm_pico.Providers.Registry.{Definition, Registry, DefineError, UrlParser, define}

-- The protocol of the registry that an entry of `providerProtocol` is.
abbrev pub protocol_name : Protocol → Bytes
protocol_name Protocol.openai = codes "openai"
protocol_name Protocol.anthropic = codes "anthropic"
protocol_name Protocol.gemini = codes "gemini"

-- The base URL of a protocol.
abbrev pub default_base : Protocol → Bytes
default_base Protocol.openai = codes "https://api.openai.com/v1"
default_base Protocol.anthropic = codes "https://api.anthropic.com/v1"
default_base Protocol.gemini = codes "https://generativelanguage.googleapis.com/v1beta"

-- `providerDefinition` with the base URL filled in, for a protocol.
abbrev pub slot_definition : ProviderSlot → Protocol → Definition
slot_definition p protocol = record {
  slug = p.name;
  display_name = p.name;
  base_url = if bytes_eq p.base_url [] then default_base protocol else p.base_url;
  protocol = protocol_name protocol;
  auth = [];
  auth_header = [];
  query_param = [];
  capabilities = adapter_caps p.adapter;
}

unfoldable pub slot_defined : ProviderSlot → Option Definition
slot_defined p = elim (provider_protocol p.adapter) [
  | none ↦ none
  | some protocol ↦ some (slot_definition p protocol)
]

-- An adapter that is not known, or what `Define` refuses.
pub data RegistryError : Type 0 where
  unknown_adapter : RegistryError
  undefined : DefineError → RegistryError

abbrev pub defined_as : Result DefineError Registry → Result RegistryError Registry
defined_as (err e) = err (RegistryError.undefined e)
defined_as (ok reg) = ok reg

unfoldable pub register : UrlParser → Registry → ProviderSlot → Result RegistryError Registry
register parse reg p = elim (slot_defined p) [
  | none ↦ err RegistryError.unknown_adapter
  | some d ↦ defined_as (define parse reg d)
]

-- `Config.Registry`, from a registry on.
unfoldable pub registry_of :
    UrlParser → Registry → List ProviderSlot → Result RegistryError Registry
registry_of parse reg [] = ok reg
registry_of parse reg (p ∷ ps) = register parse reg p >>= λ next. registry_of parse next ps
