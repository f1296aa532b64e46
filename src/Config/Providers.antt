-- ===== src/Config/Providers.antt =====
-- internal/config/load.go: the provider slots of provider.yaml and what their adapters can serve.
-- An error is its kind, without the line and the text of its message.
use llm_pico.Common.{false, List, Option, Bool, none, some, true, [], ◌∷◌, ltb, if◌then◌else◌, not}
use llm_pico.Common.Bytes.{Bytes, codes, bytes_eq}
use llm_pico.Common.Result.{Result, ok, err, ◌>>=◌, ◌>>◌, guard}
use llm_pico.Common.Signed.{ℤ, pos, negsuc}
use llm_pico.Config.{Kind}
use llm_pico.Config.Yaml.{Yaml, Node, str, doc_value, entries, int_field, keys_field, node_named}
use llm_pico.KeysEnv.{ParseError, File, is_empty}

pub data LoadError : Type 0 where
  keys_file : ParseError → LoadError
  no_keys_file legacy_aliases unreadable bad_yaml : LoadError
  no_providers_mapping ctx_not_positive adapter_required base_url_required unknown_adapter :
      LoadError
  bad_keys keys_required key_not_found no_providers : LoadError
  empty_file not_a_mapping model_not_a_mapping unknown_kind bad_providers empty_providers :
      LoadError
  unknown_provider not_an_integer not_positive negative empty_model bad_media unknown_media :
      LoadError
  not_a_boolean renamed_field misplaced_limit unknown_field kind_required media_not_chat : LoadError
  thinking_not_chat unsupported_kind no_models : LoadError

-- `providers.Capability`.
pub record Capability : Type 0 where
  pub images : Bool
  pub audio : Bool
  pub video : Bool
  pub embeddings : Bool
  pub stt : Bool
  pub tts : Bool
  pub tools : Bool
  pub reasoning : Bool
  pub cache : Bool

pub data Protocol : Type 0 where
  openai anthropic gemini : Protocol

abbrev pub no_caps : Capability
no_caps = record {
  images = false;
  audio = false;
  video = false;
  embeddings = false;
  stt = false;
  tts = false;
  tools = false;
  reasoning = false;
  cache = false;
}

-- `adapterCaps`; a missing entry reads as the zero value.
unfoldable pub adapter_caps : Bytes → Capability
adapter_caps name =
    if bytes_eq name (codes "openai")
    then record {
      images = true;
      audio = true;
      video = false;
      embeddings = true;
      stt = true;
      tts = true;
      tools = true;
      reasoning = true;
      cache = true;
    }
    else if bytes_eq name (codes "anthropic")
    then record no_caps { images = true; tools = true; reasoning = true; cache = true }
    else if bytes_eq name (codes "gemini")
    then record no_caps {
      images = true;
      audio = true;
      video = true;
      embeddings = true;
      tools = true;
      reasoning = true;
      cache = true;
    }
    else if bytes_eq name (codes "openai-compat")
    then record {
      images = true;
      audio = true;
      video = true;
      embeddings = true;
      stt = true;
      tts = true;
      tools = true;
      reasoning = true;
      cache = true;
    }
    else no_caps

-- `providerProtocol`.
unfoldable pub provider_protocol : Bytes → Option Protocol
provider_protocol name =
    if bytes_eq name (codes "openai")
    then some Protocol.openai
    else if bytes_eq name (codes "anthropic")
    then some Protocol.anthropic
    else if bytes_eq name (codes "gemini")
    then some Protocol.gemini
    else if bytes_eq name (codes "openai-compat")
    then some Protocol.openai
    else none

unfoldable pub kind_supports : Kind → Capability → Bool
kind_supports Kind.tts caps = caps.tts
kind_supports Kind.stt caps = caps.stt
kind_supports Kind.embeddings caps = caps.embeddings
kind_supports Kind.chat caps = true

pub record ProviderSlot : Type 0 where
  pub name : Bytes
  pub adapter : Bytes
  pub base_url : Bytes
  pub keys : List Bytes
  pub ctx : Option ℤ

abbrev pub above_zero : ℤ → Bool
above_zero (pos n) = ltb 0 n
above_zero (negsuc n) = false

-- An optional number that, if it is there, is above zero.
abbrev pub absent_or_above : Option ℤ → Bool
absent_or_above none = true
absent_or_above (some z) = above_zero z

abbrev pub is_some : {A : Type 0} → Option A → Bool
is_some none = false
is_some (some a) = true

-- The switch on the adapter.
unfoldable pub check_adapter : Bytes → Bytes → Result LoadError (Unit {0})
check_adapter adapter base_url =
    if is_empty adapter
    then err LoadError.adapter_required
    else if bytes_eq adapter (codes "openai-compat")
    then guard (not (is_empty base_url)) LoadError.base_url_required
    else guard (is_some (provider_protocol adapter)) LoadError.unknown_adapter

unfoldable pub key_value : List (Bytes × Bytes) → Bytes → Option Bytes
key_value [] name = none
key_value ((k, v) ∷ ks) name = if bytes_eq k name then some v else key_value ks name

-- The values of the named keys, in order.
unfoldable pub key_values : List (Bytes × Bytes) → List Bytes → Result LoadError (List Bytes)
key_values env [] = ok []
key_values env (n ∷ ns) = elim (key_value env n) [
  | none ↦ err LoadError.key_not_found
  | some v ↦ key_values env ns >>= λ vs. ok (v ∷ vs)
]

abbrev pub or_error : {A : Type 0} → LoadError → Option A → Result LoadError A
or_error e none = err e
or_error e (some a) = ok a

-- One turn of the loop of `loadProviders`.
unfoldable pub load_slot : Yaml → File → Bytes → Node → Result LoadError ProviderSlot
load_slot y env name entry =
    let adapter = str entry (codes "adapter") in
    let base_url = str entry (codes "base_url") in
    let ctx = int_field y entry (codes "ctx") in
    do
      guard (absent_or_above ctx) LoadError.ctx_not_positive
      check_adapter adapter base_url
      names ← or_error LoadError.bad_keys (keys_field (node_named entry (codes "keys")))
      guard (not (is_empty names)) LoadError.keys_required
      values ← key_values env.keys names
      ok (record { name = name; adapter = adapter; base_url = base_url; keys = values; ctx = ctx })

unfoldable pub load_slots : Yaml → File → List (Bytes × Node) → Result LoadError (List ProviderSlot)
load_slots y env [] = ok []
load_slots y env ((name, entry) ∷ es) = do
  slot ← load_slot y env name entry
  rest ← load_slots y env es
  ok (slot ∷ rest)

-- `loadProviders`, from the content of the file.
unfoldable pub load_providers : Yaml → Option Bytes → File → Result LoadError (List ProviderSlot)
load_providers y file env = do
  text ← or_error LoadError.unreadable file
  root ← or_error LoadError.bad_yaml (y.parse text)
  top ← or_error LoadError.no_providers_mapping (doc_value root (codes "providers"))
  slots ← load_slots y env (entries top)
  guard (not (is_empty slots)) LoadError.no_providers
  ok slots
