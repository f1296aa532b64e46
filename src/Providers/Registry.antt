-- ===== src/Providers/Registry.antt =====
-- internal/providers/registry.go: the providers that are compiled in and those defined at run time. The
-- client, the lock, and the building of adapters are left out. A protocol and a style of
-- authentication are the strings that they are. Parsing a URL is the library's and a parameter.
pub mod Complete
pub mod Adapters
use llm_pico.Common.{false, none, Option, Bool, [], if◌then◌else◌, some, ◌||◌, true, ◌&&◌, not}
use llm_pico.Common.Bytes.{Bytes, codes, assign, bytes_eq}
use llm_pico.Common.Result.{Result, err, ok}
use llm_pico.Common.Text.{lower, trim_space}
use llm_pico.Config.Providers.{Capability, no_caps}

pub record Spec : Type 0 where
  pub slug : Bytes
  pub display_name : Bytes
  pub base_url : Bytes
  pub protocol : Bytes
  pub auth : Bytes
  pub auth_header : Bytes
  pub query_param : Bytes
  pub capabilities : Capability
  pub probeable : Bool

-- `Definition`.
pub record Definition : Type 0 where
  pub slug : Bytes
  pub display_name : Bytes
  pub base_url : Bytes
  pub protocol : Bytes
  pub auth : Bytes
  pub auth_header : Bytes
  pub query_param : Bytes
  pub capabilities : Capability

abbrev pub openai_spec : Spec
openai_spec = record {
  slug = codes "openai";
  display_name = codes "OpenAI";
  base_url = codes "https://api.openai.com/v1";
  protocol = codes "openai";
  auth = codes "bearer";
  auth_header = [];
  query_param = [];
  capabilities = record no_caps {
    images = true;
    audio = true;
    embeddings = true;
    stt = true;
    tts = true;
  };
  probeable = true;
}

abbrev pub anthropic_spec : Spec
anthropic_spec = record {
  slug = codes "anthropic";
  display_name = codes "Anthropic";
  base_url = codes "https://api.anthropic.com/v1";
  protocol = codes "anthropic";
  auth = codes "header_key";
  auth_header = codes "x-api-key";
  query_param = [];
  capabilities = record no_caps { images = true };
  probeable = true;
}

abbrev pub gemini_spec : Spec
gemini_spec = record {
  slug = codes "gemini";
  display_name = codes "Google AI Studio";
  base_url = codes "https://generativelanguage.googleapis.com/v1beta";
  protocol = codes "gemini";
  auth = codes "query_key";
  auth_header = [];
  query_param = codes "key";
  capabilities = record no_caps { images = true; audio = true; video = true; embeddings = true };
  probeable = true;
}

-- The map `builtin`, which nothing changes.
unfoldable pub built_in : Bytes → Option Spec
built_in slug =
    if bytes_eq slug (codes "openai")
    then some openai_spec
    else if bytes_eq slug (codes "anthropic")
    then some anthropic_spec
    else if bytes_eq slug (codes "gemini")
    then some gemini_spec
    else none

-- The map `defined`.
abbrev pub Registry : Type 0
Registry = Bytes → Option Definition

abbrev pub new_registry : Registry
new_registry slug = none

pub data DefineError : Type 0 where
  no_slug bad_url unknown_protocol : DefineError

-- What a URL parses to: its scheme and its host.
abbrev pub UrlParser : Type 0
UrlParser = Bytes → Option (Bytes × Bytes)

-- `validateBaseURL`.
unfoldable pub is_base_url : UrlParser → Bytes → Bool
is_base_url parse raw = elim (parse raw) [
  | none ↦ false
  | some (scheme, host) ↦
      (bytes_eq scheme (codes "http") || bytes_eq scheme (codes "https")) && not (bytes_eq host [])
]

abbrev pub or_default : Bytes → Bytes → Bytes
or_default default s = if bytes_eq s [] then default else s

abbrev pub is_protocol : Bytes → Bool
is_protocol p =
    bytes_eq p (codes "openai") || bytes_eq p (codes "anthropic") || bytes_eq p (codes "gemini")

-- The definition with its defaults filled in.
unfoldable pub completed : Definition → Definition
completed d =
    let auth = or_default (codes "bearer") d.auth in
    record d {
      protocol = or_default (codes "openai") d.protocol;
      auth = auth;
      auth_header =
          if bytes_eq auth (codes "header_key")
          then or_default (codes "x-api-key") d.auth_header
          else d.auth_header;
      query_param =
          if bytes_eq auth (codes "query_key")
          then or_default (codes "key") d.query_param
          else d.query_param;
      display_name = or_default d.slug d.display_name;
    }

-- `Define`.
unfoldable pub define : UrlParser → Registry → Definition → Result DefineError Registry
define parse reg d =
    if bytes_eq d.slug []
    then err DefineError.no_slug
    else if is_base_url parse d.base_url
    then if is_protocol (or_default (codes "openai") d.protocol)
      then ok (assign reg (lower d.slug) (some (completed d)))
      else err DefineError.unknown_protocol
    else err DefineError.bad_url

-- `Remove`.
unfoldable pub remove : Registry → Bytes → Registry
remove reg slug = assign reg (lower slug) none

abbrev pub spec_of : Definition → Spec
spec_of d = record {
  slug = d.slug;
  display_name = d.display_name;
  base_url = d.base_url;
  protocol = d.protocol;
  auth = d.auth;
  auth_header = d.auth_header;
  query_param = d.query_param;
  capabilities = d.capabilities;
  probeable = false;
}

abbrev pub lookup_key : Bytes → Bytes
lookup_key slug = lower (trim_space slug)

-- `Lookup`.
unfoldable pub lookup : Registry → Bytes → Option Spec
lookup reg slug = elim (built_in (lookup_key slug)) [
  | some s ↦ some s
  | none ↦ elim (reg (lookup_key slug)) [ none ↦ none | some d ↦ some (spec_of d) ]
]
