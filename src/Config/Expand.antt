-- ===== src/Config/Expand.antt =====
-- internal/config/load.go: what a model definition comes to, one entry for each of its providers.
use llm_pico.Common.{Option, List, Bool, [], some, none, ◌&&◌, ◌∷◌, false, not, true, ◌||◌}
use llm_pico.Common.Bytes.{Bytes, codes}
use llm_pico.Common.Result.{Result, ◌>>=◌, ok, ◌>>◌, guard}
use llm_pico.Config.{Kind, ModelEntry, kind_eq}
use llm_pico.Config.Models.{ModelDef, parse_fields, slot_named, empty_def}
use llm_pico.Config.Providers.{
  ProviderSlot, LoadError, adapter_caps, or_error, kind_supports, is_some,
}
use llm_pico.Config.Yaml.{Yaml, Node, entries, body_of, is_mapping, node_kind}
use llm_pico.KeysEnv.{is_empty}

abbrev pub is_chat_kind : Kind → Bool
is_chat_kind k = kind_eq k Kind.chat

abbrev pub or_else : {A : Type 0} → Option A → A → A
or_else none d = d
or_else (some a) d = a

-- A slot that no name leads to reads as the zero value.
abbrev pub zero_slot : ProviderSlot
zero_slot = record { name = []; adapter = []; base_url = []; keys = []; ctx = none }

-- The entry of one provider.
unfoldable pub entry_of : ModelDef → Kind → Bytes → ProviderSlot → ModelEntry
entry_of md k name slot =
    let caps = adapter_caps slot.adapter in
    let chat = is_chat_kind k in
    record {
      model_name = md.name;
      kind = k;
      provider = name;
      model_params = record {
        model = md.upstream;
        api_key = [];
        api_keys = slot.keys;
        api_base = slot.base_url;
      };
      ctx = md.ctx;
      ctx_override = slot.ctx;
      dims = md.dims;
      retries = md.retries;
      attempt_budget = md.budget;
      max_output = md.max_out;
      images = chat && caps.images && or_else md.images chat;
      audio = chat && caps.audio && or_else md.audio chat;
      video = chat && caps.video && or_else md.video chat;
      thinking = chat && or_else md.thinking false;
      tools = chat && caps.tools;
      reasoning = chat && caps.reasoning;
      no_cache = not (or_else md.cache true);
      embeddings = kind_eq k Kind.embeddings;
      stt = kind_eq k Kind.stt;
      tts = kind_eq k Kind.tts;
      rpm = md.limits (codes "rpm");
      rpd = md.limits (codes "rpd");
      tpm = md.limits (codes "tpm");
      tpd = md.limits (codes "tpd");
      cpm = md.limits (codes "cpm");
      cpd = md.limits (codes "cpd");
      audio_sec_per_day = md.limits (codes "daily-audio-sec");
      audio_min = md.limits (codes "audio-min");
    }

-- The loop of `expandSlots`.
unfoldable pub expand_slots :
    List ProviderSlot → ModelDef → Kind → List Bytes → Result LoadError (List ModelEntry)
expand_slots slots md k [] = ok []
expand_slots slots md k (name ∷ names) =
    let slot = or_else (slot_named slots name) zero_slot in
    do
      guard (kind_supports k (adapter_caps slot.adapter)) LoadError.unsupported_kind
      rest ← expand_slots slots md k names
      ok (entry_of md k name slot ∷ rest)

-- The tests after the loop of `parseModel`.
unfoldable pub finish_model : List ProviderSlot → ModelDef → Result LoadError (List ModelEntry)
finish_model slots md = do
  k ← or_error LoadError.kind_required md.kind
  guard (not md.media_set || is_chat_kind k) LoadError.media_not_chat
  guard (not (is_some md.thinking) || is_chat_kind k) LoadError.thinking_not_chat
  expand_slots slots md k md.provider

unfoldable pub parse_model :
    Yaml → List ProviderSlot → Bytes → Node → Result LoadError (List ModelEntry)
parse_model y slots name n = do
  md ← parse_fields y slots (entries n) (empty_def name)
  finish_model slots md

-- The loop of `loadModels`: the entries of each model in turn.
unfoldable pub parse_models :
    Yaml → List ProviderSlot → List (Bytes × Node) → Result LoadError (List (List ModelEntry))
parse_models y slots [] = ok []
parse_models y slots ((name, n) ∷ es) = do
  guard (is_mapping (node_kind n)) LoadError.model_not_a_mapping
  model ← parse_model y slots name n
  rest ← parse_models y slots es
  ok (model ∷ rest)

-- `loadModels`, from the content of the file.
unfoldable pub load_models :
    Yaml → Option Bytes → List ProviderSlot → Result LoadError (List (List ModelEntry))
load_models y file slots = do
  text ← or_error LoadError.unreadable file
  root ← or_error LoadError.bad_yaml (y.parse text)
  body ← or_error LoadError.empty_file (body_of root)
  guard (is_mapping (node_kind body)) LoadError.not_a_mapping
  models ← parse_models y slots (entries body)
  guard (not (is_empty models)) LoadError.no_models
  ok models
