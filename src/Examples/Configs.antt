-- ===== src/Examples/Configs.antt =====
-- An example of a configuration.
use llm_pico.Common.{
  List, ◌≡◌, ◌∷◌, some, false, [], if◌then◌else◌, ℕ, All, ◌+◌, none, refl, ◌-◌, ◌*◌, inl, ◌/◌, min,
  max, ltb,
}
use llm_pico.Common.Bytes.{Bytes, codes, bytes_eq, assign}
use llm_pico.Common.Result.{ok}
use llm_pico.Common.Signed.{pos}
use llm_pico.Common.Text.{trim_space, trim_right, trim_left, drop_empty, split, lower}
use llm_pico.Config.{ModelEntry, slots, Kind}
use llm_pico.Config.Expand.{
  parse_model, entry_of, finish_model, expand_slots, load_models, parse_models,
}
use llm_pico.Config.Load.{Config, load, Directory, default_settings}
use llm_pico.Config.Load.Entries.{IsServable, load-IsServable}
use llm_pico.Config.Load.Serves.{load-LeadsTo}
use llm_pico.Config.Load.Sound.{IsUsable}
use llm_pico.Config.Load.Start.{LeadsTo}
use llm_pico.Config.Models.{
  field_named, parse_fields, empty_def, parse_field, kind_named, all_known, slot_named, maybe_limit,
  is_among, positive_int,
}
use llm_pico.Config.Providers.{
  ProviderSlot, load_providers, load_slots, load_slot, check_adapter, key_values, key_value,
  provider_protocol, kind_supports, adapter_caps, Protocol,
}
use llm_pico.Config.Registered.{registry_of, register, slot_defined, slot_definition, protocol_name}
use llm_pico.Config.Registered.Found.{registry_of-finds}
use llm_pico.Config.Yaml.{
  Yaml, Node, entries, Nodes, pairs, node, nil, NodeKind, cons, doc_value, node_named, first_named,
  str, int_field, keys_field, name_list, comma_list, scalar_items,
}
use llm_pico.KeysEnv.{
  is_empty, parse, parse_from, parse_text, cut, without_comment, before_comment, parse_pair,
  unquote, assign_name, upstream_name, ends_in_key, set_key,
}
use llm_pico.Providers.Registry.{
  Registry, UrlParser, built_in, new_registry, Spec, completed, lookup, define, is_base_url,
}
use llm_pico.Router.Feedback.{new_router}
use llm_pico.Router.Float.{Float}
use llm_pico.Router.Table.{resolve_slot}

abbrev leaf : Bytes → Node
leaf v = node NodeKind.scalar (codes "!!str") v nil

abbrev mapping_of : List (Bytes × Node) → Nodes
mapping_of [] = nil
mapping_of ((k, v) ∷ es) = cons (leaf k) (cons v (mapping_of es))

abbrev mapping_node : List (Bytes × Node) → Node
mapping_node es = node NodeKind.mapping (codes "!!map") [] (mapping_of es)

abbrev provider_root : Node
provider_root = node NodeKind.document [] [] (
    cons
      (mapping_node (
        (
          codes "providers",
          mapping_node (
              (
                codes "groq",
                mapping_node (
                    (codes "adapter", leaf (codes "openai-compat"))
                    ∷ (codes "base_url", leaf (codes "https://groq"))
                    ∷ (codes "keys", leaf (codes "GROQ_KEY"))
                    ∷ []),
              )
              ∷ []),
        )
        ∷ []))
      nil)

abbrev model_fields : List (Bytes × Node)
model_fields =
    (codes "kind", leaf (codes "chat"))
    ∷ (codes "providers", leaf (codes "groq"))
    ∷ (codes "rpm", leaf (codes "9"))
    ∷ []

abbrev model_root : Node
model_root = mapping_node ((codes "llama", mapping_node model_fields) ∷ [])

-- A parser that knows two texts, with every number 9.
abbrev two_texts : Yaml
two_texts = record {
  parse = λ t. if bytes_eq t (codes "p") then some provider_root else some model_root;
  decode_int = λ n. some (pos 9);
  decode_bool = λ n. none;
}

abbrev directory : Directory
directory = record {
  keys_env = some (codes "GROQ_KEY=sk-1" ∷ []);
  has_aliases = false;
  provider_yaml = some (codes "p");
  models_yaml = some (codes "m");
}

abbrev groq : ProviderSlot
groq = record {
  name = codes "groq";
  adapter = codes "openai-compat";
  base_url = codes "https://groq";
  keys = codes "sk-1" ∷ [];
  ctx = none;
}

unfoldable groq_llama : ModelEntry
groq_llama =
    entry_of
      (record (empty_def (codes "llama")) {
        kind = some Kind.chat;
        provider = codes "groq" ∷ [];
        limits = assign (λ k. none) (codes "rpm") (some (pos 9));
      })
      Kind.chat (codes "groq") groq

abbrev configured : Config
configured = record {
  router_settings = default_settings;
  model_list = groq_llama ∷ [];
  proxy_keys = [];
  degradation_mode = codes "normal";
  providers = groq ∷ [];
}

loaded : load two_texts directory ≡ ok configured
unfolding load load_providers load_slots load_slot check_adapter key_values key_value
    provider_protocol doc_value node_named first_named entries pairs str int_field keys_field
    name_list comma_list scalar_items load_models parse_models parse_model parse_fields parse_field
    field_named kind_named all_known slot_named maybe_limit is_among positive_int finish_model
    expand_slots kind_supports adapter_caps groq_llama entry_of assign parse parse_from parse_text
    bytes_eq trim_space trim_right trim_left cut without_comment before_comment parse_pair unquote
    assign_name upstream_name ends_in_key set_key drop_empty split
loaded = refl

load-IsServable_example :
    (is_empty configured.providers ≡ false)
    × All IsUsable configured.providers
    × All (IsServable configured.providers) configured.model_list
load-IsServable_example = load-IsServable two_texts directory configured loaded

abbrev plain_float : Float
plain_float = record {
  F = ℕ;
  of_int = λ n. n;
  add = λ a b. a + b;
  sub = λ a b. a - b;
  mul = λ a b. a * b;
  div = λ a b. a / b;
  least = min;
  greatest = max;
  less = ltb;
  one = 100;
  hundredth = 1;
}

load-LeadsTo_example :
    LeadsTo plain_float
      (slots configured.model_list groq_llama.model_name)
      groq_llama.provider
      (resolve_slot
        (new_router plain_float configured.router_settings configured.model_list)
        groq_llama.model_name
        groq_llama.provider
        7).0
load-LeadsTo_example =
    load-LeadsTo plain_float two_texts directory configured groq_llama 7 loaded (inl refl)

-- A parser for which every URL has a scheme and a host.
abbrev any_url : UrlParser
any_url raw = some (codes "https", codes "groq")

abbrev groq_registry : Registry
groq_registry =
    assign new_registry (codes "groq") (some (completed (slot_definition groq Protocol.openai)))

groq-registered : registry_of any_url new_registry (groq ∷ []) ≡ ok groq_registry
unfolding registry_of register slot_defined provider_protocol define is_base_url bytes_eq lower
groq-registered = refl

groq-trimmed : trim_space (codes "groq") ≡ codes "groq"
unfolding trim_space trim_left trim_right
groq-trimmed = refl

groq-own : built_in (lower (codes "groq")) ≡ none
unfolding built_in lower bytes_eq
groq-own = refl

registry_of-finds_example :
    (protocol : Protocol) × (spec : Spec) × (provider_protocol (codes "openai-compat")
      ≡ some protocol)
    × (lookup groq_registry (codes "groq") ≡ some spec)
    × (spec.slug ≡ codes "groq")
    × (spec.protocol ≡ protocol_name protocol)
    × (spec.base_url ≡ codes "https://groq")
    × (spec.capabilities ≡ adapter_caps (codes "openai-compat"))
unfolding bytes_eq
registry_of-finds_example =
    registry_of-finds any_url groq_registry groq (groq ∷ []) groq-registered (inl (refl, tt))
      groq-trimmed groq-own
