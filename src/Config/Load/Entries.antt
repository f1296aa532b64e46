-- ===== src/Config/Load/Entries.antt =====
-- internal/config/load.go: what each model entry of a loaded configuration holds.
use llm_pico.Common.{
  List, ◌&&◌, ◌≡◌, Among, some, true, arith, ◌∷◌, Option-cases, All, inl, inr, ◌∙◌, ap, [], refl,
  ◌++◌, Option, false, sym, not,
}
use llm_pico.Common.Bytes.{Bytes, bytes_eq, codes}
use llm_pico.Common.Result.{ok, ◌>>=◌, >>=-eq-ok, Result, guard, ◌>>◌}
use llm_pico.Common.Signed.{pos}
use llm_pico.Config.{ModelEntry, Kind}
use llm_pico.Config.Expand.{
  expand_slots, entry_of, is_chat_kind, or_else, load_models, finish_model, parse_model,
  parse_models,
}
use llm_pico.Config.Load.{load, Directory, concat, Config, default_settings, read_keys}
use llm_pico.Config.Load.Sound.{
  IsChecked, IsUsable, parse_fields-IsChecked, empty_def-IsChecked, load_providers-IsUsable,
  HasName,
}
use llm_pico.Config.Models.{slot_named, all_known, ModelDef, not_negative, parse_fields, empty_def}
use llm_pico.Config.Providers.{
  ProviderSlot, kind_supports, absent_or_above, adapter_caps, LoadError, load_providers,
}
use llm_pico.Config.Yaml.{Yaml, Node, entries}
use llm_pico.KeysEnv.{is_empty, File}
use llm_pico.Proxy.Attempt.{slot_limits}
use llm_pico.RateLimit.Types.{Window}
use mathlib.Core.Path.{subst}

-- An entry that requests can be sent to: it stands on a usable slot of the configuration, whose
-- adapter serves its kind and its media, with the slot's keys and address, and its numbers are in
-- range.
pub record IsServable (slots : List ProviderSlot) (e : ModelEntry) : Type 0 where
  pub slot : ProviderSlot
  pub listed : Among slot slots
  pub named : bytes_eq slot.name e.provider ≡ true
  pub provider_named : is_empty e.provider ≡ false
  pub keys_are : e.model_params.api_keys ≡ slot.keys
  pub address_is : e.model_params.api_base ≡ slot.base_url
  pub serves_kind : kind_supports e.kind (adapter_caps slot.adapter) ≡ true
  pub shows : e.images ≡ true → (is_chat_kind e.kind && (adapter_caps slot.adapter).images) ≡ true
  pub hears : e.audio ≡ true → (is_chat_kind e.kind && (adapter_caps slot.adapter).audio) ≡ true
  pub watches : e.video ≡ true → (is_chat_kind e.kind && (adapter_caps slot.adapter).video) ≡ true
  pub limits_above : (w : Window) → absent_or_above (slot_limits e w) ≡ true
  pub ctx_above : absent_or_above e.ctx ≡ true
  pub budget_above : absent_or_above e.attempt_budget ≡ true
  pub max_out_above : absent_or_above e.max_output ≡ true
  pub retries_not_negative : not_negative (or_else e.retries (pos 0)) ≡ true

-- A known name leads to a slot of that name.
slot_named-Among :
    (slots : List ProviderSlot) (name : Bytes) (p : ProviderSlot)
    → slot_named slots name ≡ some p
    → Among p slots × (bytes_eq p.name name ≡ true)
unfolding slot_named
slot_named-Among [] name p h = ground (arith, h)
slot_named-Among (q ∷ qs) name p h = elim (Option-cases (slot_named qs name)) [
  | inl nothing ↦ (inl (ground (arith, nothing, h)), ground (arith, nothing, h))
  | inr (r, found) ↦
      let same : r ≡ p = ground (arith, found, h) in
      let (m, n) = slot_named-Among qs name p (found ∙ ap some same) in (inr m, n)
]

entry_of-limits :
    (slots : List ProviderSlot) (md : ModelDef) (k : Kind) (name : Bytes) (p : ProviderSlot)
    (w : Window)
    → IsChecked slots md
    → absent_or_above (slot_limits (entry_of md k name p) w) ≡ true
unfolding entry_of
entry_of-limits slots md k name p Window.rpm c = c.limits_above (codes "rpm")
entry_of-limits slots md k name p Window.rpd c = c.limits_above (codes "rpd")
entry_of-limits slots md k name p Window.tpm c = c.limits_above (codes "tpm")
entry_of-limits slots md k name p Window.tpd c = c.limits_above (codes "tpd")
entry_of-limits slots md k name p Window.cpm c = c.limits_above (codes "cpm")
entry_of-limits slots md k name p Window.cpd c = c.limits_above (codes "cpd")
entry_of-limits slots md k name p Window.asec c = c.limits_above (codes "daily-audio-sec")
entry_of-limits slots md k name p Window.amin c = c.limits_above (codes "audio-min")

entry_of-IsServable :
    (slots : List ProviderSlot) (md : ModelDef) (k : Kind) (name : Bytes) (p : ProviderSlot)
    → IsChecked slots md
    → slot_named slots name ≡ some p
    → is_empty name ≡ false
    → kind_supports k (adapter_caps p.adapter) ≡ true
    → IsServable slots (entry_of md k name p)
unfolding entry_of
entry_of-IsServable slots md k name p c found has_name supports =
    let (m, n) = slot_named-Among slots name p found in
    record {
      slot = p;
      listed = m;
      named = n;
      provider_named = has_name;
      keys_are = refl;
      address_is = refl;
      serves_kind = supports;
      shows = λ h. ground (arith, h);
      hears = λ h. ground (arith, h);
      watches = λ h. ground (arith, h);
      limits_above = λ w. entry_of-limits slots md k name p w c;
      ctx_above = c.ctx_above;
      budget_above = c.budget_above;
      max_out_above = c.max_out_above;
      retries_not_negative = c.retries_not_negative;
    }

abbrev with_rest : ModelEntry → List ModelEntry → Result LoadError (List ModelEntry)
with_rest e rest = ok (e ∷ rest)

-- One step of the loop.
expand_slots-cons :
    (slots : List ProviderSlot) (md : ModelDef) (k : Kind) (name : Bytes) (names : List Bytes)
    (p : ProviderSlot) (es : List ModelEntry)
    → slot_named slots name ≡ some p
    → expand_slots slots md k (name ∷ names) ≡ ok es
    → (kind_supports k (adapter_caps p.adapter) ≡ true)
      × ((expand_slots slots md k names >>= with_rest (entry_of md k name p)) ≡ ok es)
unfolding expand_slots
expand_slots-cons slots md k name names p es found h = ground (arith, found, h)

expand_slots-IsServable :
    (slots : List ProviderSlot) (md : ModelDef) (k : Kind) (names : List Bytes)
    (es : List ModelEntry)
    → IsChecked slots md
    → all_known slots names ≡ true
    → All HasName names
    → expand_slots slots md k names ≡ ok es
    → All (IsServable slots) es
unfolding expand_slots all_known
expand_slots-IsServable slots md k [] es c known named h =
    let q : [] ≡ es = cc in subst (All (IsServable slots)) q tt
expand_slots-IsServable slots md k (name ∷ names) es c known (one_named, others_named) h =
    elim (Option-cases (slot_named slots name)) [
      | inl missing ↦ ground (arith, missing, known)
      | inr (p, found) ↦
          let (supports, loop) = expand_slots-cons slots md k name names p es found h in
          let (rest, more, done) =
            >>=-eq-ok (expand_slots slots md k names) (with_rest (entry_of md k name p)) loop in
          let q : entry_of md k name p ∷ rest ≡ es = cc in
          subst (All (IsServable slots)) q (
            entry_of-IsServable slots md k name p c found one_named supports,
            expand_slots-IsServable slots md k names rest c (ground (arith, known)) others_named
                more,
          )
    ]

finish_model-expands :
    (slots : List ProviderSlot) (md : ModelDef) (es : List ModelEntry)
    → finish_model slots md ≡ ok es
    → (k : Kind) × (expand_slots slots md k md.provider ≡ ok es)
unfolding finish_model
finish_model-expands slots md es h = elim (Option-cases md.kind) [
  | inl missing ↦ ground (arith, missing, h)
  | inr (k, found) ↦ (k, ground (arith, found, h))
]

parse_model-IsServable :
    (y : Yaml) (slots : List ProviderSlot) (name : Bytes) (n : Node) (es : List ModelEntry)
    → parse_model y slots name n ≡ ok es
    → All (IsServable slots) es
unfolding parse_model
parse_model-IsServable y slots name n es h =
    let (md, read, done) =
      >>=-eq-ok (parse_fields y slots (entries n) (empty_def name)) (λ md. finish_model slots md)
        h in
    let (k, expanded) = finish_model-expands slots md es done in
    let c =
      parse_fields-IsChecked y slots (entries n) (empty_def name) md
        (empty_def-IsChecked slots name) read in
    expand_slots-IsServable slots md k md.provider es c c.providers_known c.providers_named expanded

All-append : {A : Type 0} (P : A → Type 0) (xs ys : List A) → All P xs → All P ys → All P (xs ++ ys)
All-append P [] ys h k = k
All-append P (x ∷ xs) ys (p, h) k = (p, All-append P xs ys h k)

parse_models-IsServable :
    (y : Yaml) (slots : List ProviderSlot) (es : List (Bytes × Node))
    (models : List (List ModelEntry))
    → parse_models y slots es ≡ ok models
    → All (IsServable slots) (concat models)
unfolding parse_models
parse_models-IsServable y slots [] models h =
    let q : [] ≡ models = cc in subst (λ ms. All (IsServable slots) (concat ms)) q tt
parse_models-IsServable y slots ((name, n) ∷ es) models h =
    let loop : (parse_model y slots name n >>= λ model.
    parse_models y slots es >>= λ rest. ok (model ∷ rest))
        ≡ ok models =
      ground (arith, h) in
    let (model, one, more) =
      >>=-eq-ok (parse_model y slots name n)
        (λ model. parse_models y slots es >>= λ rest. ok (model ∷ rest)) loop in
    let (rest, later, done) =
      >>=-eq-ok (parse_models y slots es) (λ rest. ok (model ∷ rest)) more in
    let q : model ∷ rest ≡ models = cc in
    subst (λ ms. All (IsServable slots) (concat ms)) q
      (All-append (IsServable slots) model (concat rest)
        (parse_model-IsServable y slots name n model one)
        (parse_models-IsServable y slots es rest later))

load_models-IsServable :
    (y : Yaml) (file : Option Bytes) (slots : List ProviderSlot) (models : List (List ModelEntry))
    → load_models y file slots ≡ ok models
    → All (IsServable slots) (concat models)
unfolding load_models
load_models-IsServable y file slots models h = grind (arith, parse_models-IsServable)

-- The parts that a configuration is loaded from.
pub record Parts (y : Yaml) (dir : Directory) (cfg : Config) : Type 0 where
  pub env : File
  pub models : List (List ModelEntry)
  pub providers_from : load_providers y dir.provider_yaml env ≡ ok cfg.providers
  pub models_from : load_models y dir.models_yaml cfg.providers ≡ ok models
  pub entries_are : cfg.model_list ≡ concat models
  pub settings_are : cfg.router_settings ≡ default_settings

abbrev assembled : File → List ProviderSlot → List (List ModelEntry) → Config
assembled env slots models = record {
  router_settings = default_settings;
  model_list = concat models;
  proxy_keys = env.proxy_keys;
  degradation_mode = codes "normal";
  providers = slots;
}

pub load-Parts : (y : Yaml) (dir : Directory) (cfg : Config) → load y dir ≡ ok cfg → Parts y dir cfg
unfolding load
load-Parts y dir cfg h =
    let (env, keys_read, more) = >>=-eq-ok (read_keys dir.keys_env) (λ env. rest env) h in
    let (slots, provided, later) =
      >>=-eq-ok (load_providers y dir.provider_yaml env) (λ slots. tail env slots)
        (no_aliases env more) in
    let (models, modelled, done) =
      >>=-eq-ok (load_models y dir.models_yaml slots) (λ models. ok (assembled env slots models))
        later in
    let q : assembled env slots models ≡ cfg = cc in
    subst (Parts y dir) q (record {
      env = env;
      models = models;
      providers_from = provided;
      models_from = modelled;
      entries_are = refl;
      settings_are = refl;
    })
  where
    tail : File → List ProviderSlot → Result LoadError Config
    tail env slots =
        load_models y dir.models_yaml slots >>= λ models. ok (assembled env slots models)

    rest : File → Result LoadError Config
    rest env =
        guard (not dir.has_aliases) LoadError.legacy_aliases
        >> (load_providers y dir.provider_yaml env >>= λ slots. tail env slots)

    no_aliases :
        (env : File)
        → rest env ≡ ok cfg
        → (load_providers y dir.provider_yaml env >>= λ slots. tail env slots) ≡ ok cfg
    no_aliases env e = ground (arith, e)

-- A configuration that loads has a provider slot; each of its slots has a credential, a known
-- adapter and, where the adapter needs one, an address; and each of its model entries stands on such
-- a slot, which serves its kind and its media, with limits, context window, attempt budget and
-- completion cap above zero wherever they are set, and retries that are not negative.
pub load-IsServable :
    (y : Yaml) (dir : Directory) (cfg : Config)
    → load y dir ≡ ok cfg
    → (is_empty cfg.providers ≡ false)
      × All IsUsable cfg.providers
      × All (IsServable cfg.providers) cfg.model_list
load-IsServable y dir cfg h =
    let p = load-Parts y dir cfg h in
    let (usable, given) =
      load_providers-IsUsable y dir.provider_yaml p.env cfg.providers p.providers_from in
    (
      given,
      usable,
      subst (All (IsServable cfg.providers)) (sym p.entries_are)
          (load_models-IsServable y dir.models_yaml cfg.providers p.models p.models_from),
    )
