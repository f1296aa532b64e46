-- ===== src/Config/Load/Serves.antt =====
-- internal/config/load.go with internal/router/router.go: a loaded configuration serves what it
-- declares.
use llm_pico.Common.{
  List, All, Among, ◌∷◌, ◌≡◌, Bool-cases, false, inl, ap, inr, ℕ, none, [], sym, ◌∙◌, refl, arith,
}
use llm_pico.Common.Bytes.{Bytes, bytes_eq, bytes_eq_refl}
use llm_pico.Common.Result.{ok}
use llm_pico.Config.{slots, ModelEntry}
use llm_pico.Config.Load.{Directory, Config, load}
use llm_pico.Config.Load.Entries.{IsServable, load-IsServable}
use llm_pico.Config.Load.Sound.{IsUsable}
use llm_pico.Config.Load.Start.{
  LeadsTo, resolve_in-LeadsTo, add_entries-cooldown, new_router-groups,
}
use llm_pico.Config.Providers.{ProviderSlot}
use llm_pico.Config.Yaml.{Yaml}
use llm_pico.KeysEnv.{is_empty}
use llm_pico.Router.Feedback.{new_router}
use llm_pico.Router.Float.{Float}
use llm_pico.Router.Table.{resolve_slot, is_cooling_down, Table, resolve_in}
use mathlib.Core.Path.{subst}

Among-slots : (e : ModelEntry) (es : List ModelEntry) → Among e es → Among e (slots es e.model_name)
unfolding slots
Among-slots e [] m = elim m [ ]
Among-slots e (x ∷ es) (inl q) = rw (← q) (rw (bytes_eq_refl e.model_name) (inl refl))
Among-slots e (x ∷ es) (inr m) = elim (Bool-cases (bytes_eq x.model_name e.model_name)) [
  | inl same ↦ rw same (inr (Among-slots e es m))
  | inr other ↦ rw other (Among-slots e es m)
]

All-slots :
    (P : ModelEntry → Type 0) (es : List ModelEntry) (name : Bytes)
    → All P es
    → All P (slots es name)
unfolding slots
All-slots P [] name h = tt
All-slots P (e ∷ es) name (p, h) = elim (Bool-cases (bytes_eq e.model_name name)) [
  | inl same ↦ rw same (p, All-slots P es name h)
  | inr other ↦ rw other (All-slots P es name h)
]

All-Among : {A : Type 0} (P : A → Type 0) (xs : List A) (x : A) → All P xs → Among x xs → P x
All-Among P [] x h m = elim m [ ]
All-Among P (y ∷ ys) x (p, h) (inl q) = subst P (sym q) p
All-Among P (y ∷ ys) x (p, h) (inr m) = All-Among P ys x h m

abbrev HasKeys : ModelEntry → Type 0
HasKeys e = is_empty e.model_params.api_keys ≡ false

entries-HasKeys :
    (slots : List ProviderSlot) (es : List ModelEntry)
    → All IsUsable slots
    → All (IsServable slots) es
    → All HasKeys es
entries-HasKeys slots [] u h = tt
entries-HasKeys slots (e ∷ es) u (s, h) = (
  ap is_empty s.keys_are ∙ (All-Among IsUsable slots s.slot u s.listed).has_key,
  entries-HasKeys slots es u h,
)

module _ (fl : Float) where
  resolve_slot-warm :
      (r : Table fl.F) (name slot : Bytes) (now : ℕ)
      → r.model_cooldown name ≡ none
      → (resolve_slot r name slot now).0 ≡ (resolve_in (r.groups name) slot now).0
  unfolding resolve_slot is_cooling_down
  resolve_slot-warm r name slot now h = ground (arith, h)

  -- Each entry of a configuration that loads is served from the start: at any time, the router that is
  -- built from the configuration resolves the entry's model on the entry's provider to a credential of
  -- an entry of the configuration that has the same model name and stands on that provider.
  pub load-LeadsTo :
      (y : Yaml) (dir : Directory) (cfg : Config) (e : ModelEntry) (now : ℕ)
      → load y dir ≡ ok cfg
      → Among e cfg.model_list
      → LeadsTo fl
          (slots cfg.model_list e.model_name)
          e.provider
          (resolve_slot
            (new_router fl cfg.router_settings cfg.model_list)
            e.model_name
            e.provider
            now).0
  unfolding new_router
  load-LeadsTo y dir cfg e now h m =
      let (given, usable, servable) = load-IsServable y dir cfg h in
      let es = slots cfg.model_list e.model_name in
      let served =
        resolve_in-LeadsTo fl cfg.router_settings es e now
          (All-slots HasKeys cfg.model_list e.model_name
            (entries-HasKeys cfg.providers cfg.model_list usable servable))
          (All-Among (IsServable cfg.providers) cfg.model_list e servable m).provider_named
          (Among-slots e cfg.model_list m) in
      subst (LeadsTo fl es e.provider)
        (sym (
          resolve_slot-warm (new_router fl cfg.router_settings cfg.model_list) e.model_name
            e.provider now
            (add_entries-cooldown fl cfg.router_settings _ cfg.model_list e.model_name)
          ∙ ap (λ gs. (resolve_in gs e.provider now).0)
              (new_router-groups fl cfg.router_settings cfg.model_list e.model_name)))
        served
