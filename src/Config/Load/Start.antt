-- ===== src/Config/Load/Start.antt =====
-- internal/config/load.go with internal/router/router.go: the router that starts from a loaded
-- configuration.
use llm_pico.Common.{
  List, map, ◌++◌, ◌≡◌, ◌∷◌, [], refl, sym, ◌∙◌, Bool-cases, inl, inr, ℕ, Among, if◌then◌else◌,
  none, false, arith, ap, true, All,
}
use llm_pico.Common.Bytes.{Bytes, bytes_eq, bytes_eq→eq, assign, bytes_eq_refl}
use llm_pico.Config.{slots, RouterSettings, ModelEntry, provider_slug, keys}
use llm_pico.KeysEnv.{is_empty}
use llm_pico.Router.Breaker.{allows, BreakerState}
use llm_pico.Router.Eligible.{pick_key-PickIs, PickIs}
use llm_pico.Router.Feedback.{add_entries, new_group, add_entry, new_router}
use llm_pico.Router.Float.{Float}
use llm_pico.Router.Group.{KeyState, cooling, Group}
use llm_pico.Router.Table.{Table, Resolved, Target, resolve_group, target_of, resolve_in, serves}
use mathlib.Core.List.{append-nil, append_assoc}
use mathlib.Core.Path.{subst}

map-append-one :
    {A B : Type 0} (f : A → B) (xs ys : List A) → map f (xs ++ ys) ≡ map f xs ++ map f ys
map-append-one f [] ys = refl
map-append-one f (x ∷ xs) ys = rw (map-append-one f xs ys)

-- A group with a closed breaker and a credential that is not cooling down is resolved to one of its
-- credentials.
resolve_group-closed :
    {F : Type 0} (g : Group F) (now : ℕ) (k₀ : KeyState)
    → g.breaker.state ≡ BreakerState.closed
    → Among k₀ g.keys
    → cooling k₀ now ≡ false
    → (k : KeyState) × Among k g.keys
      × ((resolve_group g now).0
          ≡ Resolved.target (target_of (record g { last_key = k.api_key }) k.api_key))
unfolding resolve_group allows
resolve_group-closed g now k₀ closed m c = elim (pick_key-PickIs g now) [
  | PickIs.hands_out k e q among fit ↦ (k, among, ground (arith, q, closed))
  | PickIs.reports e q ends all ↦ ground (arith, all k₀ m, c)
]

module _ (fl : Float) where
  open fl use {F}

  add_entry-groups :
      (settings : RouterSettings) (r : Table F) (e : ModelEntry) (name : Bytes)
      → (add_entry fl settings r e).groups name ≡ (
          if bytes_eq e.model_name name
          then r.groups e.model_name ++ new_group fl settings e ∷ []
          else r.groups name)
  unfolding add_entry assign
  add_entry-groups settings r e name = refl

  add_entries-groups :
      (settings : RouterSettings) (r : Table F) (es : List ModelEntry) (name : Bytes)
      → (add_entries fl settings r es).groups name
        ≡ r.groups name ++ map (new_group fl settings) (slots es name)
  unfolding add_entries slots
  add_entries-groups settings r [] name = sym (append-nil (r.groups name))
  add_entries-groups settings r (e ∷ es) name =
      add_entries-groups settings (add_entry fl settings r e) es name
      ∙ (elim (Bool-cases (bytes_eq e.model_name name)) [
        | inl same ↦
            rw (add_entry-groups settings r e name)
              (rw same (rw (bytes_eq→eq e.model_name name same) (rw append_assoc)))
        | inr other ↦ rw (add_entry-groups settings r e name) (rw other)
      ])

  -- `New` gives a model one group for each of its entries, in their order.
  pub new_router-groups :
      (settings : RouterSettings) (es : List ModelEntry) (name : Bytes)
      → (new_router fl settings es).groups name ≡ map (new_group fl settings) (slots es name)
  unfolding new_router
  new_router-groups settings es name = add_entries-groups settings _ es name

  pub add_entries-cooldown :
      (settings : RouterSettings) (r : Table F) (es : List ModelEntry) (name : Bytes)
      → (add_entries fl settings r es).model_cooldown name ≡ r.model_cooldown name
  unfolding add_entries add_entry
  add_entries-cooldown settings r [] name = refl
  add_entries-cooldown settings r (e ∷ es) name =
      add_entries-cooldown settings (add_entry fl settings r e) es name

  -- A resolution that leads to a credential of an entry that stands on the slot.
  abbrev pub LeadsTo : List ModelEntry → Bytes → Resolved → Type 0
  LeadsTo es slot found =
      (t : Target) × (found ≡ Resolved.target t)
      × Among t.model es
      × Among t.api_key t.model.model_params.api_keys
      × (bytes_eq (provider_slug t.model) slot ≡ true)

  abbrev fresh_key : Bytes → KeyState
  fresh_key k = record { api_key = k; cooldown_until = none; fails = 0 }

  fresh_keys-Among :
      (ks : List Bytes) (k : KeyState) → Among k (map fresh_key ks) → Among k.api_key ks
  fresh_keys-Among [] k m = elim m [ ]
  fresh_keys-Among (a ∷ ks) k (inl q) = rw q (inl refl)
  fresh_keys-Among (a ∷ ks) k (inr m) = inr (fresh_keys-Among ks k m)

  Among-fresh_key :
      (k : Bytes) (ks : List Bytes) → Among k ks → Among (fresh_key k) (map fresh_key ks)
  Among-fresh_key k [] m = elim m [ ]
  Among-fresh_key k (a ∷ ks) (inl q) = inl (ap fresh_key q)
  Among-fresh_key k (a ∷ ks) (inr m) = inr (Among-fresh_key k ks m)

  not_cooling : (k : Bytes) (now : ℕ) → cooling (fresh_key k) now ≡ false
  unfolding cooling
  not_cooling k now = refl

  first-Among : (ks : List Bytes) → is_empty ks ≡ false → (k : Bytes) × Among k ks
  first-Among [] h = ground (arith, h)
  first-Among (k ∷ ks) h = (k, inl refl)

  new_group-keys :
      (settings : RouterSettings) (e : ModelEntry)
      → is_empty e.model_params.api_keys ≡ false
      → (new_group fl settings e).keys ≡ map fresh_key e.model_params.api_keys
  unfolding new_group keys
  new_group-keys settings e h = ground (arith, h)

  -- The group of an entry with credentials leads to one of them.
  new_group-LeadsTo :
      (settings : RouterSettings) (e : ModelEntry) (now : ℕ)
      → is_empty e.model_params.api_keys ≡ false
      → (t : Target) × ((resolve_group (new_group fl settings e) now).0 ≡ Resolved.target t)
        × (t.model ≡ e)
        × Among t.api_key e.model_params.api_keys
  unfolding new_group target_of
  new_group-LeadsTo settings e now h =
      let (k₀, m) = first-Among e.model_params.api_keys h in
      let keys_are = new_group-keys settings e h in
      let (k, among, found) =
        resolve_group-closed (new_group fl settings e) now (fresh_key k₀) refl
          (subst (Among (fresh_key k₀)) (sym keys_are)
            (Among-fresh_key k₀ e.model_params.api_keys m))
          (not_cooling k₀ now) in
      (
        target_of (record (new_group fl settings e) { last_key = k.api_key }) k.api_key,
        found,
        refl,
        fresh_keys-Among e.model_params.api_keys k (subst (Among k) keys_are among),
      )

  serves-slug :
      (settings : RouterSettings) (x : ModelEntry) (slot : Bytes)
      → serves (new_group fl settings x) slot ≡ bytes_eq (provider_slug x) slot
  unfolding new_group provider_slug
  serves-slug settings x slot = ground (arith, bytes_eq→eq x.provider [])

  provider_slug-named :
      (x : ModelEntry) → is_empty x.provider ≡ false → provider_slug x ≡ x.provider
  unfolding provider_slug bytes_eq
  provider_slug-named x h = ground (arith, bytes_eq→eq x.provider [], h)

  -- A slot that stands among entries with credentials leads to one of its own.
  pub resolve_in-LeadsTo :
      (settings : RouterSettings) (es : List ModelEntry) (e : ModelEntry) (now : ℕ)
      → All (λ (x : ModelEntry). is_empty x.model_params.api_keys ≡ false) es
      → is_empty e.provider ≡ false
      → Among e es
      → LeadsTo es e.provider (resolve_in (map (new_group fl settings) es) e.provider now).0
  unfolding resolve_in
  resolve_in-LeadsTo settings [] e now h named m = elim m [ ]
  resolve_in-LeadsTo settings (x ∷ es) e now (g, h) named m =
      elim (Bool-cases (serves (new_group fl settings x) e.provider)) [
        | inl here ↦
            let (t, found, model_is, key) = new_group-LeadsTo settings x now g in
            rw here (
              t,
              found,
              inl model_is,
              rw model_is key,
              rw model_is (sym (serves-slug settings x e.provider) ∙ here),
            )
        | inr elsewhere ↦
            let (t, found, among, key, slot) =
              resolve_in-LeadsTo settings es e now h named (later elsewhere m) in
            rw elsewhere (t, found, inr among, key, slot)
      ]
    where
      later : serves (new_group fl settings x) e.provider ≡ false → Among e (x ∷ es) → Among e es
      later no_match (inr n) = n
      later no_match (inl q) =
          let slug : provider_slug x ≡ e.provider = rw (← q) (provider_slug-named e named) in
          ground
            (arith, no_match, serves-slug settings x e.provider, slug, bytes_eq_refl e.provider)
