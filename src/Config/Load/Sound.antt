-- ===== src/Config/Load/Sound.antt =====
-- internal/config/load.go: what the provider slots of a loaded configuration hold, and what a model
-- definition holds as far as it is read.
use llm_pico.Common.{
  List, ◌≡◌, false, arith, true, ◌∷◌, [], ◌&&◌, All, Option, Bool, some, refl, Option-cases, inl,
  inr,
}
use llm_pico.Common.Bytes.{Bytes, bytes_eq, codes, assign}
use llm_pico.Common.Result.{ok, >>=-eq-ok, ◌>>=◌}
use llm_pico.Common.Signed.{ℤ, pos}
use llm_pico.Common.Text.{drop_empty, split}
use llm_pico.Config.Expand.{or_else}
use llm_pico.Config.Models.{
  ModelDef, maybe_limit, checked_int, parse_field, not_negative, Field, positive_int, all_known,
  non_negative_int, parse_fields, empty_def, field_named,
}
use llm_pico.Config.Providers.{
  key_values, load_slot, ProviderSlot, check_adapter, provider_protocol, is_some, absent_or_above,
  load_providers, load_slots, above_zero, LoadError,
}
use llm_pico.Config.Yaml.{
  nil, Yaml, Node, scalar_items, name_list, Nodes, comma_list, cons, NodeKind, node,
}
use llm_pico.KeysEnv.{is_empty, File}
use mathlib.Core.Path.{subst}

-- A provider slot that requests can be sent to.
pub record IsUsable (p : ProviderSlot) : Type 0 where
  pub has_key : is_empty p.keys ≡ false
  pub known : is_some (provider_protocol p.adapter) ≡ true
  pub has_url : bytes_eq p.adapter (codes "openai-compat") && is_empty p.base_url ≡ false
  pub bounded : absent_or_above p.ctx ≡ true

key_values-is_empty :
    (env : List (Bytes × Bytes)) (names values : List Bytes)
    → key_values env names ≡ ok values
    → is_empty values ≡ is_empty names
unfolding key_values
key_values-is_empty env [] values h = ground arith
key_values-is_empty env (n ∷ ns) values h = ground arith

check_adapter-known :
    (adapter base_url : Bytes) (u : Unit {0})
    → check_adapter adapter base_url ≡ ok u
    → (is_some (provider_protocol adapter) ≡ true)
      × (bytes_eq adapter (codes "openai-compat") && is_empty base_url ≡ false)
unfolding check_adapter provider_protocol
check_adapter-known adapter base_url u h = ground arith

load_slot-IsUsable :
    (y : Yaml) (env : File) (name : Bytes) (entry : Node) (p : ProviderSlot)
    → load_slot y env name entry ≡ ok p
    → IsUsable p
unfolding load_slot
load_slot-IsUsable y env name entry p h = grind (arith, key_values-is_empty, check_adapter-known)

load_slots-IsUsable :
    (y : Yaml) (env : File) (es : List (Bytes × Node)) (ps : List ProviderSlot)
    → load_slots y env es ≡ ok ps
    → All IsUsable ps
unfolding load_slots
load_slots-IsUsable y env [] ps h = let q : [] ≡ ps = cc in subst (All IsUsable) q tt
load_slots-IsUsable y env ((name, entry) ∷ es) ps h =
    let (p, one, more) =
      >>=-eq-ok (load_slot y env name entry)
        (λ slot. load_slots y env es >>= λ rest. ok (slot ∷ rest)) h in
    let (rest, later, done) = >>=-eq-ok (load_slots y env es) (λ rest. ok (p ∷ rest)) more in
    let q : p ∷ rest ≡ ps = cc in
    subst (All IsUsable) q
      (load_slot-IsUsable y env name entry p one, load_slots-IsUsable y env es rest later)

pub load_providers-IsUsable :
    (y : Yaml) (file : Option Bytes) (env : File) (ps : List ProviderSlot)
    → load_providers y file env ≡ ok ps
    → All IsUsable ps × (is_empty ps ≡ false)
unfolding load_providers
load_providers-IsUsable y file env ps h = (grind (arith, load_slots-IsUsable), ground arith)

abbrev pub HasName : Bytes → Type 0
HasName n = is_empty n ≡ false

drop_empty-HasName : (ps : List Bytes) → All HasName (drop_empty ps)
unfolding drop_empty
drop_empty-HasName [] = tt
drop_empty-HasName (p ∷ ps) = ground (arith, drop_empty-HasName ps)

scalar_items-HasName :
    (ns : Nodes) (names : List Bytes) → scalar_items ns ≡ some names → All HasName names
unfolding scalar_items
scalar_items-HasName nil names h = let q : [] ≡ names = cc in subst (All HasName) q tt
scalar_items-HasName (cons n ns) names h = elim (Option-cases (scalar_items ns)) [
  | inl bad ↦ ground (arith, bad, h)
  | inr (vs, good) ↦ ground (arith, good, h, scalar_items-HasName ns vs good)
]

name_list-HasName : (n : Node) (names : List Bytes) → name_list n ≡ some names → All HasName names
unfolding name_list comma_list
name_list-HasName (node NodeKind.sequence t v ns) names h = scalar_items-HasName ns names h
name_list-HasName (node NodeKind.scalar t v ns) names h =
    let q : drop_empty ((split v).0 ∷ (split v).1) ≡ names = cc in
    subst (All HasName) q (drop_empty-HasName ((split v).0 ∷ (split v).1))
name_list-HasName (node k t v ns) names h = ground (arith, h)

-- The numbers of a definition as far as it is read, and its providers.
pub record IsChecked (slots : List ProviderSlot) (md : ModelDef) : Type 0 where
  pub limits_above : (k : Bytes) → absent_or_above (md.limits k) ≡ true
  pub ctx_above : absent_or_above md.ctx ≡ true
  pub dims_above : absent_or_above md.dims ≡ true
  pub budget_above : absent_or_above md.budget ≡ true
  pub max_out_above : absent_or_above md.max_out ≡ true
  pub retries_not_negative : not_negative (or_else md.retries (pos 0)) ≡ true
  pub providers_known : all_known slots md.provider ≡ true
  pub providers_named : All HasName md.provider

checked_int-test :
    (test : ℤ → Bool) (e : LoadError) (y : Yaml) (n : Node) (v : ℤ)
    → checked_int test e y n ≡ ok v
    → test v ≡ true
unfolding checked_int
checked_int-test test e y n v h = ground arith

positive_int-above : (y : Yaml) (n : Node) (v : ℤ) → positive_int y n ≡ ok v → above_zero v ≡ true
unfolding positive_int
positive_int-above y n v h = checked_int-test above_zero LoadError.not_positive y n v h

non_negative_int-not :
    (y : Yaml) (n : Node) (v : ℤ) → non_negative_int y n ≡ ok v → not_negative v ≡ true
unfolding non_negative_int
non_negative_int-not y n v h = checked_int-test not_negative LoadError.negative y n v h

maybe_limit-above :
    (y : Yaml) (md : ModelDef) (key : Bytes) (n : Node) (v : ℤ)
    → maybe_limit y md key n ≡ ok v
    → above_zero v ≡ true
unfolding maybe_limit
maybe_limit-above y md key n v h = ground (arith, positive_int-above y n v)

with_limit-IsChecked :
    (slots : List ProviderSlot) (md : ModelDef) (key : Bytes) (v : ℤ)
    → IsChecked slots md
    → above_zero v ≡ true
    → IsChecked slots (record md { limits = assign md.limits key (some v) })
unfolding assign
with_limit-IsChecked slots md key v c h = record {
  limits_above = λ k. ground (arith, c.limits_above k);
  ctx_above = c.ctx_above;
  dims_above = c.dims_above;
  budget_above = c.budget_above;
  max_out_above = c.max_out_above;
  retries_not_negative = c.retries_not_negative;
  providers_known = c.providers_known;
  providers_named = c.providers_named;
}

parse_field-IsChecked :
    (y : Yaml) (slots : List ProviderSlot) (f : Field) (key : Bytes) (n : Node) (md md' : ModelDef)
    → IsChecked slots md
    → parse_field y slots f key n md ≡ ok md'
    → IsChecked slots md'
unfolding parse_field
parse_field-IsChecked y slots Field.kind_field key n md md' c h = grind arith
parse_field-IsChecked y slots Field.providers_field key n md md' c h =
    grind (arith, name_list-HasName)
parse_field-IsChecked y slots Field.other_field key n md md' c h =
    let (v, one, more) =
      >>=-eq-ok (maybe_limit y md key n)
        (λ v. ok (record md { limits = assign md.limits key (some v) })) h in
    let q : record md { limits = assign md.limits key (some v) } ≡ md' = cc in
    subst (IsChecked slots) q
      (with_limit-IsChecked slots md key v c (maybe_limit-above y md key n v one))
parse_field-IsChecked y slots f key n md md' c h =
    grind (arith, positive_int-above, non_negative_int-not)

pub parse_fields-IsChecked :
    (y : Yaml) (slots : List ProviderSlot) (es : List (Bytes × Node)) (md md' : ModelDef)
    → IsChecked slots md
    → parse_fields y slots es md ≡ ok md'
    → IsChecked slots md'
unfolding parse_fields
parse_fields-IsChecked y slots [] md md' c h = let q : md ≡ md' = cc in subst (IsChecked slots) q c
parse_fields-IsChecked y slots ((k, n) ∷ es) md md' c h =
    let (next, one, more) =
      >>=-eq-ok (parse_field y slots (field_named k) k n md) (λ md'. parse_fields y slots es md')
        h in
    parse_fields-IsChecked y slots es next md'
      (parse_field-IsChecked y slots (field_named k) k n md next c one) more

pub empty_def-IsChecked :
    (slots : List ProviderSlot) (name : Bytes) → IsChecked slots (empty_def name)
unfolding all_known
empty_def-IsChecked slots name = record {
  limits_above = λ k. refl;
  ctx_above = refl;
  dims_above = refl;
  budget_above = refl;
  max_out_above = refl;
  retries_not_negative = refl;
  providers_known = refl;
  providers_named = tt;
}
