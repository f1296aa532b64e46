-- ===== src/Config/Load/Fields.antt =====
-- internal/config/load.go: how a model definition depends on which of its fields stand where.
use llm_pico.Common.{List, All, ◌≢◌, ◌≡◌, none, ◌++◌, arith, [], ◌∷◌, refl, ◌∙◌, some}
use llm_pico.Common.Bytes.{Bytes, assign}
use llm_pico.Common.Result.{ok, >>=-eq-ok}
use llm_pico.Common.Signed.{ℤ}
use llm_pico.Config.{ModelEntry}
use llm_pico.Config.Expand.{parse_model, finish_model, expand_slots}
use llm_pico.Config.Models.{
  parse_field, parse_fields, Field, ModelDef, field_named, maybe_limit, empty_def, is_among,
}
use llm_pico.Config.Providers.{ProviderSlot}
use llm_pico.Config.Yaml.{Yaml, Node, entries}
use mathlib.Core.Path.{subst}

-- None of the fields is the given one.
abbrev pub Without : Field → List (Bytes × Node) → Type 0
Without f es = All (λ (e : Bytes × Node). field_named e.0 ≢ f) es

parse_field-kind :
    (y : Yaml) (slots : List ProviderSlot) (f : Field) (key : Bytes) (n : Node) (md md' : ModelDef)
    → f ≢ Field.kind_field
    → parse_field y slots f key n md ≡ ok md'
    → md'.kind ≡ md.kind
unfolding parse_field
parse_field-kind y slots Field.kind_field key n md md' other h = absurd (other refl)
parse_field-kind y slots f key n md md' other h = ground (arith, h)

maybe_limit-no_kind :
    (y : Yaml) (md : ModelDef) (key : Bytes) (n : Node) (v : ℤ)
    → md.kind ≡ none
    → maybe_limit y md key n ≢ ok v
unfolding maybe_limit is_among
maybe_limit-no_kind y md key n v none_yet h = ground (arith, none_yet, h)

parse_field-limit_first :
    (y : Yaml) (slots : List ProviderSlot) (key : Bytes) (n : Node) (md md' : ModelDef)
    → md.kind ≡ none
    → parse_field y slots Field.other_field key n md ≢ ok md'
unfolding parse_field
parse_field-limit_first y slots key n md md' none_yet h =
    let (v, one, more) =
      >>=-eq-ok (maybe_limit y md key n)
        (λ v. ok (record md { limits = assign md.limits key (some v) })) h in
    maybe_limit-no_kind y md key n v none_yet one

-- A limit that stands before the kind of its model is an error, whatever stands before and after it.
pub parse_fields-limit_first :
    (y : Yaml) (slots : List ProviderSlot) (before after : List (Bytes × Node)) (key : Bytes)
    (n : Node) (md md' : ModelDef)
    → md.kind ≡ none
    → Without Field.kind_field before
    → field_named key ≡ Field.other_field
    → parse_fields y slots (before ++ (key, n) ∷ after) md ≢ ok md'
unfolding parse_fields
parse_fields-limit_first y slots [] after key n md md' none_yet w f h =
    let (next, one, more) =
      >>=-eq-ok (parse_field y slots (field_named key) key n md) (λ m. parse_fields y slots after m)
        h in
    parse_field-limit_first y slots key n md next none_yet
      (subst (λ f. parse_field y slots f key n md ≡ ok next) f one)
parse_fields-limit_first y slots ((k, v) ∷ before) after key n md md' none_yet (w, ws) f h =
    let (next, one, more) =
      >>=-eq-ok (parse_field y slots (field_named k) k v md)
        (λ m. parse_fields y slots (before ++ (key, n) ∷ after) m) h in
    parse_fields-limit_first y slots before after key n next md'
      (parse_field-kind y slots (field_named k) k v md next w one ∙ none_yet) ws f more

parse_field-provider :
    (y : Yaml) (slots : List ProviderSlot) (f : Field) (key : Bytes) (n : Node) (md md' : ModelDef)
    → f ≢ Field.providers_field
    → parse_field y slots f key n md ≡ ok md'
    → md'.provider ≡ md.provider
unfolding parse_field
parse_field-provider y slots Field.providers_field key n md md' other h = absurd (other refl)
parse_field-provider y slots f key n md md' other h = ground (arith, h)

parse_fields-provider :
    (y : Yaml) (slots : List ProviderSlot) (es : List (Bytes × Node)) (md md' : ModelDef)
    → Without Field.providers_field es
    → parse_fields y slots es md ≡ ok md'
    → md'.provider ≡ md.provider
unfolding parse_fields
parse_fields-provider y slots [] md md' w h = ground (arith, h)
parse_fields-provider y slots ((k, v) ∷ es) md md' (w, ws) h =
    let (next, one, more) =
      >>=-eq-ok (parse_field y slots (field_named k) k v md) (λ m. parse_fields y slots es m) h in
    parse_fields-provider y slots es next md' ws more
    ∙ parse_field-provider y slots (field_named k) k v md next w one

-- A model without the field 'providers' that is accepted comes to no entry at all.
pub parse_model-no_providers :
    (y : Yaml) (slots : List ProviderSlot) (name : Bytes) (n : Node) (es : List ModelEntry)
    → Without Field.providers_field (entries n)
    → parse_model y slots name n ≡ ok es
    → es ≡ []
unfolding parse_model finish_model expand_slots
parse_model-no_providers y slots name n es w h =
    let (md, read, done) =
      >>=-eq-ok (parse_fields y slots (entries n) (empty_def name)) (λ md. finish_model slots md)
        h in
    ground (arith, done, parse_fields-provider y slots (entries n) (empty_def name) md w read)
