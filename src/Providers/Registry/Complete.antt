-- ===== src/Providers/Registry/Complete.antt =====
-- internal/providers/registry.go: what a lookup finds after any changes to the registry.
-- A spec that an adapter can be built from.
use llm_pico.Common.{
  [], Option, List, ◌≡◌, some, ◌∷◌, false, none, arith, true, Bool-cases, inl, inr, refl, ◌⊎◌,
  Option-cases, ◌∙◌,
}
use llm_pico.Common.Bytes.{Bytes, assign, bytes_eq, codes}
use llm_pico.Common.Result.{Result}
use llm_pico.Common.Text.{lower}
use llm_pico.Providers.Registry.{
  Definition, define, completed, UrlParser, Registry, Spec, remove, err, ok, is_protocol,
  is_base_url, or_default, spec_of, lookup, DefineError, built_in, new_registry, lookup_key,
}
use mathlib.Core.Option.{some-injective}
use mathlib.Core.Path.{subst}

pub record IsComplete (parse : UrlParser) (s : Spec) : Type 0 where
  pub named : bytes_eq s.display_name [] ≡ false
  pub spoken : is_protocol s.protocol ≡ true
  pub reachable : is_base_url parse s.base_url ≡ true
  pub has_auth : bytes_eq s.auth [] ≡ false
  pub has_header : bytes_eq s.auth (codes "header_key") ≡ true → bytes_eq s.auth_header [] ≡ false
  pub has_param : bytes_eq s.auth (codes "query_key") ≡ true → bytes_eq s.query_param [] ≡ false

abbrev AreComplete : UrlParser → Registry → Type 0
AreComplete parse reg = (k : Bytes) (d : Definition) → reg k ≡ some d → IsComplete parse (spec_of d)

-- A change that a caller asks for; a definition that is refused changes nothing.
pub data Change : Type 0 where
  defining : Definition → Change
  removing : Bytes → Change

unfoldable pub apply : UrlParser → Registry → Change → Registry
apply parse reg (Change.defining d) = elim (define parse reg d) [ err e ↦ reg | ok reg' ↦ reg' ]
apply parse reg (Change.removing slug) = remove reg slug

unfoldable pub apply_all : UrlParser → Registry → List Change → Registry
apply_all parse reg [] = reg
apply_all parse reg (c ∷ cs) = apply_all parse (apply parse reg c) cs

or_default-nonempty :
    (default s : Bytes) → bytes_eq default [] ≡ false → bytes_eq (or_default default s) [] ≡ false
or_default-nonempty default s h = ground (arith, h)

completed-IsComplete :
    (parse : UrlParser) (d : Definition)
    → bytes_eq d.slug [] ≡ false
    → is_base_url parse d.base_url ≡ true
    → is_protocol (or_default (codes "openai") d.protocol) ≡ true
    → IsComplete parse (spec_of (completed d))
unfolding completed bytes_eq
completed-IsComplete parse d slug url protocol = record {
  named = or_default-nonempty d.slug d.display_name slug;
  spoken = protocol;
  reachable = url;
  has_auth = or_default-nonempty (codes "bearer") d.auth refl;
  has_header = λ h. rw h (or_default-nonempty (codes "x-api-key") d.auth_header refl);
  has_param = λ h. rw h (or_default-nonempty (codes "key") d.query_param refl);
}

assign-AreComplete :
    (parse : UrlParser) (reg : Registry) (key : Bytes) (o : Option Definition)
    → AreComplete parse reg
    → ((d : Definition) → o ≡ some d → IsComplete parse (spec_of d))
    → AreComplete parse (assign reg key o)
unfolding assign
assign-AreComplete parse reg key o all new k d h = elim (Bool-cases (bytes_eq key k)) [
  | inl same ↦ new d (ground (arith, same, h))
  | inr other ↦ all k d (ground (arith, other, h))
]

define-checks :
    (parse : UrlParser) (reg reg' : Registry) (d : Definition)
    → define parse reg d ≡ ok reg'
    → (bytes_eq d.slug [] ≡ false)
      × (is_base_url parse d.base_url ≡ true)
      × (is_protocol (or_default (codes "openai") d.protocol) ≡ true)
      × (assign reg (lower d.slug) (some (completed d)) ≡ reg')
unfolding define
define-checks parse reg reg' d h = ground arith

define-AreComplete :
    (parse : UrlParser) (reg reg' : Registry) (d : Definition)
    → AreComplete parse reg
    → define parse reg d ≡ ok reg'
    → AreComplete parse reg'
define-AreComplete parse reg reg' d all h =
    let (slug, url, protocol, becomes) = define-checks parse reg reg' d h in
    subst (AreComplete parse) becomes (
      assign-AreComplete parse reg (lower d.slug) (some (completed d)) all λ e q.
        subst (λ (x : Definition). IsComplete parse (spec_of x)) (some-injective (completed d) e q)
          (completed-IsComplete parse d slug url protocol))

apply-AreComplete :
    (parse : UrlParser) (reg : Registry) (c : Change)
    → AreComplete parse reg
    → AreComplete parse (apply parse reg c)
unfolding apply remove
apply-AreComplete parse reg (Change.removing slug) all =
    assign-AreComplete parse reg (lower slug) none all λ d h. absurd (cc)
apply-AreComplete parse reg (Change.defining d) all = outcome (define parse reg d) refl
  where
    outcome :
        (x : Result DefineError Registry)
        → define parse reg d ≡ x
        → AreComplete parse (elim x [ err e ↦ reg | ok reg' ↦ reg' ])
    outcome (err e) h = all
    outcome (ok reg') h = define-AreComplete parse reg reg' d all h

apply_all-AreComplete :
    (parse : UrlParser) (reg : Registry) (cs : List Change)
    → AreComplete parse reg
    → AreComplete parse (apply_all parse reg cs)
unfolding apply_all
apply_all-AreComplete parse reg [] all = all
apply_all-AreComplete parse reg (c ∷ cs) all =
    apply_all-AreComplete parse (apply parse reg c) cs (apply-AreComplete parse reg c all)

lookup-found :
    (parse : UrlParser) (reg : Registry) (slug : Bytes) (s : Spec)
    → AreComplete parse reg
    → lookup reg slug ≡ some s
    → (built_in (lookup_key slug) ≡ some s) ⊎ IsComplete parse s
unfolding lookup
lookup-found parse reg slug s all h = elim (Option-cases (built_in (lookup_key slug))) [
  | inl none_built ↦ elim (Option-cases (reg (lookup_key slug))) [
    | inl missing ↦ ground (arith, none_built, missing, h)
    | inr (d, q) ↦
        inr
          (subst (IsComplete parse) (ground (arith, none_built, q, h)) (all (lookup_key slug) d q))
  ]
  | inr (b, q) ↦ inl (q ∙ ground (arith, q, h))
]

-- After any definitions and removals, whatever a lookup finds is a provider that is compiled in, or a
-- definition with a display name, a known protocol, an http or https URL with a host, a style of
-- authentication, and the name of the header or the parameter that the style asks for.
pub lookup-IsComplete :
    (parse : UrlParser) (cs : List Change) (slug : Bytes) (s : Spec)
    → lookup (apply_all parse new_registry cs) slug ≡ some s
    → (built_in (lookup_key slug) ≡ some s) ⊎ IsComplete parse s
lookup-IsComplete parse cs slug s h =
    lookup-found parse (apply_all parse new_registry cs) slug s
      (apply_all-AreComplete parse new_registry cs λ k d q. absurd (cc)) h
