-- ===== src/Config/Registered/Found.antt =====
-- internal/config/config.go, Config.Registry: a provider of a configuration is found under its name.
use llm_pico.Common.{
  List, ◌≡◌, ◌∷◌, some, All, false, ap, ◌⊎◌, if-split, sym, [], Option, inl, ◌∙◌, inr, none, refl,
  if◌then◌else◌,
}
use llm_pico.Common.Bytes.{assign, Bytes, bytes_eq, codes, bytes_eq_refl}
use llm_pico.Common.Result.{Result, ok-inj, >>=-eq-ok, err}
use llm_pico.Common.Text.{lower, trim_space}
use llm_pico.Config.Providers.{ProviderSlot, provider_protocol, Protocol, adapter_caps}
use llm_pico.Config.Registered.{
  registry_of, register, slot_defined, ok, slot_definition, defined_as, RegistryError,
  protocol_name, default_base,
}
use llm_pico.Providers.Registry.{
  Registry, Definition, Spec, lookup, define, UrlParser, completed, DefineError, is_base_url,
  is_protocol, or_default, new_registry, built_in, spec_of,
}

-- The key of another provider.
abbrev IsOther : Bytes → ProviderSlot → Type 0
IsOther name q = bytes_eq (lower q.name) (lower name) ≡ false

-- A provider of the list after which no other has its name, upper and lower case being the same.
abbrev pub IsLatest : ProviderSlot → List ProviderSlot → Type 0
IsLatest p [] = ⊥
IsLatest p (q ∷ qs) = ((p ≡ q) × All (IsOther p.name) qs) ⊎ IsLatest p qs

define-ok :
    (parse : UrlParser) (reg next : Registry) (d : Definition)
    → define parse reg d ≡ ok next
    → next ≡ assign reg (lower d.slug) (some (completed d))
unfolding define
define-ok parse reg next d =
    if-split
      (λ (r : Result DefineError Registry).
        r ≡ ok next → next ≡ assign reg (lower d.slug) (some (completed d)))
      (bytes_eq d.slug []) (λ _ h. absurd (cc))
      (λ _.
        if-split
          (λ (r : Result DefineError Registry).
            r ≡ ok next → next ≡ assign reg (lower d.slug) (some (completed d)))
          (is_base_url parse d.base_url)
          (λ _.
            if-split
              (λ (r : Result DefineError Registry).
                r ≡ ok next → next ≡ assign reg (lower d.slug) (some (completed d)))
              (is_protocol (or_default (codes "openai") d.protocol)) (λ _ h. sym (ok-inj h))
              (λ _ h. absurd (cc)))
          (λ _ h. absurd (cc)))

-- What registering a provider has done.
register-ok :
    (parse : UrlParser) (reg next : Registry) (p : ProviderSlot)
    → register parse reg p ≡ ok next
    → (protocol : Protocol) × (provider_protocol p.adapter ≡ some protocol)
      × (next ≡ assign reg (lower p.name) (some (completed (slot_definition p protocol))))
unfolding register slot_defined
register-ok parse reg next p = go (provider_protocol p.adapter) refl
  where
    defined :
        (d : Definition) (r : Result DefineError Registry)
        → r ≡ define parse reg d
        → defined_as r ≡ ok next
        → define parse reg d ≡ ok next
    defined d (err e) same h = absurd (cc)
    defined d (ok found) same h = sym same ∙ ap (λ x. ok x) (ok-inj h)

    go :
        (o : Option Protocol)
        → provider_protocol p.adapter ≡ o
        → elim (elim o as (λ x. Option Definition) [
          | none ↦ none
          | some b ↦ some (slot_definition p b)
        ])
            as (λ x. Result RegistryError Registry) [
              | none ↦ err RegistryError.unknown_adapter
              | some d ↦ defined_as (define parse reg d)
            ]
          ≡ ok next
        → (protocol : Protocol) × (provider_protocol p.adapter ≡ some protocol)
          × (next ≡ assign reg (lower p.name) (some (completed (slot_definition p protocol))))
    go none e = λ h. absurd (cc)
    go (some b) e = λ h. (
      b,
      e,
      define-ok parse reg next (slot_definition p b)
          (defined (slot_definition p b) (define parse reg (slot_definition p b)) refl h),
    )

registry_of-others :
    (parse : UrlParser) (reg last : Registry) (name : Bytes) (qs : List ProviderSlot)
    → registry_of parse reg qs ≡ ok last
    → All (IsOther name) qs
    → last (lower name) ≡ reg (lower name)
unfolding registry_of assign
registry_of-others parse reg last name [] h k = ap (λ r. r (lower name)) (sym (ok-inj h))
registry_of-others parse reg last name (q ∷ qs) h k =
    let (next, first, rest) = >>=-eq-ok (register parse reg q) (λ n. registry_of parse n qs) h in
    let (protocol, known, same) = register-ok parse reg next q first in
    registry_of-others parse next last name qs rest k.1
    ∙ ap (λ r. r (lower name)) same
    ∙ rw k.0 refl

registry_of-latest :
    (parse : UrlParser) (reg last : Registry) (p : ProviderSlot) (qs : List ProviderSlot)
    → registry_of parse reg qs ≡ ok last
    → IsLatest p qs
    → (protocol : Protocol) × (provider_protocol p.adapter ≡ some protocol)
      × (last (lower p.name) ≡ some (completed (slot_definition p protocol)))
unfolding registry_of assign
registry_of-latest parse reg last p [] h k = absurd (k)
registry_of-latest parse reg last p (q ∷ qs) h k =
    let (next, first, rest) = >>=-eq-ok (register parse reg q) (λ n. registry_of parse n qs) h in
    elim k [
      | inl (same, others) ↦
          let (protocol, known, made) =
            register-ok parse reg next p (ap (register parse reg) same ∙ first) in
          (
            protocol,
            known,
            registry_of-others parse next last p.name qs rest others
                ∙ ap (λ r. r (lower p.name)) made
                ∙ assigned reg (lower p.name) (some (completed (slot_definition p protocol))),
          )
      | inr later ↦ registry_of-latest parse next last p qs rest later
    ]
  where
    assigned : (m : Registry) (name : Bytes) (d : Option Definition) → assign m name d name ≡ d
    assigned m name d = rw (bytes_eq_refl name) refl

lookup-own :
    (reg : Registry) (name : Bytes) (d : Definition)
    → built_in (lower name) ≡ none
    → trim_space name ≡ name
    → reg (lower name) ≡ some d
    → lookup reg name ≡ some (spec_of d)
unfolding lookup
lookup-own reg name d own trimmed found =
    ap (λ n. at_key (lower n)) trimmed ∙ rw (own, at_key) (rw found refl)
  where
    at_key : Bytes → Option Spec
    at_key k = elim (built_in k) [
      | some s ↦ some s
      | none ↦ elim (reg k) [ none ↦ none | some e ↦ some (spec_of e) ]
    ]

or_default_protocol :
    (b : Protocol) → or_default (codes "openai") (protocol_name b) ≡ protocol_name b
unfolding bytes_eq
or_default_protocol Protocol.openai = refl
or_default_protocol Protocol.anthropic = refl
or_default_protocol Protocol.gemini = refl

-- When a configuration's providers come to a registry, a provider after which none has its name in
-- upper or lower case, whose name has no white space around it and names no provider that is compiled
-- in, is found under its name, with the protocol of its adapter, its own base URL or that of the
-- protocol, and the capabilities of its adapter.
pub registry_of-finds :
    (parse : UrlParser) (reg : Registry) (p : ProviderSlot) (ps : List ProviderSlot)
    → registry_of parse new_registry ps ≡ ok reg
    → IsLatest p ps
    → trim_space p.name ≡ p.name
    → built_in (lower p.name) ≡ none
    → (protocol : Protocol) × (spec : Spec) × (provider_protocol p.adapter ≡ some protocol)
      × (lookup reg p.name ≡ some spec)
      × (spec.slug ≡ p.name)
      × (spec.protocol ≡ protocol_name protocol)
      × (spec.base_url ≡ (if bytes_eq p.base_url [] then default_base protocol else p.base_url))
      × (spec.capabilities ≡ adapter_caps p.adapter)
unfolding lookup completed
registry_of-finds parse reg p ps h latest trimmed own =
    let (protocol, known, found) = registry_of-latest parse new_registry reg p ps h latest in
    (
      protocol,
      spec_of (completed (slot_definition p protocol)),
      known,
      lookup-own reg p.name (completed (slot_definition p protocol)) own trimmed found,
      refl,
      or_default_protocol protocol,
      refl,
      refl,
    )
