-- ===== src/Providers/OpenAi/Prepared.antt =====
-- internal/providers/openai.go, prepareBody and Stream: what a body becomes.
use llm_pico.Common.{
  if◌then◌else◌, ◌≡◌, some, false, true, none, arith, Option, ◌∙◌, sym, if-split, refl,
}
use llm_pico.Common.Bytes.{Bytes, assign, bytes_eq, codes}
use llm_pico.Providers.Chat.{strip_provider_prefix}
use llm_pico.Providers.Fields.{
  FieldsJson, RawFields, rewrite_model, with_field, Decoded, Rewritten, without_field,
}
use llm_pico.Providers.OpenAi.{
  renamed_budget, prepare_body, normalize_params, requires_max_completion_tokens,
}

-- `g` is `f` for the upstream model: it names that model, a newer family has its token budget under the
-- newer name, where an explicit one stays, and no other field is changed.
pub record IsPrepared (json : FieldsJson) (upstream : Bytes) (f g : RawFields) : Type 0 where
  pub named : g (codes "model") ≡ some (json.quote upstream)
  pub others :
      (name : Bytes)
      → bytes_eq (codes "model") name ≡ false
      → bytes_eq (codes "max_tokens") name ≡ false
      → bytes_eq (codes "max_completion_tokens") name ≡ false
      → g name ≡ f name
  pub older :
      requires_max_completion_tokens upstream ≡ false
      → (g (codes "max_tokens") ≡ f (codes "max_tokens"))
        × (g (codes "max_completion_tokens") ≡ f (codes "max_completion_tokens"))
  pub renamed :
      requires_max_completion_tokens upstream ≡ true
      → f (codes "max_completion_tokens") ≡ none
      → (g (codes "max_tokens") ≡ none)
        × (g (codes "max_completion_tokens") ≡ f (codes "max_tokens"))
  pub explicit :
      requires_max_completion_tokens upstream ≡ true
      → (raw : Bytes) → f (codes "max_completion_tokens") ≡ some raw
      → (g (codes "max_tokens") ≡ f (codes "max_tokens"))
        × (g (codes "max_completion_tokens") ≡ some raw)

-- The fields after both steps.
abbrev pub prepared_fields : FieldsJson → Bytes → RawFields → RawFields
prepared_fields json upstream f =
    let named = with_field f (codes "model") (json.quote upstream) in
    if requires_max_completion_tokens upstream then renamed_budget named else named

prepared_fields-IsPrepared :
    (json : FieldsJson) (upstream : Bytes) (f : RawFields)
    → IsPrepared json upstream f (prepared_fields json upstream f)
unfolding renamed_budget assign bytes_eq
prepared_fields-IsPrepared json upstream f =
    if-split (IsPrepared json upstream f) (requires_max_completion_tokens upstream)
      (λ e. go e (f (codes "max_tokens")) (f (codes "max_completion_tokens")) refl refl)
      (λ e. record {
        named = refl;
        others = λ name m t c. rw m refl;
        older = λ k. (refl, refl);
        renamed = λ k. absurd (cc);
        explicit = λ k. absurd (cc);
      })
  where
    named_fields : RawFields
    named_fields = with_field f (codes "model") (json.quote upstream)

    moved : Bytes → RawFields
    moved raw =
        without_field (with_field named_fields (codes "max_completion_tokens") raw)
          (codes "max_tokens")

    go :
        requires_max_completion_tokens upstream ≡ true
        → (o p : Option Bytes) → f (codes "max_tokens") ≡ o
        → f (codes "max_completion_tokens") ≡ p
        → IsPrepared json upstream f (elim o as (λ x. RawFields) [
          | none ↦ named_fields
          | some raw ↦ elim p as (λ x. RawFields) [ some new ↦ named_fields | none ↦ moved raw ]
        ])
    go e none p t c = record {
      named = refl;
      others = λ name m t c. rw m refl;
      older = λ k. absurd (cc);
      renamed = λ k n. (t, n ∙ sym t);
      explicit = λ k raw n. (refl, n);
    }
    go e (some raw) (some new) t c = record {
      named = refl;
      others = λ name m t c. rw m refl;
      older = λ k. absurd (cc);
      renamed = λ k n. absurd (cc);
      explicit = λ k raw n. (refl, n);
    }
    go e (some raw) none t c = record {
      named = refl;
      others = λ name m t c. simp (m, t, c);
      older = λ k. absurd (cc);
      renamed = λ k n. (refl, sym t);
      explicit = λ k raw n. absurd (cc);
    }

module _ (json : FieldsJson) where
  -- When a body decodes to an object, and that object with the upstream model decodes from its
  -- encoding, `prepareBody` encodes the body's fields with the upstream model named, for a newer family
  -- with the token budget under its newer name unless that is there, and with no other change.
  pub prepare_body-IsPrepared :
      (body model : Bytes) (f : RawFields)
      → json.decode body ≡ some (Decoded.a_map f)
      → json.decode (
          json.encode (
            Decoded.a_map
              (with_field f (codes "model") (json.quote (strip_provider_prefix model)))))
        ≡ some (
            Decoded.a_map (with_field f (codes "model") (json.quote (strip_provider_prefix model))))
      → (g : RawFields) × ((prepare_body json body model
            ≡ Rewritten.rewritten (json.encode (Decoded.a_map g)))
          × IsPrepared json (strip_provider_prefix model) f g)
  unfolding prepare_body rewrite_model normalize_params
  prepare_body-IsPrepared body model f h k = (
    prepared_fields json (strip_provider_prefix model) f,
    (ground (arith, h, k), prepared_fields-IsPrepared json (strip_provider_prefix model) f),
  )
