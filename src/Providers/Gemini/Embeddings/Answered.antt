-- ===== src/Providers/Gemini/Embeddings/Answered.antt =====
-- internal/providers/gemini.go, Embeddings: every text of the input is answered, in its place.
use llm_pico.Common.{
  length-map, ℕ, List, ◌++◌, ◌≡◌, length, ◌+◌, false, ap, arith, ◌∙◌, ◌≤◌, ◌∷◌, Option, [], some,
  map, refl, ◌/◌, none,
}
use llm_pico.Common.Bytes.{Bytes, codes, bytes_eq}
use llm_pico.Common.Result.{Result, ok}
use llm_pico.Common.Signed.{ℤ}
use llm_pico.Providers.Gemini.{GeminiPart, blank_part}
use llm_pico.Providers.Gemini.Embeddings.{
  with_indexes, batch_tokens, EmbedEntry, gemini_embeddings, EmbedJson, embed_inputs, or_no_bytes,
  embed_width, no_embeddings, embed_tokens, one_text,
}
use llm_pico.Providers.Gemini.Embeddings.Loop.{
  state-eq, Answers, answered_all, values, embed_loop-answered_all,
}

-- The texts that the input of a body decodes to: a text, or a list of texts.
pub data IsTexts (json : EmbedJson) (raw : Bytes) : List Bytes → Type 0 where
  one : (s : Bytes) → bytes_eq raw [] ≡ false → json.string raw ≡ some s → IsTexts json raw (s ∷ [])
  many :
      (ss : List Bytes)
      → bytes_eq raw [] ≡ false
      → json.string raw ≡ none
      → json.strings raw ≡ some ss
      → IsTexts json raw ss

embed_inputs-texts :
    (json : EmbedJson) (raw : Bytes) (texts : List Bytes)
    → IsTexts json raw texts
    → embed_inputs json raw ≡ map one_text texts
unfolding embed_inputs
embed_inputs-texts json raw texts (IsTexts.one s some_raw single) = rw (some_raw, single) refl
embed_inputs-texts json raw texts (IsTexts.many ss some_raw other list) =
    rw (some_raw, other, list) refl

-- The tokens counted for the texts.
unfoldable pub estimate : List Bytes → ℕ
estimate [] = 0
estimate (t ∷ ts) = length t / 4 + 1 + estimate ts

batch_tokens-texts : (texts : List Bytes) → batch_tokens (map one_text texts) ≡ estimate texts
unfolding batch_tokens embed_tokens estimate
batch_tokens-texts [] = refl
batch_tokens-texts (t ∷ ts) = omega (arith, batch_tokens-texts ts)

module _ {V : Type 0} (post : List EmbedEntry → Result Bytes (List V)) (model : Bytes) where
  -- What is asked of the service for a text.
  abbrev pub text_entry : Option ℤ → Bytes → EmbedEntry
  text_entry width text = record {
    model = codes "models/" ++ model;
    content = record blank_part { text = text } ∷ [];
    width = width;
  }

  -- The embeddings that a reply should list for the texts, numbered from `k` on.
  unfoldable pub listed : (EmbedEntry → V) → Option ℤ → ℕ → List Bytes → List (ℕ × V)
  listed embed width k [] = []
  listed embed width k (t ∷ ts) = (k, embed (text_entry width t)) ∷ listed embed width (k + 1) ts

  with_indexes-listed :
      (embed : EmbedEntry → V) (width : Option ℤ) (k : ℕ) (texts : List Bytes)
      → with_indexes k (values post model embed width (map one_text texts))
        ≡ listed embed width k texts
  unfolding with_indexes listed
  with_indexes-listed embed width k [] = refl
  with_indexes-listed embed width k (t ∷ ts) =
      ap (λ r. (k, embed (text_entry width t)) ∷ r) (with_indexes-listed embed width (k + 1) ts)

  length-values :
      (embed : EmbedEntry → V) (width : Option ℤ) (texts : List Bytes)
      → length (values post model embed width (map one_text texts)) ≡ length texts
  length-values embed width [] = refl
  length-values embed width (t ∷ ts) = omega (arith, length-values embed width ts)

  answered_all-texts :
      (embed : EmbedEntry → V) (width : Option ℤ) (texts : List Bytes)
      → answered_all post model embed width (no_embeddings post model) (map one_text texts)
        ≡ record {
          embeddings = listed embed width 0 texts;
          next_index = length texts;
          tokens = estimate texts;
        }
  answered_all-texts embed width texts =
      state-eq (with_indexes-listed embed width 0 texts)
        (omega (arith, length-values embed width texts)) (omega (arith, batch_tokens-texts texts))

  embeddings-inputs :
      (embed : EmbedEntry → V)
      → Answers post model embed
      → (json : EmbedJson) (body : Bytes) (fields : Bytes → Option Bytes)
        (inputs : List (List GeminiPart))
      → json.fields body ≡ some fields
      → embed_inputs json (or_no_bytes (fields (codes "input"))) ≡ inputs
      → 1 ≤ length inputs
      → gemini_embeddings post model json body
        ≡ some (
            ok (
              answered_all post model embed
                (embed_width json fields)
                (no_embeddings post model)
                inputs))
  unfolding gemini_embeddings
  embeddings-inputs embed answers json body fields [] h e k = absurd (omega arith)
  embeddings-inputs embed answers json body fields (x ∷ xs) h e k =
      rw (h, gemini_embeddings)
        (rw e (
          embed_loop-answered_all post model embed answers (length (x ∷ xs))
            (embed_width json fields) 0 (x ∷ xs) (no_embeddings post model) (omega arith)))

  -- When a body decodes to fields whose input is a text or a list of texts, of which there is at least
  -- one, and the service answers each batch of 1 to 100 entries with one embedding per entry in their
  -- order, the request succeeds with the embedding of every text, asked for with the model, the text
  -- as its one part and the width of the body, in the order of the texts and numbered from zero on,
  -- and it counts for every text a fourth of its length and one.
  pub gemini_embeddings-answered_all :
      (embed : EmbedEntry → V)
      → Answers post model embed
      → (json : EmbedJson) (body : Bytes) (fields : Bytes → Option Bytes) (raw : Bytes)
        (texts : List Bytes)
      → json.fields body ≡ some fields
      → fields (codes "input") ≡ some raw
      → IsTexts json raw texts
      → 1 ≤ length texts
      → gemini_embeddings post model json body
        ≡ some (
            ok (record {
              embeddings = listed embed (embed_width json fields) 0 texts;
              next_index = length texts;
              tokens = estimate texts;
            }))
  gemini_embeddings-answered_all embed answers json body fields raw texts h input decoded
        some_text =
      embeddings-inputs embed answers json body fields (map one_text texts) h
        (ap (λ o. embed_inputs json (or_no_bytes o)) input
          ∙ embed_inputs-texts json raw texts decoded)
        (omega (arith, length-map one_text texts, some_text))
      ∙ ap (λ st. some (ok st)) (answered_all-texts embed (embed_width json fields) texts)
