-- ===== src/Providers/Gemini/Embeddings.antt =====
-- internal/providers/gemini.go, Embeddings: the batches of an embeddings request. Sending a batch and
-- decoding what comes back is an argument. Lengths of texts in memory add up without a wrap.
pub mod Batches
pub mod Loop
pub mod Answered
use llm_pico.Common.{
  ℕ, Option, List, ◌∷◌, [], some, map, take, ◌+◌, if◌then◌else◌, length, none, ◌++◌, ◌/◌, suc, min,
  ltb, ◌-◌, false, drop, zero, true,
}
use llm_pico.Common.Bytes.{Bytes, codes, bytes_eq}
use llm_pico.Common.Result.{Result, err, ok}
use llm_pico.Common.Signed.{ℤ}
use llm_pico.Providers.Gemini.{GeminiPart, blank_part}
use llm_pico.Proxy.Select.{is_positive}

-- One element of `requests`; no width is the model's own.
pub record EmbedEntry : Type 0 where
  pub model : Bytes
  pub content : List GeminiPart
  pub width : Option ℤ

-- What `encoding/json` makes of a body and of its fields.
pub record EmbedJson : Type 0 where
  pub fields : Bytes → Option (Bytes → Option Bytes)
  pub string : Bytes → Option Bytes
  pub strings : Bytes → Option (List Bytes)
  pub int : Bytes → Option ℤ

-- `ErrInvalidRequest` for a body that does not decode and for one without inputs, or what a batch
-- failed with.
pub data EmbedError : Type 0 where
  bad_body : EmbedError
  no_input : EmbedError
  batch_failed : Bytes → EmbedError

-- The embeddings so far with their indexes, the index of the next and the tokens counted.
pub record EmbedState (V : Type 0) : Type 0 where
  pub embeddings : List (ℕ × V)
  pub next_index : ℕ
  pub tokens : ℕ

abbrev pub embed_batch_limit : ℕ
embed_batch_limit = 100

-- `estimateTokens`.
unfoldable pub embed_tokens : List GeminiPart → ℕ
embed_tokens [] = 0
embed_tokens (p ∷ ps) = length p.text / 4 + 1 + embed_tokens ps

unfoldable pub batch_tokens : List (List GeminiPart) → ℕ
batch_tokens [] = 0
batch_tokens (ps ∷ rest) = embed_tokens ps + batch_tokens rest

abbrev pub one_text : Bytes → List GeminiPart
one_text s = record blank_part { text = s } ∷ []

-- `embedInputs`.
unfoldable pub embed_inputs : EmbedJson → Bytes → List (List GeminiPart)
embed_inputs json raw = if bytes_eq raw [] then [] else elim (json.string raw) [
  | some s ↦ one_text s ∷ []
  | none ↦ elim (json.strings raw) [ none ↦ [] | some ss ↦ map one_text ss ]
]

-- The width that a body asks for.
unfoldable pub embed_width : EmbedJson → (Bytes → Option Bytes) → Option ℤ
embed_width json fields = elim (fields (codes "dimensions")) [
  | none ↦ none
  | some raw ↦ elim (json.int raw) [ none ↦ none | some d ↦ if is_positive d then some d else none ]
]

abbrev pub or_no_bytes : Option Bytes → Bytes
or_no_bytes none = []
or_no_bytes (some raw) = raw

-- Values with the indexes from `k` on.
unfoldable pub with_indexes : {V : Type 0} → ℕ → List V → List (ℕ × V)
with_indexes k [] = []
with_indexes k (v ∷ vs) = (k, v) ∷ with_indexes (k + 1) vs

module _ {V : Type 0} (post : List EmbedEntry → Result Bytes (List V)) (model : Bytes) where
  abbrev pub embed_entry : Option ℤ → List GeminiPart → EmbedEntry
  embed_entry width parts = record {
    model = codes "models/" ++ model;
    content = parts;
    width = width;
  }

  -- `embedBatch`.
  abbrev pub embed_batch : Option ℤ → List (List GeminiPart) → Result Bytes (List V)
  embed_batch width batch = post (map (embed_entry width) batch)

  -- The state after a batch.
  abbrev pub add_batch : EmbedState V → List (List GeminiPart) → List V → EmbedState V
  add_batch st batch values = record {
    embeddings = st.embeddings ++ with_indexes st.next_index values;
    next_index = st.next_index + length values;
    tokens = st.tokens + batch_tokens batch;
  }

  -- The batch that starts at an input.
  abbrev pub batch_at : ℕ → List (List GeminiPart) → List (List GeminiPart)
  batch_at start inputs =
      take (min (start + embed_batch_limit) (length inputs) - start) (drop start inputs)

  -- The loop over the inputs; none is out of fuel.
  unfoldable pub embed_loop :
      ℕ
      → Option ℤ
      → ℕ
      → List (List GeminiPart)
      → EmbedState V
      → Option (Result EmbedError (EmbedState V))
  embed_loop zero width start inputs st = none
  embed_loop (suc fuel) width start inputs st = elim (ltb start (length inputs)) [
    | false ↦ some (ok st)
    | true ↦ elim (embed_batch width (batch_at start inputs)) [
      | err e ↦ some (err (EmbedError.batch_failed e))
      | ok values ↦
          embed_loop fuel width (start + embed_batch_limit) inputs
            (add_batch st (batch_at start inputs) values)
    ]
  ]

  abbrev pub no_embeddings : EmbedState V
  no_embeddings = record { embeddings = []; next_index = 0; tokens = 0 }

  -- `Embeddings`, on a body.
  unfoldable pub gemini_embeddings : EmbedJson → Bytes → Option (Result EmbedError (EmbedState V))
  gemini_embeddings json body = elim (json.fields body) [
    | none ↦ some (err EmbedError.bad_body)
    | some fields ↦ elim (embed_inputs json (or_no_bytes (fields (codes "input")))) [
      | [] ↦ some (err EmbedError.no_input)
      | x ∷ xs ↦
          embed_loop (suc (length (x ∷ xs))) (embed_width json fields) 0 (x ∷ xs) no_embeddings
    ]
  ]
