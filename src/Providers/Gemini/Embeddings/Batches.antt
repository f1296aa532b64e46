-- ===== src/Providers/Gemini/Embeddings/Batches.antt =====
-- internal/providers/gemini.go, Embeddings: the batches of the inputs, and the end of the loop over them.
use llm_pico.Common.{
  ℕ, List, ◌++◌, drop, ◌≡◌, take, ◌+◌, min, arith, length, ◌∷◌, ap, Option, ◌-◌, ◌∙◌, [], ◌≤◌, ◌*◌,
  suc, some, ltb, zero, length-drop, false, sym, ◌⊎◌, true, inl, refl, inr, Bool-cases, none,
}
use llm_pico.Common.Bytes.{Bytes, codes}
use llm_pico.Common.Result.{Result, err, ok}
use llm_pico.Common.Signed.{ℤ}
use llm_pico.Providers.Gemini.{GeminiPart}
use llm_pico.Providers.Gemini.Embeddings.{
  EmbedEntry, embed_loop, EmbedState, EmbedError, embed_batch, batch_at, add_batch,
  gemini_embeddings, EmbedJson, embed_inputs, or_no_bytes, no_embeddings, embed_width,
}

drop-nil : {A : Type 0} (n : ℕ) → ◌≡◌ {A = List A} (drop n []) []
drop-nil zero = refl
drop-nil (suc n) = refl

drop-drop : {A : Type 0} (s n : ℕ) (xs : List A) → drop (s + n) xs ≡ drop n (drop s xs)
drop-drop zero n xs = let e : zero + n ≡ n = omega arith in ap (λ k. drop k xs) e
drop-drop (suc s) n [] = drop-nil (suc s + n) ∙ sym (drop-nil n)
drop-drop (suc s) n (x ∷ xs) =
    let e : suc s + n ≡ suc (s + n) = omega arith in ap (λ k. drop k (x ∷ xs)) e ∙ drop-drop s n xs

take-nil : {A : Type 0} (n : ℕ) → ◌≡◌ {A = List A} (take n []) []
take-nil zero = refl
take-nil (suc n) = refl

take-drop :
    {A : Type 0} (n k : ℕ) (ys : List A) → k ≡ min n (length ys) → ys ≡ take k ys ++ drop n ys
take-drop zero k ys h = let e : 0 ≡ k = omega arith in ap (λ n. take n ys ++ ys) e
take-drop (suc n) k [] h = ap (λ r. r ++ []) (sym (take-nil k))
take-drop (suc n) zero (y ∷ ys) h = absurd (omega arith)
take-drop (suc n) (suc k) (y ∷ ys) h = ap (λ r. y ∷ r) (take-drop n k ys (omega arith))

pub length-take : {A : Type 0} (k : ℕ) (ys : List A) → length (take k ys) ≡ min k (length ys)
length-take zero ys = omega arith
length-take (suc k) [] = omega arith
length-take (suc k) (y ∷ ys) = omega (arith, length-take k ys)

-- The inputs from `start` on are its batch and the inputs from the next start on.
pub batch-rest :
    {A : Type 0} (start : ℕ) (xs : List A)
    → drop start xs
      ≡ take (min (start + 100) (length xs) - start) (drop start xs) ++ drop (start + 100) xs
batch-rest start xs =
    take-drop 100 (min (start + 100) (length xs) - start) (drop start xs)
      (omega (arith, length-drop start xs))
    ∙ ap (λ r. take (min (start + 100) (length xs) - start) (drop start xs) ++ r)
        (sym (drop-drop start 100 xs))

module _ {V : Type 0} (post : List EmbedEntry → Result Bytes (List V)) (model : Bytes) where
  pub loop-stop :
      (fuel : ℕ) (width : Option ℤ) (start : ℕ) (inputs : List (List GeminiPart))
      (st : EmbedState V)
      → ltb start (length inputs) ≡ false
      → embed_loop post model (suc fuel) width start inputs st ≡ some (ok st)
  unfolding embed_loop
  loop-stop fuel width start inputs st h = rw (h, embed_loop) refl

  loop-fails :
      (fuel : ℕ) (width : Option ℤ) (start : ℕ) (inputs : List (List GeminiPart))
      (st : EmbedState V) (e : Bytes)
      → ltb start (length inputs) ≡ true
      → embed_batch post model width (batch_at post model start inputs) ≡ err e
      → embed_loop post model (suc fuel) width start inputs st
        ≡ some (err (EmbedError.batch_failed e))
  unfolding embed_loop
  loop-fails fuel width start inputs st e h k = rw (h, embed_loop) (rw k refl)

  pub loop-step :
      (fuel : ℕ) (width : Option ℤ) (start : ℕ) (inputs : List (List GeminiPart))
      (st : EmbedState V) (values : List V)
      → ltb start (length inputs) ≡ true
      → embed_batch post model width (batch_at post model start inputs) ≡ ok values
      → embed_loop post model (suc fuel) width start inputs st
        ≡ embed_loop post model fuel width
            (start + 100)
            inputs
            (add_batch post model st (batch_at post model start inputs) values)
  unfolding embed_loop
  loop-step fuel width start inputs st values h k = rw (h, embed_loop) (rw k refl)

  Result-cases :
      (r : Result Bytes (List V)) → ((e : Bytes) × (r ≡ err e)) ⊎ ((vs : List V) × (r ≡ ok vs))
  Result-cases (err e) = inl (e, refl)
  Result-cases (ok vs) = inr (vs, refl)

  embed_loop-halts :
      (fuel : ℕ) (width : Option ℤ) (start : ℕ) (inputs : List (List GeminiPart))
      (st : EmbedState V)
      → length inputs ≤ start + 100 * fuel
      → (r : Result EmbedError (EmbedState V)) × (embed_loop post model
            (suc fuel)
            width
            start
            inputs
            st
          ≡ some r)
  embed_loop-halts zero width start inputs st h =
      (ok st, loop-stop 0 width start inputs st (ground arith))
  embed_loop-halts (suc fuel) width start inputs st h =
      elim (Bool-cases (ltb start (length inputs))) [
        | inr past ↦ (ok st, loop-stop (suc fuel) width start inputs st past)
        | inl before ↦
            elim (Result-cases (embed_batch post model width (batch_at post model start inputs))) [
              | inl (e, failed) ↦ (
                err (EmbedError.batch_failed e),
                loop-fails (suc fuel) width start inputs st e before failed,
              )
              | inr (values, answered) ↦
                  let (r, halts) =
                    embed_loop-halts fuel width (start + 100) inputs
                      (add_batch post model st (batch_at post model start inputs) values)
                      (omega arith) in
                  (r, loop-step (suc fuel) width start inputs st values before answered ∙ halts)
            ]
      ]

  -- For every body, and whatever the batches are answered, the fuel of `gemini_embeddings` is enough:
  -- the loop over the batches ends, and the function returns.
  pub gemini_embeddings-halts :
      (json : EmbedJson) (body : Bytes)
      → (r : Result EmbedError (EmbedState V)) × (gemini_embeddings post model json body ≡ some r)
  unfolding gemini_embeddings
  gemini_embeddings-halts json body = go (json.fields body)
    where
      inputs_of : (Bytes → Option Bytes) → List (List GeminiPart)
      inputs_of fields = embed_inputs json (or_no_bytes (fields (codes "input")))

      run : Option ℤ → List (List GeminiPart) → Option (Result EmbedError (EmbedState V))
      run width inputs = elim inputs [
        | [] ↦ some (err EmbedError.no_input)
        | x ∷ xs ↦
            embed_loop post model (suc (length (x ∷ xs))) width 0 (x ∷ xs)
              (no_embeddings post model)
      ]

      ran :
          (width : Option ℤ) (inputs : List (List GeminiPart))
          → (r : Result EmbedError (EmbedState V)) × (run width inputs ≡ some r)
      ran width [] = (err EmbedError.no_input, refl)
      ran width (x ∷ xs) =
          embed_loop-halts (length (x ∷ xs)) width 0 (x ∷ xs) (no_embeddings post model)
            (omega arith)

      go :
          (o : Option (Bytes → Option Bytes))
          → (r : Result EmbedError (EmbedState V)) × (elim o
                as (λ x. Option (Result EmbedError (EmbedState V))) [
                  | none ↦ some (err EmbedError.bad_body)
                  | some fields ↦ run (embed_width json fields) (inputs_of fields)
                ]
              ≡ some r)
      go none = (err EmbedError.bad_body, refl)
      go (some fields) = ran (embed_width json fields) (inputs_of fields)
