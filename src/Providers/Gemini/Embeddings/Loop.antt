-- ===== src/Providers/Gemini/Embeddings/Loop.antt =====
-- internal/providers/gemini.go, Embeddings: the loop over the inputs, whose batches are all answered.
use llm_pico.Common.{
  length-map, ℕ, List, ◌++◌, ltb, ◌≡◌, length, ◌+◌, false, ap, arith, ◌∙◌, ◌≤◌, ◌∷◌, drop, Option,
  [], sym, true, suc, some, ◌*◌, map, zero, length-append, refl, Bool-cases, min, ◌-◌, inr, inl,
  length-drop, ◌<◌, ltb→lt,
}
use llm_pico.Common.Bytes.{Bytes}
use llm_pico.Common.Result.{Result, ok}
use llm_pico.Common.Signed.{ℤ}
use llm_pico.Providers.Gemini.{GeminiPart}
use llm_pico.Providers.Gemini.Embeddings.{
  with_indexes, batch_tokens, EmbedEntry, EmbedState, add_batch, embed_batch_limit, embed_entry,
  embed_loop, embed_batch, batch_at,
}
use llm_pico.Providers.Gemini.Embeddings.Batches.{batch-rest, length-take, loop-stop, loop-step}
use mathlib.Core.List.{append_assoc, append-nil, map-append}
use mathlib.Core.Path.{ap₂}

with_indexes-append :
    {V : Type 0} (k : ℕ) (us vs : List V)
    → with_indexes k (us ++ vs) ≡ with_indexes k us ++ with_indexes (k + length us) vs
unfolding with_indexes
with_indexes-append k [] vs = ap (λ n. with_indexes n vs) (omega arith)
with_indexes-append k (u ∷ us) vs =
    ap (λ r. (k, u) ∷ r)
      (with_indexes-append (k + 1) us vs
        ∙ ap (λ n. with_indexes (k + 1) us ++ with_indexes n vs) (omega arith))

batch_tokens-append :
    (xs ys : List (List GeminiPart)) → batch_tokens (xs ++ ys) ≡ batch_tokens xs + batch_tokens ys
unfolding batch_tokens
batch_tokens-append [] ys = omega arith
batch_tokens-append (x ∷ xs) ys = omega (arith, batch_tokens-append xs ys)

drop-past :
    {A : Type 0} (start : ℕ) (xs : List A) → ltb start (length xs) ≡ false → drop start xs ≡ []
drop-past zero [] h = refl
drop-past zero (x ∷ xs) h = absurd (ground arith)
drop-past (suc start) [] h = refl
drop-past (suc start) (x ∷ xs) h = drop-past start xs (ground arith)

pub state-eq :
    {V : Type 0} {e f : List (ℕ × V)} {m n k l : ℕ}
    → e ≡ f
    → m ≡ n
    → k ≡ l
    → ◌≡◌ {A = EmbedState V}
        (record { embeddings = e; next_index = m; tokens = k })
        (record { embeddings = f; next_index = n; tokens = l })
state-eq {f = f} {n = n} {k = k} p q r =
    ap₂ (λ g i. record { embeddings = g; next_index = i; tokens = k }) p q
    ∙ ap (λ t. record { embeddings = f; next_index = n; tokens = t }) r

module _ {V : Type 0} (post : List EmbedEntry → Result Bytes (List V)) (model : Bytes) where
  -- A service that answers a batch of 1 to 100 entries with their embeddings, in their order.
  abbrev pub Answers : (EmbedEntry → V) → Type 0
  Answers embed =
      (es : List EmbedEntry)
      → 1 ≤ length es
      → length es ≤ embed_batch_limit
      → post es ≡ ok (map embed es)

  -- The state after all inputs of a list.
  abbrev pub answered_all :
      (EmbedEntry → V) → Option ℤ → EmbedState V → List (List GeminiPart) → EmbedState V
  answered_all embed width st inputs =
      add_batch post model st inputs (map embed (map (embed_entry post model width) inputs))

  abbrev pub values : (EmbedEntry → V) → Option ℤ → List (List GeminiPart) → List V
  values embed width inputs = map embed (map (embed_entry post model width) inputs)

  answered_all-none :
      (embed : EmbedEntry → V) (width : Option ℤ) (st : EmbedState V)
      → answered_all embed width st [] ≡ st
  unfolding with_indexes batch_tokens
  answered_all-none embed width st = state-eq (append-nil st.embeddings) (omega arith) (omega arith)

  add_batch-append :
      (st : EmbedState V) (xs ys : List (List GeminiPart)) (us vs : List V)
      → add_batch post model (add_batch post model st xs us) ys vs
        ≡ add_batch post model st (xs ++ ys) (us ++ vs)
  add_batch-append st xs ys us vs =
      state-eq
        (append_assoc st.embeddings (with_indexes st.next_index us)
            (with_indexes (st.next_index + length us) vs)
          ∙ ap (λ r. st.embeddings ++ r) (sym (with_indexes-append st.next_index us vs)))
        (omega (arith, length-append us vs)) (omega (arith, batch_tokens-append xs ys))

  answered_all-append :
      (embed : EmbedEntry → V) (width : Option ℤ) (st : EmbedState V)
      (xs ys : List (List GeminiPart))
      → answered_all embed width (answered_all embed width st xs) ys
        ≡ answered_all embed width st (xs ++ ys)
  answered_all-append embed width st xs ys =
      add_batch-append st xs ys (map embed (map (embed_entry post model width) xs))
        (map embed (map (embed_entry post model width) ys))
      ∙ ap (add_batch post model st (xs ++ ys)) (
          sym (
            ap (map embed) (map-append (embed_entry post model width) xs ys)
            ∙ map-append embed (map (embed_entry post model width) xs)
                (map (embed_entry post model width) ys)))

  batch-answered :
      (embed : EmbedEntry → V)
      → Answers embed
      → (width : Option ℤ) (start : ℕ) (inputs : List (List GeminiPart))
      → ltb start (length inputs) ≡ true
      → embed_batch post model width (batch_at post model start inputs)
        ≡ ok (map embed (map (embed_entry post model width) (batch_at post model start inputs)))
  batch-answered embed answers width start inputs h =
      let size : length (map (embed_entry post model width) (batch_at post model start inputs))
          ≡ min (min (start + 100) (length inputs) - start) (length inputs - start) =
        length-map (embed_entry post model width) (batch_at post model start inputs)
        ∙ length-take (min (start + 100) (length inputs) - start) (drop start inputs)
        ∙ ap (min (min (start + 100) (length inputs) - start)) (length-drop start inputs) in
      let before : start < length inputs = ltb→lt start (length inputs) h in
      answers (map (embed_entry post model width) (batch_at post model start inputs))
        (omega (arith, size, before)) (omega (arith, size, before))

  pub embed_loop-answered_all :
      (embed : EmbedEntry → V)
      → Answers embed
      → (fuel : ℕ) (width : Option ℤ) (start : ℕ) (inputs : List (List GeminiPart))
        (st : EmbedState V)
      → length inputs ≤ start + 100 * fuel
      → embed_loop post model (suc fuel) width start inputs st
        ≡ some (ok (answered_all embed width st (drop start inputs)))
  embed_loop-answered_all embed answers zero width start inputs st h =
      loop-stop post model 0 width start inputs st (ground arith)
      ∙ ap (λ r. some (ok r))
          (sym (
            ap (answered_all embed width st) (drop-past start inputs (ground arith))
            ∙ answered_all-none embed width st))
  embed_loop-answered_all embed answers (suc fuel) width start inputs st h =
      elim (Bool-cases (ltb start (length inputs))) [
        | inr past ↦
            loop-stop post model (suc fuel) width start inputs st past
            ∙ ap (λ r. some (ok r))
                (sym (
                  ap (answered_all embed width st) (drop-past start inputs past)
                  ∙ answered_all-none embed width st))
        | inl before ↦
            loop-step post model (suc fuel) width start inputs st _ before
              (batch-answered embed answers width start inputs before)
            ∙ embed_loop-answered_all embed answers fuel width (start + 100) inputs _ (omega arith)
            ∙ ap (λ r. some (ok r))
                (answered_all-append embed width st (batch_at post model start inputs)
                    (drop (start + 100) inputs)
                  ∙ ap (answered_all embed width st) (sym (batch-rest start inputs)))
      ]
