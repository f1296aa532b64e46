-- ===== src/Providers/Gemini/Stream/Spoken.antt =====
-- internal/providers/gemini.go: what the chunks of one reply of a stream say.
use llm_pico.Common.{
  ℕ, Option, List, [], ◌++◌, ◌∷◌, some, ◌≡◌, none, ap, ◌+◌, ◌||◌, refl, length, false, arith, true,
  ◌∙◌, Bool, if◌then◌else◌, sym,
}
use llm_pico.Common.Bytes.{Bytes, bytes_eq}
use llm_pico.Providers.Gemini.{GeminiPart, FunctionCall}
use llm_pico.Providers.Gemini.Reply.{
  answer_calls, answer_text, OpenCall, open_calls, any_call, openai_call, upgraded,
}
use llm_pico.Providers.Gemini.Stream.{
  GeminiStream, stream_calls, GeminiChunk, GeminiDelta, stream_chunk_payload, relay_parts,
}
use llm_pico.Providers.Gemini.Stream.Drained.{with_chunk}
use llm_pico.Proxy.Stream.{Usage}
use mathlib.Core.List.{append_assoc}

-- The texts of chunks joined, their calls, and their finish reasons.
abbrev pub delta_text : Option GeminiDelta → Bytes
delta_text none = []
delta_text (some d) = d.text

abbrev pub delta_calls : Option GeminiDelta → List (ℕ × OpenCall)
delta_calls none = []
delta_calls (some d) = d.calls

abbrev pub delta_finish : Option GeminiDelta → List Bytes
delta_finish none = []
delta_finish (some d) = elim d.finish [ none ↦ [] | some f ↦ f ∷ [] ]

unfoldable pub chunk_texts : List GeminiChunk → Bytes
chunk_texts [] = []
chunk_texts (GeminiChunk.piece d u ∷ cs) = delta_text d ++ chunk_texts cs
chunk_texts (GeminiChunk.the_end ∷ cs) = chunk_texts cs

unfoldable pub chunk_calls : List GeminiChunk → List (ℕ × OpenCall)
chunk_calls [] = []
chunk_calls (GeminiChunk.piece d u ∷ cs) = delta_calls d ++ chunk_calls cs
chunk_calls (GeminiChunk.the_end ∷ cs) = chunk_calls cs

unfoldable pub chunk_finishes : List GeminiChunk → List Bytes
chunk_finishes [] = []
chunk_finishes (GeminiChunk.piece d u ∷ cs) = delta_finish d ++ chunk_finishes cs
chunk_finishes (GeminiChunk.the_end ∷ cs) = chunk_finishes cs

-- Calls with their indexes from `k` on.
unfoldable pub indexed : ℕ → List OpenCall → List (ℕ × OpenCall)
indexed k [] = []
indexed k (c ∷ cs) = (k, c) ∷ indexed (k + 1) cs

pub answer_text-append :
    (ps qs : List GeminiPart) → answer_text (ps ++ qs) ≡ answer_text ps ++ answer_text qs
unfolding answer_text
answer_text-append [] qs = refl
answer_text-append (p ∷ ps) qs = go p.thought (answer_text-append ps qs)
  where
    go :
        (b : Bool)
        → answer_text (ps ++ qs) ≡ answer_text ps ++ answer_text qs
        → (if b then answer_text (ps ++ qs) else p.text ++ answer_text (ps ++ qs))
          ≡ (if b then answer_text ps else p.text ++ answer_text ps) ++ answer_text qs
    go true ih = ih
    go false ih =
        ap (λ r. p.text ++ r) ih ∙ sym (append_assoc p.text (answer_text ps) (answer_text qs))

pub answer_calls-append :
    (ps qs : List GeminiPart) → answer_calls (ps ++ qs) ≡ answer_calls ps ++ answer_calls qs
unfolding answer_calls
answer_calls-append [] qs = refl
answer_calls-append (p ∷ ps) qs = go p.thought p.function_call (answer_calls-append ps qs)
  where
    called : Option FunctionCall → List FunctionCall → List FunctionCall
    called o rest = elim o [
      | none ↦ rest
      | some call ↦ record call { signature = p.thought_signature } ∷ rest
    ]

    go :
        (b : Bool) (o : Option FunctionCall)
        → answer_calls (ps ++ qs) ≡ answer_calls ps ++ answer_calls qs
        → (if b then answer_calls (ps ++ qs) else called o (answer_calls (ps ++ qs)))
          ≡ (if b then answer_calls ps else called o (answer_calls ps)) ++ answer_calls qs
    go true o ih = ih
    go false none ih = ih
    go false (some call) ih = ap (λ r. record call { signature = p.thought_signature } ∷ r) ih

pub stream_calls-append :
    (fresh : ℕ → Bytes) (k : ℕ) (xs ys : List FunctionCall)
    → stream_calls fresh k (xs ++ ys)
      ≡ stream_calls fresh k xs ++ stream_calls fresh (k + length xs) ys
unfolding stream_calls
stream_calls-append fresh k [] ys = ap (λ n. stream_calls fresh n ys) (omega arith)
stream_calls-append fresh k (x ∷ xs) ys =
    ap (λ r. (k, openai_call (fresh k) x) ∷ r)
      (stream_calls-append fresh (k + 1) xs ys
        ∙ ap (λ n. stream_calls fresh (k + 1) xs ++ stream_calls fresh n ys) (omega arith))

pub stream_calls-indexed :
    (fresh : ℕ → Bytes) (k : ℕ) (cs : List FunctionCall)
    → stream_calls fresh k cs ≡ indexed k (open_calls fresh k cs)
unfolding stream_calls indexed open_calls
stream_calls-indexed fresh k [] = refl
stream_calls-indexed fresh k (c ∷ cs) =
    ap (λ r. (k, openai_call (fresh k) c) ∷ r) (stream_calls-indexed fresh (k + 1) cs)

pub any_call-append :
    (xs ys : List FunctionCall) → any_call (xs ++ ys) ≡ (any_call xs || any_call ys)
any_call-append [] ys = refl
any_call-append (x ∷ xs) ys = refl

-- The finish reason that a chunk of a reply names, if it names one.
abbrev pub named_finish : Bool → Bytes → List Bytes
named_finish called finish = if bytes_eq finish [] then [] else upgraded called finish ∷ []

any_call-or :
    (b : Bool) (cs : List FunctionCall) → (any_call cs || (b || any_call cs)) ≡ (b || any_call cs)
any_call-or true [] = refl
any_call-or false [] = refl
any_call-or true (c ∷ cs) = refl
any_call-or false (c ∷ cs) = refl

or_false : (b : Bool) → b ≡ (b || false)
or_false true = refl
or_false false = refl

or_true : (b : Bool) → true ≡ (b || true)
or_true true = refl
or_true false = refl

-- A stream after calls, and the chunks that carry a text, calls and a finish reason.
pub record After (s t : GeminiStream) (calls : List FunctionCall) : Type 0 where
  pub index : t.tool_index ≡ s.tool_index + length calls
  pub saw : t.saw_tool_calls ≡ (s.saw_tool_calls || any_call calls)

After-none : (s : GeminiStream) → After s s []
After-none s = record { index = omega arith; saw = or_false s.saw_tool_calls }

module _ (fresh : ℕ → Bytes) where
  pub relay_parts-After :
      (s : GeminiStream) (usage : Option Usage) (text finish : Bytes) (calls : List FunctionCall)
      → After s (relay_parts fresh s usage text finish calls).0 calls
  unfolding relay_parts stream_chunk_payload bytes_eq
  relay_parts-After s usage [] [] [] = After-none s
  relay_parts-After s usage [] (f ∷ fs) [] = After-none s
  relay_parts-After s usage (b ∷ bs) finish [] = After-none s
  relay_parts-After s usage [] [] (c ∷ cs) = record { index = refl; saw = or_true s.saw_tool_calls }
  relay_parts-After s usage [] (f ∷ fs) (c ∷ cs) = record {
    index = refl;
    saw = or_true s.saw_tool_calls;
  }
  relay_parts-After s usage (b ∷ bs) finish (c ∷ cs) = record {
    index = refl;
    saw = or_true s.saw_tool_calls;
  }

  abbrev pub Says :
      List GeminiChunk → List GeminiChunk → Bytes → List (ℕ × OpenCall) → List Bytes → Type 0
  Says ds cs text calls finishes =
      (chunk_texts ds ≡ text ++ chunk_texts cs)
      × (chunk_calls ds ≡ calls ++ chunk_calls cs)
      × (chunk_finishes ds ≡ finishes ++ chunk_finishes cs)

  pub relay_parts-Says :
      (s : GeminiStream) (usage : Option Usage) (text finish : Bytes) (calls : List FunctionCall)
      (cs : List GeminiChunk)
      → Says
          (with_chunk (relay_parts fresh s usage text finish calls).1 cs)
          cs
          text
          (stream_calls fresh s.tool_index calls)
          (named_finish (s.saw_tool_calls || any_call calls) finish)
  unfolding relay_parts stream_chunk_payload bytes_eq chunk_texts chunk_calls chunk_finishes
      stream_calls
  relay_parts-Says s none [] [] [] cs = (refl, refl, refl)
  relay_parts-Says s (some u) [] [] [] cs = (refl, refl, refl)
  relay_parts-Says s usage [] [] (d ∷ ds) cs = (refl, refl, refl)
  relay_parts-Says s usage [] (f ∷ fs) calls cs = (
    refl,
    refl,
    ap (λ b. upgraded b (f ∷ fs) ∷ chunk_finishes cs) (any_call-or s.saw_tool_calls calls),
  )
  relay_parts-Says s usage (b ∷ bs) [] calls cs = (refl, refl, refl)
  relay_parts-Says s usage (b ∷ bs) (f ∷ fs) calls cs = (
    refl,
    refl,
    ap (λ q. upgraded q (f ∷ fs) ∷ chunk_finishes cs) (any_call-or s.saw_tool_calls calls),
  )
