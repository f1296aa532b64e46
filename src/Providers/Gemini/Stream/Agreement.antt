-- ===== src/Providers/Gemini/Stream/Agreement.antt =====
-- internal/providers/gemini.go: what a stream of generateContent says is what toOpenAI makes of the
-- whole reply.
use llm_pico.Common.{
  ℕ, Bool, Option, List, [], ◌||◌, ◌∷◌, ◌++◌, ◌≡◌, some, true, ap, none, false, refl, length, ◌+◌,
  ◌∙◌, sym, arith, if◌then◌else◌, ◌&&◌,
}
use llm_pico.Common.Bytes.{Bytes, bytes_eq}
use llm_pico.Providers.Gemini.{GeminiPart, FunctionCall}
use llm_pico.Providers.Gemini.Reply.{
  GeminiReply, gemini_to_openai, answer_text, GeminiUsage, answer_calls, upgraded, first_parts,
  first_finish, any_call,
}
use llm_pico.Providers.Gemini.Stream.{
  GeminiChunk, GeminiStream, InnerRead, stream_calls, relay_reply, drain, chunk_usage, fresh_gemini,
}
use llm_pico.Providers.Gemini.Stream.Drained.{pieces, failure, replies_in, drain-ends, closing}
use llm_pico.Providers.Gemini.Stream.Spoken.{
  delta_text, chunk_calls, chunk_texts, chunk_finishes, delta_calls, delta_finish,
  relay_parts-After, relay_parts-Says, indexed, answer_text-append, stream_calls-append,
  answer_calls-append, stream_calls-indexed, any_call-append, named_finish,
}
use mathlib.Core.List.{append-nil}

-- The parts of the first candidates of the replies, in order.
abbrev pub all_parts : List GeminiReply → List GeminiPart
all_parts [] = []
all_parts (g ∷ gs) = first_parts g.candidates ++ all_parts gs

-- The replies are one reply in pieces, of which only the last names the finish reason `reason`.
abbrev pub ArePaced : Bytes → List GeminiReply → Type 0
ArePaced reason [] = ⊥
ArePaced reason (g ∷ []) = (first_finish g.candidates ≡ reason) × (bytes_eq reason [] ≡ false)
ArePaced reason (g ∷ h ∷ gs) =
    (bytes_eq (first_finish g.candidates) [] ≡ true) × ArePaced reason (h ∷ gs)

-- The whole reply.
abbrev pub whole : Bytes → GeminiUsage → List GeminiReply → GeminiReply
whole reason usage gs = record {
  candidates = record { parts = all_parts gs; finish_reason = reason } ∷ [];
  usage = usage;
}

abbrev pub content_or_empty : Option Bytes → Bytes
content_or_empty none = []
content_or_empty (some t) = t

end_texts : (cs : List GeminiChunk) → chunk_texts (cs ++ GeminiChunk.the_end ∷ []) ≡ chunk_texts cs
unfolding chunk_texts
end_texts [] = refl
end_texts (GeminiChunk.piece d u ∷ cs) = ap (λ r. delta_text d ++ r) (end_texts cs)
end_texts (GeminiChunk.the_end ∷ cs) = end_texts cs

end_calls : (cs : List GeminiChunk) → chunk_calls (cs ++ GeminiChunk.the_end ∷ []) ≡ chunk_calls cs
unfolding chunk_calls
end_calls [] = refl
end_calls (GeminiChunk.piece d u ∷ cs) = ap (λ r. delta_calls d ++ r) (end_calls cs)
end_calls (GeminiChunk.the_end ∷ cs) = end_calls cs

end_finishes :
    (cs : List GeminiChunk) → chunk_finishes (cs ++ GeminiChunk.the_end ∷ []) ≡ chunk_finishes cs
unfolding chunk_finishes
end_finishes [] = refl
end_finishes (GeminiChunk.piece d u ∷ cs) = ap (λ r. delta_finish d ++ r) (end_finishes cs)
end_finishes (GeminiChunk.the_end ∷ cs) = end_finishes cs

content-same :
    (b : Bool) (t : Bytes) → t ≡ content_or_empty (if b && bytes_eq t [] then none else some t)
unfolding bytes_eq
content-same true [] = refl
content-same true (x ∷ xs) = refl
content-same false t = refl

or_assoc : (a b c : Bool) → ((a || b) || c) ≡ (a || (b || c))
or_assoc true b c = refl
or_assoc false b c = refl

named-empty : (b : Bool) (finish : Bytes) → bytes_eq finish [] ≡ true → named_finish b finish ≡ []
named-empty b finish h = rw (h, named_finish) refl

named-last :
    (b : Bool) (finish reason : Bytes)
    → finish ≡ reason
    → bytes_eq reason [] ≡ false
    → (rest : List Bytes) → rest ≡ []
    → named_finish b finish ++ rest ≡ upgraded b reason ∷ []
named-last b finish reason h k rest e =
    rw h (rw (k, named_finish) (ap (λ r. upgraded b reason ∷ r) e))

module _ (fresh : ℕ → Bytes) where
  pieces-says :
      (s : GeminiStream) (gs : List GeminiReply)
      → (chunk_texts (pieces fresh s gs) ≡ answer_text (all_parts gs))
        × (chunk_calls (pieces fresh s gs)
            ≡ stream_calls fresh s.tool_index (answer_calls (all_parts gs)))
  unfolding pieces answer_text answer_calls stream_calls chunk_texts chunk_calls
  pieces-says s [] = (refl, refl)
  pieces-says s (g ∷ gs) =
      let calls : List FunctionCall = answer_calls (first_parts g.candidates) in
      let t : GeminiStream = (relay_reply fresh s g).0 in
      let (texts, numbered) = pieces-says t gs in
      let after =
        relay_parts-After fresh s (chunk_usage g.usage) (answer_text (first_parts g.candidates))
          (first_finish g.candidates) calls in
      let says =
        relay_parts-Says fresh s (chunk_usage g.usage) (answer_text (first_parts g.candidates))
          (first_finish g.candidates) calls (pieces fresh t gs) in
      (
        says.0
            ∙ ap (λ r. answer_text (first_parts g.candidates) ++ r) texts
            ∙ sym (answer_text-append (first_parts g.candidates) (all_parts gs)),
        says.1
            ∙ ap (λ r. stream_calls fresh s.tool_index calls ++ r)
                (numbered
                  ∙ ap (λ k. stream_calls fresh k (answer_calls (all_parts gs))) after.index)
            ∙ sym (stream_calls-append fresh s.tool_index calls (answer_calls (all_parts gs)))
            ∙ ap (stream_calls fresh s.tool_index)
                (sym (answer_calls-append (first_parts g.candidates) (all_parts gs))),
      )

  pieces-nothing : (s : GeminiStream) → chunk_finishes (pieces fresh s []) ≡ []
  unfolding pieces chunk_finishes
  pieces-nothing s = refl

  finishes-step :
      (s : GeminiStream) (g : GeminiReply) (gs : List GeminiReply)
      → chunk_finishes (pieces fresh s (g ∷ gs))
        ≡ named_finish
            (s.saw_tool_calls || any_call (answer_calls (first_parts g.candidates)))
            (first_finish g.candidates)
          ++ chunk_finishes (pieces fresh (relay_reply fresh s g).0 gs)
  unfolding pieces
  finishes-step s g gs =
      (relay_parts-Says fresh s (chunk_usage g.usage) (answer_text (first_parts g.candidates))
        (first_finish g.candidates) (answer_calls (first_parts g.candidates))
        (pieces fresh (relay_reply fresh s g).0 gs)).2

  all_calls-step :
      (b : Bool) (g : GeminiReply) (gs : List GeminiReply)
      → ((b || any_call (answer_calls (first_parts g.candidates)))
          || any_call (answer_calls (all_parts gs)))
        ≡ (b || any_call (answer_calls (all_parts (g ∷ gs))))
  all_calls-step b g gs =
      or_assoc b (any_call (answer_calls (first_parts g.candidates)))
        (any_call (answer_calls (all_parts gs)))
      ∙ ap (λ c. b || c)
          (sym (
            ap any_call (answer_calls-append (first_parts g.candidates) (all_parts gs))
            ∙ any_call-append (answer_calls (first_parts g.candidates))
                (answer_calls (all_parts gs))))

  pieces-finish :
      (s : GeminiStream) (reason : Bytes) (gs : List GeminiReply)
      → ArePaced reason gs
      → chunk_finishes (pieces fresh s gs)
        ≡ upgraded (s.saw_tool_calls || any_call (answer_calls (all_parts gs))) reason ∷ []
  pieces-finish s reason [] h = absurd (h)
  pieces-finish s reason (g ∷ []) h =
      finishes-step s g []
      ∙ named-last (s.saw_tool_calls || any_call (answer_calls (first_parts g.candidates)))
          (first_finish g.candidates) reason h.0 h.1
          (chunk_finishes (pieces fresh (relay_reply fresh s g).0 []))
          (pieces-nothing (relay_reply fresh s g).0)
      ∙ ap (λ ps. upgraded (s.saw_tool_calls || any_call (answer_calls ps)) reason ∷ [])
          (sym (append-nil (first_parts g.candidates)))
  pieces-finish s reason (g ∷ k ∷ gs) h =
      finishes-step s g (k ∷ gs)
      ∙ ap (λ r. r ++ chunk_finishes (pieces fresh (relay_reply fresh s g).0 (k ∷ gs)))
          (named-empty (s.saw_tool_calls || any_call (answer_calls (first_parts g.candidates)))
            (first_finish g.candidates) h.0)
      ∙ pieces-finish (relay_reply fresh s g).0 reason (k ∷ gs) h.1
      ∙ ap (λ b. upgraded (b || any_call (answer_calls (all_parts (k ∷ gs)))) reason ∷ [])
          (relay_parts-After fresh s (chunk_usage g.usage) (answer_text (first_parts g.candidates))
            (first_finish g.candidates) (answer_calls (first_parts g.candidates))).saw
      ∙ ap (λ b. upgraded b reason ∷ []) (all_calls-step s.saw_tool_calls g (k ∷ gs))

  -- When the stream below does not fail and its replies are the pieces of one reply, of which only
  -- the last names a finish reason, a caller that reads the stream to its end gets the text of what
  -- `toOpenAI` makes of the whole reply, its tool calls with the indexes from zero on, and its finish
  -- reason, once.
  pub drain-agrees :
      (decode : Bytes → Option GeminiReply) (reads : List InnerRead) (reason : Bytes)
      (usage : GeminiUsage)
      → failure reads ≡ none
      → ArePaced reason (replies_in decode reads)
      → (cs : List GeminiChunk) × ((drain fresh decode (length reads + 2) fresh_gemini reads
            ≡ some (cs, none))
          × (chunk_texts cs
              ≡ content_or_empty
                  (gemini_to_openai fresh (whole reason usage (replies_in decode reads))).content)
          × (chunk_calls cs
              ≡ indexed 0
                  (gemini_to_openai fresh (whole reason usage (replies_in decode reads))).calls)
          × (chunk_finishes cs
              ≡ (gemini_to_openai fresh (whole reason usage (replies_in decode reads))).finish
                ∷ []))
  unfolding gemini_to_openai
  drain-agrees decode reads reason usage sound paced =
      let gs : List GeminiReply = replies_in decode reads in
      let (texts, calls) = pieces-says fresh_gemini gs in
      (
        pieces fresh fresh_gemini gs ++ GeminiChunk.the_end ∷ [],
        (
          drain-ends fresh decode (length reads + 2) fresh_gemini reads (omega arith) refl
              ∙ ap (λ e. some (pieces fresh fresh_gemini gs ++ closing e, e)) sound,
          end_texts (pieces fresh fresh_gemini gs)
              ∙ texts
              ∙ content-same (any_call (answer_calls (all_parts gs))) (answer_text (all_parts gs)),
          end_calls (pieces fresh fresh_gemini gs)
              ∙ calls
              ∙ stream_calls-indexed fresh 0 (answer_calls (all_parts gs)),
          end_finishes (pieces fresh fresh_gemini gs) ∙ pieces-finish fresh_gemini reason gs paced,
        ),
      )
