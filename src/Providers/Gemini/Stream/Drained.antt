-- ===== src/Providers/Gemini/Stream/Drained.antt =====
-- internal/providers/gemini.go, geminiStream: what a caller that reads to the end of a stream gets.
use llm_pico.Common.{
  ℕ, Option, List, [], none, some, ◌∷◌, ◌≡◌, length, true, ◌+◌, suc, refl, ◌≤◌, false, ◌++◌,
  option-both, arith, Option-cases, inl, ◌∙◌, inr, zero, ◌||◌, if-both, ap, sym,
}
use llm_pico.Common.Bytes.{Bytes}
use llm_pico.Providers.Gemini.Reply.{
  GeminiReply, answer_text, first_parts, first_finish, answer_calls, any_call,
}
use llm_pico.Providers.Gemini.Stream.{
  InnerRead, GeminiStream, relay_reply, GeminiChunk, drain, gemini_next, NextResult,
  stream_chunk_payload, relay_parts,
}

-- The replies that reads carry, up to the end of the stream below.
abbrev pub replies_in : (Bytes → Option GeminiReply) → List InnerRead → List GeminiReply
replies_in decode [] = []
replies_in decode (InnerRead.inner_done ∷ rest) = []
replies_in decode (InnerRead.inner_error e ∷ rest) = []
replies_in decode (InnerRead.a_payload raw ∷ rest) = elim (decode raw) [
  | none ↦ replies_in decode rest
  | some g ↦ g ∷ replies_in decode rest
]

-- The error that ends the stream below, if one does.
abbrev pub failure : List InnerRead → Option Bytes
failure [] = none
failure (InnerRead.inner_done ∷ rest) = none
failure (InnerRead.inner_error e ∷ rest) = some e
failure (InnerRead.a_payload raw ∷ rest) = failure rest

-- What follows the last reply: the end, unless an error ended the stream below.
abbrev pub closing : Option Bytes → List GeminiChunk
closing none = GeminiChunk.the_end ∷ []
closing (some e) = []

abbrev pub with_chunk : Option GeminiChunk → List GeminiChunk → List GeminiChunk
with_chunk none cs = cs
with_chunk (some c) cs = c ∷ cs

module _ (fresh : ℕ → Bytes) where
  -- The chunks of a list of replies.
  unfoldable pub pieces : GeminiStream → List GeminiReply → List GeminiChunk
  pieces s [] = []
  pieces s (g ∷ gs) = with_chunk (relay_reply fresh s g).1 (pieces (relay_reply fresh s g).0 gs)

  pieces-step :
      (s : GeminiStream) (g : GeminiReply) (gs : List GeminiReply) (o : Option GeminiChunk)
      → (relay_reply fresh s g).1 ≡ o
      → pieces s (g ∷ gs) ≡ with_chunk o (pieces (relay_reply fresh s g).0 gs)
  unfolding pieces
  pieces-step s g gs o h = ap (λ c. with_chunk c (pieces (relay_reply fresh s g).0 gs)) h

  relay_reply-open :
      (s : GeminiStream) (g : GeminiReply) → (relay_reply fresh s g).0.finished ≡ s.finished
  unfolding relay_parts
  relay_reply-open s g =
      option-both (λ (x : GeminiStream × Option GeminiChunk). x.0.finished ≡ s.finished)
        (stream_chunk_payload fresh (answer_text (first_parts g.candidates))
          (first_finish g.candidates) (answer_calls (first_parts g.candidates)) s.tool_index
          (s.saw_tool_calls || any_call (answer_calls (first_parts g.candidates))))
        refl
        λ delta.
          if-both (λ (t : GeminiStream). t.finished ≡ s.finished)
            (any_call (answer_calls (first_parts g.candidates))) refl refl

  module _ (decode : Bytes → Option GeminiReply) where
    next-skip :
        (s : GeminiStream) (raw : Bytes) (rest : List InnerRead)
        → s.finished ≡ false
        → decode raw ≡ none
        → gemini_next fresh decode s (InnerRead.a_payload raw ∷ rest)
          ≡ gemini_next fresh decode s rest
    unfolding gemini_next
    next-skip s raw rest h e = simp (h, e)

    next-quiet :
        (s : GeminiStream) (raw : Bytes) (g : GeminiReply) (rest : List InnerRead)
        → s.finished ≡ false
        → decode raw ≡ some g
        → (relay_reply fresh s g).1 ≡ none
        → gemini_next fresh decode s (InnerRead.a_payload raw ∷ rest)
          ≡ gemini_next fresh decode (relay_reply fresh s g).0 rest
    unfolding gemini_next
    next-quiet s raw g rest h e q = simp (h, e, q)

    next-chunk :
        (s : GeminiStream) (raw : Bytes) (g : GeminiReply) (c : GeminiChunk) (rest : List InnerRead)
        → s.finished ≡ false
        → decode raw ≡ some g
        → (relay_reply fresh s g).1 ≡ some c
        → gemini_next fresh decode s (InnerRead.a_payload raw ∷ rest)
          ≡ (NextResult.a_chunk c, (relay_reply fresh s g).0, rest)
    unfolding gemini_next
    next-chunk s raw g c rest h e q = simp (h, e, q)

    next-end :
        (s : GeminiStream)
        → s.finished ≡ false
        → gemini_next fresh decode s []
          ≡ (NextResult.a_chunk GeminiChunk.the_end, record s { finished = true }, [])
    unfolding gemini_next
    next-end s h = simp h

    next-done :
        (s : GeminiStream) (rest : List InnerRead)
        → s.finished ≡ false
        → gemini_next fresh decode s (InnerRead.inner_done ∷ rest)
          ≡ (NextResult.a_chunk GeminiChunk.the_end, record s { finished = true }, rest)
    unfolding gemini_next
    next-done s rest h = simp h

    next-error :
        (s : GeminiStream) (e : Bytes) (rest : List InnerRead)
        → s.finished ≡ false
        → gemini_next fresh decode s (InnerRead.inner_error e ∷ rest)
          ≡ (NextResult.next_error e, s, rest)
    unfolding gemini_next
    next-error s e rest h = simp h

    replies_in-skip :
        (raw : Bytes) (rest : List InnerRead)
        → decode raw ≡ none
        → replies_in decode (InnerRead.a_payload raw ∷ rest) ≡ replies_in decode rest
    replies_in-skip raw rest e = rw (e, replies_in) refl

    replies_in-reply :
        (raw : Bytes) (g : GeminiReply) (rest : List InnerRead)
        → decode raw ≡ some g
        → replies_in decode (InnerRead.a_payload raw ∷ rest) ≡ g ∷ replies_in decode rest
    replies_in-reply raw g rest e = rw (e, replies_in) refl

    drain-finished :
        (fuel : ℕ) (s : GeminiStream) (reads : List InnerRead)
        → s.finished ≡ true
        → drain fresh decode (suc fuel) s reads ≡ some ([], none)
    unfolding drain gemini_next
    drain-finished fuel s [] h = rw h refl
    drain-finished fuel s (InnerRead.inner_done ∷ rest) h = rw h refl
    drain-finished fuel s (InnerRead.inner_error e ∷ rest) h = rw h refl
    drain-finished fuel s (InnerRead.a_payload raw ∷ rest) h = rw h refl

    -- The rest of a caller after one call of `Next`.
    abbrev after :
        ℕ → NextResult × GeminiStream × List InnerRead → Option (List GeminiChunk × Option Bytes)
    after fuel x = elim x.0 [
      | NextResult.a_chunk c ↦ elim (drain fresh decode fuel x.1 x.2) [
        | none ↦ none
        | some (cs, e) ↦ some (c ∷ cs, e)
      ]
      | NextResult.at_eof ↦ some ([], none)
      | NextResult.next_error e ↦ some ([], some e)
    ]

    drain-same :
        (fuel : ℕ) (s t : GeminiStream) (reads rest : List InnerRead)
        → gemini_next fresh decode s reads ≡ gemini_next fresh decode t rest
        → drain fresh decode (suc fuel) s reads ≡ drain fresh decode (suc fuel) t rest
    unfolding drain
    drain-same fuel s t reads rest h = ap (after fuel) h

    drain-chunk :
        (fuel : ℕ) (s t : GeminiStream) (reads rest : List InnerRead) (c : GeminiChunk)
        (cs : List GeminiChunk) (e : Option Bytes)
        → gemini_next fresh decode s reads ≡ (NextResult.a_chunk c, t, rest)
        → drain fresh decode fuel t rest ≡ some (cs, e)
        → drain fresh decode (suc fuel) s reads ≡ some (c ∷ cs, e)
    unfolding drain
    drain-chunk fuel s t reads rest c cs e h k = ap (after fuel) h ∙ rw (k, after) refl

    drain-error :
        (fuel : ℕ) (s : GeminiStream) (reads rest : List InnerRead) (e : Bytes)
        → gemini_next fresh decode s reads ≡ (NextResult.next_error e, s, rest)
        → drain fresh decode (suc fuel) s reads ≡ some ([], some e)
    unfolding drain
    drain-error fuel s reads rest e h = ap (after fuel) h

    -- From a stream that has not ended, a caller that may call `Next` two times more than the stream
    -- below has reads comes to the end: it gets the chunks of the replies that decode, then one end of
    -- the stream, or in its place the error of the stream below, and nothing after either.
    pub drain-ends :
        (fuel : ℕ) (s : GeminiStream) (reads : List InnerRead)
        → length reads + 2 ≤ fuel
        → s.finished ≡ false
        → drain fresh decode fuel s reads
          ≡ some (pieces s (replies_in decode reads) ++ closing (failure reads), failure reads)
    unfolding pieces
    drain-ends zero s reads enough h = absurd (omega arith)
    drain-ends (suc zero) s reads enough h = absurd (omega arith)
    drain-ends (suc (suc fuel)) s [] enough h =
        drain-chunk (suc fuel) s _ [] [] GeminiChunk.the_end [] none (next-end s h)
          (drain-finished fuel _ [] refl)
    drain-ends (suc (suc fuel)) s (InnerRead.inner_done ∷ rest) enough h =
        drain-chunk (suc fuel) s _ (InnerRead.inner_done ∷ rest) rest GeminiChunk.the_end [] none
          (next-done s rest h) (drain-finished fuel _ rest refl)
    drain-ends (suc fuel) s (InnerRead.inner_error e ∷ rest) enough h =
        drain-error fuel s (InnerRead.inner_error e ∷ rest) rest e (next-error s e rest h)
    drain-ends (suc fuel) s (InnerRead.a_payload raw ∷ rest) enough h =
        elim (Option-cases (decode raw)) [
          | inl none_read ↦
              drain-same fuel s s (InnerRead.a_payload raw ∷ rest) rest
                (next-skip s raw rest h none_read)
              ∙ drain-ends (suc fuel) s rest (omega arith) h
              ∙ ap (λ gs. some (pieces s gs ++ closing (failure rest), failure rest))
                  (sym (replies_in-skip raw rest none_read))
          | inr (g, read) ↦ elim (Option-cases (relay_reply fresh s g).1) [
            | inl quiet ↦
                drain-same fuel s (relay_reply fresh s g).0 (InnerRead.a_payload raw ∷ rest) rest
                  (next-quiet s raw g rest h read quiet)
                ∙ drain-ends (suc fuel) (relay_reply fresh s g).0 rest (omega arith)
                    (relay_reply-open s g ∙ h)
                ∙ ap (λ ps. some (ps ++ closing (failure rest), failure rest))
                    (sym (
                      ap (pieces s) (replies_in-reply raw g rest read)
                      ∙ pieces-step s g (replies_in decode rest) none quiet))
            | inr (c, heard) ↦
                drain-chunk fuel s (relay_reply fresh s g).0 (InnerRead.a_payload raw ∷ rest) rest c
                  _ _ (next-chunk s raw g c rest h read heard)
                  (drain-ends fuel (relay_reply fresh s g).0 rest (omega arith)
                    (relay_reply-open s g ∙ h))
                ∙ ap (λ ps. some (ps ++ closing (failure rest), failure rest))
                    (sym (
                      ap (pieces s) (replies_in-reply raw g rest read)
                      ∙ pieces-step s g (replies_in decode rest) (some c) heard))
          ]
        ]
