-- ===== src/Providers/Anthropic/Indexes.antt =====
-- internal/providers/anthropic.go, anthropicStream: the indexes of tool calls.
-- Every block that has an index has one of a call that was opened.
use llm_pico.Common.{
  ℕ, List, ◌≡◌, Option, some, ◌+◌, ◌<◌, ◌⊎◌, ◌∷◌, [], none, inl, if-both, arith, if◌then◌else◌, inr,
  refl,
}
use llm_pico.Common.Bytes.{Bytes, bytes_eq, codes}
use llm_pico.Common.Signed.{ℤ}
use llm_pico.Common.Text.{has_prefix}
use llm_pico.Providers.Anthropic.{
  StreamState, block_delta, take_event, block_start, Envelope, message_start, message_delta,
  Emitted, set_index, translate, fresh_stream, ends_stream, final_chunk,
}
use mathlib.Core.Path.{subst}

abbrev pub IsIndexed : StreamState → Type 0
IsIndexed s = (block : ℤ) (i : ℕ) → s.tool_index_by_block block ≡ some i → i < s.tool_calls

-- The calls opened before and after a chunk: a delta of a call opens the next one or is of one opened
-- before.
abbrev pub Follows : ℕ → ℕ → Option Emitted → Type 0
Follows n m (some (Emitted.tool_delta i id name args)) =
    ((i ≡ n) × (m ≡ n + 1)) ⊎ ((i < n) × (m ≡ n))
Follows n m _ = m ≡ n

-- Chunks in which each delta of a tool call opens the next index or is of one opened before, when `n`
-- are open at the start.
abbrev pub AreInOrder : ℕ → List Emitted → Type 0
AreInOrder n [] = Unit {0}
AreInOrder n (Emitted.tool_delta i id name args ∷ cs) =
    ((i ≡ n) × AreInOrder (n + 1) cs) ⊎ ((i < n) × AreInOrder n cs)
AreInOrder n (c ∷ cs) = AreInOrder n cs

abbrev AfterTurn : StreamState → StreamState × Option Emitted → Type 0
AfterTurn s t = IsIndexed t.0 × Follows s.tool_calls t.0.tool_calls t.1

set_index-within :
    (indexes : ℤ → Option ℕ) (block : ℤ) (n : ℕ) (other : ℤ) (i : ℕ)
    → ((b : ℤ) (j : ℕ) → indexes b ≡ some j → j < n)
    → set_index indexes block n other ≡ some i
    → i < n + 1
set_index-within indexes block n other i within h = ground (arith, within other i)

block_start-AfterTurn :
    (s : StreamState) (e : Envelope) → IsIndexed s → AfterTurn s (block_start s e)
unfolding block_start
block_start-AfterTurn s e within =
    if-both (AfterTurn s) (bytes_eq e.block_kind (codes "tool_use"))
      (
        (λ b i h. set_index-within s.tool_index_by_block e.index s.tool_calls b i within h),
        inl (refl, refl),
      )
      (within, refl)

block_delta-AfterTurn :
    (s : StreamState) (e : Envelope) → IsIndexed s → AfterTurn s (block_delta s e)
unfolding block_delta
block_delta-AfterTurn s e within =
    if-both (AfterTurn s) (bytes_eq e.delta_kind (codes "text_delta"))
      (if-both (AfterTurn s) (bytes_eq e.delta_text []) (within, refl) (within, refl))
      (if-both (AfterTurn s) (bytes_eq e.delta_kind (codes "input_json_delta"))
        (found (s.tool_index_by_block e.index) refl) (within, refl))
  where
    found :
        (o : Option ℕ)
        → s.tool_index_by_block e.index ≡ o
        → AfterTurn s (elim o [
          | none ↦ (s, none)
          | some index ↦ (s, some (Emitted.tool_delta index [] [] e.partial_json))
        ])
    found none h = (within, refl)
    found (some index) h = (within, inr (within e.index index h, refl))

take_event-AfterTurn : (s : StreamState) (e : Envelope) → IsIndexed s → AfterTurn s (take_event s e)
unfolding take_event message_start message_delta final_chunk
take_event-AfterTurn s e within =
    if-both (AfterTurn s) (bytes_eq event (codes "message_start")) (within, refl)
      (if-both (AfterTurn s) (bytes_eq event (codes "content_block_start"))
        (block_start-AfterTurn s' e within)
        (if-both (AfterTurn s) (bytes_eq event (codes "content_block_delta"))
          (block_delta-AfterTurn s' e within)
          (if-both (AfterTurn s) (bytes_eq event (codes "message_delta")) (within, refl)
            (if-both (AfterTurn s) (bytes_eq event (codes "message_stop")) (within, refl)
              (within, refl)))))
  where
    event : Bytes
    event = if bytes_eq e.event [] then s.event_type else e.event

    s' : StreamState
    s' = record s { event_type = event }

AreInOrder-emit :
    (n m : ℕ) (c : Emitted) (cs : List Emitted)
    → Follows n m (some c)
    → AreInOrder m cs
    → AreInOrder n (c ∷ cs)
AreInOrder-emit n m (Emitted.tool_delta i id name args) cs (inl (new, more)) rest =
    inl (new, subst (λ k. AreInOrder k cs) more rest)
AreInOrder-emit n m (Emitted.tool_delta i id name args) cs (inr (old, same)) rest =
    inr (old, subst (λ k. AreInOrder k cs) same rest)
AreInOrder-emit n m Emitted.opening cs same rest = subst (λ k. AreInOrder k cs) same rest
AreInOrder-emit n m (Emitted.text_delta i t) cs same rest = subst (λ k. AreInOrder k cs) same rest
AreInOrder-emit n m (Emitted.final u r) cs same rest = subst (λ k. AreInOrder k cs) same rest
AreInOrder-emit n m Emitted.done cs same rest = subst (λ k. AreInOrder k cs) same rest

AreInOrder-turn :
    (n m : ℕ) (emitted : Option Emitted) (cs : List Emitted)
    → Follows n m emitted
    → AreInOrder m cs
    → AreInOrder n (elim emitted [ none ↦ cs | some c ↦ if ends_stream c then c ∷ [] else c ∷ cs ])
AreInOrder-turn n m none cs same rest = subst (λ k. AreInOrder k cs) same rest
AreInOrder-turn n m (some c) cs f rest =
    if-both (AreInOrder n) (ends_stream c) (AreInOrder-emit n m c [] f tt)
      (AreInOrder-emit n m c cs f rest)

translate-in_order_from :
    (decode : Bytes → Option Envelope) (s : StreamState) (ps : List Bytes)
    → IsIndexed s
    → AreInOrder s.tool_calls (translate decode s ps)
unfolding translate
translate-in_order_from decode s [] within = tt
translate-in_order_from decode s (p ∷ ps) within =
    if-both (AreInOrder s.tool_calls) (has_prefix p (codes "[DONE]")) tt
      (next (λ s' w. translate-in_order_from decode s' ps w) (decode p))
  where
    next :
        ((s' : StreamState) → IsIndexed s' → AreInOrder s'.tool_calls (translate decode s' ps))
        → (o : Option Envelope)
        → AreInOrder s.tool_calls (elim o [
          | none ↦ translate decode s ps
          | some e ↦ elim (take_event s e).1 [
            | none ↦ translate decode (take_event s e).0 ps
            | some c ↦ if ends_stream c then c ∷ [] else c ∷ translate decode (take_event s e).0 ps
          ]
        ])
    next after none = after s within
    next after (some e) =
        let turn = take_event-AfterTurn s e within in
        AreInOrder-turn s.tool_calls (take_event s e).0.tool_calls (take_event s e).1
          (translate decode (take_event s e).0 ps) turn.1 (after (take_event s e).0 turn.0)

-- Whatever events a stream of Anthropic brings, each delta of a tool call that its client is sent
-- either opens the next index, from 0 upwards, or is of an index that was opened before.
pub translate-AreInOrder :
    (decode : Bytes → Option Envelope) (ps : List Bytes)
    → AreInOrder 0 (translate decode fresh_stream ps)
translate-AreInOrder decode ps =
    translate-in_order_from decode fresh_stream ps λ block i h. absurd (cc)
