-- ===== src/Providers/Anthropic/Spoken.antt =====
-- internal/providers/anthropic.go: the text of the chunks of a streamed message, by their choices.
use llm_pico.Common.{
  Option, List, [], ◌++◌, some, if◌then◌else◌, ℕ, none, ◌≡◌, ◌∷◌, false, ◌+◌, ap, refl, ◌∙◌, arith,
  sym, Bool, true, if-both, map, get_elem?, ◌<◌, Bool-cases, ◌==◌, inl, inr, suc, zero,
}
use llm_pico.Common.Bytes.{Bytes}
use llm_pico.Common.Signed.{pos, eq_ℤ, ℤ}
use llm_pico.Providers.Anthropic.{StreamState, Emitted}
use llm_pico.Providers.Anthropic.Chunked.{
  blocks_chunks, stopped, delta_chunk, delta_chunks, block_chunks,
}
use llm_pico.Providers.Anthropic.Message.{content_text, Block}
use llm_pico.Providers.Anthropic.Streamed.{Sent, joined, whole}
use mathlib.Core.List.{append_assoc, append-nil}

-- The text of the chunks of some choices.
unfoldable pub text_where : (ℤ → Bool) → List Emitted → Bytes
text_where p [] = []
text_where p (Emitted.text_delta i t ∷ cs) =
    let rest = text_where p cs in if p i then t ++ rest else rest
text_where p (Emitted.opening ∷ cs) = text_where p cs
text_where p (Emitted.tool_delta i id name args ∷ cs) = text_where p cs
text_where p (Emitted.final u r ∷ cs) = text_where p cs
text_where p (Emitted.done ∷ cs) = text_where p cs

-- The text of all chunks, whatever the choice that they name.
abbrev pub text_of : List Emitted → Bytes
text_of cs = text_where (λ i. true) cs

-- The text of the chunks that name the choice `n`.
abbrev pub text_at : ℕ → List Emitted → Bytes
text_at n cs = text_where (λ i. eq_ℤ i (pos n)) cs

abbrev pub block_text : Block → Bytes
block_text (Block.text_block t) = t
block_text (Block.tool_block id name input) = []
block_text Block.other_block = []

-- The text of the block at a position, if there is one.
abbrev pub text_in : Option Block → Bytes
text_in none = []
text_in (some b) = block_text b

-- The text of the blocks with some numbers, counted from `k`.
unfoldable pub picked : (ℤ → Bool) → ℕ → List Block → Bytes
picked p k [] = []
picked p k (b ∷ bs) =
    let rest = picked p (k + 1) bs in if p (pos k) then block_text b ++ rest else rest

pub picked-all : (k : ℕ) (bs : List Block) → picked (λ i. true) k bs ≡ content_text bs
unfolding picked content_text
picked-all k [] = refl
picked-all k (Block.text_block t ∷ bs) = ap (λ r. t ++ r) (picked-all (k + 1) bs)
picked-all k (Block.tool_block id name input ∷ bs) = picked-all (k + 1) bs
picked-all k (Block.other_block ∷ bs) = picked-all (k + 1) bs

picked-past : (n k : ℕ) (bs : List Block) → n < k → picked (λ i. eq_ℤ i (pos n)) k bs ≡ []
unfolding picked
picked-past n k [] h = refl
picked-past n k (b ∷ bs) h =
    let other : (k == n) ≡ false = ground arith in rw other (picked-past n (k + 1) bs (omega arith))

pub picked-one :
    (n k : ℕ) (bs : List Block) → picked (λ i. eq_ℤ i (pos (n + k))) k bs ≡ text_in (get_elem? bs n)
unfolding picked
picked-one n k [] = refl
picked-one zero k (b ∷ bs) =
    let same : (k == zero + k) ≡ true = ground arith in
    rw same (
      ap (λ r. block_text b ++ r) (picked-past (zero + k) (k + 1) bs (omega arith))
      ∙ append-nil (block_text b))
picked-one (suc n) k (b ∷ bs) =
    let other : (k == suc n + k) ≡ false = ground arith in
    let next : suc n + k ≡ n + (k + 1) = omega arith in
    rw other (ap (λ m. picked (λ i. eq_ℤ i (pos m)) (k + 1) bs) next ∙ picked-one n (k + 1) bs)

-- The pieces of a text.
own : Sent → List Bytes → Bytes
own (Sent.sent_text qs) ps = joined ps
own (Sent.sent_call id name qs) ps = []
own (Sent.sent_other qs) ps = []

text_where-delta_chunk :
    (p : ℤ → Bool) (i k : ℕ) (x : Sent) (q : Bytes) (rest : List Emitted)
    → text_where p (delta_chunk i k x q rest)
      ≡ (if p (pos k) then own x (q ∷ []) ++ text_where p rest else text_where p rest)
unfolding text_where own
text_where-delta_chunk p i k (Sent.sent_text ps) [] rest =
    sym (if-both (λ t. t ≡ text_where p rest) (p (pos k)) refl refl)
text_where-delta_chunk p i k (Sent.sent_text ps) (c ∷ cs) rest =
    ap (λ t. if p (pos k) then t ++ text_where p rest else text_where p rest)
      (sym (append-nil (c ∷ cs)))
text_where-delta_chunk p i k (Sent.sent_call id name ps) q rest =
    sym (if-both (λ t. t ≡ text_where p rest) (p (pos k)) refl refl)
text_where-delta_chunk p i k (Sent.sent_other ps) q rest =
    sym (if-both (λ t. t ≡ text_where p rest) (p (pos k)) refl refl)

own-nil : (x : Sent) {rest : Bytes} → rest ≡ own x [] ++ rest
unfolding own
own-nil (Sent.sent_text qs) = refl
own-nil (Sent.sent_call id name qs) = refl
own-nil (Sent.sent_other qs) = refl

own-cons : (x : Sent) (q : Bytes) (ps : List Bytes) → own x (q ∷ ps) ≡ own x (q ∷ []) ++ own x ps
unfolding own
own-cons (Sent.sent_text qs) q ps = ap (λ t. t ++ joined ps) (sym (append-nil q))
own-cons (Sent.sent_call id name qs) q ps = refl
own-cons (Sent.sent_other qs) q ps = refl

text_where-delta_chunks :
    (p : ℤ → Bool) (i k : ℕ) (x : Sent) (ps : List Bytes) (rest : List Emitted)
    → text_where p (delta_chunks i k x ps rest)
      ≡ (if p (pos k) then own x ps ++ text_where p rest else text_where p rest)
unfolding delta_chunks
text_where-delta_chunks p i k x ps rest = elim (Bool-cases (p (pos k))) [
  | inl e ↦ rw e (taken e ps)
  | inr e ↦ rw e (dropped e ps)
]
  where
    taken :
        p (pos k) ≡ true
        → (ps : List Bytes)
        → text_where p (delta_chunks i k x ps rest) ≡ own x ps ++ text_where p rest
    taken e [] = own-nil x
    taken e (q ∷ qs) =
        text_where-delta_chunk p i k x q (delta_chunks i k x qs rest)
        ∙ rw e (
            ap (λ t. own x (q ∷ []) ++ t) (taken e qs)
            ∙ sym (append_assoc (own x (q ∷ [])) (own x qs) (text_where p rest))
            ∙ ap (λ t. t ++ text_where p rest) (sym (own-cons x q qs)))

    dropped :
        p (pos k) ≡ false
        → (ps : List Bytes) → text_where p (delta_chunks i k x ps rest) ≡ text_where p rest
    dropped e [] = refl
    dropped e (q ∷ qs) =
        text_where-delta_chunk p i k x q (delta_chunks i k x qs rest) ∙ rw e (dropped e qs)

text_where-block_chunks :
    (p : ℤ → Bool) (s : StreamState) (k : ℕ) (x : Sent) (rest : List Emitted)
    → text_where p (block_chunks s k x rest)
      ≡ (if p (pos k) then block_text (whole x) ++ text_where p rest else text_where p rest)
unfolding text_where own
text_where-block_chunks p s k (Sent.sent_text ps) rest =
    text_where-delta_chunks p s.tool_calls k (Sent.sent_text ps) ps rest
text_where-block_chunks p s k (Sent.sent_call id name ps) rest =
    text_where-delta_chunks p s.tool_calls k (Sent.sent_call id name ps) ps rest
text_where-block_chunks p s k (Sent.sent_other ps) rest =
    text_where-delta_chunks p s.tool_calls k (Sent.sent_other ps) ps rest

pub text_where-blocks_chunks :
    (p : ℤ → Bool) (s : StreamState) (k : ℕ) (xs : List Sent) (rest : List Emitted)
    → text_where p rest ≡ []
    → text_where p (blocks_chunks s k xs rest) ≡ picked p k (map whole xs)
unfolding blocks_chunks picked
text_where-blocks_chunks p s k [] rest h = h
text_where-blocks_chunks p s k (x ∷ xs) rest h =
    text_where-block_chunks p s k x (blocks_chunks (stopped s k (whole x)) (k + 1) xs rest)
    ∙ ap (λ t. if p (pos k) then block_text (whole x) ++ t else t)
        (text_where-blocks_chunks p (stopped s k (whole x)) (k + 1) xs rest h)
