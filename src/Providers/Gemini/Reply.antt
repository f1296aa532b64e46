-- ===== src/Providers/Gemini/Reply.antt =====
-- internal/providers/gemini.go, toOpenAI: a reply of generateContent as a chat completion. The ids of
-- its calls are an argument, by their number in the message; the id, the time and the role of the
-- completion are left out.
use llm_pico.Common.{
  ℕ, List, Option, Bool, if◌then◌else◌, ◌∷◌, false, ◌++◌, true, none, [], ◌&&◌, ◌+◌, some, ◌||◌,
}
use llm_pico.Common.Bytes.{Bytes, bytes_eq, codes}
use llm_pico.Common.Signed.{ℤ, add64, eq_ℤ, pos}
use llm_pico.Providers.Gemini.{GeminiPart, FunctionCall}
use llm_pico.Proxy.Select.{is_positive}

pub record GeminiUsage : Type 0 where
  pub prompt_count : ℤ
  pub candidates_count : ℤ
  pub thoughts_count : ℤ
  pub total_count : ℤ
  pub cached_count : ℤ

pub record Candidate : Type 0 where
  pub parts : List GeminiPart
  pub finish_reason : Bytes

-- `geminiResponse`.
pub record GeminiReply : Type 0 where
  pub candidates : List Candidate
  pub usage : GeminiUsage

-- A call of a tool as OpenAI has it; an empty signature is left out.
pub record OpenCall : Type 0 where
  pub id : Bytes
  pub name : Bytes
  pub arguments : Bytes
  pub signature : Bytes

-- The message, its finish reason and its usage; no content is that of a message with calls only.
pub record GeminiCompletion : Type 0 where
  pub content : Option Bytes
  pub calls : List OpenCall
  pub finish : Bytes
  pub prompt_tokens : ℤ
  pub completion_tokens : ℤ
  pub total_tokens : ℤ
  pub reasoning_tokens : Option ℤ
  pub cached_tokens : Option ℤ

-- The texts of the parts that are no thoughts.
unfoldable pub answer_text : List GeminiPart → Bytes
answer_text [] = []
answer_text (p ∷ ps) = let rest = answer_text ps in if p.thought then rest else p.text ++ rest

-- The calls in the parts that are no thoughts, with their signatures.
unfoldable pub answer_calls : List GeminiPart → List FunctionCall
answer_calls [] = []
answer_calls (p ∷ ps) =
    let rest = answer_calls ps in
    if p.thought then rest else elim p.function_call [
      | none ↦ rest
      | some call ↦ record call { signature = p.thought_signature } ∷ rest
    ]

-- The parts and the finish reason of the first candidate.
abbrev pub first_parts : List Candidate → List GeminiPart
first_parts [] = []
first_parts (c ∷ cs) = c.parts

abbrev pub first_finish : List Candidate → Bytes
first_finish [] = []
first_finish (c ∷ cs) = c.finish_reason

-- `openAIToolCall`.
abbrev pub openai_call : Bytes → FunctionCall → OpenCall
openai_call fresh call = record {
  id = codes "call_" ++ fresh;
  name = call.name;
  arguments = if bytes_eq call.args [] then codes "{}" else call.args;
  signature = call.signature;
}

unfoldable pub open_calls : (ℕ → Bytes) → ℕ → List FunctionCall → List OpenCall
open_calls fresh k [] = []
open_calls fresh k (c ∷ cs) = openai_call (fresh k) c ∷ open_calls fresh (k + 1) cs

-- `mapGeminiFinish`.
unfoldable pub map_gemini_finish : Bytes → Bytes
map_gemini_finish reason =
    if bytes_eq reason (codes "MAX_TOKENS")
    then codes "length"
    else if bytes_eq reason (codes "SAFETY")
        || bytes_eq reason (codes "RECITATION")
        || bytes_eq reason (codes "PROHIBITED_CONTENT")
    then codes "content_filter"
    else codes "stop"

-- The finish reason of a message, by whether it has calls.
abbrev pub upgraded : Bool → Bytes → Bytes
upgraded called finish =
    let reason = map_gemini_finish finish in
    if called && bytes_eq reason (codes "stop") then codes "tool_calls" else reason

abbrev pub completion_count : GeminiUsage → ℤ
completion_count u = add64 u.candidates_count u.thoughts_count

abbrev pub total_tokens_of : GeminiUsage → ℤ
total_tokens_of u =
    if eq_ℤ u.total_count (pos 0) then add64 u.prompt_count (completion_count u) else u.total_count

abbrev pub when_positive : ℤ → Option ℤ
when_positive n = if is_positive n then some n else none

abbrev pub any_call {ℓ} : {A : Type ℓ} → List A → Bool
any_call [] = false
any_call (x ∷ xs) = true

unfoldable pub gemini_to_openai : (ℕ → Bytes) → GeminiReply → GeminiCompletion
gemini_to_openai fresh g =
    let text = answer_text (first_parts g.candidates) in
    let calls = answer_calls (first_parts g.candidates) in
    record {
      content = if any_call calls && bytes_eq text [] then none else some text;
      calls = open_calls fresh 0 calls;
      finish = upgraded (any_call calls) (first_finish g.candidates);
      prompt_tokens = g.usage.prompt_count;
      completion_tokens = completion_count g.usage;
      total_tokens = total_tokens_of g.usage;
      reasoning_tokens = when_positive g.usage.thoughts_count;
      cached_tokens = when_positive g.usage.cached_count;
    }
