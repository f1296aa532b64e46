-- ===== src/Examples/Chats.antt =====
-- Chat requests, streams and embeddings on which the theorems on the adapters apply, with their data.
use llm_pico.Common.{
  ℕ, List, some, if◌then◌else◌, length, Option, [], none, ◌∷◌, ◌≡◌, ◌<◌, false, map, ◌^◌, ◌==◌,
  ◌++◌, arith, ◌≤◌, refl,
}
use llm_pico.Common.Bytes.{Bytes, bytes_eq, codes}
use llm_pico.Common.Result.{Result, ok}
use llm_pico.Common.Signed.{pos_part, pos}
use llm_pico.Providers.Anthropic.Breakpoints.{AnthropicRequest, cache_breakpoint_count}
use llm_pico.Providers.Anthropic.Request.{thinking_of, AnthropicConfig, build_anthropic}
use llm_pico.Providers.Anthropic.Request.Built.{IsBuilt, converted, build_anthropic-IsBuilt}
use llm_pico.Providers.Anthropic.Request.Called.{calls_in, asked}
use llm_pico.Providers.Anthropic.Request.Marked.{sent}
use llm_pico.Providers.Chat.{
  ChatRequest, ChatJson, strip_provider_prefix, ObjectReading, StopValue, ToolChoice,
}
use llm_pico.Providers.Fields.{RawFields, FieldsJson, with_field, Decoded, Rewritten}
use llm_pico.Providers.Gemini.{blank_part}
use llm_pico.Providers.Gemini.Embeddings.{
  EmbedJson, EmbedEntry, EmbedError, EmbedState, embed_width, gemini_embeddings,
}
use llm_pico.Providers.Gemini.Embeddings.Answered.{
  listed, gemini_embeddings-answered_all, estimate, IsTexts,
}
use llm_pico.Providers.Gemini.Embeddings.Batches.{gemini_embeddings-halts}
use llm_pico.Providers.Gemini.Reply.{GeminiReply, GeminiUsage, gemini_to_openai}
use llm_pico.Providers.Gemini.Stream.{drain, fresh_gemini, InnerRead, GeminiChunk}
use llm_pico.Providers.Gemini.Stream.Agreement.{content_or_empty, whole, drain-agrees}
use llm_pico.Providers.Gemini.Stream.Drained.{pieces, closing, drain-ends}
use llm_pico.Providers.Gemini.Stream.Spoken.{chunk_texts, chunk_calls, indexed, chunk_finishes}
use llm_pico.Providers.OpenAi.{prepare_body}
use llm_pico.Providers.OpenAi.Prepared.{IsPrepared, prepare_body-IsPrepared}
use llm_pico.Proxy.Estimate.Media.{split_at_byte}

abbrev one_message : ChatRequest
one_message = record {
  messages =
      record {
        role = codes "user";
        content = codes "hi";
        tool_calls = [];
        tool_call_id = [];
        name = [];
      }
      ∷ record {
        role = codes "assistant";
        content = [];
        tool_calls =
            record {
              id = codes "a";
              thought_signature = [];
              function_name = codes "look";
              arguments = codes "{}";
            }
            ∷ [];
        tool_call_id = [];
        name = [];
      }
      ∷ [];
  max_tokens = pos 100;
  max_completion_tokens = pos 0;
  temperature = none;
  top_p = none;
  stop = StopValue.no_stop;
  streams = false;
  tools = [];
  tool_choice = ToolChoice.no_choice;
  reasoning_effort = [];
  thinking_budget = some (pos 2000);
  response_format = none;
}

-- A decoder for which every text is a string, and every body the request above.
abbrev plain_json : ChatJson
plain_json = record {
  request = λ body. some one_message;
  string = λ raw. some raw;
  parts = λ raw. none;
  reading = λ raw. ObjectReading.an_object;
  value = λ raw. none;
  encode = λ text. text;
}

abbrev no_ids : ℕ → ℕ → Bytes
no_ids i k = codes "x"

abbrev cached : AnthropicConfig
cached = record { max_output = pos 0; no_cache = false }

budget_is_small : pos_part (thinking_of one_message) < 2 ^ 62
unfolding thinking_of
budget_is_small = omega arith

build_anthropic-IsBuilt_example :
    (out : AnthropicRequest) × ((build_anthropic plain_json no_ids
          (codes "b")
          (codes "claude")
          cached
        ≡ some out)
      × IsBuilt (converted plain_json no_ids one_message) out
      × (calls_in (sent out.messages) ≡ asked one_message.messages)
      × (cache_breakpoint_count out ≤ 2))
build_anthropic-IsBuilt_example =
    build_anthropic-IsBuilt plain_json no_ids (codes "b") (codes "claude") cached one_message refl
      budget_is_small

abbrev some_counts : GeminiUsage
some_counts = record {
  prompt_count = pos 3;
  candidates_count = pos 2;
  thoughts_count = pos 0;
  total_count = pos 5;
  cached_count = pos 0;
}

abbrev first_half : GeminiReply
first_half = record {
  candidates =
      record { parts = record blank_part { text = codes "he" } ∷ []; finish_reason = [] } ∷ [];
  usage = some_counts;
}

abbrev second_half : GeminiReply
second_half = record {
  candidates =
      record {
        parts =
            record blank_part {
              function_call =
                  some (record { name = codes "look"; args = codes "{}"; signature = [] });
            }
            ∷ [];
        finish_reason = codes "STOP";
      }
      ∷ [];
  usage = some_counts;
}

-- A decoder of two payloads.
abbrev halves : Bytes → Option GeminiReply
halves [] = none
halves (n ∷ ns) = some (if n == 1 then first_half else second_half)

abbrev two_halves : List InnerRead
two_halves =
    InnerRead.a_payload (1 ∷ []) ∷ InnerRead.a_payload [] ∷ InnerRead.a_payload (2 ∷ []) ∷ []

abbrev call_ids_by : ℕ → Bytes
call_ids_by k = codes "id"

drain-ends_example :
    drain call_ids_by halves 5 fresh_gemini two_halves
    ≡ some (pieces call_ids_by fresh_gemini (first_half ∷ second_half ∷ []) ++ closing none, none)
drain-ends_example = drain-ends call_ids_by halves 5 fresh_gemini two_halves (omega arith) refl

drain-agrees_example :
    (cs : List GeminiChunk) × ((drain call_ids_by halves 5 fresh_gemini two_halves
        ≡ some (cs, none))
      × (chunk_texts cs
          ≡ content_or_empty
              (gemini_to_openai call_ids_by
                (whole (codes "STOP") some_counts (first_half ∷ second_half ∷ []))).content)
      × (chunk_calls cs
          ≡ indexed 0
              (gemini_to_openai call_ids_by
                (whole (codes "STOP") some_counts (first_half ∷ second_half ∷ []))).calls)
      × (chunk_finishes cs
          ≡ (gemini_to_openai call_ids_by
              (whole (codes "STOP") some_counts (first_half ∷ second_half ∷ []))).finish
            ∷ []))
unfolding bytes_eq
drain-agrees_example =
    drain-agrees call_ids_by halves two_halves (codes "STOP") some_counts refl (refl, (refl, refl))

abbrev three_texts : EmbedJson
three_texts = record {
  fields = λ body. some (λ name. if bytes_eq name (codes "input") then some (codes "i") else none);
  string = λ raw. none;
  strings = λ raw. some (codes "a" ∷ codes "b" ∷ codes "c" ∷ []);
  int = λ raw. none;
}

-- A service whose embedding of an entry is the number of its parts.
abbrev count_parts : EmbedEntry → ℕ
count_parts e = length e.content

abbrev counting : List EmbedEntry → Result Bytes (List ℕ)
counting es = ok (map count_parts es)

gemini_embeddings-halts_example :
    (r : Result EmbedError (EmbedState ℕ)) × (gemini_embeddings counting
        (codes "m")
        three_texts
        (codes "b")
      ≡ some r)
gemini_embeddings-halts_example =
    gemini_embeddings-halts counting (codes "m") three_texts (codes "b")

abbrev three_letters : List Bytes
three_letters = codes "a" ∷ codes "b" ∷ codes "c" ∷ []

gemini_embeddings-answered_all_example :
    gemini_embeddings counting (codes "m") three_texts (codes "b")
    ≡ some (
        ok (record {
          embeddings = listed counting (codes "m") count_parts none 0 three_letters;
          next_index = 3;
          tokens = estimate three_letters;
        }))
unfolding bytes_eq embed_width
gemini_embeddings-answered_all_example =
    gemini_embeddings-answered_all counting (codes "m") count_parts (λ es few many. refl)
      three_texts (codes "b")
      (λ name. if bytes_eq name (codes "input") then some (codes "i") else none) (codes "i")
      three_letters refl refl (IsTexts.many three_letters refl refl refl) (omega arith)

abbrev body_fields : RawFields
body_fields name = if bytes_eq name (codes "max_tokens") then some (codes "9") else none

abbrev upstream_fields : RawFields
upstream_fields = with_field body_fields (codes "model") (codes "gpt-5")

-- A decoder of the body above and of the one that an encoder writes.
abbrev two_bodies : FieldsJson
two_bodies = record {
  decode = λ body. some (Decoded.a_map (if bytes_eq body [] then body_fields else upstream_fields));
  encode = λ d. codes "e";
  quote = λ s. s;
  text = λ raw. none;
  flag = λ raw. none;
  is_nonzero = λ raw. none;
}

prepare_body-IsPrepared_example :
    (g : RawFields) × ((prepare_body two_bodies [] (codes "openai/gpt-5")
        ≡ Rewritten.rewritten (codes "e"))
      × IsPrepared two_bodies (codes "gpt-5") body_fields g)
unfolding bytes_eq strip_provider_prefix split_at_byte
prepare_body-IsPrepared_example =
    prepare_body-IsPrepared two_bodies [] (codes "openai/gpt-5") body_fields refl refl
