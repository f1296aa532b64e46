-- ===== src/Providers/Anthropic/Request/Built.antt =====
-- internal/providers/anthropic.go, buildAnthropic: what a built request is.
use llm_pico.Common.{
  List, ℕ, Option, All, ◌<◌, if-both, ◌≡◌, [], true, map, false, none, leb, ◌^◌, ◌∷◌, arith,
  if-split, not, refl, some, ◌&&◌, sym, ◌∙◌, if◌then◌else◌, ◌≤◌, ap,
}
use llm_pico.Common.Bytes.{Bytes, bytes_eq, codes}
use llm_pico.Common.Signed.{add64, ℤ, pos_part, ltb_ℤ, pos, add64-pos, negsuc}
use llm_pico.Providers.Anthropic.Breakpoints.{
  inject_cache_breakpoints, AnthropicTool, cache_breakpoint_count, AnthropicChoice,
  AnthropicRequest, max_cache_breakpoints, mark_content,
}
use llm_pico.Providers.Anthropic.Cache.{inject_cache_breakpoints-bounds}
use llm_pico.Providers.Anthropic.Request.{
  with_thinking, completion_budget, AnthropicConfig, plain_request, turns_of, ids_by_name,
  anthropic_tool, tool_choice_from, system_parts, build_anthropic, thinking_of,
}
use llm_pico.Providers.Anthropic.Request.Accepted.{
  OfPart, IsUnmarked, InTurn, IsPlaced, turns_of-IsPlaced, system_parts-IsUnmarked,
}
use llm_pico.Providers.Anthropic.Request.Called.{calls_in, asked, calls_in-turns_of}
use llm_pico.Providers.Anthropic.Request.Marked.{
  turn_view, sent, in_turn-fresh, AreTurns-mark_first, sent-mark_first, AreTurns-in_turn,
  system_of-fresh,
}
use llm_pico.Providers.Chat.{ChatJson, function_tools, ChatTool, ChatRequest, ContentPart}
use llm_pico.Providers.Turns.{ChatTurn, push_turns}
use llm_pico.Providers.Turns.Alternate.{flat, AreTurns, push_turns-lem}
use llm_pico.Proxy.Select.{is_positive}
use mathlib.Core.Option.{some-injective}
use mathlib.Core.Path.{subst}

-- A request with the parts `xs` that keeps to the rules of Anthropic's API.
pub record IsBuilt (xs : List (Bytes × ContentPart)) (out : AnthropicRequest) : Type 0 where
  -- Messages have parts, and adjacent ones have different roles.
  pub alternates : AreTurns (map turn_view out.messages)
  pub in_order : sent out.messages ≡ xs
  -- Every part stands in a turn that takes it.
  pub placed : All (InTurn IsPlaced) xs
  -- The completion budget is above zero and above that of thinking, beside which no temperature stands.
  pub positive : is_positive out.max_tokens ≡ true
  pub room :
      (b : ℤ) → out.thinking ≡ some b → (ltb_ℤ b out.max_tokens ≡ true) × (out.temperature ≡ none)
  pub named : All (λ (t : AnthropicTool). bytes_eq t.name [] ≡ false) out.tools
  pub chosen : out.tools ≡ [] → out.tool_choice ≡ none

function_tools-named :
    (ts : List ChatTool)
    → All
        (λ (t : AnthropicTool). bytes_eq t.name [] ≡ false)
        (map anthropic_tool (function_tools ts))
unfolding function_tools
function_tools-named [] = tt
function_tools-named (t ∷ ts) =
    if-both (λ us. All (λ (u : AnthropicTool). bytes_eq u.name [] ≡ false) (map anthropic_tool us))
      (not (bytes_eq t.kind []) && not (bytes_eq t.kind (codes "function")))
      (function_tools-named ts)
      (if-split
        (λ us. All (λ (u : AnthropicTool). bytes_eq u.name [] ≡ false) (map anthropic_tool us))
        (bytes_eq t.name []) (λ e. function_tools-named ts) (λ e. (e, function_tools-named ts)))

completion_budget-positive :
    (cfg : AnthropicConfig) (r : ChatRequest) → is_positive (completion_budget cfg r) ≡ true
unfolding completion_budget
completion_budget-positive cfg r = ground arith

no_tools-no_choice :
    (tools : List AnthropicTool) (c : Option AnthropicChoice)
    → tools ≡ []
    → elim tools as (λ x. Option AnthropicChoice) [ [] ↦ none | t ∷ ts ↦ c ] ≡ none
no_tools-no_choice [] c h = refl
no_tools-no_choice (t ∷ ts) c h = absurd (cc)

-- A completion budget raised over that of thinking is above it, and above zero.
raised :
    (b m : ℤ)
    → is_positive b ≡ true
    → pos_part b < 2 ^ 62
    → is_positive m ≡ true
    → (is_positive (if ltb_ℤ b m then m else add64 b (pos 4096)) ≡ true)
      × (ltb_ℤ b (if ltb_ℤ b m then m else add64 b (pos 4096)) ≡ true)
raised (pos n) m e small h =
    if-split (λ x. (is_positive x ≡ true) × (ltb_ℤ (pos n) x ≡ true)) (ltb_ℤ (pos n) m)
      (λ k. (h, k))
      (λ k.
        subst (λ x. (is_positive x ≡ true) × (ltb_ℤ (pos n) x ≡ true))
          (sym (add64-pos n 4096 (omega arith))) (ground arith, ground arith))
raised (negsuc n) m e small h = absurd (cc)

with_thinking-IsBuilt :
    (xs : List (Bytes × ContentPart)) (budget : ℤ) (out : AnthropicRequest)
    → pos_part budget < 2 ^ 62
    → out.thinking ≡ none
    → IsBuilt xs out
    → IsBuilt xs (with_thinking budget out)
unfolding with_thinking
with_thinking-IsBuilt xs budget out small off built =
    if-split (IsBuilt xs) (is_positive budget)
      (λ e. record {
        alternates = built.alternates;
        in_order = built.in_order;
        placed = built.placed;
        positive = (raised budget out.max_tokens e small built.positive).0;
        room = λ b h. (
          subst
              (λ x.
                ltb_ℤ x
                  (if ltb_ℤ budget out.max_tokens then out.max_tokens else add64 budget (pos 4096))
                ≡ true)
              (some-injective budget b h) (raised budget out.max_tokens e small built.positive).1,
          refl,
        );
        named = built.named;
        chosen = built.chosen;
      })
      (λ e. built)

with_thinking-count :
    (budget : ℤ) (out : AnthropicRequest)
    → cache_breakpoint_count (with_thinking budget out) ≡ cache_breakpoint_count out
unfolding with_thinking cache_breakpoint_count
with_thinking-count budget out =
    if-both (λ x. cache_breakpoint_count x ≡ cache_breakpoint_count out) (is_positive budget) refl
      refl

inject-IsBuilt :
    (xs : List (Bytes × ContentPart)) (out : AnthropicRequest)
    → IsBuilt xs out
    → IsBuilt xs (inject_cache_breakpoints out)
unfolding inject_cache_breakpoints
inject-IsBuilt xs out built =
    if-both (IsBuilt xs) (leb max_cache_breakpoints (cache_breakpoint_count out)) built (
      if-both (IsBuilt xs)
        (leb max_cache_breakpoints
          (cache_breakpoint_count (record out { system = mark_content out.system })))
        (record {
          alternates = built.alternates;
          in_order = built.in_order;
          placed = built.placed;
          positive = built.positive;
          room = built.room;
          named = built.named;
          chosen = built.chosen;
        })
        (record {
          alternates = AreTurns-mark_first out.messages built.alternates;
          in_order = sent-mark_first out.messages ∙ built.in_order;
          placed = built.placed;
          positive = built.positive;
          room = built.room;
          named = built.named;
          chosen = built.chosen;
        }))

module _ (json : ChatJson) (fresh : ℕ → ℕ → Bytes) where
  -- The parts that the messages of a request come to, with their roles.
  abbrev pub converted : ChatRequest → List (Bytes × ContentPart)
  converted r = flat (turns_of json fresh (ids_by_name r.messages (λ name. [])) 0 r.messages)

  abbrev pushed : ChatRequest → List (ChatTurn ContentPart)
  pushed r = push_turns [] (turns_of json fresh (ids_by_name r.messages (λ name. [])) 0 r.messages)

  plain_request-IsBuilt :
      (model : Bytes) (cfg : AnthropicConfig) (r : ChatRequest)
      → IsBuilt (converted r) (plain_request json fresh model cfg r)
        × (cache_breakpoint_count (plain_request json fresh model cfg r) ≡ 0)
  unfolding plain_request cache_breakpoint_count flat
  plain_request-IsBuilt model cfg r =
      let (fresh_parts, all) =
        turns_of-IsPlaced json fresh (ids_by_name r.messages (λ name. [])) 0 r.messages in
      let (turns, same) =
        push_turns-lem {P = ContentPart} []
          (turns_of json fresh (ids_by_name r.messages (λ name. [])) 0 r.messages) tt in
      let (order, unmarked) =
        in_turn-fresh (pushed r) (subst (All (OfPart IsUnmarked)) (sym same) fresh_parts) in
      (
        record {
          alternates = AreTurns-in_turn (pushed r) turns;
          in_order = order ∙ same;
          placed = all;
          positive = completion_budget-positive cfg r;
          room = λ b h. absurd (cc);
          named = function_tools-named r.tools;
          chosen =
              no_tools-no_choice (map anthropic_tool (function_tools r.tools))
                (tool_choice_from r.tool_choice);
        },
        omega (
          arith,
          system_of-fresh (system_parts json fresh r.messages)
              (system_parts-IsUnmarked json fresh r.messages),
          unmarked,
        ),
      )

  plain_request-unthinking :
      (model : Bytes) (cfg : AnthropicConfig) (r : ChatRequest)
      → (plain_request json fresh model cfg r).thinking ≡ none
  unfolding plain_request
  plain_request-unthinking model cfg r = refl

  -- When a body decodes to a request whose thinking budget is below 2^62, what `buildAnthropic`
  -- makes of it, with or without the breakpoints of its cache, has messages with parts whose roles
  -- alternate, in which the parts of the converted messages stand in their order; every part is a text
  -- or an image, or a call of a tool in a turn of the assistant, or the result of one in a turn of the
  -- user, each call and each result with some id; the calls are those of the request's assistant
  -- messages, by their names in their order; the completion budget is above zero and above the
  -- thinking budget, beside which there is no temperature; every tool has a name, and without tools
  -- none is chosen; and there are at most two breakpoints.
  pub build_anthropic-IsBuilt :
      (body model : Bytes) (cfg : AnthropicConfig) (r : ChatRequest)
      → json.request body ≡ some r
      → pos_part (thinking_of r) < 2 ^ 62
      → (out : AnthropicRequest) × ((build_anthropic json fresh body model cfg ≡ some out)
          × IsBuilt (converted r) out
          × (calls_in (sent out.messages) ≡ asked r.messages)
          × (cache_breakpoint_count out ≤ 2))
  unfolding build_anthropic
  build_anthropic-IsBuilt body model cfg r h small =
      let (plain, none_set) = plain_request-IsBuilt model cfg r in
      let middle : AnthropicRequest =
        with_thinking (thinking_of r) (plain_request json fresh model cfg r) in
      let made : IsBuilt (converted r) middle =
        with_thinking-IsBuilt (converted r) (thinking_of r) (plain_request json fresh model cfg r)
          small (plain_request-unthinking model cfg r) plain in
      let count : cache_breakpoint_count middle ≡ 0 =
        with_thinking-count (thinking_of r) (plain_request json fresh model cfg r) ∙ none_set in
      let bounds = inject_cache_breakpoints-bounds middle in
      let (built, few) : IsBuilt (converted r)
            (if cfg.no_cache then middle else inject_cache_breakpoints middle)
          × (cache_breakpoint_count
                (if cfg.no_cache then middle else inject_cache_breakpoints middle)
              ≤ 2) =
        if-both (λ x. IsBuilt (converted r) x × (cache_breakpoint_count x ≤ 2)) cfg.no_cache
          (made, omega (arith, count))
          (inject-IsBuilt (converted r) middle made, omega (arith, count, bounds.1)) in
      (
        if cfg.no_cache then middle else inject_cache_breakpoints middle,
        (
          ground (arith, h),
          built,
          ap calls_in built.in_order
              ∙ calls_in-turns_of json fresh (ids_by_name r.messages (λ name. [])) 0 r.messages,
          few,
        ),
      )
