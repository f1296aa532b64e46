-- ===== src/Providers/Anthropic/Cache.antt =====
-- internal/providers/anthropic.go, injectCacheBreakpoints: how many breakpoints a request gets.
use llm_pico.Common.{◌≤◌, List, ◌+◌, arith, max, ◌∷◌, []}
use llm_pico.Providers.Anthropic.Breakpoints.{
  message_count, inject_cache_breakpoints, Content, marked_parts, cache_breakpoint_count,
  content_count, mark_last, mark_first, AnthropicRequest, mark_content, AnthropicMessage,
}
use llm_pico.Providers.Chat.{ContentPart}

marked_parts-mark_last :
    (ps : List ContentPart)
    → (marked_parts ps ≤ marked_parts (mark_last ps))
      × (marked_parts (mark_last ps) ≤ marked_parts ps + 1)
unfolding marked_parts mark_last
marked_parts-mark_last [] = (omega arith, omega arith)
marked_parts-mark_last (p ∷ []) = ground arith
marked_parts-mark_last (p ∷ q ∷ ps) = ground (arith, marked_parts-mark_last (q ∷ ps))

content_count-mark_content :
    (c : Content)
    → (content_count c ≤ content_count (mark_content c))
      × (content_count (mark_content c) ≤ content_count c + 1)
content_count-mark_content (Content.in_parts ps) = marked_parts-mark_last ps
content_count-mark_content Content.other_content = (omega arith, omega arith)

message_count-mark_first :
    (ms : List AnthropicMessage)
    → (message_count ms ≤ message_count (mark_first ms))
      × (message_count (mark_first ms) ≤ message_count ms + 1)
unfolding message_count mark_first
message_count-mark_first [] = (omega arith, omega arith)
message_count-mark_first (m ∷ ms) =
    ground (arith, content_count-mark_content m.content, message_count-mark_first ms)

-- Injecting breakpoints takes none away, adds at most two, and leaves at most four of them unless the
-- caller has set more itself, when it adds none.
pub inject_cache_breakpoints-bounds :
    (r : AnthropicRequest)
    → (cache_breakpoint_count r ≤ cache_breakpoint_count (inject_cache_breakpoints r))
      × (cache_breakpoint_count (inject_cache_breakpoints r) ≤ cache_breakpoint_count r + 2)
      × (cache_breakpoint_count (inject_cache_breakpoints r) ≤ max 4 (cache_breakpoint_count r))
unfolding inject_cache_breakpoints cache_breakpoint_count
inject_cache_breakpoints-bounds r =
    ground (arith, content_count-mark_content r.system, message_count-mark_first r.messages)
