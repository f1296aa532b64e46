-- ===== src/Examples/Adapters.antt =====
-- Streams and requests of Anthropic on which the theorems of this library apply, with their data.
use llm_pico.Common.{
  List, [], Option, ◌∷◌, none, ◌≡◌, refl, some, ℕ, ◌-◌, if◌then◌else◌, ◌==◌, ◌⊎◌, map, get_elem?,
}
use llm_pico.Common.Bytes.{Bytes, bytes_eq, codes, assign}
use llm_pico.Common.Signed.{pos}
use llm_pico.Common.Text.{has_prefix, lower, trim_space, trim_left, trim_right}
use llm_pico.Config.Providers.{no_caps}
use llm_pico.Providers.Anthropic.{Envelope, AnthropicUsage, translate, fresh_stream}
use llm_pico.Providers.Anthropic.Agreement.{or_empty, finals, reported, translate-agrees}
use llm_pico.Providers.Anthropic.Indexes.{AreInOrder, translate-AreInOrder}
use llm_pico.Providers.Anthropic.Message.{AnthropicResponse, to_openai}
use llm_pico.Providers.Anthropic.Spoken.{text_of, text_at, text_in}
use llm_pico.Providers.Anthropic.Streamed.{
  block_events, Carries, message_events, Sent, deltas, whole,
}
use llm_pico.Providers.Registry.{
  built_in, lookup, UrlParser, Definition, lookup_key, spec_of, completed, define, remove,
  is_base_url, new_registry,
}
use llm_pico.Providers.Registry.Complete.{Change, apply_all, apply, IsComplete, lookup-IsComplete}

abbrev some_usage : AnthropicUsage
some_usage = record {
  input_tokens = pos 5;
  output_tokens = pos 3;
  cache_read_input_tokens = pos 2;
  cache_creation_input_tokens = pos 0;
}

-- A message of a text in two pieces and a call.
abbrev greeting_sent : List Sent
greeting_sent =
    Sent.sent_text (codes "h" ∷ codes "i" ∷ [])
    ∷ Sent.sent_call (codes "a") (codes "look") (codes "{}" ∷ [])
    ∷ []

abbrev greeting : AnthropicResponse
greeting = record {
  blocks = map whole greeting_sent;
  stop_reason = codes "end_turn";
  usage = some_usage;
}

abbrev pick : List Envelope → ℕ → Option Envelope
pick [] n = none
pick (e ∷ es) n = let rest = pick es (n - 1) in if n == 0 then some e else rest

-- A decoder of payloads that are the numbers of the events of the message.
abbrev numbered : Bytes → Option Envelope
numbered [] = none
numbered (n ∷ ns) = pick (message_events greeting greeting_sent) n

abbrev greeting_payloads : List Bytes
greeting_payloads =
    (0 ∷ [])
    ∷ (1 ∷ [])
    ∷ (2 ∷ [])
    ∷ (3 ∷ [])
    ∷ (4 ∷ [])
    ∷ (5 ∷ [])
    ∷ (6 ∷ [])
    ∷ (7 ∷ [])
    ∷ (8 ∷ [])
    ∷ (9 ∷ [])
    ∷ []

greeting-Carries : Carries numbered greeting_payloads (message_events greeting greeting_sent)
unfolding block_events deltas has_prefix
greeting-Carries = Carries.carries _ _ _ _ refl refl (
    Carries.carries _ _ _ _ refl refl (
      Carries.carries _ _ _ _ refl refl (
        Carries.carries _ _ _ _ refl refl (
          Carries.carries _ _ _ _ refl refl (
            Carries.carries _ _ _ _ refl refl (
              Carries.carries _ _ _ _ refl refl (
                Carries.carries _ _ _ _ refl refl (
                  Carries.carries _ _ _ _ refl refl
                    (Carries.carries _ _ _ _ refl refl Carries.carries_none)))))))))

translate-agrees_example :
    (text_of (translate numbered fresh_stream greeting_payloads)
      ≡ or_empty (to_openai greeting).content)
    × (finals (translate numbered fresh_stream greeting_payloads)
        ≡ (reported greeting, some (to_openai greeting).finish) ∷ [])
    × (text_at 0 (translate numbered fresh_stream greeting_payloads)
        ≡ text_in (get_elem? greeting.blocks 0))
unfolding bytes_eq
translate-agrees_example =
    translate-agrees numbered greeting_payloads greeting greeting_sent 0 greeting-Carries refl refl

translate-AreInOrder_example : AreInOrder 0 (translate numbered fresh_stream greeting_payloads)
translate-AreInOrder_example = translate-AreInOrder numbered greeting_payloads

abbrev local_server : Definition
local_server = record {
  slug = codes "Local";
  display_name = [];
  base_url = codes "http://box/v1";
  protocol = [];
  auth = codes "header_key";
  auth_header = [];
  query_param = [];
  capabilities = no_caps;
}

-- A parser of one scheme and host.
abbrev to_box : UrlParser
to_box raw = some (codes "http", codes "box")

abbrev two_changes : List Change
two_changes = Change.defining local_server ∷ Change.removing (codes "other") ∷ []

local_server-found :
    lookup (apply_all to_box new_registry two_changes) (codes " local")
    ≡ some (spec_of (completed local_server))
unfolding lookup apply_all apply define remove built_in is_base_url bytes_eq assign lower trim_space
    trim_left trim_right completed
local_server-found = refl

lookup-IsComplete_example :
    (built_in (lookup_key (codes " local")) ≡ some (spec_of (completed local_server)))
    ⊎ IsComplete to_box (spec_of (completed local_server))
lookup-IsComplete_example =
    lookup-IsComplete to_box two_changes (codes " local") (spec_of (completed local_server))
      local_server-found
