-- ===== src/Examples/Requests.antt =====
-- Examples for the breaker, the credentials and the dispatch of a request.
use llm_pico.Common.{
  ltb, max, inl, min, ◌/◌, ◌≤◌, ◌%◌, ◌*◌, ◌++◌, refl, [], ◌-◌, none, false, length, keep, ◌≡◌, some,
  ◌+◌, arith, true, Option, ◌<◌, ◌∷◌, ℕ, ◌≢◌, All,
}
use llm_pico.Common.Bytes.{codes, bytes_eq, assign}
use llm_pico.Common.Signed.{add64, wrap64, pos}
use llm_pico.Config.{keys, slots, effective_ctx, kind_eq, Kind, RouterSettings, ModelEntry}
use llm_pico.Proxy.Answers.{dispatch-Suits, Suits}
use llm_pico.Proxy.Attempt.{
  attempt_slot, try_slot, try_once, try_resolved, try_target, exchange, fail, succeed, send,
  ensure_reserved, finish, give_up_reservation, settle, consult, release, charged_tokens, max_tries,
  Reply, State, World,
}
use llm_pico.Proxy.Bounds.{dispatch-seats}
use llm_pico.Proxy.Budget.{dispatch_slots-within_budget}
use llm_pico.Proxy.Dispatch.{
  dispatch_media, outcome_of, walk, visit_slot, after_slot, judge, job_of, walk_error, admit,
  DegradationMode, Outcome, dispatch_slots, dispatch, Service,
}
use llm_pico.Proxy.Select.{
  budget_from, tighter, estimate_tokens, media_slots, missing_media, accepting, kind_slots, of_kind,
  slots_within_context, RouteType, DispatchInput,
}
use llm_pico.RateLimit.Limiter.{
  fnv64, shard_for, write, read, counter_for, try_charge, check_from, check_and_reserve, new,
}
use llm_pico.RateLimit.Types.{amount_of, key_eq}
use llm_pico.Router.Breaker.{allows, BreakerState, record_success, recovered, Breaker}
use llm_pico.Router.Cooldown.{is_cooling_down-record_model_failure}
use llm_pico.Router.Eligible.{pick_key-PickIs, ready, PickIs, IsEarliest}
use llm_pico.Router.Feedback.{new_group, add_entry, add_entries, new_router}
use llm_pico.Router.Float.{Float}
use llm_pico.Router.Group.{
  server_failure, pick_from, start_after, scan_keys, earlier, percentiles, record_latency,
  group_failure, KeyState, pick_key, Group, cooling,
}
use llm_pico.Router.ProbeSeat.{
  group_failure-keeps_seat, resolve_group-leaks_seat, resolve_times, SeatTaken, refusal,
}
use llm_pico.Router.Probes.{
  ask_all-le-one, record_success-fail_all, calls-IsSound, Call, calls, ask_all, IsSound, fail_all,
}
use llm_pico.Router.Rotation.{pick_times-rotates, DistinctKeys, pick_times, LastIs}
use llm_pico.Router.Table.{
  resolve_slot, resolve_in, record_model_failure, is_cooling_down, RouteError, Resolved,
  resolve_group,
}

-- Natural numbers in place of floating point ones.
abbrev pub coarse : Float
coarse = record {
  F = ℕ;
  of_int = λ n. n;
  add = λ a b. a + b;
  sub = λ a b. a - b;
  mul = λ a b. a * b;
  div = λ a b. a / b;
  least = min;
  greatest = max;
  less = ltb;
  one = 100;
  hundredth = 1;
}

abbrev credential : ℕ → Option ℕ → KeyState
credential n until = record { api_key = n ∷ []; cooldown_until = until; fails = 0 }

abbrev pub llama : ModelEntry
llama = record {
  model_name = codes "llama";
  kind = Kind.chat;
  provider = codes "groq";
  model_params = record { model = codes "m"; api_key = codes "k"; api_keys = []; api_base = [] };
  ctx = some (pos 100);
  ctx_override = none;
  dims = none;
  retries = some (pos 2);
  attempt_budget = some (pos 1);
  max_output = none;
  rpm = some (pos 9);
  rpd = none;
  tpm = none;
  tpd = none;
  cpm = none;
  cpd = none;
  audio_sec_per_day = none;
  audio_min = none;
  images = true;
  embeddings = false;
  stt = false;
  tts = false;
  thinking = false;
  tools = true;
  reasoning = true;
  audio = false;
  video = false;
  no_cache = false;
}

abbrev pub settings : RouterSettings
settings = record {
  num_retries = pos 1;
  cooldown_time = 60;
  stream_idle_timeout = 0;
  circuit_breaker = record { enabled = true; failure_threshold = 3; recovery_timeout = 30 };
}

abbrev breaker_new : Breaker
breaker_new = record {
  state = BreakerState.closed;
  error_count = 0;
  probes = 0;
  opened_at = none;
  failure_threshold = 2;
  recovery_timeout = 10;
}

abbrev breaker_open : Breaker
breaker_open = record {
  state = BreakerState.open_;
  error_count = 2;
  probes = 0;
  opened_at = some 5;
  failure_threshold = 2;
  recovery_timeout = 10;
}

calls-IsSound_example :
    IsSound (calls breaker_new (Call.fails 1 ∷ Call.fails 2 ∷ Call.asks 20 ∷ Call.fails 21 ∷ []))
calls-IsSound_example =
    calls-IsSound breaker_new (Call.fails 1 ∷ Call.fails 2 ∷ Call.asks 20 ∷ Call.fails 21 ∷ [])
      (omega arith) (omega arith, refl)

open-IsSound : IsSound breaker_open
open-IsSound = λ h. ground (arith, h)

open_not_closed : breaker_open.state ≢ BreakerState.closed
open_not_closed = λ h. ground (arith, h)

ask_all-le-one_example : (ask_all breaker_open (7 ∷ 20 ∷ 21 ∷ [])).0 ≤ 1
ask_all-le-one_example = ask_all-le-one breaker_open (7 ∷ 20 ∷ 21 ∷ []) open-IsSound open_not_closed

record_success-fail_all_example :
    ((fail_all (record_success breaker_open) (7 ∷ [])).state ≡ BreakerState.closed)
    × ((fail_all (record_success breaker_open) (7 ∷ [] ++ 8 ∷ [])).state ≡ BreakerState.open_)
    × ((fail_all (record_success breaker_open) (7 ∷ [] ++ 8 ∷ [])).opened_at ≡ some 8)
record_success-fail_all_example = record_success-fail_all breaker_open (7 ∷ []) 8 refl

abbrev two_keys : Group ℕ
two_keys = record {
  slot = codes "groq";
  slug = codes "groq";
  api_base = [];
  entry = llama;
  keys = credential 1 none ∷ credential 2 (some 50) ∷ credential 3 none ∷ [];
  breaker = breaker_new;
  latency = record { samples = []; max_samples = 100 };
  last_key = 1 ∷ [];
  requests = 0;
  errors = 0;
  health = 100;
}

abbrev all_cooling : Group ℕ
all_cooling = record two_keys {
  keys = credential 1 (some 90) ∷ credential 2 (some 50) ∷ [];
  breaker = breaker_open;
}

abbrev probing : Group ℕ
probing = record two_keys {
  breaker = record breaker_open { state = BreakerState.half_open; probes = 1 };
}

pick_key-PickIs_example : PickIs two_keys 20 (pick_key two_keys 20)
pick_key-PickIs_example = pick_key-PickIs two_keys 20

distinct : DistinctKeys (keep (ready 20) two_keys.keys)
unfolding bytes_eq cooling
distinct = ((refl, tt), (tt, tt))

two_ready : 0 < length (keep (ready 20) two_keys.keys)
unfolding cooling
two_ready = omega arith

first_last : LastIs two_keys (keep (ready 20) two_keys.keys) 0
unfolding cooling
first_last = (credential 1 none, refl, refl)

pick_times-rotates_example :
    LastIs
      (pick_times two_keys 20 3)
      (keep (ready 20) two_keys.keys)
      ((0 + 3) % length (keep (ready 20) two_keys.keys))
pick_times-rotates_example = pick_times-rotates two_keys 20 0 3 distinct two_ready first_last

recovered_by : recovered all_cooling.breaker 20 ≡ true
unfolding recovered
recovered_by = refl

none_ready : keep (ready 20) all_cooling.keys ≡ []
unfolding cooling
none_ready = refl

resolve_group-leaks_seat_example :
    ((e : Option ℕ) × IsEarliest all_cooling.keys e
      × ((resolve_group all_cooling 20).0 ≡ Resolved.route_error (refusal 20 e)))
    × SeatTaken (resolve_group all_cooling 20).1
    × All
        (λ r. r ≡ Resolved.route_error RouteError.model_not_found)
        (resolve_times (resolve_group all_cooling 20).1 (60 ∷ 100 ∷ []))
resolve_group-leaks_seat_example =
    resolve_group-leaks_seat all_cooling 20 (60 ∷ 100 ∷ []) refl recovered_by none_ready

group_failure-keeps_seat_example :
    All
      (λ r. r ≡ Resolved.route_error RouteError.model_not_found)
      (resolve_times (group_failure coarse probing (some (1 ∷ [])) 429 20) (60 ∷ 100 ∷ []))
group_failure-keeps_seat_example =
    group_failure-keeps_seat coarse probing (some (1 ∷ [])) 429 20 (60 ∷ 100 ∷ [])
      (refl, omega arith) (inl (omega arith))

-- A provider that answers every call with seven tokens.
abbrev pub answering : World
answering = record {
  clock = λ n. n;
  reply = λ n t. Reply.answered (record { total_tokens = pos 7; cached_tokens = pos 0 });
  cancelled = λ n. false;
}

abbrev pub fallback : Service
fallback = record {
  model_list = llama ∷ [];
  num_retries = pos 1;
  mode = DegradationMode.fallback_only;
  is_draining = false;
  ctx_done = false;
  pick_done = false;
}

abbrev question : DispatchInput
question = record {
  model = codes "llama";
  route_type = RouteType.chat;
  max_tokens = pos 10;
  body_tokens = pos 20;
  has_image = true;
  has_audio = false;
  has_video = false;
  streams = false;
  audio_file = false;
  chars = pos 0;
  audio_seconds = pos 0;
  key_hash = codes "alice";
}

unfoldable pub fresh_state : State ℕ
fresh_state = record {
  limiter = new;
  router = new_router coarse settings (llama ∷ []);
  seats = 3;
  attempts = 0;
  tries = 0;
}

dispatch-seats_example :
    (dispatch coarse answering fallback question fresh_state).1.seats
    ≡ fresh_state.seats + 1 - (dispatch coarse answering fallback question fresh_state).1.attempts
unfolding fresh_state
dispatch-seats_example =
    dispatch-seats coarse answering fallback question fresh_state refl refl refl (omega arith)

answered_by_llama :
    (dispatch coarse answering fallback question fresh_state).0 ≡ Outcome.response llama 1
unfolding fresh_state admit walk_error job_of judge after_slot visit_slot walk outcome_of
    dispatch_slots dispatch_media dispatch of_kind kind_slots accepting missing_media media_slots
    estimate_tokens slots_within_context tighter budget_from max_tries charged_tokens release
    consult settle give_up_reservation finish ensure_reserved send succeed fail exchange try_target
    try_resolved try_once try_slot attempt_slot assign is_cooling_down record_model_failure
    resolve_group resolve_in resolve_slot record_latency percentiles cooling earlier scan_keys
    start_after pick_from pick_key server_failure recovered allows kind_eq effective_ctx slots keys
    check_and_reserve check_from try_charge counter_for read write new amount_of key_eq add64 wrap64
    shard_for fnv64 bytes_eq new_router add_entries add_entry new_group
answered_by_llama = refl

dispatch-Suits_example : Suits fallback question llama
dispatch-Suits_example =
    dispatch-Suits coarse answering fallback question fresh_state llama 1 answered_by_llama

dispatch_slots-within_budget_example :
    (dispatch_slots coarse answering fallback question true (llama ∷ []) fresh_state).1.attempts ≤ 1
unfolding fresh_state
dispatch_slots-within_budget_example =
    dispatch_slots-within_budget coarse answering fallback question true (llama ∷ []) fresh_state
      llama 0 refl (inl refl) refl

is_cooling_down-record_model_failure_example :
    ((is_cooling_down
        (record_model_failure
          (record_model_failure fresh_state.router (codes "llama") 3)
          (codes "llama")
          9)
        (codes "llama")
        50).0
      ≡ ltb 50 (9 + fresh_state.router.cooldown_window))
    × ((is_cooling_down
          (record_model_failure
            (record_model_failure fresh_state.router (codes "llama") 3)
            (codes "llama")
            9)
          (codes "qwen")
          50).0
        ≡ (is_cooling_down fresh_state.router (codes "qwen") 50).0)
unfolding bytes_eq
is_cooling_down-record_model_failure_example =
    is_cooling_down-record_model_failure fresh_state.router (codes "llama") (codes "qwen") 3 9 50
      refl
