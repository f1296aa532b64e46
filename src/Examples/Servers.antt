-- ===== src/Examples/Servers.antt =====
-- A request to the server and bodies on which the theorems of this library apply, with their data.
use llm_pico.Common.{if◌then◌else◌, some, ◌≡◌, none, ◌∷◌, false, [], true, ◌⊎◌, List, Bool, refl}
use llm_pico.Common.Bytes.{codes, bytes_eq, Bytes}
use llm_pico.Config.{slots}
use llm_pico.Examples.Requests.{fallback, coarse, answering, fresh_state, llama}
use llm_pico.Proxy.Dispatch.{dispatch, Outcome}
use llm_pico.Proxy.Errors.{ApiError}
use llm_pico.Proxy.Estimate.{Json}
use llm_pico.Proxy.Select.{DispatchInput, RouteType}
use llm_pico.Server.{Fields, Library, Request, Settings, BodyRead, AudioForm, FieldValue, handle}
use llm_pico.Server.Admission.{IsAdmitted, BlamesCaller, handle-admits}
use llm_pico.Server.Listing.{model_info}
use llm_pico.Server.Listing.Honest.{
  IsHonest, last_probe, record_all, no_probes, model_info-IsHonest,
}

abbrev flat_json : Json
flat_json = record {
  object = λ body. some (λ name. none);
  array = λ body. none;
  string = λ body. none;
  parts = λ body. none;
  media_parts = λ body. none;
  content = λ body. none;
  url = λ body. none;
  stream = λ body. some false;
}

abbrev asks_llama : Fields
asks_llama name =
    if bytes_eq name (codes "model")
    then FieldValue.string_value (codes "llama")
    else FieldValue.missing

abbrev plain_library : Library
plain_library = record {
  json = flat_json;
  decode_map = λ body. some asks_llama;
  parse_audio = λ body. AudioForm.refused;
  hash_key = λ key. key;
  sign = λ secret body. codes "00";
}

abbrev one_key : Settings
one_key = record {
  proxy_keys = codes "alice" ∷ [];
  hmac_enabled = true;
  hmac_secret = codes "secret";
  max_body_bytes = 100;
}

abbrev from_alice : Request
from_alice = record {
  authorization = codes "Bearer alice";
  signature = codes "sha256=00";
  read = λ limit. BodyRead.body_is (codes "{\"model\": \"llama\"}");
}

handle-admits_example :
    ((input : DispatchInput) × IsAdmitted plain_library one_key fallback.model_list RouteType.chat
        from_alice input
      × (handle plain_library coarse one_key answering fallback RouteType.chat from_alice
            fresh_state
          ≡ dispatch coarse answering fallback input fresh_state))
    ⊎ ((e : ApiError) × BlamesCaller e
        × (handle plain_library coarse one_key answering fallback RouteType.chat from_alice
              fresh_state
            ≡ (Outcome.error e, fresh_state)))
handle-admits_example =
    handle-admits plain_library coarse one_key answering fallback RouteType.chat from_alice
      fresh_state

-- Probes of which the last one for the model found no tools.
abbrev two_probes : List (Bytes × Bool)
two_probes = (codes "llama", true) ∷ (codes "llama", false) ∷ []

model_info-IsHonest_example :
    IsHonest
      (slots (llama ∷ []) (codes "llama"))
      (last_probe none two_probes (codes "llama"))
      (model_info (llama ∷ []) (record_all no_probes two_probes) (codes "llama"))
unfolding bytes_eq
model_info-IsHonest_example = model_info-IsHonest (llama ∷ []) two_probes (codes "llama") refl
