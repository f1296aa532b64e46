-- ===== src/Server/Admission.antt =====
-- internal/server/server.go: what a request has passed when it is dispatched.
-- A request that `handle` hands to the dispatcher as `input`.
use llm_pico.Common.{
  ◌≡◌, List, ◌≤◌, ◌<◌, true, Among, length, [], arith, ◌∷◌, false, Bool-cases, inl, inr, refl, ◌⊎◌,
  ◌∙◌,
}
use llm_pico.Common.Bytes.{Bytes, bytes_eq, bytes_eq→eq}
use llm_pico.Common.Result.{>>=-eq-ok, >>=-eq-err, ok-inj, Result}
use llm_pico.Common.Signed.{pos}
use llm_pico.Config.{ModelEntry, slots}
use llm_pico.Proxy.Attempt.{World, State}
use llm_pico.Proxy.Dispatch.{Service, dispatch, Outcome}
use llm_pico.Proxy.Errors.{ApiError, Source}
use llm_pico.Proxy.Estimate.{estimate_body_tokens}
use llm_pico.Proxy.Select.{RouteType, DispatchInput}
use llm_pico.Router.Float.{Float}
use llm_pico.Server.{
  Library, check_model, Settings, read_input, verify_hmac, read_body, prepare, resolve_identity,
  Request, is_known, ok, body_limit, Fields, expected_signature, extract_bearer, BodyRead, err,
  check_dims, handle,
}
use mathlib.Core.Path.{subst}

pub record IsAdmitted (lib : Library) (cfg : Settings) (model_list : List ModelEntry)
    (route : RouteType) (r : Request) (input : DispatchInput) : Type 0 where
  -- The bearer token is there, and its hash is that of a configured key.
  pub has_token : bytes_eq (extract_bearer r.authorization) [] ≡ false
  pub hashed : input.key_hash ≡ lib.hash_key (extract_bearer r.authorization)
  pub known : (k : Bytes) × Among k cfg.proxy_keys × (input.key_hash ≡ lib.hash_key k)
  -- The body was read within the limit of its route, and carries its signature when it must.
  pub body : Bytes
  pub in_limit : r.read (body_limit cfg route) ≡ BodyRead.body_is body
  pub signed : cfg.hmac_enabled ≡ true → r.signature ≡ expected_signature lib cfg body
  -- The model has a slot, and the estimate is that of the body.
  pub of_route : input.route_type ≡ route
  pub configured : 0 < length (slots model_list input.model)
  pub estimated : input.body_tokens ≡ pos (estimate_body_tokens lib.json body)

-- An error that blames the caller.
pub record BlamesCaller (e : ApiError) : Type 0 where
  pub of_caller : e.source ≡ Source.caller
  pub from_400 : 400 ≤ e.status
  pub below_500 : e.status < 500

module _ (lib : Library) where
  is_known-Among :
      (hash : Bytes) (ks : List Bytes)
      → is_known lib hash ks ≡ true
      → (k : Bytes) × Among k ks × (hash ≡ lib.hash_key k)
  is_known-Among hash [] h = absurd (cc)
  is_known-Among hash (k ∷ ks) h = elim (Bool-cases (bytes_eq hash (lib.hash_key k))) [
    | inl same ↦ (k, inl refl, bytes_eq→eq hash (lib.hash_key k) same)
    | inr differs ↦
        let (j, m, e) = is_known-Among hash ks (ground (arith, h, differs)) in (j, inr m, e)
  ]

  resolve_identity-known :
      (cfg : Settings) (r : Request) (hash : Bytes)
      → resolve_identity lib cfg r ≡ ok hash
      → (bytes_eq (extract_bearer r.authorization) [] ≡ false)
        × (hash ≡ lib.hash_key (extract_bearer r.authorization))
        × (is_known lib (lib.hash_key (extract_bearer r.authorization)) cfg.proxy_keys ≡ true)
  unfolding resolve_identity
  resolve_identity-known cfg r hash h = ground arith

  read_body-reads :
      (cfg : Settings) (route : RouteType) (r : Request) (body : Bytes)
      → read_body cfg route r ≡ ok body
      → r.read (body_limit cfg route) ≡ BodyRead.body_is body
  unfolding read_body
  read_body-reads cfg route r body h = ground arith

  verify_hmac-signed :
      (cfg : Settings) (r : Request) (body : Bytes) (u : Unit {0})
      → verify_hmac lib cfg r body ≡ ok u
      → cfg.hmac_enabled ≡ true
      → r.signature ≡ expected_signature lib cfg body
  unfolding verify_hmac
  verify_hmac-signed cfg r body u h on =
      ground (arith, bytes_eq→eq (expected_signature lib cfg body) r.signature)

  read_input-keeps :
      (route : RouteType) (hash body : Bytes) (input : DispatchInput) (fields : Fields)
      → read_input lib route hash body ≡ ok (input, fields)
      → (input.key_hash ≡ hash)
        × (input.route_type ≡ route)
        × (input.body_tokens ≡ pos (estimate_body_tokens lib.json body))
  unfolding read_input
  read_input-keeps RouteType.stt hash body input fields h = ground arith
  read_input-keeps RouteType.tts hash body input fields h = ground arith
  read_input-keeps RouteType.embeddings hash body input fields h = ground arith
  read_input-keeps RouteType.chat hash body input fields h = ground arith

  check_model-configured :
      (model_list : List ModelEntry) (route : RouteType) (input : DispatchInput) (fields : Fields)
      (u : Unit {0})
      → check_model model_list route input fields ≡ ok u
      → 0 < length (slots model_list input.model)
  unfolding check_model
  check_model-configured model_list route input fields u h = ground arith

  prepare-IsAdmitted :
      (cfg : Settings) (model_list : List ModelEntry) (route : RouteType) (r : Request)
      (input : DispatchInput)
      → prepare lib cfg model_list route r ≡ ok input
      → IsAdmitted lib cfg model_list route r input
  unfolding prepare
  prepare-IsAdmitted cfg model_list route r input h =
      let (hash, e₁, k₁) = >>=-eq-ok (resolve_identity lib cfg r) _ h in
      let (body, e₂, k₂) = >>=-eq-ok (read_body cfg route r) _ k₁ in
      let (signed, e₃, k₃) = >>=-eq-ok (verify_hmac lib cfg r body) _ k₂ in
      let ((input', fields), e₄, k₄) = >>=-eq-ok (read_input lib route hash body) _ k₃ in
      let (checked, e₅, k₅) = >>=-eq-ok (check_model model_list route input' fields) _ k₄ in
      let (token, hashed, known) = resolve_identity-known cfg r hash e₁ in
      let (its_hash, its_route, its_tokens) = read_input-keeps route hash body input' fields e₄ in
      subst (IsAdmitted lib cfg model_list route r) (ok-inj k₅) (record {
        has_token = token;
        hashed = its_hash ∙ hashed;
        known =
            let (k, m, e) =
              is_known-Among (lib.hash_key (extract_bearer r.authorization)) cfg.proxy_keys known in
            (k, m, its_hash ∙ hashed ∙ e);
        body = body;
        in_limit = read_body-reads cfg route r body e₂;
        signed = verify_hmac-signed cfg r body signed e₃;
        of_route = its_route;
        configured = check_model-configured model_list route input' fields checked e₅;
        estimated = its_tokens;
      })

  resolve_identity-blames :
      (cfg : Settings) (r : Request) (e : ApiError)
      → resolve_identity lib cfg r ≡ err e
      → BlamesCaller e
  unfolding resolve_identity
  resolve_identity-blames cfg r e h = ground arith

  read_body-blames :
      (cfg : Settings) (route : RouteType) (r : Request) (e : ApiError)
      → read_body cfg route r ≡ err e
      → BlamesCaller e
  unfolding read_body
  read_body-blames cfg route r e h = ground arith

  verify_hmac-blames :
      (cfg : Settings) (r : Request) (body : Bytes) (e : ApiError)
      → verify_hmac lib cfg r body ≡ err e
      → BlamesCaller e
  unfolding verify_hmac
  verify_hmac-blames cfg r body e h = ground arith

  read_input-blames :
      (route : RouteType) (hash body : Bytes) (e : ApiError)
      → read_input lib route hash body ≡ err e
      → BlamesCaller e
  unfolding read_input
  read_input-blames RouteType.stt hash body e h = ground arith
  read_input-blames RouteType.tts hash body e h = ground arith
  read_input-blames RouteType.embeddings hash body e h = ground arith
  read_input-blames RouteType.chat hash body e h = ground arith

  check_model-blames :
      (model_list : List ModelEntry) (route : RouteType) (input : DispatchInput) (fields : Fields)
      (e : ApiError)
      → check_model model_list route input fields ≡ err e
      → BlamesCaller e
  unfolding check_model check_dims
  check_model-blames model_list RouteType.stt input fields e h = ground arith
  check_model-blames model_list RouteType.tts input fields e h = ground arith
  check_model-blames model_list RouteType.embeddings input fields e h = ground arith
  check_model-blames model_list RouteType.chat input fields e h = ground arith

  prepare-blames :
      (cfg : Settings) (model_list : List ModelEntry) (route : RouteType) (r : Request)
      (e : ApiError)
      → prepare lib cfg model_list route r ≡ err e
      → BlamesCaller e
  unfolding prepare
  prepare-blames cfg model_list route r e h = elim (>>=-eq-err (resolve_identity lib cfg r) _ h) [
    | inl q ↦ resolve_identity-blames cfg r e q
    | inr (hash, q₁, h₁) ↦ elim (>>=-eq-err (read_body cfg route r) _ h₁) [
      | inl q ↦ read_body-blames cfg route r e q
      | inr (body, q₂, h₂) ↦ elim (>>=-eq-err (verify_hmac lib cfg r body) _ h₂) [
        | inl q ↦ verify_hmac-blames cfg r body e q
        | inr (signed, q₃, h₃) ↦ elim (>>=-eq-err (read_input lib route hash body) _ h₃) [
          | inl q ↦ read_input-blames route hash body e q
          | inr ((input, fields), q₄, h₄) ↦
              elim (>>=-eq-err (check_model model_list route input fields) _ h₄) [
                | inl q ↦ check_model-blames model_list route input fields e q
                | inr (checked, q₅, h₅) ↦ absurd (cc)
              ]
        ]
      ]
    ]
  ]

  Prepared-cases :
      (x : Result ApiError DispatchInput)
      → ((input : DispatchInput) × (x ≡ ok input)) ⊎ ((e : ApiError) × (x ≡ err e))
  Prepared-cases (ok input) = inl (input, refl)
  Prepared-cases (err e) = inr (e, refl)

  -- The handler dispatches a request only if its bearer token is that of a configured key, its body
  -- was read within the limit of its route and carries the signature that the configuration asks
  -- for, and its model has a slot; the input that it dispatches then carries the hash of the key, the
  -- route and the estimate of the body. Every other request is answered by an error with a status
  -- from 400 to below 500 that blames the caller, and changes no state.
  pub handle-admits :
      (fl : Float) (cfg : Settings) (w : World) (v : Service) (route : RouteType) (r : Request)
      (s : State fl.F)
      → ((input : DispatchInput) × IsAdmitted lib cfg v.model_list route r input
          × (handle lib fl cfg w v route r s ≡ dispatch fl w v input s))
        ⊎ ((e : ApiError) × BlamesCaller e
            × (handle lib fl cfg w v route r s ≡ (Outcome.error e, s)))
  unfolding handle
  handle-admits fl cfg w v route r s =
      elim (Prepared-cases (prepare lib cfg v.model_list route r)) [
        | inl (input, q) ↦
            inl (input, prepare-IsAdmitted cfg v.model_list route r input q, rw (handle, q) refl)
        | inr (e, q) ↦ inr (e, prepare-blames cfg v.model_list route r e q, rw (handle, q) refl)
      ]
