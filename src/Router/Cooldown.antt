-- ===== src/Router/Cooldown.antt =====
-- internal/router/router.go: the cooldown of a model whose requests all fail.
use llm_pico.Common.{◌∙◌, ltb, ◌+◌, arith, some, false, ◌≡◌, ℕ}
use llm_pico.Common.Bytes.{bytes_eq_refl, bytes_eq, Bytes, assign}
use llm_pico.Router.Table.{is_cooling_down, Table, record_model_failure}

-- After two failures in a row the cooldown of a model is set, to the window after the second.
twice :
    {F : Type 0} (r : Table F) (name : Bytes) (t u : ℕ)
    → (record_model_failure (record_model_failure r name t) name u).model_cooldown name
      ≡ some (u + r.cooldown_window)
unfolding record_model_failure assign
twice r name t u = ground (arith, bytes_eq_refl name)

elsewhere :
    {F : Type 0} (r : Table F) (name other : Bytes) (t : ℕ)
    → bytes_eq name other ≡ false
    → (record_model_failure r name t).model_cooldown other ≡ r.model_cooldown other
unfolding record_model_failure assign
elsewhere r name other t h = ground arith

is_cooling_down-same :
    {F : Type 0} (r r' : Table F) (name : Bytes) (t : ℕ)
    → r'.model_cooldown name ≡ r.model_cooldown name
    → (is_cooling_down r' name t).0 ≡ (is_cooling_down r name t).0
unfolding is_cooling_down
is_cooling_down-same r r' name t h = ground arith

is_cooling_down-at :
    {F : Type 0} (r : Table F) (name : Bytes) (t end_at : ℕ)
    → r.model_cooldown name ≡ some end_at
    → (is_cooling_down r name t).0 ≡ ltb t end_at
unfolding is_cooling_down
is_cooling_down-at r name t end_at h = ground arith

-- After two failures of a model the model is cooling down exactly until the cooldown window after the
-- second has passed, and a model of another name is cooling down exactly when it was before.
pub is_cooling_down-record_model_failure :
    {F : Type 0} (r : Table F) (name other : Bytes) (t u now : ℕ)
    → bytes_eq name other ≡ false
    → ((is_cooling_down (record_model_failure (record_model_failure r name t) name u) name now).0
        ≡ ltb now (u + r.cooldown_window))
      × ((is_cooling_down (record_model_failure (record_model_failure r name t) name u) other now).0
          ≡ (is_cooling_down r other now).0)
is_cooling_down-record_model_failure r name other t u now h =
    let once = record_model_failure r name t in
    let both = record_model_failure once name u in
    (
      is_cooling_down-at both name now (u + r.cooldown_window) (twice r name t u),
      is_cooling_down-same r both other now
          (elsewhere once name other u h ∙ elsewhere r name other t h),
    )
