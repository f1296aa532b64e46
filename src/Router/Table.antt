-- ===== src/Router/Table.antt =====
-- internal/router/router.go: the routing table, resolution of a model to a credential, and the
-- feedback from finished requests. Each call of the clock is an argument; a map is a function.
use llm_pico.Common.{
  ℕ, ◌+◌, ◌-◌, Bool, true, false, Option, none, some, List, [], ◌∷◌, leb, ltb, if◌then◌else◌, max,
  ◌||◌,
}
use llm_pico.Common.Bytes.{Bytes, bytes_eq, assign}
use llm_pico.Config.{ModelEntry}
use llm_pico.RateLimit.Types.{second}
use llm_pico.Router.Breaker.{allows}
use llm_pico.Router.Group.{Pick, pick_key, Group}

pub record Table (F : Type 0) : Type 0 where
  pub model_names : List Bytes
  pub entries : Bytes → Option ModelEntry
  pub groups : Bytes → List (Group F)
  pub model_failures : Bytes → ℕ
  pub model_cooldown : Bytes → Option ℕ
  pub cooldown_window : ℕ

pub record Target : Type 0 where
  pub slot : Bytes
  pub provider_slug : Bytes
  pub api_base : Bytes
  pub api_key : Bytes
  pub model : ModelEntry

pub data RouteError : Type 0 where
  model_not_found : RouteError
  cooldown : ℕ → RouteError

-- The outcome of a resolution; `panics` is an index out of range.
pub data Resolved : Type 0 where
  target : Target → Resolved
  route_error : RouteError → Resolved
  route_panics : Resolved

-- The wait until a time, at least a second.
abbrev pub wait_until : ℕ → ℕ → ℕ
wait_until t now = max second (t - now)

module _ {F : Type 0} where
  -- `isCoolingDown`: an elapsed cooldown is cleared.
  unfoldable pub is_cooling_down : Table F → Bytes → ℕ → Bool × Table F
  is_cooling_down r name now = elim (r.model_cooldown name) [
    | none ↦ (false, r)
    | some expiry ↦ if ltb now expiry then (true, r) else (
      false,
      record r {
        model_cooldown = assign r.model_cooldown name none;
        model_failures = assign r.model_failures name 0;
      },
    )
  ]

  -- `RecordModelFailure`.
  unfoldable pub record_model_failure : Table F → Bytes → ℕ → Table F
  record_model_failure r name now =
      let failures = r.model_failures name + 1 in
      record r {
        model_failures = assign r.model_failures name failures;
        model_cooldown =
            if leb 2 failures
            then assign r.model_cooldown name (some (now + r.cooldown_window))
            else r.model_cooldown;
      }

  unfoldable pub clear_model_failure : Table F → Bytes → Table F
  clear_model_failure r name = record r {
    model_failures = assign r.model_failures name 0;
    model_cooldown = assign r.model_cooldown name none;
  }

  unfoldable pub target_of : Group F → Bytes → Target
  target_of g key = record {
    slot = g.slot;
    provider_slug = g.slug;
    api_base = g.api_base;
    api_key = key;
    model = g.entry;
  }

  -- What `ResolveSlot` returns for the group that it has found.
  unfoldable pub resolve_group : Group F → ℕ → Resolved × Group F
  resolve_group g now =
      let (allowed, b) = allows g.breaker now in
      let seated = record g { breaker = b } in
      if allowed
      then elim (pick_key seated now) [
        | Pick.picked k earliest g' ↦ (Resolved.target (target_of g' k.api_key), g')
        | Pick.waits none ↦ (Resolved.route_error RouteError.model_not_found, seated)
        | Pick.waits (some t) ↦
            (Resolved.route_error (RouteError.cooldown (wait_until t now)), seated)
        | Pick.panics ↦ (Resolved.route_panics, seated)
      ]
      else (Resolved.route_error RouteError.model_not_found, seated)

  abbrev pub serves : Group F → Bytes → Bool
  serves g slot = bytes_eq g.slot slot || bytes_eq g.slug slot

  -- The loop of `ResolveSlot`: the first group of the slot decides.
  unfoldable pub resolve_in : List (Group F) → Bytes → ℕ → Resolved × List (Group F)
  resolve_in [] slot now = (Resolved.route_error RouteError.model_not_found, [])
  resolve_in (g ∷ gs) slot now =
      let (found, g') = resolve_group g now in
      let (later, gs') = resolve_in gs slot now in
      if serves g slot then (found, g' ∷ gs) else (later, g ∷ gs')

  unfoldable pub resolve_slot : Table F → Bytes → Bytes → ℕ → Resolved × Table F
  resolve_slot r name slot now =
      let (cools, r') = is_cooling_down r name now in
      let (found, gs) = resolve_in (r'.groups name) slot now in
      if cools
      then (Resolved.route_error RouteError.model_not_found, r')
      else (found, record r' { groups = assign r'.groups name gs })
