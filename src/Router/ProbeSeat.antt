-- ===== src/Router/ProbeSeat.antt =====
-- internal/router/router.go: what becomes of the probe that a recovered breaker hands out, when the
-- request is refused for another reason or ends in an error that is not the provider's fault.
use llm_pico.Common.{
  refl, keep, true, All, List, Option, ℕ, ◌≤◌, ◌≡◌, arith, [], ◌∷◌, ◌⊎◌, ◌<◌, some, none, max, ◌-◌,
}
use llm_pico.Common.Bytes.{Bytes}
use llm_pico.RateLimit.Types.{second}
use llm_pico.Router.Breaker.{recovered, BreakerState, allows}
use llm_pico.Router.Eligible.{
  pick_key-waits, ready, IsEarliest, earliest_end, earliest_end-IsEarliest, keep-nil,
}
use llm_pico.Router.Float.{Float}
use llm_pico.Router.Group.{server_failure, recompute_health, penalise, group_failure, Group}
use llm_pico.Router.Table.{RouteError, Resolved, resolve_group}

-- The breaker waits for the outcome of a probe.
abbrev pub SeatTaken : {F : Type 0} → Group F → Type 0
SeatTaken g = (g.breaker.state ≡ BreakerState.half_open) × (0 < g.breaker.probes)

-- A row of resolutions of one slot's group, at their times, with nothing recorded in between.
unfoldable pub resolve_times : {F : Type 0} → Group F → List ℕ → List Resolved
resolve_times g [] = []
resolve_times g (t ∷ ts) = let (found, g') = resolve_group g t in found ∷ resolve_times g' ts

resolve_group-SeatTaken :
    {F : Type 0} (g : Group F) (now : ℕ)
    → SeatTaken g
    → resolve_group g now ≡ (Resolved.route_error RouteError.model_not_found, g)
unfolding resolve_group allows
resolve_group-SeatTaken g now h = ground arith

resolve_times-SeatTaken :
    {F : Type 0} (g : Group F) (ts : List ℕ)
    → SeatTaken g
    → All (λ r. r ≡ Resolved.route_error RouteError.model_not_found) (resolve_times g ts)
unfolding resolve_times
resolve_times-SeatTaken g [] h = tt
resolve_times-SeatTaken g (t ∷ ts) h =
    rw (resolve_group-SeatTaken g t h) (refl, resolve_times-SeatTaken g ts h)

resolve_group-seat :
    {F : Type 0} (g : Group F) (now : ℕ)
    → g.breaker.state ≡ BreakerState.open_
    → recovered g.breaker now ≡ true
    → keep (ready now) g.keys ≡ []
    → SeatTaken (resolve_group g now).1
unfolding resolve_group allows
resolve_group-seat g now o r e =
    let seated = record g {
      breaker = record g.breaker { state = BreakerState.half_open; probes = 1 };
    } in
    ground (arith, pick_key-waits seated now e)

-- The error of a resolution with no credential ready: the wait until the earliest end of a cooldown,
-- at least a second, or, without credentials, that there is no such model.
abbrev pub refusal : ℕ → Option ℕ → RouteError
refusal now none = RouteError.model_not_found
refusal now (some t) = RouteError.cooldown (max second (t - now))

resolve_group-refusal :
    {F : Type 0} (g : Group F) (now : ℕ)
    → g.breaker.state ≡ BreakerState.open_
    → recovered g.breaker now ≡ true
    → keep (ready now) g.keys ≡ []
    → (resolve_group g now).0 ≡ Resolved.route_error (refusal now (earliest_end now g.keys none))
unfolding resolve_group allows
resolve_group-refusal g now o r e =
    let seated = record g {
      breaker = record g.breaker { state = BreakerState.half_open; probes = 1 };
    } in
    ground (arith, pick_key-waits seated now e)

-- When the breaker of a group has recovered while every credential is cooling down, a resolution
-- returns an error, with the wait of at least a second until the earliest end of a cooldown (or
-- that there is no such model, when the group has no credential), and yet takes the probe seat, so
-- that, with no outcome ever recorded, every later resolution of the group is refused, at whatever
-- time and however many credentials are ready by then.
pub resolve_group-leaks_seat :
    {F : Type 0} (g : Group F) (now : ℕ) (ts : List ℕ)
    → g.breaker.state ≡ BreakerState.open_
    → recovered g.breaker now ≡ true
    → keep (ready now) g.keys ≡ []
    → ((e : Option ℕ) × IsEarliest g.keys e
        × ((resolve_group g now).0 ≡ Resolved.route_error (refusal now e)))
      × SeatTaken (resolve_group g now).1
      × All
          (λ r. r ≡ Resolved.route_error RouteError.model_not_found)
          (resolve_times (resolve_group g now).1 ts)
resolve_group-leaks_seat g now ts o r e =
    let seat = resolve_group-seat g now o r e in
    (
      (
        earliest_end now g.keys none,
        earliest_end-IsEarliest now g.keys (keep-nil now g.keys e),
        resolve_group-refusal g now o r e,
      ),
      seat,
      resolve_times-SeatTaken (resolve_group g now).1 ts seat,
    )

-- A failure with a status outside 500 to 599 leaves the breaker as it was.
group_failure-breaker :
    (fl : Float) (g : Group fl.F) (key : Option Bytes) (status now : ℕ)
    → (status < 500) ⊎ (600 ≤ status)
    → (group_failure fl g key status now).breaker ≡ g.breaker
unfolding group_failure penalise recompute_health server_failure
group_failure-breaker fl g key status now h = ground arith

-- When a probe is answered by a status outside 500 to 599, such as 429, the seat is not given back:
-- every later resolution of the group is refused until another outcome is recorded.
pub group_failure-keeps_seat :
    (fl : Float) (g : Group fl.F) (key : Option Bytes) (status now : ℕ) (ts : List ℕ)
    → SeatTaken g
    → (status < 500) ⊎ (600 ≤ status)
    → All
        (λ r. r ≡ Resolved.route_error RouteError.model_not_found)
        (resolve_times (group_failure fl g key status now) ts)
group_failure-keeps_seat fl g key status now ts h s =
    resolve_times-SeatTaken (group_failure fl g key status now) ts
      (rw (group_failure-breaker fl g key status now s) h)
