-- ===== src/Router/Feedback.antt =====
-- internal/router/router.go: the outcome of a request, credited to the group that served it; the
-- weighted choice between groups; the table built from a configuration; health snapshots.
use llm_pico.Common.{
  ℕ, ◌+◌, ◌*◌, Bool, true, false, Option, none, some, List, [], ◌∷◌, ◌++◌, map, leb, if◌then◌else◌,
  ◌&&◌, ◌||◌,
}
use llm_pico.Common.Bytes.{Bytes, bytes_eq, assign}
use llm_pico.Config.{provider_slug, ModelEntry, RouterSettings, CircuitBreakerSettings}
use llm_pico.RateLimit.Types.{second}
use llm_pico.Router.Breaker.{BreakerState, allows}
use llm_pico.Router.Float.{Float}
use llm_pico.Router.Group.{
  earlier, Pick, pick_key, has_key, group_success, KeyState, group_failure, record_latency, Group,
}
use llm_pico.Router.Table.{
  wait_until, is_cooling_down, RouteError, target_of, Resolved, clear_model_failure, Target, Table,
}
use llm_pico.Config

module _ {F : Type 0} where
  -- The two passes of `find`: by slot and slug, then by slug and base address.
  abbrev pub exact : Target → Group F → Bool
  exact t g = bytes_eq g.slot t.slot && bytes_eq g.slug t.provider_slug

  abbrev pub legacy : Target → Group F → Bool
  legacy t g = bytes_eq g.slug t.provider_slug && bytes_eq g.api_base t.api_base

  unfoldable pub has_group : (Group F → Bool) → List (Group F) → Bool
  has_group p [] = false
  has_group p (g ∷ gs) = p g || has_group p gs

  -- A call of a method on the first group that passes a test.
  unfoldable pub on_first : (Group F → Bool) → (Group F → Group F) → List (Group F) → List (Group F)
  on_first p f [] = []
  on_first p f (g ∷ gs) = let rest = on_first p f gs in if p g then f g ∷ gs else g ∷ rest

  -- A call of a method on the group that `find` returns, if it returns one.
  unfoldable pub on_found : Target → (Group F → Group F) → Table F → Table F
  on_found t f r =
      let name = t.model.model_name in
      let gs = r.groups name in
      record r {
        groups =
            assign r.groups name (
              if has_group (exact t) gs then on_first (exact t) f gs else on_first (legacy t) f gs);
      }

  -- `RecordLatency`.
  unfoldable pub observe_latency : Table F → Target → ℕ → Table F
  observe_latency r t d = on_found t (λ g. record g { latency = record_latency g.latency d }) r

module _ (fl : Float) where
  open fl use {F, div, add, greatest, less, one, hundredth}

  -- `RecordSuccess`.
  unfoldable pub router_success : Table F → Target → Table F
  router_success r t = clear_model_failure (on_found t (group_success fl) r) t.model.model_name

  -- `RecordFailure`: the credential is named only if the group has it.
  unfoldable pub router_failure : Table F → Target → ℕ → ℕ → Table F
  router_failure r t status now =
      on_found t
        (λ g.
          group_failure fl g (if has_key t.api_key g.keys then some t.api_key else none) status now)
        r

  -- `weightedBetter`, with the random draw as an argument.
  unfoldable pub weighted_better : F → F → F → Bool
  weighted_better draw candidate incumbent =
      let cw = greatest hundredth candidate in
      let iw = greatest hundredth incumbent in less draw (div cw (add cw iw))

  -- What the loop of `Resolve` carries: the group and credential picked so far, the earliest end of a
  -- cooldown, and the number of random draws made.
  pub record Search : Type 0 where
    pub chosen : Option (Group F × KeyState)
    pub earliest : Option ℕ
    pub draws : ℕ
    pub panicked : Bool

  -- A candidate with an eligible credential displaces the incumbent by a draw.
  unfoldable pub consider : (ℕ → F) → Search → Group F → KeyState → Search
  consider draw s g k = elim s.chosen [
    | none ↦ record s { chosen = some (g, k) }
    | some (incumbent, held) ↦ record s {
      chosen =
          if weighted_better (draw s.draws) g.health incumbent.health
          then some (g, k)
          else some (incumbent, held);
      draws = s.draws + 1;
    }
  ]

  -- One candidate: its breaker is asked, and then its credentials.
  unfoldable pub visit : (ℕ → F) → ℕ → Search → Group F → Search × Group F
  visit draw now s g =
      let (allowed, b) = allows g.breaker now in
      let seated = record g { breaker = b } in
      if allowed
      then elim (pick_key seated now) [
        | Pick.picked k next g' ↦ (consider draw s g' k, g')
        | Pick.waits next ↦ (record s { earliest = earlier s.earliest next }, seated)
        | Pick.panics ↦ (record s { panicked = true }, seated)
      ]
      else (s, seated)

  unfoldable pub visit_all : (ℕ → F) → ℕ → Search → List (Group F) → Search × List (Group F)
  visit_all draw now s [] = (s, [])
  visit_all draw now s (g ∷ gs) =
      let (s', g') = visit draw now s g in
      let (s'', gs') = visit_all draw now s' gs in (s'', g' ∷ gs')

  unfoldable pub conclude : Search → ℕ → Resolved
  conclude s now = if s.panicked then Resolved.route_panics else elim s.chosen [
    | some (g, k) ↦ Resolved.target (target_of g k.api_key)
    | none ↦ elim s.earliest [
      | some t ↦ Resolved.route_error (RouteError.cooldown (wait_until t now))
      | none ↦ Resolved.route_error RouteError.model_not_found
    ]
  ]

  -- `Resolve`.
  unfoldable pub resolve : (ℕ → F) → Table F → Bytes → ℕ → Resolved × Table F
  resolve draw r name now = elim (r.entries name) [
    | none ↦ (Resolved.route_error RouteError.model_not_found, r)
    | some entry ↦
        let (cools, r') = is_cooling_down r name now in
        let (s, gs) =
          visit_all draw now
            (record { chosen = none; earliest = none; draws = 0; panicked = false })
            (r'.groups name) in
        if cools
        then (Resolved.route_error RouteError.model_not_found, r')
        else (conclude s now, record r' { groups = assign r'.groups name gs })
  ]

  -- The group that `New` builds for an entry.
  unfoldable pub new_group : RouterSettings → ModelEntry → Group F
  new_group settings entry = record {
    slot = if bytes_eq entry.provider [] then provider_slug entry else entry.provider;
    slug = provider_slug entry;
    api_base = entry.model_params.api_base;
    entry = entry;
    keys = map (λ k. record { api_key = k; cooldown_until = none; fails = 0 }) (Config.keys entry);
    breaker = record {
      state = BreakerState.closed;
      error_count = 0;
      probes = 0;
      opened_at = none;
      failure_threshold = settings.circuit_breaker.failure_threshold;
      recovery_timeout = settings.circuit_breaker.recovery_timeout * second;
    };
    latency = record { samples = []; max_samples = 100 };
    last_key = [];
    requests = 0;
    errors = 0;
    health = one;
  }

  -- One turn of the loop of `New`.
  unfoldable pub add_entry : RouterSettings → Table F → ModelEntry → Table F
  add_entry settings r entry = record r {
    entries = assign r.entries entry.model_name (some entry);
    groups =
        assign r.groups entry.model_name
          (r.groups entry.model_name ++ new_group settings entry ∷ []);
    model_names = elim (r.entries entry.model_name) [
      | none ↦ r.model_names ++ entry.model_name ∷ []
      | some seen ↦ r.model_names
    ];
  }

  unfoldable pub add_entries : RouterSettings → Table F → List ModelEntry → Table F
  add_entries settings r [] = r
  add_entries settings r (e ∷ es) = add_entries settings (add_entry settings r e) es

  unfoldable pub new_router : RouterSettings → List ModelEntry → Table F
  new_router settings model_list =
      add_entries settings
        (record {
          model_names = [];
          entries = λ k. none;
          groups = λ k. [];
          model_failures = λ k. 0;
          model_cooldown = λ k. none;
          cooldown_window =
              if leb settings.cooldown_time 0 then 60 * second else settings.cooldown_time * second;
        })
        model_list
