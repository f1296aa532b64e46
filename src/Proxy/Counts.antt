-- ===== src/Proxy/Counts.antt =====
-- internal/proxy/proxy.go: how many calls a request sends upstream, and how many seats it gives back.
use mathlib.Core.Path.{subst}
use llm_pico.Proxy.Errors.{Error}
use llm_pico.Config.{ModelEntry}
use llm_pico.Router.Table.{resolve_slot, Resolved, Target}
use llm_pico.Router.Float.{Float}
use llm_pico.Proxy.Attempt.{
  max_tries, try_slot, SlotResult, attempt_slot, budget_spent, try_once, ensure_reserved,
  try_target, Reserved, try_resolved, World, settle, release, send, finish, fail, Reservation,
  succeed, give_up_reservation, Turn, exchange, State, Job,
}
use llm_pico.Common.{
  ◌∙◌, ap, zero, ltb, suc, ◌<◌, ◌≤◌, Bool-cases, inr, false, inl, ◌⊎◌, refl, none, some, Option,
  if◌then◌else◌, Bool, ℕ, ◌+◌, ◌-◌, ◌≡◌, arith,
}

-- The seats left after giving back one for each of k calls.
unfoldable pub released : Bool → ℕ → ℕ → ℕ
released owned k seats = if owned then seats - k else seats

-- k calls were sent between two states, with a seat given back for each.
abbrev pub Sent : {F : Type 0} → Job → State F → State F → ℕ → Type 0
Sent job s s' k = (s'.attempts ≡ s.attempts + k) × (s'.seats ≡ released job.sem_owned k s.seats)

module _ (fl : Float) where
  open fl use {F}

  abbrev turn_state : Turn fl → State F
  turn_state (Turn.ended r s) = s
  turn_state (Turn.again s res err) = s

  give_up-counts :
      (s : State F) (res : Option Reservation) (now : ℕ)
      → ((give_up_reservation fl s res now).attempts ≡ s.attempts)
        × ((give_up_reservation fl s res now).seats ≡ s.seats)
  unfolding give_up_reservation
  give_up-counts s none now = (refl, refl)
  give_up-counts s (some res) now = (refl, refl)

  exchange-counts :
      (w : World) (job : Job) (more : Bool) (s : State F) (res : Reservation) (t : Target) (now : ℕ)
      → Sent job s (turn_state (exchange fl w job more s res t now)) 1
  unfolding exchange succeed fail finish send release released settle give_up_reservation
  exchange-counts w job more s res t now = ground arith

  -- A turn sends nothing, or one call while the budget is not spent.
  abbrev OneCall : Job → State F → State F → Type 0
  OneCall job s s' =
      Sent job s s' 0 ⊎ (Sent job s s' 1 × (budget_spent job.budget s.attempts ≡ false))

  Sent-zero : (job : Job) (s : State F) → Sent job s s 0
  unfolding released
  Sent-zero job s = ground arith

  Sent-add :
      (job : Job) (s s' s'' : State F) (j k : ℕ)
      → Sent job s s' j
      → Sent job s' s'' k
      → Sent job s s'' (j + k)
  unfolding released
  Sent-add job s s' s'' j k h l = ground arith

  ensure_reserved-counts :
      (job : Job) (e : ModelEntry) (s : State F) (res : Option Reservation) (now : ℕ)
      → ((r : Reservation) (s' : State F)
          → ensure_reserved fl job e s res now ≡ Reserved.held r s'
          → (s'.attempts ≡ s.attempts) × (s'.seats ≡ s.seats))
        × ((d : ℕ) (s' : State F)
            → ensure_reserved fl job e s res now ≡ Reserved.over_quota d s'
            → (s'.attempts ≡ s.attempts) × (s'.seats ≡ s.seats))
  unfolding ensure_reserved
  ensure_reserved-counts job e s none now = (λ r s' q. ground arith, λ d s' q. ground arith)
  ensure_reserved-counts job e s (some r') now = (λ r s' q. ground arith, λ d s' q. ground arith)

  Reserved-cases :
      (r : Reserved fl)
      → ((x : Reservation) × (s : State F) × (r ≡ Reserved.held x s))
        ⊎ ((d : ℕ) × (s : State F) × (r ≡ Reserved.over_quota d s))
  Reserved-cases (Reserved.held x s) = inl (x, s, refl)
  Reserved-cases (Reserved.over_quota d s) = inr (d, s, refl)

  try_target-counts :
      (w : World) (job : Job) (e : ModelEntry) (more : Bool) (s : State F)
      (res : Option Reservation) (t : Target) (now : ℕ)
      → Sent job s (turn_state (try_target fl w job e more s res t now)) 0
        ⊎ Sent job s (turn_state (try_target fl w job e more s res t now)) 1
  unfolding try_target released
  try_target-counts w job e more s res t now =
      elim (Reserved-cases (ensure_reserved fl job e s res now)) [
        | inl (x, s', q) ↦
            rw (q, try_target)
              (inr (
                ground (
                  arith,
                  exchange-counts w job more s' x t now,
                  (ensure_reserved-counts job e s res now).0 x s' q,
                )))
        | inr (d, s', q) ↦
            rw (q, try_target)
              (inl (ground (arith, (ensure_reserved-counts job e s res now).1 d s' q)))
      ]

  try_resolved-counts :
      (w : World) (job : Job) (e : ModelEntry) (more : Bool) (s : State F)
      (res : Option Reservation) (r : Resolved) (now : ℕ)
      → Sent job s (turn_state (try_resolved fl w job e more s res r now)) 0
        ⊎ Sent job s (turn_state (try_resolved fl w job e more s res r now)) 1
  unfolding try_resolved
  try_resolved-counts w job e more s res (Resolved.target t) now =
      try_target-counts w job e more s res t now
  try_resolved-counts w job e more s res (Resolved.route_error x) now = inl (Sent-zero job s)
  try_resolved-counts w job e more s res Resolved.route_panics now = inl (Sent-zero job s)

  try_once-counts :
      (w : World) (job : Job) (e : ModelEntry) (more : Bool) (s : State F)
      (res : Option Reservation) (last : Option Error)
      → OneCall job s (turn_state (try_once fl w job e more s res last))
  unfolding try_once finish released
  try_once-counts w job e more s res last = elim (Bool-cases (budget_spent job.budget s.attempts)) [
    | inl spent ↦ rw spent (inl (ground (arith, give_up-counts s res (w.clock s.tries))))
    | inr open_ ↦
        rw open_
          (elim (try_resolved-counts w job e more
            (record s {
              router = (resolve_slot s.router job.input.model e.provider (w.clock s.tries)).1;
              tries = s.tries + 1;
            })
            res (resolve_slot s.router job.input.model e.provider (w.clock s.tries)).0
            (w.clock s.tries)) [ inl quiet ↦ inl quiet | inr one ↦ inr (one, refl) ])
  ]

  -- Between two states at most n calls were sent, and none beyond the budget.
  abbrev pub Bounded : Job → ℕ → State F → State F → Type 0
  Bounded job n s s' =
      (k : ℕ) × Sent job s s' k
      × (k ≤ n)
      × (0 < job.budget → s.attempts ≤ job.budget → s'.attempts ≤ job.budget)

  OneCall-Bounded : (job : Job) (s s' : State F) → OneCall job s s' → Bounded job 1 s s'
  OneCall-Bounded job s s' (inl quiet) = (0, quiet, omega arith, λ h l. omega (arith, quiet.0))
  OneCall-Bounded job s s' (inr (one, open_)) = (1, one, omega arith, λ h l. ground (arith, one.0))

  pub Bounded-add :
      (job : Job) (m n : ℕ) (s s' s'' : State F)
      → Bounded job m s s'
      → Bounded job n s' s''
      → Bounded job (m + n) s s''
  Bounded-add job m n s s' s'' (j, a, le, b) (k, c, le', d) =
      (j + k, Sent-add job s s' s'' j k a c, omega arith, λ h l. d h (b h l))

  pub Bounded-weaken :
      (job : Job) (m n : ℕ) (s s' : State F) → m ≤ n → Bounded job m s s' → Bounded job n s s'
  Bounded-weaken job m n s s' h (j, a, le, b) = (j, a, omega arith, b)

  Turn-cases :
      (t : Turn fl)
      → ((r : SlotResult) × (s : State F) × (t ≡ Turn.ended r s))
        ⊎ ((s : State F) × (x : Reservation) × (err : Error) × (t ≡ Turn.again s x err))
  Turn-cases (Turn.ended r s) = inl (r, s, refl)
  Turn-cases (Turn.again s x err) = inr (s, x, err, refl)

  pub try_slot-Bounded :
      (w : World) (job : Job) (e : ModelEntry) (n : ℕ) (s : State F) (res : Option Reservation)
      (last : Option Error)
      → Bounded job n s (try_slot fl w job e n s res last).1
  unfolding try_slot finish released
  try_slot-Bounded w job e zero s res last = (
    0,
    ground (arith, give_up-counts s res (w.clock s.tries)),
    omega arith,
    λ h l. ground (arith, give_up-counts s res (w.clock s.tries)),
  )
  try_slot-Bounded w job e (suc n) s res last =
      elim (Turn-cases (try_once fl w job e (ltb 0 n) s res last)) [
        | inl (r, s', q) ↦
            rw (q, try_slot) (Bounded-weaken job 1 (suc n) s s' (omega arith) (turn s' _ q refl))
        | inr (s', x, err, q) ↦
            let rest = try_slot-Bounded w job e n s' (some x) (some err) in
            rw (q, try_slot)
              (Bounded-weaken job (1 + n) (suc n) s (try_slot fl w job e n s' (some x) (some err)).1
                (omega arith)
                (Bounded-add job 1 n s s' (try_slot fl w job e n s' (some x) (some err)).1
                  (turn s' _ q refl) rest))
      ]
    where
      turn :
          (s' : State F) (t : Turn fl)
          → try_once fl w job e (ltb 0 n) s res last ≡ t
          → turn_state t ≡ s'
          → Bounded job 1 s s'
      turn s' t q h = subst (Bounded job 1 s) (ap turn_state q ∙ h) (
          OneCall-Bounded job s (turn_state (try_once fl w job e (ltb 0 n) s res last))
            (try_once-counts w job e (ltb 0 n) s res last))

  -- A slot is sent at most its number of tries, and no call is sent beyond the attempt budget.
  pub attempt_slot-Bounded :
      (w : World) (job : Job) (e : ModelEntry) (s : State F)
      → Bounded job (max_tries job.num_retries e) s (attempt_slot fl w job e s).1
  unfolding attempt_slot
  attempt_slot-Bounded w job e s =
      try_slot-Bounded w job e (max_tries job.num_retries e) s none none
