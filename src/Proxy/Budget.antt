-- ===== src/Proxy/Budget.antt =====
-- internal/proxy/proxy.go: the calls of a request against the attempt budgets of its slots.
use llm_pico.Proxy.Bounds.{dispatch_slots-Bounded, total_tries}
use llm_pico.Common.Signed.{negsuc, pos, ℤ}
use llm_pico.Proxy.Attempt.{State, World}
use llm_pico.Config.{ModelEntry}
use llm_pico.Proxy.Dispatch.{dispatch_slots, Service, job_of}
use llm_pico.Common.{
  ◌∙◌, sym, ap, inl, none, inr, [], ◌∷◌, suc, Bool, arith, ◌≡◌, ◌≤◌, Among, some, Option, ◌<◌, List,
  ℕ,
}
use llm_pico.Router.Float.{Float}
use llm_pico.Proxy.Select.{slots_within_context, DispatchInput, budget_from, tighter}

-- Both bounds of a budget, once one is found.
tighter-bounds :
    (b n : ℕ) → (0 < tighter b (some (pos (suc n)))) × (tighter b (some (pos (suc n))) ≤ suc n)
unfolding tighter
tighter-bounds b n = ground arith

tighter-keeps : (b : ℕ) (o : Option ℤ) → 0 < b → (0 < tighter b o) × (tighter b o ≤ b)
unfolding tighter
tighter-keeps b none h = (h, omega arith)
tighter-keeps b (some (negsuc n)) h = (h, omega arith)
tighter-keeps b (some (pos n)) h = ground arith

budget_from-keeps :
    (b : ℕ) (es : List ModelEntry) → 0 < b → (0 < budget_from b es) × (budget_from b es ≤ b)
unfolding budget_from
budget_from-keeps b [] h = (h, omega arith)
budget_from-keeps b (e ∷ es) h =
    let (p, q) = tighter-keeps b e.attempt_budget h in
    let (x, y) = budget_from-keeps (tighter b e.attempt_budget) es p in (x, omega arith)

-- The budget is positive and at most each positive budget that a slot declares.
budget_from-le :
    (b : ℕ) (e : ModelEntry) (es : List ModelEntry) (n : ℕ)
    → Among e es
    → e.attempt_budget ≡ some (pos (suc n))
    → (0 < budget_from b es) × (budget_from b es ≤ suc n)
unfolding budget_from
budget_from-le b e [] n a h = elim a [ ]
budget_from-le b e (x ∷ es) n (inr a) h = budget_from-le (tighter b x.attempt_budget) e es n a h
budget_from-le b e (x ∷ es) n (inl q) h =
    let declared = ap (λ m. tighter b m.attempt_budget) (sym q) ∙ ap (tighter b) h in
    let (p, l) = tighter-bounds b n in
    let (y, z) = budget_from-keeps (tighter b x.attempt_budget) es (rw declared p) in
    (y, ground (arith, z, l, declared))

module _ (fl : Float) where
  open fl use {F}

  -- A request over the slots `all`, which has sent nothing before, sends upstream at most as many
  -- calls as the slots within the context window have tries together.
  pub dispatch_slots-within_tries :
      (w : World) (v : Service) (input : DispatchInput) (owned : Bool) (all : List ModelEntry)
      (s : State F)
      → s.attempts ≡ 0
      → (dispatch_slots fl w v input owned all s).1.attempts
        ≤ total_tries v.num_retries (slots_within_context all input)
  dispatch_slots-within_tries w v input owned all s h =
      let (k, (a, b), le, within) = dispatch_slots-Bounded fl w v input owned all s in
      omega (arith, a, h, le)

  -- A request over the slots `all`, which has sent nothing before, sends upstream at most as many
  -- calls as the positive attempt budget of any of those slots.
  pub dispatch_slots-within_budget :
      (w : World) (v : Service) (input : DispatchInput) (owned : Bool) (all : List ModelEntry)
      (s : State F) (e : ModelEntry) (n : ℕ)
      → s.attempts ≡ 0
      → Among e all
      → e.attempt_budget ≡ some (pos (suc n))
      → (dispatch_slots fl w v input owned all s).1.attempts ≤ suc n
  unfolding job_of
  dispatch_slots-within_budget w v input owned all s e n h m d =
      let (k, (a, b), le, within) = dispatch_slots-Bounded fl w v input owned all s in
      let (p, l) = budget_from-le 0 e all n m d in omega (arith, within p (omega (arith, h)), l)
