-- ===== src/Router/Eligible.antt =====
-- internal/router/router.go: which credentials `pickKey` may hand out, and what it reports when there
-- is none.
use llm_pico.Common.{
  Among-keep, sym, false, none, refl, ◌∙◌, zero, suc, inr, inl, some, true, keep, get_elem?, ◌++◌,
  not, Among, Bool-cases, length, if◌then◌else◌, ◌<◌, Bool, Option, List, ℕ, ◌+◌, ◌≡◌, arith, [],
  ◌∷◌, min, ap, ◌≤◌, ◌⊎◌, leb,
}
use llm_pico.Common.Bytes.{bytes_eq, Bytes}
use llm_pico.Router.Group.{
  Pick, pick_key, Group, pick_from, earlier, cooling, scan_keys, KeyState, start_after,
}
use mathlib.Core.List.{append_assoc, append-nil}
use mathlib.Core.Option.{some-injective}
use mathlib.Core.Path.{subst}
use native.Mathlib.Nat.{mod-lt}

abbrev pub ready : ℕ → KeyState → Bool
ready now k = not (cooling k now)

-- What the loop reports, from an earliest end so far.
abbrev pub earliest_end : ℕ → List KeyState → Option ℕ → Option ℕ
earliest_end now [] e = e
earliest_end now (k ∷ ks) e =
    earliest_end now ks (if cooling k now then earlier e k.cooldown_until else e)

pub scan_keys_lem :
    (now : ℕ) (ks el : List KeyState) (e : Option ℕ)
    → scan_keys now ks el e ≡ (el ++ keep (ready now) ks, earliest_end now ks e)
unfolding scan_keys
scan_keys_lem now [] el e = rw append-nil
scan_keys_lem now (k ∷ ks) el e = elim (Bool-cases (cooling k now)) [
  | inl c ↦ rw c (scan_keys_lem now ks el (earlier e k.cooldown_until))
  | inr c ↦ rw c (scan_keys_lem now ks (el ++ k ∷ []) e ∙ rw append_assoc)
]

-- The position at which `pickKey` starts is in range.
start_after-lt : (last : Bytes) (n i : ℕ) (ks : List KeyState) → 0 < n → start_after last n i ks < n
unfolding start_after
start_after-lt last n i [] h = h
start_after-lt last n i (k ∷ ks) h = elim (Bool-cases (bytes_eq k.api_key last)) [
  | inl e ↦ rw e (grind (arith, mod-lt))
  | inr e ↦ rw e (start_after-lt last n (i + 1) ks h)
]

pub get_elem?-lt :
    (ks : List KeyState) (i : ℕ)
    → i < length ks
    → (k : KeyState) × (get_elem? ks i ≡ some k) × Among k ks
get_elem?-lt [] i h = elim h [ ]
get_elem?-lt (k ∷ ks) zero h = (k, refl, inl refl)
get_elem?-lt (k ∷ ks) (suc i) h = let (x, e, m) = get_elem?-lt ks i (omega arith) in (x, e, inr m)

pub keep-nil :
    (now : ℕ) (ks : List KeyState)
    → keep (ready now) ks ≡ []
    → (k : KeyState) → Among k ks
    → cooling k now ≡ true
keep-nil now [] e k m = elim m [ ]
keep-nil now (x ∷ xs) e k m = elim m [
  | inl q ↦ rw q (ground arith)
  | inr r ↦ keep-nil now xs (ground arith) k r
]

-- The end of a cooldown among the credentials that is not after any other, or none when there is no
-- credential at all.
pub data IsEarliest (ks : List KeyState) : Option ℕ → Type 0 where
  no_credentials : ks ≡ [] → IsEarliest ks none
  earliest :
      (k : KeyState) (t : ℕ)
      → Among k ks
      → k.cooldown_until ≡ some t
      → ((x : KeyState) (u : ℕ) → Among x ks → x.cooldown_until ≡ some u → t ≤ u)
      → IsEarliest ks (some t)

-- What `pickKey` returns, on each of its ways.
pub data PickIs {F : Type 0} (g : Group F) (now : ℕ) (r : Pick F) : Type 0 where
  hands_out :
      (k : KeyState) (e : Option ℕ)
      → r ≡ Pick.picked k e (record g { last_key = k.api_key })
      → Among k g.keys
      → cooling k now ≡ false
      → PickIs g now r
  reports :
      (e : Option ℕ)
      → r ≡ Pick.waits e
      → IsEarliest g.keys e
      → ((k : KeyState) → Among k g.keys → cooling k now ≡ true)
      → PickIs g now r

-- The earliest of `b` and the ends of some credentials.
data LeastFrom (ks : List KeyState) (b : ℕ) (o : Option ℕ) : Type 0 where
  least :
      (t : ℕ)
      → o ≡ some t
      → t ≤ b
      → (t ≡ b) ⊎ ((k : KeyState) × Among k ks × (k.cooldown_until ≡ some t))
      → ((x : KeyState) (u : ℕ) → Among x ks → x.cooldown_until ≡ some u → t ≤ u)
      → LeastFrom ks b o

cooling-end :
    (now : ℕ) (k : KeyState) → cooling k now ≡ true → (u : ℕ) × (k.cooldown_until ≡ some u)
unfolding cooling
cooling-end now k c = ends k.cooldown_until refl
  where
    ends : (o : Option ℕ) → k.cooldown_until ≡ o → (u : ℕ) × (k.cooldown_until ≡ some u)
    ends none e = absurd (cc)
    ends (some u) e = (u, e)

earlier-min : (b u : ℕ) → earlier (some b) (some u) ≡ some (min b u)
unfolding earlier
earlier-min b u = ground arith

least-cons :
    (k : KeyState) (ks : List KeyState) (b u : ℕ) (o : Option ℕ)
    → k.cooldown_until ≡ some u
    → LeastFrom ks (min b u) o
    → LeastFrom (k ∷ ks) b o
least-cons k ks b u o end (least t e below whose under) = least t e (omega arith) (from whose) bound
  where
    from :
        (t ≡ min b u) ⊎ ((x : KeyState) × Among x ks × (x.cooldown_until ≡ some t))
        → (t ≡ b) ⊎ ((x : KeyState) × Among x (k ∷ ks) × (x.cooldown_until ≡ some t))
    from (inr (x, m, q)) = inr (x, inr m, q)
    from (inl same) = elim (Bool-cases (leb b u)) [
      | inl e ↦ inl (ground arith)
      | inr e ↦ inr (k, inl refl, end ∙ ap some (ground arith))
    ]

    bound : (x : KeyState) (v : ℕ) → Among x (k ∷ ks) → x.cooldown_until ≡ some v → t ≤ v
    bound x v (inr m) q = under x v m q
    bound x v (inl same) q =
        omega (arith, some-injective _ _ (sym end ∙ ap (λ y. y.cooldown_until) (sym same) ∙ q))

earliest_end-cons :
    (now : ℕ) (k : KeyState) (ks : List KeyState) (o : Option ℕ) (u : ℕ)
    → cooling k now ≡ true
    → k.cooldown_until ≡ some u
    → earliest_end now (k ∷ ks) o ≡ earliest_end now ks (earlier o (some u))
earliest_end-cons now k ks o u c end =
    ap (λ b. earliest_end now ks (if b then earlier o k.cooldown_until else o)) c
    ∙ ap (λ e. earliest_end now ks (earlier o e)) end

least-IsEarliest :
    (k : KeyState) (ks : List KeyState) (u : ℕ) (o : Option ℕ)
    → k.cooldown_until ≡ some u
    → LeastFrom ks u o
    → IsEarliest (k ∷ ks) o
least-IsEarliest k ks u o end (least t e below whose under) =
    subst (IsEarliest (k ∷ ks)) (sym e) (elim whose [
      | inl same ↦ earliest k t (inl refl) (end ∙ ap some (sym same)) bound
      | inr (x, m, q) ↦ earliest x t (inr m) q bound
    ])
  where
    bound : (x : KeyState) (v : ℕ) → Among x (k ∷ ks) → x.cooldown_until ≡ some v → t ≤ v
    bound x v (inr m) q = under x v m q
    bound x v (inl same) q =
        omega (arith, some-injective _ _ (sym end ∙ ap (λ y. y.cooldown_until) (sym same) ∙ q))

earliest_end-LeastFrom :
    (now : ℕ) (ks : List KeyState) (b : ℕ)
    → ((k : KeyState) → Among k ks → cooling k now ≡ true)
    → LeastFrom ks b (earliest_end now ks (some b))
earliest_end-LeastFrom now [] b h = least b refl (omega arith) (inl refl) (λ x u m q. elim m [ ])
earliest_end-LeastFrom now (k ∷ ks) b h =
    let (u, end) = cooling-end now k (h k (inl refl)) in
    subst (LeastFrom (k ∷ ks) b)
      (sym (
        earliest_end-cons now k ks (some b) u (h k (inl refl)) end
        ∙ ap (earliest_end now ks) (earlier-min b u)))
      (least-cons k ks b u _ end (earliest_end-LeastFrom now ks (min b u) (λ x m. h x (inr m))))

pub earliest_end-IsEarliest :
    (now : ℕ) (ks : List KeyState)
    → ((k : KeyState) → Among k ks → cooling k now ≡ true)
    → IsEarliest ks (earliest_end now ks none)
unfolding earlier
earliest_end-IsEarliest now [] h = no_credentials refl
earliest_end-IsEarliest now (k ∷ ks) h =
    let (u, end) = cooling-end now k (h k (inl refl)) in
    subst (IsEarliest (k ∷ ks)) (sym (earliest_end-cons now k ks none u (h k (inl refl)) end))
      (least-IsEarliest k ks u _ end (earliest_end-LeastFrom now ks u (λ x m. h x (inr m))))

pick_from-PickIs :
    {F : Type 0} (g : Group F) (now : ℕ) (el : List KeyState) (e : Option ℕ)
    → keep (ready now) g.keys ≡ el
    → e ≡ earliest_end now g.keys none
    → PickIs g now (pick_from g el e)
unfolding pick_from
pick_from-PickIs g now [] e q h =
    let all = keep-nil now g.keys q in
    reports e refl (subst (IsEarliest g.keys) (sym h) (earliest_end-IsEarliest now g.keys all)) all
pick_from-PickIs g now (k ∷ ks) e q h =
    let (x, at, m) =
      get_elem?-lt (k ∷ ks) (start_after g.last_key (length (k ∷ ks)) 0 (k ∷ ks))
        (start_after-lt g.last_key (length (k ∷ ks)) 0 (k ∷ ks) (omega arith)) in
    let (fit, among) = Among-keep (ready now) x g.keys (subst (Among x) (sym q) m) in
    hands_out x e (rw (at, pick_from)) among (ground arith)

-- `pickKey` hands out a credential of the group that is not cooling down, changing no more than the
-- group's record of the last one, or reports, when every credential is cooling down, the end of a
-- cooldown of the group that is not after any other (and none when the group has no credential); it
-- never indexes out of range.
pub pick_key-PickIs : {F : Type 0} (g : Group F) (now : ℕ) → PickIs g now (pick_key g now)
unfolding pick_key
pick_key-PickIs g now =
    rw (scan_keys_lem now g.keys [] none)
      (pick_from-PickIs g now (keep (ready now) g.keys) (earliest_end now g.keys none) refl refl)

-- With no credential ready there is nothing to hand out.
pub pick_key-waits :
    {F : Type 0} (g : Group F) (now : ℕ)
    → keep (ready now) g.keys ≡ []
    → pick_key g now ≡ Pick.waits (earliest_end now g.keys none)
unfolding pick_key pick_from
pick_key-waits g now e = rw (scan_keys_lem now g.keys [] none) (rw (e, pick_from) refl)
