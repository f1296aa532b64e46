-- ===== src/Router/Rotation.antt =====
-- internal/router/router.go: the rotation of `pickKey` through the eligible credentials.
use native.Mathlib.Nat.{mod-add-mod, mod-lt}
use mathlib.Core.Path.{subst}
use llm_pico.Router.Eligible.{get_elem?-lt, pick_key-PickIs, scan_keys_lem, earliest_end, ready}
use llm_pico.Common.Bytes.{bytes_eq_refl, bytes_eq}
use llm_pico.Router.Group.{pick_from, Pick, Group, start_after, pick_key, KeyState}
use llm_pico.Common.{
  ◌∙◌, refl, Option, none, zero, ap, length, suc, false, keep, some, All, get_elem?, List, ℕ, ◌+◌,
  ◌≡◌, arith, [], ◌∷◌, ◌%◌, ◌<◌,
}

-- No two credentials of the list have the same key.
abbrev pub DistinctKeys : List KeyState → Type 0
DistinctKeys [] = Unit
DistinctKeys (k ∷ ks) =
    All (λ (y : KeyState). bytes_eq k.api_key y.api_key ≡ false) ks × DistinctKeys ks

All-get_elem? :
    (P : KeyState → Type 0) (ks : List KeyState) (i : ℕ) (k : KeyState)
    → All P ks
    → get_elem? ks i ≡ some k
    → P k
All-get_elem? P [] i k h e = absurd (cc)
All-get_elem? P (x ∷ xs) zero k h e = let q : x ≡ k = cc in subst P q h.0
All-get_elem? P (x ∷ xs) (suc i) k h e = All-get_elem? P xs i k h.1 e

start_after-at :
    (n j i : ℕ) (ks : List KeyState) (k : KeyState)
    → DistinctKeys ks
    → get_elem? ks i ≡ some k
    → start_after k.api_key n j ks ≡ (j + i + 1) % n
unfolding start_after
start_after-at n j i [] k d e = absurd (cc)
start_after-at n j zero (x ∷ xs) k d e =
    let q : x ≡ k = cc in rw (q, bytes_eq_refl k.api_key) (ap (λ t. (t + 1) % n) (omega arith))
start_after-at n j (suc i) (x ∷ xs) k d e =
    let other : bytes_eq x.api_key k.api_key ≡ false =
      All-get_elem? (λ (y : KeyState). bytes_eq x.api_key y.api_key ≡ false) xs i k d.0 e in
    rw other (start_after-at n (j + 1) i xs k d.1 e ∙ ap (λ t. t % n) (omega arith))

pick_from-at :
    {F : Type 0} (g : Group F) (i : ℕ) (el : List KeyState) (e : Option ℕ) (k next : KeyState)
    → DistinctKeys el
    → get_elem? el i ≡ some k
    → g.last_key ≡ k.api_key
    → get_elem? el ((i + 1) % length el) ≡ some next
    → pick_from g el e ≡ Pick.picked next e (record g { last_key = next.api_key })
unfolding pick_from
pick_from-at g i [] e k next d at last there = absurd (cc)
pick_from-at g i (x ∷ xs) e k next d at last there =
    let n = length (x ∷ xs) in
    let here : start_after g.last_key n 0 (x ∷ xs) ≡ (i + 1) % n =
      ap (λ a. start_after a n 0 (x ∷ xs)) last
      ∙ start_after-at n 0 i (x ∷ xs) k d at
      ∙ ap (λ t. t % n) (omega arith) in
    rw (here, pick_from) (rw (there, pick_from) refl)

-- A pick at a time, for its effect on the group.
abbrev pub after_pick : {F : Type 0} → Group F → Pick F → Group F
after_pick g (Pick.picked k e g') = g'
after_pick g (Pick.waits e) = g
after_pick g Pick.panics = g

unfoldable pub pick_times : {F : Type 0} → Group F → ℕ → ℕ → Group F
pick_times g now zero = g
pick_times g now (suc t) = after_pick (pick_times g now t) (pick_key (pick_times g now t) now)

-- The credential at a position of the eligible ones is the one handed out last.
abbrev pub LastIs : {F : Type 0} → Group F → List KeyState → ℕ → Type 0
LastIs g el i = (k : KeyState) × (get_elem? el i ≡ some k) × (g.last_key ≡ k.api_key)

keys-pick_times : {F : Type 0} (g : Group F) (now t : ℕ) → (pick_times g now t).keys ≡ g.keys
unfolding pick_times
keys-pick_times g now zero = refl
keys-pick_times g now (suc t) =
    ground (arith, keys-pick_times g now t, pick_key-PickIs (pick_times g now t) now)

after_pick-LastIs :
    {F : Type 0} (g : Group F) (now i : ℕ) (el : List KeyState)
    → keep (ready now) g.keys ≡ el
    → DistinctKeys el
    → i < length el
    → LastIs g el i
    → LastIs (after_pick g (pick_key g now)) el ((i + 1) % length el)
unfolding pick_key
after_pick-LastIs g now i el q d h (k, at, last) =
    let (next, there, m) = get_elem?-lt el ((i + 1) % length el) (mod-lt (i + 1) (omega arith)) in
    (
      next,
      there,
      rw (scan_keys_lem now g.keys [] none)
          (rw q (rw (pick_from-at g i el (earliest_end now g.keys none) k next d at last there))),
    )

mod_step : (i t n : ℕ) → i < n → ((i + t) % n + 1) % n ≡ (i + suc t) % n
mod_step i t n h = mod-add-mod (i + t) n 1 ∙ ap (λ x. x % n) (omega arith)

-- If the eligible credentials have distinct keys and the last one handed out stands at position i of
-- their n, then after t more picks at one time the last one handed out stands at (i + t) mod n.
pub pick_times-rotates :
    {F : Type 0} (g : Group F) (now i t : ℕ)
    → DistinctKeys (keep (ready now) g.keys)
    → i < length (keep (ready now) g.keys)
    → LastIs g (keep (ready now) g.keys) i
    → LastIs
        (pick_times g now t)
        (keep (ready now) g.keys)
        ((i + t) % length (keep (ready now) g.keys))
unfolding pick_times
pick_times-rotates g now i zero d h l = subst (LastIs g (keep (ready now) g.keys)) (grind arith) l
pick_times-rotates g now i (suc t) d h l =
    let el = keep (ready now) g.keys in
    subst (LastIs (pick_times g now (suc t)) el) (mod_step i t (length el) h) (
      after_pick-LastIs (pick_times g now t) now ((i + t) % length el) el
        (ap (keep (ready now)) (keys-pick_times g now t)) d (mod-lt (i + t) (omega arith))
        (pick_times-rotates g now i t d h l))
