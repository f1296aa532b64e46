-- ===== src/Common/Result.antt =====
-- A value, or the error that a function returns in its place.
use llm_pico.Common.{◌⊎◌, inl, inr}
use llm_pico.Common.Tests.{if◌then◌else◌}
use mathlib.Core.Bool.{Bool}
use mathlib.Core.Path.{◌≡◌, refl}

pub data Result (E A : Type 0) : Type 0 where
  err : E → Result E A
  ok : A → Result E A

module _ {E : Type 0} where
  -- An error unless the test holds.
  abbrev pub guard : Bool → E → Result E (Unit {0})
  guard holds e = if holds then ok tt else err e

  infixl 5 ◌>>=◌ ◌>>◌
  abbrev pub ◌>>=◌ : {A B : Type 0} → Result E A → (A → Result E B) → Result E B
  err e >>= next = err e
  ok a >>= next = next a

  -- What a successful chain has gone through.
  pub >>=-eq-ok :
      {A B : Type 0} (first : Result E A) (next : A → Result E B) {b : B}
      → (first >>= next) ≡ ok b
      → (a : A) × (first ≡ ok a) × (next a ≡ ok b)
  >>=-eq-ok (err e) next h = absurd (cc)
  >>=-eq-ok (ok a) next h = (a, refl, h)

  -- Where a failed chain has failed.
  pub >>=-eq-err :
      {A B : Type 0} (first : Result E A) (next : A → Result E B) {e : E}
      → (first >>= next) ≡ err e
      → (first ≡ err e) ⊎ ((a : A) × (first ≡ ok a) × (next a ≡ err e))
  >>=-eq-err (err e) next h = inl (cc)
  >>=-eq-err (ok a) next h = inr (a, refl, h)

  pub ok-inj : {A : Type 0} {a b : A} → ◌≡◌ {A = Result E A} (ok a) (ok b) → a ≡ b
  ok-inj h = cc

  abbrev pub ◌>>◌ : {B : Type 0} → Result E (Unit {0}) → Result E B → Result E B
  first >> second = first >>= λ done. second
