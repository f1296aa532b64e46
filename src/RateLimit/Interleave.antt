-- ===== src/RateLimit/Interleave.antt =====
-- internal/ratelimit/ratelimit.go: the limiter under concurrent callers. A mutex guards each locked
-- section, so a run of several callers is a sequence of sections, each at its own time.
use llm_pico.Common.{
  [], suc, ◌∷◌, All, refl, inr, ◌-◌, Bool-cases, some, inl, Option-cases, List, ℕ, ◌+◌, ◌≤◌, ◌≡◌,
  arith, ◌<◌, ◌^◌, if◌then◌else◌, ap,
}
use llm_pico.Common.Signed.{
  ltb_ℤ, max_zero-add64_neg, add64-pos, max_zero-sub64, add64, negsuc, pos, ℤ, max_zero,
}
use llm_pico.RateLimit.Keys.{key_eq→eq, key_eq_refl}
use llm_pico.RateLimit.Ledger.{read-write}
use llm_pico.RateLimit.Limiter.{
  purge_stale, adjust, fresh, write, give_back, Attempt, read, try_charge, counter_for, Limiter,
  new,
}
use llm_pico.RateLimit.Types.{window_start, label_eq, key_eq, Counter, CellKey}
use mathlib.Core.Path.{subst}

-- One locked section: of `CheckAndReserve`, of a rollback or `Refund`, of `Reconcile`, or a purge.
pub data Section : Type 0 where
  charge : CellKey → ℤ → ℤ → Section
  giving_back : CellKey → ℤ → Section
  adjusting : CellKey → ℤ → Section
  purging : Section

abbrev pub limiter_after : Limiter → Attempt → Limiter
limiter_after l (Attempt.charged l') = l'
limiter_after l (Attempt.refused l' r) = l'

unfoldable pub perform : Limiter → ℕ → Section → Limiter
perform l now (charge k limit amount) = limiter_after l (try_charge l k limit amount now)
perform l now (giving_back k amount) = give_back l k amount now
perform l now (adjusting k delta) = adjust l k delta now
perform l now purging = purge_stale l now

unfoldable pub perform_all : Limiter → List (ℕ × Section) → Limiter
perform_all l [] = l
perform_all l ((now, s) ∷ ss) = perform_all (perform l now s) ss

-- What a section settles a key above its reservation.
unfoldable pub overrun : CellKey → Section → ℕ
overrun k (charge j limit amount) = 0
overrun k (giving_back j amount) = 0
overrun k (adjusting j (pos d)) = if key_eq j k then d else 0
overrun k (adjusting j (negsuc d)) = 0
overrun k purging = 0

unfoldable pub overruns : CellKey → List (ℕ × Section) → ℕ
overruns k [] = 0
overruns k (x ∷ ss) = overrun k x.1 + overruns k ss

-- The sections that a program with one fixed limit for each key performs: a request is checked against
-- its key's limit, and amounts are not negative and leave room in 64 bits.
abbrev pub Obeys : (CellKey → ℕ) → (CellKey → ℕ) → Section → Type 0
Obeys ceiling room (charge k limit amount) =
    (limit ≡ pos (ceiling k)) × ((a : ℕ) × (amount ≡ pos a) × (room k + a < 2 ^ 63))
Obeys ceiling room (giving_back k amount) = (a : ℕ) × (amount ≡ pos a) × (a < 2 ^ 63)
Obeys ceiling room (adjusting k (pos d)) = Unit
Obeys ceiling room (adjusting k (negsuc d)) = d < 2 ^ 63 - 1
Obeys ceiling room purging = Unit

-- A counter between zero and a limit.
abbrev pub Within : ℕ → ℤ → Type 0
Within m z = (n : ℕ) × (z ≡ pos n) × (n ≤ m)

pub record IsCapped (ceiling : CellKey → ℕ) (l : Limiter) : Type 0 where
  pub within : (k : CellKey) (c : Counter) → read l k ≡ some c → Within (ceiling k) c.count

new-IsCapped : (ceiling : CellKey → ℕ) → IsCapped ceiling new
unfolding new read
new-IsCapped ceiling = record { within = λ k c h. absurd (cc) }

weaken-IsCapped :
    (low high : CellKey → ℕ) (l : Limiter)
    → ((k : CellKey) → low k ≤ high k)
    → IsCapped low l
    → IsCapped high l
weaken-IsCapped low high l h inv = record {
  within = λ k c e. let (n, q, le) = inv.within k c e in (n, q, omega (arith, h k));
}

-- Writing a counter that is within its key's limit.
write-IsCapped :
    (ceiling : CellKey → ℕ) (l : Limiter) (k : CellKey) (v : Counter)
    → IsCapped ceiling l
    → Within (ceiling k) v.count
    → IsCapped ceiling (write l k v)
write-IsCapped ceiling l k v inv h = record {
  within = λ j c e. elim (Bool-cases (key_eq k j)) [
    | inl same ↦
        let stored : v ≡ c = ground (arith, read-write l k j v) in
        subst (λ q. Within (ceiling q) c.count) (key_eq→eq k j same)
          (subst (λ (x : Counter). Within (ceiling k) x.count) stored h)
    | inr other ↦ inv.within j c (ground (arith, read-write l k j v))
  ];
}

counter_for-IsCapped :
    (ceiling : CellKey → ℕ) (l : Limiter) (k : CellKey) (now : ℕ)
    → IsCapped ceiling l
    → IsCapped ceiling (counter_for l k now).1 × Within (ceiling k) (counter_for l k now).0.count
unfolding counter_for
counter_for-IsCapped ceiling l k now inv = elim (Option-cases (read l k)) [
  | inl e ↦
      rw (e, counter_for)
        (
          write-IsCapped ceiling l k (fresh k now) inv (0, refl, omega arith),
          (0, refl, omega arith),
        )
  | inr (c, e) ↦ elim (Bool-cases (label_eq c.window_start (window_start k.window now))) [
    | inl here ↦ rw (e, counter_for) (rw here (inv, inv.within k c e))
    | inr past ↦
        rw (e, counter_for)
          (rw past (
            write-IsCapped ceiling l k (fresh k now) inv (0, refl, omega arith),
            (0, refl, omega arith),
          ))
  ]
]

try_charge-IsCapped :
    (ceiling : CellKey → ℕ) (l : Limiter) (k : CellKey) (m a now : ℕ)
    → IsCapped ceiling l
    → m ≤ ceiling k
    → ceiling k + a < 2 ^ 63
    → IsCapped ceiling (limiter_after l (try_charge l k (pos m) (pos a) now))
unfolding try_charge
try_charge-IsCapped ceiling l k m a now inv low h =
    let (opened, (n, e, le)) = counter_for-IsCapped ceiling l k now inv in
    let sum : add64 (counter_for l k now).0.count (pos a) ≡ pos (n + a) =
      rw e (add64-pos n a (omega arith)) in
    elim (Bool-cases (ltb_ℤ (pos m) (pos (n + a)))) [
      | inl over ↦ rw sum (rw over opened)
      | inr fits ↦
          rw sum (rw fits (write-IsCapped ceiling _ k _ opened (n + a, refl, ground arith)))
    ]

give_back-IsCapped :
    (ceiling : CellKey → ℕ) (l : Limiter) (k : CellKey) (a now : ℕ)
    → ceiling k < 2 ^ 63
    → a < 2 ^ 63
    → IsCapped ceiling l
    → IsCapped ceiling (give_back l k (pos a) now)
unfolding give_back
give_back-IsCapped ceiling l k a now hc ha inv = elim (Option-cases (read l k)) [
  | inl e ↦ rw (e, give_back) inv
  | inr (c, e) ↦ elim (Bool-cases (label_eq c.window_start (window_start k.window now))) [
    | inl here ↦
        let (n, q, le) = inv.within k c e in
        rw (e, give_back)
          (rw here (
            write-IsCapped ceiling l k _ inv
              (n - a, rw q (max_zero-sub64 n a (omega arith) ha), omega arith)))
    | inr past ↦ rw (e, give_back) (rw past inv)
  ]
]

adjust-IsCapped :
    (ceiling : CellKey → ℕ) (l : Limiter) (k : CellKey) (d now : ℕ)
    → ceiling k < 2 ^ 63
    → d < 2 ^ 63 - 1
    → IsCapped ceiling l
    → IsCapped ceiling (adjust l k (negsuc d) now)
unfolding adjust
adjust-IsCapped ceiling l k d now hc hd inv =
    let (opened, (n, e, le)) = counter_for-IsCapped ceiling l k now inv in
    write-IsCapped ceiling _ k _ opened
      (n - suc d, rw e (max_zero-add64_neg n d (omega arith) hd), omega arith)

-- A settlement above a reservation raises what its key may hold by as much.
raise-IsCapped :
    (ceiling : CellKey → ℕ) (l : Limiter) (k : CellKey) (d now : ℕ)
    → ceiling k + overrun k (adjusting k (pos d)) < 2 ^ 63
    → IsCapped ceiling l
    → IsCapped (λ j. ceiling j + overrun j (adjusting k (pos d))) (adjust l k (pos d) now)
unfolding adjust overrun
raise-IsCapped ceiling l k d now h inv =
    let (opened, (n, e, le)) = counter_for-IsCapped ceiling l k now inv in
    let all : overrun k (adjusting k (pos d)) ≡ d = rw (key_eq_refl k) refl in
    write-IsCapped (λ j. ceiling j + overrun j (adjusting k (pos d))) _ k _
      (weaken-IsCapped ceiling (λ j. ceiling j + overrun j (adjusting k (pos d))) _
        (λ j. omega arith) opened)
      (n + d, rw e (ap max_zero (add64-pos n d (omega arith))), omega arith)

purge_stale-IsCapped :
    (ceiling : CellKey → ℕ) (l : Limiter) (now : ℕ)
    → IsCapped ceiling l
    → IsCapped ceiling (purge_stale l now)
unfolding purge_stale read
purge_stale-IsCapped ceiling l now inv = record { within = λ k c e. inv.within k c (ground arith) }

perform-IsCapped :
    (ceiling room top : CellKey → ℕ) (l : Limiter) (now : ℕ) (s : Section)
    → ((k : CellKey) → ceiling k ≤ top k)
    → ((k : CellKey) → top k + overrun k s ≤ room k)
    → ((k : CellKey) → room k < 2 ^ 63)
    → Obeys ceiling room s
    → IsCapped top l
    → IsCapped (λ k. top k + overrun k s) (perform l now s)
unfolding perform overrun
perform-IsCapped ceiling room top l now (charge k limit amount) low fits hc (q, (a, e, h)) inv =
    weaken-IsCapped top (λ j. top j + 0) _ (λ j. omega arith)
      (rw (q, e)
        (try_charge-IsCapped top l k (ceiling k) a now inv (low k) (omega (arith, fits k))))
perform-IsCapped ceiling room top l now (giving_back k amount) low fits hc (a, e, h) inv =
    weaken-IsCapped top (λ j. top j + 0) _ (λ j. omega arith)
      (rw e (give_back-IsCapped top l k a now (omega (arith, fits k, hc k)) h inv))
perform-IsCapped ceiling room top l now (adjusting k (pos d)) low fits hc h inv =
    raise-IsCapped top l k d now (omega (arith, fits k, hc k)) inv
perform-IsCapped ceiling room top l now (adjusting k (negsuc d)) low fits hc h inv =
    weaken-IsCapped top (λ j. top j + 0) _ (λ j. omega arith)
      (adjust-IsCapped top l k d now (omega (arith, fits k, hc k)) h inv)
perform-IsCapped ceiling room top l now purging low fits hc h inv =
    weaken-IsCapped top (λ j. top j + 0) _ (λ j. omega arith) (purge_stale-IsCapped top l now inv)

perform_all-IsCapped :
    (ceiling room top : CellKey → ℕ) (l : Limiter) (ss : List (ℕ × Section))
    → ((k : CellKey) → ceiling k ≤ top k)
    → ((k : CellKey) → top k + overruns k ss ≤ room k)
    → ((k : CellKey) → room k < 2 ^ 63)
    → All (λ (x : ℕ × Section). Obeys ceiling room x.1) ss
    → IsCapped top l
    → IsCapped (λ k. top k + overruns k ss) (perform_all l ss)
unfolding perform_all overruns
perform_all-IsCapped ceiling room top l [] low fits hc h inv =
    weaken-IsCapped top (λ j. top j + 0) l (λ j. omega arith) inv
perform_all-IsCapped ceiling room top l ((now, s) ∷ ss) low fits hc h inv =
    weaken-IsCapped (λ k. top k + overrun k s + overruns k ss)
      (λ k. top k + (overrun k s + overruns k ss)) _ (λ k. omega arith)
      (perform_all-IsCapped ceiling room (λ k. top k + overrun k s) (perform l now s) ss
        (λ k. omega (arith, low k)) (λ k. omega (arith, fits k)) hc h.1
        (perform-IsCapped ceiling room top l now s low (λ k. omega (arith, fits k)) hc h.0 inv))

-- Whatever locked sections of however many callers run on a new limiter, in whatever order and at
-- whatever times, every stored counter is between zero and the sum of its key's limit and what
-- settlements have charged to the key above their reservations, so within the limit when there are
-- none. Each key has one limit, amounts are not negative, limit, settlements and one amount
-- together are below 2 ^ 63, and so is what is given back or settled below a reservation.
pub interleaving-IsCapped :
    (ceiling : CellKey → ℕ) (ss : List (ℕ × Section))
    → ((k : CellKey) → ceiling k + overruns k ss < 2 ^ 63)
    → All (λ (x : ℕ × Section). Obeys ceiling (λ k. ceiling k + overruns k ss) x.1) ss
    → IsCapped (λ k. ceiling k + overruns k ss) (perform_all new ss)
interleaving-IsCapped ceiling ss hc h =
    perform_all-IsCapped ceiling (λ k. ceiling k + overruns k ss) ceiling new ss (λ k. omega arith)
      (λ k. omega arith) hc h (new-IsCapped ceiling)
