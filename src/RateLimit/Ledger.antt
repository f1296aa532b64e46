-- ===== src/RateLimit/Ledger.antt =====
-- internal/ratelimit/ratelimit.go: the limiter seen as a ledger, the balance of every key in the
-- bucket of the current time, and what one locked section does to it.
use llm_pico.Common.{
  ◌∙◌, ◌-◌, false, Option-cases, ℕ, ◌≡◌, refl, sym, ap, true, Option, none, some, arith, ==_iff,
  Bool-cases, inl, inr, if◌then◌else◌,
}
use llm_pico.Common.Signed.{sub64, add64, max_zero, ltb_ℤ, ℤ, pos}
use llm_pico.RateLimit.Types.{
  window_end, Window, Counter, Cell, CellKey, at, key_eq, label_eq, window_start,
}
use llm_pico.RateLimit.Keys.{label_eq_refl, key_eq→eq}
use llm_pico.RateLimit.Limiter.{
  adjust, purge_stale, Attempt, give_back, try_charge, counter_for, fresh, Limiter, shard_for, read,
  write, usage,
}

abbrev pub Ledger : Type 0
Ledger = CellKey → ℤ

-- The count of an entry, if it belongs to the bucket of `now`.
abbrev pub current : Option Counter → CellKey → ℕ → ℤ
current o k now = elim o [
  | none ↦ pos 0
  | some c ↦ if label_eq c.window_start (window_start k.window now) then c.count else pos 0
]

unfoldable pub balance : Limiter → ℕ → Ledger
balance l now k = current (read l k) k now

-- A ledger with one entry replaced.
unfoldable pub entered : Ledger → CellKey → ℤ → Ledger
entered L k v j = if key_eq k j then v else L j

pub usage-eq-balance :
    (l : Limiter) (c : Cell) (w : Window) (now : ℕ) → usage l c w now ≡ balance l now (at c w)
unfolding usage balance
usage-eq-balance l c w now = refl

-- Reading after a write: the shards do not show.
pub read-write :
    (l : Limiter) (k j : CellKey) (v : Counter)
    → read (write l k v) j ≡ (if key_eq k j then some v else read l j)
unfolding read write
read-write l k j v = elim (Bool-cases (key_eq k j)) [
  | inl same ↦
      rw (same, ap shard_for (sym (key_eq→eq k j same)))
        (rw ((==_iff (shard_for k) (shard_for k)).1 refl))
  | inr other ↦ ground arith
]

pub balance-write :
    (l : Limiter) (k : CellKey) (v : Counter) (now : ℕ) (j : CellKey)
    → label_eq v.window_start (window_start k.window now) ≡ true
    → balance (write l k v) now j ≡ entered (balance l now) k v.count j
unfolding balance entered
balance-write l k v now j h = elim (Bool-cases (key_eq k j)) [
  | inl same ↦ ground (arith, read-write l k j v, key_eq→eq k j same)
  | inr other ↦ ground (arith, read-write l k j v)
]

-- Opening the counter of a key shows in no balance, and the counter is the balance of its key.
record Opened (l l' : Limiter) (k : CellKey) (c : Counter) (now : ℕ) : Type 0 where
  current_label : label_eq c.window_start (window_start k.window now) ≡ true
  count : c.count ≡ balance l now k
  others : (j : CellKey) → balance l' now j ≡ balance l now j

fresh-Opened :
    (l : Limiter) (k : CellKey) (now : ℕ)
    → balance l now k ≡ pos 0
    → Opened l (write l k (fresh k now)) k (fresh k now) now
unfolding entered
fresh-Opened l k now h = record {
  current_label = label_eq_refl (window_start k.window now);
  count = sym h;
  others = λ j. ground (
    arith,
    balance-write l k (fresh k now) now j (label_eq_refl (window_start k.window now)),
    key_eq→eq k j,
  );
}

counter_for-Opened :
    (l : Limiter) (k : CellKey) (now : ℕ)
    → Opened l (counter_for l k now).1 k (counter_for l k now).0 now
unfolding counter_for balance
counter_for-Opened l k now = elim (Option-cases (read l k)) [
  | inl e ↦ rw (e, counter_for) (fresh-Opened l k now (unfold balance in rw e))
  | inr (c, e) ↦ elim (Bool-cases (label_eq c.window_start (window_start k.window now))) [
    | inl here ↦
        rw (e, counter_for)
          (rw here (record {
            current_label = here;
            count = unfold balance in rw e (rw here);
            others = λ j. refl;
          }))
    | inr past ↦
        rw (e, counter_for) (rw past (fresh-Opened l k now (unfold balance in rw e (rw past))))
  ]
]

-- Giving an amount back lowers the balance of its key, down to zero, and shows nowhere else.
pub balance-give_back :
    (l : Limiter) (k : CellKey) (a : ℤ) (now : ℕ) (j : CellKey)
    → max_zero (sub64 (pos 0) a) ≡ pos 0
    → balance (give_back l k a now) now j
      ≡ entered (balance l now) k (max_zero (sub64 (balance l now k) a)) j
unfolding give_back balance entered
balance-give_back l k a now j h = elim (Option-cases (read l k)) [
  | inl e ↦ rw (e, give_back) (ground (arith, key_eq→eq k j))
  | inr (c, e) ↦ elim (Bool-cases (label_eq c.window_start (window_start k.window now))) [
    | inl here ↦
        rw (e, give_back)
          (rw here (
            ground (
              arith,
              read-write l k j (record c { count = max_zero (sub64 c.count a) }),
              key_eq→eq k j,
            )))
    | inr past ↦ rw (e, give_back) (rw past (ground (arith, key_eq→eq k j)))
  ]
]

-- Storing an opened counter with a new count.
balance-count :
    (l l' : Limiter) (k : CellKey) (c : Counter) (f : ℤ → ℤ) (now : ℕ)
    → Opened l l' k c now
    → (j : CellKey)
    → balance (write l' k (record c { count = f c.count })) now j
      ≡ entered (balance l now) k (f (balance l now k)) j
balance-count l l' k c f now o j =
    balance-write l' k (record c { count = f c.count }) now j o.current_label
    ∙ (unfold entered in ground (arith, o.count, o.others j))

-- `Reconcile` on one counter.
pub balance-adjust :
    (l : Limiter) (k : CellKey) (delta : ℤ) (now : ℕ) (j : CellKey)
    → balance (adjust l k delta now) now j
      ≡ entered (balance l now) k (max_zero (add64 (balance l now k) delta)) j
unfolding adjust
balance-adjust l k delta now j =
    balance-count l _ k (counter_for l k now).0 (λ b. max_zero (add64 b delta)) now
      (counter_for-Opened l k now) j

-- Purging shows in no balance.
pub balance-purge_stale :
    (l : Limiter) (now : ℕ) (j : CellKey) → balance (purge_stale l now) now j ≡ balance l now j
unfolding balance purge_stale read
balance-purge_stale l now j = ground arith

-- What a locked section of the check does: it charges the key's balance where there is room, and
-- refuses with that balance where there is none.
pub data Tried (l : Limiter) (k : CellKey) (limit amount : ℤ) (now : ℕ) (r : Attempt) : Type 0 where
  room :
      (l' : Limiter)
      → r ≡ Attempt.charged l'
      → ltb_ℤ limit (add64 (balance l now k) amount) ≡ false
      → ((j : CellKey)
          → balance l' now j ≡ entered (balance l now) k (add64 (balance l now k) amount) j)
      → Tried l k limit amount now r
  full :
      (l' : Limiter)
      → r
        ≡ Attempt.refused l' (record {
          window = k.window;
          limit = limit;
          count = balance l now k;
          retry_after = window_end k.window now - now;
        })
      → ltb_ℤ limit (add64 (balance l now k) amount) ≡ true
      → ((j : CellKey) → balance l' now j ≡ balance l now j)
      → Tried l k limit amount now r

pub try_charge-Tried :
    (l : Limiter) (k : CellKey) (limit amount : ℤ) (now : ℕ)
    → Tried l k limit amount now (try_charge l k limit amount now)
unfolding try_charge
try_charge-Tried l k limit amount now = go (counter_for-Opened l k now)
  where
    go :
        Opened l (counter_for l k now).1 k (counter_for l k now).0 now
        → Tried l k limit amount now (try_charge l k limit amount now)
    go o = elim (Bool-cases (ltb_ℤ limit (add64 (balance l now k) amount))) [
      | inl over ↦ full (counter_for l k now).1 (ground (arith, o.count, over)) over o.others
      | inr fits ↦
          room
            (write (counter_for l k now).1 k (record (counter_for l k now).0 {
              count = add64 (counter_for l k now).0.count amount;
            }))
            (ground (arith, o.count, fits)) fits
            (balance-count l _ k (counter_for l k now).0 (λ b. add64 b amount) now o)
    ]
