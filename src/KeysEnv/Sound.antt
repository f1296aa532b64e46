-- ===== src/KeysEnv/Sound.antt =====
-- internal/keysenv/keysenv.go: what a file that `Parse` accepts holds.
use llm_pico.Common.{
  ◌∙◌, ◌||◌, sym, ap, some, false, none, ◌&&◌, refl, Option, ◌⊎◌, inr, inl, true, ◌≡◌, arith, [],
  List, ◌≢◌, ◌∷◌, Bool-cases, All,
}
use llm_pico.Common.Bytes.{codes, bytes_eq, Bytes}
use llm_pico.Common.Text.{trim_space, drop_empty, split}
use llm_pico.KeysEnv.{
  without_comment, cut, is_hash, unquote, ParseError, is_empty, parse_from, parse_text, parse,
  check_entries, upstream_name, File, set_key, parse_pair, assign_name, split_list, Parsed,
}
use mathlib.Core.Path.{subst}

abbrev pub NotEmpty : Bytes → Type 0
NotEmpty v = v ≢ []

-- A name and a value as the upstream credentials must have them.
abbrev pub GoodKey : Bytes × Bytes → Type 0
GoodKey p = (upstream_name p.0 ≡ true) × NotEmpty p.1

pub record IsUsable (f : File) : Type 0 where
  pub clients : All NotEmpty f.proxy_keys
  pub upstreams : All GoodKey f.keys

drop_empty-NotEmpty : (ps : List Bytes) → All NotEmpty (drop_empty ps)
unfolding drop_empty
drop_empty-NotEmpty [] = tt
drop_empty-NotEmpty (p ∷ ps) = add (trim_space p) (drop_empty-NotEmpty ps)
  where
    add :
        (t : Bytes)
        → All NotEmpty (drop_empty ps)
        → All NotEmpty
            (elim t as (λ _. List Bytes) [ [] ↦ drop_empty ps | b ∷ bs ↦ (b ∷ bs) ∷ drop_empty ps ])
    add [] h = h
    add (b ∷ bs) h = (λ e. ground (arith, e), h)

split_list-NotEmpty : (v : Bytes) → All NotEmpty (split_list v)
unfolding split_list
split_list-NotEmpty v = drop_empty-NotEmpty ((split v).0 ∷ (split v).1)

set_key-GoodKey :
    (n v : Bytes) (ps : List (Bytes × Bytes))
    → GoodKey (n, v)
    → All GoodKey ps
    → All GoodKey (set_key n v ps)
unfolding set_key
set_key-GoodKey n v [] g h = (g, tt)
set_key-GoodKey n v (p ∷ ps) g (x, xs) = elim (Bool-cases (bytes_eq p.0 n)) [
  | inl same ↦ rw same (g, xs)
  | inr other ↦ rw other (x, set_key-GoodKey n v ps g xs)
]

assign_name-IsUsable :
    (name value : Bytes) (f : File)
    → NotEmpty value
    → IsUsable f
    → IsUsable (assign_name name value f)
unfolding assign_name
assign_name-IsUsable name value f h s = elim (Bool-cases (bytes_eq name (codes "PROXY_KEYS"))) [
  | inl proxy ↦ rw proxy (record { clients = split_list-NotEmpty value; upstreams = s.upstreams })
  | inr other ↦ elim (Bool-cases (upstream_name name)) [
    | inl good ↦ rw other (
        rw good (record {
          clients = s.clients;
          upstreams = set_key-GoodKey name value f.keys (good, h) s.upstreams;
        }))
    | inr bad ↦ rw other (rw bad s)
  ]
]

-- A result that is an error or a sound file.
abbrev pub SoundOrFailed : Parsed → Type 0
SoundOrFailed (Parsed.file f) = IsUsable f
SoundOrFailed (Parsed.failed e) = Unit

parse_pair-Sound :
    (name value : Bytes) (f : File) → IsUsable f → SoundOrFailed (parse_pair name value f)
unfolding parse_pair
parse_pair-Sound name [] f s = tt
parse_pair-Sound name (b ∷ bs) f s = assign_name-IsUsable name (b ∷ bs) f (λ e. ground (arith, e)) s

parse_text-Sound : (text : Bytes) (f : File) → IsUsable f → SoundOrFailed (parse_text text f)
unfolding parse_text
parse_text-Sound text f s = elim (Bool-cases (bytes_eq text [] || is_hash text)) [
  | inl blank ↦ rw blank s
  | inr other ↦ rw other (pair (cut (without_comment text)))
]
  where
    pair :
        (o : Option (Bytes × Bytes))
        → SoundOrFailed (elim o as (λ _. Parsed) [
          | none ↦ Parsed.failed ParseError.no_equals
          | some p ↦ parse_pair (trim_space p.0) (unquote (trim_space p.1)) f
        ])
    pair none = tt
    pair (some p) = parse_pair-Sound (trim_space p.0) (unquote (trim_space p.1)) f s

Parsed-cases :
    (r : Parsed) → ((f : File) × (r ≡ Parsed.file f)) ⊎ ((e : ParseError) × (r ≡ Parsed.failed e))
Parsed-cases (Parsed.file f) = inl (f, refl)
Parsed-cases (Parsed.failed e) = inr (e, refl)

parse_from-Sound : (ls : List Bytes) (f : File) → IsUsable f → SoundOrFailed (parse_from ls f)
unfolding parse_from
parse_from-Sound [] f s = s
parse_from-Sound (l ∷ ls) f s = elim (Parsed-cases (parse_text (trim_space l) f)) [
  | inl (f', q) ↦
      rw (q, parse_from)
        (parse_from-Sound ls f' (subst SoundOrFailed q (parse_text-Sound (trim_space l) f s)))
  | inr (e, q) ↦ rw (q, parse_from) tt
]

checked_entries :
    (r : Parsed) (f : File)
    → SoundOrFailed r
    → check_entries r ≡ Parsed.file f
    → IsUsable f × ((is_empty f.proxy_keys && is_empty f.keys) ≡ false)
checked_entries (Parsed.failed e) f s h = ground (arith, h)
checked_entries (Parsed.file g) f s h =
    elim (Bool-cases (is_empty g.proxy_keys && is_empty g.keys)) [
      | inl nothing ↦ ground (arith, nothing, h)
      | inr held ↦
          let same : g ≡ f = ground (arith, held, h) in
          (
            subst IsUsable same s,
            ap (λ (f : File). is_empty f.proxy_keys && is_empty f.keys) (sym same) ∙ held,
          )
    ]

-- A file that `Parse` accepts holds at least one client key or upstream credential; no client key
-- and no value is empty, and every credential's name has the form of an upstream name.
pub parse-IsUsable :
    (ls : List Bytes) (f : File)
    → parse ls ≡ Parsed.file f
    → IsUsable f × ((is_empty f.proxy_keys && is_empty f.keys) ≡ false)
unfolding parse
parse-IsUsable ls f h =
    checked_entries (parse_from ls (record { proxy_keys = []; keys = [] })) f
      (parse_from-Sound ls (record { proxy_keys = []; keys = [] })
        (record { clients = tt; upstreams = tt }))
      h
