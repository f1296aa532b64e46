-- ===== src/KeysEnv.antt =====
-- internal/keysenv/keysenv.go: the parser of keys.env. The input is the list of lines that the
-- scanner finds, a white-space byte is one of the six of ASCII, and the map of keys is an association
-- list. A failure is its kind, without its text; opening and reading the file are left out.
pub mod Sound
use llm_pico.Common.{
  ◌==◌, ◌||◌, ◌&&◌, leb, some, true, false, [], if◌then◌else◌, none, Bool, Option, ◌∷◌, ℕ, List,
}
use llm_pico.Common.Bytes.{codes, bytes_eq, Bytes}
use llm_pico.Common.Text.{split, trim_space, drop_empty}

abbrev pub is_hash : Bytes → Bool
is_hash [] = false
is_hash (b ∷ bs) = b == b'#'

-- What stands before the first " #", if there is one.
unfoldable pub before_comment : Bytes → Option Bytes
before_comment [] = none
before_comment (b ∷ bs) =
    let rest = before_comment bs in
    if b == 32 && is_hash bs then some [] else elim rest [ none ↦ none | some r ↦ some (b ∷ r) ]

-- `strings.Cut` at the first '='.
unfoldable pub cut : Bytes → Option (Bytes × Bytes)
cut [] = none
cut (b ∷ bs) =
    let rest = cut bs in
    if b == b'=' then some ([], bs) else elim rest [ none ↦ none | some p ↦ some (b ∷ p.0, p.1) ]

-- `splitList`.
unfoldable pub split_list : Bytes → List Bytes
split_list v = let (part, parts) = split v in drop_empty (part ∷ parts)

abbrev pub is_quote : ℕ → Bool
is_quote b = b == b'"' || b == 39

-- All but the last byte, if the last byte is `q`.
unfoldable pub before_last : ℕ → Bytes → Option Bytes
before_last q [] = none
before_last q (b ∷ []) = if b == q then some [] else none
before_last q (b ∷ c ∷ cs) = elim (before_last q (c ∷ cs)) [ none ↦ none | some r ↦ some (b ∷ r) ]

-- `unquote`.
unfoldable pub unquote : Bytes → Bytes
unquote [] = []
unquote (b ∷ bs) =
    if is_quote b then elim (before_last b bs) [ none ↦ b ∷ bs | some r ↦ r ] else b ∷ bs

abbrev pub is_upper : ℕ → Bool
is_upper b = leb b'A' b && leb b b'Z'

abbrev pub is_name_byte : ℕ → Bool
is_name_byte b = is_upper b || (leb b'0' b && leb b b'9') || b == b'_'

-- Name bytes, with "_KEY" at the end.
unfoldable pub ends_in_key : Bytes → Bool
ends_in_key [] = false
ends_in_key (b ∷ bs) = bytes_eq (b ∷ bs) (codes "_KEY") || (is_name_byte b && ends_in_key bs)

-- The expression `^[A-Z][A-Z0-9_]*_KEY$`.
unfoldable pub upstream_name : Bytes → Bool
upstream_name [] = false
upstream_name (b ∷ bs) = is_upper b && ends_in_key bs

pub record File : Type 0 where
  pub proxy_keys : List Bytes
  pub keys : List (Bytes × Bytes)

unfoldable pub set_key : Bytes → Bytes → List (Bytes × Bytes) → List (Bytes × Bytes)
set_key n v [] = (n, v) ∷ []
set_key n v (p ∷ ps) = let rest = set_key n v ps in if bytes_eq p.0 n then (n, v) ∷ ps else p ∷ rest

pub data ParseError : Type 0 where
  no_equals empty_value no_entries : ParseError

pub data Parsed : Type 0 where
  file : File → Parsed
  failed : ParseError → Parsed

-- The switch over the name. Names of environment proxies and unknown names change nothing.
unfoldable pub assign_name : Bytes → Bytes → File → File
assign_name name value f =
    if bytes_eq name (codes "PROXY_KEYS")
    then record f { proxy_keys = split_list value }
    else if upstream_name name
    then record f { keys = set_key name value f.keys }
    else f

unfoldable pub parse_pair : Bytes → Bytes → File → Parsed
parse_pair name value f = elim value [
  | [] ↦ Parsed.failed ParseError.empty_value
  | b ∷ bs ↦ Parsed.file (assign_name name (b ∷ bs) f)
]

unfoldable pub without_comment : Bytes → Bytes
without_comment text = elim (before_comment text) [ none ↦ text | some t ↦ trim_space t ]

-- One turn of the loop of `Parse`, on the trimmed line.
unfoldable pub parse_text : Bytes → File → Parsed
parse_text text f =
    if bytes_eq text [] || is_hash text then Parsed.file f else elim (cut (without_comment text)) [
      | none ↦ Parsed.failed ParseError.no_equals
      | some p ↦ parse_pair (trim_space p.0) (unquote (trim_space p.1)) f
    ]

unfoldable pub parse_from : List Bytes → File → Parsed
parse_from [] f = Parsed.file f
parse_from (l ∷ ls) f = elim (parse_text (trim_space l) f) [
  | Parsed.failed e ↦ Parsed.failed e
  | Parsed.file f' ↦ parse_from ls f'
]

abbrev pub is_empty {ℓ} : {A : Type ℓ} → List A → Bool
is_empty [] = true
is_empty (x ∷ xs) = false

abbrev pub check_entries : Parsed → Parsed
check_entries (Parsed.failed e) = Parsed.failed e
check_entries (Parsed.file f) =
    if is_empty f.proxy_keys && is_empty f.keys
    then Parsed.failed ParseError.no_entries
    else Parsed.file f

-- `Parse`.
unfoldable pub parse : List Bytes → Parsed
parse ls = check_entries (parse_from ls (record { proxy_keys = []; keys = [] }))
