-- ===== src/Config/Yaml.antt =====
-- internal/config/load.go: the accessors of YAML nodes. A node is the part of `yaml.Node` that they
-- read; parsing and decoding are the library's, which the model takes as parameters.
use llm_pico.Common.{List, Bool, Option, true, none, some, if◌then◌else◌, [], false, ◌∷◌, ◌&&◌}
use llm_pico.Common.Bytes.{Bytes, bytes_eq, codes}
use llm_pico.Common.Signed.{ℤ}
use llm_pico.Common.Text.{drop_empty, trim_space, split}

pub data NodeKind : Type 0 where
  document sequence mapping scalar alias : NodeKind

-- A node has its kind, tag, value and content.
mutual
  pub data Node : Type 0 where
    node : NodeKind → Bytes → Bytes → Nodes → Node

  pub data Nodes : Type 0 where
    nil : Nodes
    cons : Node → Nodes → Nodes

-- `yaml.Unmarshal` into a node, and `Decode` of a node into an integer or a Boolean.
pub record Yaml : Type 0 where
  pub parse : Bytes → Option Node
  pub decode_int : Node → Option ℤ
  pub decode_bool : Node → Option Bool

abbrev pub node_kind : Node → NodeKind
node_kind (node k t v ns) = k

abbrev pub tag_of : Node → Bytes
tag_of (node k t v ns) = t

abbrev pub value_of : Node → Bytes
value_of (node k t v ns) = v

abbrev pub content : Node → Nodes
content (node k t v ns) = ns

abbrev pub is_scalar : NodeKind → Bool
is_scalar NodeKind.scalar = true
is_scalar _ = false

abbrev pub is_mapping : NodeKind → Bool
is_mapping NodeKind.mapping = true
is_mapping _ = false

-- The loop of `entries`, two nodes at a time.
unfoldable pub pairs : Nodes → List (Bytes × Node)
pairs nil = []
pairs (cons k nil) = []
pairs (cons k (cons v ns)) = (value_of k, v) ∷ pairs ns

unfoldable pub entries : Node → List (Bytes × Node)
entries n = if is_mapping (node_kind n) then pairs (content n) else []

unfoldable pub first_named : List (Bytes × Node) → Bytes → Option Node
first_named [] name = none
first_named ((k, v) ∷ es) name = if bytes_eq k name then some v else first_named es name

-- `node`.
unfoldable pub node_named : Node → Bytes → Option Node
node_named n name = first_named (entries n) name

unfoldable pub str : Node → Bytes → Bytes
str n name = elim (node_named n name) [
  | none ↦ []
  | some v ↦ if is_scalar (node_kind v) then trim_space (value_of v) else []
]

-- `intField`.
unfoldable pub int_field : Yaml → Node → Bytes → Option ℤ
int_field y n name = elim (node_named n name) [
  | none ↦ none
  | some v ↦ if is_scalar (node_kind v) then y.decode_int v else none
]

-- The first node of a document's content, or the node itself.
abbrev pub first_content : Nodes → Option Node
first_content nil = none
first_content (cons n ns) = some n

abbrev pub body_of : Node → Option Node
body_of (node NodeKind.document t v ns) = first_content ns
body_of (node NodeKind.sequence t v ns) = some (node NodeKind.sequence t v ns)
body_of (node NodeKind.mapping t v ns) = some (node NodeKind.mapping t v ns)
body_of (node NodeKind.scalar t v ns) = some (node NodeKind.scalar t v ns)
body_of (node NodeKind.alias t v ns) = some (node NodeKind.alias t v ns)

-- `docValue`.
unfoldable pub doc_value : Node → Bytes → Option Node
doc_value n name = elim (body_of n) [ none ↦ none | some b ↦ node_named b name ]

-- `commaList`.
unfoldable pub comma_list : Bytes → List Bytes
comma_list v = drop_empty ((split v).0 ∷ (split v).1)

-- The values of a sequence of scalars, trimmed, without the empty ones; or nothing, if a node of
-- another kind stands among them.
unfoldable pub scalar_items : Nodes → Option (List Bytes)
scalar_items nil = some []
scalar_items (cons n ns) =
    let rest = scalar_items ns in
    if is_scalar (node_kind n)
    then elim rest [
      | none ↦ none
      | some vs ↦ elim (trim_space (value_of n)) [ [] ↦ some vs | b ∷ bs ↦ some ((b ∷ bs) ∷ vs) ]
    ]
    else none

-- A list of names: a sequence, or a scalar of names joined by commas. `nameList`.
unfoldable pub name_list : Node → Option (List Bytes)
name_list (node NodeKind.sequence t v ns) = scalar_items ns
name_list (node NodeKind.scalar t v ns) = some (comma_list v)
name_list (node NodeKind.document t v ns) = none
name_list (node NodeKind.mapping t v ns) = none
name_list (node NodeKind.alias t v ns) = none

-- `keysField`: the same with a missing or null node for no names.
unfoldable pub keys_field : Option Node → Option (List Bytes)
keys_field none = some []
keys_field (some n) =
    if is_scalar (node_kind n) && bytes_eq (tag_of n) (codes "!!null") then some [] else name_list n
