-- ===== src/Jobspec/Yaml.antt =====
-- A document as `yaml-cpp` presents it: the kinds of nodes, `operator[]` by a key, and `size`. The
-- conversions of `as` are parameters.
use resource_query.Prelude.{
  ℕ, suc, ℤ, String, List, Bool, true, false, Option, none, some, ◌=?◌, string_key, if◌then◌else◌,
  ltb,
}

mutual
  pub data Node : Type 0 where
    null : Node
    scalar : String → Node
    sequence : Nodes → Node
    mapping : Pairs → Node

  pub data Nodes : Type 0 where
    no_items : Nodes
    item : Node → Nodes → Nodes

  pub data Pairs : Type 0 where
    no_pairs : Pairs
    pair : Node → Node → Pairs → Pairs

pub record Conversions : Type 0 where
  pub as_unsigned : Node → Option ℕ
  pub as_int : Node → Option ℤ
  pub as_char : Node → Option ℕ
  pub as_string : Node → Option String
  pub as_strings : Node → Option (List String)

abbrev pub is_null : Node → Bool
is_null null = true
is_null _ = false

abbrev pub is_scalar : Node → Bool
is_scalar (scalar s) = true
is_scalar _ = false

abbrev pub is_sequence : Node → Bool
is_sequence (sequence ns) = true
is_sequence _ = false

abbrev pub is_map : Node → Bool
is_map (mapping ps) = true
is_map _ = false

abbrev pub is_key : String → Node → Bool
is_key k (scalar s) = k =? s
is_key k _ = false

unfoldable pub find : String → Pairs → Option Node
find k no_pairs = none
find k (pair key value rest) = if is_key k key then some value else find k rest

unfoldable pub field : Node → String → Option Node
unfolding find
field (mapping ps) k = find k ps
field _ k = none

abbrev pub items : Node → Nodes
items (sequence ns) = ns
items _ = no_items

abbrev pub pairs : Node → Pairs
pairs (mapping ps) = ps
pairs _ = no_pairs

abbrev pub pair_count : Pairs → ℕ
pair_count no_pairs = 0
pair_count (pair _ _ rest) = suc (pair_count rest)

-- `size` of a mapping.
abbrev pub size : Node → ℕ
size (mapping ps) = pair_count ps
size _ = 0

abbrev max : ℕ → ℕ → ℕ
max a b = if ltb a b then b else a

-- How deeply the values are nested.
unfoldable mutual
  pub depth : Node → ℕ
  depth null = 0
  depth (scalar s) = 0
  depth (sequence ns) = suc (depth_items ns)
  depth (mapping ps) = suc (depth_pairs ps)

  pub depth_items : Nodes → ℕ
  depth_items no_items = 0
  depth_items (item n ns) = max (depth n) (depth_items ns)

  pub depth_pairs : Pairs → ℕ
  depth_pairs no_pairs = 0
  depth_pairs (pair k v ps) = max (depth v) (depth_pairs ps)
