-- ===== src/Jobspec/Parse/Resources.antt =====
-- `parse_yaml_count` and the constructor of `Resource`.
use resource_query.Prelude.{
  ℕ, zero, suc, ◌+◌, pos, String, List, [], ◌∷◌, Bool, ◌||◌, not, Option, none, some, string_key,
  ◌==◌, ◌=?◌, ltb, if◌then◌else◌,
}
use resource_query.Jobspec.{
  Tristate, no_exclusive, exclusive, unspecified, Count, Resource, node, of_list,
}
use resource_query.Jobspec.Result.{
  parse_error, too_deep, Result, parsed, thrown, ◌>>=◌, ◌>>◌, require, converted,
}
use resource_query.Jobspec.Yaml.{
  Node, Nodes, no_items, item, Conversions, is_scalar, is_sequence, is_map, field, items, size,
}

-- `if (!node[key]) throw …`
unfoldable pub required : Node → String → String → Result Node
required n key message = elim (field n key) [
  | none ↦ thrown (parse_error message)
  | some v ↦ parsed v
]

abbrev pub is_operator : ℕ → Bool
is_operator c = c == b'+' || c == b'*' || c == b'^'

abbrev pub one_if : Option Node → ℕ
one_if none = 0
one_if (some v) = 1

-- The text of an optional entry.
abbrev pub or_empty : Option String → String
or_empty none = ""
or_empty (some s) = s

module _ (yaml : Conversions) where
  -- A required entry that must be a scalar.
  unfoldable pub required_scalar : Node → String → String → String → Result Node
  unfolding required require
  required_scalar n key missing wrong = do
    v ← required n key missing
    require (is_scalar v) wrong
    parsed v

  -- The text of an entry that must be a scalar if it is there.
  unfoldable pub optional_scalar : Node → String → String → Result (Option String)
  unfolding require converted
  optional_scalar n key wrong = elim (field n key) [
    | none ↦ parsed none
    | some v ↦ do require (is_scalar v) wrong; s ← converted (yaml.as_string v); parsed (some s)
  ]

  -- The verbose form of a count.
  unfoldable pub parse_yaml_range : Node → Result Count
  unfolding required_scalar require converted
  parse_yaml_range n = do
    require (is_map n) "count is not a mapping"
    min_node ←
        required_scalar n "min" "Key \"min\" missing from count" "Value of \"min\" must be a scalar"
    max_node ←
        required_scalar n "max" "Key \"max\" missing from count" "Value of \"max\" must be a scalar"
    oper_node ←
        required_scalar n "operator" "Key \"operator\" missing from count"
          "Value of \"operator\" must be a scalar"
    operand_node ←
        required_scalar n "operand" "Key \"operand\" missing from count"
          "Value of \"operand\" must be a scalar"
    min ← converted (yaml.as_unsigned min_node)
    require (not (ltb min 1)) "\"min\" must be greater than zero"
    max ← converted (yaml.as_unsigned max_node)
    require (not (ltb max 1)) "\"max\" must be greater than zero"
    require (not (ltb max min)) "\"max\" must be greater than or equal to \"min\""
    oper ← converted (yaml.as_char oper_node)
    require (is_operator oper) "Invalid count operator"
    operand ← converted (yaml.as_int operand_node)
    parsed (record { min = min; max = max; oper = oper; operand = operand })

  -- A scalar is both bounds, and the step keeps its default.
  unfoldable pub parse_yaml_count : Node → Result Count
  unfolding parse_yaml_range converted
  parse_yaml_count n =
      if is_scalar n
      then (do
        min ← converted (yaml.as_unsigned n)
        parsed (record { min = min; max = min; oper = b'+'; operand = pos 1 }))
      else parse_yaml_range n

  unfoldable pub parse_exclusive : Node → Result Tristate
  unfolding require converted
  parse_exclusive n = elim (field n "exclusive") [
    | none ↦ parsed unspecified
    | some v ↦ do
      require (is_scalar v) "Value of \"exclusive\" must be a scalar"
      s ← converted (yaml.as_string v)
      if s =? "false"
          then parsed no_exclusive
          else if s =? "true"
          then parsed exclusive
          else thrown (parse_error "Value of \"exclusive\" must be either \"true\" or \"false\"")
  ]

  -- The loop of a sequence, over the constructor of its items.
  unfoldable pub parse_each : {A : Type 0} → (Node → Result A) → Nodes → Result (List A)
  parse_each parse no_items = parsed []
  parse_each parse (item n ns) = do a ← parse n; rest ← parse_each parse ns; parsed (a ∷ rest)

  unfoldable pub parse_yaml_resources : (Node → Result Resource) → Node → Result (List Resource)
  unfolding parse_each require
  parse_yaml_resources parse n = do
    require (is_sequence n) "\"resources\" is not a sequence"
    parse_each parse (items n)

  unfoldable pub parse_with : (Node → Result Resource) → Node → Result (List Resource)
  unfolding parse_yaml_resources
  parse_with parse n = elim (field n "with") [
    | none ↦ parsed []
    | some v ↦ parse_yaml_resources parse v
  ]

  -- Only a slot must have a label.
  unfoldable pub parse_label : String → Node → Result String
  unfolding require converted
  parse_label type n = elim (field n "label") [
    | none ↦ if type =? "slot" then thrown (parse_error "All slots must be labeled") else parsed ""
    | some v ↦ do
      require (is_scalar v) "Value of \"label\" must be a scalar"
      converted (yaml.as_string v)
  ]

  -- The entries that the constructor of `Resource` knows.
  abbrev pub field_count : Node → ℕ
  field_count n =
      2
      + one_if (field n "unit")
      + one_if (field n "exclusive")
      + one_if (field n "with")
      + one_if (field n "label")
      + one_if (field n "id")

  -- `Resource::Resource`
  unfoldable pub parse_resource : ℕ → Node → Result Resource
  unfolding required_scalar required optional_scalar parse_yaml_count parse_exclusive parse_with
      parse_label require converted
  parse_resource zero n = thrown too_deep
  parse_resource (suc fuel) n = do
    require (is_map n) "resource is not a mapping"
    type_node ←
        required_scalar n "type" "Key \"type\" missing from resource"
          "Value of \"type\" must be a scalar"
    type ← converted (yaml.as_string type_node)
    count_node ← required n "count" "Key \"count\" missing from resource"
    count ← parse_yaml_count count_node
    unit ← optional_scalar n "unit" "Value of \"unit\" must be a scalar"
    excl ← parse_exclusive n
    below ← parse_with (parse_resource fuel) n
    label ← parse_label type n
    id ← optional_scalar n "id" "Value of \"id\" must be a scalar"
    require (field_count n == size n) "Unrecognized key in resource mapping"
    require (not (ltb (size n) 2 || ltb 10 (size n)))
        "impossible number of entries in resource mapping"
    parsed (
        node
          (record {
            type = type;
            count = count;
            unit = or_empty unit;
            label = label;
            id = or_empty id;
            exclusive = excl;
            user_data = [];
          })
          (of_list below))
