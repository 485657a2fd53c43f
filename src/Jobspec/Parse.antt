-- ===== src/Jobspec/Parse.antt =====
-- The constructors of `jobspec.cpp`: a YAML document is checked and read into a jobspec. Resources has
-- those of the resources.
pub mod Resources
pub mod Valid
pub mod Depth
use resource_query.Prelude.{
  ℕ, zero, suc, ◌+◌, pos, String, List, [], ◌∷◌, Bool, true, false, ◌&&◌, ◌||◌, not, Option, none,
  some, Dict, lookup, insert, string_key, ◌==◌, ◌=?◌, ltb, leb, if◌then◌else◌,
}
use resource_query.Jobspec.{
  Tristate, no_exclusive, exclusive, unspecified, Count, Attrs, Resource, node, of_list, Task,
  Jobspec,
}
use resource_query.Jobspec.Result.{
  Error, parse_error, too_deep, Result, parsed, thrown, ◌>>=◌, ◌>>◌, require, converted,
}
use resource_query.Jobspec.Yaml.{
  Node, Nodes, no_items, item, Pairs, no_pairs, pair, Conversions, is_null, is_scalar, is_sequence,
  is_map, field, items, pairs, size,
}
use resource_query.Jobspec.Parse.Resources.{
  required, one_if, is_operator, or_empty, required_scalar, optional_scalar, parse_yaml_range,
  parse_yaml_count, parse_exclusive, parse_each, parse_yaml_resources, parse_with, parse_label,
  field_count, parse_resource,
}

module _ (yaml : Conversions) where
  -- `for (auto&& entry : node) table[entry.first.as<string>()] = entry.second.as<string>();`
  unfoldable pub parse_texts : Pairs → Dict String String → Result (Dict String String)
  unfolding converted
  parse_texts no_pairs table = parsed table
  parse_texts (pair k v ps) table = do
    key ← converted (yaml.as_string k)
    text ← converted (yaml.as_string v)
    parse_texts ps (insert key text table)

  -- An optional mapping of texts.
  unfoldable pub optional_texts : Node → String → String → Result (Dict String String)
  unfolding parse_texts require
  optional_texts n key wrong = elim (field n key) [
    | none ↦ parsed []
    | some v ↦ do require (is_map v) wrong; parse_texts (pairs v) []
  ]

  unfoldable pub parse_command : Node → Result (List String)
  unfolding converted
  parse_command v =
      if is_sequence v
      then converted (yaml.as_strings v)
      else if is_scalar v
      then (do s ← converted (yaml.as_string v); parsed (s ∷ []))
      else thrown (parse_error "\"command\" value must be a scalar or a sequence")

  -- `Task::Task`
  unfoldable pub parse_task : Node → Result Task
  unfolding required required_scalar parse_command optional_texts optional_scalar require converted
  parse_task n = do
    require (is_map n) "task is not a mapping"
    command_node ← required n "command" "Key \"command\" missing from task"
    command ← parse_command command_node
    slot_node ←
        required_scalar yaml n "slot" "Key \"slot\" missing from task"
          "Value of task \"slot\" must be a YAML scalar"
    slot ← converted (yaml.as_string slot_node)
    count ← optional_texts n "count" "\"count\" in task is not a mapping"
    distribution ←
        optional_scalar yaml n "distribution" "Value of task \"distribution\" must be a YAML scalar"
    attributes ← optional_texts n "attributes" "\"attributes\" in task is not a mapping"
    require (not (ltb (size n) 3 || ltb 5 (size n))) "impossible number of entries in task mapping"
    parsed (record {
      command = command;
      slot = slot;
      count = count;
      distribution = or_empty distribution;
      attributes = attributes;
    })

  unfoldable pub parse_yaml_tasks : Node → Result (List Task)
  unfolding parse_each parse_task require
  parse_yaml_tasks n = do
    require (is_sequence n) "\"tasks\" is not a sequence"
    parse_each yaml parse_task (items n)

  -- `attributes[key]`, which is empty where there is no entry.
  abbrev pub texts_of : String → Dict String (Dict String String) → Dict String String
  texts_of key table = elim (lookup key table) [ none ↦ [] | some texts ↦ texts ]

  -- The inner loop over the attributes: an attribute without entries leaves none.
  unfoldable pub parse_attribute :
      Node → Pairs → Dict String (Dict String String) → Result (Dict String (Dict String String))
  unfolding converted
  parse_attribute i no_pairs table = parsed table
  parse_attribute i (pair k v ps) table = do
    key ← converted (yaml.as_string i)
    name ← converted (yaml.as_string k)
    text ← converted (yaml.as_string v)
    parse_attribute i ps (insert key (insert name text (texts_of key table)) table)

  unfoldable pub parse_attributes_from :
      Pairs → Dict String (Dict String String) → Result (Dict String (Dict String String))
  unfolding parse_attribute require
  parse_attributes_from no_pairs table = parsed table
  parse_attributes_from (pair i v ps) table = do
    require (is_map v) "value of attribute is not a mapping"
    table' ← parse_attribute i (pairs v) table
    parse_attributes_from ps table'

  unfoldable pub parse_attributes : Node → Result (Dict String (Dict String String))
  unfolding parse_attributes_from require
  parse_attributes n = if is_null n then parsed [] else (do
    require (is_map n) "\"attributes\" is not a mapping"
    parse_attributes_from (pairs n) [])

  -- `Jobspec::Jobspec`
  unfoldable pub parse_jobspec : ℕ → Node → Result Jobspec
  unfolding required parse_attributes parse_yaml_resources parse_resource parse_yaml_tasks require
      converted
  parse_jobspec fuel top = do
    require (is_map top) "Top level of jobspec is not a mapping"
    version_node ← required top "version" "Missing key \"version\" in top level mapping"
    resources_node ← required top "resources" "Missing key \"resource\" in top level mapping"
    tasks_node ← required top "tasks" "Missing key \"tasks\" in top level mapping"
    attributes_node ← required top "attributes" "Missing key \"attributes\" in top level mapping"
    require (size top == 4) "Top mapping in jobspec must have exactly four entries"
    require (is_scalar version_node) "\"version\" must be an unsigned integer"
    version ← converted (yaml.as_unsigned version_node)
    require (version == 1) "Only jobspec \"version\" 1 is supported"
    attributes ← parse_attributes attributes_node
    resources ← parse_yaml_resources yaml (parse_resource yaml fuel) resources_node
    tasks ← parse_yaml_tasks tasks_node
    parsed (record {
      version = version;
      resources = resources;
      tasks = tasks;
      attributes = attributes;
    })
