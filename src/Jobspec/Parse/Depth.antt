-- ===== src/Jobspec/Parse/Depth.antt =====
-- Fuel for the nesting of the document is enough.
use resource_query.Prelude.{
  ℕ, zero, suc, ◌≤◌, ◌<◌, ◌≡◌, ◌≢◌, String, some, string_key, arith, Dict, Bool-cases, inl, inr,
  Option-cases,
}
use resource_query.Jobspec.{Resource}
use resource_query.Jobspec.Result.{
  Result, thrown, too_deep, ◌>>=◌, Ends, not_deep, Ends-parsed, Ends-require, Ends-thrown, Ends->>=,
  Ends-Option, end_rules,
}
use resource_query.Jobspec.Yaml.{
  Node, null, scalar, sequence, mapping, Nodes, no_items, item, Pairs, no_pairs, pair, Conversions,
  is_key, find, field, items, depth, depth_items, depth_pairs,
}
use resource_query.Jobspec.Parse.Resources.{
  required, required_scalar, optional_scalar, parse_yaml_range, parse_yaml_count, parse_exclusive,
  parse_each, parse_yaml_resources, parse_with, parse_label, parse_resource,
}
use resource_query.Jobspec.Parse.{
  parse_texts, optional_texts, parse_command, parse_task, parse_yaml_tasks, parse_attribute,
  parse_attributes_from, parse_attributes, parse_jobspec,
}

find-depth : (k : String) (ps : Pairs) (v : Node) → find k ps ≡ some v → depth v ≤ depth_pairs ps
unfolding find depth_pairs
find-depth k no_pairs v h = cc
find-depth k (pair key w ps) v h = elim (Bool-cases (is_key k key)) [
  | inl e ↦ let same : v ≡ w = cc (rw (e, find) at h) in rw same (first_le w ps)
  | inr e ↦ ground (arith, find-depth k ps v (rw (e, find) at h))
]
  where
    first_le : (w : Node) (ps : Pairs) → depth w ≤ depth_pairs (pair key w ps)
    first_le w ps = ground arith

field-depth : (n : Node) (k : String) (v : Node) → field n k ≡ some v → depth v < depth n
unfolding field depth
field-depth null k v h = cc
field-depth (scalar s) k v h = cc
field-depth (sequence ns) k v h = cc
field-depth (mapping ps) k v h = omega (arith, find-depth k ps v h)

items-depth : (n : Node) → depth_items (items n) ≤ depth n
unfolding depth depth_items
items-depth null = omega arith
items-depth (scalar s) = omega arith
items-depth (sequence ns) = omega arith
items-depth (mapping ps) = omega arith

parse_each-Ends :
    (yaml : Conversions) {A : Type 0} (parse : Node → Result A) (fuel : ℕ)
    → ((n : Node) → depth n < fuel → Ends (parse n))
    → (ns : Nodes) → depth_items ns < fuel
    → Ends (parse_each yaml parse ns)
unfolding parse_each depth_items
parse_each-Ends yaml parse fuel h no_items b = Ends-parsed _
parse_each-Ends yaml parse fuel h (item n ns) b =
    Ends->>= _ (h n (ground arith))
      λ a. Ends->>= _ (parse_each-Ends yaml parse fuel h ns (ground arith)) λ rest. Ends-parsed _

module _ (yaml : Conversions) where
  required-Ends : (n : Node) (key message : String) → Ends (required n key message)
  unfolding required
  required-Ends n key message = Ends-Option (field n key) (Ends-thrown message) λ v. Ends-parsed v

  required_scalar-Ends :
      (n : Node) (key missing wrong : String) → Ends (required_scalar yaml n key missing wrong)
  unfolding required_scalar
  required_scalar-Ends n key missing wrong = search (end_rules, required-Ends) depth 8

  optional_scalar-Ends : (n : Node) (key wrong : String) → Ends (optional_scalar yaml n key wrong)
  unfolding optional_scalar
  optional_scalar-Ends n key wrong =
      Ends-Option (field n key) (Ends-parsed _) λ v. search end_rules depth 8

  parse_yaml_range-Ends : (n : Node) → Ends (parse_yaml_range yaml n)
  unfolding parse_yaml_range
  parse_yaml_range-Ends n = search (end_rules, required_scalar-Ends) depth 20

  parse_yaml_count-Ends : (n : Node) → Ends (parse_yaml_count yaml n)
  unfolding parse_yaml_count
  parse_yaml_count-Ends n = search (end_rules, parse_yaml_range-Ends) depth 8

  parse_exclusive-Ends : (n : Node) → Ends (parse_exclusive yaml n)
  unfolding parse_exclusive
  parse_exclusive-Ends n =
      Ends-Option (field n "exclusive") (Ends-parsed _) λ v. search end_rules depth 8

  parse_label-Ends : (type : String) (n : Node) → Ends (parse_label yaml type n)
  unfolding parse_label
  parse_label-Ends type n =
      Ends-Option (field n "label") (search end_rules depth 6) λ v. search end_rules depth 8

  parse_yaml_resources-Ends :
      (parse : Node → Result Resource) (fuel : ℕ)
      → ((n : Node) → depth n < fuel → Ends (parse n))
      → (n : Node) → depth n < fuel
      → Ends (parse_yaml_resources yaml parse n)
  unfolding parse_yaml_resources
  parse_yaml_resources-Ends parse fuel h n b =
      Ends->>= _ (Ends-require _ _)
        λ _. parse_each-Ends yaml parse fuel h (items n) (omega (arith, items-depth n))

  parse_with-Ends :
      (parse : Node → Result Resource) (fuel : ℕ)
      → ((n : Node) → depth n < fuel → Ends (parse n))
      → (n : Node) → depth n < suc fuel
      → Ends (parse_with yaml parse n)
  unfolding parse_with
  parse_with-Ends parse fuel h n b = elim (Option-cases (field n "with")) [
    | inl e ↦ rw (parse_with, e) (Ends-parsed _)
    | inr (v, e) ↦
        rw (parse_with, e)
          (parse_yaml_resources-Ends parse fuel h v (omega (arith, field-depth n "with" v e)))
  ]

  parse_resource-Ends : (fuel : ℕ) (n : Node) → depth n < fuel → Ends (parse_resource yaml fuel n)
  unfolding parse_resource
  parse_resource-Ends zero n b = absurd (omega arith)
  parse_resource-Ends (suc fuel) n b =
      search
        (
          end_rules,
          required-Ends,
          required_scalar-Ends,
          optional_scalar-Ends,
          parse_yaml_count-Ends,
          parse_exclusive-Ends,
          parse_label-Ends,
          parse_with-Ends (parse_resource yaml fuel) fuel (parse_resource-Ends fuel) n b,
        )
        depth 24

  parse_texts-Ends : (ps : Pairs) (table : Dict String String) → Ends (parse_texts yaml ps table)
  unfolding parse_texts
  parse_texts-Ends no_pairs table = Ends-parsed _
  parse_texts-Ends (pair k v ps) table = search (end_rules, parse_texts-Ends ps) depth 8

  optional_texts-Ends : (n : Node) (key wrong : String) → Ends (optional_texts yaml n key wrong)
  unfolding optional_texts
  optional_texts-Ends n key wrong =
      Ends-Option (field n key) (Ends-parsed _) λ v. search (end_rules, parse_texts-Ends) depth 8

  parse_command-Ends : (n : Node) → Ends (parse_command yaml n)
  unfolding parse_command
  parse_command-Ends n = search end_rules depth 8

  parse_task-Ends : (n : Node) → Ends (parse_task yaml n)
  unfolding parse_task
  parse_task-Ends n =
      search
        (
          end_rules, required-Ends, required_scalar-Ends, optional_scalar-Ends, optional_texts-Ends,
          parse_command-Ends,
        )
        depth 20

  parse_yaml_tasks-Ends : (n : Node) → Ends (parse_yaml_tasks yaml n)
  unfolding parse_yaml_tasks
  parse_yaml_tasks-Ends n = Ends->>= _ (Ends-require _ _) λ _.
      parse_each-Ends yaml (parse_task yaml) (suc (depth_items (items n)))
        (λ m _. parse_task-Ends m) (items n) (omega arith)

  parse_attribute-Ends :
      (i : Node) (ps : Pairs) (table : Dict String (Dict String String))
      → Ends (parse_attribute yaml i ps table)
  unfolding parse_attribute
  parse_attribute-Ends i no_pairs table = Ends-parsed _
  parse_attribute-Ends i (pair k v ps) table =
      search (end_rules, parse_attribute-Ends i ps) depth 10

  parse_attributes_from-Ends :
      (ps : Pairs) (table : Dict String (Dict String String))
      → Ends (parse_attributes_from yaml ps table)
  unfolding parse_attributes_from
  parse_attributes_from-Ends no_pairs table = Ends-parsed _
  parse_attributes_from-Ends (pair i v ps) table =
      search (end_rules, parse_attribute-Ends, parse_attributes_from-Ends ps) depth 10

  parse_attributes-Ends : (n : Node) → Ends (parse_attributes yaml n)
  unfolding parse_attributes
  parse_attributes-Ends n = search (end_rules, parse_attributes_from-Ends) depth 10

  Ends-required :
      {B : Type 0} (n : Node) (key message : String) (k : Node → Result B)
      → ((v : Node) → depth v < depth n → Ends (k v))
      → Ends (required n key message >>= k)
  unfolding required ◌>>=◌
  Ends-required n key message k h = elim (Option-cases (field n key)) [
    | inl e ↦ rw (required, ◌>>=◌, e) (Ends-thrown message)
    | inr (v, e) ↦ rw (required, ◌>>=◌, e) (h v (field-depth n key v e))
  ]

  jobspec-Ends : (fuel : ℕ) (top : Node) → depth top < fuel → Ends (parse_jobspec yaml fuel top)
  unfolding parse_jobspec
  jobspec-Ends fuel top b = Ends->>= _ (Ends-require _ _) λ _.
      Ends->>= _ (required-Ends _ _ _) λ version_node.
        Ends-required top _ _ _ λ resources_node smaller.
          let resources =
            parse_yaml_resources-Ends (parse_resource yaml fuel) fuel (parse_resource-Ends fuel)
              resources_node (omega arith) in
          search (end_rules, required-Ends, resources, parse_attributes-Ends, parse_yaml_tasks-Ends)
            depth 24

  -- With more fuel than the document is deep, the constructor never runs out of it: a document gives
  -- a jobspec or one of the errors that the source throws.
  pub parse_jobspec-ends :
      (fuel : ℕ) (top : Node) → depth top < fuel → parse_jobspec yaml fuel top ≢ thrown too_deep
  parse_jobspec-ends fuel top b = not_deep (jobspec-Ends fuel top b)
