-- ===== src/Jobspec/Parse/Valid.antt =====
-- What a jobspec that was accepted satisfies.
use resource_query.Prelude.{
  ℕ, zero, suc, ◌≤◌, ◌≡◌, refl, List, [], ◌∷◌, true, string_key, arith, ◌⊎◌, inl, inr, All,
}
use resource_query.Jobspec.{Count, Resource, Resources, node, nil, cons, of_list, Jobspec}
use resource_query.Jobspec.Result.{
  Result, parsed, ◌>>=◌, Holds, value_holds, Holds-parsed, Holds-thrown, Holds->>=, Holds-require,
  Holds-any, Holds-if, Holds-Option,
}
use resource_query.Jobspec.Yaml.{Node, Nodes, no_items, item, Conversions, field, items, is_scalar}
use resource_query.Jobspec.Parse.Resources.{
  parse_yaml_range, parse_yaml_count, parse_each, parse_yaml_resources, parse_with, parse_resource,
  is_operator,
}
use resource_query.Jobspec.Parse.{parse_jobspec}

-- The bounds are in order and the operator is one of the three. The bounds start from 1, unless the
-- count was a single number, which is not checked.
abbrev pub ValidCount : Count → Type 0
ValidCount c = (c.min ≤ c.max) × (is_operator c.oper ≡ true) × ((1 ≤ c.min) ⊎ (c.min ≡ c.max))

-- The counts of a resource and of all below it.
mutual
  pub ValidResource : Resource → Type 0
  ValidResource (node a rs) = ValidCount a.count × ValidResources rs

  pub ValidResources : Resources → Type 0
  ValidResources nil = Unit
  ValidResources (cons r rs) = ValidResource r × ValidResources rs

of_list-Valid : (rs : List Resource) → All ValidResource rs → ValidResources (of_list rs)
unfolding ValidResources
of_list-Valid [] h = tt
of_list-Valid (r ∷ rs) h = (h.0, of_list-Valid rs h.1)

-- A jobspec that was accepted.
pub record ValidJobspec (job : Jobspec) : Type 0 where
  pub one_version : job.version ≡ 1
  pub valid_resources : All ValidResource job.resources

module _ (yaml : Conversions) where
  abbrev step :
      {A B : Type 0} {Q : B → Type 0} (m : Result A) {k : A → Result B}
      → ((a : A) → Holds Q (k a))
      → Holds Q (m >>= k)
  step m h = Holds->>= m (Holds-any m) (λ a _. h a)

  parse_yaml_range-Valid : (n : Node) → Holds ValidCount (parse_yaml_range yaml n)
  unfolding parse_yaml_range
  parse_yaml_range-Valid n = step _ λ _. step _ λ min_node. step _ λ max_node. step _ λ oper_node.
      step _ λ operand_node. step _ λ min. Holds->>= _ (Holds-require _ _) λ _ positive.
        step _ λ max. step _ λ _. Holds->>= _ (Holds-require _ _) λ _ ordered. step _ λ oper.
          Holds->>= _ (Holds-require _ _)
            λ _ known. step _ λ operand. Holds-parsed _ (ground arith, known, inl (ground arith))

  parse_yaml_count-Valid : (n : Node) → Holds ValidCount (parse_yaml_count yaml n)
  unfolding parse_yaml_count
  parse_yaml_count-Valid n =
      Holds-if (is_scalar n) (step _ λ min. Holds-parsed _ (omega arith, refl, inr refl))
        (parse_yaml_range-Valid n)

  parse_each-All :
      {A : Type 0} (P : A → Type 0) (parse : Node → Result A)
      → ((n : Node) → Holds P (parse n))
      → (ns : Nodes) → Holds (All P) (parse_each yaml parse ns)
  unfolding parse_each
  parse_each-All P parse h no_items = Holds-parsed [] tt
  parse_each-All P parse h (item n ns) =
      Holds->>= _ (h n)
        λ a p. Holds->>= _ (parse_each-All P parse h ns) λ rest q. Holds-parsed _ (p, q)

  parse_yaml_resources-Valid :
      (parse : Node → Result Resource)
      → ((n : Node) → Holds ValidResource (parse n))
      → (n : Node) → Holds (All ValidResource) (parse_yaml_resources yaml parse n)
  unfolding parse_yaml_resources
  parse_yaml_resources-Valid parse h n = step _ λ _. parse_each-All ValidResource parse h (items n)

  parse_with-Valid :
      (parse : Node → Result Resource)
      → ((n : Node) → Holds ValidResource (parse n))
      → (n : Node) → Holds (All ValidResource) (parse_with yaml parse n)
  unfolding parse_with
  parse_with-Valid parse h n =
      Holds-Option (field n "with") (Holds-parsed [] tt) (parse_yaml_resources-Valid parse h)

  parse_resource-Valid : (fuel : ℕ) (n : Node) → Holds ValidResource (parse_resource yaml fuel n)
  unfolding parse_resource ValidResource
  parse_resource-Valid zero n = Holds-thrown _
  parse_resource-Valid (suc fuel) n = step _ λ _. step _ λ type_node. step _ λ type.
      step _ λ count_node. Holds->>= _ (parse_yaml_count-Valid count_node) λ count counted.
        step _ λ unit. step _ λ excl.
          Holds->>= _ (parse_with-Valid (parse_resource yaml fuel) (parse_resource-Valid fuel) n)
            λ below valid. step _ λ label.
              step _
                λ id. step _ λ _. step _ λ _. Holds-parsed _ (counted, of_list-Valid below valid)

  jobspec-Valid : (fuel : ℕ) (top : Node) → Holds ValidJobspec (parse_jobspec yaml fuel top)
  unfolding parse_jobspec
  jobspec-Valid fuel top = step _ λ _. step _ λ version_node. step _ λ resources_node.
      step _ λ tasks_node. step _ λ attributes_node. step _ λ _. step _ λ _. step _ λ version.
        Holds->>= _ (Holds-require _ _) λ _ one. step _ λ attributes.
          Holds->>= _ (parse_yaml_resources-Valid _ (parse_resource-Valid fuel) resources_node)
            λ resources valid. step _ λ tasks.
              Holds-parsed _ (record { one_version = ground arith; valid_resources = valid })

  -- A document that is accepted gives a jobspec of version 1 in which every count, at every level, has
  -- its bounds in order and one of the operators +, * and ^; a minimum of 0 comes only from a count
  -- that is written as one number.
  pub parse_jobspec-Valid :
      (fuel : ℕ) (top : Node) (job : Jobspec)
      → parse_jobspec yaml fuel top ≡ parsed job
      → ValidJobspec job
  parse_jobspec-Valid fuel top job e = value_holds (jobspec-Valid fuel top) job e
