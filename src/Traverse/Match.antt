-- ===== src/Traverse/Match.antt =====
-- `match`, `slot_match` and `test`: how the resources asked for meet the vertex that is visited.
use resource_query.Prelude.{
  ℕ, String, List, [], ◌∷◌, Bool, true, false, ◌&&◌, Option, none, some, string_key, ◌=?◌,
  if◌then◌else◌, any,
}
use resource_query.Jobspec.{Resource, attrs, children}
use resource_query.Traverse.State.{Env, Store}

pub data MatchKind : Type 0 where
  resource_match slot_match none_match : MatchKind

abbrev pub has_type : String → Resource → Bool
has_type t r = (attrs r).type =? t

-- The last child that is a slot.
unfoldable pub slot_child : List Resource → Option Resource
slot_child [] = none
slot_child (c ∷ cs) = elim (slot_child cs) [
  | some s ↦ some s
  | none ↦ if has_type "slot" c then some c else none
]

-- The slot and the resource that `match` finds: it stops at the first resource of the vertex's type,
-- or at the first slot.
unfoldable pub match : String → List Resource → Option Resource × Option Resource
unfolding slot_child
match type [] = (none, none)
match type (r ∷ rs) =
    if has_type type r
    then (slot_child (children r), some r)
    else if has_type "slot" r
    then (some r, none)
    else match type rs

module _ (env : Env) where
  -- Some edge out of `u` leads to a vertex of the type.
  abbrev pub leads_to : Store env.planner.Plan → ℕ → String → Bool
  leads_to s u type = any (λ e. (s.vtx (env.target e)).type =? type) (env.out_edges u)

  unfoldable pub all_lead : Store env.planner.Plan → ℕ → List Resource → Bool
  all_lead s u [] = true
  all_lead s u (c ∷ cs) = leads_to s u (attrs c).type && all_lead s u cs

  unfoldable pub is_slot_match : Store env.planner.Plan → ℕ → Option Resource → Bool
  unfolding all_lead
  is_slot_match s u none = false
  is_slot_match s u (some slot) = all_lead s u (children slot)

  abbrev pub with_of : Option Resource → List Resource → List Resource
  with_of none resources = resources
  with_of (some r) resources = children r

  -- The resources to look for below `u`, and the kind of the match.
  unfoldable pub test : Store env.planner.Plan → ℕ → List Resource → List Resource × MatchKind
  unfolding match is_slot_match
  test s u resources =
      let (slot, found) = match (s.vtx u).type resources in
      if is_slot_match s u slot
      then (with_of slot resources, slot_match)
      else elim found [ some r ↦ (children r, resource_match) | none ↦ (resources, none_match) ]
