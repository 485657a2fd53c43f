-- ===== src/Tests/Traverse.antt =====
-- Walks over a small graph: a node, vertex 0, with a core, vertex 1, and edge 0 from one to the other.
use resource_query.Prelude.{
  ℕ, suc, ◌-◌, pos, negsuc, ◌≡◌, refl, String, [], ◌∷◌, true, false, none, some, contains, lookup,
  nat_key, string_key, ◌==◌, if◌then◌else◌, arith, ◌⊎◌,
}
use resource_query.Run.{ok, fault, null_access, Returns, Settles}
use resource_query.ResourceData.{ResourcePool}
use resource_query.Matcher.Subsystems.{MatcherData, dom_subsystem}
use resource_query.Planner.{Planner}
use resource_query.Policy.{high_first, IntervalSet}
use resource_query.Traverse.State.{Env, Store, JobMeta, map_schedule, color_of}
use resource_query.Traverse.Accum.{accum_if, amount, amount-accum_if}
use resource_query.Traverse.Frame.{Frame}
use resource_query.ResourceData.Color
use resource_query.Traverse.Prime.{prime}
use resource_query.Traverse.Prime.Total.{is_painted, white_below, Darkens, prime-Darkens}
use resource_query.Traverse.Remove.{is_tagged, remove}
use resource_query.Traverse.Remove.Frame.{removal}
use resource_query.Traverse.Remove.Total.{tagged_below, remove-Removes}
use resource_query.Traverse.Update.{update}
use resource_query.Traverse.Update.Frame.{tagging}
use resource_query.Traverse.Update.Tag.{IsCallFault, Refuses}
use resource_query.Traverse.Update.Total.{OneWay, update-Tags}

-- A planner that takes every span, and numbers them.
abbrev roomy : Planner
roomy = record {
  Plan = ℕ;
  planner_new = λ base duration totals types. (some 0, none);
  planner_base_time = λ p. pos 0;
  planner_duration = λ p. 3600;
  planner_resource_types = λ p. "core" ∷ [];
  planner_avail_resources_during = λ p at duration request. ok (pos 8, none);
  planner_avail_resources_during_by_type = λ p at duration type. ok (pos 8, none);
  planner_avail_during = λ p at duration requests. (pos 0, none);
  planner_add_span = λ p at duration requests. elim p [
    | none ↦ fault null_access
    | some n ↦ ok (some (suc n), pos n, none)
  ];
  planner_rem_span = λ p span. (p, pos 0, none);
  planner_avail_time_first = λ p at duration requests. (p, pos 0, none);
  planner_avail_time_next = λ p. (p, pos 10, none);
}

-- The score that was found last is never greater.
abbrev pub flat : IntervalSet
flat = record { Ivset = Unit {0}; empty = tt; insert = λ s i. tt; find_greater = λ i a b. false }

abbrev containment : MatcherData
containment = record {
  name = "CA";
  subsystems = "containment" ∷ [];
  subsystems_map = ("containment", "*" ∷ []) ∷ [];
  sdau_resource_types = ("containment", "core" ∷ []) ∷ [];
}

abbrev pub node_env : Env
node_env = record {
  planner = roomy;
  icl = flat;
  strerror = λ e. "error";
  atoll = λ s. pos 0;
  matcher = containment;
  policy = high_first;
  roots = ("containment", 0) ∷ [];
  out_edges = λ u. if u == 0 then 0 ∷ [] else [];
  target = λ e. 1;
}

abbrev pool : String → ResourcePool ℕ
pool type = record {
  type = type;
  paths = [];
  basename = type;
  name = type;
  properties = [];
  id = pos 0;
  size = 1;
  unit = "";
  schedule = record {
    tags = [];
    allocations = [];
    reservations = [];
    x_spans = [];
    plans = some 0;
    x_checker = some 0;
  };
  idata = record { member_of = []; job2span = []; subplans = []; colors = [] };
}

-- The edge was selected in round 1, for one core, exclusively.
abbrev pub selected : Store ℕ
selected = record {
  vtx = λ u. if u == 0 then pool "node" else pool "core";
  edg = λ e. record {
    name = "containment:contains";
    idata = record {
      member_of = ("containment", "contains") ∷ [];
      needs = 1;
      best_k_cnt = 1;
      exclusive = 1;
    };
  };
  best_k_cnt = 1;
  color_base = 0;
  trav_level = 0;
  match_level = pos 0;
  err_msg = [];
  errno = 0;
  emitted = [];
}

abbrev pub job : JobMeta
job = record { allocate = true; jobid = 7; at = pos 0; duration = 60 }

one_way : OneWay node_env job (λ v. 1 - v) selected
one_way u = ground arith

update-Tags_example :
    Settles (IsCallFault node_env job) (update node_env 3 0 job 1 false selected) (λ r.
      ((is_tagged node_env r.1 7 0 ≡ true)
        ⊎ (r.0 ≡ negsuc 0)
        ⊎ ((false ≡ true) × Refuses node_env job (some 0) 1))
      × Frame 7 tagging selected r.1)
unfolding dom_subsystem
update-Tags_example =
    update-Tags node_env job (λ v. 1 - v) "containment" 3 0 1 false selected refl one_way
      (omega arith)

-- Both vertices carry the tag of job 7.
abbrev tagged : Store ℕ
tagged = record selected {
  vtx = λ u.
      map_schedule (λ c. record c { tags = (7, 7) ∷ []; x_spans = (7, pos 0) ∷ [] })
        (selected.vtx u);
}

remove-Removes_example :
    Returns
      (remove node_env 3 0 7 tagged)
      (λ r. Frame 7 removal tagged r.1 × (is_tagged node_env r.1 7 0 ≡ false))
unfolding dom_subsystem tagged_below is_tagged contains
remove-Removes_example =
    remove-Removes node_env 7 2 "containment" 3 0 tagged refl (λ e. omega arith) (omega arith)
      (ground arith)

amount-accum_if_example :
    amount "core" (accum_if containment "containment" "core" 3 (("core", 2) ∷ [])).0 ≡ 5
unfolding lookup
amount-accum_if_example =
    amount-accum_if containment "containment" "core" "core" 3 (("core", 2) ∷ [])

-- Nothing was visited before.
not_painted : is_painted selected "containment" 0 ≡ false
unfolding color_of Color.gray Color.black lookup
not_painted = refl

two_white : white_below selected "containment" 2 ≡ 2
unfolding color_of white_below Color.gray Color.black lookup
two_white = refl

prime-Darkens_example :
    Returns
      (prime node_env 3 "containment" 0 [] selected)
      (λ r. Darkens "containment" selected r.1 × (is_painted r.1 "containment" 0 ≡ true))
prime-Darkens_example =
    prime-Darkens node_env "containment" 2 3 0 [] selected (λ e. omega arith) (omega arith)
      not_painted (omega (arith, two_white))
