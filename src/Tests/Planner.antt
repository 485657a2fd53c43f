-- ===== src/Tests/Planner.antt =====
-- A planner of four cores for ten seconds, over trees that are not balanced.
use resource_query.Prelude.{
  ℕ, zero, suc, ℤ, pos, negsuc, ltb_ℤ, ◌+ℤ◌, ◌-ℤ◌, ◌≤ℤ◌, ◌<ℤ◌, List, [], ◌∷◌, Option, none, some,
  true, false, ==_iff, ◌≡◌, ◌↔◌, ◌⊎◌, inl, inr, refl, sym, ap, ◌∙◌, arith, contains, int_key,
}
use resource_query.Run.{Run, ok, fault, Returns}
use resource_query.Planner.Points.{
  ResourceArray, Addr, Heap, Tree, leaf, node, inorder, without, scheduled_point_search,
  scheduled_point_state, link_point,
}
use resource_query.Planner.Points.Sorted.{elem, latest, scheduled_point_state-latest}
use resource_query.Planner.Mintime.{MtTree, points, rescmp}
use resource_query.Planner.Mintime.Rescmp.{Covers, rescmp_iff, rescmp-wraps}
use resource_query.Planner.Context.{Request, PlannerContext, Libs, IsLawful}
use resource_query.Planner.Windows.{avail_during}
use resource_query.Planner.Spans.{
  resources, initialize, span_input_check, planner_add_span, planner_rem_span,
}
use resource_query.Planner.Spans.Invariant.{booked, full, IsValid}
use resource_query.Planner.Spans.Add.{reads_past-few, Added, planner_add_span-Added}
use resource_query.Planner.Spans.Remove.{Removed, planner_rem_span-Removed}
use resource_query.Planner.Api.{cleared, planner_avail_time_first, planner_avail_time_next}
use resource_query.Planner.Api.Left.{planner_avail_resources_at}
use resource_query.Planner.Reads.{
  initialize-IsValid, planner_rem_span-planner_add_span, planner_avail_resources_at-left,
}
use resource_query.Planner.Play.{Call, add, rem, first, next}
use resource_query.Planner.Fits.{Fits}
use resource_query.Planner.Exact.{HasSlack, avail_during_iff}
use resource_query.Planner.Booking.{planner_add_span_iff}
use resource_query.Planner.First.{
  Starts, planner_avail_time_first-Starts, planner_avail_time_next-Starts,
}
use resource_query.Planner.Overbook.{
  IsWithin, planner_add_span-IsWithin, planner_add_span-overbooks,
}

-- A tree whose nodes have no left children.
abbrev spine : List Addr → Tree Addr
spine [] = leaf
spine (p ∷ ps) = node leaf p (spine ps)

abbrev mt_spine : (MtTree → Addr → MtTree → ℤ) → List Addr → MtTree
mt_spine f [] = leaf
mt_spine f (p ∷ ps) =
    let rest = mt_spine f ps in node leaf (record { point = p; subtree_min = f leaf p rest }) rest

abbrev plain : Libs
plain = record {
  rb = record {
    rb_insert_color = λ t. t;
    rb_erase = λ p t. spine (without p (inorder t));
    rb_insert_augmented = λ f t. t;
    rb_erase_augmented = λ f p t. mt_spine f (without p (points t));
  };
  zhash_entries = λ t. t;
}

inorder-spine : (ps : List Addr) → inorder (spine ps) ≡ ps
inorder-spine [] = refl
inorder-spine (p ∷ ps) = ap (λ l. p ∷ l) (inorder-spine ps)

points-mt_spine : (f : MtTree → Addr → MtTree → ℤ) (ps : List Addr) → points (mt_spine f ps) ≡ ps
points-mt_spine f [] = refl
points-mt_spine f (p ∷ ps) = ap (λ l. p ∷ l) (points-mt_spine f ps)

plain-IsLawful : IsLawful plain
plain-IsLawful = record {
  insert_color-inorder = λ t. refl;
  erase-inorder = λ p t. inorder-spine (without p (inorder t));
  erase_augmented-points = λ f p t. points-mt_spine f (without p (points t));
  insert_augmented-points = λ f t. refl;
  entries-All = λ P t a. a;
  entries-tally = λ k t. refl;
}

abbrev nothing : Heap
nothing a = record { at = pos 0; ref_count = pos 0; scheduled = λ _. pos 0; remaining = λ _. pos 0 }

abbrev four_cores : PlannerContext
four_cores = initialize plain (cleared nothing (4 ∷ []) ("core" ∷ [])) (pos 0) 10

four_cores-IsValid : IsValid four_cores
four_cores-IsValid =
    initialize-IsValid plain-IsLawful (cleared nothing (4 ∷ []) ("core" ∷ [])) (pos 0) 10

-- The planner that a call gives.
abbrev given : Run (Option PlannerContext × ℤ × Option ℕ) → PlannerContext
given (ok (some ctx, _, _)) = ctx
given (ok (none, _, _)) = four_cores
given (fault _) = four_cores

planner_add_span-Added_example :
    Returns
      (planner_add_span plain (some four_cores) (pos 2) 3 (1 ∷ []))
      (Added four_cores 2 3 (1 ∷ []))
unfolding initialize
planner_add_span-Added_example =
    planner_add_span-Added plain-IsLawful four_cores 2 3 (1 ∷ []) four_cores-IsValid (omega arith)
      (omega arith) (reads_past-few four_cores (pos 2) 3 (resources (1 ∷ [])) 1 (omega arith))

-- All four cores, for all of the plan.
full_plan : PlannerContext
unfolding planner_add_span
full_plan = given (planner_add_span plain (some four_cores) (pos 0) 10 (4 ∷ []))

full_plan-added :
    planner_add_span plain (some four_cores) (pos 0) 10 (4 ∷ []) ≡ ok (some full_plan, pos 1, none)
unfolding full_plan initialize ◌+ℤ◌ scheduled_point_state ◌-ℤ◌ scheduled_point_search
full_plan-added = refl

ok_injective : {r r' : Option PlannerContext × ℤ × Option ℕ} → ok r ≡ ok r' → r ≡ r'
ok_injective e = cc

booked_IsValid :
    (ctx ctx' : PlannerContext) (s d : ℕ) (counts : List ℕ) (n : ℕ)
    → Added ctx s d counts (some ctx', pos n, none)
    → IsValid ctx'
booked_IsValid ctx ctx' s d counts n (inl (same, minus, e)) = absurd (positive minus)
  where
    positive : pos n ≡ negsuc 0 → ⊥
    positive e = cc
booked_IsValid ctx ctx' s d counts n
      (inr (ctx₁, same, rc, valid, count, start, totals, books, span)) =
    rw (some_injective same) valid
  where
    some_injective : {a b : PlannerContext} → some a ≡ some b → a ≡ b
    some_injective e = cc

full_plan-IsValid : IsValid full_plan
unfolding initialize
full_plan-IsValid =
    let (r, run, added) =
      planner_add_span-Added plain-IsLawful four_cores 0 10 (4 ∷ []) four_cores-IsValid
        (omega arith) (omega arith)
        (reads_past-few four_cores (pos 0) 10 (resources (4 ∷ [])) 1 (omega arith)) in
    booked_IsValid four_cores full_plan 0 10 (4 ∷ []) 1
      (rw (ok_injective (sym run ∙ full_plan-added)) at added)

planner_rem_span-Removed_example :
    Removed full_plan (pos 1) (planner_rem_span plain (some full_plan) (pos 1))
planner_rem_span-Removed_example =
    planner_rem_span-Removed plain-IsLawful full_plan (pos 1) full_plan-IsValid

abbrev calls : List Call
calls =
    add 0 10 (4 ∷ [])
    ∷ first (pos 2) 3 (1 ∷ [])
    ∷ next
    ∷ add 3 2 (1 ∷ [])
    ∷ rem (pos 1)
    ∷ rem (pos 7)
    ∷ []

planner_avail_resources_at-left_example :
    (n : ℤ) × (planner_avail_resources_at (some full_plan) (pos 3) 0 ≡ ok (n, none))
    × (n +ℤ booked full_plan.span_lookup (pos 3) 0 ≡ full full_plan 0)
unfolding full_plan initialize ◌+ℤ◌ scheduled_point_state ◌-ℤ◌ scheduled_point_search contains
planner_avail_resources_at-left_example =
    planner_avail_resources_at-left full_plan (pos 3) 0 full_plan-IsValid (omega arith)
      (omega arith) (omega arith)

planner_rem_span-planner_add_span_example :
    (ctx : PlannerContext) × ((planner_rem_span plain (some full_plan) (pos 1)).0 ≡ some ctx)
    × ((planner_rem_span plain (some full_plan) (pos 1)).1 ≡ pos 0)
    × IsValid ctx
    × ((t : ℤ) (i : ℕ) → booked ctx.span_lookup t i ≡ booked four_cores.span_lookup t i)
unfolding initialize
planner_rem_span-planner_add_span_example =
    planner_rem_span-planner_add_span plain-IsLawful four_cores full_plan 0 10 (4 ∷ []) none
      four_cores-IsValid (omega arith) (omega arith) full_plan-added

four_cores-IsWithin : IsWithin four_cores
unfolding initialize
four_cores-IsWithin t h i = within i
  where
    within : (i : ℕ) → pos 0 ≤ℤ full four_cores i
    within zero = omega arith
    within (suc i) = ground arith

planner_add_span-IsWithin_example :
    Returns
      (planner_add_span plain (some four_cores) (pos 2) 3 (1 ∷ []))
      λ r. (ctx : PlannerContext) → r.0 ≡ some ctx → IsWithin ctx
unfolding initialize ◌+ℤ◌
planner_add_span-IsWithin_example =
    planner_add_span-IsWithin plain-IsLawful four_cores 2 3 (1 ∷ []) four_cores-IsValid
      four_cores-IsWithin (omega arith) (omega arith) refl
      (reads_past-few four_cores (pos 2) 3 (resources (1 ∷ [])) 1 (omega arith))

planner_add_span-overbooks_example :
    Returns (planner_add_span plain (some full_plan) (pos 0) 11 (4 ∷ [])) λ r.
      (r.1 ≡ pos (suc full_plan.span_counter))
      × ((ctx : PlannerContext) × (r.0 ≡ some ctx)
          × IsValid ctx
          × (full ctx 0 <ℤ booked ctx.span_lookup (pos 3) 0))
unfolding full_plan initialize ◌+ℤ◌ scheduled_point_state ◌-ℤ◌ scheduled_point_search contains
planner_add_span-overbooks_example =
    planner_add_span-overbooks plain-IsLawful full_plan 0 11 (4 ∷ []) (pos 3) 0 full_plan-IsValid
      (omega arith) (omega arith) refl refl (omega arith)

planner_avail_time_first-Starts_example :
    Returns (planner_avail_time_first plain (some four_cores) (pos 0) 3 (2 ∷ [])) λ r.
      (ctx : PlannerContext) × (r.0 ≡ some ctx)
      × IsValid ctx
      × (ctx.span_lookup ≡ four_cores.span_lookup)
      × (ctx.span_counter ≡ four_cores.span_counter)
      × ((r.1 ≡ negsuc 0)
          ⊎ Starts plain-IsLawful four_cores (pos 0) 3 (resources (2 ∷ [])) 1 ctx.mt r.1)
planner_avail_time_first-Starts_example =
    planner_avail_time_first-Starts plain-IsLawful four_cores (pos 0) 3 (2 ∷ []) four_cores-IsValid

abbrev two_cores : Request
two_cores = record {
  on_or_after = pos 0;
  duration = 3;
  resources = resources (2 ∷ []);
  dimension = 1;
}

-- In the middle of a search.
abbrev searched : PlannerContext
searched = record four_cores { avail_time_iter_set = true; current_request = two_cores }

planner_avail_time_next-Starts_example :
    Returns (planner_avail_time_next plain (some searched)) λ r.
      (ctx : PlannerContext) × (r.0 ≡ some ctx)
      × IsValid ctx
      × (ctx.span_lookup ≡ searched.span_lookup)
      × (ctx.span_counter ≡ searched.span_counter)
      × ((r.1 ≡ negsuc 0)
          ⊎ (searched.plan_start ≤ℤ pos 0
              → Starts plain-IsLawful searched (pos 0) 3 (resources (2 ∷ [])) 1 ctx.mt r.1))
planner_avail_time_next-Starts_example =
    planner_avail_time_next-Starts plain-IsLawful searched four_cores-IsValid

rescmp_iff_example :
    (ltb_ℤ (pos 0) (rescmp (resources (1 ∷ [])) (resources (4 ∷ [])) 1) ≡ false)
    ↔ Covers 1 (resources (1 ∷ [])) (resources (4 ∷ []))
unfolding ◌-ℤ◌
rescmp_iff_example = rescmp_iff (resources (1 ∷ [])) (resources (4 ∷ [])) 1 (omega arith)

-- One unit is asked for, and 2 ^ 31 + 2 are there.
abbrev asked_of_two : ResourceArray
asked_of_two = resources (1 ∷ 2 ∷ [])

abbrev left_of_two : ResourceArray
left_of_two = resources (1073741825 ∷ 1073741827 ∷ [])

two-Covers : Covers 2 asked_of_two left_of_two
two-Covers i h = ground arith

rescmp-wraps_example : ltb_ℤ (pos 0) (rescmp asked_of_two left_of_two 2) ≡ true
unfolding ◌-ℤ◌
rescmp-wraps_example =
    rescmp-wraps asked_of_two left_of_two 2 two-Covers (omega arith) (omega arith)

four_cores-HasSlack :
    (p : Addr)
    → elem p (inorder four_cores.sched_point_tree) ≡ true
    → HasSlack four_cores.heap (resources (1 ∷ [])) 1 p
unfolding initialize link_point ◌-ℤ◌
four_cores-HasSlack p e = let only : p ≡ 0 = (==_iff p 0).0 (ground arith) in rw only (omega arith)

avail_during_iff_example :
    ((avail_during four_cores (pos 2) 3 (resources (1 ∷ [])) 1).0 ≡ true)
    ↔ Fits four_cores (pos 2) (pos 5) (resources (1 ∷ [])) 1
unfolding initialize ◌+ℤ◌
avail_during_iff_example =
    avail_during_iff four_cores (pos 2) 3 (resources (1 ∷ [])) 1 four_cores-IsValid (omega arith)
      (omega arith) refl four_cores-HasSlack

planner_add_span_iff_example :
    Returns
      (planner_add_span plain (some four_cores) (pos 2) 3 (1 ∷ []))
      λ r. (r.1 ≡ pos 1) ↔ Fits four_cores (pos 2) (pos 5) (resources (1 ∷ [])) 1
unfolding initialize ◌+ℤ◌ span_input_check
planner_add_span_iff_example =
    planner_add_span_iff plain-IsLawful four_cores 2 3 (1 ∷ []) four_cores-IsValid (omega arith)
      (omega arith) refl refl four_cores-HasSlack

scheduled_point_state-latest_example :
    scheduled_point_state full_plan.heap (pos 3) full_plan.sched_point_tree
    ≡ latest full_plan.heap (pos 3) (inorder full_plan.sched_point_tree) none
scheduled_point_state-latest_example =
    scheduled_point_state-latest full_plan.heap (pos 3) full_plan.sched_point_tree
      full_plan-IsValid.0.sorted
