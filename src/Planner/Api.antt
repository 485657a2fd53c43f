-- ===== src/Planner/Api.antt =====
-- `planner/planner.c`: the rest of the public calls. A null planner or a null result is `none`; an
-- array argument and its length are a list, and a null array is not passed.
pub mod Left
pub mod Spans
use resource_query.Prelude.{
  ℕ, zero, suc, ◌-◌, ◌^◌, ℤ, pos, negsuc, ◌-ℤ◌, ltb_ℤ, ltb, List, [], ◌∷◌, Bool, true, false, not,
  ◌||◌, ◌=?◌, Option, none, some, lookup, int_key, string_key, length, get_elem?, String,
  if◌then◌else◌,
}
use resource_query.Run.{Run, ok, fault, null_access, out_of_range, ◌>>=◌}
use resource_query.Planner.Points.{Addr, ResourceArray, Heap, leaf, scheduled_point_state}
use resource_query.Planner.Mintime.{planner_num_types, rescmp}
use resource_query.Planner.Context.{
  Request, Span, MinTime, PlannerContext, Libs, restore_track_points,
}
use resource_query.Planner.Windows.{out_of_bounds, avail_during, avail_resources_during, avail_at}
use resource_query.Planner.Spans.{invalid, resources, initialize}

abbrev pub no_points : MinTime
no_points = record {
  mt_resource_tree = leaf;
  in_mt_resource_tree = λ _. false;
  avail_time_iter = [];
}

-- The memory that `xzmalloc` clears, before `initialize` fills it.
abbrev pub cleared : Heap → List ℕ → List String → PlannerContext
cleared heap totals types = record {
  total_resources = resources totals;
  resource_types = types;
  dimension = length totals;
  plan_start = pos 0;
  plan_end = pos 0;
  sched_point_tree = leaf;
  mt = no_points;
  p0 = 0;
  span_lookup = [];
  current_request = record {
    on_or_after = pos 0;
    duration = 0;
    resources = λ _. pos 0;
    dimension = 0;
  };
  avail_time_iter_set = false;
  span_counter = 0;
  heap = heap;
  next = 0;
}

-- The loop over the totals.
abbrev pub too_large : List ℕ → Bool
too_large [] = false
too_large (n ∷ ns) = ltb (2 ^ 63 - 1) n || too_large ns

module _ (lib : Libs) where
  unfoldable pub planner_new :
      Heap → ℤ → ℕ → List ℕ → List String → Option PlannerContext × Option ℕ
  unfolding initialize
  planner_new heap base_time duration totals types =
      if ltb duration 1 || ltb planner_num_types (length totals)
      then (none, some invalid)
      else if too_large totals
      then (none, some out_of_bounds)
      else (some (initialize lib (cleared heap totals types) base_time duration), none)

  unfoldable pub planner_reset :
      Option PlannerContext → ℤ → ℕ → Option PlannerContext × ℤ × Option ℕ
  unfolding initialize
  planner_reset none base_time duration = (none, negsuc 0, some invalid)
  planner_reset (some ctx) base_time duration =
      if ltb duration 1
      then (some ctx, negsuc 0, some invalid)
      else (some (initialize lib ctx base_time duration), pos 0, none)

  unfoldable pub planner_avail_time_first :
      Option PlannerContext → ℤ → ℕ → List ℕ → Run (Option PlannerContext × ℤ × Option ℕ)
  unfolding restore_track_points avail_at
  planner_avail_time_first none on_or_after duration counts = ok (none, negsuc 0, some invalid)
  planner_avail_time_first (some ctx) on_or_after duration counts =
      let len = length counts in
      let request : Request = record {
        on_or_after = on_or_after;
        duration = duration;
        resources = resources counts;
        dimension = len;
      } in
      let ctx' : PlannerContext = record ctx {
        avail_time_iter_set = true;
        current_request = request;
      } in
      if ltb_ℤ on_or_after ctx.plan_start
        || not (ltb_ℤ on_or_after ctx.plan_end)
        || ltb duration 1
        || ltb ctx.dimension len
      then ok (some ctx, negsuc 0, some invalid)
      else if ltb_ℤ (pos 0) (rescmp (resources counts) ctx.total_resources len)
      then ok (some ctx, negsuc 0, some out_of_bounds)
      else (avail_at lib ctx' (restore_track_points lib ctx) on_or_after duration (resources counts)
            len
          >>= λ r. ok (some (record ctx' { mt = r.0 }), r.1, r.2))

  unfoldable pub planner_avail_time_next :
      Option PlannerContext → Run (Option PlannerContext × ℤ × Option ℕ)
  unfolding avail_at
  planner_avail_time_next none = ok (none, negsuc 0, some invalid)
  planner_avail_time_next (some ctx) =
      let r = ctx.current_request in
      if not ctx.avail_time_iter_set
      then ok (some ctx, negsuc 0, some invalid)
      else if ltb_ℤ (pos 0) (rescmp r.resources ctx.total_resources r.dimension)
      then ok (some ctx, negsuc 0, some out_of_bounds)
      else (avail_at lib ctx ctx.mt r.on_or_after r.duration r.resources r.dimension >>= λ a.
          ok (some (record ctx { mt = a.0 }), a.1, a.2))

unfoldable pub planner_base_time : Option PlannerContext → ℤ × Option ℕ
planner_base_time none = (negsuc 0, some invalid)
planner_base_time (some ctx) = (ctx.plan_start, none)

unfoldable pub planner_duration : Option PlannerContext → ℤ × Option ℕ
planner_duration none = (negsuc 0, some invalid)
planner_duration (some ctx) = (ctx.plan_end -ℤ ctx.plan_start, none)

unfoldable pub planner_resources_len : Option PlannerContext → ℕ × Option ℕ
planner_resources_len none = (0, some invalid)
planner_resources_len (some ctx) = (ctx.dimension, none)

unfoldable pub planner_resource_total_at : Option PlannerContext → ℕ → ℤ × Option ℕ
planner_resource_total_at none i = (negsuc 0, some invalid)
planner_resource_total_at (some ctx) i =
    if not (ltb i ctx.dimension) then (negsuc 0, some invalid) else (ctx.total_resources i, none)

unfoldable pub planner_resource_totals : Option PlannerContext → Option ResourceArray × Option ℕ
planner_resource_totals none = (none, some invalid)
planner_resource_totals (some ctx) = (some ctx.total_resources, none)

unfoldable pub planner_resource_types : Option PlannerContext → Option (List String) × Option ℕ
planner_resource_types none = (none, some invalid)
planner_resource_types (some ctx) = (some ctx.resource_types, none)

-- The loop that looks for a type, from index `i` on.
unfoldable pub type_loop : ℕ → List String → String → Option ℕ
type_loop i [] type = none
type_loop i (t ∷ ts) type =
    let rest = type_loop (suc i) ts type in if t =? type then some i else rest

unfoldable pub planner_resource_total_by_type : Option PlannerContext → String → ℤ × Option ℕ
unfolding type_loop
planner_resource_total_by_type none type = (negsuc 0, some invalid)
planner_resource_total_by_type (some ctx) type = elim (type_loop 0 ctx.resource_types type) [
  | none ↦ (negsuc 0, none)
  | some i ↦ (ctx.total_resources i, none)
]

unfoldable pub planner_resource_index_of_type : Option PlannerContext → String → ℤ × Option ℕ
unfolding type_loop
planner_resource_index_of_type none type = (negsuc 0, some invalid)
planner_resource_index_of_type (some ctx) type = elim (type_loop 0 ctx.resource_types type) [
  | none ↦ (negsuc 0, none)
  | some i ↦ (pos i, none)
]

unfoldable pub planner_resource_type_at : Option PlannerContext → ℕ → Option String × Option ℕ
planner_resource_type_at none i = (none, some invalid)
planner_resource_type_at (some ctx) i =
    if not (ltb i ctx.dimension)
    then (none, some invalid)
    else (get_elem? ctx.resource_types i, none)
