-- ===== src/Planner/Spans.antt =====
-- `planner/planner.c`: making a planner, and adding and removing spans.
pub mod Invariant
pub mod Points
pub mod Got
pub mod Overlap
pub mod Rebuild
pub mod Unbook
pub mod Calls
pub mod Add
pub mod Release
pub mod Remove
use resource_query.Prelude.{
  ℕ, zero, suc, ◌+◌, ◌-◌, ◌%◌, ℤ, pos, negsuc, ◌+ℤ◌, ◌-ℤ◌, ◌==ℤ◌, ltb_ℤ, ltb, to_i64, to_u64, add64,
  u64, List, [], ◌∷◌, Bool, true, false, not, ◌&&◌, ◌||◌, ◌==◌, Option, none, some, Dict, lookup,
  insert, contains, int_key, any, length, String, if◌then◌else◌,
}
use resource_query.Run.{Run, ok, fault, null_access, out_of_range, ◌>>=◌}
use resource_query.Planner.Points.{
  Addr, ResourceArray, ScheduledPoint, Heap, write, Tree, leaf, scheduled_point_state,
}
use resource_query.Planner.Mintime.{planner_num_types}
use resource_query.Planner.Context.{
  Request, Span, MinTime, PlannerContext, Libs, mintime_resource_insert, mintime_resource_remove,
  restore_track_points, update_mintime_resource_tree, scheduled_point_insert,
  scheduled_point_remove, get_or_new_point, fetch_overlap_points, add_demand, subtract_demand,
  update_points, any_index, exceeds, falls_short,
}
use resource_query.Planner.Windows.{out_of_bounds, past_end, points_from, avail_during}

-- `EINVAL`
abbrev pub invalid : ℕ
invalid = 22

-- A `uint64_t` array and its length. Past its end the array reads as 0 here, where C clears what it
-- allocates.
abbrev pub resources : List ℕ → ResourceArray
resources [] i = pos 0
resources (n ∷ ns) zero = to_i64 n
resources (n ∷ ns) (suc i) = resources ns i

-- A `zhashx_t` keeps the entry that a key has, and deletes one entry.
unfoldable pub zhashx_insert : ℤ → Span → Dict ℤ Span → Dict ℤ Span
zhashx_insert k s table = if contains k table then table else (k, s) ∷ table

unfoldable pub zhashx_delete : ℤ → Dict ℤ Span → Dict ℤ Span
zhashx_delete k [] = []
zhashx_delete k ((j, s) ∷ table) = if j ==ℤ k then table else (j, s) ∷ zhashx_delete k table

unfoldable pub not_feasable : PlannerContext → ℤ → ℕ → ℕ → Bool
not_feasable ctx start_time duration len =
    ltb_ℤ start_time ctx.plan_start
    || ltb duration 1
    || ltb (to_u64 ctx.plan_end) ((add64 start_time duration + (u64 - 1)) % u64)
    || ltb planner_num_types len

-- The loop of `span_input_check`: whether a count is above its total, and the sum of the counts.
unfoldable pub count_loop : ResourceArray → ℕ → List ℕ → ℤ → Option ℤ
count_loop total i [] sum = some sum
count_loop total i (n ∷ ns) sum =
    let rest = count_loop total (suc i) ns (sum +ℤ to_i64 n) in
    if ltb_ℤ (total i) (to_i64 n) then none else rest

-- What it sets `errno` to, if it returns -1.
unfoldable pub span_input_check : PlannerContext → ℤ → ℕ → List ℕ → Option ℕ
unfolding not_feasable count_loop
span_input_check ctx start_time duration counts =
    if not_feasable ctx start_time duration (length counts)
    then some invalid
    else elim (count_loop ctx.total_resources 0 counts (pos 0)) [
      | none ↦ some out_of_bounds
      | some sum ↦ if not (ltb_ℤ (pos 0) sum) then some out_of_bounds else none
    ]

-- `rescmp` reads past an array of five: the request is longer, and no count before is greater.
unfoldable pub overruns : ResourceArray → ResourceArray → ℕ → Bool
unfolding any_index
overruns counts remaining len =
    ltb planner_num_types len
    && not (any_index planner_num_types λ i. ltb_ℤ (pos 0) (counts i -ℤ remaining i))

-- The first point that the loop of `avail_during` compares.
unfoldable pub first_overruns : Heap → ℤ → ResourceArray → ℕ → List Addr → Bool
unfolding overruns
first_overruns heap end counts len [] = false
first_overruns heap end counts len (p ∷ ps) =
    ltb_ℤ (heap p).at end && overruns counts (heap p).remaining len

-- `avail_during` reads past the counts of a point, which comes before the check of the length.
unfoldable pub reads_past : PlannerContext → ℤ → ℕ → ResourceArray → ℕ → Bool
unfolding first_overruns
reads_past ctx at duration counts len =
    not (past_end ctx at duration)
    && first_overruns ctx.heap (at +ℤ to_i64 duration) counts len
        (points_from ctx (scheduled_point_state ctx.heap at ctx.sched_point_tree))

-- `span_new`, with the counter that the new span takes its id from.
abbrev pub span_new : PlannerContext → ℤ → ℕ → List ℕ → Span
span_new ctx start_time duration counts = record {
  start = start_time;
  last = to_i64 (add64 start_time duration);
  span_id = to_i64 ((ctx.span_counter + 1) % u64);
  planned = resources counts;
  dimension = length counts;
  in_system = false;
  start_p = 0;
  last_p = 0;
}

abbrev pub count_up : PlannerContext → PlannerContext
count_up ctx = record ctx { span_counter = (ctx.span_counter + 1) % u64 }

-- `p->ref_count++` and `p->ref_count--`. The count is an `int`, whose overflow C leaves undefined; here
-- it is unbounded.
unfoldable pub refer : ℤ → Addr → PlannerContext → PlannerContext
refer n p ctx = record ctx {
  heap = write p (record (ctx.heap p) { ref_count = (ctx.heap p).ref_count +ℤ n }) ctx.heap;
}

module _ (lib : Libs) where
  -- `initialize`, over a context that has its totals and types.
  unfoldable pub initialize : PlannerContext → ℤ → ℕ → PlannerContext
  unfolding scheduled_point_insert mintime_resource_insert
  initialize ctx base_time duration =
      let p0 = ctx.next in
      let point : ScheduledPoint = record {
        at = base_time;
        ref_count = pos 1;
        scheduled = λ _. pos 0;
        remaining = λ i. if ltb i ctx.dimension then ctx.total_resources i else pos 0;
      } in
      let heap = write p0 point ctx.heap in
      let no_points : MinTime = record {
        mt_resource_tree = leaf;
        in_mt_resource_tree = λ _. false;
        avail_time_iter = [];
      } in
      record ctx {
        plan_start = base_time;
        plan_end = base_time +ℤ to_i64 duration;
        heap = heap;
        next = suc p0;
        p0 = p0;
        sched_point_tree = (scheduled_point_insert lib heap p0 leaf).0;
        mt = mintime_resource_insert lib heap ctx.dimension p0 no_points;
        span_lookup = [];
        current_request = record {
          on_or_after = pos 0;
          duration = 0;
          resources = λ _. pos 0;
          dimension = 0;
        };
        avail_time_iter_set = false;
        span_counter = 0;
      }

  -- `planner_add_span` once the span is made: its two points, its demand on the points between
  -- them, and the span's entry, which C makes first and completes here.
  unfoldable pub add_to_points : PlannerContext → Span → ℕ → Run (PlannerContext × Option ℕ)
  unfolding get_or_new_point fetch_overlap_points refer add_demand update_points zhashx_insert
      restore_track_points update_mintime_resource_tree exceeds
  add_to_points ctx span duration =
      get_or_new_point lib (record ctx { mt = restore_track_points lib ctx }) span.start >>= λ a.
      get_or_new_point lib (refer (pos 1) a.1 a.0) span.last >>= λ b.
      let ctx₁ = refer (pos 1) b.1 b.0 in
      let list = fetch_overlap_points ctx₁ span.start duration in
      let heap = update_points (add_demand span) list ctx₁.heap in
      let entry = record span { in_system = true; start_p = a.1; last_p = b.1 } in
      ok (
        record ctx₁ {
          heap = heap;
          mt = update_mintime_resource_tree lib heap ctx₁.dimension list ctx₁.mt;
          span_lookup = zhashx_insert span.span_id entry ctx₁.span_lookup;
          avail_time_iter_set = false;
        },
        if any (λ p. exceeds ctx.total_resources span.dimension (heap p)) list
            then some out_of_bounds
            else none,
      )

  -- A null planner is read through at once, and so is memory past the counts of a point.
  unfoldable pub planner_add_span :
      Option PlannerContext → ℤ → ℕ → List ℕ → Run (Option PlannerContext × ℤ × Option ℕ)
  unfolding reads_past avail_during span_input_check add_to_points
  planner_add_span none start_time duration counts = fault null_access
  planner_add_span (some ctx) start_time duration counts =
      let (fits, e) = avail_during ctx start_time duration (resources counts) (length counts) in
      if reads_past ctx start_time duration (resources counts) (length counts)
      then fault out_of_range
      else if not fits
      then ok (some ctx, negsuc 0, some invalid)
      else elim (span_input_check ctx start_time duration counts) [
        | some e' ↦ ok (some ctx, negsuc 0, some e')
        | none ↦
            let span = span_new ctx start_time duration counts in
            add_to_points (count_up ctx) span duration >>= λ c.
            ok (some c.0, span.span_id, elim c.1 [ none ↦ e | some e' ↦ some e' ])
      ]

  -- A point that no span refers to is taken out of the two trees and freed.
  unfoldable pub release : Addr → PlannerContext → PlannerContext
  unfolding scheduled_point_remove mintime_resource_remove
  release p ctx =
      if (ctx.heap p).ref_count ==ℤ pos 0
      then record ctx {
        sched_point_tree = (scheduled_point_remove lib ctx.heap p ctx.sched_point_tree).0;
        mt =
            if ctx.mt.in_mt_resource_tree p
            then mintime_resource_remove lib ctx.heap p ctx.mt
            else ctx.mt;
      }
      else ctx

  unfoldable pub remove_from_points : PlannerContext → ℤ → Span → PlannerContext × Option ℕ
  unfolding fetch_overlap_points refer subtract_demand update_points zhashx_delete
      restore_track_points update_mintime_resource_tree falls_short release
  remove_from_points ctx span_id span =
      let duration = to_u64 (span.last -ℤ span.start) in
      let ctx₁ =
        refer (negsuc 0) span.last_p
          (refer (negsuc 0) span.start_p (record ctx { mt = restore_track_points lib ctx })) in
      let list = fetch_overlap_points ctx₁ span.start duration in
      let heap = update_points (subtract_demand span) list ctx₁.heap in
      let mt = update_mintime_resource_tree lib heap ctx₁.dimension list ctx₁.mt in
      let ctx₂ =
        release span.last_p (release span.start_p (record ctx₁ { heap = heap; mt = mt })) in
      (
        record ctx₂ {
          span_lookup = zhashx_delete span_id ctx₂.span_lookup;
          avail_time_iter_set = false;
        },
        if any (λ p. falls_short ctx.total_resources span.dimension (heap p)) list
            then some out_of_bounds
            else none,
      )

  unfoldable pub planner_rem_span : Option PlannerContext → ℤ → Option PlannerContext × ℤ × Option ℕ
  unfolding lookup remove_from_points
  planner_rem_span none span_id = (none, negsuc 0, some invalid)
  planner_rem_span (some ctx) span_id = elim (lookup span_id ctx.span_lookup) [
    | none ↦ (some ctx, negsuc 0, some invalid)
    | some span ↦ let (ctx', e) = remove_from_points ctx span_id span in (some ctx', pos 0, e)
  ]
