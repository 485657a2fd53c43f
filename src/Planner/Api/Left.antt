-- ===== src/Planner/Api/Left.antt =====
-- `planner/planner.c`: the calls that say what is left at a time or over a window.
use resource_query.Prelude.{
  ℕ, zero, suc, ℤ, pos, negsuc, ltb_ℤ, ltb, List, [], ◌∷◌, not, ◌||◌, Option, none, some, int_key,
  string_key, length, String, if◌then◌else◌,
}
use resource_query.Run.{Run, ok, fault, null_access, ◌>>=◌}
use resource_query.Planner.Points.{Addr, ResourceArray, scheduled_point_state}
use resource_query.Planner.Mintime.{planner_num_types, rescmp}
use resource_query.Planner.Context.{PlannerContext}
use resource_query.Planner.Windows.{out_of_bounds, avail_during, avail_resources_during}
use resource_query.Planner.Spans.{invalid, resources}
use resource_query.Planner.Api.{type_loop}

unfoldable pub planner_avail_during : Option PlannerContext → ℤ → ℕ → List ℕ → ℤ × Option ℕ
unfolding avail_during
planner_avail_during none start_time duration counts = (negsuc 0, some invalid)
planner_avail_during (some ctx) start_time duration counts =
    let len = length counts in
    let (fits, e) = avail_during ctx start_time duration (resources counts) len in
    if ltb duration 1 || ltb ctx.dimension len
    then (negsuc 0, some invalid)
    else if ltb_ℤ (pos 0) (rescmp (resources counts) ctx.total_resources len)
    then (negsuc 0, some out_of_bounds)
    else (if fits then pos 0 else negsuc 0, e)

-- What a point has left, read through a pointer that may be null.
abbrev pub left_at : PlannerContext → ℕ → Option Addr → Run ℤ
left_at ctx i none = fault null_access
left_at ctx i (some p) = ok ((ctx.heap p).remaining i)

unfoldable pub planner_avail_resources_during :
    Option PlannerContext → ℤ → ℕ → ℕ → Run (ℤ × Option ℕ)
unfolding avail_resources_during
planner_avail_resources_during none at duration i = ok (negsuc 0, some invalid)
planner_avail_resources_during (some ctx) at duration i =
    let (min_point, e) = avail_resources_during ctx at duration in
    if ltb_ℤ ctx.plan_end at || ltb duration 1 || not (ltb i planner_num_types)
    then ok (negsuc 0, some invalid)
    else (left_at ctx i min_point >>= λ n. ok (n, e))

unfoldable pub planner_avail_resources_during_by_type :
    Option PlannerContext → ℤ → ℕ → String → Run (ℤ × Option ℕ)
unfolding type_loop avail_resources_during
planner_avail_resources_during_by_type none at duration type = ok (negsuc 0, some invalid)
planner_avail_resources_during_by_type (some ctx) at duration type =
    let (min_point, e) = avail_resources_during ctx at duration in
    if ltb_ℤ ctx.plan_end at || ltb duration 1
    then ok (negsuc 0, some invalid)
    else elim (type_loop 0 ctx.resource_types type) [
      | none ↦ ok (negsuc 0, some invalid)
      | some i ↦ left_at ctx i min_point >>= λ n. ok (n, e)
    ]

-- The entries below `n`, which `memcpy` gives.
abbrev pub entries : ResourceArray → ℕ → ℕ → List ℤ
entries a i zero = []
entries a i (suc n) = a i ∷ entries a (suc i) n

-- The result, the array and `errno`.
unfoldable pub planner_avail_resources_array_during :
    Option PlannerContext → ℤ → ℕ → ℕ → Run (ℤ × List ℤ × Option ℕ)
unfolding avail_resources_during
planner_avail_resources_array_during none at duration len = ok (negsuc 0, [], some invalid)
planner_avail_resources_array_during (some ctx) at duration len =
    let (min_point, e) = avail_resources_during ctx at duration in
    if ltb_ℤ ctx.plan_end at || ltb duration 1 || not (ltb len planner_num_types)
    then ok (negsuc 0, [], some invalid)
    else elim min_point [
      | none ↦ fault null_access
      | some p ↦ ok (pos 0, entries (ctx.heap p).remaining 0 len, e)
    ]

unfoldable pub planner_avail_resources_at : Option PlannerContext → ℤ → ℕ → Run (ℤ × Option ℕ)
planner_avail_resources_at none at i = ok (negsuc 0, some invalid)
planner_avail_resources_at (some ctx) at i =
    if ltb_ℤ ctx.plan_end at || not (ltb i planner_num_types)
    then ok (negsuc 0, some invalid)
    else (left_at ctx i (scheduled_point_state ctx.heap at ctx.sched_point_tree) >>= λ n.
        ok (n, none))

unfoldable pub planner_avail_resources_at_by_type :
    Option PlannerContext → ℤ → String → Run (ℤ × Option ℕ)
unfolding type_loop
planner_avail_resources_at_by_type none at type = ok (negsuc 0, some invalid)
planner_avail_resources_at_by_type (some ctx) at type =
    if ltb_ℤ ctx.plan_end at
    then ok (negsuc 0, some invalid)
    else elim (type_loop 0 ctx.resource_types type) [
      | none ↦ ok (negsuc 0, some invalid)
      | some i ↦ left_at ctx i (scheduled_point_state ctx.heap at ctx.sched_point_tree) >>= λ n.
          ok (n, none)
    ]

unfoldable pub planner_avail_resources_array_at :
    Option PlannerContext → ℤ → ℕ → Run (ℤ × List ℤ × Option ℕ)
planner_avail_resources_array_at none at len = ok (negsuc 0, [], some invalid)
planner_avail_resources_array_at (some ctx) at len =
    if ltb_ℤ ctx.plan_end at || ltb ctx.dimension len
    then ok (negsuc 0, [], some invalid)
    else elim (scheduled_point_state ctx.heap at ctx.sched_point_tree) [
      | none ↦ fault null_access
      | some p ↦ ok (pos 0, entries (ctx.heap p).remaining 0 len, none)
    ]
