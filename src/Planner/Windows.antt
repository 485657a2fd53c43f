-- ===== src/Planner/Windows.antt =====
-- `planner/planner.c`: what is available at a time and during a window.
use resource_query.Prelude.{
  ℕ, zero, suc, ℤ, pos, negsuc, ◌+ℤ◌, ltb_ℤ, ltb, to_i64, to_u64, add64, List, [], ◌∷◌, Bool, true,
  false, not, Option, none, some, if◌then◌else◌, length,
}
use resource_query.Run.{Run, ok, fault, diverges}
use resource_query.Planner.Points.{Addr, ResourceArray, Heap, rb_walk, scheduled_point_state}
use resource_query.Planner.Mintime.{planner_num_types, rescmp, points, mintime_resource_mintime}
use resource_query.Planner.Context.{
  MinTime, PlannerContext, Libs, mintime_resource_remove, track_points,
}

-- `ERANGE`
abbrev pub out_of_bounds : ℕ
out_of_bounds = 34

-- Whether a window ends after the plan does, by the comparison of unsigned numbers that C makes.
abbrev pub past_end : PlannerContext → ℤ → ℕ → Bool
past_end ctx at duration = ltb (to_u64 ctx.plan_end) (add64 at duration)

abbrev pub points_from : PlannerContext → Option Addr → List Addr
points_from ctx p = rb_walk p ctx.sched_point_tree

-- The loop of `avail_during`, over the points from the state on.
unfoldable pub during_loop : Heap → ℤ → ResourceArray → ℕ → List Addr → Bool
during_loop heap end counts len [] = true
during_loop heap end counts len (p ∷ ps) =
    let rest = during_loop heap end counts len ps in
    if not (ltb_ℤ (heap p).at end)
    then true
    else if ltb_ℤ (pos 0) (rescmp counts (heap p).remaining len)
    then false
    else rest

-- The `-1` that it returns for a window past the end converts to `true`.
unfoldable pub avail_during : PlannerContext → ℤ → ℕ → ResourceArray → ℕ → Bool × Option ℕ
unfolding during_loop
avail_during ctx at duration counts len =
    if past_end ctx at duration then (true, some out_of_bounds) else (
      during_loop ctx.heap (at +ℤ to_i64 duration) counts len
          (points_from ctx (scheduled_point_state ctx.heap at ctx.sched_point_tree)),
      none,
    )

-- The loop of `avail_resources_during`, with the least point so far.
unfoldable pub least_loop : Heap → ℤ → Addr → List Addr → Addr
unfolding rescmp
least_loop heap end min [] = min
least_loop heap end min (p ∷ ps) =
    let less = ltb_ℤ (pos 0) (rescmp (heap min).remaining (heap p).remaining planner_num_types) in
    let rest = least_loop heap end (if less then p else min) ps in
    if not (ltb_ℤ (heap p).at end) then min else rest

unfoldable pub avail_resources_during : PlannerContext → ℤ → ℕ → Option Addr × Option ℕ
unfolding least_loop
avail_resources_during ctx at duration =
    let state = scheduled_point_state ctx.heap at ctx.sched_point_tree in
    let least : Option Addr = elim state [
      | none ↦ none
      | some p ↦ some (least_loop ctx.heap (at +ℤ to_i64 duration) p (points_from ctx (some p)))
    ] in
    if past_end ctx at duration then (none, some out_of_bounds) else (least, none)

module _ (lib : Libs) where
  -- The loop is that of `avail_during`, from the start point on.
  unfoldable pub span_ok : PlannerContext → MinTime → Addr → ℕ → ResourceArray → ℕ → Bool × MinTime
  unfolding during_loop
  span_ok ctx mt start_point duration counts len =
      if during_loop ctx.heap ((ctx.heap start_point).at +ℤ to_i64 duration) counts len
        (points_from ctx (some start_point))
      then (true, mt)
      else (
        false,
        track_points ctx.heap start_point (mintime_resource_remove lib ctx.heap start_point mt),
      )

  -- The loop of `avail_at` over `at` and the tree.
  unfoldable pub avail_loop :
      ℕ → PlannerContext → ℤ → ℕ → ResourceArray → ℕ → MinTime → ℤ → Run (MinTime × ℤ × Option ℕ)
  unfolding span_ok
  avail_loop zero ctx on_or_after duration counts len mt at = fault diverges
  avail_loop (suc fuel) ctx on_or_after duration counts len mt at =
      let (found, e) = mintime_resource_mintime ctx.heap counts len mt.mt_resource_tree in
      elim found [
        | none ↦ ok (mt, at, e)
        | some start_point ↦
            let at' = (ctx.heap start_point).at in
            let out =
              track_points ctx.heap start_point
                (mintime_resource_remove lib ctx.heap start_point mt) in
            let (fits, mt') = span_ok ctx mt start_point duration counts len in
            let early = avail_loop fuel ctx on_or_after duration counts len out (negsuc 0) in
            let next = avail_loop fuel ctx on_or_after duration counts len mt' at' in
            if ltb_ℤ at' on_or_after
            then early
            else if fits
            then ok (out, if past_end ctx at' duration then negsuc 0 else at', none)
            else next
      ]

  -- Each round takes a point out of the tree, so one round more than it has points is enough.
  unfoldable pub avail_at :
      PlannerContext → MinTime → ℤ → ℕ → ResourceArray → ℕ → Run (MinTime × ℤ × Option ℕ)
  unfolding avail_loop
  avail_at ctx mt on_or_after duration counts len =
      avail_loop (suc (length (points mt.mt_resource_tree))) ctx on_or_after duration counts len mt
        (negsuc 0)
