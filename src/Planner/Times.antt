-- ===== src/Planner/Times.antt =====
-- What `avail_at` gives: it ends, and its answer is a time from which the counts are there.
use resource_query.Prelude.{
  ℕ, zero, suc, ◌<◌, ℤ, negsuc, ◌+ℤ◌, ltb_ℤ, ◌≤ℤ◌, to_i64, List, length, Bool, true, false, Option,
  contains, int_key, none, some, ◌≡◌, ◌⊎◌, inl, inr, refl, arith, Bool-cases, Option-cases,
}
use resource_query.Run.{Returns}
use resource_query.Planner.Points.{Addr, ResourceArray, without}
use resource_query.Planner.Points.Sorted.{elem}
use resource_query.Planner.Mintime.{points, mintime_resource_mintime}
use resource_query.Planner.Mintime.Nodes.{length-without, mintime-Within}
use resource_query.Planner.Context.{
  MinTime, PlannerContext, Libs, IsLawful, mintime_resource_remove, track_points,
}
use resource_query.Planner.Tracked.{IsTracked, IsComplete, placed-elem}
use resource_query.Planner.Tracked.Out.{track_points-IsTracked}
use resource_query.Planner.Tracked.Flags.{track_points-IsComplete}
use resource_query.Planner.Windows.{past_end, points_from, during_loop, span_ok, avail_loop}

-- From the point's time on the counts are there for the duration, as far as the points say.
abbrev pub has_room : PlannerContext → ℕ → ResourceArray → ℕ → Addr → Bool
has_room ctx duration counts len p =
    during_loop ctx.heap ((ctx.heap p).at +ℤ to_i64 duration) counts len (points_from ctx (some p))

module _ {lib : Libs} (law : IsLawful lib) (ctx : PlannerContext) (on_or_after : ℤ) (duration : ℕ)
    (counts : ResourceArray) (len : ℕ) where
  -- The time of a point of the list, that is not too early.
  abbrev IsTimeOf : List Addr → ℤ → Addr → Type 0
  IsTimeOf ps at p = (elem p ps ≡ true) × (at ≡ (ctx.heap p).at) × (on_or_after ≤ℤ (ctx.heap p).at)

  -- The times without a start: -1, and that of a candidate without room.
  abbrev IsRefused : List Addr → ℤ → Type 0
  IsRefused ps at =
      (at ≡ negsuc 0)
      ⊎ ((p : Addr) × IsTimeOf ps at p × (has_room ctx duration counts len p ≡ false))

  -- The time of a point that has room within the plan; or no other candidate is left in the tree.
  abbrev pub Answers : List Addr → MinTime × ℤ × Option ℕ → Type 0
  Answers ps r =
      (r.1 ≡ negsuc 0)
      ⊎ ((p : Addr) × IsTimeOf ps r.1 p
          × (((has_room ctx duration counts len p ≡ true)
                × (past_end ctx (ctx.heap p).at duration ≡ false))
              ⊎ ((has_room ctx duration counts len p ≡ false)
                  × ((mintime_resource_mintime ctx.heap counts len r.0.mt_resource_tree).0
                      ≡ none))))

  abbrev out_of_tree : MinTime → Addr → MinTime
  out_of_tree mt p = track_points ctx.heap p (mintime_resource_remove lib ctx.heap p mt)

  points-out :
      (mt : MinTime) (p : Addr)
      → points (out_of_tree mt p).mt_resource_tree ≡ without p (points mt.mt_resource_tree)
  unfolding track_points mintime_resource_remove
  points-out mt p = elim (Bool-cases (contains (ctx.heap p).at mt.avail_time_iter)) [
    | inl there ↦ rw there (law.erase_augmented-points _ p mt.mt_resource_tree)
    | inr new ↦ rw new (law.erase_augmented-points _ p mt.mt_resource_tree)
  ]

  fewer :
      (fuel : ℕ) (mt : MinTime) (p : Addr)
      → elem p (points mt.mt_resource_tree) ≡ true
      → length (points mt.mt_resource_tree) < suc fuel
      → length (points (out_of_tree mt p).mt_resource_tree) < fuel
  fewer fuel mt p e few =
      rw (points-out mt p) (omega (arith, length-without p (points mt.mt_resource_tree) e))

  -- The loop also leaves each point in the tree or in the table.
  pub avail_loop-Answers :
      (ps : List Addr) (fuel : ℕ) (mt : MinTime) (at : ℤ)
      → length (points mt.mt_resource_tree) < fuel
      → IsTracked ctx.heap ps mt
      → IsComplete ctx.heap ps mt
      → IsRefused ps at
      → Returns
          (avail_loop lib fuel ctx on_or_after duration counts len mt at)
          λ r. Answers ps r × IsTracked ctx.heap ps r.0 × IsComplete ctx.heap ps r.0
  unfolding avail_loop span_ok
  avail_loop-Answers ps zero mt at few tracked complete refused = elim few [ ]
  avail_loop-Answers ps (suc fuel) mt at few tracked complete refused =
      let search = mintime_resource_mintime ctx.heap counts len mt.mt_resource_tree in
      elim (Option-cases search.0) [
        | inl none_left ↦
            rw (none_left, avail_loop)
              (_, refl, (exhausted ps mt at search.1 none_left refused, tracked, complete))
        | inr (p, found) ↦
            let e =
              mintime-Within ctx.heap (points mt.mt_resource_tree) counts len mt.mt_resource_tree p
                (λ q h. h) found in
            let listed = placed-elem ps mt p tracked.0 e in
            let few' = fewer fuel mt p e few in
            let tracked' = track_points-IsTracked law ctx.heap ps p mt listed tracked in
            let complete' = track_points-IsComplete lib ctx.heap ps p mt complete in
            rw (found, avail_loop)
              (elim (Bool-cases (ltb_ℤ (ctx.heap p).at on_or_after)) [
                | inl early ↦ rw early (
                    avail_loop-Answers ps fuel (out_of_tree mt p) (negsuc 0) few' tracked' complete'
                      (inl refl))
                | inr late ↦
                    let time : IsTimeOf ps (ctx.heap p).at p = (listed, refl, ground arith) in
                    elim (Bool-cases (has_room ctx duration counts len p)) [
                      | inl room ↦
                          rw (late, room)
                            (elim (Bool-cases (past_end ctx (ctx.heap p).at duration)) [
                              | inl past ↦ rw past (_, refl, (inl refl, tracked', complete'))
                              | inr within ↦ rw within (
                                _,
                                refl,
                                (inr (p, time, inl (room, within)), tracked', complete'),
                              )
                            ])
                      | inr short ↦
                          rw (late, short)
                            (avail_loop-Answers ps fuel (out_of_tree mt p) (ctx.heap p).at few'
                              tracked' complete' (inr (p, time, short)))
                    ]
              ])
      ]
    where
      exhausted :
          (ps : List Addr) (mt : MinTime) (at : ℤ) (e : Option ℕ)
          → (mintime_resource_mintime ctx.heap counts len mt.mt_resource_tree).0 ≡ none
          → IsRefused ps at
          → Answers ps (mt, at, e)
      exhausted ps mt at e h (inl minus) = inl minus
      exhausted ps mt at e h (inr (p, time, short)) = inr (p, time, inr (short, h))
