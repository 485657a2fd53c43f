-- ===== src/Planner/First.antt =====
-- The times that `planner_avail_time_first` and `planner_avail_time_next` give, on a valid planner.
use resource_query.Prelude.{
  ℕ, suc, ℤ, pos, negsuc, ◌+ℤ◌, ltb_ℤ, ltb, ◌≤ℤ◌, to_i64, List, length, true, false, not, ◌||◌,
  none, some, ◌≡◌, ◌⊎◌, inl, inr, refl, arith, Bool-cases, int_key,
}
use resource_query.Run.{Returns}
use resource_query.Planner.Points.{Addr, ResourceArray, inorder}
use resource_query.Planner.Points.Sorted.{elem}
use resource_query.Planner.Points.Members.{latest_self}
use resource_query.Planner.Mintime.{points, rescmp, mintime_resource_mintime}
use resource_query.Planner.Context.{
  Request, MinTime, PlannerContext, Libs, IsLawful, restore_track_points,
}
use resource_query.Planner.Windows.{past_end, avail_at}
use resource_query.Planner.Spans.{resources}
use resource_query.Planner.Spans.Invariant.{booked, full, IsValid}
use resource_query.Planner.Spans.Points.{level}
use resource_query.Planner.Fits.{Fits, later_latest, covered_sum}
use resource_query.Planner.Times.{has_room, avail_loop-Answers}
use resource_query.Planner.Tracked.{IsTracked, IsComplete, IsWhole-IsTracked}
use resource_query.Planner.Tracked.Flags.{restore_track_points-IsFlagged, IsFlagged-IsComplete}
use resource_query.Planner.Tracked.Restore.{restore_track_points-IsWhole}
use resource_query.Planner.Api.{planner_avail_time_first, planner_avail_time_next}

module _ {lib : Libs} (law : IsLawful lib) where
  -- A start that is not too early, from which the counts fit for the whole window, within the plan;
  -- or a time that is given though no candidate had room, when none is left in the tree.
  abbrev pub Starts : PlannerContext → ℤ → ℕ → ResourceArray → ℕ → MinTime → ℤ → Type 0
  Starts ctx on_or_after duration counts len mt t =
      (on_or_after ≤ℤ t)
      × (((past_end ctx t duration ≡ false) × Fits ctx t (t +ℤ to_i64 duration) counts len)
          ⊎ ((mintime_resource_mintime ctx.heap counts len mt.mt_resource_tree).0 ≡ none))

  room-Fits :
      (ctx : PlannerContext) (duration : ℕ) (counts : ResourceArray) (len : ℕ) (p : Addr)
      → IsValid ctx
      → ctx.plan_start ≤ℤ (ctx.heap p).at
      → elem p (inorder ctx.sched_point_tree) ≡ true
      → has_room ctx duration counts len p ≡ true
      → Fits ctx (ctx.heap p).at ((ctx.heap p).at +ℤ to_i64 duration) counts len
  room-Fits ctx duration counts len p (c, _, _, _, _, _) start e room t from until i index =
      let ps = inorder ctx.sched_point_tree in
      let (q, found', _, _, left) = level c t (omega arith) in
      let covers =
        later_latest ctx.heap (ctx.heap p).at ((ctx.heap p).at +ℤ to_i64 duration) t counts len ps p
          q c.sorted (latest_self ctx.heap ps p c.sorted e) found' from until room in
      covered_sum (counts i) ((ctx.heap q).remaining i) (booked ctx.span_lookup t i) (full ctx i)
        (covers i index) (left i)

  avail_at-Starts :
      (ctx : PlannerContext) (mt : MinTime) (on_or_after : ℤ) (duration : ℕ)
      (counts : ResourceArray) (len : ℕ)
      → IsValid ctx
      → IsTracked ctx.heap (inorder ctx.sched_point_tree) mt
      → IsComplete ctx.heap (inorder ctx.sched_point_tree) mt
      → Returns (avail_at lib ctx mt on_or_after duration counts len) λ r.
        ((r.1 ≡ negsuc 0)
          ⊎ (ctx.plan_start ≤ℤ on_or_after → Starts ctx on_or_after duration counts len r.0 r.1))
        × IsTracked ctx.heap (inorder ctx.sched_point_tree) r.0
        × IsComplete ctx.heap (inorder ctx.sched_point_tree) r.0
  unfolding avail_at
  avail_at-Starts ctx mt on_or_after duration counts len valid tracked complete =
      let ps = inorder ctx.sched_point_tree in
      let (r, run, (answer, tracked', complete')) =
        avail_loop-Answers law ctx on_or_after duration counts len ps
          (suc (length (points mt.mt_resource_tree))) mt (negsuc 0) (omega arith) tracked complete
          (inl refl) in
      (
        r,
        run,
        (
          elim answer [
            | inl minus ↦ inl minus
            | inr (p, (e, time, late), what) ↦ inr (λ start. (
              rw time late,
              elim what [
                | inl (room, within) ↦ inl (
                  rw time within,
                  rw time (room-Fits ctx duration counts len p valid (omega arith) e room),
                )
                | inr (short, none_left) ↦ inr none_left
              ],
            ))
          ],
          tracked',
          complete',
        ),
      )

  -- The search puts the points that it passes aside, and books nothing.
  IsValid-still :
      (ctx : PlannerContext) (mt : MinTime)
      → IsValid ctx
      → IsTracked ctx.heap (inorder ctx.sched_point_tree) mt
      → IsComplete ctx.heap (inorder ctx.sched_point_tree) mt
      → IsValid (record ctx { mt = mt })
  IsValid-still ctx mt (c, p0, keys, windows, (used, _), _) tracked complete =
      (c, p0, keys, windows, (used, complete), tracked)

  -- On a valid planner the search for a first time ends, and leaves a valid planner with the same
  -- spans. It gives -1, or a time from which the counts fit for the whole window within the plan, not
  -- before the time asked for; or no candidate is left in the tree.
  pub planner_avail_time_first-Starts :
      (ctx : PlannerContext) (on_or_after : ℤ) (duration : ℕ) (counts : List ℕ)
      → IsValid ctx
      → Returns (planner_avail_time_first lib (some ctx) on_or_after duration counts) λ r.
        (ctx' : PlannerContext) × (r.0 ≡ some ctx')
        × IsValid ctx'
        × (ctx'.span_lookup ≡ ctx.span_lookup)
        × (ctx'.span_counter ≡ ctx.span_counter)
        × ((r.1 ≡ negsuc 0)
            ⊎ Starts ctx on_or_after duration (resources counts) (length counts) ctx'.mt r.1)
  unfolding planner_avail_time_first
  planner_avail_time_first-Starts ctx on_or_after duration counts valid =
      let len = length counts in
      let refused =
        ltb_ℤ on_or_after ctx.plan_start
        || not (ltb_ℤ on_or_after ctx.plan_end)
        || ltb duration 1
        || ltb ctx.dimension len in
      elim (Bool-cases refused) [
        | inl bad ↦ rw bad (_, refl, (ctx, refl, valid, refl, refl, inl refl))
        | inr good ↦
            elim (Bool-cases (ltb_ℤ (pos 0) (rescmp (resources counts) ctx.total_resources len))) [
              | inl above ↦ rw (good, above) (_, refl, (ctx, refl, valid, refl, refl, inl refl))
              | inr within ↦
                  let request : Request = record {
                    on_or_after = on_or_after;
                    duration = duration;
                    resources = resources counts;
                    dimension = len;
                  } in
                  let ctx' : PlannerContext = record ctx {
                    avail_time_iter_set = true;
                    current_request = request;
                  } in
                  let ps = inorder ctx.sched_point_tree in
                  let mt = restore_track_points lib ctx in
                  let whole = restore_track_points-IsWhole law ctx ps valid.5 in
                  let flagged =
                    restore_track_points-IsFlagged law ctx ps valid.0.sorted valid.5 valid.4.1 in
                  let (r, run, (answer, tracked, complete)) =
                    avail_at-Starts ctx' mt on_or_after duration (resources counts) len valid
                      (IsWhole-IsTracked ctx.heap ps mt whole)
                      (IsFlagged-IsComplete ctx.heap ps mt flagged) in
                  rw (good, within, run)
                    (
                      _,
                      refl,
                      (
                        record ctx' { mt = r.0 },
                        refl,
                        IsValid-still ctx' r.0 valid tracked complete,
                        refl,
                        refl,
                        elim answer [
                          | inl minus ↦ inl minus
                          | inr starts ↦ inr (starts (not_before good))
                        ],
                      ),
                    )
            ]
      ]
    where
      not_before :
          (ltb_ℤ on_or_after ctx.plan_start
              || not (ltb_ℤ on_or_after ctx.plan_end)
              || ltb duration 1
              || ltb ctx.dimension (length counts))
            ≡ false
          → ctx.plan_start ≤ℤ on_or_after
      not_before h = ground arith

  -- On a valid planner the search for the next time ends too, and leaves a valid planner with the same
  -- spans. It gives -1; or, where the request that is kept is not before the plan, a time not before the
  -- request's, from which its counts fit for the whole window within the plan, or no candidate is left.
  pub planner_avail_time_next-Starts :
      (ctx : PlannerContext)
      → IsValid ctx
      → Returns (planner_avail_time_next lib (some ctx)) λ r.
        (ctx' : PlannerContext) × (r.0 ≡ some ctx')
        × IsValid ctx'
        × (ctx'.span_lookup ≡ ctx.span_lookup)
        × (ctx'.span_counter ≡ ctx.span_counter)
        × ((r.1 ≡ negsuc 0)
            ⊎ (ctx.plan_start ≤ℤ ctx.current_request.on_or_after
                → Starts ctx ctx.current_request.on_or_after ctx.current_request.duration
                    ctx.current_request.resources ctx.current_request.dimension ctx'.mt r.1))
  unfolding planner_avail_time_next
  planner_avail_time_next-Starts ctx valid =
      let q = ctx.current_request in
      elim (Bool-cases (not ctx.avail_time_iter_set)) [
        | inl unset ↦ rw unset (_, refl, (ctx, refl, valid, refl, refl, inl refl))
        | inr set ↦
            elim (Bool-cases (ltb_ℤ (pos 0) (rescmp q.resources ctx.total_resources q.dimension))) [
              | inl above ↦ rw (set, above) (_, refl, (ctx, refl, valid, refl, refl, inl refl))
              | inr within ↦
                  let (r, run, (answer, tracked, complete)) =
                    avail_at-Starts ctx ctx.mt q.on_or_after q.duration q.resources q.dimension
                      valid valid.5 valid.4.1 in
                  rw (set, within, run)
                    (
                      _,
                      refl,
                      (
                        record ctx { mt = r.0 },
                        refl,
                        IsValid-still ctx r.0 valid tracked complete,
                        refl,
                        refl,
                        answer,
                      ),
                    )
            ]
      ]
