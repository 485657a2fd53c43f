-- ===== src/Planner/Spans/Release.antt =====
-- `release` takes a point out where no span refers to it, and keeps the others current.
use resource_query.Prelude.{
  ℕ, ◌+◌, ℤ, pos, ◌==ℤ◌, Bool, true, false, not, ◌&&◌, sym, ◌==◌, ==_iff, Dict, int_key, ◌≡◌, inl,
  inr, refl, ◌∙◌, arith, Bool-cases,
}
use resource_query.Planner.Points.{Addr, ResourceArray, Heap, Tree, inorder, without}
use resource_query.Planner.Points.Sorted.{elem, IsSorted, scheduled_point_search-find}
use resource_query.Planner.Points.Members.{All-elem, find-elem, elem-without, elem-without_apart}
use resource_query.Planner.Context.{
  Span, PlannerContext, Libs, IsLawful, scheduled_point_remove, mintime_resource_remove,
}
use resource_query.Planner.Spans.{release}
use resource_query.Planner.Spans.Invariant.{references, IsCurrent}
use resource_query.Planner.Spans.Unbook.{free-IsCurrent}
use resource_query.Planner.Tracked.{IsWhole}
use resource_query.Planner.Tracked.Tree.{remove-IsPlaced}

module _ {lib : Libs} (law : IsLawful lib) where
  removed-inorder :
      (heap : Heap) (p : Addr) (t : Tree Addr)
      → IsSorted heap (inorder t)
      → elem p (inorder t) ≡ true
      → inorder (scheduled_point_remove lib heap p t).0 ≡ without p (inorder t)
  unfolding scheduled_point_remove
  removed-inorder heap p t s e =
      rw
        (
          scheduled_point_search-find heap (heap p).at t s ∙ find-elem heap (inorder t) p s e,
          scheduled_point_remove,
        )
        (law.erase-inorder p t)

  -- What `release` changes: the tree, by the one point at most.
  pub release-IsCurrent :
      {total : ResourceArray} {start : ℤ} {extra : Addr → ℕ} {table : Dict ℤ Span} {p0 : Addr}
      (p : Addr) (ctx : PlannerContext)
      → IsCurrent total start extra table ctx.heap ctx.next p0 (inorder ctx.sched_point_tree)
      → extra p0 ≡ 1
      → elem p (inorder ctx.sched_point_tree) ≡ true
      → IsCurrent total start extra table ctx.heap ctx.next p0
          (inorder (release lib p ctx).sched_point_tree)
        × ((q : Addr)
            → (q == p) ≡ false
            → elem q (inorder (release lib p ctx).sched_point_tree)
              ≡ elem q (inorder ctx.sched_point_tree))
  unfolding release
  release-IsCurrent {extra = extra} {table} p ctx c one e =
      elim (Bool-cases ((ctx.heap p).ref_count ==ℤ pos 0)) [
        | inr used ↦ rw used (c, λ q n. refl)
        | inl unused ↦
            let order = removed-inorder ctx.heap p ctx.sched_point_tree c.sorted e in
            let count =
              All-elem (λ q. (ctx.heap q).ref_count ≡ pos (extra q + references table q))
                (inorder ctx.sched_point_tree) p c.counted e in
            rw (unused, order)
              (
                free-IsCurrent p c one
                    (none_left (extra p + references table p) (rw (count) at unused)),
                λ q n. elem-without p q (inorder ctx.sched_point_tree) n,
              )
      ]
    where
      none_left : (n : ℕ) → (pos n ==ℤ pos 0) ≡ true → n ≡ 0
      none_left n h = ground arith

  pub release-IsWhole :
      (p : Addr) (ctx : PlannerContext)
      → IsSorted ctx.heap (inorder ctx.sched_point_tree)
      → elem p (inorder ctx.sched_point_tree) ≡ true
      → IsWhole (inorder ctx.sched_point_tree) ctx.mt
      → IsWhole (inorder (release lib p ctx).sched_point_tree) (release lib p ctx).mt
  unfolding release mintime_resource_remove
  release-IsWhole p ctx s e (placed, none_out) =
      elim (Bool-cases ((ctx.heap p).ref_count ==ℤ pos 0)) [
        | inr used ↦ rw used (placed, none_out)
        | inl unused ↦
            let ps = inorder ctx.sched_point_tree in
            let rest : (q : Addr)
                → (p == q) ≡ false
                → elem q ps ≡ true
                → elem q (without p ps) ≡ true =
              λ q n e. elem-without p q ps (flip q n) ∙ e in
            rw (unused, removed-inorder ctx.heap p ctx.sched_point_tree s e)
              (elim (Bool-cases (ctx.mt.in_mt_resource_tree p)) [
                | inl inside ↦
                    rw inside (
                      remove-IsPlaced law ctx.heap ps (without p ps) p ctx.mt rest placed,
                      none_out,
                    )
                | inr out ↦ rw out (
                  record {
                    once = placed.once;
                    listed = λ q h. rest q (apart q out h) (placed.listed q h);
                  },
                  none_out,
                )
              ])
      ]
    where
      flip : (q : Addr) → (p == q) ≡ false → (q == p) ≡ false
      flip q n = ground arith

      apart :
          (q : Addr)
          → ctx.mt.in_mt_resource_tree p ≡ false
          → ctx.mt.in_mt_resource_tree q ≡ true
          → (p == q) ≡ false
      apart q out h = elim (Bool-cases (p == q)) [
        | inr other ↦ other
        | inl same ↦ let bad = rw ((==_iff p q).0 same, h) at out in cc
      ]

  -- A point that is still there was there, and keeps its flag; the one given is referred to then.
  pub release-kept :
      (p : Addr) (ctx : PlannerContext)
      → IsSorted ctx.heap (inorder ctx.sched_point_tree)
      → elem p (inorder ctx.sched_point_tree) ≡ true
      → (q : Addr) → elem q (inorder (release lib p ctx).sched_point_tree) ≡ true
      → (elem q (inorder ctx.sched_point_tree) ≡ true)
        × ((q == p) ≡ true → ((ctx.heap q).ref_count ==ℤ pos 0) ≡ false)
        × (ctx.mt.in_mt_resource_tree q ≡ true
            → (release lib p ctx).mt.in_mt_resource_tree q ≡ true)
  unfolding release mintime_resource_remove
  release-kept p ctx s e q h = elim (Bool-cases ((ctx.heap p).ref_count ==ℤ pos 0)) [
    | inr used ↦ (rw used at h, λ same. rw ((==_iff q p).0 same) used, λ f. rw used f)
    | inl unused ↦
        let h' = rw (unused, removed-inorder ctx.heap p ctx.sched_point_tree s e) at h in
        let other = elem-without_apart ctx.heap p q (inorder ctx.sched_point_tree) s h' in
        (
          sym (elem-without p q (inorder ctx.sched_point_tree) other) ∙ h',
          λ same. absurd (true_false (sym same ∙ other)),
          λ f. rw unused (elim (Bool-cases (ctx.mt.in_mt_resource_tree p)) [
            | inl inside ↦ rw inside (still (p == q) (mirror q other) f)
            | inr out ↦ rw out f
          ]),
        )
  ]
    where
      true_false : true ≡ false → ⊥
      true_false h = cc

      mirror : (q : Addr) → (q == p) ≡ false → (p == q) ≡ false
      mirror q n = ground arith

      still : {f : Bool} (b : Bool) → b ≡ false → f ≡ true → (not b && f) ≡ true
      still b n f = ground arith

  -- The heap and the other members stay.
  pub same_rest :
      (p : Addr) (ctx : PlannerContext)
      → ((release lib p ctx).heap ≡ ctx.heap)
        × ((release lib p ctx).next ≡ ctx.next)
        × ((release lib p ctx).p0 ≡ ctx.p0)
        × ((release lib p ctx).span_lookup ≡ ctx.span_lookup)
        × ((release lib p ctx).plan_start ≡ ctx.plan_start)
        × ((release lib p ctx).dimension ≡ ctx.dimension)
        × ((release lib p ctx).total_resources ≡ ctx.total_resources)
        × ((release lib p ctx).span_counter ≡ ctx.span_counter)
  unfolding release
  same_rest p ctx = elim (Bool-cases ((ctx.heap p).ref_count ==ℤ pos 0)) [
    | inr used ↦ rw used (refl, refl, refl, refl, refl, refl, refl, refl)
    | inl unused ↦ rw unused (refl, refl, refl, refl, refl, refl, refl, refl)
  ]
