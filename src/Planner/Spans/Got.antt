-- ===== src/Planner/Spans/Got.antt =====
-- `get_or_new_point` keeps the points current.
use resource_query.Prelude.{
  ℕ, suc, ◌+◌, ◌≤◌, ◌<◌, ℤ, pos, ◌≤ℤ◌, List, [], ◌∷◌, All, Bool, true, false, Dict, none, some, ◌≡◌,
  inl, inr, refl, sym, ap, ◌∙◌, arith, Option-cases, int_key, ◌⊎◌, ◌==◌, ==_iff, ◌||◌, Bool-cases,
}
use resource_query.Run.{Returns}
use resource_query.Planner.Points.{Addr, ResourceArray, ScheduledPoint, Heap, write, Tree, inorder}
use resource_query.Planner.Points.Sorted.{
  elem, IsSorted, find, insort, scheduled_point_search-find, scheduled_point_state-latest,
}
use resource_query.Planner.Points.Insert.{link_point-insort, All-insort, insort-IsSorted}
use resource_query.Planner.Points.Members.{All-elem, All-imp, All-of, elem-insort, find-some}
use resource_query.Planner.Context.{
  Span, PlannerContext, Libs, IsLawful, scheduled_point_insert, make_point, new_point,
  get_or_new_point, mintime_resource_insert,
}
use resource_query.Planner.Tracked.{IsPlaced, IsWhole, IsFlagged}
use resource_query.Planner.Tracked.Tree.{IsPlaced-grow, insert-IsPlaced}
use resource_query.Planner.Spans.Invariant.{references, HasEnds, HasLevel, IsCurrent}
use resource_query.Planner.Spans.Points.{SameTimes, IsSorted-same, find-same, level}

-- A point that was got or made at a time, after which the points are current and the others are as
-- they were.
pub record Got (total : ResourceArray) (start : ℤ) (extra : Addr → ℕ) (ctx : PlannerContext)
    (at : ℤ) (r : PlannerContext × Addr) : Type 0 where
  pub current :
      IsCurrent total start extra ctx.span_lookup r.0.heap r.0.next ctx.p0
        (inorder r.0.sched_point_tree)
  pub found : elem r.1 (inorder r.0.sched_point_tree) ≡ true
  pub found_at : (r.0.heap r.1).at ≡ at
  pub kept :
      (q : Addr)
      → elem q (inorder ctx.sched_point_tree) ≡ true
      → (elem q (inorder r.0.sched_point_tree) ≡ true) × (r.0.heap q ≡ ctx.heap q)
  pub unchanged :
      (r.0.span_lookup ≡ ctx.span_lookup)
      × (r.0.p0 ≡ ctx.p0)
      × (r.0.plan_start ≡ ctx.plan_start)
      × (r.0.dimension ≡ ctx.dimension)
      × (r.0.total_resources ≡ ctx.total_resources)
      × (r.0.span_counter ≡ ctx.span_counter)
      × (ctx.next ≤ r.0.next)
  pub came :
      (q : Addr)
      → elem q (inorder r.0.sched_point_tree) ≡ true
      → (elem q (inorder ctx.sched_point_tree) ≡ true) ⊎ (q ≡ r.1)
  pub flagged :
      IsFlagged (inorder ctx.sched_point_tree) ctx.mt
      → IsFlagged (inorder r.0.sched_point_tree) r.0.mt
  pub whole :
      IsWhole (inorder ctx.sched_point_tree) ctx.mt → IsWhole (inorder r.0.sched_point_tree) r.0.mt

module _ {total : ResourceArray} {start : ℤ} {extra : Addr → ℕ} {table : Dict ℤ Span} {heap : Heap}
    {next p0 : Addr} {ps : List Addr} (c : IsCurrent total start extra table heap next p0 ps) where
  below_next : (q : Addr) → elem q ps ≡ true → q < next
  below_next q e = All-elem (λ q. q < next) ps q c.fresh e

  unreferenced : (t : Dict ℤ Span) → All (λ e. HasEnds heap ps e.1) t → references t next ≡ 0
  unreferenced [] h = refl
  unreferenced ((k, s) ∷ t) h = ground (
    arith,
    below_next s.start_p h.0.start_in,
    below_next s.last_p h.0.last_in,
    unreferenced t h.1,
  )

  module _ (p : ScheduledPoint) where
    kept_by_write : (q : Addr) → elem q ps ≡ true → write next p heap q ≡ heap q
    kept_by_write q e = ground (arith, below_next q e)

    same_times : SameTimes heap (write next p heap) ps
    same_times =
        All-of (λ q. (heap q).at ≡ (write next p heap q).at) ps
          (λ q e. ap (λ x. x.at) (sym (kept_by_write q e)))

    written : write next p heap next ≡ p
    written = ground arith

    -- A new point at a time where none is, with the counts of the state there, that nothing refers to.
    insert-IsCurrent :
        HasLevel total table p
        → p.ref_count ≡ pos 0
        → find heap p.at ps ≡ none
        → IsCurrent total start extra table
            (write next p heap)
            (suc next)
            p0
            (insort (write next p heap) next ps)
    insert-IsCurrent level unused free =
        let heap' = write next p heap in
        let free' : find heap' (heap' next).at ps ≡ none =
          rw (written, ← find-same heap heap' p.at ps same_times) free in
        let grown : (P : Addr → Type 0) → P next → All P ps → All P (insort heap' next ps) =
          λ P new old. All-insort heap' P next ps new old in
        let has : (q : Addr) → elem q ps ≡ true → elem q (insort heap' next ps) ≡ true =
          λ q e. elem-insort heap' next q ps ∙ (rw e (ground arith)) in
        record {
          sorted =
              insort-IsSorted heap' next ps (IsSorted-same heap heap' ps same_times c.sorted) free';
          fresh =
              grown (λ q. q < suc next) (omega arith)
                (All-of (λ q. q < suc next) ps (λ q e. omega (arith, below_next q e)));
          extra_fresh = λ q h. c.extra_fresh q (omega arith);
          base_in = has p0 c.base_in;
          base_at = ap (λ x. x.at) (kept_by_write p0 c.base_in) ∙ c.base_at;
          levels =
              grown (λ q. HasLevel total table (heap' q)) (rw written level)
                (All-imp (λ q. HasLevel total table (heap q)) (λ q. HasLevel total table (heap' q))
                  ps (λ q e l. rw (kept_by_write q e) l) c.levels);
          counted =
              grown (λ q. (heap' q).ref_count ≡ pos (extra q + references table q))
                (rw (written, c.extra_fresh next (omega arith), unreferenced table c.ends) unused)
                (All-imp (λ q. (heap q).ref_count ≡ pos (extra q + references table q))
                  (λ q. (heap' q).ref_count ≡ pos (extra q + references table q)) ps
                  (λ q e l. rw (kept_by_write q e) l) c.counted);
          ends = ends has table c.ends;
        }
      where
        ends :
            ((q : Addr) → elem q ps ≡ true → elem q (insort (write next p heap) next ps) ≡ true)
            → (t : Dict ℤ Span) → All (λ e. HasEnds heap ps e.1) t
            → All (λ e. HasEnds (write next p heap) (insort (write next p heap) next ps) e.1) t
        ends has [] h = tt
        ends has ((k, s) ∷ t) h = (
          record {
            start_in = has s.start_p h.0.start_in;
            last_in = has s.last_p h.0.last_in;
            start_at = ap (λ x. x.at) (kept_by_write s.start_p h.0.start_in) ∙ h.0.start_at;
            last_at = ap (λ x. x.at) (kept_by_write s.last_p h.0.last_in) ∙ h.0.last_at;
          },
          ends has t h.1,
        )

module _ {lib : Libs} (law : IsLawful lib) {total : ResourceArray} {start : ℤ} {extra : Addr → ℕ}
    (ctx : PlannerContext)
    (c : IsCurrent total start extra ctx.span_lookup ctx.heap ctx.next ctx.p0
      (inorder ctx.sched_point_tree)) where
  got :
      (at : ℤ) (p : Addr)
      → find ctx.heap at (inorder ctx.sched_point_tree) ≡ some p
      → Got total start extra ctx at (ctx, p)
  got at p h =
      let (e, a) = find-some ctx.heap at (inorder ctx.sched_point_tree) p h in
      record {
        current = c;
        found = e;
        found_at = a;
        kept = λ q e. (e, refl);
        unchanged = (refl, refl, refl, refl, refl, refl, omega arith);
        came = λ q e. inl e;
        flagged = λ f. f;
        whole = λ w. w;
      }

  insert-inorder :
      (heap : Heap) (p : Addr) (t : Tree Addr)
      → IsSorted heap (inorder t)
      → find heap (heap p).at (inorder t) ≡ none
      → inorder (scheduled_point_insert lib heap p t).0 ≡ insort heap p (inorder t)
  unfolding scheduled_point_insert
  insert-inorder heap p t s free =
      let (t', linked, order) = link_point-insort heap p t s free in
      rw (linked, scheduled_point_insert) (law.insert_color-inorder t' ∙ order)

  make_point-Got :
      (at : ℤ) (q : Addr)
      → HasLevel total ctx.span_lookup (record (ctx.heap q) { at = at; ref_count = pos 0 })
      → find ctx.heap at (inorder ctx.sched_point_tree) ≡ none
      → Got total start extra ctx at (make_point lib ctx at q)
  unfolding make_point mintime_resource_insert
  make_point-Got at q has_level free =
      let ps = inorder ctx.sched_point_tree in
      let point : ScheduledPoint = record (ctx.heap q) { at = at; ref_count = pos 0 } in
      let heap' = write ctx.next point ctx.heap in
      let sorted' = IsSorted-same ctx.heap heap' ps (same_times c point) c.sorted in
      let free' : find heap' (heap' ctx.next).at ps ≡ none =
        rw (written c point, ← find-same ctx.heap heap' at ps (same_times c point)) free in
      let order' = insert-inorder heap' ctx.next ctx.sched_point_tree sorted' free' in
      (record {
        current = rw order' (insert-IsCurrent c point has_level refl free);
        found = rw order' (elem-insort heap' ctx.next ctx.next ps ∙ ground arith);
        found_at = ap (λ x. x.at) (written c point);
        kept = λ r e.
            rw order'
              (elem-insort heap' ctx.next r ps ∙ (rw e (ground arith)), kept_by_write c point r e);
        unchanged = (refl, refl, refl, refl, refl, refl, omega arith);
        came = λ r e. came heap' r (rw order' at e);
        flagged = λ f r e. marked f r (came heap' r (rw order' at e));
        whole = λ w. rw order' (grown heap' w.0, w.1);
      })
    where
      came :
          (heap : Heap) (r : Addr)
          → elem r (insort heap ctx.next (inorder ctx.sched_point_tree)) ≡ true
          → (elem r (inorder ctx.sched_point_tree) ≡ true) ⊎ (r ≡ ctx.next)
      came heap r e =
          let e' = rw (elem-insort heap ctx.next r (inorder ctx.sched_point_tree)) at e in
          elim (Bool-cases (r == ctx.next)) [
            | inl same ↦ inr ((==_iff r ctx.next).0 same)
            | inr other ↦ inl (rw other at e')
          ]

      marked :
          IsFlagged (inorder ctx.sched_point_tree) ctx.mt
          → (r : Addr) → (elem r (inorder ctx.sched_point_tree) ≡ true) ⊎ (r ≡ ctx.next)
          → (ctx.next == r || ctx.mt.in_mt_resource_tree r) ≡ true
      marked f r (inl e) = rw (f r e) (ground arith)
      marked f r (inr same) = rw same (ground arith)

      grown :
          (heap : Heap)
          → IsPlaced (inorder ctx.sched_point_tree) ctx.mt
          → IsPlaced
              (insort heap ctx.next (inorder ctx.sched_point_tree))
              (mintime_resource_insert lib heap ctx.dimension ctx.next ctx.mt)
      grown heap placed =
          let ps = inorder ctx.sched_point_tree in
          let ps' = insort heap ctx.next ps in
          insert-IsPlaced law heap ps' ctx.next ctx.dimension ctx.mt
            (elem-insort heap ctx.next ctx.next ps ∙ ground arith)
            (new_out (ctx.mt.in_mt_resource_tree ctx.next) (placed.listed ctx.next))
            (IsPlaced-grow ps ps' ctx.mt
              (λ q e. elem-insort heap ctx.next q ps ∙ (rw e (ground arith))) placed)
        where
          new_out :
              (flag : Bool)
              → (flag ≡ true → elem ctx.next (inorder ctx.sched_point_tree) ≡ true)
              → flag ≡ false
          new_out false listed = refl
          new_out true listed = absurd (below_self (below_next c ctx.next (listed refl)))
            where
              below_self : ctx.next < ctx.next → ⊥
              below_self h = omega arith

  new_point-Got :
      (at : ℤ)
      → start ≤ℤ at
      → find ctx.heap at (inorder ctx.sched_point_tree) ≡ none
      → Returns (new_point lib ctx at) (Got total start extra ctx at)
  unfolding new_point
  new_point-Got at h free =
      let (q, state, e, taken, left) = level c at h in
      rw (scheduled_point_state-latest ctx.heap at ctx.sched_point_tree c.sorted ∙ state, new_point)
        (
          make_point lib ctx at q,
          refl,
          make_point-Got at q (record { taken = taken; left = left }) free,
        )

  pub get_or_new_point-Got :
      (at : ℤ) → start ≤ℤ at → Returns (get_or_new_point lib ctx at) (Got total start extra ctx at)
  unfolding get_or_new_point
  get_or_new_point-Got at h =
      rw (scheduled_point_search-find ctx.heap at ctx.sched_point_tree c.sorted, get_or_new_point)
        (elim (Option-cases (find ctx.heap at (inorder ctx.sched_point_tree))) [
          | inl free ↦ rw (free, get_or_new_point) (new_point-Got at h free)
          | inr (p, found) ↦ rw (found, get_or_new_point) ((ctx, p), refl, got at p found)
        ])
