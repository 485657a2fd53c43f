-- ===== src/Planner/Spans/Calls.antt =====
-- `planner_add_span` and `planner_rem_span` keep the planner valid, and change what is booked by the
-- one span.
use mathlib.Core.Path.{subst₂}
use resource_query.Prelude.{
  ℕ, ◌+◌, ◌≤◌, ◌<◌, ℤ, pos, ◌+ℤ◌, ltb_ℤ, ◌≤ℤ◌, to_i64, ◌∷◌, All, true, false, ◌==◌, Dict, contains,
  int_key, none, if◌then◌else◌, ◌⊎◌, ◌==ℤ◌, ◌≡◌, inl, inr, refl, ap, ◌∙◌, arith,
}
use resource_query.Run.{Returns}
use resource_query.Planner.Points.{Addr, ResourceArray, ScheduledPoint, inorder}
use resource_query.Planner.Points.Sorted.{elem, IsSorted, scheduled_point_state-latest}
use resource_query.Planner.Points.Members.{All-elem, latest_facts, latest_least}
use resource_query.Planner.Context.{
  Span, PlannerContext, Libs, IsLawful, demand, add_demand, restore_track_points, get_or_new_point,
  fetch_overlap_points, update_points,
}
use resource_query.Planner.Spans.{zhashx_insert, refer, add_to_points}
use resource_query.Planner.Spans.Invariant.{
  references, IsUsed, IsCurrent, full, base, HasWindow, IsValid,
}
use resource_query.Planner.Spans.Got.{get_or_new_point-Got}
use resource_query.Planner.Tracked.{IsTracked, IsWhole, IsFlagged, IsComplete}
use resource_query.Planner.Tracked.Flags.{restore_track_points-IsFlagged, update-flag}
use resource_query.Planner.Tracked.Tree.{update-IsWhole}
use resource_query.Planner.Tracked.Restore.{restore_track_points-IsWhole}
use resource_query.Planner.Spans.Overlap.{inside, updated, elem-of_fetched}
use resource_query.Planner.Spans.Rebuild.{recounted, refer-IsCurrent, book-IsCurrent}

≤ℤ_trans : (a b c : ℤ) → a ≤ℤ b → b ≤ℤ c → a ≤ℤ c
≤ℤ_trans a b c h k = omega arith

le_of_eq : (a b : ℤ) → a ≡ b → a ≤ℤ b
le_of_eq a b e = rw e (omega arith)

-- What a call leaves of the other members.
abbrev pub Unmoved : PlannerContext → PlannerContext → Type 0
Unmoved ctx ctx' =
    (ctx'.plan_start ≡ ctx.plan_start)
    × (ctx'.dimension ≡ ctx.dimension)
    × (ctx'.total_resources ≡ ctx.total_resources)
    × (ctx'.span_counter ≡ ctx.span_counter)
    × (ctx.next ≤ ctx'.next)

Unmoved-trans : (a b c : PlannerContext) → Unmoved a b → Unmoved b c → Unmoved a c
Unmoved-trans a b c (s, d, t, n, l) (s', d', t', n', l') =
    (s' ∙ s, d' ∙ d, t' ∙ t, n' ∙ n, omega arith)

-- So a planner stays valid if its points stay current.
pub IsValid-again :
    (ctx ctx' : PlannerContext) (table : Dict ℤ Span)
    → Unmoved ctx ctx'
    → ctx'.p0 ≡ ctx.p0
    → ctx'.span_lookup ≡ table
    → ctx.p0 < ctx.next
    → All (λ e. ltb_ℤ (pos ctx.span_counter) e.0 ≡ false) table
    → All (λ e. HasWindow e.1) table
    → IsCurrent
        (full ctx)
        ctx.plan_start
        (base ctx)
        table
        ctx'.heap
        ctx'.next
        ctx.p0
        (inorder ctx'.sched_point_tree)
    → IsUsed (base ctx) table (inorder ctx'.sched_point_tree)
    → IsComplete ctx'.heap (inorder ctx'.sched_point_tree) ctx'.mt
    → IsTracked ctx'.heap (inorder ctx'.sched_point_tree) ctx'.mt
    → IsValid ctx'
IsValid-again ctx ctx' table (start, dim, total, count, next) p0 same old keys windows c used
      complete tracked =
    (
      rw (start, dim, total, p0, same) c,
      rw p0 (omega arith),
      rw (same, count) keys,
      rw same windows,
      (λ q e. rw (p0, same) (used q e), complete),
      tracked,
    )

-- The update of the points that `fetch_overlap_points` gives, where a point is at the start or before.
pub fetched :
    (f : ScheduledPoint → ScheduledPoint) (ctx : PlannerContext) (at end : ℤ) (duration : ℕ)
    (p : Addr)
    → IsSorted ctx.heap (inorder ctx.sched_point_tree)
    → elem p (inorder ctx.sched_point_tree) ≡ true
    → (ctx.heap p).at ≤ℤ at
    → at ≤ℤ end
    → at +ℤ to_i64 duration ≡ end
    → (q : Addr) → elem q (inorder ctx.sched_point_tree) ≡ true
    → update_points f (fetch_overlap_points ctx at duration) ctx.heap q
      ≡ (if inside ctx.heap at end q then f (ctx.heap q) else ctx.heap q)
unfolding fetch_overlap_points
fetched f ctx at end duration p s e le w ends q e' =
    let ps = inorder ctx.sched_point_tree in
    let (x, found) = latest_least ctx.heap at ps p e s le in
    let facts = latest_facts ctx.heap at ps none x s found in
    elim facts [
      | inl (ex, lx, _) ↦
          rw (ends, scheduled_point_state-latest ctx.heap at ctx.sched_point_tree s ∙ found)
            (updated f ctx.heap at end x ps s ex lx w q e')
      | inr (bad, _) ↦ absurd (cc)
    ]

one_self : (q : Addr) → 0 < (if q == q then 1 else 0)
one_self q = ground arith

pub not_none : (n : ℕ) → 0 < n → (pos n ==ℤ pos 0) ≡ false
not_none n h = ground arith

module _ {lib : Libs} (law : IsLawful lib) where
  -- One of the two points of a new span, with the new reference to it.
  take_point :
      {total : ResourceArray} {start : ℤ} {extra : Addr → ℕ} {table : Dict ℤ Span} {p0 : Addr}
      (ctx : PlannerContext)
      → ctx.span_lookup ≡ table
      → ctx.p0 ≡ p0
      → IsCurrent total start extra table ctx.heap ctx.next p0 (inorder ctx.sched_point_tree)
      → (at : ℤ) → start ≤ℤ at
      → Returns (get_or_new_point lib ctx at) λ r.
        (r.0.span_lookup ≡ table)
        × (r.0.p0 ≡ p0)
        × IsCurrent total start
            (λ q. (if r.1 == q then 1 else 0) + extra q)
            table
            (refer (pos 1) r.1 r.0).heap
            r.0.next
            p0
            (inorder r.0.sched_point_tree)
        × (elem r.1 (inorder r.0.sched_point_tree) ≡ true)
        × (((refer (pos 1) r.1 r.0).heap r.1).at ≡ at)
        × ((q : Addr)
            → elem q (inorder ctx.sched_point_tree) ≡ true
            → (elem q (inorder r.0.sched_point_tree) ≡ true)
              × (((refer (pos 1) r.1 r.0).heap q).at ≡ (ctx.heap q).at))
        × Unmoved ctx r.0
        × (IsWhole (inorder ctx.sched_point_tree) ctx.mt
            → IsWhole (inorder r.0.sched_point_tree) r.0.mt)
        × ((q : Addr)
            → elem q (inorder r.0.sched_point_tree) ≡ true
            → (elem q (inorder ctx.sched_point_tree) ≡ true) ⊎ (q ≡ r.1))
        × (IsFlagged (inorder ctx.sched_point_tree) ctx.mt
            → IsFlagged (inorder r.0.sched_point_tree) r.0.mt)
  unfolding refer
  take_point {total} {start} {extra} {table} {p0} ctx t b c at after =
      let c₀ : IsCurrent total start extra ctx.span_lookup ctx.heap ctx.next ctx.p0
          (inorder ctx.sched_point_tree) =
        rw (t, b) c in
      let (a, run, got) = get_or_new_point-Got law ctx c₀ at after in
      let (table_a, p0_a, s, d, n, k, l) = got.unchanged in
      let c₁ : IsCurrent total start extra table a.0.heap a.0.next p0
          (inorder a.0.sched_point_tree) =
        subst₂
          (λ x y. IsCurrent total start extra x a.0.heap a.0.next y (inorder a.0.sched_point_tree))
          t b got.current in
      (
        a,
        run,
        (
          table_a ∙ t,
          p0_a ∙ b,
          refer-IsCurrent c₁ a.1 got.found,
          got.found,
          (recounted (pos 1) a.1 a.0.heap a.1).0 ∙ got.found_at,
          λ q e. (
            (got.kept q e).0,
            (recounted (pos 1) a.1 a.0.heap q).0 ∙ ap (λ x. x.at) (got.kept q e).1,
          ),
          (s, d, n, k, l),
          got.whole,
          got.came,
          got.flagged,
        ),
      )

  pub add_to_points-IsCurrent :
      {total : ResourceArray} {start : ℤ} {extra : Addr → ℕ} (ctx : PlannerContext) (span : Span)
      (duration : ℕ)
      → IsCurrent total start extra ctx.span_lookup ctx.heap ctx.next ctx.p0
          (inorder ctx.sched_point_tree)
      → start ≤ℤ span.start
      → span.start ≤ℤ span.last
      → span.start +ℤ to_i64 duration ≡ span.last
      → contains span.span_id ctx.span_lookup ≡ false
      → IsTracked ctx.heap (inorder ctx.sched_point_tree) ctx.mt
      → IsUsed extra ctx.span_lookup (inorder ctx.sched_point_tree)
      → IsComplete ctx.heap (inorder ctx.sched_point_tree) ctx.mt
      → Returns (add_to_points lib ctx span duration) λ r.
        (entry : Span) × (r.0.span_lookup ≡ (span.span_id, entry) ∷ ctx.span_lookup)
        × (entry.start ≡ span.start)
        × (entry.last ≡ span.last)
        × ((i : ℕ) → demand entry i ≡ demand span i)
        × (r.0.p0 ≡ ctx.p0)
        × Unmoved ctx r.0
        × IsCurrent total start extra
            ((span.span_id, entry) ∷ ctx.span_lookup)
            r.0.heap
            r.0.next
            ctx.p0
            (inorder r.0.sched_point_tree)
        × IsWhole (inorder r.0.sched_point_tree) r.0.mt
        × IsUsed extra ((span.span_id, entry) ∷ ctx.span_lookup) (inorder r.0.sched_point_tree)
        × IsFlagged (inorder r.0.sched_point_tree) r.0.mt
  unfolding add_to_points refer zhashx_insert
  add_to_points-IsCurrent {total} {start} {extra} ctx span duration c after forward width new
        tracked used complete =
      let ctx₀ : PlannerContext = record ctx { mt = restore_track_points lib ctx } in
      let (a, run_a, taken_a) =
        take_point {table = ctx.span_lookup} {p0 = ctx.p0} ctx₀ refl refl c span.start after in
      let (table_a, p0_a, c₁, in_a, at_a, kept_a, same_a, whole_a, came_a, flagged_a) = taken_a in
      let ctx₂ = refer (pos 1) a.1 a.0 in
      let (b, run_b, taken_b) =
        take_point ctx₂ table_a p0_a c₁ span.last
          (≤ℤ_trans start span.start span.last after forward) in
      let (table_b, p0_b, c₃, in_b, at_b, kept_b, same_b, whole_b, came_b, flagged_b) = taken_b in
      let ctx₄ = refer (pos 1) b.1 b.0 in
      let entry : Span = record span { in_system = true; start_p = a.1; last_p = b.1 } in
      let list = fetch_overlap_points ctx₄ span.start duration in
      let heap' = update_points (add_demand span) list ctx₄.heap in
      let (a_in, a_at) = kept_b a.1 in_a in
      let a_time = a_at ∙ at_a in
      let update =
        fetched (add_demand span) ctx₄ span.start span.last duration a.1 c₃.sorted a_in
          (le_of_eq _ _ a_time) forward width in
      let done =
        book-IsCurrent span.span_id entry heap' c₃
          (record { start_in = a_in; last_in = in_b; start_at = a_time; last_at = at_b }) update in
      let ps = inorder ctx.sched_point_tree in
      let whole =
        update-IsWhole law heap' (inorder ctx₄.sched_point_tree) ctx₄.dimension list ctx₄.mt
          (λ q e. elem-of_fetched ctx₄ span.start duration q e)
          (whole_b (whole_a (restore_track_points-IsWhole law ctx ps tracked))) in
      let flagged =
        flagged_b
          (flagged_a (restore_track_points-IsFlagged law ctx ps c.sorted tracked complete)) in
      let used' : IsUsed extra ((span.span_id, entry) ∷ ctx.span_lookup)
          (inorder b.0.sched_point_tree) =
        λ q e. elim (came_b q e) [
          | inr same ↦ rw same (omega (arith, one_self b.1))
          | inl e' ↦ elim (came_a q e') [
            | inr same ↦ rw same (omega (arith, one_self a.1))
            | inl e'' ↦ omega (arith, used q e'')
          ]
        ] in
      let counted : (q : Addr)
          → elem q (inorder b.0.sched_point_tree) ≡ true
          → ((heap' q).ref_count ==ℤ pos 0) ≡ false =
        λ q e.
          rw
            (All-elem
              (λ x.
                (heap' x).ref_count
                ≡ pos (extra x + references ((span.span_id, entry) ∷ ctx.span_lookup) x))
              (inorder b.0.sched_point_tree) q done.counted e)
            (not_none _ (used' q e)) in
      rw (run_a, run_b, table_b, new)
        (
          _,
          refl,
          (
            entry,
            refl,
            refl,
            refl,
            λ i. refl,
            p0_b,
            Unmoved-trans ctx a.0 b.0 same_a same_b,
            done,
            whole,
            used',
            λ q e. update-flag lib heap' ctx₄.dimension list ctx₄.mt q (counted q e) (flagged q e),
          ),
        )
