-- ===== src/Planner/Spans/Remove.antt =====
-- `planner_rem_span` as its callers see it.
use mathlib.Core.Path.{subst₂}
use resource_query.Prelude.{
  ℕ, ◌∷◌, ◌+◌, ◌<◌, ◌==ℤ◌, ◌≤◌, ℤ, pos, negsuc, ◌+ℤ◌, ◌-ℤ◌, ltb_ℤ, ◌≤ℤ◌, ◌<ℤ◌, to_u64, true, false,
  ◌==◌, ==_iff, lookup, int_key, Option, none, some, if◌then◌else◌, ◌≡◌, inl, inr, ◌⊎◌, refl, sym,
  ap, ◌∙◌, arith, Bool-cases, Option-cases,
}
use resource_query.Planner.Points.{Addr, Heap, inorder}
use resource_query.Planner.Points.Sorted.{elem}
use resource_query.Planner.Points.Members.{All-of, All-elem}
use resource_query.Planner.Context.{
  Span, PlannerContext, Libs, IsLawful, demand, subtract_demand, restore_track_points,
  fetch_overlap_points, update_points, update_mintime_resource_tree,
}
use resource_query.Planner.Spans.{
  invalid, zhashx_delete, refer, release, remove_from_points, planner_rem_span,
}
use resource_query.Planner.Spans.Invariant.{
  covers, booked, references, IsUsed, HasEnds, IsCurrent, full, base, HasWindow, IsValid,
}
use resource_query.Planner.Spans.Points.{IsSorted-same}
use resource_query.Planner.Spans.Rebuild.{recount, recounted}
use resource_query.Planner.Spans.Unbook.{
  dropped, unbook-IsCurrent, booked-delete, references-delete, All-delete, All-lookup,
}
use resource_query.Planner.Tracked.{IsWhole, IsFlagged, IsWhole-IsTracked}
use resource_query.Planner.Tracked.Flags.{
  restore_track_points-IsFlagged, update-flag, IsFlagged-IsComplete,
}
use resource_query.Planner.Tracked.Tree.{update-IsWhole}
use resource_query.Planner.Tracked.Restore.{restore_track_points-IsWhole}
use resource_query.Planner.Spans.Overlap.{elem-of_fetched}
use resource_query.Planner.Spans.Calls.{fetched, IsValid-again, not_none}
use resource_query.Planner.Spans.Release.{
  release-IsCurrent, release-IsWhole, release-kept, same_rest,
}

le_of_eq : (a b : ℤ) → a ≡ b → a ≤ℤ b
le_of_eq a b e = rw e (omega arith)

no_more : {a b : ℕ} → a ≡ b → b ≤ a
no_more e = omega arith

not_less : (a b : ℤ) → b ≡ a → ¬ (a <ℤ b)
not_less a b e h = absurd_lt (rw e at h)
  where
    absurd_lt : (a <ℤ a) → ⊥
    absurd_lt h = omega arith

-- Either the id is unknown, and nothing changed; or the planner is valid, and books what it booked
-- less the one span.
abbrev pub Removed : PlannerContext → ℤ → Option PlannerContext × ℤ × Option ℕ → Type 0
Removed ctx id r =
    ((lookup id ctx.span_lookup ≡ none) × (r ≡ (some ctx, negsuc 0, some invalid)))
    ⊎ ((s : Span) × (lookup id ctx.span_lookup ≡ some s)
        × (ctx' : PlannerContext) × (r.0 ≡ some ctx')
        × (r.1 ≡ pos 0)
        × IsValid ctx'
        × (ctx'.span_counter ≡ ctx.span_counter)
        × ((t : ℤ) (i : ℕ)
            → booked ctx.span_lookup t i
              ≡ (if covers s t then demand s i else pos 0) +ℤ booked ctx'.span_lookup t i))

module _ {lib : Libs} (law : IsLawful lib) where
  -- The memory and the table once a span's demand is taken back, and before its points are freed.
  taken_back :
      (ctx : PlannerContext) (id : ℤ) (span : Span) (ctx₁ : PlannerContext)
      → IsValid ctx
      → lookup id ctx.span_lookup ≡ some span
      → ctx₁.heap ≡ dropped span ctx.heap
      → ctx₁.sched_point_tree ≡ ctx.sched_point_tree
      → IsCurrent
          (full ctx)
          ctx.plan_start
          (base ctx)
          (zhashx_delete id ctx.span_lookup)
          (update_points
            (subtract_demand span)
            (fetch_overlap_points ctx₁ span.start (to_u64 (span.last -ℤ span.start)))
            ctx₁.heap)
          ctx.next
          ctx.p0
          (inorder ctx.sched_point_tree)
  taken_back ctx id span ctx₁ (c, p0_old, keys, windows, _, _) found memory tree =
      let ps = inorder ctx.sched_point_tree in
      let ends = All-lookup id span (HasEnds ctx.heap ps) ctx.span_lookup found c.ends in
      let (forward, width) = All-lookup id span HasWindow ctx.span_lookup found windows in
      let at : (q : Addr) → (ctx₁.heap q).at ≡ (ctx.heap q).at = λ q.
        ap (λ h. (h q).at) memory
        ∙ (recounted (negsuc 0) span.last_p (recount (negsuc 0) span.start_p ctx.heap) q).0
        ∙ (recounted (negsuc 0) span.start_p ctx.heap q).0 in
      let sorted =
        IsSorted-same ctx.heap ctx₁.heap ps
          (All-of (λ q. (ctx.heap q).at ≡ (ctx₁.heap q).at) ps (λ q e. sym (at q))) c.sorted in
      let update =
        fetched (subtract_demand span) ctx₁ span.start span.last (to_u64 (span.last -ℤ span.start))
          span.start_p (rw tree sorted) (rw tree ends.start_in)
          (le_of_eq _ _ (at span.start_p ∙ ends.start_at)) (omega arith) width in
      unbook-IsCurrent id span _ c found λ q e.
        update q (rw tree e)
        ∙ ap (λ x. if covers span x then subtract_demand span (ctx₁.heap q) else ctx₁.heap q) (at q)
        ∙ ap (λ (h : Heap). if covers span (ctx.heap q).at then subtract_demand span (h q) else h q)
            memory

  -- The two points of a span, freed one after the other.
  release_both :
      (span : Span) (ctx ctx' : PlannerContext)
      → ctx'.next ≡ ctx.next
      → ctx'.p0 ≡ ctx.p0
      → ctx'.sched_point_tree ≡ ctx.sched_point_tree
      → ctx'.plan_start ≡ ctx.plan_start
      → ctx'.dimension ≡ ctx.dimension
      → ctx'.total_resources ≡ ctx.total_resources
      → ctx'.span_counter ≡ ctx.span_counter
      → (id : ℤ) → ctx'.span_lookup ≡ ctx.span_lookup
      → IsCurrent
          (full ctx)
          ctx.plan_start
          (base ctx)
          (zhashx_delete id ctx.span_lookup)
          ctx'.heap
          ctx.next
          ctx.p0
          (inorder ctx.sched_point_tree)
      → IsValid ctx
      → lookup id ctx.span_lookup ≡ some span
      → IsWhole (inorder ctx.sched_point_tree) ctx'.mt
      → ((q : Addr)
          → elem q (inorder ctx.sched_point_tree) ≡ true
          → ((ctx'.heap q).ref_count ==ℤ pos 0) ≡ false
          → ctx'.mt.in_mt_resource_tree q ≡ true)
      → let ctx₂ = release lib span.last_p (release lib span.start_p ctx') in
        IsValid (record ctx₂ {
          span_lookup = zhashx_delete id ctx₂.span_lookup;
          avail_time_iter_set = false;
        })
        × (ctx₂.span_lookup ≡ ctx.span_lookup)
        × (ctx₂.span_counter ≡ ctx.span_counter)
  release_both span ctx ctx' next p0 tree start dim total count id table current
        (c, p0_old, keys, windows, (used, _), _) found whole flagged =
      let ps = inorder ctx.sched_point_tree in
      let ends = All-lookup id span (HasEnds ctx.heap ps) ctx.span_lookup found c.ends in
      let (forward, width) = All-lookup id span HasWindow ctx.span_lookup found windows in
      let one : base ctx ctx.p0 ≡ 1 = ground arith in
      let cur : IsCurrent (full ctx) ctx.plan_start (base ctx) (zhashx_delete id ctx.span_lookup)
          ctx'.heap ctx'.next ctx.p0 (inorder ctx'.sched_point_tree) =
        rw (next, tree) current in
      let (cur₁, kept) = release-IsCurrent law span.start_p ctx' cur one (rw tree ends.start_in) in
      let ctx₁ = release lib span.start_p ctx' in
      let (h₁, n₁, q₁, t₁, s₁, d₁, r₁, k₁) = same_rest law span.start_p ctx' in
      let ctx₂ = release lib span.last_p ctx₁ in
      let (h₂, n₂, q₂, t₂, s₂, d₂, r₂, k₂) = same_rest law span.last_p ctx₁ in
      let cur₂ : IsCurrent (full ctx) ctx.plan_start (base ctx) (zhashx_delete id ctx.span_lookup)
          ctx₁.heap ctx₁.next ctx.p0 (inorder ctx₁.sched_point_tree) =
        subst₂
          (λ h n.
            IsCurrent (full ctx) ctx.plan_start (base ctx) (zhashx_delete id ctx.span_lookup) h n
              ctx.p0 (inorder ctx₁.sched_point_tree))
          (sym h₁) (sym n₁) cur₁ in
      let last_in : elem span.last_p (inorder ctx₁.sched_point_tree) ≡ true =
        kept span.last_p (apart ends forward) ∙ (rw tree ends.last_in) in
      let whole₁ =
        release-IsWhole law span.start_p ctx' cur.sorted (rw tree ends.start_in) (rw tree whole) in
      let whole₂ = release-IsWhole law span.last_p ctx₁ cur₂.sorted last_in whole₁ in
      let (cur₃, _) = release-IsCurrent law span.last_p ctx₁ cur₂ one last_in in
      let cur₄ : IsCurrent (full ctx) ctx.plan_start (base ctx) (zhashx_delete id ctx.span_lookup)
          ctx₂.heap ctx₂.next ctx.p0 (inorder ctx₂.sched_point_tree) =
        subst₂
          (λ h n.
            IsCurrent (full ctx) ctx.plan_start (base ctx) (zhashx_delete id ctx.span_lookup) h n
              ctx.p0 (inorder ctx₂.sched_point_tree))
          (sym h₂) (sym n₂) cur₃ in
      let same_table = t₂ ∙ t₁ ∙ table in
      let count_at : (q : Addr)
          → elem q (inorder ctx₂.sched_point_tree) ≡ true
          → (ctx'.heap q).ref_count
            ≡ pos (base ctx q + references (zhashx_delete id ctx.span_lookup) q) =
        λ q e.
          ap (λ h. (h q).ref_count) (sym (h₂ ∙ h₁))
          ∙ All-elem
              (λ x.
                (ctx₂.heap x).ref_count
                ≡ pos (base ctx x + references (zhashx_delete id ctx.span_lookup) x))
              (inorder ctx₂.sched_point_tree) q cur₄.counted e in
      let kept₂ = release-kept law span.last_p ctx₁ cur₂.sorted last_in in
      let kept₁ = release-kept law span.start_p ctx' cur.sorted (rw tree ends.start_in) in
      let used₂ : IsUsed (base ctx) (zhashx_delete id ctx.span_lookup)
          (inorder ctx₂.sched_point_tree) =
        λ q e.
          let (e₁, last_used, _) = kept₂ q e in
          let (e₀, start_used, _) = kept₁ q e₁ in
          elim (Bool-cases (q == span.last_p)) [
            | inl same ↦
                some_left _ _ (count_at q e)
                  (ap (λ h. (h q).ref_count ==ℤ pos 0) (sym h₁) ∙ last_used same)
            | inr not_last ↦ elim (Bool-cases (q == span.start_p)) [
              | inl same ↦ some_left _ _ (count_at q e) (start_used same)
              | inr not_start ↦
                  others q id not_start not_last (references-delete id span ctx.span_lookup q found)
                    (used q (rw tree at e₀))
            ]
          ] in
      let flagged₂ : IsFlagged (inorder ctx₂.sched_point_tree) ctx₂.mt = λ q e.
        let (e₁, _, flag₂) = kept₂ q e in
        let (e₀, _, flag₁) = kept₁ q e₁ in
        flag₂ (flag₁ (flagged q (rw tree at e₀) (rw (count_at q e) (not_none _ (used₂ q e))))) in
      let final : PlannerContext = record ctx₂ {
        span_lookup = zhashx_delete id ctx₂.span_lookup;
        avail_time_iter_set = false;
      } in
      (
        IsValid-again ctx final (zhashx_delete id ctx.span_lookup)
            (
              s₂ ∙ s₁ ∙ start,
              d₂ ∙ d₁ ∙ dim,
              r₂ ∙ r₁ ∙ total,
              k₂ ∙ k₁ ∙ count,
              no_more (n₂ ∙ n₁ ∙ next),
            )
            (q₂ ∙ q₁ ∙ p0) (ap (zhashx_delete id) same_table) p0_old
            (All-delete id span (λ e. ltb_ℤ (pos ctx.span_counter) e.0 ≡ false) ctx.span_lookup
              keys)
            (All-delete id span (λ e. HasWindow e.1) ctx.span_lookup windows) cur₄ used₂
            (IsFlagged-IsComplete ctx₂.heap (inorder ctx₂.sched_point_tree) ctx₂.mt flagged₂)
            (IsWhole-IsTracked ctx₂.heap (inorder ctx₂.sched_point_tree) ctx₂.mt whole₂),
        same_table,
        k₂ ∙ k₁ ∙ count,
      )
    where
      some_left : (m : ℤ) (n : ℕ) → m ≡ pos n → (m ==ℤ pos 0) ≡ false → 0 < n
      some_left m n e h = positive (rw e at h)
        where
          positive : (pos n ==ℤ pos 0) ≡ false → 0 < n
          positive h = ground arith

      others :
          (q : Addr) (id : ℤ)
          → (q == span.start_p) ≡ false
          → (q == span.last_p) ≡ false
          → references ctx.span_lookup q
            ≡ references ((id, span) ∷ zhashx_delete id ctx.span_lookup) q
          → 0 < base ctx q + references ctx.span_lookup q
          → 0 < base ctx q + references (zhashx_delete id ctx.span_lookup) q
      others q id a b e h = ground arith

      apart :
          HasEnds ctx.heap (inorder ctx.sched_point_tree) span
          → span.start <ℤ span.last
          → (span.last_p == span.start_p) ≡ false
      apart e f = elim (Bool-cases (span.last_p == span.start_p)) [
        | inr no_tie ↦ no_tie
        | inl tie ↦
            let same : span.last ≡ span.start =
              sym e.last_at
              ∙ ap (λ p. (ctx.heap p).at) ((==_iff span.last_p span.start_p).0 tie)
              ∙ e.start_at in
            absurd (not_less span.start span.last same f)
      ]

  -- On a valid planner an unknown id is refused with `EINVAL`. A known one is taken out: the call
  -- returns 0, the planner is valid again, and at every time less is booked by just that span.
  pub planner_rem_span-Removed :
      (ctx : PlannerContext) (id : ℤ)
      → IsValid ctx
      → Removed ctx id (planner_rem_span lib (some ctx) id)
  unfolding planner_rem_span remove_from_points refer
  planner_rem_span-Removed ctx id valid = elim (Option-cases (lookup id ctx.span_lookup)) [
    | inl unknown ↦ rw (unknown, planner_rem_span) (inl (refl, refl))
    | inr (span, found) ↦
        let ctx₁ : PlannerContext =
          refer (negsuc 0) span.last_p
            (refer (negsuc 0) span.start_p (record ctx { mt = restore_track_points lib ctx })) in
        let list = fetch_overlap_points ctx₁ span.start (to_u64 (span.last -ℤ span.start)) in
        let heap = update_points (subtract_demand span) list ctx₁.heap in
        let freed : PlannerContext = record ctx₁ {
          heap = heap;
          mt = update_mintime_resource_tree lib heap ctx₁.dimension list ctx₁.mt;
        } in
        let whole =
          update-IsWhole law heap (inorder ctx.sched_point_tree) ctx₁.dimension list ctx₁.mt
            (λ q e. elem-of_fetched ctx₁ span.start (to_u64 (span.last -ℤ span.start)) q e)
            (restore_track_points-IsWhole law ctx (inorder ctx.sched_point_tree) valid.5) in
        let flagged : (q : Addr)
            → elem q (inorder ctx.sched_point_tree) ≡ true
            → ((heap q).ref_count ==ℤ pos 0) ≡ false
            → freed.mt.in_mt_resource_tree q ≡ true =
          λ q e used. update-flag lib heap ctx₁.dimension list ctx₁.mt q used (
            restore_track_points-IsFlagged law ctx (inorder ctx.sched_point_tree) valid.0.sorted
              valid.5 valid.4.1 q e) in
        let current = taken_back ctx id span ctx₁ valid found refl refl in
        let (valid', table, count) =
          release_both span ctx freed refl refl refl refl refl refl refl id refl current valid found
            whole flagged in
        rw (found, planner_rem_span)
          (inr (
            span,
            refl,
            _,
            refl,
            refl,
            valid',
            count,
            λ t i.
                booked-delete id span ctx.span_lookup t i found
                ∙ ap
                    (λ x.
                      (if covers span t then demand span i else pos 0)
                      +ℤ booked (zhashx_delete id x) t i)
                    (sym table),
          ))
  ]
