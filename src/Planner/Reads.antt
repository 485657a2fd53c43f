-- ===== src/Planner/Reads.antt =====
-- A new planner is valid, removing a span takes back what adding it did, and what a call reads is the
-- totals less what the active spans book.
use resource_query.Prelude.{
  ℕ, suc, ◌+◌, ◌^◌, ◌<◌, ℤ, pos, negsuc, ◌+ℤ◌, +ℤ_parts, eq_of_parts, ltb_ℤ, ltb, ◌≤ℤ◌, pos_part,
  neg_part, List, [], ◌∷◌, length, true, false, ◌||◌, lookup, int_key, Option, none, some, String,
  if◌then◌else◌, ◌==◌, ◌≡◌, inl, inr, refl, sym, ap, ◌∙◌, arith, Bool-cases,
}
use resource_query.Run.{Run, ok}
use resource_query.Planner.Points.{Addr, ScheduledPoint, Heap, write, link_point}
use resource_query.Planner.Points.Sorted.{elem, scheduled_point_state-latest}
use resource_query.Planner.Mintime.{planner_num_types}
use resource_query.Planner.Context.{
  Span, PlannerContext, Libs, IsLawful, demand, scheduled_point_insert, mintime_resource_insert,
}
use resource_query.Planner.Spans.{
  initialize, resources, reads_past, planner_add_span, planner_rem_span,
}
use resource_query.Planner.Spans.Invariant.{booked, covers, full, base, IsValid}
use resource_query.Planner.Spans.Points.{level}
use resource_query.Planner.Spans.Add.{asked, planner_add_span-Added}
use resource_query.Planner.Spans.Remove.{planner_rem_span-Removed}
use resource_query.Planner.Tracked.Tree.{insert-IsPlaced}
use resource_query.Planner.Api.{no_points, cleared, too_large, planner_new}
use resource_query.Planner.Api.Left.{planner_avail_resources_at}

cancel : (a b c : ℤ) → a +ℤ b ≡ a +ℤ c → b ≡ c
cancel a b c h =
    eq_of_parts b c (omega (arith, +ℤ_parts a b, +ℤ_parts a c, ap pos_part h, ap neg_part h))

not_none : {s : Span} (o : Option Span) → o ≡ some s → o ≡ none → ⊥
not_none o a b = different (sym b ∙ a)
  where
    different : {s : Span} → none ≡ some s → ⊥
    different e = cc

some_span : {a b : Span} → some a ≡ some b → a ≡ b
some_span e = cc

+ℤ_zero : (a : ℤ) → a +ℤ pos 0 ≡ a
+ℤ_zero a = eq_of_parts _ _ (omega (arith, +ℤ_parts a (pos 0)))

module _ {lib : Libs} (law : IsLawful lib) where
  pub initialize-IsValid :
      (ctx : PlannerContext) (base_time : ℤ) (duration : ℕ)
      → IsValid (initialize lib ctx base_time duration)
  unfolding initialize scheduled_point_insert link_point mintime_resource_insert
  initialize-IsValid ctx base_time duration =
      let p0 : ScheduledPoint = record {
        at = base_time;
        ref_count = pos 1;
        scheduled = λ _. pos 0;
        remaining = λ i. if ltb i ctx.dimension then ctx.total_resources i else pos 0;
      } in
      let made = made_point ctx.next p0 ctx.heap in
      rw (law.insert_color-inorder) (
        record {
          sorted = (tt, tt);
          fresh = (omega arith, tt);
          extra_fresh = λ p h. ground arith;
          base_in = ground arith;
          base_at = ap (λ p. p.at) made;
          levels = (rw made (record { taken = λ i. refl; left = λ i. +ℤ_zero _ }), tt);
          counted = (ap (λ p. p.ref_count) made ∙ ground arith, tt);
          ends = tt;
        },
        omega arith,
        tt,
        tt,
        (λ q e. only q e, λ q e. inl (only_flag q e)),
        (
          insert-IsPlaced law (write ctx.next p0 ctx.heap) (ctx.next ∷ []) ctx.next ctx.dimension
              no_points (ground arith) refl
              (record { once = λ q. refl; listed = λ q h. absurd (not_false h) }),
          tt,
          λ k. omega arith,
        ),
      )
    where
      only : (q : Addr) → elem q (ctx.next ∷ []) ≡ true → 0 < (if q == ctx.next then 1 else 0) + 0
      only q e = ground arith

      only_flag : (q : Addr) → elem q (ctx.next ∷ []) ≡ true → (ctx.next == q || false) ≡ true
      only_flag q e = ground arith

      not_false : false ≡ true → ⊥
      not_false h = cc

      made_point : (n : Addr) (p : ScheduledPoint) (heap : Heap) → write n p heap n ≡ p
      made_point n p heap = ground arith

  pub initialize-counter :
      (ctx : PlannerContext) (base_time : ℤ) (duration : ℕ)
      → (initialize lib ctx base_time duration).span_counter ≡ 0
  unfolding initialize
  initialize-counter ctx base_time duration = refl

  pub planner_new-IsValid :
      (heap : Heap) (base_time : ℤ) (duration : ℕ) (totals : List ℕ) (types : List String)
      (ctx : PlannerContext)
      → (planner_new lib heap base_time duration totals types).0 ≡ some ctx
      → IsValid ctx × (ctx.span_counter ≡ 0)
  unfolding planner_new
  planner_new-IsValid heap base_time duration totals types ctx h =
      elim (Bool-cases (ltb duration 1 || ltb planner_num_types (length totals))) [
        | inl bad ↦ let e = rw bad at h in cc
        | inr good ↦
            let h' = rw good at h in
            elim (Bool-cases (too_large totals)) [
              | inl large ↦ let e = rw large at h' in cc
              | inr small ↦
                  let ctx₀ = cleared heap totals types in
                  let e : initialize lib ctx₀ base_time duration ≡ ctx =
                    some_injective (rw small at h') in
                  rw (← e) (
                    initialize-IsValid ctx₀ base_time duration,
                    initialize-counter ctx₀ base_time duration,
                  )
            ]
      ]
    where
      some_injective : {a b : PlannerContext} → some a ≡ some b → a ≡ b
      some_injective e = cc

module _ {lib : Libs} (law : IsLawful lib) where
  -- A call that returns has not read past the counts.
  returned :
      (ctx : PlannerContext) (s d : ℕ) (counts : List ℕ) (r : Option PlannerContext × ℤ × Option ℕ)
      → planner_add_span lib (some ctx) (pos s) d counts ≡ ok r
      → reads_past ctx (pos s) d (resources counts) (length counts) ≡ false
  unfolding planner_add_span
  returned ctx s d counts r run =
      elim (Bool-cases (reads_past ctx (pos s) d (resources counts) (length counts))) [
        | inr safe ↦ safe
        | inl past ↦ let bad = rw past at run in cc
      ]

  -- A span that is added and then removed by its id leaves a valid planner that books at every time
  -- what it booked before.
  pub planner_rem_span-planner_add_span :
      (ctx ctx' : PlannerContext) (s d : ℕ) (counts : List ℕ) (e : Option ℕ)
      → IsValid ctx
      → s + d < 2 ^ 63
      → suc ctx.span_counter < 2 ^ 63
      → planner_add_span lib (some ctx) (pos s) d counts
        ≡ ok (some ctx', pos (suc ctx.span_counter), e)
      → (ctx'' : PlannerContext) × ((planner_rem_span lib
            (some ctx')
            (pos (suc ctx.span_counter))).0
          ≡ some ctx'')
        × ((planner_rem_span lib (some ctx') (pos (suc ctx.span_counter))).1 ≡ pos 0)
        × IsValid ctx''
        × ((t : ℤ) (i : ℕ) → booked ctx''.span_lookup t i ≡ booked ctx.span_lookup t i)
  planner_rem_span-planner_add_span ctx ctx' s d counts e valid small few run =
      let (r, run', added) =
        planner_add_span-Added law ctx s d counts valid small few (returned ctx s d counts _ run) in
      let same = sym run' ∙ run in
      elim added [
        | inl (kept, rc, _) ↦ absurd (minus_one r.1 (suc ctx.span_counter) rc (ok_third same))
        | inr (ctx₁, made, rc, v, count, base, totals, books, entry) ↦
            let this : ctx₁ ≡ ctx' = some_eq made same in
            removed (rw this at v) (λ t i. rw this at (books t i)) (rw this at entry)
      ]
    where
      minus : {n : ℕ} → negsuc 0 ≡ pos n → ⊥
      minus e = cc

      minus_one : (z : ℤ) (n : ℕ) → z ≡ negsuc 0 → z ≡ pos n → ⊥
      minus_one z n a b = minus (sym a ∙ b)

      ok_third :
          {A : Type 0} {x y : A × ℤ × Option ℕ}
          → ◌≡◌ {A = Run (A × ℤ × Option ℕ)} (ok x) (ok y)
          → x.1 ≡ y.1
      ok_third e = cc

      some_eq :
          {a b : PlannerContext} {x : Option PlannerContext × ℤ × Option ℕ} {n : ℤ} {e : Option ℕ}
          → x.0 ≡ some a
          → ◌≡◌ {A = Run (Option PlannerContext × ℤ × Option ℕ)} (ok x) (ok (some b, n, e))
          → a ≡ b
      some_eq h k = cc

      removed :
          IsValid ctx'
          → ((t : ℤ) (i : ℕ)
              → booked ctx'.span_lookup t i ≡ asked s d counts t i +ℤ booked ctx.span_lookup t i)
          → ((span : Span) × (lookup (pos (suc ctx.span_counter)) ctx'.span_lookup ≡ some span)
              × ((t : ℤ) (i : ℕ)
                  → (if covers span t then demand span i else pos 0) ≡ asked s d counts t i))
          → (ctx'' : PlannerContext) × ((planner_rem_span lib
                (some ctx')
                (pos (suc ctx.span_counter))).0
              ≡ some ctx'')
            × ((planner_rem_span lib (some ctx') (pos (suc ctx.span_counter))).1 ≡ pos 0)
            × IsValid ctx''
            × ((t : ℤ) (i : ℕ) → booked ctx''.span_lookup t i ≡ booked ctx.span_lookup t i)
      removed v books (span, found, asks) =
          elim (planner_rem_span-Removed law ctx' (pos (suc ctx.span_counter)) v) [
            | inl (unknown, _) ↦ absurd (not_none _ found unknown)
            | inr (span', found', ctx'', a, b, v', count, books') ↦
                let e : span' ≡ span = some_span (sym found' ∙ found) in
                (
                  ctx'',
                  a,
                  b,
                  v',
                  λ t i. cancel (asked s d counts t i) _ _ (
                      sym (
                        books' t i
                        ∙ ap
                            (λ x.
                              (if covers x t then demand x i else pos 0)
                              +ℤ booked ctx''.span_lookup t i)
                            e
                        ∙ ap (λ z. z +ℤ booked ctx''.span_lookup t i) (asks t i))
                      ∙ books t i),
                )
          ]

-- On a valid planner, from its start to its end, what is available of a resource and what the active
-- spans book of it at that time are together its total.
pub planner_avail_resources_at-left :
    (ctx : PlannerContext) (t : ℤ) (i : ℕ)
    → IsValid ctx
    → ctx.plan_start ≤ℤ t
    → t ≤ℤ ctx.plan_end
    → i < planner_num_types
    → (n : ℤ) × (planner_avail_resources_at (some ctx) t i ≡ ok (n, none))
      × (n +ℤ booked ctx.span_lookup t i ≡ full ctx i)
unfolding planner_avail_resources_at
planner_avail_resources_at-left ctx t i (c, _, _, _, _, _) from until index =
    let (p, found, e, taken, left) = level c t from in
    let state = scheduled_point_state-latest ctx.heap t ctx.sched_point_tree c.sorted ∙ found in
    let in_plan : ltb_ℤ ctx.plan_end t ≡ false = ground arith in
    let in_types : ltb i 5 ≡ true = ground arith in
    rw (in_plan, in_types, state) ((ctx.heap p).remaining i, refl, left i)
