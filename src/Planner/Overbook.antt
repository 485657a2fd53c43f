-- ===== src/Planner/Overbook.antt =====
-- When a planner books more than it has.
use resource_query.Prelude.{
  ℕ, suc, ◌+◌, ◌-◌, ◌^◌, ◌<◌, ℤ, pos, ◌+ℤ◌, +ℤ_parts, eq_of_parts, ltb_ℤ, ltb, ◌≤ℤ◌, ◌<ℤ◌, pos_part,
  neg_part, to_u64, add64, List, length, true, false, not, ◌&&◌, Option, none, some, ◌≡◌, inl, inr,
  refl, sym, ap, ◌∙◌, arith, Bool-cases, Option-cases,
}
use resource_query.Run.{Returns}
use resource_query.Planner.Points.{ResourceArray}
use resource_query.Planner.Context.{PlannerContext, Libs, IsLawful}
use resource_query.Planner.Windows.{past_end, avail_during}
use resource_query.Planner.Spans.{resources, reads_past, span_input_check, planner_add_span}
use resource_query.Planner.Spans.Invariant.{booked, full, IsValid}
use resource_query.Planner.Spans.Add.{
  reads_past-checked, Booked, asked, within_plan, accepted, pos_add, to_i64_small,
}
use resource_query.Planner.Fits.{Fits, avail_during-Fits}

-- From the start of the plan on, no more is booked than there is.
abbrev pub IsWithin : PlannerContext → Type 0
IsWithin ctx = (t : ℤ) → ctx.plan_start ≤ℤ t → (i : ℕ) → booked ctx.span_lookup t i ≤ℤ full ctx i

avail_past :
    (ctx : PlannerContext) (at : ℤ) (duration : ℕ) (counts : ResourceArray) (len : ℕ)
    → past_end ctx at duration ≡ true
    → (avail_during ctx at duration counts len).0 ≡ true
unfolding avail_during
avail_past ctx at duration counts len h = rw h refl

just_past :
    (end : ℤ) (s d : ℕ)
    → end +ℤ pos 1 ≡ pos (s + d)
    → s + d < 2 ^ 63
    → 0 < s + d
    → ltb (to_u64 end) (add64 (pos s) d) ≡ true
just_past end s d e small positive =
    let last : end ≡ pos (s + d - 1) =
      eq_of_parts _ _ (omega (arith, +ℤ_parts end (pos 1), ap pos_part e, ap neg_part e)) in
    rw last (ground arith)

module _ {lib : Libs} (law : IsLawful lib) (ctx : PlannerContext) (s d : ℕ) (counts : List ℕ) where
  asked-IsWithin :
      IsWithin ctx
      → Fits ctx (pos s) (pos (s + d)) (resources counts) (length counts)
      → (t : ℤ) → ctx.plan_start ≤ℤ t
      → (i : ℕ) → asked s d counts t i +ℤ booked ctx.span_lookup t i ≤ℤ full ctx i
  asked-IsWithin w fits t start i =
      elim (Bool-cases (not (ltb_ℤ t (pos s)) && ltb_ℤ t (pos (s + d)))) [
        | inr out ↦ rw out (none_more _ _ (w t start i))
        | inl inside ↦ elim (Bool-cases (ltb i (length counts))) [
          | inr other ↦ rw (inside, other) (none_more _ _ (w t start i))
          | inl index ↦ rw (inside, index) (fits t (ground arith) (ground arith) i (ground arith))
        ]
      ]
    where
      none_more : (b f : ℤ) → b ≤ℤ f → pos 0 +ℤ b ≤ℤ f
      none_more b f h = omega (arith, +ℤ_parts (pos 0) b)

  kept :
      IsWithin ctx
      → (o : Option PlannerContext) → o ≡ some ctx
      → (ctx' : PlannerContext) → o ≡ some ctx'
      → IsWithin ctx'
  kept w o e ctx' e' = rw (← some_injective (sym e ∙ e')) w
    where
      some_injective : {a b : PlannerContext} → some a ≡ some b → a ≡ b
      some_injective e = cc

  still :
      IsWithin ctx
      → Fits ctx (pos s) (pos (s + d)) (resources counts) (length counts)
      → (r : Option PlannerContext × ℤ × Option ℕ) → Booked ctx s d counts r
      → (ctx' : PlannerContext) → r.0 ≡ some ctx'
      → IsWithin ctx'
  still w fits r (ctx₁, made, rc, v, count, base, totals, books, entry) ctx' e =
      let same : ctx₁ ≡ ctx' = some_injective (sym made ∙ e) in
      rw (← same)
        (λ t start i. rw (books t i, totals i) (asked-IsWithin w fits t (rw base at start) i))
    where
      some_injective : {a b : PlannerContext} → some a ≡ some b → a ≡ b
      some_injective e = cc

  -- A span whose window does not end past the plan, and whose counts are not read past, is only added
  -- where it fits: if no more was booked
  -- than there is, then so it is after the call, whatever it returns.
  pub planner_add_span-IsWithin :
      IsValid ctx
      → IsWithin ctx
      → s + d < 2 ^ 63
      → suc ctx.span_counter < 2 ^ 63
      → past_end ctx (pos s) d ≡ false
      → reads_past ctx (pos s) d (resources counts) (length counts) ≡ false
      → Returns
          (planner_add_span lib (some ctx) (pos s) d counts)
          λ r. (ctx' : PlannerContext) → r.0 ≡ some ctx' → IsWithin ctx'
  unfolding planner_add_span
  planner_add_span-IsWithin valid w small few in_plan safe =
      let fits = avail_during ctx (pos s) d (resources counts) (length counts) in
      elim (Bool-cases fits.0) [
        | inr no_fit ↦ rw (safe, no_fit) (_, refl, kept w (some ctx) refl)
        | inl fit ↦ elim (Option-cases (span_input_check ctx (pos s) d counts)) [
          | inr (e, refused) ↦ rw (safe, fit, refused) (_, refl, kept w (some ctx) refl)
          | inl passed ↦
              let (after, positive) = within_plan ctx s d counts passed in
              let end = ap (λ x. pos s +ℤ x) (to_i64_small d (omega arith)) ∙ pos_add s d in
              let window = rw end at (
                avail_during-Fits ctx (pos s) d (resources counts) (length counts) valid after
                  in_plan fit) in
              let (r, run, books) =
                accepted law ctx s d counts fits.1 valid small few (after, positive) in
              rw (safe, fit, passed) (r, run, still w window r books)
        ]
      ]

  -- A span that ends just past the plan is added whatever is booked already, if its counts are within
  -- the totals: where the window is full, more is booked then than there is.
  pub planner_add_span-overbooks :
      (t : ℤ) (i : ℕ)
      → IsValid ctx
      → s + d < 2 ^ 63
      → suc ctx.span_counter < 2 ^ 63
      → ctx.plan_end +ℤ pos 1 ≡ pos (s + d)
      → span_input_check ctx (pos s) d counts ≡ none
      → full ctx i <ℤ asked s d counts t i +ℤ booked ctx.span_lookup t i
      → Returns (planner_add_span lib (some ctx) (pos s) d counts) λ r.
        (r.1 ≡ pos (suc ctx.span_counter))
        × ((ctx' : PlannerContext) × (r.0 ≡ some ctx')
            × IsValid ctx'
            × (full ctx' i <ℤ booked ctx'.span_lookup t i))
  unfolding planner_add_span
  planner_add_span-overbooks t i valid small few end passed over =
      let (after, positive) = within_plan ctx s d counts passed in
      let fits = avail_during ctx (pos s) d (resources counts) (length counts) in
      let past =
        avail_past ctx (pos s) d (resources counts) (length counts)
          (just_past ctx.plan_end s d end small (omega arith)) in
      let (r, run, books) = accepted law ctx s d counts fits.1 valid small few (after, positive) in
      let (ctx', made, rc, v, count, base, totals, more, entry) = books in
      let safe = reads_past-checked ctx s d counts passed in
      rw (safe, past, passed) (r, run, (rc, (ctx', made, v, rw (totals i, more t i) over)))
