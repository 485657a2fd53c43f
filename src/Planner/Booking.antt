-- ===== src/Planner/Booking.antt =====
-- When `planner_add_span` adds the span.
use resource_query.Prelude.{
  ℕ, suc, ◌+◌, ◌^◌, ◌<◌, pos, negsuc, ◌+ℤ◌, ◌≤ℤ◌, ◌<ℤ◌, to_i64, List, length, Bool, true, false,
  some, none, ◌≡◌, ◌↔◌, inl, inr, refl, ap, ◌∙◌, arith, Bool-cases,
}
use resource_query.Run.{Returns}
use resource_query.Planner.Points.{Addr, inorder}
use resource_query.Planner.Points.Sorted.{elem}
use resource_query.Planner.Context.{PlannerContext, Libs, IsLawful}
use resource_query.Planner.Windows.{past_end, avail_during}
use resource_query.Planner.Spans.{resources, span_input_check, planner_add_span}
use resource_query.Planner.Spans.Invariant.{IsValid}
use resource_query.Planner.Spans.Add.{
  reads_past-checked, within_plan, accepted, pos_add, to_i64_small,
}
use resource_query.Planner.Fits.{Fits}
use resource_query.Planner.Exact.{HasSlack, avail_during_iff}

module _ {lib : Libs} (law : IsLawful lib) (ctx : PlannerContext) (s d : ℕ) (counts : List ℕ) where
  window_iff :
      IsValid ctx
      → s + d < 2 ^ 63
      → (ctx.plan_start ≤ℤ pos s) × (0 < d)
      → past_end ctx (pos s) d ≡ false
      → ((p : Addr)
          → elem p (inorder ctx.sched_point_tree) ≡ true
          → HasSlack ctx.heap (resources counts) (length counts) p)
      → ((avail_during ctx (pos s) d (resources counts) (length counts)).0 ≡ true)
        ↔ Fits ctx (pos s) (pos (s + d)) (resources counts) (length counts)
  window_iff valid small (after, positive) inside slacks =
      let end = ap (λ x. pos s +ℤ x) (to_i64_small d (omega arith)) ∙ pos_add s d in
      let forward : pos s <ℤ pos s +ℤ to_i64 d = rw end (omega arith) in
      rw end at (
        avail_during_iff ctx (pos s) d (resources counts) (length counts) valid after forward inside
          slacks)

  -- On a valid planner, for a window that does not end past the plan and a request that passes the
  -- checks of its input, where no point leaves more than an `int` holds beyond the counts: the call
  -- returns, and gives the next id exactly if the request fits at every time of its window.
  pub planner_add_span_iff :
      IsValid ctx
      → s + d < 2 ^ 63
      → suc ctx.span_counter < 2 ^ 63
      → span_input_check ctx (pos s) d counts ≡ none
      → past_end ctx (pos s) d ≡ false
      → ((p : Addr)
          → elem p (inorder ctx.sched_point_tree) ≡ true
          → HasSlack ctx.heap (resources counts) (length counts) p)
      → Returns (planner_add_span lib (some ctx) (pos s) d counts) λ r.
        (r.1 ≡ pos (suc ctx.span_counter))
        ↔ Fits ctx (pos s) (pos (s + d)) (resources counts) (length counts)
  unfolding planner_add_span
  planner_add_span_iff valid small few passed inside slacks =
      let fits = avail_during ctx (pos s) d (resources counts) (length counts) in
      let window = within_plan ctx s d counts passed in
      let safe = reads_past-checked ctx s d counts passed in
      let iff = window_iff valid small window inside slacks in
      elim (Bool-cases fits.0) [
        | inr no_fit ↦
            rw (safe, no_fit)
              (_, refl, (λ e. absurd (minus e), λ f. absurd (both (iff.1 f) no_fit)))
        | inl fit ↦
            let (r, run, books) = accepted law ctx s d counts fits.1 valid small few window in
            rw (safe, fit, passed) (r, run, (λ e. iff.0 fit, λ f. books.2))
      ]
    where
      minus : {n : ℕ} → negsuc 0 ≡ pos n → ⊥
      minus e = cc

      both : {b : Bool} → b ≡ true → b ≡ false → ⊥
      both h k = cc
