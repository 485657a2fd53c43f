-- ===== src/Planner/Play.antt =====
-- A planner from its making on, through any calls that change it.
use resource_query.Prelude.{
  ℕ, ◌+◌, ◌^◌, ◌<◌, ℤ, pos, List, [], ◌∷◌, length, All, Option, some, ◌≡◌, inl, inr, refl, arith,
}
use resource_query.Run.{Run, ok, Returns, ◌>>=◌}
use resource_query.Planner.Context.{PlannerContext, Libs, IsLawful}
use resource_query.Planner.Spans.{resources, planner_add_span, planner_rem_span}
use resource_query.Planner.Spans.Invariant.{IsValid}
use resource_query.Planner.Spans.Add.{reads_past-few, planner_add_span-Added}
use resource_query.Planner.Spans.Remove.{planner_rem_span-Removed}
use resource_query.Planner.Api.{planner_avail_time_first, planner_avail_time_next}
use resource_query.Planner.First.{planner_avail_time_first-Starts, planner_avail_time_next-Starts}

-- A call that adds or removes a span, or searches for times.
pub data Call : Type 0 where
  add : ℕ → ℕ → List ℕ → Call
  rem : ℤ → Call
  first : ℤ → ℕ → List ℕ → Call
  next : Call

-- The window of an added span ends within 63 bits, and it asks for five resources at most.
abbrev pub IsSmall : Call → Type 0
IsSmall (add s d counts) = (s + d < 2 ^ 63) × (length counts < 6)
IsSmall (rem id) = Unit
IsSmall (first t d counts) = Unit
IsSmall next = Unit

-- The planner after some calls, whatever they return.
unfoldable pub play : Libs → List Call → Option PlannerContext → Run (Option PlannerContext)
play lib [] ctx = ok ctx
play lib (add s d counts ∷ calls) ctx =
    planner_add_span lib ctx (pos s) d counts >>= λ r. play lib calls r.0
play lib (rem id ∷ calls) ctx = play lib calls (planner_rem_span lib ctx id).0
play lib (first t d counts ∷ calls) ctx =
    planner_avail_time_first lib ctx t d counts >>= λ r. play lib calls r.0
play lib (next ∷ calls) ctx = planner_avail_time_next lib ctx >>= λ r. play lib calls r.0

module _ {lib : Libs} (law : IsLawful lib) where
  pub play-IsValid :
      (calls : List Call) (ctx : PlannerContext)
      → IsValid ctx
      → All IsSmall calls
      → ctx.span_counter + length calls < 2 ^ 63
      → Returns
          (play lib calls (some ctx))
          λ c. (ctx' : PlannerContext) × (c ≡ some ctx') × IsValid ctx'
  unfolding play
  play-IsValid [] ctx v small few = (some ctx, refl, (ctx, refl, v))
  play-IsValid (rem id ∷ calls) ctx v small few = elim (planner_rem_span-Removed law ctx id v) [
    | inl (unknown, same) ↦ rw same (play-IsValid calls ctx v small.1 (omega arith))
    | inr (s, found, ctx', same, rc, v', count, books) ↦
        rw same (play-IsValid calls ctx' v' small.1 (omega arith))
  ]
  play-IsValid (add s d counts ∷ calls) ctx v small few =
      let (r, run, added) =
        planner_add_span-Added law ctx s d counts v small.0.0 (omega arith)
          (reads_past-few ctx (pos s) d (resources counts) (length counts) small.0.1) in
      elim added [
        | inl (same, rc, e) ↦ rw (run, same) (play-IsValid calls ctx v small.1 (omega arith))
        | inr (ctx', same, rc, v', count, base, totals, books, entry) ↦
            rw (run, same) (play-IsValid calls ctx' v' small.1 (omega arith))
      ]
  play-IsValid (first t d counts ∷ calls) ctx v small few =
      let (r, run, (ctx', same, v', table, count, starts)) =
        planner_avail_time_first-Starts law ctx t d counts v in
      rw (run, same) (play-IsValid calls ctx' v' small.1 (omega arith))
  play-IsValid (next ∷ calls) ctx v small few =
      let (r, run, (ctx', same, v', table, count, starts)) =
        planner_avail_time_next-Starts law ctx v in
      rw (run, same) (play-IsValid calls ctx' v' small.1 (omega arith))
