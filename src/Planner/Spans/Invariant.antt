-- ===== src/Planner/Spans/Invariant.antt =====
-- What holds of a planner between calls: its points are in order, and each carries what the active
-- spans leave at its time, is referred to, and is in the min-time tree or, where a search has put it
-- aside, in the table of the points that are out.
use resource_query.Prelude.{
  ℕ, ◌+◌, ◌≤◌, ◌<◌, ℤ, pos, ◌+ℤ◌, ◌-ℤ◌, ltb_ℤ, ltb, to_i64, to_u64, ◌<ℤ◌, List, [], ◌∷◌, All, Bool,
  true, false, not, ◌&&◌, ◌==◌, Dict, if◌then◌else◌, ◌≡◌,
}
use resource_query.Planner.Points.{Addr, ResourceArray, ScheduledPoint, Heap, inorder}
use resource_query.Planner.Points.Sorted.{elem, IsSorted}
use resource_query.Planner.Context.{Span, PlannerContext, demand}
use resource_query.Planner.Tracked.{IsTracked, IsComplete}

-- The span covers the time.
abbrev pub covers : Span → ℤ → Bool
covers s t = not (ltb_ℤ t s.start) && ltb_ℤ t s.last

-- What the spans of a table demand of resource `i` at one time, all together.
abbrev pub booked : Dict ℤ Span → ℤ → ℕ → ℤ
booked [] t i = pos 0
booked ((k, s) ∷ table) t i = (if covers s t then demand s i else pos 0) +ℤ booked table t i

-- How often the spans of a table refer to a point.
abbrev pub references : Dict ℤ Span → Addr → ℕ
references [] p = 0
references ((k, s) ∷ table) p =
    (if s.start_p == p then 1 else 0) + (if s.last_p == p then 1 else 0) + references table p

pub record HasEnds (heap : Heap) (ps : List Addr) (s : Span) : Type 0 where
  pub start_in : elem s.start_p ps ≡ true
  pub last_in : elem s.last_p ps ≡ true
  pub start_at : (heap s.start_p).at ≡ s.start
  pub last_at : (heap s.last_p).at ≡ s.last

-- A point's counts are what the spans book at its time, and what they leave of the totals.
pub record HasLevel (total : ResourceArray) (table : Dict ℤ Span) (p : ScheduledPoint)
    : Type 0 where
  pub taken : (i : ℕ) → p.scheduled i ≡ booked table p.at i
  pub left : (i : ℕ) → p.remaining i +ℤ booked table p.at i ≡ total i

-- The totals within the dimension.
abbrev pub full : PlannerContext → ResourceArray
full ctx i = if ltb i ctx.dimension then ctx.total_resources i else pos 0

-- `extra` counts the references that are not the table's.
pub record IsCurrent (total : ResourceArray) (start : ℤ) (extra : Addr → ℕ) (table : Dict ℤ Span)
    (heap : Heap) (next p0 : Addr) (ps : List Addr) : Type 0 where
  pub sorted : IsSorted heap ps
  pub fresh : All (λ p. p < next) ps
  pub extra_fresh : (p : Addr) → next ≤ p → extra p ≡ 0
  pub base_in : elem p0 ps ≡ true
  pub base_at : (heap p0).at ≡ start
  pub levels : All (λ p. HasLevel total table (heap p)) ps
  pub counted : All (λ p. (heap p).ref_count ≡ pos (extra p + references table p)) ps
  pub ends : All (λ e. HasEnds heap ps e.1) table

-- The span ends after it starts, by less than an `int64_t` holds.
abbrev pub HasWindow : Span → Type 0
HasWindow s = (s.start <ℤ s.last) × (s.start +ℤ to_i64 (to_u64 (s.last -ℤ s.start)) ≡ s.last)

-- Each point is referred to.
abbrev pub IsUsed : (Addr → ℕ) → Dict ℤ Span → List Addr → Type 0
IsUsed extra table ps = (q : Addr) → elem q ps ≡ true → 0 < extra q + references table q

-- The planner itself refers to `p0` once.
abbrev pub base : PlannerContext → Addr → ℕ
base ctx p = if p == ctx.p0 then 1 else 0

abbrev pub IsValid : PlannerContext → Type 0
IsValid ctx =
    IsCurrent (full ctx) ctx.plan_start (base ctx) ctx.span_lookup ctx.heap ctx.next ctx.p0
      (inorder ctx.sched_point_tree)
    × (ctx.p0 < ctx.next)
    × All (λ e. ltb_ℤ (pos ctx.span_counter) e.0 ≡ false) ctx.span_lookup
    × All (λ e. HasWindow e.1) ctx.span_lookup
    × (IsUsed (base ctx) ctx.span_lookup (inorder ctx.sched_point_tree)
        × IsComplete ctx.heap (inorder ctx.sched_point_tree) ctx.mt)
    × IsTracked ctx.heap (inorder ctx.sched_point_tree) ctx.mt
