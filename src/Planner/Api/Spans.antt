-- ===== src/Planner/Api/Spans.antt =====
-- `planner/planner.c`: the calls on the active spans, one or all.
use resource_query.Prelude.{
  ℕ, ℤ, pos, negsuc, ◌-ℤ◌, List, [], ◌∷◌, Dict, ltb, Bool, false, Option, none, some, lookup,
  int_key, string_key, length, String, if◌then◌else◌,
}
use resource_query.Run.{Run, ok, fault, out_of_range}
use resource_query.Planner.Mintime.{planner_num_types}
use resource_query.Planner.Context.{Span, PlannerContext}
use resource_query.Planner.Spans.{invalid}
use resource_query.Planner.Api.{planner_resource_index_of_type}

unfoldable pub planner_span_size : Option PlannerContext → ℕ × Option ℕ
planner_span_size none = (0, some invalid)
planner_span_size (some ctx) = (length ctx.span_lookup, none)

-- `zhashx_next` on a table that has these items left: what is left then, and the id of the next one.
unfoldable pub next_item : List Span → List Span × ℤ × Option ℕ
next_item [] = ([], negsuc 0, some invalid)
next_item (span ∷ items) = (items, span.span_id, none)

-- The items of a table in the order of its hash are a parameter.
unfoldable pub planner_span_first :
    (Dict ℤ Span → List Span) → Option PlannerContext → List Span × ℤ × Option ℕ
unfolding next_item
planner_span_first zhashx_items none = ([], negsuc 0, some invalid)
planner_span_first zhashx_items (some ctx) = next_item (zhashx_items ctx.span_lookup)

unfoldable pub planner_span_next : Option PlannerContext → List Span → List Span × ℤ × Option ℕ
unfolding next_item
planner_span_next none items = (items, negsuc 0, some invalid)
planner_span_next (some ctx) items = next_item items

-- The head that the calls on one span share.
unfoldable pub with_span {ℓ} :
    {A : Type ℓ} → A → (Span → A × Option ℕ) → Option PlannerContext → ℤ → A × Option ℕ
with_span error f none span_id = (error, some invalid)
with_span error f (some ctx) span_id = elim (lookup span_id ctx.span_lookup) [
  | none ↦ (error, some invalid)
  | some span ↦ f span
]

unfoldable pub planner_is_active_span : Option PlannerContext → ℤ → Bool × Option ℕ
unfolding with_span
planner_is_active_span = with_span false (λ span. (span.in_system, none))

unfoldable pub planner_span_start_time : Option PlannerContext → ℤ → ℤ × Option ℕ
unfolding with_span
planner_span_start_time = with_span (negsuc 0) (λ span. (span.start, none))

unfoldable pub planner_span_duration : Option PlannerContext → ℤ → ℤ × Option ℕ
unfolding with_span
planner_span_duration = with_span (negsuc 0) (λ span. (span.last -ℤ span.start, none))

-- The index is not tested.
abbrev pub planned_at : ℕ → Span → Run ℤ
planned_at i span = if ltb i planner_num_types then ok (span.planned i) else fault out_of_range

unfoldable pub planner_span_resource_count_at : Option PlannerContext → ℤ → ℕ → Run ℤ × Option ℕ
unfolding with_span
planner_span_resource_count_at ctx span_id i =
    with_span (ok (negsuc 0)) (λ span. (planned_at i span, none)) ctx span_id

-- The -1 that an unknown type gives is taken for an index.
unfoldable pub planner_span_resource_count_by_type :
    Option PlannerContext → ℤ → String → Run ℤ × Option ℕ
unfolding with_span planner_resource_index_of_type
planner_span_resource_count_by_type ctx span_id type =
    with_span (ok (negsuc 0))
      (λ span.
        let (i, e) = planner_resource_index_of_type ctx type in
        (elim i [ pos n ↦ planned_at n span | negsuc _ ↦ fault out_of_range ], e))
      ctx span_id
