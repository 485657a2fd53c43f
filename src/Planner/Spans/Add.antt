-- ===== src/Planner/Spans/Add.antt =====
-- `planner_add_span` as its callers see it.
use resource_query.Prelude.{
  ℕ, suc, ◌+◌, ◌%◌, ◌^◌, ◌<◌, ℤ, pos, negsuc, ◌+ℤ◌, ◌-ℤ◌, -ℤ_parts, to_u64, +ℤ_parts, eq_of_parts,
  Bool, true, ltb_ℤ, ltb, ◌≤ℤ◌, to_i64, add64, u64, List, [], ◌∷◌, length, All, false, not, ◌&&◌,
  Dict, contains, lookup, int_key, Option, none, some, if◌then◌else◌, ◌≡◌, inl, inr, ◌⊎◌, refl, sym,
  ap, ◌∙◌, arith, Bool-cases, Option-cases,
}
use resource_query.Run.{ok, Returns, ◌>>=◌}
use resource_query.Planner.Context.{Span, PlannerContext, Libs, IsLawful, demand}
use resource_query.Planner.Windows.{out_of_bounds, past_end, points_from, avail_during}
use resource_query.Planner.Spans.{
  resources, invalid, count_loop, overruns, first_overruns, reads_past, not_feasable,
  span_input_check, span_new, count_up, add_to_points, planner_add_span,
}
use resource_query.Planner.Spans.Invariant.{covers, booked, full, HasWindow, IsValid}
use resource_query.Planner.Points.{Addr, Heap, ResourceArray, inorder, scheduled_point_state}
use resource_query.Planner.Mintime.{planner_num_types}
use resource_query.Planner.Tracked.{IsWhole-IsTracked}
use resource_query.Planner.Tracked.Flags.{IsFlagged-IsComplete}
use resource_query.Planner.Spans.Calls.{add_to_points-IsCurrent, IsValid-again}

-- What a request asks of resource `i` at time `t`.
abbrev pub asked : ℕ → ℕ → List ℕ → ℤ → ℕ → ℤ
asked s d counts t i =
    if not (ltb_ℤ t (pos s)) && ltb_ℤ t (pos (s + d))
    then (if ltb i (length counts) then resources counts i else pos 0)
    else pos 0

-- The next id, and a valid planner that books what was asked for besides what was booked.
abbrev pub Booked : PlannerContext → ℕ → ℕ → List ℕ → Option PlannerContext × ℤ × Option ℕ → Type 0
Booked ctx s d counts r =
    (ctx' : PlannerContext) × (r.0 ≡ some ctx')
    × (r.1 ≡ pos (suc ctx.span_counter))
    × IsValid ctx'
    × (ctx'.span_counter ≡ suc ctx.span_counter)
    × (ctx'.plan_start ≡ ctx.plan_start)
    × ((i : ℕ) → full ctx' i ≡ full ctx i)
    × ((t : ℤ) (i : ℕ)
        → booked ctx'.span_lookup t i ≡ asked s d counts t i +ℤ booked ctx.span_lookup t i)
    × ((span : Span) × (lookup (pos (suc ctx.span_counter)) ctx'.span_lookup ≡ some span)
        × ((t : ℤ) (i : ℕ)
            → (if covers span t then demand span i else pos 0) ≡ asked s d counts t i))

-- Either nothing changed, with -1 and `errno`, or the request is booked.
abbrev pub Added : PlannerContext → ℕ → ℕ → List ℕ → Option PlannerContext × ℤ × Option ℕ → Type 0
Added ctx s d counts r =
    ((r.0 ≡ some ctx) × (r.1 ≡ negsuc 0) × ((e : ℕ) × (r.2 ≡ some e))) ⊎ Booked ctx s d counts r

pub to_i64_small : (n : ℕ) → n < 2 ^ 63 → to_i64 n ≡ pos n
to_i64_small n h = ground arith

last_small : (s d : ℕ) → s + d < 2 ^ 63 → to_i64 (add64 (pos s) d) ≡ pos (s + d)
last_small s d h = ground arith

pub pos_add : (s d : ℕ) → pos s +ℤ pos d ≡ pos (s + d)
pos_add s d = eq_of_parts _ _ (omega (arith, +ℤ_parts (pos s) (pos d)))

new_id : (n : ℕ) → suc n < 2 ^ 63 → to_i64 ((n + 1) % u64) ≡ pos (suc n)
new_id n h = ground arith

gap : (s d : ℕ) → pos (s + d) -ℤ pos s ≡ pos d
gap s d = eq_of_parts _ _ (omega (arith, -ℤ_parts (pos (s + d)) (pos s)))

to_u64_small : (n : ℕ) → n < 2 ^ 63 → to_u64 (pos n) ≡ n
to_u64_small n h = omega arith

first_entry : (k : ℤ) (s : Span) (table : Dict ℤ Span) → lookup k ((k, s) ∷ table) ≡ some s
unfolding lookup
first_entry k s table = ground arith

small_count : (n : ℕ) → suc n < 2 ^ 63 → (n + 1) % u64 ≡ suc n
small_count n h = omega arith

no_later : (n : ℕ) → ltb_ℤ (pos n) (pos n) ≡ false
no_later n = ground arith

new_key :
    (n : ℕ) (table : Dict ℤ Span)
    → All (λ e. ltb_ℤ (pos n) e.0 ≡ false) table
    → contains (pos (suc n)) table ≡ false
unfolding contains lookup
new_key n [] h = refl
new_key n ((k, s) ∷ table) h = ground (arith, new_key n table h.1)

later_keys :
    (n : ℕ) (table : Dict ℤ Span)
    → All (λ e. ltb_ℤ (pos n) e.0 ≡ false) table
    → All (λ e. ltb_ℤ (pos (suc n)) e.0 ≡ false) table
later_keys n [] h = tt
later_keys n ((k, s) ∷ table) h = (ground arith, later_keys n table h.1)

keys_after :
    (m n : ℕ) (k : ℤ) (table : Dict ℤ Span)
    → m ≡ suc n
    → k ≡ pos (suc n)
    → All (λ e. ltb_ℤ (pos n) e.0 ≡ false) table
    → (ltb_ℤ (pos m) k ≡ false) × All (λ e. ltb_ℤ (pos m) e.0 ≡ false) table
keys_after m n k table a b keys = rw (a, b) (no_later (suc n), later_keys n table keys)

first_overruns-few :
    (heap : Heap) (end : ℤ) (counts : ResourceArray) (len : ℕ) (ps : List Addr)
    → len < 6
    → first_overruns heap end counts len ps ≡ false
unfolding first_overruns overruns
first_overruns-few heap end counts len [] few = refl
first_overruns-few heap end counts len (p ∷ ps) few =
    let short : ltb 5 len ≡ false = ground arith in
    elim (Bool-cases (ltb_ℤ (heap p).at end)) [ inl e ↦ rw (e, short) refl | inr e ↦ rw e refl ]

-- Five counts at most are not read past.
pub reads_past-few :
    (ctx : PlannerContext) (at : ℤ) (duration : ℕ) (counts : ResourceArray) (len : ℕ)
    → len < 6
    → reads_past ctx at duration counts len ≡ false
unfolding reads_past
reads_past-few ctx at duration counts len few =
    rw
      (first_overruns-few ctx.heap (at +ℤ to_i64 duration) counts len
        (points_from ctx (scheduled_point_state ctx.heap at ctx.sched_point_tree)) few)
      (and_false (not (past_end ctx at duration)))
  where
    and_false : (b : Bool) → (b && false) ≡ false
    and_false true = refl
    and_false false = refl

-- Nor is a request that passes the checks of its input.
pub reads_past-checked :
    (ctx : PlannerContext) (s d : ℕ) (counts : List ℕ)
    → span_input_check ctx (pos s) d counts ≡ none
    → reads_past ctx (pos s) d (resources counts) (length counts) ≡ false
unfolding span_input_check not_feasable
reads_past-checked ctx s d counts h = elim (Bool-cases (ltb planner_num_types (length counts))) [
  | inr few ↦ reads_past-few ctx (pos s) d (resources counts) (length counts) (ground arith)
  | inl many ↦ absurd (refused (not_feasable ctx (pos s) d (length counts)) (ground arith) h)
]
  where
    refused :
        (b : Bool)
        → b ≡ true
        → (if b then some invalid else elim (count_loop ctx.total_resources 0 counts (pos 0)) [
          | none ↦ some out_of_bounds
          | some sum ↦ if not (ltb_ℤ (pos 0) sum) then some out_of_bounds else none
        ])
          ≡ none
        → ⊥
    refused b e h = let bad = rw e at h in cc

pub within_plan :
    (ctx : PlannerContext) (s d : ℕ) (counts : List ℕ)
    → span_input_check ctx (pos s) d counts ≡ none
    → (ctx.plan_start ≤ℤ pos s) × (0 < d)
unfolding span_input_check not_feasable
within_plan ctx s d counts h = elim (Bool-cases (ltb_ℤ (pos s) ctx.plan_start)) [
  | inl before ↦ let bad = rw before at h in cc
  | inr after ↦ elim (Bool-cases (ltb d 1)) [
    | inl short ↦ let bad = rw (after, short) at h in cc
    | inr long ↦ (ground arith, ground arith)
  ]
]

module _ {lib : Libs} (law : IsLawful lib) (ctx : PlannerContext) (s d : ℕ) (counts : List ℕ) where
  pub accepted :
      (e : Option ℕ)
      → IsValid ctx
      → s + d < 2 ^ 63
      → suc ctx.span_counter < 2 ^ 63
      → (ctx.plan_start ≤ℤ pos s) × (0 < d)
      → Returns
          (add_to_points lib (count_up ctx) (span_new ctx (pos s) d counts) d >>= λ c. ok (
            some c.0,
            (span_new ctx (pos s) d counts).span_id,
            elim c.1 [ none ↦ e | some e' ↦ some e' ],
          ))
          (Booked ctx s d counts)
  accepted e (c, p0_old, keys, windows, (used, complete), tracked) small few (after, positive) =
      let span = span_new ctx (pos s) d counts in
      let last = last_small s d small in
      let id = new_id ctx.span_counter few in
      let width = ap (λ x. pos s +ℤ x) (to_i64_small d (omega arith)) ∙ pos_add s d ∙ sym last in
      let forward : pos s ≤ℤ span.last = rw last (omega arith) in
      let new =
        ap (λ k. contains k ctx.span_lookup) id ∙ new_key ctx.span_counter ctx.span_lookup keys in
      let (r, run, added) =
        add_to_points-IsCurrent law (count_up ctx) span d c after forward width new tracked used
          complete in
      let (
        entry, table, start_eq, last_eq, demand_eq, p0_eq, same, current, whole, used', flagged,
      ) =
        added in
      let count : (count_up ctx).span_counter ≡ suc ctx.span_counter =
        small_count ctx.span_counter few in
      let keys' : All (λ e. ltb_ℤ (pos (count_up ctx).span_counter) e.0 ≡ false)
          ((span.span_id, entry) ∷ ctx.span_lookup) =
        keys_after (count_up ctx).span_counter ctx.span_counter span.span_id ctx.span_lookup count
          id keys in
      let valid =
        IsValid-again (count_up ctx) r.0 ((span.span_id, entry) ∷ ctx.span_lookup) same p0_eq table
          p0_old keys' (window entry start_eq (last_eq ∙ last), windows) current used'
          (IsFlagged-IsComplete r.0.heap (inorder r.0.sched_point_tree) r.0.mt flagged)
          (IsWhole-IsTracked r.0.heap (inorder r.0.sched_point_tree) r.0.mt whole) in
      rw run (
        _,
        refl,
        (
          r.0,
          refl,
          id,
          valid,
          same.3 ∙ count,
          same.0,
          λ i. rw (same.1, same.2) refl,
          λ t i.
              ap (λ x. booked x t i) table
              ∙ ap (λ z. z +ℤ booked ctx.span_lookup t i)
                  (asks entry start_eq (last_eq ∙ last) demand_eq t i),
          (
            entry,
            found r.0.span_lookup entry span.span_id table id,
            asks entry start_eq (last_eq ∙ last) demand_eq,
          ),
        ),
      )
    where
      window : (entry : Span) → entry.start ≡ pos s → entry.last ≡ pos (s + d) → HasWindow entry
      window entry a b =
          rw (a, b)
            (
              omega arith,
              ap (λ x. pos s +ℤ to_i64 (to_u64 x)) (gap s d)
                  ∙ ap (λ x. pos s +ℤ to_i64 x) (to_u64_small d (omega arith))
                  ∙ ap (λ x. pos s +ℤ x) (to_i64_small d (omega arith))
                  ∙ pos_add s d,
            )

      asks :
          (entry : Span)
          → entry.start ≡ pos s
          → entry.last ≡ pos (s + d)
          → ((i : ℕ) → demand entry i ≡ demand (span_new ctx (pos s) d counts) i)
          → (t : ℤ) (i : ℕ)
          → (if covers entry t then demand entry i else pos 0) ≡ asked s d counts t i
      asks entry a b e t i = rw (a, b, e i) refl

      found :
          (table : Dict ℤ Span) (entry : Span) (k : ℤ)
          → table ≡ (k, entry) ∷ ctx.span_lookup
          → k ≡ pos (suc ctx.span_counter)
          → lookup (pos (suc ctx.span_counter)) table ≡ some entry
      found table entry k a b =
          rw (a, b) (first_entry (pos (suc ctx.span_counter)) entry ctx.span_lookup)

  -- With a start that is not negative, an end within 63 bits and ids left, and counts that are not read
  -- past (none of up to five resources are), the call returns. It gives
  -- -1, with `errno` set and the planner as it was; or the next id, and then the planner is valid
  -- again, and at every time more is booked by just the request, within its window.
  pub planner_add_span-Added :
      IsValid ctx
      → s + d < 2 ^ 63
      → suc ctx.span_counter < 2 ^ 63
      → reads_past ctx (pos s) d (resources counts) (length counts) ≡ false
      → Returns (planner_add_span lib (some ctx) (pos s) d counts) (Added ctx s d counts)
  unfolding planner_add_span
  planner_add_span-Added valid small few safe =
      let fits = avail_during ctx (pos s) d (resources counts) (length counts) in
      elim (Bool-cases fits.0) [
        | inr no_fit ↦ rw (safe, no_fit) (_, refl, inl (refl, refl, (_, refl)))
        | inl fit ↦ elim (Option-cases (span_input_check ctx (pos s) d counts)) [
          | inr (e, refused) ↦ rw (safe, fit, refused) (_, refl, inl (refl, refl, (e, refl)))
          | inl passed ↦
              let (r, run, books) =
                accepted fits.1 valid small few (within_plan ctx s d counts passed) in
              rw (safe, fit, passed) (r, run, inr books)
        ]
      ]
