-- ===== src/Planner/Exact.antt =====
-- When `avail_during` answers true.
use resource_query.Prelude.{
  ℕ, ◌^◌, ◌≤◌, ℤ, ◌+ℤ◌, +ℤ_parts, ltb_ℤ, ◌≤ℤ◌, ◌<ℤ◌, to_i64, List, [], ◌∷◌, true, false, ◌==◌,
  ==_iff, none, some, ◌≡◌, ◌⊎◌, inl, inr, ◌↔◌, refl, sym, ◌∙◌, arith, Bool-cases,
}
use resource_query.Planner.Points.{Addr, ResourceArray, Heap, walk_from, inorder}
use resource_query.Planner.Points.Sorted.{elem, IsSorted, latest, scheduled_point_state-latest}
use resource_query.Planner.Points.Members.{All-elem, latest_facts, latest_self}
use resource_query.Planner.Mintime.Rescmp.{Covers, slack, rescmp_iff}
use resource_query.Planner.Context.{PlannerContext}
use resource_query.Planner.Windows.{past_end, during_loop, avail_during}
use resource_query.Planner.Spans.Invariant.{booked, full, IsValid}
use resource_query.Planner.Spans.Points.{level}
use resource_query.Planner.Fits.{Fits, avail_during-Fits}

-- What a point leaves beyond the counts fits an `int`.
abbrev pub HasSlack : Heap → ResourceArray → ℕ → Addr → Type 0
HasSlack heap counts len p = slack counts (heap p).remaining 0 len ≤ 2 ^ 31

covered_rest : (c r b f : ℤ) → c +ℤ b ≤ℤ f → r +ℤ b ≡ f → c ≤ℤ r
covered_rest c r b f h e = omega (arith, rw (← e) at h, +ℤ_parts c b, +ℤ_parts r b)

less : (a b : ℤ) → ltb_ℤ a b ≡ true → a <ℤ b
less a b h = ground arith

module _ (heap : Heap) where
  -- The loop goes through if it covers what it comes to.
  during_loop-true :
      (end : ℤ) (counts : ResourceArray) (len : ℕ) (ps : List Addr)
      → ((p : Addr) → elem p ps ≡ true → HasSlack heap counts len p)
      → ((p : Addr) → elem p ps ≡ true → (heap p).at <ℤ end → Covers len counts (heap p).remaining)
      → during_loop heap end counts len ps ≡ true
  unfolding during_loop
  during_loop-true end counts len [] s c = refl
  during_loop-true end counts len (p ∷ ps) s c = elim (Bool-cases (ltb_ℤ (heap p).at end)) [
    | inr beyond ↦ rw beyond refl
    | inl before ↦
        let enough =
          (rescmp_iff counts (heap p).remaining len (s p (ground arith))).1
            (c p (ground arith) (less (heap p).at end before)) in
        rw (before, enough)
          (during_loop-true end counts len ps (λ q e. s q (rw e (ground arith)))
            (λ q e. c q (rw e (ground arith))))
  ]

  -- The walk from a point gives points from its time on.
  from_walk :
      (p q : Addr) (ps : List Addr)
      → IsSorted heap ps
      → elem q (walk_from p ps) ≡ true
      → (elem q ps ≡ true) × ((q ≡ p) ⊎ ((heap p).at <ℤ (heap q).at))
  from_walk p q [] s e = cc
  from_walk p q (x ∷ xs) s e = elim (Bool-cases (x == p)) [
    | inl same ↦
        let e' : elem q (x ∷ xs) ≡ true = rw same at e in
        let is_p : x ≡ p = (==_iff x p).0 same in
        (
          e',
          elim (Bool-cases (q == x)) [
            | inl here ↦ inl ((==_iff q x).0 here ∙ is_p)
            | inr apart ↦
                inr (
                  rw (← is_p)
                    (All-elem (λ y. (heap x).at <ℤ (heap y).at) xs q s.0 (rw apart at e')))
          ],
        )
    | inr other ↦ let (e', t) = from_walk p q xs s.1 (rw other at e) in (rw e' (ground arith), t)
  ]

Fits-Covers :
    (ctx : PlannerContext) (at end t : ℤ) (counts : ResourceArray) (len : ℕ) (p : Addr)
    → IsValid ctx
    → ctx.plan_start ≤ℤ at
    → at ≤ℤ t
    → t <ℤ end
    → latest ctx.heap t (inorder ctx.sched_point_tree) none ≡ some p
    → Fits ctx at end counts len
    → Covers len counts (ctx.heap p).remaining
Fits-Covers ctx at end t counts len p (c, _, _, _, _, _) start from until found fits i index =
    let (q, found', _, _, left) = level c t (omega arith) in
    let same : q ≡ p = some_injective (sym found' ∙ found) in
    rw (← same) (
      covered_rest (counts i) ((ctx.heap q).remaining i) (booked ctx.span_lookup t i) (full ctx i)
        (fits t from until i index) (left i))
  where
    some_injective : {a b : Addr} → some a ≡ some b → a ≡ b
    some_injective e = cc

-- So each point that the loop comes to covers the counts.
checked-Covers :
    (ctx : PlannerContext) (at end : ℤ) (counts : ResourceArray) (len : ℕ) (p q : Addr)
    → IsValid ctx
    → ctx.plan_start ≤ℤ at
    → at <ℤ end
    → latest ctx.heap at (inorder ctx.sched_point_tree) none ≡ some p
    → (elem q (inorder ctx.sched_point_tree) ≡ true)
      × ((q ≡ p) ⊎ ((ctx.heap p).at <ℤ (ctx.heap q).at))
    → (ctx.heap q).at <ℤ end
    → Fits ctx at end counts len
    → Covers len counts (ctx.heap q).remaining
checked-Covers ctx at end counts len p q valid start forward found (e, inl same) before fits =
    rw same (Fits-Covers ctx at end at counts len p valid start (omega arith) forward found fits)
checked-Covers ctx at end counts len p q valid start forward found (e, inr later) before fits =
    let ps = inorder ctx.sched_point_tree in
    let sorted = valid.0.sorted in
    elim (latest_facts ctx.heap at ps none p sorted found) [
      | inr (bad, _) ↦ absurd (cc)
      | inl (_, _, all) ↦
          let after =
            not_between
              (All-elem (λ x. ((ctx.heap x).at ≤ℤ (ctx.heap p).at) ⊎ (at <ℤ (ctx.heap x).at)) ps q
                all e)
              later in
          Fits-Covers ctx at end (ctx.heap q).at counts len q valid start (omega arith) before
            (latest_self ctx.heap ps q sorted e) fits
    ]
  where
    not_between :
        ((ctx.heap q).at ≤ℤ (ctx.heap p).at) ⊎ (at <ℤ (ctx.heap q).at)
        → (ctx.heap p).at <ℤ (ctx.heap q).at
        → at <ℤ (ctx.heap q).at
    not_between (inl h) l = absurd (omega arith)
    not_between (inr h) l = h

-- On a valid planner, for a window that is not empty and does not end past the plan, where no point
-- leaves more than an `int` holds beyond the counts, `avail_during` answers true exactly if the counts
-- fit at every time of the window.
pub avail_during_iff :
    (ctx : PlannerContext) (at : ℤ) (duration : ℕ) (counts : ResourceArray) (len : ℕ)
    → IsValid ctx
    → ctx.plan_start ≤ℤ at
    → at <ℤ at +ℤ to_i64 duration
    → past_end ctx at duration ≡ false
    → ((p : Addr) → elem p (inorder ctx.sched_point_tree) ≡ true → HasSlack ctx.heap counts len p)
    → ((avail_during ctx at duration counts len).0 ≡ true)
      ↔ Fits ctx at (at +ℤ to_i64 duration) counts len
unfolding avail_during
avail_during_iff ctx at duration counts len valid start forward inside slacks =
    let c = valid.0 in
    let ps = inorder ctx.sched_point_tree in
    let end = at +ℤ to_i64 duration in
    let (p, found, p_in, _, _) = level c at start in
    let state = scheduled_point_state-latest ctx.heap at ctx.sched_point_tree c.sorted ∙ found in
    (
      avail_during-Fits ctx at duration counts len valid start inside,
      λ fits.
          rw (inside, state)
            (during_loop-true ctx.heap end counts len (walk_from p ps)
              (λ q e. slacks q (from_walk ctx.heap p q ps c.sorted e).0)
              (λ q e before.
                checked-Covers ctx at end counts len p q valid start forward found
                  (from_walk ctx.heap p q ps c.sorted e) before fits)),
    )
