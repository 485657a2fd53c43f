-- ===== src/Planner/Fits.antt =====
-- What `avail_during` says of a window.
use resource_query.Prelude.{
  ℕ, ◌<◌, ℤ, pos, ◌+ℤ◌, +ℤ_parts, ltb_ℤ, ◌≤ℤ◌, ◌<ℤ◌, to_i64, List, [], ◌∷◌, All, true, false, ◌==◌,
  ==_iff, none, some, ◌≡◌, ◌⊎◌, inl, inr, ap, ◌∙◌, arith, Bool-cases,
}
use resource_query.Planner.Points.{Addr, ResourceArray, Heap, walk_from, inorder}
use resource_query.Planner.Points.Sorted.{elem, IsSorted, latest, scheduled_point_state-latest}
use resource_query.Planner.Points.Members.{All-elem, latest_facts}
use resource_query.Planner.Mintime.{rescmp}
use resource_query.Planner.Mintime.Rescmp.{Covers, rescmp-Covers}
use resource_query.Planner.Context.{PlannerContext}
use resource_query.Planner.Windows.{past_end, during_loop, avail_during}
use resource_query.Planner.Spans.Invariant.{booked, full, IsValid}
use resource_query.Planner.Spans.Points.{level}

not_less : (a b c : ℤ) → b ≡ c → c <ℤ a → a ≤ℤ b → ⊥
not_less a b c e h l = not_less_self a c h (rw e at l)
  where
    not_less_self : (a c : ℤ) → c <ℤ a → a ≤ℤ c → ⊥
    not_less_self a c h l = omega arith

-- At every time of the window the counts and what is booked are together within the totals.
abbrev pub Fits : PlannerContext → ℤ → ℤ → ResourceArray → ℕ → Type 0
Fits ctx at end counts len =
    (t : ℤ)
    → at ≤ℤ t
    → t <ℤ end
    → (i : ℕ) → i < len
    → counts i +ℤ booked ctx.span_lookup t i ≤ℤ full ctx i

pub covered_sum : (c r b f : ℤ) → c ≤ℤ r → r +ℤ b ≡ f → c +ℤ b ≤ℤ f
covered_sum c r b f h e = rw (← e) (omega (arith, +ℤ_parts c b, +ℤ_parts r b))

module _ (heap : Heap) where
  below :
      (p q : Addr) (ps : List Addr)
      → All (λ x. (heap p).at <ℤ (heap x).at) ps
      → elem q ps ≡ true
      → (heap p).at <ℤ (heap q).at
  below p q ps a e = All-elem (λ x. (heap p).at <ℤ (heap x).at) ps q a e

  -- Every point before the end of the loop covers the counts.
  during_loop-Covers :
      (end : ℤ) (counts : ResourceArray) (len : ℕ) (ps : List Addr) (q : Addr)
      → IsSorted heap ps
      → during_loop heap end counts len ps ≡ true
      → elem q ps ≡ true
      → (heap q).at <ℤ end
      → Covers len counts (heap q).remaining
  unfolding during_loop
  during_loop-Covers end counts len [] q s h e l = cc
  during_loop-Covers end counts len (p ∷ ps) q s h e l = elim (Bool-cases (ltb_ℤ (heap p).at end)) [
    | inr beyond ↦ absurd (too_late (Bool-cases (q == p)) beyond)
    | inl before ↦
        let h' = rw before at h in
        elim (Bool-cases (ltb_ℤ (pos 0) (rescmp counts (heap p).remaining len))) [
          | inl short ↦ let bad = rw short at h' in cc
          | inr enough ↦ elim (Bool-cases (q == p)) [
            | inl same ↦
                rw ((==_iff q p).0 same) (rescmp-Covers counts (heap p).remaining len enough)
            | inr other ↦
                during_loop-Covers end counts len ps q s.1 (rw enough at h') (rw other at e) l
          ]
        ]
  ]
    where
      too_late : ((q == p) ≡ true) ⊎ ((q == p) ≡ false) → ltb_ℤ (heap p).at end ≡ false → ⊥
      too_late (inl same) beyond =
          let a = ap (λ x. ltb_ℤ (heap x).at end) ((==_iff q p).0 same) ∙ beyond in not_both l a
        where
          not_both : (heap q).at <ℤ end → ltb_ℤ (heap q).at end ≡ false → ⊥
          not_both l a = ground arith
      too_late (inr other) beyond = let b = below p q ps s.0 (rw other at e) in ground arith

  walk_from-IsSorted :
      (p : Addr) (ps : List Addr) → IsSorted heap ps → IsSorted heap (walk_from p ps)
  walk_from-IsSorted p [] s = tt
  walk_from-IsSorted p (q ∷ qs) s = elim (Bool-cases (q == p)) [
    | inl same ↦ rw same s
    | inr other ↦ rw other (walk_from-IsSorted p qs s.1)
  ]

  elem-walk_from :
      (p q : Addr) (ps : List Addr)
      → IsSorted heap ps
      → elem p ps ≡ true
      → elem q ps ≡ true
      → (heap p).at ≤ℤ (heap q).at
      → elem q (walk_from p ps) ≡ true
  elem-walk_from p q [] s e f l = cc
  elem-walk_from p q (x ∷ xs) s e f l = elim (Bool-cases (x == p)) [
    | inl same ↦ rw same f
    | inr other ↦
        let e' : elem p xs ≡ true = ground arith in
        let b = below x p xs s.0 e' in
        let f' : elem q xs ≡ true = elim (Bool-cases (q == x)) [
          | inl tie ↦ absurd (
              not_less (heap p).at (heap q).at (heap x).at
                (ap (λ y. (heap y).at) ((==_iff q x).0 tie)) b l)
          | inr apart ↦ rw apart at f
        ] in
        rw other (elem-walk_from p q xs s.1 e' f' l)
  ]

  -- The loop from the latest point at `at` on checks the latest point of every later time.
  pub later_latest :
      (at end t : ℤ) (counts : ResourceArray) (len : ℕ) (ps : List Addr) (p q : Addr)
      → IsSorted heap ps
      → latest heap at ps none ≡ some p
      → latest heap t ps none ≡ some q
      → at ≤ℤ t
      → t <ℤ end
      → during_loop heap end counts len (walk_from p ps) ≡ true
      → Covers len counts (heap q).remaining
  later_latest at end t counts len ps p q s found found' from until h =
      elim (latest_facts heap at ps none p s found) [
        | inr (bad, _) ↦ absurd (cc)
        | inl (e, le, _) ↦ elim (latest_facts heap t ps none q s found') [
          | inr (bad, _) ↦ absurd (cc)
          | inl (e', le', all) ↦
              let order =
                order_of
                  (All-elem (λ x. ((heap x).at ≤ℤ (heap q).at) ⊎ (t <ℤ (heap x).at)) ps p all e)
                  le in
              during_loop-Covers end counts len (walk_from p ps) q (walk_from-IsSorted p ps s) h
                (elem-walk_from p q ps s e e' order) (omega arith)
        ]
      ]
    where
      order_of :
          ((heap p).at ≤ℤ (heap q).at) ⊎ (t <ℤ (heap p).at)
          → (heap p).at ≤ℤ at
          → (heap p).at ≤ℤ (heap q).at
      order_of (inl h) le = h
      order_of (inr h) le = absurd (omega arith)

-- On a valid planner, for a window that does not end past the plan, `avail_during` answers true only
-- if the counts fit at every time of the window.
pub avail_during-Fits :
    (ctx : PlannerContext) (at : ℤ) (duration : ℕ) (counts : ResourceArray) (len : ℕ)
    → IsValid ctx
    → ctx.plan_start ≤ℤ at
    → past_end ctx at duration ≡ false
    → (avail_during ctx at duration counts len).0 ≡ true
    → Fits ctx at (at +ℤ to_i64 duration) counts len
unfolding avail_during
avail_during-Fits ctx at duration counts len (c, _, _, _, _, _) start inside h t from until i
      index =
    let ps = inorder ctx.sched_point_tree in
    let (p, found, _, _, _) = level c at start in
    let (q, found', _, _, left) = level c t (omega arith) in
    let state = scheduled_point_state-latest ctx.heap at ctx.sched_point_tree c.sorted ∙ found in
    let loop = rw (inside, state) at h in
    let covers =
      later_latest ctx.heap at (at +ℤ to_i64 duration) t counts len ps p q c.sorted found found'
        from until loop in
    covered_sum (counts i) ((ctx.heap q).remaining i) (booked ctx.span_lookup t i) (full ctx i)
      (covers i index) (left i)
