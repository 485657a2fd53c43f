-- ===== src/Planner/Spans/Overlap.antt =====
-- Which points `fetch_overlap_points` gives, and what an update of them changes.
use resource_query.Prelude.{
  ℕ, ℤ, ◌+ℤ◌, to_i64, ◌||◌, Option, none, some, ltb_ℤ, ◌≤ℤ◌, ◌<ℤ◌, List, [], ◌∷◌, All, Bool, true,
  false, not, ◌&&◌, ◌==◌, ==_iff, if◌then◌else◌, ◌≡◌, inl, inr, refl, sym, ap, ◌∙◌, arith,
  Bool-cases,
}
use resource_query.Planner.Points.{
  Addr, ScheduledPoint, Heap, write, inorder, walk_from, rb_walk, scheduled_point_state,
}
use resource_query.Planner.Points.Sorted.{elem, IsSorted}
use resource_query.Planner.Points.Members.{All-elem}
use resource_query.Planner.Context.{
  PlannerContext, overlap_loop, fetch_overlap_points, update_points,
}

-- The point's time is in the window.
abbrev pub inside : Heap → ℤ → ℤ → Addr → Bool
inside heap at end q = not (ltb_ℤ (heap q).at at) && ltb_ℤ (heap q).at end

abbrev IsDistinct : List Addr → Type 0
IsDistinct [] = Unit
IsDistinct (p ∷ ps) = (elem p ps ≡ false) × IsDistinct ps

module _ (heap : Heap) where
  later_points :
      (p q : Addr) (ps : List Addr)
      → All (λ x. (heap p).at <ℤ (heap x).at) ps
      → elem q ps ≡ true
      → (heap p).at <ℤ (heap q).at
  later_points p q ps a e = All-elem (λ x. (heap p).at <ℤ (heap x).at) ps q a e

  beyond_end :
      (at end : ℤ) (p q : Addr) (ps : List Addr)
      → IsSorted heap (p ∷ ps)
      → ltb_ℤ (heap p).at end ≡ false
      → (elem q (p ∷ ps) && inside heap at end q) ≡ false
  beyond_end at end p q ps s h = elim (Bool-cases (q == p)) [
    | inl same ↦ rw ((==_iff q p).0 same) (ground arith)
    | inr other ↦ elim (Bool-cases (elem q ps)) [
      | inl e ↦ let l = later_points p q ps s.0 e in ground arith
      | inr e ↦ rw (other, e) refl
    ]
  ]

  pub elem-overlap_loop :
      (at end : ℤ) (q : Addr) (ps : List Addr)
      → IsSorted heap ps
      → elem q (overlap_loop heap at end ps) ≡ (elem q ps && inside heap at end q)
  unfolding overlap_loop
  elem-overlap_loop at end q [] s = refl
  elem-overlap_loop at end q (p ∷ ps) s = elim (Bool-cases (ltb_ℤ (heap p).at end)) [
    | inr beyond ↦ rw beyond (sym (beyond_end at end p q ps s beyond))
    | inl before ↦ rw before (elim (Bool-cases (q == p)) [
      | inl same ↦
          let e = elem-overlap_loop at end q ps s.1 in
          let eq = (==_iff q p).0 same in
          let low = ap (λ x. ltb_ℤ (heap x).at at) eq in
          let high = ap (λ x. ltb_ℤ (heap x).at end) eq ∙ before in ground (arith, e, low, high)
      | inr other ↦ ground (arith, elem-overlap_loop at end q ps s.1)
    ])
  ]

  walk_from-overlap :
      (at end : ℤ) (p : Addr) (ps : List Addr)
      → IsSorted heap ps
      → elem p ps ≡ true
      → (heap p).at ≤ℤ at
      → at ≤ℤ end
      → overlap_loop heap at end (walk_from p ps) ≡ overlap_loop heap at end ps
  unfolding overlap_loop
  walk_from-overlap at end p [] s e le w = refl
  walk_from-overlap at end p (q ∷ qs) s e le w = elim (Bool-cases (q == p)) [
    | inl same ↦ rw same refl
    | inr other ↦
        let e' : elem p qs ≡ true = ground arith in
        let l = later_points q p qs s.0 e' in
        rw other (ground (arith, walk_from-overlap at end p qs s.1 e' le w))
  ]

  overlap-IsDistinct :
      (at end : ℤ) (ps : List Addr) → IsSorted heap ps → IsDistinct (overlap_loop heap at end ps)
  unfolding overlap_loop
  overlap-IsDistinct at end [] s = tt
  overlap-IsDistinct at end (p ∷ ps) s = elim (Bool-cases (ltb_ℤ (heap p).at end)) [
    | inr beyond ↦ rw beyond tt
    | inl before ↦ rw before (elim (Bool-cases (ltb_ℤ (heap p).at at)) [
      | inl low ↦ rw low (overlap-IsDistinct at end ps s.1)
      | inr high ↦ rw high (
        elem-overlap_loop at end p ps s.1 ∙ (rw (absent p ps s.0) refl),
        overlap-IsDistinct at end ps s.1,
      )
    ])
  ]
    where
      absent :
          (p : Addr) (ps : List Addr) → All (λ x. (heap p).at <ℤ (heap x).at) ps → elem p ps ≡ false
      absent p [] a = refl
      absent p (q ∷ qs) a = ground (arith, absent p qs a.1, ==_iff p q)

other' : (p q : ℕ) → (p == q) ≡ false → (q == p) ≡ false
other' p q h = ground arith

-- Each point of the list is updated once, and the others are left.
update_points-elem :
    (f : ScheduledPoint → ScheduledPoint) (list : List Addr) (heap : Heap) (q : Addr)
    → IsDistinct list
    → update_points f list heap q ≡ (if elem q list then f (heap q) else heap q)
unfolding update_points
update_points-elem f [] heap q d = refl
update_points-elem f (p ∷ ps) heap q d =
    rw (update_points-elem f ps (write p (f (heap p)) heap) q d.1) (elim (Bool-cases (p == q)) [
      | inl same ↦ rw (← (==_iff p q).0 same) (rw (d.0, (==_iff p p).1 refl) refl)
      | inr other ↦ rw (other, other' p q other) refl
    ])

-- The update of the points that `fetch_overlap_points` finds from one of them on.
pub updated :
    (f : ScheduledPoint → ScheduledPoint) (heap : Heap) (at end : ℤ) (p : Addr) (ps : List Addr)
    → IsSorted heap ps
    → elem p ps ≡ true
    → (heap p).at ≤ℤ at
    → at ≤ℤ end
    → (q : Addr) → elem q ps ≡ true
    → update_points f (overlap_loop heap at end (walk_from p ps)) heap q
      ≡ (if inside heap at end q then f (heap q) else heap q)
updated f heap at end p ps s e le w q eq =
    rw
      (
        walk_from-overlap heap at end p ps s e le w,
        update_points-elem f (overlap_loop heap at end ps) heap q
            (overlap-IsDistinct heap at end ps s),
        elem-overlap_loop heap at end q ps s,
        eq,
      )
      refl

-- What the list has is a scheduled point.
elem-of_overlap :
    (heap : Heap) (at end : ℤ) (q : Addr) (ps : List Addr)
    → elem q (overlap_loop heap at end ps) ≡ true
    → elem q ps ≡ true
unfolding overlap_loop
elem-of_overlap heap at end q [] h = h
elem-of_overlap heap at end q (p ∷ ps) h = elim (Bool-cases (ltb_ℤ (heap p).at end)) [
  | inr beyond ↦ let bad = rw beyond at h in cc
  | inl before ↦
      let h' = rw before at h in
      elim (Bool-cases (ltb_ℤ (heap p).at at)) [
        | inl low ↦ rw (elem-of_overlap heap at end q ps (rw low at h')) (ground arith)
        | inr high ↦ either (elem-of_overlap heap at end q ps) (rw high at h')
      ]
]
  where
    either :
        (elem q (overlap_loop heap at end ps) ≡ true → elem q ps ≡ true)
        → (q == p || elem q (overlap_loop heap at end ps)) ≡ true
        → (q == p || elem q ps) ≡ true
    either ih h = elim (Bool-cases (q == p)) [
      | inl same ↦ rw same refl
      | inr other ↦ rw other (ih (rw other at h))
    ]

elem-of_walk : (p q : Addr) (ps : List Addr) → elem q (walk_from p ps) ≡ true → elem q ps ≡ true
elem-of_walk p q [] h = h
elem-of_walk p q (x ∷ xs) h = elim (Bool-cases (x == p)) [
  | inl same ↦ rw same at h
  | inr other ↦ rw (elem-of_walk p q xs (rw other at h)) (ground arith)
]

pub elem-of_fetched :
    (ctx : PlannerContext) (at : ℤ) (duration : ℕ) (q : Addr)
    → elem q (fetch_overlap_points ctx at duration) ≡ true
    → elem q (inorder ctx.sched_point_tree) ≡ true
unfolding fetch_overlap_points
elem-of_fetched ctx at duration q h =
    walked (scheduled_point_state ctx.heap at ctx.sched_point_tree)
      (elem-of_overlap ctx.heap at (at +ℤ to_i64 duration) q _ h)
  where
    walked :
        (state : Option Addr)
        → elem q (rb_walk state ctx.sched_point_tree) ≡ true
        → elem q (inorder ctx.sched_point_tree) ≡ true
    walked none h = cc
    walked (some p) h = elem-of_walk p q (inorder ctx.sched_point_tree) h
