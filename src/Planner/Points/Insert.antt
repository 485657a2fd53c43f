-- ===== src/Planner/Points/Insert.antt =====
-- Where the descent of `scheduled_point_insert` sets a new point.
use resource_query.Prelude.{
  ℤ, ltb_ℤ, ◌<ℤ◌, -ℤ_negative, -ℤ_positive, List, [], ◌∷◌, ◌++◌, All, true, Bool-cases, inl, inr,
  none, some, ◌≡◌, refl, sym, arith,
}
use resource_query.Planner.Points.{Addr, Heap, Tree, leaf, node, inorder, link_point}
use resource_query.Planner.Points.Sorted.{
  Before, After, IsSorted, find, insort, IsSorted-split, find_left, find_right,
}

module _ (heap : Heap) where
  insort_left :
      (p : Addr) (xs : List Addr) (q : Addr) (ys : List Addr)
      → ltb_ℤ (heap p).at (heap q).at ≡ true
      → insort heap p (xs ++ q ∷ ys) ≡ insort heap p xs ++ q ∷ ys
  insort_left p [] q ys h = rw h
  insort_left p (x ∷ xs) q ys h = ground (arith, insort_left p xs q ys h)

  insort_right :
      (p : Addr) (xs : List Addr) (q : Addr) (ys : List Addr)
      → (heap q).at <ℤ (heap p).at
      → Before heap (heap q).at xs
      → insort heap p (xs ++ q ∷ ys) ≡ xs ++ q ∷ insort heap p ys
  insort_right p [] q ys h b = ground arith
  insort_right p (x ∷ xs) q ys h b = ground (arith, insort_right p xs q ys h b.1)

  -- At a time where no point is, the descent ends at a link, and the new point stands in order.
  pub link_point-insort :
      (p : Addr) (t : Tree Addr)
      → IsSorted heap (inorder t)
      → find heap (heap p).at (inorder t) ≡ none
      → (t' : Tree Addr) × (link_point heap p t ≡ some t')
        × (inorder t' ≡ insort heap p (inorder t))
  unfolding link_point
  link_point-insort p leaf s f = (node leaf p leaf, refl, refl)
  link_point-insort p (node l q r) s f =
      let (sl, below, above, sr) = IsSorted-split heap (inorder l) q (inorder r) s in
      rw (-ℤ_negative (heap p).at (heap q).at, -ℤ_positive (heap p).at (heap q).at)
        (elim (Bool-cases (ltb_ℤ (heap p).at (heap q).at)) [
          | inl left ↦
              let f' =
                rw (find_left heap (heap p).at (inorder l) q (inorder r) (ground arith) above) at
                  f in
              let (l', run, order) = link_point-insort p l sl f' in
              rw (left, run)
                (node l' q r, refl, rw order (sym (insort_left p (inorder l) q (inorder r) left)))
          | inr right ↦
              let f' =
                rw (find_right heap (heap p).at (inorder l) q (inorder r) (ground arith) below) at
                  f in
              let more : ltb_ℤ (heap q).at (heap p).at ≡ true = ground arith in
              let f'' : find heap (heap p).at (inorder r) ≡ none = ground arith in
              let (r', run, order) = link_point-insort p r sr f'' in
              rw (right, more, run)
                (
                  node l q r',
                  refl,
                  rw order (sym (insort_right p (inorder l) q (inorder r) (ground arith) below)),
                )
        ])

  pub All-insort {κ} :
      (P : Addr → Type κ) (p : Addr) (ps : List Addr) → P p → All P ps → All P (insort heap p ps)
  All-insort P p [] h a = (h, tt)
  All-insort P p (q ∷ qs) h a = elim (Bool-cases (ltb_ℤ (heap p).at (heap q).at)) [
    | inl before ↦ rw before (h, a)
    | inr behind ↦ rw behind (a.0, All-insort P p qs h a.1)
  ]

  pub insort-IsSorted :
      (p : Addr) (ps : List Addr)
      → IsSorted heap ps
      → find heap (heap p).at ps ≡ none
      → IsSorted heap (insort heap p ps)
  insort-IsSorted p [] s f = (tt, tt)
  insort-IsSorted p (q ∷ qs) s f = elim (Bool-cases (ltb_ℤ (heap p).at (heap q).at)) [
    | inl before ↦ rw before ((ground arith, later (heap p).at qs (ground arith) s.0), s)
    | inr behind ↦ rw behind (
      All-insort (λ x. (heap q).at <ℤ (heap x).at) p qs (ground arith) s.0,
      insort-IsSorted p qs s.1 (ground arith),
    )
  ]
    where
      later :
          (u : ℤ) (xs : List Addr) → u <ℤ (heap q).at → After heap (heap q).at xs → After heap u xs
      later u [] h a = tt
      later u (x ∷ xs) h a = (omega arith, later u xs h a.1)
