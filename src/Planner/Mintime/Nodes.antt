-- ===== src/Planner/Mintime/Nodes.antt =====
-- The searches of the min-time tree give points of the tree.
use resource_query.Prelude.{
  ℕ, suc, ◌-◌, ◌^◌, ℤ, pos, ltb_ℤ, ◌==ℤ◌, List, [], ◌∷◌, ◌++◌, map, length, true, false, ◌||◌, ◌==◌,
  some, ◌≡◌, inl, inr, refl, ap, ◌∙◌, arith, Bool-cases,
}
use resource_query.Planner.Points.{Addr, ResourceArray, Heap, leaf, node, inorder, without}
use resource_query.Planner.Points.Sorted.{elem}
use resource_query.Planner.Mintime.{
  MtNode, MtTree, points, leads_left, rescmp, right_branch_mintime, point_loop, find_mintime_point,
  anchor_loop, find_mintime_anchor, mintime_resource_mintime,
}

pub elem-append : (q : Addr) (xs ys : List Addr) → elem q (xs ++ ys) ≡ (elem q xs || elem q ys)
elem-append q [] ys = refl
elem-append q (x ∷ xs) ys = ground (arith, elem-append q xs ys)

pub points-append :
    (xs ys : List MtNode)
    → map (λ n. n.point) (xs ++ ys) ≡ map (λ n. n.point) xs ++ map (λ n. n.point) ys
points-append [] ys = refl
points-append (x ∷ xs) ys = ap (λ l. x.point ∷ l) (points-append xs ys)

pub elem-node :
    (q : Addr) (l : MtTree) (n : MtNode) (r : MtTree)
    → elem q (points (node l n r)) ≡ (elem q (points l) || (q == n.point || elem q (points r)))
elem-node q l n r =
    ap (elem q) (points-append (inorder l) (n ∷ inorder r))
    ∙ elem-append q (points l) (n.point ∷ points r)

-- Taking a point out makes the list shorter.
pub length-without :
    (p : Addr) (ps : List Addr) → elem p ps ≡ true → suc (length (without p ps)) ≡ length ps
length-without p [] e = cc
length-without p (q ∷ qs) e = elim (Bool-cases (q == p)) [
  | inl same ↦ rw same refl
  | inr other ↦ rw other (ap suc (length-without p qs (ground arith)))
]

module _ (heap : Heap) (all : List Addr) where
  abbrev Within : MtTree → Type 0
  Within t = (q : Addr) → elem q (points t) ≡ true → elem q all ≡ true

  Within-left : (l : MtTree) (n : MtNode) (r : MtTree) → Within (node l n r) → Within l
  Within-left l n r w q e = w q (elem-node q l n r ∙ (rw e refl))

  Within-right : (l : MtTree) (n : MtNode) (r : MtTree) → Within (node l n r) → Within r
  Within-right l n r w q e = w q (elem-node q l n r ∙ (rw e (ground arith)))

  Within-root :
      (l : MtTree) (n : MtNode) (r : MtTree) → Within (node l n r) → elem n.point all ≡ true
  Within-root l n r w = w n.point (elem-node n.point l n r ∙ ground arith)

  anchor_loop-Within :
      (ra : ResourceArray) (len : ℕ) (t : MtTree) (min_time : ℤ) (anchor : MtTree)
      → Within t
      → Within anchor
      → Within (anchor_loop heap ra len t min_time anchor).1
  unfolding anchor_loop
  anchor_loop-Within ra len leaf min_time anchor w a = a
  anchor_loop-Within ra len (node l n r) min_time anchor w a =
      elim (Bool-cases (ltb_ℤ (pos 0) (rescmp ra (heap n.point).remaining len))) [
        | inl short ↦
            rw short (anchor_loop-Within ra len r min_time anchor (Within-right l n r w) a)
        | inr enough ↦
            rw enough (elim (Bool-cases (ltb_ℤ (right_branch_mintime heap n r) min_time)) [
              | inl better ↦ rw better (
                  anchor_loop-Within ra len l (right_branch_mintime heap n r) (node l n r)
                    (Within-left l n r w) w)
              | inr worse ↦
                  rw worse (anchor_loop-Within ra len l min_time anchor (Within-left l n r w) a)
            ])
      ]

  point_loop-Within :
      (min_time : ℤ) (t : MtTree) (p : Addr)
      → Within t
      → (point_loop heap min_time t).0 ≡ some p
      → elem p all ≡ true
  unfolding point_loop
  point_loop-Within min_time leaf p w h = cc
  point_loop-Within min_time (node l n r) p w h =
      elim (Bool-cases ((heap n.point).at ==ℤ min_time)) [
        | inl here ↦
            let e : n.point ≡ p = some_injective (rw here at h) in rw (← e) (Within-root l n r w)
        | inr other ↦ elim (Bool-cases (leads_left min_time l)) [
          | inl to_left ↦
              point_loop-Within min_time l p (Within-left l n r w) (rw (other, to_left) at h)
          | inr to_right ↦
              point_loop-Within min_time r p (Within-right l n r w) (rw (other, to_right) at h)
        ]
      ]
    where
      some_injective : {a b : Addr} → some a ≡ some b → a ≡ b
      some_injective e = cc

  find_mintime_point-Within :
      (anchor : MtTree) (min_time : ℤ) (p : Addr)
      → Within anchor
      → (find_mintime_point heap anchor min_time).0 ≡ some p
      → elem p all ≡ true
  unfolding find_mintime_point
  find_mintime_point-Within leaf min_time p w h = cc
  find_mintime_point-Within (node l n r) min_time p w h =
      elim (Bool-cases ((heap n.point).at ==ℤ min_time)) [
        | inl here ↦
            let e : n.point ≡ p = some_injective (rw here at h) in rw (← e) (Within-root l n r w)
        | inr other ↦ point_loop-Within min_time r p (Within-right l n r w) (rw other at h)
      ]
    where
      some_injective : {a b : Addr} → some a ≡ some b → a ≡ b
      some_injective e = cc

  -- What the search for the least time finds is in the tree.
  pub mintime-Within :
      (ra : ResourceArray) (len : ℕ) (t : MtTree) (p : Addr)
      → Within t
      → (mintime_resource_mintime heap ra len t).0 ≡ some p
      → elem p all ≡ true
  unfolding mintime_resource_mintime find_mintime_anchor
  mintime-Within ra len t p w h =
      let a = anchor_loop heap ra len t (pos (2 ^ 63 - 1)) leaf in
      find_mintime_point-Within a.1 a.0 p
        (anchor_loop-Within ra len t (pos (2 ^ 63 - 1)) leaf w (λ q e. absurd (nothing e))) h
    where
      nothing : false ≡ true → ⊥
      nothing e = cc
