-- ===== src/Planner/Tracked/Tree.antt =====
-- The min-time tree when a point is put in or taken out.
use resource_query.Prelude.{
  ℕ, ◌+◌, ◌-◌, pos, ltb_ℤ, ◌==ℤ◌, List, [], ◌∷◌, ◌++◌, Bool, true, false, not, ◌&&◌, ◌||◌, ◌==◌,
  ==_iff, if◌then◌else◌, ◌≡◌, inl, inr, refl, ap, ◌∙◌, arith, Bool-cases,
}
use resource_query.Planner.Points.{Addr, Heap, leaf, node, inorder, without}
use resource_query.Planner.Points.Sorted.{elem}
use resource_query.Planner.Mintime.{MtNode, MtTree, points, rescmp, link_mintime}
use resource_query.Planner.Mintime.Nodes.{points-append}
use resource_query.Planner.Context.{
  MinTime, Libs, IsLawful, mintime_resource_insert, mintime_resource_remove,
  update_mintime_resource_tree,
}
use resource_query.Planner.Tracked.{tally, IsPlaced, IsWhole}

tally-append : (q : Addr) (xs ys : List Addr) → tally q (xs ++ ys) ≡ tally q xs + tally q ys
tally-append q [] ys = omega arith
tally-append q (x ∷ xs) ys = omega (arith, tally-append q xs ys)

tally-node :
    (q : Addr) (l : MtTree) (n : MtNode) (r : MtTree)
    → tally q (points (node l n r))
      ≡ tally q (points l) + ((if q == n.point then 1 else 0) + tally q (points r))
tally-node q l n r =
    ap (tally q) (points-append (inorder l) (n ∷ inorder r))
    ∙ tally-append q (points l) (n.point ∷ points r)

tally-link_mintime :
    (heap : Heap) (p : Addr) (len : ℕ) (t : MtTree) (q : Addr)
    → tally q (points (link_mintime heap p len t)) ≡ (if q == p then 1 else 0) + tally q (points t)
unfolding link_mintime
tally-link_mintime heap p len leaf q = refl
tally-link_mintime heap p len (node l n r) q =
    let m = if ltb_ℤ (heap p).at n.subtree_min then (heap p).at else n.subtree_min in
    let n' : MtNode = record n { subtree_min = m } in
    elim (Bool-cases (ltb_ℤ (rescmp (heap p).remaining (heap n.point).remaining len) (pos 0))) [
      | inl lower ↦
          rw (lower, tally-node q (link_mintime heap p len l) n' r, tally-node q l n r)
            (omega (arith, tally-link_mintime heap p len l q))
      | inr higher ↦
          rw (higher, tally-node q l n' (link_mintime heap p len r), tally-node q l n r)
            (omega (arith, tally-link_mintime heap p len r q))
    ]

tally-without : (p : Addr) (ps : List Addr) → tally p (without p ps) ≡ tally p ps - 1
tally-without p [] = refl
tally-without p (q ∷ qs) = elim (Bool-cases (q == p)) [
  | inl same ↦ rw ((==_iff q p).0 same, (==_iff p p).1 refl) (omega arith)
  | inr other ↦ ground (arith, tally-without p qs)
]

tally-without_other :
    (p q : Addr) (ps : List Addr) → (p == q) ≡ false → tally q (without p ps) ≡ tally q ps
tally-without_other p q [] n = refl
tally-without_other p q (x ∷ xs) n = ground (arith, tally-without_other p q xs n)

pub IsPlaced-grow :
    (ps ps' : List Addr) (mt : MinTime)
    → ((q : Addr) → elem q ps ≡ true → elem q ps' ≡ true)
    → IsPlaced ps mt
    → IsPlaced ps' mt
IsPlaced-grow ps ps' mt grow placed = record {
  once = placed.once;
  listed = λ q h. grow q (placed.listed q h);
}

module _ {lib : Libs} (law : IsLawful lib) where
  pub insert-IsPlaced :
      (heap : Heap) (ps : List Addr) (p : Addr) (len : ℕ) (mt : MinTime)
      → elem p ps ≡ true
      → mt.in_mt_resource_tree p ≡ false
      → IsPlaced ps mt
      → IsPlaced ps (mintime_resource_insert lib heap len p mt)
  unfolding mintime_resource_insert
  insert-IsPlaced heap ps p len mt e out placed = record {
    once = λ q.
        rw (law.insert_augmented-points, tally-link_mintime heap p len mt.mt_resource_tree q)
          (added q (placed.once q));
    listed = λ q h. either q h;
  }
    where
      added :
          (q : Addr)
          → tally q (points mt.mt_resource_tree) ≡ (if mt.in_mt_resource_tree q then 1 else 0)
          → (if q == p then 1 else 0) + tally q (points mt.mt_resource_tree)
            ≡ (if p == q || mt.in_mt_resource_tree q then 1 else 0)
      added q h = elim (Bool-cases (p == q)) [
        | inl same ↦
            let h' = rw (← (==_iff p q).0 same, out) at h in
            rw (← (==_iff p q).0 same, (==_iff p p).1 refl, h') refl
        | inr other ↦ ground arith
      ]

      either : (q : Addr) → (p == q || mt.in_mt_resource_tree q) ≡ true → elem q ps ≡ true
      either q h = elim (Bool-cases (p == q)) [
        | inl same ↦ rw (← (==_iff p q).0 same) e
        | inr other ↦ placed.listed q (rw other at h)
      ]

  -- It may be gone from the points too.
  pub remove-IsPlaced :
      (heap : Heap) (ps ps' : List Addr) (p : Addr) (mt : MinTime)
      → ((q : Addr) → (p == q) ≡ false → elem q ps ≡ true → elem q ps' ≡ true)
      → IsPlaced ps mt
      → IsPlaced ps' (mintime_resource_remove lib heap p mt)
  unfolding mintime_resource_remove
  remove-IsPlaced heap ps ps' p mt rest placed = record {
    once = λ q. rw (law.erase_augmented-points) (taken q (placed.once q));
    listed = λ q h. rest q (ground arith) (placed.listed q (ground arith));
  }
    where
      taken :
          (q : Addr)
          → tally q (points mt.mt_resource_tree) ≡ (if mt.in_mt_resource_tree q then 1 else 0)
          → tally q (without p (points mt.mt_resource_tree))
            ≡ (if not (p == q) && mt.in_mt_resource_tree q then 1 else 0)
      taken q h = elim (Bool-cases (p == q)) [
        | inl same ↦
            rw (← (==_iff p q).0 same, (==_iff p p).1 refl)
              (tally-without p (points mt.mt_resource_tree)
                ∙ at_most (mt.in_mt_resource_tree p) (rw (← (==_iff p q).0 same) at h))
        | inr other ↦ rw (other, tally-without_other p q (points mt.mt_resource_tree) other) h
      ]
        where
          at_most : {n : ℕ} (b : Bool) → n ≡ (if b then 1 else 0) → n - 1 ≡ 0
          at_most b h = ground arith

  pub update-IsWhole :
      (heap : Heap) (ps : List Addr) (len : ℕ) (list : List Addr) (mt : MinTime)
      → ((q : Addr) → elem q list ≡ true → elem q ps ≡ true)
      → IsWhole ps mt
      → IsWhole ps (update_mintime_resource_tree lib heap len list mt)
  unfolding update_mintime_resource_tree mintime_resource_insert mintime_resource_remove
  update-IsWhole heap ps len [] mt w whole = whole
  update-IsWhole heap ps len (p ∷ rest) mt w whole =
      let mt₁ = if mt.in_mt_resource_tree p then mintime_resource_remove lib heap p mt else mt in
      let whole₁ : IsWhole ps mt₁ = elim (Bool-cases (mt.in_mt_resource_tree p)) [
        | inl inside ↦ rw inside (remove-IsPlaced heap ps ps p mt (λ q n e. e) whole.0, whole.1)
        | inr out ↦ rw out whole
      ] in
      let again = not ((heap p).ref_count ==ℤ pos 0) && not (mt₁.in_mt_resource_tree p) in
      let mt₂ = if again then mintime_resource_insert lib heap len p mt₁ else mt₁ in
      let whole₂ : IsWhole ps mt₂ = elim (Bool-cases again) [
        | inl back ↦ rw back (
          insert-IsPlaced heap ps p len mt₁ (w p (ground arith))
              (was_out ((heap p).ref_count ==ℤ pos 0) (mt₁.in_mt_resource_tree p) back) whole₁.0,
          whole₁.1,
        )
        | inr gone ↦ rw gone whole₁
      ] in
      update-IsWhole heap ps len rest mt₂ (λ q e. w q (rw e (ground arith))) whole₂
    where
      was_out : (a b : Bool) → (not a && not b) ≡ true → b ≡ false
      was_out a b h = ground arith
