-- ===== src/Planner/Tracked/Out.antt =====
-- A candidate that the search for times takes out of the min-time tree.
use resource_query.Prelude.{
  ◌+◌, ◌≤◌, ℤ, ltb_ℤ, List, [], ◌∷◌, All, true, false, ◌==ℤ◌, ==ℤ_iff, int_key, Dict, insert,
  contains, lookup, if◌then◌else◌, ◌≡◌, inl, inr, refl, arith, Bool-cases,
}
use resource_query.Planner.Points.{Addr, Heap}
use resource_query.Planner.Points.Sorted.{elem}
use resource_query.Planner.Context.{
  MinTime, Libs, IsLawful, key_tally, track_points, mintime_resource_remove,
}
use resource_query.Planner.Tracked.{IsOut, IsTracked}
use resource_query.Planner.Tracked.Tree.{remove-IsPlaced}

All-insert :
    (P : ℤ × Addr → Type 0) (k : ℤ) (p : Addr) (table : Dict ℤ Addr)
    → P (k, p)
    → All P table
    → All P (insert k p table)
unfolding insert
All-insert P k p [] new a = (new, tt)
All-insert P k p ((j, q) ∷ table) new a = elim (Bool-cases (j ==ℤ k)) [
  | inl same ↦ rw same (new, a.1)
  | inr other ↦ elim (Bool-cases (ltb_ℤ k j)) [
    | inl before ↦ rw (other, before) (new, (a.0, a.1))
    | inr after ↦ rw (other, after) (a.0, All-insert P k p table new a.1)
  ]
]

not_first :
    (j k : ℤ) (q : Addr) (table : Dict ℤ Addr)
    → contains k ((j, q) ∷ table) ≡ false
    → ((j ==ℤ k) ≡ false) × (contains k table ≡ false)
unfolding contains lookup
not_first j k q table new = elim (Bool-cases (j ==ℤ k)) [
  | inl same ↦ let bad = rw (same, contains) at new in cc
  | inr other ↦ (other, rw (other, contains) at new)
]

key_tally-insert :
    (i k : ℤ) (p : Addr) (table : Dict ℤ Addr)
    → contains k table ≡ false
    → key_tally i (insert k p table) ≡ (if k ==ℤ i then 1 else 0) + key_tally i table
unfolding insert contains lookup
key_tally-insert i k p [] new = refl
key_tally-insert i k p ((j, q) ∷ table) new =
    let (other, new') = not_first j k q table new in
    elim (Bool-cases (ltb_ℤ k j)) [
      | inl before ↦ rw (other, before) refl
      | inr after ↦ rw (other, after) (omega (arith, key_tally-insert i k p table new'))
    ]

key_tally-new : (k : ℤ) (table : Dict ℤ Addr) → contains k table ≡ false → key_tally k table ≡ 0
unfolding contains lookup
key_tally-new k [] new = refl
key_tally-new k ((j, q) ∷ table) new =
    let (other, new') = not_first j k q table new in rw (other, key_tally-new k table new') refl

module _ {lib : Libs} (law : IsLawful lib) (heap : Heap) (ps : List Addr) (p : Addr) where
  IsOut-remove :
      (mt : MinTime) (table : Dict ℤ Addr)
      → All (IsOut heap ps mt) table
      → All (IsOut heap ps (mintime_resource_remove lib heap p mt)) table
  unfolding mintime_resource_remove
  IsOut-remove mt [] a = tt
  IsOut-remove mt (e ∷ table) ((listed, out, at), a) =
      ((listed, ground arith, at), IsOut-remove mt table a)

  pub track_points-IsTracked :
      (mt : MinTime)
      → elem p ps ≡ true
      → IsTracked heap ps mt
      → IsTracked heap ps (track_points heap p (mintime_resource_remove lib heap p mt))
  unfolding track_points mintime_resource_remove
  track_points-IsTracked mt e (placed, out, once) =
      let placed' = remove-IsPlaced law heap ps ps p mt (λ q n e. e) placed in
      let mt' = mintime_resource_remove lib heap p mt in
      let out' = IsOut-remove mt mt.avail_time_iter out in
      let now_out : mt'.in_mt_resource_tree p ≡ false = ground arith in
      elim (Bool-cases (contains (heap p).at mt.avail_time_iter)) [
        | inl there ↦ rw there (placed', out', once)
        | inr new ↦ rw new (
          record { once = placed'.once; listed = placed'.listed },
          All-insert (IsOut heap ps mt') (heap p).at p mt.avail_time_iter (e, now_out, refl) out',
          λ k.
              rw (key_tally-insert k (heap p).at p mt.avail_time_iter new) (at_most k (once k) new),
        )
      ]
    where
      at_most :
          (k : ℤ)
          → key_tally k mt.avail_time_iter ≤ 1
          → contains (heap p).at mt.avail_time_iter ≡ false
          → (if (heap p).at ==ℤ k then 1 else 0) + key_tally k mt.avail_time_iter ≤ 1
      at_most k h new = elim (Bool-cases ((heap p).at ==ℤ k)) [
        | inl same ↦
            let e : (heap p).at ≡ k = (==ℤ_iff (heap p).at k).0 same in
            rw (same, key_tally-new k mt.avail_time_iter (rw e at new)) (omega arith)
        | inr other ↦ rw other (omega arith)
      ]
