-- ===== src/Planner/Tracked/Flags.antt =====
-- No scheduled point is lost from the min-time tree and the table of the points that are out of it.
use resource_query.Prelude.{
  ℕ, ◌+◌, ◌<◌, ℤ, pos, List, [], ◌∷◌, All, true, false, not, ◌&&◌, ◌||◌, ◌==◌, ==_iff, ◌==ℤ◌,
  ==ℤ_iff, int_key, Dict, insert, contains, lookup, erase, if◌then◌else◌, ◌≡◌, ◌⊎◌, inl, inr, refl,
  sym, ap, ◌∙◌, arith, Bool-cases, some, ltb_ℤ,
}
use resource_query.Planner.Points.{Addr, Heap}
use resource_query.Planner.Points.Sorted.{elem, IsSorted, find}
use resource_query.Planner.Points.Members.{find-elem}
use resource_query.Planner.Context.{
  MinTime, PlannerContext, Libs, IsLawful, key_tally, track_points, mintime_resource_insert,
  mintime_resource_remove, restore_each, restore_track_points, update_mintime_resource_tree,
}
use resource_query.Planner.Tracked.{IsOut, IsTracked, IsFlagged, IsComplete}

-- An entry's point is scheduled, at the time of the entry.
abbrev IsEntry : Heap → List Addr → ℤ × Addr → Type 0
IsEntry heap ps e = (elem e.1 ps ≡ true) × ((heap e.1).at ≡ e.0)

out_entries :
    (heap : Heap) (ps : List Addr) (mt : MinTime) (table : Dict ℤ Addr)
    → All (IsOut heap ps mt) table
    → All (IsEntry heap ps) table
out_entries heap ps mt [] a = tt
out_entries heap ps mt (e ∷ table) ((listed, out, at), a) =
    ((listed, at), out_entries heap ps mt table a)

-- Points of one time are one point.
same_point :
    (heap : Heap) (ps : List Addr) (p q : Addr)
    → IsSorted heap ps
    → elem p ps ≡ true
    → elem q ps ≡ true
    → (heap p).at ≡ (heap q).at
    → p ≡ q
same_point heap ps p q s e f at =
    some_injective
      (sym (find-elem heap ps p s e) ∙ ap (λ t. find heap t ps) at ∙ find-elem heap ps q s f)
  where
    some_injective : {a b : Addr} → some a ≡ some b → a ≡ b
    some_injective h = cc

key_tally-contains : (k : ℤ) (table : Dict ℤ Addr) → contains k table ≡ true → 0 < key_tally k table
unfolding contains lookup
key_tally-contains k [] h = cc
key_tally-contains k ((j, p) ∷ table) h = elim (Bool-cases (j ==ℤ k)) [
  | inl same ↦ rw same (omega arith)
  | inr other ↦ rw other (omega (arith, key_tally-contains k table (rw (other, contains) at h)))
]

-- An entry that is added hides no other key, and is there itself.
key_tally-insert_own : (k : ℤ) (p : Addr) (table : Dict ℤ Addr) → 0 < key_tally k (insert k p table)
unfolding insert
key_tally-insert_own k p [] = rw ((==ℤ_iff k k).1 refl) (omega arith)
key_tally-insert_own k p ((j, q) ∷ table) =
    let self : (k ==ℤ k) ≡ true = (==ℤ_iff k k).1 refl in
    elim (Bool-cases (j ==ℤ k)) [
      | inl same ↦ rw (same, self) (omega arith)
      | inr other ↦ elim (Bool-cases (ltb_ℤ k j)) [
        | inl before ↦ rw (other, before, self) (omega arith)
        | inr after ↦ rw (other, after) (rw other (omega (arith, key_tally-insert_own k p table)))
      ]
    ]

key_tally-insert_more :
    (i k : ℤ) (p : Addr) (table : Dict ℤ Addr)
    → 0 < key_tally i table
    → 0 < key_tally i (insert k p table)
unfolding insert
key_tally-insert_more i k p [] h = absurd (none h)
  where
    none : 0 < 0 → ⊥
    none h = omega arith
key_tally-insert_more i k p ((j, q) ∷ table) h = elim (Bool-cases (j ==ℤ k)) [
  | inl same ↦ rw same (moved ((==ℤ_iff j k).0 same) h)
  | inr other ↦ elim (Bool-cases (ltb_ℤ k j)) [
    | inl before ↦ rw (other, before) (omega arith)
    | inr after ↦
        rw (other, after)
          (elim (Bool-cases (j ==ℤ i)) [
            | inl here ↦ rw here (omega arith)
            | inr there ↦
                rw there (omega (arith, key_tally-insert_more i k p table (less (rw there at h))))
          ])
  ]
]
  where
    less : {n : ℕ} → 0 < 0 + n → 0 < n
    less h = omega arith

    moved :
        j ≡ k
        → 0 < (if j ==ℤ i then 1 else 0) + key_tally i table
        → 0 < (if k ==ℤ i then 1 else 0) + key_tally i table
    moved e h = rw (← e) h

module _ (lib : Libs) where
  -- What a search takes out of the tree is in the table.
  pub track_points-IsComplete :
      (heap : Heap) (ps : List Addr) (p : Addr) (mt : MinTime)
      → IsComplete heap ps mt
      → IsComplete heap ps (track_points heap p (mintime_resource_remove lib heap p mt))
  unfolding track_points mintime_resource_remove
  track_points-IsComplete heap ps p mt complete q e = elim (Bool-cases (p == q)) [
    | inl same ↦
        let own : p ≡ q = (==_iff p q).0 same in
        inr (
          rw (← own) (elim (Bool-cases (contains (heap p).at mt.avail_time_iter)) [
            | inl there ↦ rw there (key_tally-contains (heap p).at mt.avail_time_iter there)
            | inr new ↦ rw new (key_tally-insert_own (heap p).at p mt.avail_time_iter)
          ]))
    | inr other ↦ elim (Bool-cases (contains (heap p).at mt.avail_time_iter)) [
      | inl there ↦ rw (there, other) (complete q e)
      | inr new ↦
          rw (new, other)
            (elim (complete q e) [
              | inl flag ↦ inl flag
              | inr out ↦
                  inr (key_tally-insert_more (heap q).at (heap p).at p mt.avail_time_iter out)
            ])
    ]
  ]

  restore_each-flag :
      (heap : Heap) (ps : List Addr) (len : ℕ) (list : List (ℤ × Addr)) (mt : MinTime) (q : Addr)
      → IsSorted heap ps
      → elem q ps ≡ true
      → All (IsEntry heap ps) list
      → (mt.in_mt_resource_tree q ≡ true) ⊎ (0 < key_tally (heap q).at list)
      → (restore_each lib heap len list mt).in_mt_resource_tree q ≡ true
  unfolding restore_each mintime_resource_insert
  restore_each-flag heap ps len [] mt q s e a (inl flag) = flag
  restore_each-flag heap ps len [] mt q s e a (inr h) = absurd (none h)
    where
      none : 0 < 0 → ⊥
      none h = omega arith
  restore_each-flag heap ps len ((k, p) ∷ rest) mt q s e ((listed, at), a) h =
      let mt' = mintime_resource_insert lib heap len p mt in
      restore_each-flag heap ps len rest
        (record mt' { avail_time_iter = erase k mt'.avail_time_iter }) q s e a (next h)
    where
      next :
          (mt.in_mt_resource_tree q ≡ true) ⊎ (0 < key_tally (heap q).at ((k, p) ∷ rest))
          → ((p == q || mt.in_mt_resource_tree q) ≡ true) ⊎ (0 < key_tally (heap q).at rest)
      next (inl flag) = inl (rw flag (ground arith))
      next (inr h) = elim (Bool-cases (k ==ℤ (heap q).at)) [
        | inl same ↦
            let own : p ≡ q =
              same_point heap ps p q s listed e (at ∙ (==ℤ_iff k (heap q).at).0 same) in
            inl (rw ((==_iff p q).1 own) refl)
        | inr other ↦ inr (less (rw other at h))
      ]
        where
          less : {n : ℕ} → 0 < 0 + n → 0 < n
          less h = omega arith

  -- A point that is referred to keeps its flag.
  pub update-flag :
      (heap : Heap) (len : ℕ) (list : List Addr) (mt : MinTime) (q : Addr)
      → ((heap q).ref_count ==ℤ pos 0) ≡ false
      → mt.in_mt_resource_tree q ≡ true
      → (update_mintime_resource_tree lib heap len list mt).in_mt_resource_tree q ≡ true
  unfolding update_mintime_resource_tree mintime_resource_insert mintime_resource_remove
  update-flag heap len [] mt q used flag = flag
  update-flag heap len (p ∷ rest) mt q used flag =
      let mt₁ = if mt.in_mt_resource_tree p then mintime_resource_remove lib heap p mt else mt in
      let again = not ((heap p).ref_count ==ℤ pos 0) && not (mt₁.in_mt_resource_tree p) in
      let mt₂ = if again then mintime_resource_insert lib heap len p mt₁ else mt₁ in
      let flag₂ : mt₂.in_mt_resource_tree q ≡ true = elim (Bool-cases (p == q)) [
        | inl same ↦
            rw ((==_iff p q).0 same, flag, (==_iff q q).1 refl, used)
              (rw ((==_iff q q).1 refl) refl)
        | inr other ↦ elim (Bool-cases (mt.in_mt_resource_tree p)) [
          | inl inside ↦
              rw (inside, (==_iff p p).1 refl)
                (elim (Bool-cases ((heap p).ref_count ==ℤ pos 0)) [
                  | inl zero ↦ rw (zero, other) flag
                  | inr more ↦ rw (more, other) flag
                ])
          | inr out ↦
              rw (out, out)
                (elim (Bool-cases ((heap p).ref_count ==ℤ pos 0)) [
                  | inl zero ↦ rw (zero) flag
                  | inr more ↦ rw (more, other) flag
                ])
        ]
      ] in
      update-flag heap len rest mt₂ q used flag₂

-- Every point is in the tree again once the table is restored.
pub restore_track_points-IsFlagged :
    {lib : Libs} (law : IsLawful lib) (ctx : PlannerContext) (ps : List Addr)
    → IsSorted ctx.heap ps
    → IsTracked ctx.heap ps ctx.mt
    → IsComplete ctx.heap ps ctx.mt
    → IsFlagged ps (restore_track_points lib ctx)
unfolding restore_track_points
restore_track_points-IsFlagged {lib} law ctx ps s (placed, out, once) complete q e =
    let table = ctx.mt.avail_time_iter in
    restore_each-flag lib ctx.heap ps ctx.dimension (lib.zhash_entries table) ctx.mt q s e
      (law.entries-All (IsEntry ctx.heap ps) table (out_entries ctx.heap ps ctx.mt table out))
      (elim (complete q e) [
        | inl flag ↦ inl flag
        | inr there ↦ inr (rw (law.entries-tally (ctx.heap q).at table) there)
      ])

pub IsFlagged-IsComplete :
    (heap : Heap) (ps : List Addr) (mt : MinTime) → IsFlagged ps mt → IsComplete heap ps mt
IsFlagged-IsComplete heap ps mt flagged q e = inl (flagged q e)
