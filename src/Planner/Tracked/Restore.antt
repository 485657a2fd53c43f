-- ===== src/Planner/Tracked/Restore.antt =====
-- `restore_track_points` puts every point that is out of the min-time tree in again.
use resource_query.Prelude.{
  ℕ, ◌+◌, ◌≤◌, ◌<◌, ℤ, List, [], ◌∷◌, All, Bool, true, false, ◌==◌, ==_iff, ◌==ℤ◌, ==ℤ_iff, int_key,
  Dict, erase, if◌then◌else◌, ◌≡◌, inl, inr, refl, sym, ap, ◌∙◌, arith, Bool-cases,
}
use resource_query.Planner.Points.{Addr, Heap}
use resource_query.Planner.Context.{
  MinTime, PlannerContext, Libs, IsLawful, key_tally, mintime_resource_insert, restore_each,
  restore_track_points,
}
use resource_query.Planner.Tracked.{IsPlaced, IsOut, IsTracked, IsWhole}
use resource_query.Planner.Tracked.Tree.{insert-IsPlaced}

-- Each entry's key is in the other table.
abbrev IsWithin : Dict ℤ Addr → Dict ℤ Addr → Type 0
IsWithin all = All (λ e. 0 < key_tally e.0 all)

IsWithin-cons :
    (j : ℤ) (p : Addr) (all table : Dict ℤ Addr)
    → IsWithin all table
    → IsWithin ((j, p) ∷ all) table
IsWithin-cons j p all [] w = tt
IsWithin-cons j p all (e ∷ table) w = (omega (arith, w.0), IsWithin-cons j p all table w.1)

IsWithin-self : (table : Dict ℤ Addr) → IsWithin table table
IsWithin-self [] = tt
IsWithin-self ((j, p) ∷ table) =
    (rw ((==ℤ_iff j j).1 refl) (omega arith), IsWithin-cons j p table table (IsWithin-self table))

IsWithin-same :
    (all all' table : Dict ℤ Addr)
    → ((k : ℤ) → key_tally k all' ≡ key_tally k all)
    → IsWithin all table
    → IsWithin all' table
IsWithin-same all all' [] same w = tt
IsWithin-same all all' (e ∷ table) same w =
    (rw (same e.0) w.0, IsWithin-same all all' table same w.1)

within_none : (table : Dict ℤ Addr) → IsWithin [] table → table ≡ []
within_none [] w = refl
within_none (e ∷ table) w = absurd (none w.0)
  where
    none : 0 < 0 → ⊥
    none h = omega arith

erase-IsWithin :
    (k : ℤ) (p : Addr) (rest table : Dict ℤ Addr)
    → IsWithin ((k, p) ∷ rest) table
    → IsWithin rest (erase k table)
unfolding erase
erase-IsWithin k p rest [] w = tt
erase-IsWithin k p rest ((j, q) ∷ table) w = elim (Bool-cases (j ==ℤ k)) [
  | inl same ↦ rw same (erase-IsWithin k p rest table w.1)
  | inr other ↦ rw other (
    other_key (if k ==ℤ j then 1 else 0) (key_tally j rest) (rw (flip j k other) refl) w.0,
    erase-IsWithin k p rest table w.1,
  )
]
  where
    flip : (j k : ℤ) → (j ==ℤ k) ≡ false → (k ==ℤ j) ≡ false
    flip j k h = ground arith

    other_key : (a b : ℕ) → a ≡ 0 → 0 < a + b → 0 < b
    other_key a b h l = omega arith

module _ {lib : Libs} (law : IsLawful lib) where
  -- A point of another time stays out when one is put in.
  still-IsOut :
      (heap : Heap) (ps : List Addr) (p : Addr) (len : ℕ) (mt : MinTime) (k : ℤ)
      (rest : Dict ℤ Addr)
      → (heap p).at ≡ k
      → key_tally k rest ≡ 0
      → All (IsOut heap ps mt) rest
      → All (IsOut heap ps (mintime_resource_insert lib heap len p mt)) rest
  unfolding mintime_resource_insert
  still-IsOut heap ps p len mt k [] at none a = tt
  still-IsOut heap ps p len mt k ((j, q) ∷ rest) at none ((e, out, at_q), a) = (
    (
      e,
      elim (Bool-cases (p == q)) [
        | inl same ↦
            let same_time : j ≡ k =
              sym at_q ∙ ap (λ x. (heap x).at) (sym ((==_iff p q).0 same)) ∙ at in
            absurd (no_match (key_tally k rest) ((==ℤ_iff j k).1 same_time) none)
        | inr other ↦ rw other out
      ],
      at_q,
    ),
    still-IsOut heap ps p len mt k rest at (omega arith) a,
  )
    where
      no_match : {b : Bool} (n : ℕ) → b ≡ true → (if b then 1 else 0) + n ≡ 0 → ⊥
      no_match n h e = ground arith

  restore_each-IsWhole :
      (heap : Heap) (ps : List Addr) (len : ℕ) (list : Dict ℤ Addr) (mt : MinTime)
      → IsPlaced ps mt
      → All (IsOut heap ps mt) list
      → ((k : ℤ) → key_tally k list ≤ 1)
      → IsWithin list mt.avail_time_iter
      → IsWhole ps (restore_each lib heap len list mt)
  unfolding restore_each mintime_resource_insert
  restore_each-IsWhole heap ps len [] mt placed a once w =
      (placed, within_none mt.avail_time_iter w)
  restore_each-IsWhole heap ps len ((k, p) ∷ rest) mt placed ((e, out, at), a) once w =
      let mt' = mintime_resource_insert lib heap len p mt in
      let placed' = insert-IsPlaced law heap ps p len mt e out placed in
      restore_each-IsWhole heap ps len rest
        (record mt' { avail_time_iter = erase k mt'.avail_time_iter })
        (record { once = placed'.once; listed = placed'.listed })
        (still-IsOut heap ps p len mt k rest at (last_one ((==ℤ_iff k k).1 refl) (once k)) a)
        (λ j. fewer (if k ==ℤ j then 1 else 0) (key_tally j rest) (once j))
        (erase-IsWithin k p rest mt.avail_time_iter w)
    where
      last_one : {b : Bool} {n : ℕ} → b ≡ true → (if b then 1 else 0) + n ≤ 1 → n ≡ 0
      last_one h l = ground arith

      fewer : (a n : ℕ) → a + n ≤ 1 → n ≤ 1
      fewer a n h = omega arith

  pub restore_track_points-IsWhole :
      (ctx : PlannerContext) (ps : List Addr)
      → IsTracked ctx.heap ps ctx.mt
      → IsWhole ps (restore_track_points lib ctx)
  unfolding restore_track_points
  restore_track_points-IsWhole ctx ps (placed, out, once) =
      let table = ctx.mt.avail_time_iter in
      restore_each-IsWhole ctx.heap ps ctx.dimension (lib.zhash_entries table) ctx.mt placed
        (law.entries-All (IsOut ctx.heap ps ctx.mt) table out)
        (λ k. rw (law.entries-tally k table) (once k))
        (IsWithin-same table (lib.zhash_entries table) table (λ k. law.entries-tally k table)
          (IsWithin-self table))
