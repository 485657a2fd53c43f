-- ===== src/Planner/Tracked.antt =====
-- What holds of the min-time tree, its flags and the table of the points that are out of it.
pub mod Tree
pub mod Restore
pub mod Out
pub mod Flags
use resource_query.Prelude.{
  ℕ, ◌+◌, ◌≤◌, ◌<◌, ℤ, List, [], ◌∷◌, All, Bool, true, false, ◌==◌, ==_iff, ◌||◌, if◌then◌else◌,
  ◌≡◌, ◌⊎◌, inl, inr, refl, sym, ◌∙◌, arith, Bool-cases,
}
use resource_query.Planner.Points.{Addr, Heap}
use resource_query.Planner.Points.Sorted.{elem}
use resource_query.Planner.Mintime.{points}
use resource_query.Planner.Context.{MinTime, key_tally}

-- How often a point is in a list.
abbrev pub tally : Addr → List Addr → ℕ
tally q [] = 0
tally q (p ∷ ps) = (if q == p then 1 else 0) + tally q ps

-- The tree has each point once if its flag is set, and else not; and only scheduled points.
pub record IsPlaced (ps : List Addr) (mt : MinTime) : Type 0 where
  pub once :
      (q : Addr)
      → tally q (points mt.mt_resource_tree) ≡ (if mt.in_mt_resource_tree q then 1 else 0)
  pub listed : (q : Addr) → mt.in_mt_resource_tree q ≡ true → elem q ps ≡ true

-- An entry of the table: a scheduled point that is not in the tree, by its time.
abbrev pub IsOut : Heap → List Addr → MinTime → ℤ × Addr → Type 0
IsOut heap ps mt e =
    (elem e.1 ps ≡ true) × (mt.in_mt_resource_tree e.1 ≡ false) × ((heap e.1).at ≡ e.0)

abbrev pub IsTracked : Heap → List Addr → MinTime → Type 0
IsTracked heap ps mt =
    IsPlaced ps mt
    × All (IsOut heap ps mt) mt.avail_time_iter
    × ((k : ℤ) → key_tally k mt.avail_time_iter ≤ 1)

-- No point is out of the tree.
abbrev pub IsWhole : List Addr → MinTime → Type 0
IsWhole ps mt = IsPlaced ps mt × (mt.avail_time_iter ≡ [])

-- Every scheduled point is in the tree.
abbrev pub IsFlagged : List Addr → MinTime → Type 0
IsFlagged ps mt = (q : Addr) → elem q ps ≡ true → mt.in_mt_resource_tree q ≡ true

-- Every scheduled point is in the tree, or its time is in the table of the points that are out.
abbrev pub IsComplete : Heap → List Addr → MinTime → Type 0
IsComplete heap ps mt =
    (q : Addr)
    → elem q ps ≡ true
    → (mt.in_mt_resource_tree q ≡ true) ⊎ (0 < key_tally (heap q).at mt.avail_time_iter)

pub IsWhole-IsTracked :
    (heap : Heap) (ps : List Addr) (mt : MinTime) → IsWhole ps mt → IsTracked heap ps mt
IsWhole-IsTracked heap ps mt (placed, empty) = (placed, rw empty tt, λ k. rw empty (omega arith))

elem-tally : (q : Addr) (ps : List Addr) → elem q ps ≡ true → 0 < tally q ps
elem-tally q [] e = cc
elem-tally q (p ∷ ps) e = elim (Bool-cases (q == p)) [
  | inl same ↦ rw same (omega arith)
  | inr other ↦ rw other (omega (arith, elem-tally q ps (rw other at e)))
]

pub placed-elem :
    (ps : List Addr) (mt : MinTime) (q : Addr)
    → IsPlaced ps mt
    → elem q (points mt.mt_resource_tree) ≡ true
    → elem q ps ≡ true
placed-elem ps mt q placed e = elim (Bool-cases (mt.in_mt_resource_tree q)) [
  | inl inside ↦ placed.listed q inside
  | inr out ↦
      let none_there : tally q (points mt.mt_resource_tree) ≡ 0 = placed.once q ∙ (rw out refl) in
      absurd (omega (arith, elem-tally q (points mt.mt_resource_tree) e))
]
