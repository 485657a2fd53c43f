-- ===== src/Planner/Spans/Points.antt =====
-- What a valid planner says of any time: the latest point carries what the spans leave then.
use resource_query.Prelude.{
  ℕ, ℤ, ◌+ℤ◌, ltb_ℤ, ◌≤ℤ◌, ◌<ℤ◌, List, [], ◌∷◌, All, true, Dict, none, some, ◌≡◌, ◌⊎◌, inl, inr,
  refl, arith, int_key,
}
use resource_query.Planner.Points.{Addr, ResourceArray, Heap}
use resource_query.Planner.Points.Sorted.{elem, After, IsSorted, latest, find}
use resource_query.Planner.Points.Members.{All-elem, latest_facts, latest_least}
use resource_query.Planner.Context.{Span}
use resource_query.Planner.Spans.Invariant.{covers, booked, HasEnds, HasLevel, IsCurrent}

-- Equal times on the entries of a list.
abbrev pub SameTimes : Heap → Heap → List Addr → Type 0
SameTimes h h' = All (λ q. (h q).at ≡ (h' q).at)

After-same :
    (h h' : Heap) (t t' : ℤ) (ps : List Addr)
    → t ≡ t'
    → SameTimes h h' ps
    → After h t ps
    → After h' t' ps
After-same h h' t t' [] e m a = tt
After-same h h' t t' (p ∷ ps) e m a = (rw (← e, ← m.0) a.0, After-same h h' t t' ps e m.1 a.1)

pub IsSorted-same :
    (h h' : Heap) (ps : List Addr) → SameTimes h h' ps → IsSorted h ps → IsSorted h' ps
IsSorted-same h h' [] m s = tt
IsSorted-same h h' (p ∷ ps) m s =
    (After-same h h' (h p).at (h' p).at ps m.0 m.1 s.0, IsSorted-same h h' ps m.1 s.1)

pub find-same :
    (h h' : Heap) (t : ℤ) (ps : List Addr) → SameTimes h h' ps → find h t ps ≡ find h' t ps
find-same h h' t [] m = refl
find-same h h' t (p ∷ ps) m = rw (m.0, find-same h h' t ps m.1)

-- The spans end at points, so what they book changes at points only.
booked-between :
    (heap : Heap) (ps : List Addr) (t : ℤ) (p : Addr) (table : Dict ℤ Span) (i : ℕ)
    → (heap p).at ≤ℤ t
    → All (λ q. ((heap q).at ≤ℤ (heap p).at) ⊎ (t <ℤ (heap q).at)) ps
    → All (λ e. HasEnds heap ps e.1) table
    → booked table t i ≡ booked table (heap p).at i
booked-between heap ps t p [] i le all ends = refl
booked-between heap ps t p ((k, s) ∷ table) i le all ends =
    rw (same, booked-between heap ps t p table i le all ends.1)
  where
    same_test :
        (u : ℤ) (q : Addr) → elem q ps ≡ true → (heap q).at ≡ u → ltb_ℤ t u ≡ ltb_ℤ (heap p).at u
    same_test u q e a =
        elim (All-elem (λ q. ((heap q).at ≤ℤ (heap p).at) ⊎ (t <ℤ (heap q).at)) ps q all e) [
          | inl below ↦ rw (← a) (ground arith)
          | inr above ↦ rw (← a) (ground arith)
        ]

    same : covers s t ≡ covers s (heap p).at
    same = rw (
      same_test s.start s.start_p ends.0.start_in ends.0.start_at,
      same_test s.last s.last_p ends.0.last_in ends.0.last_at,
    )

module _ {total : ResourceArray} {start : ℤ} {extra : Addr → ℕ} {table : Dict ℤ Span} {heap : Heap}
    {next p0 : Addr} {ps : List Addr} (c : IsCurrent total start extra table heap next p0 ps) where
  -- At any time of the plan the latest point carries what the spans leave then.
  pub level :
      (t : ℤ)
      → start ≤ℤ t
      → (p : Addr) × (latest heap t ps none ≡ some p)
        × (elem p ps ≡ true)
        × ((i : ℕ) → (heap p).scheduled i ≡ booked table t i)
        × ((i : ℕ) → (heap p).remaining i +ℤ booked table t i ≡ total i)
  level t h =
      let (p, found) = latest_least heap t ps p0 c.base_in c.sorted (rw c.base_at h) in
      elim (latest_facts heap t ps none p c.sorted found) [
        | inl (e, le, all) ↦
            let l = All-elem (λ q. HasLevel total table (heap q)) ps p c.levels e in
            (
              p,
              found,
              e,
              λ i. rw (booked-between heap ps t p table i le all c.ends) (l.taken i),
              λ i. rw (booked-between heap ps t p table i le all c.ends) (l.left i),
            )
        | inr (bad, _) ↦ absurd (cc)
      ]
