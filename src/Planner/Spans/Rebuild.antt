-- ===== src/Planner/Spans/Rebuild.antt =====
-- The points stay current when references are counted, a span is booked, or a span is taken out.
use resource_query.Prelude.{
  ℕ, ◌+◌, ◌≤◌, ◌<◌, ℤ, pos, ◌+ℤ◌, ◌-ℤ◌, int_laws, eq_of_parts, List, [], ◌∷◌, All, true, ◌==◌,
  ==_iff, Dict, int_key, if◌then◌else◌, ◌≡◌, inl, inr, refl, sym, ap, ◌∙◌, arith, Bool-cases,
}
use resource_query.Planner.Points.{Addr, ResourceArray, ScheduledPoint, Heap, write}
use resource_query.Planner.Points.Sorted.{elem}
use resource_query.Planner.Points.Members.{All-elem, All-of}
use resource_query.Planner.Context.{Span, demand, add_demand}
use resource_query.Planner.Spans.Invariant.{
  covers, booked, references, HasEnds, HasLevel, IsCurrent,
}
use resource_query.Planner.Spans.Points.{IsSorted-same}

-- The memory after a point's reference count changed by `n`.
abbrev pub recount : ℤ → Addr → Heap → Heap
recount n p heap = write p (record (heap p) { ref_count = (heap p).ref_count +ℤ n }) heap

pub recounted :
    (n : ℤ) (p : Addr) (heap : Heap) (q : Addr)
    → ((recount n p heap q).at ≡ (heap q).at)
      × ((recount n p heap q).scheduled ≡ (heap q).scheduled)
      × ((recount n p heap q).remaining ≡ (heap q).remaining)
      × ((recount n p heap q).ref_count
          ≡ (if p == q then (heap q).ref_count +ℤ n else (heap q).ref_count))
recounted n p heap q = elim (Bool-cases (p == q)) [
  | inl same ↦ rw (← (==_iff p q).0 same) (rw ((==_iff p p).1 refl) (refl, refl, refl, refl))
  | inr other ↦ rw other (refl, refl, refl, refl)
]

pub HasLevel-same :
    (total : ResourceArray) (table : Dict ℤ Span) (p p' : ScheduledPoint)
    → p'.at ≡ p.at
    → p'.scheduled ≡ p.scheduled
    → p'.remaining ≡ p.remaining
    → HasLevel total table p
    → HasLevel total table p'
HasLevel-same total table p p' a s r l = record {
  taken = λ i. ap (λ f. f i) s ∙ l.taken i ∙ ap (λ t. booked table t i) (sym a);
  left = λ i.
      ap (λ f. f i +ℤ booked table p'.at i) r
      ∙ ap (λ t. p.remaining i +ℤ booked table t i) a
      ∙ l.left i;
}

taken_in : (x b d : ℤ) → x ≡ b → x +ℤ d ≡ d +ℤ b
taken_in x b d h = rw h (eq_of_parts _ _ (omega int_laws))

left_in : (r b d t : ℤ) → r +ℤ b ≡ t → (r -ℤ d) +ℤ (d +ℤ b) ≡ t
left_in r b d t h = rw (← h) (eq_of_parts _ _ (omega int_laws))

taken_out : (x b : ℤ) → x ≡ b → x ≡ pos 0 +ℤ b
taken_out x b h = rw h (eq_of_parts _ _ (omega int_laws))

left_out : (r b t : ℤ) → r +ℤ b ≡ t → r +ℤ (pos 0 +ℤ b) ≡ t
left_out r b t h = rw (← h) (eq_of_parts _ _ (omega int_laws))

+ℤ_one : (n : ℕ) → pos n +ℤ pos 1 ≡ pos (1 + n)
+ℤ_one n = eq_of_parts _ _ (omega int_laws)

module _ {total : ResourceArray} {start : ℤ} {extra : Addr → ℕ} {table : Dict ℤ Span} {heap : Heap}
    {next p0 : Addr} {ps : List Addr} (c : IsCurrent total start extra table heap next p0 ps) where
  -- New counts on the same points, for another table whose spans end at them.
  pub rebuild :
      (extra' : Addr → ℕ) (table' : Dict ℤ Span) (heap' : Heap)
      → ((p : Addr) → next ≤ p → extra' p ≡ 0)
      → ((q : Addr) → elem q ps ≡ true → (heap' q).at ≡ (heap q).at)
      → ((q : Addr) → elem q ps ≡ true → HasLevel total table' (heap' q))
      → ((q : Addr) → elem q ps ≡ true → (heap' q).ref_count ≡ pos (extra' q + references table' q))
      → All (λ e. HasEnds heap ps e.1) table'
      → IsCurrent total start extra' table' heap' next p0 ps
  rebuild extra' table' heap' fresh at level count ends = record {
    sorted =
        IsSorted-same heap heap' ps
          (All-of (λ q. (heap q).at ≡ (heap' q).at) ps (λ q e. sym (at q e))) c.sorted;
    fresh = c.fresh;
    extra_fresh = fresh;
    base_in = c.base_in;
    base_at = at p0 c.base_in ∙ c.base_at;
    levels = All-of (λ q. HasLevel total table' (heap' q)) ps level;
    counted = All-of (λ q. (heap' q).ref_count ≡ pos (extra' q + references table' q)) ps count;
    ends = moved table' ends;
  }
    where
      moved :
          (t : Dict ℤ Span) → All (λ e. HasEnds heap ps e.1) t → All (λ e. HasEnds heap' ps e.1) t
      moved [] h = tt
      moved ((k, s) ∷ t) h = (
        record {
          start_in = h.0.start_in;
          last_in = h.0.last_in;
          start_at = at s.start_p h.0.start_in ∙ h.0.start_at;
          last_at = at s.last_p h.0.last_in ∙ h.0.last_at;
        },
        moved t h.1,
      )

  pub level_of : (q : Addr) → elem q ps ≡ true → HasLevel total table (heap q)
  level_of q e = All-elem (λ q. HasLevel total table (heap q)) ps q c.levels e

  pub count_of :
      (q : Addr) → elem q ps ≡ true → (heap q).ref_count ≡ pos (extra q + references table q)
  count_of q e =
      All-elem (λ q. (heap q).ref_count ≡ pos (extra q + references table q)) ps q c.counted e

  -- One more reference, which is not yet the table's.
  pub refer-IsCurrent :
      (p : Addr)
      → elem p ps ≡ true
      → IsCurrent total start
          (λ q. (if p == q then 1 else 0) + extra q)
          table
          (recount (pos 1) p heap)
          next
          p0
          ps
  refer-IsCurrent p e =
      let fresh = All-elem (λ q. q < next) ps p c.fresh e in
      rebuild (λ q. (if p == q then 1 else 0) + extra q) table (recount (pos 1) p heap)
        (λ q h. ground (arith, c.extra_fresh q h)) (λ q e'. (recounted (pos 1) p heap q).0)
        (λ q e'.
          let (a, s, r, _) = recounted (pos 1) p heap q in
          HasLevel-same total table (heap q) (recount (pos 1) p heap q) a s r (level_of q e'))
        (λ q e'. (recounted (pos 1) p heap q).3 ∙ one_more q (count_of q e')) c.ends
    where
      one_more :
          (q : Addr)
          → (heap q).ref_count ≡ pos (extra q + references table q)
          → (if p == q then (heap q).ref_count +ℤ pos 1 else (heap q).ref_count)
            ≡ pos ((if p == q then 1 else 0) + extra q + references table q)
      one_more q h = rw h (elim (Bool-cases (p == q)) [
        | inl same ↦ rw same (+ℤ_one _ ∙ ap pos (omega arith))
        | inr other ↦ rw other (ap pos (omega arith))
      ])

-- Booking a span on the points that it covers, once both its references are counted.
pub book-IsCurrent :
    {total : ResourceArray} {start : ℤ} {extra : Addr → ℕ} {table : Dict ℤ Span} {heap : Heap}
    {next p0 : Addr} {ps : List Addr} (k : ℤ) (s : Span) (heap' : Heap)
    → IsCurrent total start
        (λ q. (if s.last_p == q then 1 else 0) + ((if s.start_p == q then 1 else 0) + extra q))
        table
        heap
        next
        p0
        ps
    → HasEnds heap ps s
    → ((q : Addr)
        → elem q ps ≡ true
        → heap' q ≡ (if covers s (heap q).at then add_demand s (heap q) else heap q))
    → IsCurrent total start extra ((k, s) ∷ table) heap' next p0 ps
unfolding add_demand
book-IsCurrent {total} {extra = extra} {table} {heap} k s heap' c ends update =
    rebuild c extra ((k, s) ∷ table) heap' (λ q h. omega (arith, c.extra_fresh q h))
      (λ q e. at_same q (update q e)) (λ q e. level q (update q e) (level_of c q e))
      (λ q e. counts q (update q e) (count_of c q e)) (ends, c.ends)
  where
    at_same :
        (q : Addr)
        → heap' q ≡ (if covers s (heap q).at then add_demand s (heap q) else heap q)
        → (heap' q).at ≡ (heap q).at
    at_same q u =
        ap (λ p. p.at) u
        ∙ (elim (Bool-cases (covers s (heap q).at)) [ inl b ↦ rw b refl | inr b ↦ rw b refl ])

    level :
        (q : Addr)
        → heap' q ≡ (if covers s (heap q).at then add_demand s (heap q) else heap q)
        → HasLevel total table (heap q)
        → HasLevel total ((k, s) ∷ table) (heap' q)
    level q u l = rw u (elim (Bool-cases (covers s (heap q).at)) [
      | inl b ↦ rw b (record {
        taken = λ i. rw b (taken_in _ _ (demand s i) (l.taken i));
        left = λ i. rw b (left_in _ _ (demand s i) _ (l.left i));
      })
      | inr b ↦ rw b (record {
        taken = λ i. rw b (taken_out _ _ (l.taken i));
        left = λ i. rw b (left_out _ _ _ (l.left i));
      })
    ])

    counts :
        (q : Addr)
        → heap' q ≡ (if covers s (heap q).at then add_demand s (heap q) else heap q)
        → (heap q).ref_count
          ≡ pos (
              (if s.last_p == q then 1 else 0)
              + ((if s.start_p == q then 1 else 0) + extra q)
              + references table q)
        → (heap' q).ref_count ≡ pos (extra q + references ((k, s) ∷ table) q)
    counts q u h =
        ap (λ p. p.ref_count) u
        ∙ (elim (Bool-cases (covers s (heap q).at)) [ inl b ↦ rw b refl | inr b ↦ rw b refl ])
        ∙ h
        ∙ ap pos (ground arith)
