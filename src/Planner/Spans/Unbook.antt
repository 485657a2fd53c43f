-- ===== src/Planner/Spans/Unbook.antt =====
-- The points stay current when a span is taken out of the table, and when a point that no span
-- refers to is freed.
use resource_query.Prelude.{
  ℕ, ◌+◌, ◌<◌, ℤ, pos, negsuc, ◌+ℤ◌, ◌-ℤ◌, int_laws, eq_of_parts, ◌==ℤ◌, List, [], ◌∷◌, All, true,
  false, ◌==◌, ==_iff, Dict, lookup, int_key, some, if◌then◌else◌, ◌≡◌, inl, inr, refl, sym, ap,
  ◌∙◌, arith, Bool-cases,
}
use resource_query.Planner.Points.{Addr, ResourceArray, ScheduledPoint, Heap, without}
use resource_query.Planner.Points.Sorted.{elem}
use resource_query.Planner.Points.Members.{All-without, elem-without, without-IsSorted}
use resource_query.Planner.Context.{Span, demand, subtract_demand}
use resource_query.Planner.Spans.{zhashx_delete}
use resource_query.Planner.Spans.Invariant.{
  covers, booked, references, HasEnds, HasLevel, IsCurrent,
}
use resource_query.Planner.Spans.Rebuild.{
  recount, recounted, rebuild, level_of, count_of, HasLevel-same,
}

booked_swap : (a b c : ℤ) → a +ℤ (b +ℤ c) ≡ b +ℤ (a +ℤ c)
booked_swap a b c = eq_of_parts _ _ (omega int_laws)

module _ (k : ℤ) (s : Span) where
  -- What one span books and refers to, and what the others do.
  pub booked-delete :
      (table : Dict ℤ Span) (t : ℤ) (i : ℕ)
      → lookup k table ≡ some s
      → booked table t i ≡ booked ((k, s) ∷ zhashx_delete k table) t i
  unfolding lookup zhashx_delete
  booked-delete [] t i h = cc
  booked-delete ((j, x) ∷ table) t i h = elim (Bool-cases (j ==ℤ k)) [
    | inl same ↦ let e : x ≡ s = ground (arith) in rw (same, e) refl
    | inr other ↦ rw (other, booked-delete table t i (rw other at h)) (booked_swap _ _ _)
  ]

  pub references-delete :
      (table : Dict ℤ Span) (p : Addr)
      → lookup k table ≡ some s
      → references table p ≡ references ((k, s) ∷ zhashx_delete k table) p
  unfolding lookup zhashx_delete
  references-delete [] p h = cc
  references-delete ((j, x) ∷ table) p h = elim (Bool-cases (j ==ℤ k)) [
    | inl same ↦ let e : x ≡ s = ground (arith) in rw (same, e) refl
    | inr other ↦ rw (other, references-delete table p (rw other at h)) (omega arith)
  ]

  pub All-delete {κ} :
      (P : ℤ × Span → Type κ) (table : Dict ℤ Span) → All P table → All P (zhashx_delete k table)
  unfolding zhashx_delete
  All-delete P [] a = tt
  All-delete P ((j, x) ∷ table) a = elim (Bool-cases (j ==ℤ k)) [
    | inl same ↦ rw same a.1
    | inr other ↦ rw other (a.0, All-delete P table a.1)
  ]

  pub All-lookup {κ} :
      (P : Span → Type κ) (table : Dict ℤ Span)
      → lookup k table ≡ some s
      → All (λ e. P e.1) table
      → P s
  unfolding lookup
  All-lookup P [] h a = cc
  All-lookup P ((j, x) ∷ table) h a = elim (Bool-cases (j ==ℤ k)) [
    | inl same ↦ let e : x ≡ s = ground (arith) in rw (← e) a.0
    | inr other ↦ All-lookup P table (rw other at h) a.1
  ]

less_in : (x b d : ℤ) → x ≡ d +ℤ b → x -ℤ d ≡ b
less_in x b d h = rw h (eq_of_parts _ _ (omega int_laws))

more_in : (r b d t : ℤ) → r +ℤ (d +ℤ b) ≡ t → (r +ℤ d) +ℤ b ≡ t
more_in r b d t h = rw (← h) (eq_of_parts _ _ (omega int_laws))

less_out : (x b : ℤ) → x ≡ pos 0 +ℤ b → x ≡ b
less_out x b h = rw h (eq_of_parts _ _ (omega int_laws))

more_out : (r b t : ℤ) → r +ℤ (pos 0 +ℤ b) ≡ t → r +ℤ b ≡ t
more_out r b t h = rw (← h) (eq_of_parts _ _ (omega int_laws))

+ℤ_minus_one : (n : ℕ) → pos (1 + n) +ℤ negsuc 0 ≡ pos n
+ℤ_minus_one n = eq_of_parts _ _ (omega int_laws)

-- The memory after both references of a span are dropped.
abbrev pub dropped : Span → Heap → Heap
dropped s heap = recount (negsuc 0) s.last_p (recount (negsuc 0) s.start_p heap)

dropped_count :
    (s : Span) (heap : Heap) (q : Addr) (n : ℕ)
    → (heap q).ref_count
      ≡ pos ((if s.start_p == q then 1 else 0) + (if s.last_p == q then 1 else 0) + n)
    → (dropped s heap q).ref_count ≡ pos n
dropped_count s heap q n h =
    rw
      (
        (recounted (negsuc 0) s.last_p (recount (negsuc 0) s.start_p heap) q).3,
        (recounted (negsuc 0) s.start_p heap q).3,
        h,
      )
      (elim (Bool-cases (s.start_p == q)) [
        | inl a ↦ elim (Bool-cases (s.last_p == q)) [
          | inl b ↦
              rw (a, b)
                (ap (λ m. (pos m +ℤ negsuc 0) +ℤ negsuc 0) (omega arith)
                  ∙ ap (λ z. z +ℤ negsuc 0) (+ℤ_minus_one (1 + n))
                  ∙ +ℤ_minus_one n)
          | inr b ↦ rw (a, b) (ap (λ m. pos m +ℤ negsuc 0) (omega arith) ∙ +ℤ_minus_one n)
        ]
        | inr a ↦ elim (Bool-cases (s.last_p == q)) [
          | inl b ↦ rw (a, b) (ap (λ m. pos m +ℤ negsuc 0) (omega arith) ∙ +ℤ_minus_one n)
          | inr b ↦ rw (a, b) (ap pos (omega arith))
        ]
      ])

inside_level :
    (total : ResourceArray) (table : Dict ℤ Span) (k : ℤ) (s : Span) (p : ScheduledPoint)
    → covers s p.at ≡ true
    → HasLevel total ((k, s) ∷ table) p
    → HasLevel total table (subtract_demand s p)
unfolding subtract_demand
inside_level total table k s p b l = record {
  taken = λ i. less_in _ _ (demand s i) (rw b at (l.taken i));
  left = λ i. more_in _ _ (demand s i) _ (rw b at (l.left i));
}

outside_level :
    (total : ResourceArray) (table : Dict ℤ Span) (k : ℤ) (s : Span) (p : ScheduledPoint)
    → covers s p.at ≡ false
    → HasLevel total ((k, s) ∷ table) p
    → HasLevel total table p
outside_level total table k s p b l = record {
  taken = λ i. less_out _ _ (rw b at (l.taken i));
  left = λ i. more_out _ _ _ (rw b at (l.left i));
}

-- Taking a span out, once its references are dropped and its demand is taken back.
pub unbook-IsCurrent :
    {total : ResourceArray} {start : ℤ} {extra : Addr → ℕ} {table : Dict ℤ Span} {heap : Heap}
    {next p0 : Addr} {ps : List Addr} (k : ℤ) (s : Span) (heap' : Heap)
    → IsCurrent total start extra table heap next p0 ps
    → lookup k table ≡ some s
    → ((q : Addr)
        → elem q ps ≡ true
        → heap' q ≡ (
            if covers s (heap q).at
            then subtract_demand s (dropped s heap q)
            else dropped s heap q))
    → IsCurrent total start extra (zhashx_delete k table) heap' next p0 ps
unfolding subtract_demand
unbook-IsCurrent {total} {extra = extra} {table} {heap} {ps = ps} k s heap' c found update =
    let table' = zhashx_delete k table in
    rebuild c extra table' heap' c.extra_fresh (λ q e. (same q (update q e)).0)
      (λ q e. HasLevel-of q (update q e) (level_of c q e))
      (λ q e.
        (same q (update q e)).1
        ∙ dropped_count s heap q (extra q + references table' q)
            (count_of c q e ∙ ap pos (omega (arith, references-delete k s table q found))))
      (All-delete k s (λ e. HasEnds heap ps e.1) table c.ends)
  where
    rows :
        (q : Addr)
        → ((dropped s heap q).at ≡ (heap q).at)
          × ((dropped s heap q).scheduled ≡ (heap q).scheduled)
          × ((dropped s heap q).remaining ≡ (heap q).remaining)
    rows q =
        let (a, b, c', d) = recounted (negsuc 0) s.start_p heap q in
        let (a', b', c'', d') =
          recounted (negsuc 0) s.last_p (recount (negsuc 0) s.start_p heap) q in
        (a' ∙ a, b' ∙ b, c'' ∙ c')

    same :
        (q : Addr)
        → heap' q ≡ (
            if covers s (heap q).at then subtract_demand s (dropped s heap q) else dropped s heap q)
        → ((heap' q).at ≡ (heap q).at) × ((heap' q).ref_count ≡ (dropped s heap q).ref_count)
    same q u = elim (Bool-cases (covers s (heap q).at)) [
      | inl b ↦ let u' = rw b at u in (ap (λ p. p.at) u' ∙ (rows q).0, ap (λ p. p.ref_count) u')
      | inr b ↦ let u' = rw b at u in (ap (λ p. p.at) u' ∙ (rows q).0, ap (λ p. p.ref_count) u')
    ]

    reordered :
        (p : ScheduledPoint)
        → HasLevel total table p
        → HasLevel total ((k, s) ∷ zhashx_delete k table) p
    reordered p l = record {
      taken = λ i. l.taken i ∙ booked-delete k s table p.at i found;
      left =
          λ i. ap (λ b. p.remaining i +ℤ b) (sym (booked-delete k s table p.at i found)) ∙ l.left i;
    }

    HasLevel-of :
        (q : Addr)
        → heap' q ≡ (
            if covers s (heap q).at then subtract_demand s (dropped s heap q) else dropped s heap q)
        → HasLevel total table (heap q)
        → HasLevel total (zhashx_delete k table) (heap' q)
    HasLevel-of q u l =
        let (a, b, r) = rows q in
        let table' = zhashx_delete k table in
        let l' =
          reordered (dropped s heap q)
            (HasLevel-same total table (heap q) (dropped s heap q) a b r l) in
        rw u (elim (Bool-cases (covers s (heap q).at)) [
          | inl in_span ↦
              rw in_span
                (inside_level total table' k s (dropped s heap q) (ap (covers s) a ∙ in_span) l')
          | inr out ↦
              rw out (outside_level total table' k s (dropped s heap q) (ap (covers s) a ∙ out) l')
        ])

-- A point that nothing refers to can be freed.
pub free-IsCurrent :
    {total : ResourceArray} {start : ℤ} {extra : Addr → ℕ} {table : Dict ℤ Span} {heap : Heap}
    {next p0 : Addr} {ps : List Addr} (p : Addr)
    → IsCurrent total start extra table heap next p0 ps
    → extra p0 ≡ 1
    → extra p + references table p ≡ 0
    → IsCurrent total start extra table heap next p0 (without p ps)
free-IsCurrent {total} {extra = extra} {table} {heap} {next} {p0} {ps} p c one unused = record {
  sorted = without-IsSorted heap p ps c.sorted;
  fresh = All-without (λ q. q < next) p ps c.fresh;
  extra_fresh = c.extra_fresh;
  base_in = elem-without p p0 ps (other p0 (omega arith)) ∙ c.base_in;
  base_at = c.base_at;
  levels = All-without (λ q. HasLevel total table (heap q)) p ps c.levels;
  counted =
      All-without (λ q. (heap q).ref_count ≡ pos (extra q + references table q)) p ps c.counted;
  ends = kept table unused c.ends;
}
  where
    other : (q : Addr) → 0 < extra q + references table q → (q == p) ≡ false
    other q h = elim (Bool-cases (q == p)) [
      | inl same ↦
          let e : extra q + references table q ≡ extra p + references table p =
            ap (λ x. extra x + references table x) ((==_iff q p).0 same) in
          absurd (omega arith)
      | inr apart ↦ apart
    ]

    kept :
        (t : Dict ℤ Span)
        → extra p + references t p ≡ 0
        → All (λ e. HasEnds heap ps e.1) t
        → All (λ e. HasEnds heap (without p ps) e.1) t
    kept [] u h = tt
    kept ((k, s) ∷ t) u h = (
      record {
        start_in = elem-without p s.start_p ps (ground arith) ∙ h.0.start_in;
        last_in = elem-without p s.last_p ps (ground arith) ∙ h.0.last_in;
        start_at = h.0.start_at;
        last_at = h.0.last_at;
      },
      kept t (ground arith) h.1,
    )
