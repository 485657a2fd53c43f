-- ===== src/Scoring/Evals/Counts.antt =====
-- The counts of `evals_t`, and the loop of `choose_best_k` over them.
use resource_query.Prelude.{
  to_signed, ℕ, zero, suc, ◌+◌, ◌-◌, ◌^◌, ◌≤◌, ◌<◌, ℤ, pos, negsuc, ltb_ℤ, ◌≡◌, refl, ap, List, [],
  ◌∷◌, ◌++◌, Bool, true, false, ltb, leb, ◌==◌, if◌then◌else◌, sub32, u32, arith, ◌⊎◌, ◌≢◌, ◌||◌,
  eq_of_parts, Bool-cases, inl, inr,
}
use text.Mathlib.TextEquality.{eq_iff}
use resource_query.Run.{ok, ◌>>=◌, Returns}
use resource_query.Scoring.Evals.{
  EvalEgroup, Evals, add, merge, insert_sorted, sort, is_positive, assign_needs, choose_best_k,
}

-- The counts of the groups, added up without wrapping.
abbrev pub total : List EvalEgroup → ℕ
total [] = 0
total (g ∷ gs) = g.count + total gs

-- The counts of the groups that score above the cutline.
abbrev pub qualified : ℤ → List EvalEgroup → ℕ
qualified c [] = 0
qualified c (g ∷ gs) = (if ltb_ℤ c g.score then g.count else 0) + qualified c gs

-- The needs of the first `n` groups, added up.
abbrev pub needed : ℕ → List EvalEgroup → ℕ
needed zero gs = 0
needed (suc n) [] = 0
needed (suc n) (g ∷ gs) = g.needs + needed n gs

-- None of the first `n` groups is asked for more than it has, or for nothing that it could not give.
abbrev pub WithinCount : ℕ → List EvalEgroup → Type 0
WithinCount zero gs = Unit
WithinCount (suc n) [] = ⊥
WithinCount (suc n) (g ∷ gs) = (g.needs ≤ g.count) × WithinCount n gs

-- The two counters are those of the groups.
pub record IsCounted (e : Evals) : Type 0 where
  pub total_counted : e.total_count ≡ total e.egroups
  pub qual_counted : e.qual_count ≡ qualified e.cutline e.egroups

pub total-append : (xs ys : List EvalEgroup) → total (xs ++ ys) ≡ total xs + total ys
total-append [] ys = omega arith
total-append (x ∷ xs) ys = omega (arith, total-append xs ys)

pub qualified-append :
    (c : ℤ) (xs ys : List EvalEgroup) → qualified c (xs ++ ys) ≡ qualified c xs + qualified c ys
qualified-append c [] ys = omega arith
qualified-append c (x ∷ xs) ys = ground (arith, qualified-append c xs ys)

pub qualified-le-total : (c : ℤ) (xs : List EvalEgroup) → qualified c xs ≤ total xs
qualified-le-total c [] = omega arith
qualified-le-total c (x ∷ xs) = ground (arith, qualified-le-total c xs)

pub total-insert_sorted :
    (comp : EvalEgroup → EvalEgroup → Bool) (x : EvalEgroup) (ys : List EvalEgroup)
    → total (insert_sorted comp x ys) ≡ x.count + total ys
unfolding insert_sorted
total-insert_sorted comp x [] = refl
total-insert_sorted comp x (y ∷ ys) = ground (arith, total-insert_sorted comp x ys)

pub total-sort :
    (comp : EvalEgroup → EvalEgroup → Bool) (xs : List EvalEgroup) → total (sort comp xs) ≡ total xs
unfolding sort
total-sort comp [] = refl
total-sort comp (x ∷ xs) =
    omega (arith, total-insert_sorted comp x (sort comp xs), total-sort comp xs)

pub qualified-insert_sorted :
    (comp : EvalEgroup → EvalEgroup → Bool) (c : ℤ) (x : EvalEgroup) (ys : List EvalEgroup)
    → qualified c (insert_sorted comp x ys) ≡ qualified c (x ∷ ys)
unfolding insert_sorted
qualified-insert_sorted comp c x [] = refl
qualified-insert_sorted comp c x (y ∷ ys) = ground (arith, qualified-insert_sorted comp c x ys)

pub qualified-sort :
    (comp : EvalEgroup → EvalEgroup → Bool) (c : ℤ) (xs : List EvalEgroup)
    → qualified c (sort comp xs) ≡ qualified c xs
unfolding sort
qualified-sort comp c [] = refl
qualified-sort comp c (x ∷ xs) =
    omega (arith, qualified-insert_sorted comp c x (sort comp xs), qualified-sort comp c xs)

-- What the loop leaves: the groups with other needs, and those of the first `i` met in full.
pub record Assigned (left : ℕ) (gs : List EvalEgroup) (r : List EvalEgroup × ℕ) : Type 0 where
  pub met : needed r.1 r.0 ≡ left
  pub within : WithinCount r.1 r.0
  pub total_kept : total r.0 ≡ total gs
  pub qualified_kept : (c : ℤ) → qualified c r.0 ≡ qualified c gs

sub32-lt : (a b : ℕ) → b < a → a < 2 ^ 31 → sub32 a b ≡ a - b
sub32-lt a b h k = omega arith

-- Past the last unit the difference is not positive as an `int`.
sub32-le : (a b : ℕ) → a ≤ b → b < 2 ^ 31 → is_positive (sub32 a b) ≡ false
sub32-le a b h k = ground arith

assign_needs-idle :
    (left : ℕ) (gs : List EvalEgroup) → is_positive left ≡ false → assign_needs left gs ≡ ok (gs, 0)
unfolding assign_needs
assign_needs-idle left [] h = rw h
assign_needs-idle left (g ∷ gs) h = rw h

is_positive-of : (left : ℕ) → 0 < left → left < 2 ^ 31 → is_positive left ≡ true
is_positive-of left h k = ground arith

pub assign_needs-Returns :
    (gs : List EvalEgroup) (left : ℕ)
    → 0 < left
    → left ≤ total gs
    → total gs < 2 ^ 31
    → Returns (assign_needs left gs) (Assigned left gs)
unfolding assign_needs
assign_needs-Returns [] left p h b = absurd (omega arith)
assign_needs-Returns (g ∷ gs) left p h b = elim (Bool-cases (leb left g.count)) [
  | inl e ↦ (
    (record g { needs = left } ∷ gs, 1),
    rw (
      is_positive-of left p (omega arith),
      assign_needs-idle (sub32 left g.count) gs
          (sub32-le left g.count (ground arith) (omega arith)),
      ◌>>=◌,
      e,
    ),
    record {
      met = omega arith;
      within = (ground arith, tt);
      total_kept = refl;
      qualified_kept = λ c. refl;
    },
  )
  | inr e ↦
      let (r, run, a) =
        assign_needs-Returns gs (left - g.count) (ground arith) (omega arith) (omega arith) in
      (
        (record g { needs = g.count } ∷ r.0, suc r.1),
        rw (
          is_positive-of left p (omega arith),
          sub32-lt left g.count (ground arith) (omega arith),
          run,
          e,
        ),
        record {
          met = ground (arith, a.met);
          within = (omega arith, a.within);
          total_kept = ap (λ t. g.count + t) a.total_kept;
          qualified_kept = λ c. omega (arith, a.qualified_kept c);
        },
      )
]

-- Adding a group keeps both counters right, as long as the total does not wrap, and the new number
-- of qualified units is returned.
pub add-IsCounted :
    (e : Evals) (eg : EvalEgroup)
    → IsCounted e
    → e.total_count + eg.count < u32
    → IsCounted (add e eg).0
      × ((add e eg).1 ≡ qualified e.cutline (e.egroups ++ eg ∷ []))
      × ((add e eg).0.total_count ≡ e.total_count + eg.count)
unfolding add
add-IsCounted e eg v b = ground (
  arith,
  total-append e.egroups (eg ∷ []),
  qualified-append e.cutline e.egroups (eg ∷ []),
  qualified-le-total e.cutline e.egroups,
)

-- Evaluations of one type with one cutline are merged: the counters are those of all the groups, as
-- long as the total does not wrap.
pub merge-IsCounted :
    (e o : Evals)
    → IsCounted e
    → IsCounted o
    → e.total_count + o.total_count < u32
    → e.cutline ≡ o.cutline
    → e.resrc_type ≡ o.resrc_type
    → ((merge e o).1 ≡ pos 0)
      × ((merge e o).0.egroups ≡ e.egroups ++ o.egroups)
      × IsCounted (merge e o).0
unfolding merge
merge-IsCounted e o v w b c t =
    let q : qualified o.cutline e.egroups ≡ qualified e.cutline e.egroups = rw c in
    ground (
      arith,
      q,
      eq_iff e.resrc_type o.resrc_type,
      total-append e.egroups o.egroups,
      qualified-append o.cutline e.egroups o.egroups,
      qualified-le-total o.cutline e.egroups,
      qualified-le-total o.cutline o.egroups,
    )

-- Evaluations that differ in the cutline or the type are not merged, and nothing is changed.
pub merge-refuses :
    (e o : Evals)
    → (e.cutline ≢ o.cutline) ⊎ (e.resrc_type ≢ o.resrc_type)
    → merge e o ≡ (e, negsuc 0)
unfolding merge
merge-refuses e o h =
    ground (arith, eq_iff e.resrc_type o.resrc_type, eq_of_parts e.cutline o.cutline)

-- A choice of `k` units among `k` or more qualified ones does not run past the groups: the groups
-- of the selection are asked for `k` units together, none for more than it has, and the counters
-- stay right. The value returned is the number that was chosen before, as an int.
pub choose_best_k-Chosen :
    (e : Evals) (k : ℕ) (comp : EvalEgroup → EvalEgroup → Bool)
    → IsCounted e
    → 0 < k
    → k ≤ e.qual_count
    → e.total_count < 2 ^ 31
    → Returns (choose_best_k e k comp) λ r.
      (r.1 ≡ to_signed (2 ^ 32) e.best_k)
      × (r.0.best_k ≡ k)
      × (needed r.0.best_i r.0.egroups ≡ k)
      × WithinCount r.0.best_i r.0.egroups
      × IsCounted r.0
unfolding choose_best_k
choose_best_k-Chosen e k comp v p h b =
    let (r, run, a) =
      assign_needs-Returns (sort comp e.egroups) k p
        (omega (arith, total-sort comp e.egroups, qualified-le-total e.cutline e.egroups))
        (omega (arith, total-sort comp e.egroups)) in
    (
      (record e { egroups = r.0; best_k = k; best_i = r.1 }, to_signed (2 ^ 32) e.best_k),
      rw (chosen, run),
      (
        refl,
        refl,
        a.met,
        a.within,
        record {
          total_counted = omega (arith, a.total_kept, total-sort comp e.egroups);
          qual_counted =
              omega (arith, a.qualified_kept e.cutline, qualified-sort comp e.cutline e.egroups);
        },
      ),
    )
  where
    chosen : (k == 0 || ltb e.qual_count k) ≡ false
    chosen = ground arith
