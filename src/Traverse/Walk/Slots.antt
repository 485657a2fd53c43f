-- ===== src/Traverse/Walk/Slots.antt =====
-- The number of slots that `cnt_slot` gives.
use resource_query.Prelude.{
  ℕ, ◌-◌, ◌*◌, ◌/◌, ◌≤◌, ◌≡◌, ◌∙◌, ap, String, List, [], ◌∷◌, ◌==◌, ◌=?◌, ◌&&◌, if◌then◌else◌,
  string_key, All, arith, Bool-cases, inl, inr, u32,
}
use native.Mathlib.Nat.{le-div_iff_mul-le}
use text.Mathlib.TextEquality.{eq_iff}
use resource_query.Run.{ok, >>=-eq-ok}
use resource_query.Jobspec.{Resource, attrs}
use resource_query.Matcher.SelectCount.{select_count}
use resource_query.Scoring.Evals
use resource_query.Scoring.Api.{ScoringApi, evals_of, reach, handle_new_keys}
use resource_query.Scoring.Api
use resource_query.Scoring.Api.Keyed.{reach-value, evals_of-keys, put-Updates}
use resource_query.Traverse.Walk.{cnt_slot_from, cnt_slot}

-- The units of the resource's type that qualify.
abbrev pub units : String → ScoringApi → Resource → ℕ
units s dfu r = (evals_of dfu s (attrs r).type).qual_count

-- So many slots need no more units of the resource than qualify.
abbrev pub Fits : String → ScoringApi → ℕ → Resource → Type 0
Fits s dfu k r = (c : ℕ) × (select_count r (units s dfu r) ≡ ok c) × (k * c ≤ units s dfu r)

-- What one round does to the evaluations.
abbrev rewound : String → ScoringApi → Resource → ScoringApi
rewound s dfu r = Api.rewind_iter_cur (Api.qualified_count dfu s (attrs r).type).0 s (attrs r).type

-- Rewinding an iterator changes no count.
units-rewound :
    (s : String) (dfu : ScoringApi) (r q : Resource) → units s (rewound s dfu r) q ≡ units s dfu q
unfolding Api.qualified_count Api.rewind_iter_cur reach Evals.rewind_iter_cur
units-rewound s dfu r q =
    let t = (attrs r).type in
    let p = (attrs q).type in
    let a = handle_new_keys dfu s t in
    ap (λ e. e.qual_count) (put-Updates Evals.rewind_iter_cur a s t s p)
    ∙ same a t p
    ∙ ap (λ e. e.qual_count) (evals_of-keys dfu s t s p)
  where
    same :
        (a : ScoringApi) (t p : String)
        → (if s =? s && t =? p
            then Evals.rewind_iter_cur (evals_of a s t)
            else evals_of a s p).qual_count
          ≡ (evals_of a s p).qual_count
    same a t p = elim (Bool-cases (t =? p)) [
      | inl e ↦ rw ((eq_iff t p).0 e) (ground arith)
      | inr e ↦ ground arith
    ]

fit_le : (k qc c : ℕ) → k ≤ (if c == 0 then c else qc / c) → k * c ≤ qc
fit_le k qc c h = elim (Bool-cases (c == 0)) [
  | inl e ↦ let none_left : c ≡ 0 = ground arith in rw none_left (omega arith)
  | inr e ↦ (le-div_iff_mul-le (ground arith)).0 (ground arith)
]

All-Fits :
    (s : String) (dfu : ScoringApi) (r : Resource) (k : ℕ) (rs : List Resource)
    → All (Fits s (rewound s dfu r) k) rs
    → All (Fits s dfu k) rs
All-Fits s dfu r k [] h = tt
All-Fits s dfu r k (q ∷ qs) h = (rw (units-rewound s dfu r q) at h.0, All-Fits s dfu r k qs h.1)

units-qualified :
    (s : String) (dfu : ScoringApi) (r : Resource)
    → (Api.qualified_count dfu s (attrs r).type).1 ≡ units s dfu r
unfolding Api.qualified_count
units-qualified s dfu r = ap (λ e. e.qual_count) (reach-value dfu s (attrs r).type)

cnt_slot_from-Fits :
    (s : String) (shape : List Resource) (qual : ℕ) (dfu : ScoringApi) (q : ScoringApi × ℕ)
    → cnt_slot_from qual s shape dfu ≡ ok q
    → (q.1 ≤ qual) × All (Fits s dfu q.1) shape
unfolding cnt_slot_from
cnt_slot_from-Fits s [] qual dfu q e = (ground (arith, e), tt)
cnt_slot_from-Fits s (r ∷ rs) qual dfu q e =
    let qc = (Api.qualified_count dfu s (attrs r).type).1 in
    let (c, run, rest) = >>=-eq-ok (select_count r qc) _ e in
    let (le, fits) = cnt_slot_from-Fits s rs _ (rewound s dfu r) q rest in
    let same = units-qualified s dfu r in
    (
      ground arith,
      (
        (c, rw same at run, rw same at (fit_le q.1 qc c (ground arith))),
        All-Fits s dfu r q.1 rs fits,
      ),
    )

-- When the slots are counted, a count is selected of each resource of the slot's shape from the units of
-- its type that qualify, and that many units for each of the slots are no more than qualify.
pub cnt_slot-Fits :
    (s : String) (shape : List Resource) (dfu : ScoringApi) (q : ScoringApi × ℕ)
    → cnt_slot s shape dfu ≡ ok q
    → All (Fits s dfu q.1) shape
unfolding cnt_slot
cnt_slot-Fits s shape dfu q e = (cnt_slot_from-Fits s shape (u32 - 1) dfu q e).1
