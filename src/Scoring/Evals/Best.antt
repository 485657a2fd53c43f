-- ===== src/Scoring/Evals/Best.antt =====
-- Which groups `choose_best_k` selects.
use mathlib.Core.List.{Perm}
use mathlib.Core.List.Perm
use resource_query.Prelude.{
  ℕ, zero, suc, ◌<◌, ℤ, negsuc, ltb_ℤ, ◌↔◌, ◌⊎◌, ◌≢◌, ◌≡◌, List, [], ◌∷◌, map, Bool, true, false,
  ltb, ◌==◌, ◌||◌, arith, All, take, drop, Bool-cases, inl, inr, sub32,
}
use resource_query.Run.{ok, >>=-eq-ok}
use resource_query.Scoring.Evals.{
  EvalEgroup, Evals, insert_sorted, sort, is_positive, assign_needs, choose_best_k,
}

-- What `std::sort` asks of its order.
pub record StrictWeak (before : ℤ → ℤ → Bool) : Type 0 where
  pub asymm : (a b : ℤ) → before a b ≡ true → before b a ≡ false
  pub trans : (a b c : ℤ) → before b a ≡ false → before c b ≡ false → before c a ≡ false

abbrev pub by_score : (ℤ → ℤ → Bool) → EvalEgroup → EvalEgroup → Bool
by_score before a b = before a.score b.score

-- Nothing that comes later in the list belongs before something that comes earlier.
abbrev pub InOrder : (ℤ → ℤ → Bool) → List EvalEgroup → Type 0
InOrder before [] = Unit
InOrder before (g ∷ gs) =
    All (λ (h : EvalEgroup). before h.score g.score ≡ false) gs × InOrder before gs

-- Every selected group is at least as good as every one that is left.
abbrev pub BestFirst : (ℤ → ℤ → Bool) → ℕ → List EvalEgroup → Type 0
BestFirst before n gs =
    All (λ (g : EvalEgroup). All (λ (h : EvalEgroup). before h.score g.score ≡ false) (drop n gs))
      (take n gs)

-- A group without its needs.
abbrev pub strip : EvalEgroup → EvalEgroup
strip g = record g { needs = 0 }

module _ (comp : EvalEgroup → EvalEgroup → Bool) where
  insert_sorted-perm :
      (x : EvalEgroup) (ys : List EvalEgroup) → Perm (insert_sorted comp x ys) (x ∷ ys)
  unfolding insert_sorted
  insert_sorted-perm x [] = Perm.refl (x ∷ [])
  insert_sorted-perm x (y ∷ ys) = elim (Bool-cases (comp y x)) [
    | inl e ↦ rw e (Perm.trans (Perm.cons y (insert_sorted-perm x ys)) (Perm.swap x y ys))
    | inr e ↦ rw e (Perm.refl (x ∷ y ∷ ys))
  ]

  pub sort-perm : (xs : List EvalEgroup) → Perm (sort comp xs) xs
  unfolding sort
  sort-perm [] = Perm.refl []
  sort-perm (x ∷ xs) = Perm.trans (insert_sorted-perm x (sort comp xs)) (Perm.cons x (sort-perm xs))

  All-insert_sorted {κ} :
      (P : EvalEgroup → Type κ) (x : EvalEgroup) (ys : List EvalEgroup)
      → P x
      → All P ys
      → All P (insert_sorted comp x ys)
  unfolding insert_sorted
  All-insert_sorted P x [] p h = (p, tt)
  All-insert_sorted P x (y ∷ ys) p h = elim (Bool-cases (comp y x)) [
    | inl e ↦ rw e (h.0, All-insert_sorted P x ys p h.1)
    | inr e ↦ rw e (p, h)
  ]

All-imp {ℓ κ} :
    {A : Type ℓ} (P Q : A → Type κ) → ((a : A) → P a → Q a) → (xs : List A) → All P xs → All Q xs
All-imp P Q f [] h = tt
All-imp P Q f (x ∷ xs) h = (f x h.0, All-imp P Q f xs h.1)

module _ (before : ℤ → ℤ → Bool) (order : StrictWeak before) where
  insert_sorted-InOrder :
      (x : EvalEgroup) (ys : List EvalEgroup)
      → InOrder before ys
      → InOrder before (insert_sorted (by_score before) x ys)
  unfolding insert_sorted
  insert_sorted-InOrder x [] h = (tt, tt)
  insert_sorted-InOrder x (y ∷ ys) h = elim (Bool-cases (before y.score x.score)) [
    | inl e ↦ rw e (
      All-insert_sorted (by_score before) _ x ys (order.asymm y.score x.score e) h.0,
      insert_sorted-InOrder x ys h.1,
    )
    | inr e ↦ rw e (
      (
        e,
        All-imp (λ (g : EvalEgroup). before g.score y.score ≡ false) _
            (λ g. order.trans x.score y.score g.score e) ys h.0,
      ),
      h,
    )
  ]

  pub sort-InOrder : (xs : List EvalEgroup) → InOrder before (sort (by_score before) xs)
  unfolding sort
  sort-InOrder [] = tt
  sort-InOrder (x ∷ xs) = insert_sorted-InOrder x (sort (by_score before) xs) (sort-InOrder xs)

-- The loop of `choose_best_k` changes nothing but the needs.
assign_needs-strip :
    (left : ℕ) (gs : List EvalEgroup) (r : List EvalEgroup × ℕ)
    → assign_needs left gs ≡ ok r
    → map strip r.0 ≡ map strip gs
unfolding assign_needs
assign_needs-strip left [] r h = ground arith
assign_needs-strip left (g ∷ gs) r h = elim (Bool-cases (is_positive left)) [
  | inr e ↦ ground arith
  | inl e ↦
      let h' = rw (e, assign_needs) at h in
      let (q, run, out) = >>=-eq-ok (assign_needs (sub32 left g.count) gs) _ h' in
      ground (arith, assign_needs-strip (sub32 left g.count) gs q run)
]

-- The order looks at the scores only, which `strip` keeps.
All-strip :
    (before : ℤ → ℤ → Bool) (s : ℤ) (gs : List EvalEgroup)
    → All (λ (h : EvalEgroup). before h.score s ≡ false) (map strip gs)
      ↔ All (λ (h : EvalEgroup). before h.score s ≡ false) gs
All-strip before s [] = (λ h. h, λ h. h)
All-strip before s (g ∷ gs) =
    (λ h. (h.0, (All-strip before s gs).0 h.1), λ h. (h.0, (All-strip before s gs).1 h.1))

InOrder-strip :
    (before : ℤ → ℤ → Bool) (gs : List EvalEgroup)
    → InOrder before (map strip gs) ↔ InOrder before gs
InOrder-strip before [] = (λ h. h, λ h. h)
InOrder-strip before (g ∷ gs) = (
  λ h. ((All-strip before g.score gs).0 h.0, (InOrder-strip before gs).0 h.1),
  λ h. ((All-strip before g.score gs).1 h.0, (InOrder-strip before gs).1 h.1),
)

All-drop {ℓ κ} : {A : Type ℓ} (P : A → Type κ) (n : ℕ) (xs : List A) → All P xs → All P (drop n xs)
All-drop P zero xs h = h
All-drop P (suc n) [] h = h
All-drop P (suc n) (x ∷ xs) h = All-drop P n xs h.1

InOrder-BestFirst :
    (before : ℤ → ℤ → Bool) (n : ℕ) (gs : List EvalEgroup)
    → InOrder before gs
    → BestFirst before n gs
InOrder-BestFirst before zero gs h = tt
InOrder-BestFirst before (suc n) [] h = tt
InOrder-BestFirst before (suc n) (g ∷ gs) h = (
  All-drop (λ (h' : EvalEgroup). before h'.score g.score ≡ false) n gs h.0,
  InOrder-BestFirst before n gs h.1,
)

-- A choice that succeeds leaves the groups that it found, in another order and with other needs,
-- and each of those that it selects scores at least as well, by the order given, as each of those
-- that it leaves.
pub choose_best_k-BestFirst :
    (before : ℤ → ℤ → Bool) (e : Evals) (k : ℕ) (r : Evals × ℤ)
    → StrictWeak before
    → choose_best_k e k (by_score before) ≡ ok r
    → r.1 ≢ negsuc 0
    → Perm (map strip r.0.egroups) (map strip e.egroups)
      × InOrder before r.0.egroups
      × BestFirst before r.0.best_i r.0.egroups
unfolding choose_best_k
choose_best_k-BestFirst before e k r order h good =
    elim (Bool-cases (k == 0 || ltb e.qual_count k)) [
      | inl t ↦ absurd (good (ground arith))
      | inr t ↦
          let h' = rw (t, choose_best_k) at h in
          let (q, run, out) = >>=-eq-ok (assign_needs k (sort (by_score before) e.egroups)) _ h' in
          let same : map strip r.0.egroups ≡ map strip (sort (by_score before) e.egroups) =
            ground (arith, assign_needs-strip k (sort (by_score before) e.egroups) q run) in
          let sorted : InOrder before r.0.egroups =
            (InOrder-strip before r.0.egroups).0
              (rw same ((InOrder-strip before _).1 (sort-InOrder before order e.egroups))) in
          (
            rw same (Perm.map strip (sort-perm (by_score before) e.egroups)),
            sorted,
            InOrder-BestFirst before r.0.best_i r.0.egroups sorted,
          )
    ]

-- A choice of no unit, or of more than qualify, fails and changes nothing.
pub choose_best_k-refuses :
    (e : Evals) (k : ℕ) (comp : EvalEgroup → EvalEgroup → Bool)
    → (k ≡ 0) ⊎ (e.qual_count < k)
    → choose_best_k e k comp ≡ ok (e, negsuc 0)
unfolding choose_best_k
choose_best_k-refuses e k comp h = ground arith

pub greater-StrictWeak : StrictWeak (λ a b. ltb_ℤ b a)
greater-StrictWeak = record { asymm = λ a b h. ground arith; trans = λ a b c h k. ground arith }

pub less-StrictWeak : StrictWeak ltb_ℤ
less-StrictWeak = record { asymm = λ a b h. ground arith; trans = λ a b c h k. ground arith }
