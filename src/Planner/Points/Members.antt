-- ===== src/Planner/Points/Members.antt =====
-- Which points a list has, and what the scans of an ordered list say of them.
use resource_query.Prelude.{
  ℤ, ltb_ℤ, ◌≤ℤ◌, ◌<ℤ◌, ◌==ℤ◌, ==ℤ_iff, ◌+◌, pos_part, neg_part, eq_of_parts, List, [], ◌∷◌, All,
  true, false, ◌==◌, ==_iff, ◌||◌, Bool-cases, inl, inr, Option, none, some, ◌≡◌, ◌⊎◌, refl, ap,
  sym, ◌∙◌, arith,
}
use resource_query.Planner.Points.{Addr, Heap, without}
use resource_query.Planner.Points.Sorted.{elem, IsSorted, latest, find, insort}

le_of_eq : (a b : ℤ) → a ≡ b → a ≤ℤ b
le_of_eq a b e = rw e (omega arith)

pub All-elem {κ} :
    (P : Addr → Type κ) (ps : List Addr) (p : Addr) → All P ps → elem p ps ≡ true → P p
All-elem P [] p a e = cc
All-elem P (q ∷ qs) p a e = elim (Bool-cases (p == q)) [
  | inl same ↦ rw ((==_iff p q).0 same) a.0
  | inr other ↦ All-elem P qs p a.1 (rw other at e)
]

pub All-imp {κ μ} :
    (P : Addr → Type κ) (Q : Addr → Type μ) (ps : List Addr)
    → ((p : Addr) → elem p ps ≡ true → P p → Q p)
    → All P ps
    → All Q ps
All-imp P Q [] f a = tt
All-imp P Q (p ∷ ps) f a =
    (f p (ground arith) a.0, All-imp P Q ps (λ q e. f q (rw e (ground arith))) a.1)

-- A property of each entry.
pub All-of {κ} :
    (Q : Addr → Type κ) (ps : List Addr) → ((p : Addr) → elem p ps ≡ true → Q p) → All Q ps
All-of Q [] f = tt
All-of Q (p ∷ ps) f = (f p (ground arith), All-of Q ps (λ q e. f q (rw e (ground arith))))

pub All-without {κ} :
    (P : Addr → Type κ) (p : Addr) (ps : List Addr) → All P ps → All P (without p ps)
All-without P p [] a = tt
All-without P p (q ∷ qs) a = elim (Bool-cases (q == p)) [
  | inl same ↦ rw same a.1
  | inr other ↦ rw other (a.0, All-without P p qs a.1)
]

pub elem-without :
    (p q : Addr) (ps : List Addr) → (q == p) ≡ false → elem q (without p ps) ≡ elem q ps
elem-without p q [] n = refl
elem-without p q (x ∷ xs) n = ground (arith, elem-without p q xs n)

-- On an ordered list a point that is left after one is taken out is another one.
pub elem-without_apart :
    (heap : Heap) (p q : Addr) (ps : List Addr)
    → IsSorted heap ps
    → elem q (without p ps) ≡ true
    → (q == p) ≡ false
elem-without_apart heap p q [] s h = cc
elem-without_apart heap p q (x ∷ xs) s h = elim (Bool-cases (q == p)) [
  | inr other ↦ other
  | inl same ↦ elim (Bool-cases (x == p)) [
    | inl first ↦
        let later = All-elem (λ y. (heap x).at <ℤ (heap y).at) xs q s.0 (rw first at h) in
        absurd (not_later ((==_iff x p).0 first ∙ sym ((==_iff q p).0 same)) later)
    | inr next ↦ elem-without_apart heap p q xs s.1 (after next same h)
  ]
]
  where
    not_later : x ≡ q → (heap x).at <ℤ (heap q).at → ⊥
    not_later e h = go (rw e at h)
      where
        go : (heap q).at <ℤ (heap q).at → ⊥
        go h = omega arith

    after :
        (x == p) ≡ false
        → (q == p) ≡ true
        → elem q (without p (x ∷ xs)) ≡ true
        → elem q (without p xs) ≡ true
    after n e h = ground arith

module _ (heap : Heap) where
  pub elem-insort :
      (p q : Addr) (ps : List Addr) → elem q (insort heap p ps) ≡ (q == p || elem q ps)
  elem-insort p q [] = refl
  elem-insort p q (x ∷ xs) = ground (arith, elem-insort p q xs)

  pub without-IsSorted :
      (p : Addr) (ps : List Addr) → IsSorted heap ps → IsSorted heap (without p ps)
  without-IsSorted p [] s = tt
  without-IsSorted p (q ∷ qs) s = elim (Bool-cases (q == p)) [
    | inl same ↦ rw same s.1
    | inr other ↦
        rw other (All-without (λ x. (heap q).at <ℤ (heap x).at) p qs s.0, without-IsSorted p qs s.1)
  ]

  pub find-elem :
      (ps : List Addr) (p : Addr)
      → IsSorted heap ps
      → elem p ps ≡ true
      → find heap (heap p).at ps ≡ some p
  find-elem [] p s e = cc
  find-elem (q ∷ qs) p s e = elim (Bool-cases (p == q)) [
    | inl same ↦ rw ((==_iff p q).0 same) (ground arith)
    | inr other ↦
        let e' = rw other at e in
        let later = All-elem (λ x. (heap q).at <ℤ (heap x).at) qs p s.0 e' in
        ground (arith, find-elem qs p s.1 e')
  ]

  pub find-some :
      (t : ℤ) (ps : List Addr) (p : Addr)
      → find heap t ps ≡ some p
      → (elem p ps ≡ true) × ((heap p).at ≡ t)
  find-some t [] p h = cc
  find-some t (q ∷ qs) p h = elim (Bool-cases ((heap q).at ==ℤ t)) [
    | inl found ↦
        let same : q ≡ p = ground arith in
        rw (← same) (ground arith, (==ℤ_iff (heap q).at t).0 found)
    | inr more ↦ let (e, a) = find-some t qs p (rw more at h) in (rw e (ground arith), a)
  ]

  -- The scan for the latest point gives one that is not after `t`, and none lies between.
  pub latest_facts :
      (t : ℤ) (ps : List Addr) (last : Option Addr) (p : Addr)
      → IsSorted heap ps
      → latest heap t ps last ≡ some p
      → ((elem p ps ≡ true)
          × ((heap p).at ≤ℤ t)
          × All (λ q. ((heap q).at ≤ℤ (heap p).at) ⊎ (t <ℤ (heap q).at)) ps)
        ⊎ ((last ≡ some p) × All (λ q. t <ℤ (heap q).at) ps)
  latest_facts t [] last p s h = inr (h, tt)
  latest_facts t (q ∷ qs) last p s h = elim (Bool-cases (ltb_ℤ t (heap q).at)) [
    | inl beyond ↦ inr (
      rw beyond at h,
      (
        ground arith,
        All-imp (λ x. (heap q).at <ℤ (heap x).at) (λ x. t <ℤ (heap x).at) qs (λ x e a. ground arith)
            s.0,
      ),
    )
    | inr within ↦ elim (latest_facts t qs (some q) p s.1 (rw within at h)) [
      | inl (e, le, all) ↦
          let below = All-elem (λ x. (heap q).at <ℤ (heap x).at) qs p s.0 e in
          inl (rw e (ground arith), le, (inl (omega arith), all))
      | inr (here, all) ↦
          let same : q ≡ p = cc in
          let at_same : (heap q).at ≡ (heap p).at = ap (λ x. (heap x).at) same in
          inl (
            ground arith,
            ground arith,
            (
              inl (le_of_eq (heap q).at (heap p).at at_same),
              All-imp (λ x. t <ℤ (heap x).at)
                  (λ x. ((heap x).at ≤ℤ (heap p).at) ⊎ (t <ℤ (heap x).at)) qs (λ x e a. inr a) all,
            ),
          )
    ]
  ]

  -- From the first point's time on there is a latest point.
  pub latest-some :
      (t : ℤ) (q : Addr) (qs : List Addr) (last : Option Addr)
      → (heap q).at ≤ℤ t
      → (p : Addr) × (latest heap t (q ∷ qs) last ≡ some p)
  latest-some t q qs last h = rw (not_before h) (from qs q)
    where
      not_before : (heap q).at ≤ℤ t → ltb_ℤ t (heap q).at ≡ false
      not_before h = ground arith

      from : (xs : List Addr) (last : Addr) → (p : Addr) × (latest heap t xs (some last) ≡ some p)
      from [] last = (last, refl)
      from (x ∷ xs) last = elim (Bool-cases (ltb_ℤ t (heap x).at)) [
        | inl beyond ↦ rw beyond (last, refl)
        | inr within ↦ rw within (from xs x)
      ]

  pub latest_least :
      (t : ℤ) (ps : List Addr) (p : Addr)
      → elem p ps ≡ true
      → IsSorted heap ps
      → (heap p).at ≤ℤ t
      → (q : Addr) × (latest heap t ps none ≡ some q)
  latest_least t [] p e s h = cc
  latest_least t (q ∷ qs) p e s h = latest-some t q qs none (first (Bool-cases (p == q)))
    where
      first : ((p == q) ≡ true) ⊎ ((p == q) ≡ false) → (heap q).at ≤ℤ t
      first (inl same) = rw ((==_iff p q).0 same) at h
      first (inr other) =
          let later = All-elem (λ x. (heap q).at <ℤ (heap x).at) qs p s.0 (rw other at e) in
          omega arith

-- At its own time a point is the latest.
pub latest_self :
    (heap : Heap) (ps : List Addr) (p : Addr)
    → IsSorted heap ps
    → elem p ps ≡ true
    → latest heap (heap p).at ps none ≡ some p
latest_self heap ps p s e =
    let (q, found) = latest_least heap (heap p).at ps p e s (omega arith) in
    elim (latest_facts heap (heap p).at ps none q s found) [
      | inr (bad, _) ↦ absurd (cc)
      | inl (e', le, all) ↦
          let order =
            All-elem (λ x. ((heap x).at ≤ℤ (heap q).at) ⊎ ((heap p).at <ℤ (heap x).at)) ps p all
              e in
          let times : (heap q).at ≡ (heap p).at = eq_of_parts _ _ (both q le order) in
          found
          ∙ sym (find-elem heap ps q s e')
          ∙ ap (λ t. find heap t ps) times
          ∙ find-elem heap ps p s e
    ]
  where
    both :
        (q : Addr)
        → (heap q).at ≤ℤ (heap p).at
        → ((heap p).at ≤ℤ (heap q).at) ⊎ ((heap p).at <ℤ (heap p).at)
        → pos_part (heap q).at + neg_part (heap p).at ≡ pos_part (heap p).at + neg_part (heap q).at
    both q le (inl h) = omega arith
    both q le (inr h) = absurd (omega arith)
