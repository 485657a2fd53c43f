-- ===== src/Planner/Points/Sorted.antt =====
-- Lists of points in the order of their times, and what the descents of the tree find in them.
use resource_query.Prelude.{
  ℤ, ltb_ℤ, ◌≤ℤ◌, ◌<ℤ◌, ◌==ℤ◌, -ℤ_negative, -ℤ_positive, List, [], ◌∷◌, ◌++◌, All, Bool, true,
  false, ◌==◌, ◌||◌, Bool-cases, inl, inr, Option, none, some, if◌then◌else◌, ◌≡◌, refl, arith,
}
use resource_query.Planner.Points.{
  Addr, Heap, Tree, leaf, node, inorder, scheduled_point_search, recent_state, state_loop,
  scheduled_point_state,
}

abbrev pub elem : Addr → List Addr → Bool
elem p [] = false
elem p (q ∷ qs) = p == q || elem p qs

module _ (heap : Heap) where
  abbrev pub Before : ℤ → List Addr → Type 0
  Before t = All (λ q. (heap q).at <ℤ t)

  abbrev pub After : ℤ → List Addr → Type 0
  After t = All (λ q. t <ℤ (heap q).at)

  abbrev pub IsSorted : List Addr → Type 0
  IsSorted [] = Unit
  IsSorted (p ∷ ps) = After (heap p).at ps × IsSorted ps

  -- The last point whose time is not after `t`.
  abbrev pub latest : ℤ → List Addr → Option Addr → Option Addr
  latest t [] last = last
  latest t (p ∷ ps) last = if ltb_ℤ t (heap p).at then last else latest t ps (some p)

  -- The point at `t`.
  abbrev pub find : ℤ → List Addr → Option Addr
  find t [] = none
  find t (p ∷ ps) = if (heap p).at ==ℤ t then some p else find t ps

  -- A point put before the first later one.
  abbrev pub insort : Addr → List Addr → List Addr
  insort p [] = p ∷ []
  insort p (q ∷ qs) = if ltb_ℤ (heap p).at (heap q).at then p ∷ q ∷ qs else q ∷ insort p qs

  pub IsSorted-split :
      (xs : List Addr) (p : Addr) (ys : List Addr)
      → IsSorted (xs ++ p ∷ ys)
      → IsSorted xs × Before (heap p).at xs × After (heap p).at ys × IsSorted ys
  IsSorted-split [] p ys s = (tt, tt, s.0, s.1)
  IsSorted-split (x ∷ xs) p ys s =
      let (a, b, c, d) = IsSorted-split xs p ys s.1 in
      let (e, f) = split xs p ys s.0 in ((e, a), (f, b), c, d)
    where
      split :
          (xs : List Addr) (p : Addr) (ys : List Addr)
          → After (heap x).at (xs ++ p ∷ ys)
          → After (heap x).at xs × ((heap x).at <ℤ (heap p).at)
      split [] p ys h = (tt, h.0)
      split (x' ∷ xs) p ys h = let (e, f) = split xs p ys h.1 in ((h.0, e), f)

  latest_left :
      (t : ℤ) (xs : List Addr) (p : Addr) (ys : List Addr) (last : Option Addr)
      → ltb_ℤ t (heap p).at ≡ true
      → latest t (xs ++ p ∷ ys) last ≡ latest t xs last
  latest_left t [] p ys last h = rw h
  latest_left t (x ∷ xs) p ys last h = ground (arith, latest_left t xs p ys (some x))

  latest_right :
      (t : ℤ) (xs : List Addr) (p : Addr) (ys : List Addr) (last : Option Addr)
      → ltb_ℤ t (heap p).at ≡ false
      → Before (heap p).at xs
      → latest t (xs ++ p ∷ ys) last ≡ latest t ys (some p)
  latest_right t [] p ys last h b = rw h
  latest_right t (x ∷ xs) p ys last h b = ground (arith, latest_right t xs p ys (some x))

  abbrev pub Newer : Option Addr → List Addr → Type 0
  Newer none ps = Unit
  Newer (some q) ps = After (heap q).at ps

  recent_state-new :
      (p : Addr) (last : Option Addr) (xs ys : List Addr)
      → Newer last (xs ++ p ∷ ys)
      → recent_state heap p last ≡ p
  unfolding recent_state
  recent_state-new p none xs ys n = refl
  recent_state-new p (some q) [] ys n = ground (arith)
  recent_state-new p (some q) (x ∷ xs) ys n = recent_state-new p (some q) xs ys n.1

  Newer-left : (last : Option Addr) (xs ys : List Addr) → Newer last (xs ++ ys) → Newer last xs
  Newer-left none xs ys n = tt
  Newer-left (some q) [] ys n = tt
  Newer-left (some q) (x ∷ xs) ys n = (n.0, Newer-left (some q) xs ys n.1)

  latest_after :
      (t u : ℤ) (ys : List Addr) (last : Option Addr)
      → t ≤ℤ u
      → After u ys
      → latest t ys last ≡ last
  latest_after t u [] last h a = refl
  latest_after t u (y ∷ ys) last h a = ground arith

  pub find_after : (t u : ℤ) (ys : List Addr) → t ≤ℤ u → After u ys → find t ys ≡ none
  find_after t u [] h a = refl
  find_after t u (y ∷ ys) h a = ground (arith, find_after t u ys h a.1)

  state_loop-latest :
      (at : ℤ) (t : Tree Addr) (last : Option Addr)
      → IsSorted (inorder t)
      → Newer last (inorder t)
      → state_loop heap at t last ≡ latest at (inorder t) last
  unfolding state_loop
  state_loop-latest at leaf last s n = refl
  state_loop-latest at (node l p r) last s n =
      let (sl, below, above, sr) = IsSorted-split (inorder l) p (inorder r) s in
      rw (-ℤ_negative at (heap p).at, -ℤ_positive at (heap p).at)
        (elim (Bool-cases (ltb_ℤ at (heap p).at)) [
          | inl left ↦
              rw (left, latest_left at (inorder l) p (inorder r) last left)
                (state_loop-latest at l last sl (Newer-left last (inorder l) (p ∷ inorder r) n))
          | inr right ↦
              rw
                (
                  right,
                  latest_right at (inorder l) p (inorder r) last right below,
                  recent_state-new p last (inorder l) (inorder r) n,
                )
                (elim (Bool-cases (ltb_ℤ (heap p).at at)) [
                  | inl more ↦ rw more (state_loop-latest at r (some p) sr above)
                  | inr equal ↦
                      rw (
                        equal,
                        latest_after at (heap p).at (inorder r) (some p) (ground arith) above,
                      )
                ])
        ])

  -- The descent finds the state that a scan of the points in order finds.
  pub scheduled_point_state-latest :
      (at : ℤ) (t : Tree Addr)
      → IsSorted (inorder t)
      → scheduled_point_state heap at t ≡ latest at (inorder t) none
  unfolding scheduled_point_state
  scheduled_point_state-latest at t s = state_loop-latest at t none s tt

  pub find_left :
      (t : ℤ) (xs : List Addr) (p : Addr) (ys : List Addr)
      → t <ℤ (heap p).at
      → After (heap p).at ys
      → find t (xs ++ p ∷ ys) ≡ find t xs
  find_left t [] p ys h a = rw (find_after t (heap p).at ys (ground arith) a) (ground arith)
  find_left t (x ∷ xs) p ys h a = ground (arith, find_left t xs p ys h a)

  pub find_right :
      (t : ℤ) (xs : List Addr) (p : Addr) (ys : List Addr)
      → (heap p).at ≤ℤ t
      → Before (heap p).at xs
      → find t (xs ++ p ∷ ys) ≡ find t (p ∷ ys)
  find_right t [] p ys h b = refl
  find_right t (x ∷ xs) p ys h b = ground (arith, find_right t xs p ys h b.1)

  -- So does the search for one time.
  pub scheduled_point_search-find :
      (t : ℤ) (tree : Tree Addr)
      → IsSorted (inorder tree)
      → scheduled_point_search heap t tree ≡ find t (inorder tree)
  unfolding scheduled_point_search
  scheduled_point_search-find t leaf s = refl
  scheduled_point_search-find t (node l p r) s =
      let (sl, below, above, sr) = IsSorted-split (inorder l) p (inorder r) s in
      rw (-ℤ_negative t (heap p).at, -ℤ_positive t (heap p).at)
        (elim (Bool-cases (ltb_ℤ t (heap p).at)) [
          | inl left ↦
              rw (left, find_left t (inorder l) p (inorder r) (ground arith) above)
                (scheduled_point_search-find t l sl)
          | inr right ↦
              rw (right, find_right t (inorder l) p (inorder r) (ground arith) below)
                (ground (arith, scheduled_point_search-find t r sr))
        ])
