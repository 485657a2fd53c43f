-- ===== src/Traverse/Prime/Total.antt =====
-- Priming ends: every visit paints a vertex that was white.
use resource_query.Prelude.{
  ℕ, zero, suc, ◌+◌, ◌≤◌, ◌<◌, ℤ, pos, ◌==ℤ◌, ◌≡◌, refl, ◌∙◌, String, List, [], ◌∷◌, Bool, true,
  false, ◌||◌, not, Option, none, some, Dict, insert, string_key, ◌==◌, if◌then◌else◌,
  lookup-insert, beq_refl, arith, Bool-cases, inl, inr,
}
use resource_query.Run.{Returns}
use resource_query.ResourceData.Color
use resource_query.Traverse.State.{
  Env, Store, Walk, set_vtx, map_idata, set_errno, paint, color_of, in_subsystem, stop_explore,
}
use resource_query.Traverse.Runs.{
  Preorder, Runs, Runs-pure, Runs-get, Runs-modify, Runs->>=, Runs-if, Runs-Option, Ensures,
  Ensures-pure, Ensures-get->>=, Ensures-modify->>=, Ensures->>=, Ensures-if, Ensures-Runs,
  Ensures-weaken, Ensures-Returns,
}
use resource_query.Traverse.Prime.{prime_exp, plan_subtree, prime}

-- The vertex has been visited or is being visited.
abbrev pub is_painted : {P : Type 0} → Store P → String → ℕ → Bool
is_painted s name u =
    let c = color_of s u name in c == Color.gray s.color_base || c == Color.black s.color_base

-- The vertices below `n` that have not been visited.
unfoldable pub white_below : {P : Type 0} → Store P → String → ℕ → ℕ
white_below s name zero = 0
white_below s name (suc n) = (if is_painted s name n then 0 else 1) + white_below s name n

module _ {P : Type 0} (name : String) where
  -- Paint stays, and the colours mean the same.
  pub record Darkens (s t : Store P) : Type 0 where
    pub same_base : t.color_base ≡ s.color_base
    pub stays : (v : ℕ) → is_painted s name v ≡ true → is_painted t name v ≡ true

  pub Darkens-Preorder : Preorder Darkens
  Darkens-Preorder = record {
    reflexive = λ s. record { same_base = refl; stays = λ v h. h };
    transitive = λ s t u f g. record {
      same_base = g.same_base ∙ f.same_base;
      stays = λ v h. g.stays v (f.stays v h);
    };
  }

  white_below-le :
      (s t : Store P) (n : ℕ) → Darkens s t → white_below t name n ≤ white_below s name n
  unfolding white_below
  white_below-le s t zero f = omega arith
  white_below-le s t (suc n) f = ground (arith, white_below-le s t n f, f.stays n)

  white_below-lt :
      (s t : Store P) (u n : ℕ)
      → Darkens s t
      → u < n
      → is_painted s name u ≡ false
      → is_painted t name u ≡ true
      → white_below t name n < white_below s name n
  unfolding white_below
  white_below-lt s t u zero f h a b = absurd (omega arith)
  white_below-lt s t u (suc n) f h a b = elim (Bool-cases (n == u)) [
    | inl e ↦ let here : n ≡ u = ground arith in ground (arith, white_below-le s t n f, at here)
    | inr e ↦ ground (arith, white_below-lt s t u n f, f.stays n)
  ]
    where
      at : n ≡ u → (is_painted s name n ≡ false) × (is_painted t name n ≡ true)
      at e = (rw e a, rw e b)

  -- The paints of a walk.
  color_of-paint :
      (u c v : ℕ) (s : Store P)
      → color_of (paint u name c s) v name ≡ (if v == u then c else color_of s v name)
  unfolding paint set_vtx color_of
  color_of-paint u c v s = elim (Bool-cases (v == u)) [
    | inl e ↦ rw (color_of, e, lookup-insert name name c (s.vtx v).idata.colors, beq_refl name) refl
    | inr e ↦ rw (color_of, e) refl
  ]

  paint-painted :
      (u c : ℕ) (s : Store P)
      → ((c == Color.gray s.color_base) || (c == Color.black s.color_base)) ≡ true
      → is_painted (paint u name c s) name u ≡ true
  unfolding paint set_vtx
  paint-painted u c s h = ground (arith, color_of-paint u c u s)

  paint-Darkens :
      (u c : ℕ) (s : Store P)
      → ((c == Color.gray s.color_base) || (c == Color.black s.color_base)) ≡ true
      → Darkens s (paint u name c s)
  unfolding paint set_vtx
  paint-Darkens u c s h = record {
    same_base = refl;
    stays = λ v k. ground (arith, color_of-paint u c v s);
  }

  same_colors : (s t : Store P) → t.vtx ≡ s.vtx → t.color_base ≡ s.color_base → Darkens s t
  unfolding color_of
  same_colors s t a b = record { same_base = b; stays = λ v h. rw (a, b) h }

  set_errno-Darkens : (e : Option ℕ) (s : Store P) → Darkens s (set_errno e s)
  set_errno-Darkens none s = Darkens-Preorder.reflexive s
  set_errno-Darkens (some e) s = same_colors s _ refl refl

  subplan-Darkens :
      (u : ℕ) (key : String) (q : Option P) (s : Store P)
      → Darkens s (set_vtx u (map_idata (λ i. record i { subplans = insert key q i.subplans })) s)
  unfolding set_vtx color_of
  subplan-Darkens u key q s = record {
    same_base = refl;
    stays = λ v h. elim (Bool-cases (v == u)) [
      | inl e ↦ rw (color_of, e) h
      | inr e ↦ rw (color_of, e) h
    ];
  }

module _ (env : Env) (name : String) where
  abbrev order : Preorder (Darkens {P = env.planner.Plan} name)
  order = Darkens-Preorder name

  plan_subtree-Runs :
      (u : ℕ) (dfv : Dict String ℕ) → Runs (Darkens name) (plan_subtree env name u dfv)
  unfolding plan_subtree
  plan_subtree-Runs u dfv = Runs-if order _ (Runs-pure order _) (
      Runs-if order _
        (Runs->>= order (Runs-modify order λ s. same_colors name s _ refl refl)
          λ _. Runs-pure order _)
        (Runs->>= order (Runs-get order) λ st.
          Runs->>= order (Runs-modify order λ s. set_errno-Darkens name _ s) λ _.
            Runs-Option order _
              (Runs->>= order (Runs-modify order λ s. same_colors name s _ refl refl)
                λ _. Runs-pure order _)
              λ q.
                Runs->>= order (Runs-modify order λ s. subplan-Darkens name u name (some q) s)
                  λ _. Runs-pure order _))

  module _ (n fuel : ℕ) (visit : ℕ → Dict String ℕ → Walk env (ℤ × Dict String ℕ)) where
    abbrev VisitEnds : Type 0
    VisitEnds =
        (v : ℕ) (dfv : Dict String ℕ) (s : Store env.planner.Plan)
        → v < n
        → is_painted s name v ≡ false
        → white_below s name n < fuel
        → Ensures (visit v dfv) s (λ _ t. Darkens name s t)

    prime_exp-Ends :
        VisitEnds
        → ((e : ℕ) → env.target e < n)
        → (es : List ℕ) (dfv : Dict String ℕ) (s : Store env.planner.Plan)
        → white_below s name n < fuel
        → Ensures (prime_exp env visit name es dfv) s (λ _ t. Darkens name s t)
    unfolding prime_exp stop_explore
    prime_exp-Ends ends inside [] dfv s h = Ensures-pure _ s (order.reflexive s)
    prime_exp-Ends ends inside (e ∷ es) dfv s h = Ensures-get->>= _ (
        Ensures-if (not (in_subsystem s e name) || is_painted s name (env.target e))
          (λ _. prime_exp-Ends ends inside es dfv s h)
          (λ follow.
            Ensures->>= (ends (env.target e) dfv s (inside e) (ground arith) h) λ (rc, dfv') t f.
              Ensures-if (rc ==ℤ pos 0)
                (λ _.
                  Ensures-weaken (λ _ t'. order.transitive s t t' f)
                    (prime_exp-Ends ends inside es dfv' t
                      (omega (arith, white_below-le name s t n f))))
                (λ _. Ensures-pure _ t f)))

  prime-Ends :
      (n fuel u : ℕ) (to_parent : Dict String ℕ) (s : Store env.planner.Plan)
      → ((e : ℕ) → env.target e < n)
      → u < n
      → is_painted s name u ≡ false
      → white_below s name n < fuel
      → Ensures
          (prime env fuel name u to_parent)
          s
          (λ _ t. Darkens name s t × (is_painted t name u ≡ true))
  unfolding prime
  prime-Ends n zero u to_parent s inside b w h = absurd (omega arith)
  prime-Ends n (suc fuel) u to_parent s inside b w h =
      let s₁ = paint u name (Color.gray s.color_base) s in
      let f₁ = paint-Darkens name u (Color.gray s.color_base) s (ground arith) in
      let p₁ = paint-painted name u (Color.gray s.color_base) s (ground arith) in
      Ensures-get->>= _ (
        Ensures-modify->>= _ _ (
          Ensures->>=
            (prime_exp-Ends n fuel (prime env fuel name)
              (λ v dfv t v< w' h'.
                Ensures-weaken (λ _ _ p. p.0) (prime-Ends n fuel v dfv t inside v< w' h'))
              inside (env.out_edges u) [] s₁
              (omega (arith, white_below-lt name s s₁ u n f₁ b w p₁)))
            λ (rc, dfv) s₂ f₂.
              Ensures->>=
                (Ensures-Runs
                  (Runs-if order (rc ==ℤ pos 0)
                    (Runs->>= order (plan_subtree-Runs u dfv) λ _. Runs-pure order _)
                    (Runs-pure order _))
                  s₂)
                λ (rc', total) s₃ f₃.
                  let s₄ = paint u name (Color.black s₃.color_base) s₃ in
                  let f₄ = paint-Darkens name u (Color.black s₃.color_base) s₃ (ground arith) in
                  let p₄ = paint-painted name u (Color.black s₃.color_base) s₃ (ground arith) in
                  Ensures-modify->>= _ _ (
                    Ensures-pure _ s₄ (
                      order.transitive s s₃ s₄
                          (order.transitive s s₂ s₃ (order.transitive s s₁ s₂ f₁ f₂) f₃) f₄,
                      p₄,
                    ))))

  -- On a graph whose vertices are the numbers below `n`, priming from a vertex that was not visited,
  -- with more fuel than there are such vertices, ends without a fault, also on a graph with cycles and
  -- whatever the planner answers. The vertex is painted then, and no painted vertex has lost its paint.
  pub prime-Darkens :
      (n fuel u : ℕ) (to_parent : Dict String ℕ) (s : Store env.planner.Plan)
      → ((e : ℕ) → env.target e < n)
      → u < n
      → is_painted s name u ≡ false
      → white_below s name n < fuel
      → Returns
          (prime env fuel name u to_parent s)
          (λ r. Darkens name s r.1 × (is_painted r.1 name u ≡ true))
  prime-Darkens n fuel u to_parent s inside b w h =
      Ensures-Returns (prime-Ends n fuel u to_parent s inside b w h)
