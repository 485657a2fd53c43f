-- ===== src/Policy/Graph.antt =====
-- What it takes for `dom_finish_graph` to accept a request.
use resource_query.Prelude.{
  ℕ, ◌≤◌, ◌<◌, ℤ, pos, negsuc, ◌==ℤ◌, ◌≡◌, refl, sym, ◌∙◌, ap, String, List, [], ◌∷◌, Bool, true,
  false, not, ◌&&◌, ◌||◌, ◌==◌, ltb, ◌=?◌, string_key, if◌then◌else◌, All, arith, Bool-cases, inl,
  inr,
}
use text.Mathlib.TextEquality.{eq_iff}
use resource_query.Run.{ok, >>=-eq-ok}
use resource_query.Jobspec.{Resource, attrs}
use resource_query.Matcher.SelectCount.{select_count}
use resource_query.Matcher.SelectCount.Progression.{select_count-le}
use resource_query.Scoring.Evals.{
  EvalEgroup, Evals, plus, sort, assign_needs, choose_best_k, accum_best_k,
}
use resource_query.Scoring.Api.{
  ScoringApi, evals_of, put_evals, reach, handle_new_keys, qualified_count, choose_accum,
  choose_accum_best_k, transform,
}
use resource_query.Scoring.Api.Keyed.{evals_of-keys, evals_of-put}
use resource_query.Policy.{
  Policy, high_first, low_first, greater_interval_first, IntervalSet, is_met, verdict, prefer,
  choose_each, dom_finish_graph,
}

-- The units of the resource's type that qualify.
abbrev pub qualifying : String → ScoringApi → Resource → ℕ
qualifying s dfu r = (evals_of dfu s (attrs r).type).qual_count

-- Some units of the resource are selected, and no more than qualify or than its maximum.
abbrev pub Selected : String → ScoringApi → Resource → Type 0
Selected s dfu r =
    (c : ℕ) × (select_count r (qualifying s dfu r) ≡ ok c)
    × (0 < c)
    × (c ≤ qualifying s dfu r)
    × (c ≤ (attrs r).count.max)

choose_best_k-count :
    (e : Evals) (k : ℕ) (comp : EvalEgroup → EvalEgroup → Bool) (q : Evals × ℤ)
    → choose_best_k e k comp ≡ ok q
    → q.0.qual_count ≡ e.qual_count
unfolding choose_best_k
choose_best_k-count e k comp q h = elim (Bool-cases (k == 0 || ltb e.qual_count k)) [
  | inl t ↦ let h' = rw (t, choose_best_k) at h in ground (arith, h')
  | inr t ↦
      let h' = rw (t, choose_best_k) at h in
      let (r, run, out) = >>=-eq-ok (assign_needs k (sort comp e.egroups)) _ h' in
      ground (arith, out)
]

ok-inj {ℓ} : {A : Type ℓ} {a b : A} → ok a ≡ ok b → a ≡ b
ok-inj h = cc

-- Writing evaluations with the same count changes no count.
put-count :
    (a : ScoringApi) (s t : String) (e : Evals) (r : Resource)
    → e.qual_count ≡ (evals_of a s t).qual_count
    → qualifying s (put_evals a s t e) r ≡ qualifying s a r
put-count a s t e r h =
    ap (λ e. e.qual_count) (evals_of-put a s s t (attrs r).type e) ∙ same (attrs r).type
  where
    same :
        (p : String)
        → (if s =? s && t =? p then e else evals_of a s p).qual_count ≡ (evals_of a s p).qual_count
    same p = elim (Bool-cases (t =? p)) [
      | inl b ↦
          let h' : e.qual_count ≡ (evals_of a s p).qual_count = rw ((eq_iff t p).0 b) at h in
          ground (arith, h')
      | inr b ↦ ground arith
    ]

reach-count :
    (a : ScoringApi) (s t : String) (r : Resource)
    → qualifying s (reach a s t).0 r ≡ qualifying s a r
unfolding reach
reach-count a s t r = ap (λ e. e.qual_count) (evals_of-keys a s t s (attrs r).type)

choose-count :
    (a : ScoringApi) (s t : String) (k : ℕ) (comp : EvalEgroup → EvalEgroup → Bool)
    (q : ScoringApi × ℤ) (r : Resource)
    → choose_accum_best_k a s t k comp plus ≡ ok q
    → qualifying s q.0 r ≡ qualifying s a r
unfolding choose_accum_best_k choose_accum reach
choose-count a s t k comp q r h =
    let b = handle_new_keys a s t in
    let e = evals_of b s t in
    let (c, run, rest) = >>=-eq-ok (choose_best_k e k comp) _ h in
    let kept =
      put-count b s t c.0 r (choose_best_k-count e k comp c run)
      ∙ ap (λ e. e.qual_count) (evals_of-keys a s t s (attrs r).type) in
    elim (Bool-cases (not (c.1 ==ℤ negsuc 0))) [
      | inl good ↦
          let (rc, run', out) = >>=-eq-ok (accum_best_k c.0 plus) _ (rw good at rest) in
          sym (ap (λ (x : ScoringApi × ℤ). qualifying s x.0 r) (ok-inj out)) ∙ kept
      | inr bad ↦
          let out = rw bad at rest in
          sym (ap (λ (x : ScoringApi × ℤ). qualifying s x.0 r) (ok-inj out)) ∙ kept
    ]

positive : (n : ℕ) → (n == 0) ≡ false → 0 < n
positive n h = ground arith

module _ (icl : IntervalSet) where
  prefer-count :
      (policy : Policy) (v : icl.Ivset) (dfu : ScoringApi) (s t : String) (r : Resource)
      → qualifying s (prefer icl policy v dfu s t).1 r ≡ qualifying s dfu r
  unfolding prefer transform
  prefer-count high_first v dfu s t r = refl
  prefer-count low_first v dfu s t r = refl
  prefer-count greater_interval_first v dfu s t r = reach-count dfu s t r

  Selected-map :
      (s : String) (a b : ScoringApi) (rs : List Resource)
      → ((r : Resource) → qualifying s a r ≡ qualifying s b r)
      → All (Selected s a) rs
      → All (Selected s b) rs
  Selected-map s a b [] same all = all
  Selected-map s a b (r ∷ rs) same (one, rest) =
      (rw (same r) at one, Selected-map s a b rs same rest)

  verdict-is_met : (score : ℤ) → verdict icl score ≡ pos 0 → is_met score ≡ true
  verdict-is_met score h = elim (Bool-cases (is_met score)) [
    | inl met ↦ met
    | inr unmet ↦
        let off : negsuc 0 ≡ pos 0 = rw unmet at h in
        let wrong : true ≡ false = ap (λ x. x ==ℤ negsuc 0) off in cc
  ]

  choose_each-Selected :
      (policy : Policy) (v : icl.Ivset) (s : String) (rs : List Resource) (dfu : ScoringApi)
      (c : icl.Ivset × ScoringApi × ℤ)
      → choose_each icl policy v s rs dfu ≡ ok c
      → is_met c.2 ≡ true
      → All (Selected s dfu) rs
  unfolding choose_each qualified_count
  choose_each-Selected policy v s [] dfu c h met = tt
  choose_each-Selected policy v s (r ∷ rs) dfu c h met =
      let t = (attrs r).type in
      let dfu₁ = (reach dfu s t).0 in
      let (count, run, rest) = >>=-eq-ok (select_count r (qualified_count dfu s t).1) _ h in
      let run' : select_count r (qualifying s dfu r) ≡ ok count =
        sym (ap (select_count r) (reach-count dfu s t r)) ∙ run in
      elim (Bool-cases (count == 0)) as (λ _. All (Selected s dfu) (r ∷ rs)) [
        | inl none ↦
            let off : false ≡ true =
              ap (λ (x : icl.Ivset × ScoringApi × ℤ). is_met x.2) (ok-inj (rw none at rest))
              ∙ met in
            cc
        | inr some ↦
            let (d, choice, others) = >>=-eq-ok _ _ (rw some at rest) in
            let p = prefer icl policy v dfu₁ s t in
            let (few, bounded) = select_count-le r (qualifying s dfu r) count run' in
            let all = choose_each-Selected policy p.0 s rs d.0 c others met in
            (
              (count, run', positive count some, few, bounded),
              Selected-map s d.0 dfu rs
                  (λ r'.
                    choose-count p.1 s t count p.2 d r' choice
                    ∙ prefer-count policy v dfu₁ s t r'
                    ∙ reach-count dfu s t r')
                  all,
            )
      ]

  -- Whatever the policy, `dom_finish_graph` returns 0 only if for every resource asked for at the
  -- top level `select_count` gives a positive count that is at most the number of qualified units
  -- of its type and at most the maximum of its range.
  pub dom_finish_graph-Selected :
      (policy : Policy) (s : String) (rs : List Resource) (dfu dfu' : ScoringApi)
      → dom_finish_graph icl policy s rs dfu ≡ ok (dfu', pos 0)
      → All (Selected s dfu) rs
  unfolding dom_finish_graph
  dom_finish_graph-Selected policy s rs dfu dfu' h =
      let (c, run, out) = >>=-eq-ok (choose_each icl policy icl.empty s rs dfu) _ h in
      choose_each-Selected policy icl.empty s rs dfu c run
        (verdict-is_met c.2 (ap (λ (x : ScoringApi × ℤ). x.1) (ok-inj out)))
