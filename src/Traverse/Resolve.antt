-- ===== src/Traverse/Resolve.antt =====
-- `enforce` and the two functions `resolve`: the selection is written to the graph's edges.
use resource_query.Prelude.{
  ℕ, zero, suc, ◌+◌, ℤ, pos, negsuc, ◌+ℤ◌, ltb_ℤ, ◌==ℤ◌, String, List, [], ◌∷◌, Option, none, some,
  string_key, ◌==◌, ◌=?◌, if◌then◌else◌,
}
use resource_query.Run
use resource_query.Run.{Run, ok, fault, null_access}
use resource_query.Jobspec.{Resource, attrs}
use resource_query.Matcher.SelectCount.{select_count}
use resource_query.ResourceData.{ResourceRelation}
use resource_query.Scoring.Evals.{EvalEdg, greater, plus}
use resource_query.Scoring.Api
use resource_query.Scoring.Api.{ScoringApi}
use resource_query.Policy.{dom_finish_graph, match_unmet}
use resource_query.Traverse.State.{Env, ◌>>=◌, ◌>>◌, pure, run, get, modify, Walk, dom, set_edg}

abbrev pub erange : ℕ
erange = 34

-- The three assignments of the innermost loop.
abbrev pub select_edge : EvalEdg → ℕ → ResourceRelation → ResourceRelation
select_edge e k r = record r {
  idata = record (r.idata) { needs = e.needs; best_k_cnt = k; exclusive = e.exclusive };
}

module _ (env : Env) where
  -- The root's evaluation has no edge, and `enforce` does not come to it.
  unfoldable pub enforce_edges : List EvalEdg → Walk env (Unit {0})
  unfolding set_edg
  enforce_edges [] = pure tt
  enforce_edges (e ∷ es) = do
    elim e.edge [
      | none ↦ run (fault null_access)
      | some d ↦ modify (λ s. set_edg d (select_edge e s.best_k_cnt) s)
    ]
    enforce_edges es

  -- The loop over `i`, from `i` on for the rounds left; `none` if `at` throws.
  unfoldable pub enforce_groups :
      String → String → ℕ → ℕ → ScoringApi → Walk env (Option ScoringApi)
  unfolding enforce_edges
  enforce_groups s t zero i dfu = pure (some dfu)
  enforce_groups s t (suc n) i dfu =
      let (dfu', g?) = Api.at dfu s t i in
      elim g? [
        | none ↦ pure none
        | some g ↦
            if g.root
            then enforce_groups s t n (i + 1) dfu'
            else (do enforce_edges g.edges; enforce_groups s t n (i + 1) dfu')
      ]

  unfoldable pub enforce_types : String → List String → ScoringApi → Walk env (Option ScoringApi)
  unfolding enforce_groups
  enforce_types s [] dfu = pure (some dfu)
  enforce_types s (t ∷ ts) dfu =
      let (dfu', best_i) = Api.best_i dfu s t in
      (do
        r ← enforce_groups s t best_i 0 dfu'
        elim r [ none ↦ pure none | some dfu₂ ↦ enforce_types s ts dfu₂ ])

  -- An exception leaves the evaluations as they were: it comes from a look-up.
  unfoldable pub enforce : String → ScoringApi → Walk env (ScoringApi × ℤ)
  unfolding enforce_types
  enforce s dfu =
      let (dfu', types) = Api.resrc_types dfu s in
      (do
        r ← enforce_types s types dfu'
        elim r [
          | some dfu₂ ↦ pure (dfu₂, pos 0)
          | none ↦ do modify (λ st. record st { errno = erange }); pure (dfu', negsuc 0)
        ])

  -- `for (auto subsystem : m_match->subsystems ()) rc += enforce (subsystem, dfu)`
  unfoldable pub enforce_all : List String → ScoringApi → ℤ → Walk env (ScoringApi × ℤ)
  unfolding enforce
  enforce_all [] dfu rc = pure (dfu, rc)
  enforce_all (s ∷ ss) dfu rc = do r ← enforce s dfu; enforce_all ss r.0 (rc +ℤ r.1)

  -- `resolve (dfu, to_parent)`: the result and the parent's evaluations.
  unfoldable pub resolve : ScoringApi → ScoringApi → Walk env (ℤ × ScoringApi)
  unfolding enforce_all
  resolve dfu to_parent =
      if ltb_ℤ match_unmet dfu.overall_score
      then (if dfu.hier_constrain_now
          then (do r ← enforce_all env.matcher.subsystems dfu (pos 0); pure (r.1, to_parent))
          else pure (pos 0, Api.merge to_parent dfu))
      else pure (pos 0, to_parent)

  -- The needs of the root: `none` if a count of 0 ends the function.
  unfoldable pub root_needs : String → ℕ → List Resource → ℕ → Run (Option ℕ)
  root_needs type avail [] needs = ok (some needs)
  root_needs type avail (r ∷ rs) needs =
      if (attrs r).type =? type
      then (Run.◌>>=◌ (select_count r avail)
          λ count. if count == 0 then ok none else root_needs type avail rs count)
      else root_needs type avail rs needs

  -- The types that no callback constrained: all that qualify are chosen. `none` if none qualifies.
  unfoldable pub choose_rest : String → List String → ScoringApi → Run (Option ScoringApi)
  choose_rest s [] dfu = ok (some dfu)
  choose_rest s (t ∷ ts) dfu =
      let (dfu₁, qc) = Api.qualified_count dfu s t in
      if qc == 0
      then ok none
      else (let (dfu₂, best_k) = Api.best_k dfu₁ s t in
          if best_k == 0
          then Run.◌>>=◌ (Api.choose_accum_all dfu₂ s t greater plus) (λ r. choose_rest s ts r.0)
          else choose_rest s ts dfu₂)

  unfoldable pub choose_rest_all : List String → ScoringApi → Run (Option ScoringApi)
  unfolding choose_rest
  choose_rest_all [] dfu = ok (some dfu)
  choose_rest_all (s ∷ ss) dfu =
      let (dfu', types) = Api.resrc_types dfu s in
      Run.◌>>=◌ (choose_rest s types dfu')
        λ r. elim r [ none ↦ ok none | some dfu₂ ↦ choose_rest_all ss dfu₂ ]

  -- `resolve (root, resources, dfu, excl, needs)`: the result and the needs.
  unfoldable pub resolve_root : ℕ → List Resource → ScoringApi → Walk env (ℤ × ℕ)
  unfolding root_needs choose_rest_all enforce_all
  resolve_root root resources dfu = do
    d ← dom env
    (dfu₁, rc) ← run (dom_finish_graph env.icl env.policy d resources dfu)
    st ← get
    if rc ==ℤ pos 0
        then (do
          needs? ← run (root_needs (st.vtx root).type dfu₁.avail resources 1)
          elim needs? [
            | none ↦ pure (negsuc 0, 1)
            | some needs ↦ do
              rest? ← run (choose_rest_all env.matcher.subsystems dfu₁)
              elim rest? [
                | none ↦ pure (negsuc 0, needs)
                | some dfu₂ ↦ do
                  r ← enforce_all env.matcher.subsystems dfu₂ (pos 0)
                  pure (r.1, needs)
              ]
          ])
        else pure (negsuc 0, 0)
