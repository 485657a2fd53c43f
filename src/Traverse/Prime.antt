-- ===== src/Traverse/Prime.antt =====
-- The functions `prime`: the subtree planners of the graph, and the aggregates of the jobspec.
pub mod Total
use resource_query.Prelude.{
  ℕ, zero, suc, ◌*◌, ◌%◌, ℤ, pos, negsuc, ◌==ℤ◌, String, List, [], ◌∷◌, ◌||◌, not, none, some, Dict,
  insert, string_key, ◌==◌, ltb, if◌then◌else◌, length,
}
use resource_query.Run.{fault, diverges}
use resource_query.Jobspec.{Resource, Resources, node, nil, cons}
use resource_query.ResourceData.Color
use resource_query.ResourceData.Color.{u64}
use resource_query.Matcher.Subsystems.{MatcherData}
use resource_query.Traverse.State.{
  Env, ◌>>=◌, ◌>>◌, pure, run, get, modify, Walk, set_vtx, map_idata, append_err, set_errno, paint,
  in_subsystem, stop_explore,
}
use resource_query.Traverse.Accum.{accum_if, accum_all}

abbrev pub planner_num_types : ℕ
planner_num_types = 5

abbrev pub keys_of : Dict String ℕ → List String
keys_of [] = []
keys_of ((t, _) ∷ m) = t ∷ keys_of m

abbrev pub amounts_of : Dict String ℕ → List ℕ
amounts_of [] = []
amounts_of ((_, n) ∷ m) = n ∷ amounts_of m

module _ (env : Env) where
  -- `prime_exp`, over the visit of a child.
  unfoldable pub prime_exp :
      (ℕ → Dict String ℕ → Walk env (ℤ × Dict String ℕ))
      → String
      → List ℕ
      → Dict String ℕ
      → Walk env (ℤ × Dict String ℕ)
  prime_exp visit subsystem [] dfv = pure (pos 0, dfv)
  prime_exp visit subsystem (e ∷ es) dfv = do
    st ← get
    if not (in_subsystem st e subsystem) || stop_explore env st e subsystem
        then prime_exp visit subsystem es dfv
        else (do
          (rc, dfv') ← visit (env.target e) dfv
          if rc ==ℤ pos 0 then prime_exp visit subsystem es dfv' else pure (rc, dfv'))

  -- `subtree_plan` and what `prime` does with it. The result is the one of `prime`.
  unfoldable pub plan_subtree : String → ℕ → Dict String ℕ → Walk env ℤ
  unfolding set_vtx
  plan_subtree subsystem u dfv =
      if length dfv == 0
      then pure (pos 0)
      else if ltb planner_num_types (length dfv)
      then (do
        modify (append_err ("prime: aggregate type count exceeds planner limit. " ∷ []))
        pure (negsuc 0))
      else (do
        st ← get
        let plans = (st.vtx u).schedule.plans
        let (p, e) =
            env.planner.planner_new (env.planner.planner_base_time plans)
              (env.planner.planner_duration plans) (amounts_of dfv) (keys_of dfv)
        modify (set_errno e)
        elim p [
          | none ↦ do
            modify (λ s.
                record (append_err
                  ("prime: error initializing a planner. " ∷ env.strerror s.errno ∷ []) s) {
                    errno = 0;
                  })
            pure (negsuc 0)
          | some q ↦ do
            modify (
                set_vtx u
                  (map_idata (λ i. record i { subplans = insert subsystem (some q) i.subplans })))
            pure (pos 0)
        ])

  -- The vertex is gray while its subtree is walked, and black after it, also after an error.
  unfoldable pub prime : ℕ → String → ℕ → Dict String ℕ → Walk env (ℤ × Dict String ℕ)
  unfolding prime_exp plan_subtree accum_if accum_all paint Color.gray Color.black
  prime zero s u to_parent = run (fault diverges)
  prime (suc fuel) s u to_parent = do
    st ← get
    modify (λ t. paint u s (Color.gray t.color_base) t)
    let own = (accum_if env.matcher s (st.vtx u).type (st.vtx u).size to_parent).0
    (rc, dfv) ← prime_exp (prime fuel s) s (env.out_edges u) []
    (rc', total) ←
        (if rc ==ℤ pos 0
          then (do planned ← plan_subtree s u dfv; pure (planned, accum_all env.matcher s dfv own))
          else pure (negsuc 0, own))
    modify (λ t. paint u s (Color.black t.color_base) t)
    pure (rc', total)

-- `count.min * aggregate.second` for each aggregate of the children.
abbrev pub scale : ℕ → Dict String ℕ → Dict String ℕ
scale k [] = []
scale k ((t, n) ∷ m) = (t, (k * n) % u64) ∷ scale k m

-- The aggregates of a request: they are added to the parent's, and kept in `user_data`.
unfoldable mutual
  unfolding accum_if accum_all

  pub prime_resource : MatcherData → String → Resource → Dict String ℕ → Resource × Dict String ℕ
  prime_resource m s (node a rs) to_parent =
      let (rs', data') = prime_resources m s rs a.user_data in
      (
        node (record a { user_data = data' }) rs',
        accum_all m s (scale a.count.min data') (accum_if m s a.type a.count.min to_parent).0,
      )

  pub prime_resources : MatcherData → String → Resources → Dict String ℕ → Resources × Dict String ℕ
  prime_resources m s nil to_parent = (nil, to_parent)
  prime_resources m s (cons r rs) to_parent =
      let (r', total) = prime_resource m s r to_parent in
      let (rs', total') = prime_resources m s rs total in (cons r' rs', total')
