-- ===== src/Traverse/Prune.antt =====
-- `exclusivity`, `by_avail`, `by_excl`, `by_subplan`, `prune` and `subtree_plan`.
use resource_query.Prelude.{
  ℕ, ℤ, pos, negsuc, ltb_ℤ, ◌==ℤ◌, String, List, [], ◌∷◌, Bool, ◌&&◌, not, Option, none, some,
  lookup, insert, string_key, ◌==◌, ◌=?◌, if◌then◌else◌, any, length,
}
use resource_query.Jobspec.{Resource, attrs, is_exclusive}
use resource_query.ResourceData.{ResourcePool}
use resource_query.Traverse.State.{
  Env, JobMeta, ◌>>=◌, ◌>>◌, pure, run, get, modify, Walk, set_vtx, map_idata, append_err,
  set_errno, report_errno,
}
use resource_query.Traverse.Accum.{count}

abbrev pub x_checker_jobs_str : String
x_checker_jobs_str = "jobs"

abbrev pub x_checker_njobs : ℕ
x_checker_njobs = 0x40000000

module _ (env : Env) where
  -- One of the resources is of the vertex's type and asks for exclusive access.
  unfoldable pub exclusivity : List Resource → ResourcePool env.planner.Plan → Bool
  exclusivity resources u =
      any (λ r. (attrs r).type =? u.type && is_exclusive (attrs r).exclusive) resources

  -- The amount that is left in the vertex's plan over the job's time, with its effect on `errno`.
  unfoldable pub avail_during : JobMeta → ℕ → Walk env ℤ
  avail_during meta u = do
    s ← get
    (avail, e) ← run (
        env.planner.planner_avail_resources_during (s.vtx u).schedule.plans meta.at meta.duration 0)
    modify (set_errno e)
    pure avail

  unfoldable pub by_avail : JobMeta → ℕ → Walk env ℤ
  unfolding avail_during report_errno
  by_avail meta u = do
    avail ← avail_during meta u
    if avail ==ℤ pos 0
        then pure (negsuc 0)
        else if avail ==ℤ negsuc 0
        then (do
          modify (append_err ("by_avail: planner_avail_resources_during returned -1.\n" ∷ []))
          modify (report_errno env (".\n" ∷ []))
          pure (negsuc 0))
        else pure (pos 0)

  unfoldable pub by_excl : JobMeta → ℕ → Resource → Walk env ℤ
  unfolding report_errno
  by_excl meta u resource =
      if is_exclusive (attrs resource).exclusive
      then (do
        s ← get
        (njobs, e) ← run (
            env.planner.planner_avail_resources_during_by_type (s.vtx u).schedule.x_checker meta.at
              meta.duration x_checker_jobs_str)
        modify (set_errno e)
        if njobs ==ℤ negsuc 0
            then (do
              modify (append_err ("by_excl: planner_avail_resources_during returned -1.\n" ∷ []))
              modify (report_errno env (".\n" ∷ []))
              pure (negsuc 0))
            else pure (if ltb_ℤ njobs (pos x_checker_njobs) then negsuc 0 else pos 0))
      else pure (pos 0)

  -- `idata.subplans[s]`, which makes a null entry where there is none.
  unfoldable pub subplan : ℕ → String → Walk env (Option env.planner.Plan)
  unfolding set_vtx
  subplan u s = do
    st ← get
    elim (lookup s (st.vtx u).idata.subplans) [
      | some p ↦ pure p
      | none ↦ do
        modify (set_vtx u (map_idata (λ i. record i { subplans = insert s none i.subplans })))
        pure none
    ]

  unfoldable pub by_subplan : JobMeta → String → ℕ → Resource → Walk env ℤ
  unfolding subplan count
  by_subplan meta subsystem u resource = do
    p ← subplan u subsystem
    let aggs = count (env.planner.planner_resource_types p) (attrs resource).user_data
    if length aggs == 0 then pure (pos 0) else (do
      let (rc, e) = env.planner.planner_avail_during p meta.at meta.duration aggs
      modify (set_errno e)
      s ← get
      if rc ==ℤ negsuc 0 && not (s.errno == 0)
          then (do
            modify (
                append_err (
                  "by_subplan: planner_avail_during returned -1.\n"
                  ∷ env.strerror s.errno
                  ∷ ".\n"
                  ∷ []))
            modify (λ t. record t { errno = 0 })
            pure rc)
          else pure rc)

  -- The loop of `prune`, from the value of `rc` before it.
  unfoldable pub prune_each : JobMeta → String → ℕ → List Resource → ℤ → Walk env ℤ
  unfolding by_excl by_subplan
  prune_each meta subsystem u [] rc = pure rc
  prune_each meta subsystem u (r ∷ rs) rc = do
    s ← get
    if (attrs r).type =? (s.vtx u).type
        then (do
          excl ← by_excl meta u r
          if excl ==ℤ negsuc 0 then pure (negsuc 0) else (do
            sub ← by_subplan meta subsystem u r
            if sub ==ℤ negsuc 0 then pure (negsuc 0) else prune_each meta subsystem u rs sub))
        else prune_each meta subsystem u rs rc

  unfoldable pub prune : JobMeta → String → ℕ → List Resource → Walk env ℤ
  unfolding by_avail prune_each
  prune meta subsystem u resources = do
    rc ← by_avail meta u
    if rc ==ℤ negsuc 0 then pure rc else prune_each meta subsystem u resources rc
