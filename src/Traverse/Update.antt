-- ===== src/Traverse/Update.antt =====
-- `upd_plan`, `upd_sched`, `upd_upv`, `upd_dfv` and `update`: the selection is written to the planners
-- and to the tables of the vertices.
pub mod Local
pub mod Frame
pub mod Tag
pub mod Total
use resource_query.Prelude.{
  ℕ, zero, suc, ◌+◌, ◌%◌, ℤ, pos, negsuc, ◌==ℤ◌, String, List, [], ◌∷◌, ◌++◌, Bool, true, false,
  ◌&&◌, ◌||◌, not, Option, none, some, Dict, insert, nat_key, string_key, ◌==◌, ◌=?◌, ltb,
  if◌then◌else◌, length, u32, add32, sub32,
}
use resource_query.Run.{fault, diverges}
use resource_query.ResourceData.Color
use resource_query.Traverse.State.{
  Env, Store, JobMeta, M, ◌>>=◌, ◌>>◌, pure, run, get, modify, Walk, dom, set_vtx, map_schedule,
  map_idata, append_err, set_errno, report_errno, paint, in_subsystem, stop_explore,
  tick_color_base,
}
use resource_query.Traverse.Accum.{accum_if, accum_all, count}
use resource_query.Traverse.Prune.{subplan}

module _ (env : Env) where
  -- A call that changes the planner `plans` of a vertex.
  unfoldable pub add_to_plans : ℕ → JobMeta → ℕ → Walk env ℤ
  unfolding set_vtx
  add_to_plans u meta needs = do
    st ← get
    (p, span, e) ←
        run (
          env.planner.planner_add_span (st.vtx u).schedule.plans meta.at meta.duration (needs ∷ []))
    modify (set_errno e)
    modify (set_vtx u (map_schedule (λ c. record c { plans = p })))
    pure span

  -- `x_checker` gets a span of one job, and `x_spans` the result, whatever it is.
  unfoldable pub add_to_x_checker : ℕ → JobMeta → Walk env (Unit {0})
  unfolding set_vtx
  add_to_x_checker u meta = do
    st ← get
    (p, span, e) ←
        run (
          env.planner.planner_add_span (st.vtx u).schedule.x_checker meta.at meta.duration (1 ∷ []))
    modify (set_errno e)
    modify (
        set_vtx u (
          map_schedule
            (λ c. record c { x_checker = p; x_spans = insert meta.jobid span c.x_spans })))

  -- The subtree planner gets the aggregates of the walk below; -1 is reported.
  unfoldable pub add_to_subplan : ℕ → String → JobMeta → Dict String ℕ → Walk env ℤ
  unfolding set_vtx subplan count report_errno
  add_to_subplan u s meta dfu = do
    p ← subplan env u s
    elim p [
      | none ↦ pure (pos 0)
      | some q ↦ if length dfu == 0 then pure (pos 0) else (do
        (p', span, e) ← run (
            env.planner.planner_add_span (some q) meta.at meta.duration
              (count (env.planner.planner_resource_types (some q)) dfu))
        modify (set_errno e)
        modify (set_vtx u (map_idata (λ i. record i { subplans = insert s p' i.subplans })))
        if span ==ℤ negsuc 0
            then (do
              modify (append_err ("upd_sched: planner_add_span returned -1.\n" ∷ []))
              modify (report_errno env [])
              pure span)
            else (do
              modify (
                  set_vtx u
                    (map_idata (λ i. record i { job2span = insert meta.jobid span i.job2span })))
              pure span))
    ]

  -- The result is the span, or -1; the aggregates of the parent come with it. The caller's `n` grows by
  -- one in each case.
  unfoldable pub upd_plan : ℕ → String → ℕ → JobMeta → Dict String ℕ → Walk env (ℤ × Dict String ℕ)
  unfolding add_to_plans accum_if set_vtx report_errno
  upd_plan u s needs meta to_parent = do
    span ← add_to_plans u meta needs
    if span ==ℤ negsuc 0
        then (do
          modify (append_err ("upd_plan: planner_add_span returned -1.\n" ∷ []))
          modify (report_errno env [])
          pure (span, to_parent))
        else (do
          st ← get
          modify (
              set_vtx u (
                map_schedule (λ c.
                  if meta.allocate
                  then record c { allocations = insert meta.jobid span c.allocations }
                  else record c { reservations = insert meta.jobid span c.reservations })))
          pure (span, (accum_if env.matcher s (st.vtx u).type needs to_parent).0))

  unfoldable pub emit_vertex : ℕ → ℕ → Bool → Walk env (Unit {0})
  emit_vertex u needs excl = modify λ s. record s {
    emitted =
        s.emitted
        ++ record { level = s.trav_level; name = (s.vtx u).name; needs = needs; exclusive = excl }
          ∷ [];
  }

  -- What `upd_sched` does for a vertex on the way to a plan: `false` is the early end.
  unfoldable pub tag_vertex :
      ℕ
      → String
      → ℕ
      → Bool
      → JobMeta
      → Dict String ℕ
      → Dict String ℕ
      → Walk env (Bool × Dict String ℕ)
  unfolding add_to_x_checker add_to_subplan accum_all emit_vertex set_vtx
  tag_vertex u s needs excl meta dfu to_parent = do
    modify (set_vtx u (map_schedule (λ c. record c { tags = insert meta.jobid meta.jobid c.tags })))
    add_to_x_checker u meta
    span ← add_to_subplan u s meta dfu
    if span ==ℤ negsuc 0
        then pure (false, to_parent)
        else (do emit_vertex u needs excl; pure (true, accum_all env.matcher s dfu to_parent))

  -- The second half of `upd_sched`.
  unfoldable pub tag_counted :
      ℕ
      → String
      → ℕ
      → Bool
      → ℕ
      → JobMeta
      → Dict String ℕ
      → Dict String ℕ
      → Walk env (ℕ × Dict String ℕ)
  unfolding tag_vertex
  tag_counted u s needs excl n meta dfu to_parent = do
    (done, total) ←
        (if ltb 0 n then tag_vertex u s needs excl meta dfu to_parent else pure (true, to_parent))
    if done
        then (do modify (λ t. record t { trav_level = sub32 t.trav_level 1 }); pure (n, total))
        else pure (n, total)

  -- The number of plans, also after an error.
  unfoldable pub upd_sched :
      ℕ
      → String
      → ℕ
      → Bool
      → ℕ
      → JobMeta
      → Dict String ℕ
      → Dict String ℕ
      → Walk env (ℕ × Dict String ℕ)
  unfolding upd_plan tag_counted
  upd_sched u s needs excl n meta dfu to_parent =
      if excl
      then (do
        (span, own) ← upd_plan u s needs meta to_parent
        if span ==ℤ negsuc 0
            then pure (n + 1, own)
            else tag_counted u s needs excl (n + 1) meta dfu own)
      else tag_counted u s needs excl n meta dfu to_parent

  -- Not yet implemented in the source.
  unfoldable pub upd_upv : ℕ
  upd_upv = 0

  -- The visit of a child: its needs, its mode and the aggregates.
  abbrev pub UpdVisit : Type 0
  UpdVisit = ℕ → ℕ → Bool → Dict String ℕ → Walk env (ℕ × Dict String ℕ)

  -- The edges that the selection of this round wrote are followed.
  unfoldable pub upd_edges :
      UpdVisit → String → String → List ℕ → ℕ → Dict String ℕ → Walk env (ℕ × Dict String ℕ)
  unfolding upd_upv
  upd_edges visit d subsystem [] n dfu = pure (n, dfu)
  upd_edges visit d subsystem (e ∷ es) n dfu = do
    st ← get
    if not (in_subsystem st e subsystem)
          || stop_explore env st e subsystem
          || not ((st.edg e).idata.best_k_cnt == st.best_k_cnt)
        then upd_edges visit d subsystem es n dfu
        else if subsystem =? d
        then (do
          (m, dfu') ←
              visit (env.target e) ((st.edg e).idata.needs % u32)
                (not ((st.edg e).idata.exclusive == 0)) dfu
          upd_edges visit d subsystem es (n + m) dfu')
        else upd_edges visit d subsystem es (n + upd_upv) dfu

  unfoldable pub upd_subsystems :
      UpdVisit → String → List String → List ℕ → ℕ → Dict String ℕ → Walk env (ℕ × Dict String ℕ)
  unfolding upd_edges
  upd_subsystems visit d [] es n dfu = pure (n, dfu)
  upd_subsystems visit d (s ∷ ss) es n dfu = do
    (n', dfu') ← upd_edges visit d s es n dfu
    upd_subsystems visit d ss es n' dfu'

  unfoldable pub upd_dfv : ℕ → JobMeta → UpdVisit
  unfolding upd_subsystems paint Color.black
  upd_dfv zero meta u needs excl to_parent = run (fault diverges)
  upd_dfv (suc fuel) meta u needs excl to_parent = do
    d ← dom env
    modify (λ s. record s { trav_level = add32 s.trav_level 1 })
    (n, dfu) ← upd_subsystems (upd_dfv fuel meta) d env.matcher.subsystems (env.out_edges u) 0 []
    modify (λ s. paint u d (Color.black s.color_base) s)
    upd_sched u d needs excl n meta dfu to_parent

  unfoldable pub update : ℕ → ℕ → JobMeta → ℕ → Bool → Walk env ℤ
  unfolding upd_dfv tick_color_base
  update fuel root meta needs exclusive = do
    tick_color_base
    (n, _) ← upd_dfv fuel meta root needs exclusive []
    pure (if ltb 0 n then pos 0 else negsuc 0)
