-- ===== src/Traverse/Remove.antt =====
-- `rem_plan`, `rem_x_checker`, `rem_subtree_plan`, `rem_dfv` and `remove`.
pub mod Frame
pub mod Total
use resource_query.Prelude.{
  ℕ, zero, suc, ◌+◌, ◌-◌, ◌%◌, ◌^◌, ltb, ℤ, pos, negsuc, ◌+ℤ◌, ◌==ℤ◌, String, List, [], ◌∷◌, ◌++◌,
  Bool, true, false, ◌||◌, not, Option, none, some, lookup, insert, erase, contains, nat_key,
  string_key, ◌=?◌, if◌then◌else◌,
}
use resource_query.Run.{fault, diverges}
use resource_query.Traverse.State.{
  Env, Store, M, ◌>>=◌, ◌>>◌, pure, run, get, modify, Walk, dom, set_vtx, map_schedule, map_idata,
  append_err, set_errno, report_errno, in_subsystem, stop_explore, tick_color_base,
}
use resource_query.Traverse.Prune.{subplan}

-- The conversion of an `int64_t` to `int`.
abbrev wrap_i32 : ℕ → ℤ
wrap_i32 r = if ltb r (2 ^ 31) then pos r else negsuc (2 ^ 32 - 1 - r)

abbrev pub to_i32 : ℤ → ℤ
to_i32 (pos n) = wrap_i32 (n % 2 ^ 32)
to_i32 (negsuc n) = wrap_i32 (2 ^ 32 - 1 - n % 2 ^ 32)

module _ (env : Env) where
  -- The message of a `planner_rem_span` that failed.
  unfoldable pub report_rem : String → ℕ → List String → Walk env (Unit {0})
  unfolding report_errno
  report_rem who u end = do
    st ← get
    modify (
        append_err
          (who ∷ ": planner_rem_span returned -1.\n" ∷ who ∷ ": " ∷ (st.vtx u).name ∷ ".\n" ∷ []))
    modify (report_errno env end)

  -- The span of a job, taken out of the table that has it; -1 if none has.
  unfoldable pub take_span : ℕ → ℕ → Walk env ℤ
  unfolding set_vtx
  take_span u jobid = do
    st ← get
    elim (lookup jobid (st.vtx u).schedule.allocations) [
      | some span ↦ do
        modify
            (set_vtx u (map_schedule (λ c. record c { allocations = erase jobid c.allocations })))
        pure span
      | none ↦ elim (lookup jobid (st.vtx u).schedule.reservations) [
        | some span ↦ do
          modify (
              set_vtx u
                (map_schedule (λ c. record c { reservations = erase jobid c.reservations })))
          pure span
        | none ↦ pure (negsuc 0)
      ]
    ]

  unfoldable pub rem_plan : ℕ → ℕ → Walk env ℤ
  unfolding take_span report_rem set_vtx
  rem_plan u jobid = do
    span ← take_span u jobid
    if span ==ℤ negsuc 0 then pure (pos 0) else (do
      st ← get
      let (p, rc, e) = env.planner.planner_rem_span (st.vtx u).schedule.plans span
      modify (set_errno e)
      modify (set_vtx u (map_schedule (λ c. record c { plans = p })))
      if rc ==ℤ pos 0 then pure rc else (do report_rem "rem_plan" u (".\n" ∷ []); pure rc))

  unfoldable pub rem_x_checker : ℕ → ℕ → Walk env ℤ
  unfolding report_rem set_vtx
  rem_x_checker u jobid = do
    st ← get
    elim (lookup jobid (st.vtx u).schedule.x_spans) [
      | none ↦ do
        modify (append_err ("rem_x_checker: jobid isn't found in x_spans table.\n" ∷ []))
        pure (negsuc 0)
      | some span ↦ do
        modify (set_vtx u (map_schedule (λ c. record c { x_spans = erase jobid c.x_spans })))
        if span ==ℤ negsuc 0 then pure (pos 0) else (do
          st' ← get
          let (p, rc, e) = env.planner.planner_rem_span (st'.vtx u).schedule.x_checker span
          modify (set_errno e)
          modify (set_vtx u (map_schedule (λ c. record c { x_checker = p })))
          if rc ==ℤ pos 0 then pure rc else (do report_rem "rem_x_checker" u (".\n" ∷ []); pure rc))
    ]

  -- The span is kept in an `int`, and the entry of `job2span` stays.
  unfoldable pub rem_subtree_plan : ℕ → ℕ → String → Walk env ℤ
  unfolding subplan report_rem set_vtx
  rem_subtree_plan u jobid s = do
    p ← subplan env u s
    st ← get
    elim p [
      | none ↦ pure (pos 0)
      | some q ↦ elim (lookup jobid (st.vtx u).idata.job2span) [
        | none ↦ pure (pos 0)
        | some span ↦ if to_i32 span ==ℤ negsuc 0 then pure (negsuc 0) else (do
          let (p', rc, e) = env.planner.planner_rem_span (some q) (to_i32 span)
          modify (set_errno e)
          modify (set_vtx u (map_idata (λ i. record i { subplans = insert s p' i.subplans })))
          if rc ==ℤ pos 0 then pure rc else (do report_rem "rem_subtree_plan" u []; pure rc))
      ]
    ]

  -- The three removals at one vertex, up to the first that fails.
  unfoldable pub rem_vertex : ℕ → ℕ → String → Walk env ℤ
  unfolding rem_x_checker rem_plan rem_subtree_plan
  rem_vertex u jobid d = do
    rc ← rem_x_checker u jobid
    if rc ==ℤ pos 0
        then (do
          rc' ← rem_plan u jobid
          if rc' ==ℤ pos 0 then rem_subtree_plan u jobid d else pure rc')
        else pure rc

  -- `rem_upv` is not yet implemented in the source: it gives 0.
  unfoldable pub rem_edges : (ℕ → Walk env ℤ) → String → String → List ℕ → ℤ → Walk env ℤ
  rem_edges visit d subsystem [] rc = pure rc
  rem_edges visit d subsystem (e ∷ es) rc = do
    st ← get
    if not (in_subsystem st e subsystem) || stop_explore env st e subsystem
        then rem_edges visit d subsystem es rc
        else if subsystem =? d
        then (do rc' ← visit (env.target e); rem_edges visit d subsystem es (rc +ℤ rc'))
        else rem_edges visit d subsystem es rc

  unfoldable pub rem_subsystems : (ℕ → Walk env ℤ) → String → List String → List ℕ → ℤ → Walk env ℤ
  unfolding rem_edges
  rem_subsystems visit d [] es rc = pure rc
  rem_subsystems visit d (s ∷ ss) es rc = do
    rc' ← rem_edges visit d s es rc
    rem_subsystems visit d ss es rc'

  unfoldable pub is_tagged : Store env.planner.Plan → ℕ → ℕ → Bool
  is_tagged s jobid u = contains jobid (s.vtx u).schedule.tags

  abbrev pub untag : ℕ → ℕ → Store env.planner.Plan → Store env.planner.Plan
  untag u jobid = set_vtx u (map_schedule (λ c. record c { tags = erase jobid c.tags }))

  unfoldable pub rem_dfv : ℕ → ℕ → ℕ → Walk env ℤ
  unfolding rem_vertex rem_subsystems is_tagged set_vtx
  rem_dfv zero jobid u = run (fault diverges)
  rem_dfv (suc fuel) jobid u = do
    d ← dom env
    st ← get
    if is_tagged st jobid u
        then (do
          modify (untag u jobid)
          rc ← rem_vertex u jobid d
          if rc ==ℤ pos 0
              then rem_subsystems (rem_dfv fuel jobid) d env.matcher.subsystems (env.out_edges u) rc
              else pure rc)
        else pure (pos 0)

  unfoldable pub remove : ℕ → ℕ → ℕ → Walk env ℤ
  unfolding rem_dfv tick_color_base
  remove fuel root jobid = do tick_color_base; rem_dfv fuel jobid root
