-- ===== src/Traverse/Traverser.antt =====
-- `dfu_impl_t::select` and `dfu_traverser_t`: matching, updating and removing a job.
use resource_query.Prelude.{
  ℕ, zero, suc, ◌-◌, ◌%◌, ℤ, pos, negsuc, ◌+ℤ◌, ◌==ℤ◌, String, List, [], ◌∷◌, Bool, true, false,
  ◌&&◌, ◌||◌, not, Option, none, some, Dict, lookup, insert, contains, string_key, if◌then◌else◌,
}
use resource_query.Run.{fault, diverges, null_access, out_of_range}
use resource_query.Jobspec.{Resource, Jobspec, to_list, of_list}
use resource_query.Scoring.Evals.{EvalEgroup}
use resource_query.Scoring.Api
use resource_query.Scoring.Api.{ScoringApi, new_scoring_api}
use resource_query.ResourceData.Color.{u64}
use resource_query.Traverse.State.{
  Env, JobMeta, ◌>>=◌, ◌>>◌, pure, run, get, modify, Walk, dom, set_vtx, map_idata, set_errno, tick,
}
use resource_query.Traverse.Accum.{count}
use resource_query.Traverse.Prune.{exclusivity}
use resource_query.Traverse.Resolve.{resolve_root}
use resource_query.Traverse.Walk.{to_int, dom_dfv}
use resource_query.Traverse.Prime.{prime, prime_resources}
use resource_query.Traverse.Update.{update}
use resource_query.Traverse.Remove.{remove}

pub data MatchOp : Type 0 where
  match_allocate match_allocate_orelse_reserve : MatchOp

-- Which of the members `m_graph`, `m_roots` and `m_match` are not null.
pub record Members : Type 0 where
  pub graph : Bool
  pub roots : Bool
  pub match_cb : Bool

abbrev pub einval : ℕ
einval = 22

abbrev pub enotsup : ℕ
enotsup = 95

abbrev pub system_default_duration : ℕ
system_default_duration = 43200

abbrev pub to_u64 : ℤ → ℕ
to_u64 (pos n) = n % u64
to_u64 (negsuc n) = u64 - 1 - n % u64

module _ (env : Env) where
  abbrev root_group : ScoringApi → Bool → EvalEgroup
  root_group dfu excl = record {
    score = dfu.overall_score;
    count = dfu.avail;
    needs = 0;
    exclusive = to_int excl;
    root = true;
    edges =
        record { count = dfu.avail; needs = dfu.avail; exclusive = to_int excl; edge = none } ∷ [];
  }

  -- The result and the needs of the root.
  unfoldable pub select : ℕ → JobMeta → List Resource → ℕ → Bool → Walk env (ℤ × ℕ)
  unfolding tick dom_dfv resolve_root
  select fuel meta resources root excl = do
    d ← dom env
    tick
    (rc, _, dfu) ← dom_dfv env fuel meta resources root excl new_scoring_api
    st ← get
    if rc ==ℤ pos 0
        then resolve_root env root resources
            (Api.add dfu d (st.vtx root).type (root_group dfu excl)).0
        else pure (rc, 0)

  -- `build`: a jobspec without the system attributes is read through the end iterator.
  unfoldable pub build : Jobspec → Bool → ℕ → ℤ → Walk env JobMeta
  build j alloc jobid at = elim (lookup "system" j.attributes) [
    | none ↦ run (fault null_access)
    | some system ↦ pure (record {
      allocate = alloc;
      jobid = jobid;
      at = at;
      duration = elim (lookup "duration" system) [
        | none ↦ system_default_duration
        | some text ↦ to_u64 (env.atoll text)
      ];
    })
  ]

  -- A call that moves the planner's own iterator, in the root's subtree planner.
  unfoldable pub avail_time :
      (Option env.planner.Plan → Option env.planner.Plan × ℤ × Option ℕ) → ℕ → Walk env ℤ
  unfolding set_vtx
  avail_time call root = do
    d ← dom env
    st ← get
    elim (lookup d (st.vtx root).idata.subplans) [
      | none ↦ run (fault out_of_range)
      | some p ↦ do
        let (p', t, e) = call p
        modify (set_errno e)
        modify (set_vtx root (map_idata (λ i. record i { subplans = insert d p' i.subplans })))
        pure t
    ]

  -- The loop of `schedule` from the time `t` on, with the result of the selection before.
  unfoldable pub reserve :
      ℕ → ℕ → JobMeta → List Resource → ℕ → Bool → ℤ → ℤ × ℕ → Walk env (JobMeta × ℤ × ℕ)
  unfolding select avail_time
  reserve zero fuel meta resources root excl t r = run (fault diverges)
  reserve (suc rounds) fuel meta resources root excl t (rc, needs) =
      elim (t ==ℤ negsuc 0 || rc ==ℤ pos 0) [
        | true ↦ pure (meta, rc, needs)
        | false ↦ do
          let meta' = record meta { at = t }
          r ← select fuel meta' resources root excl
          t' ← avail_time env.planner.planner_avail_time_next root
          reserve rounds fuel meta' resources root excl t' r
      ]

  abbrev pub is_reserve : MatchOp → Bool
  is_reserve match_allocate = false
  is_reserve match_allocate_orelse_reserve = true

  unfoldable pub schedule :
      ℕ
      → ℕ
      → JobMeta
      → List Resource
      → ℕ
      → Bool
      → MatchOp
      → Dict String ℕ
      → Walk env (JobMeta × ℤ × ℕ)
  unfolding select avail_time reserve count
  schedule rounds fuel meta resources root x op dfv = do
    d ← dom env
    r ← select fuel meta resources root x
    if not (r.0 ==ℤ pos 0) && is_reserve op
        then (do
          let later = record meta { allocate = false }
          t ←
              avail_time
                (λ p.
                  env.planner.planner_avail_time_first p (meta.at +ℤ pos 1) meta.duration
                    (count (env.planner.planner_resource_types p) dfv))
                root
          reserve rounds fuel later resources root x t r)
        else pure (meta, r.0, r.1)

  abbrev pub is_empty : List Resource → Bool
  is_empty [] = true
  is_empty (_ ∷ _) = false

  abbrev pub has_root : Members → String → Bool
  has_root m d = m.graph && m.roots && contains d env.roots

  abbrev pub root_at : String → Walk env ℕ
  root_at d = elim (lookup d env.roots) [ none ↦ run (fault out_of_range) | some v ↦ pure v ]

  -- `get_match_cb ()` is read through before it is tested.
  unfoldable pub checked_dom : Members → Walk env String
  checked_dom m = if m.match_cb then dom env else run (fault null_access)

  -- The result and `*at`.
  unfoldable pub run_job : ℕ → ℕ → Members → Jobspec → MatchOp → ℕ → ℤ → Walk env (ℤ × ℤ)
  unfolding checked_dom build schedule update prime_resources exclusivity
  run_job rounds fuel m job op jobid at = do
    d ← checked_dom m
    if not (has_root m d) || is_empty job.resources
        then (do modify (λ s. record s { errno = einval }); pure (negsuc 0, at))
        else (do
          root ← root_at d
          st ← get
          let x = exclusivity env job.resources (st.vtx root)
          let primed = prime_resources env.matcher d (of_list job.resources) []
          let resources = to_list primed.0
          meta ← build job true jobid at
          (meta', rc, needs) ← schedule rounds fuel meta resources root x op primed.1
          if rc ==ℤ pos 0
              then (do rc' ← update env fuel root meta' needs x; pure (rc', meta'.at))
              else pure (rc, at))

  unfoldable pub remove_job : ℕ → Members → ℕ → Walk env ℤ
  unfolding checked_dom remove
  remove_job fuel m jobid = do
    d ← checked_dom m
    if has_root m d
        then (do root ← root_at d; remove env fuel root jobid)
        else (do modify (λ s. record s { errno = einval }); pure (negsuc 0))

  -- The loop of `initialize`, ended by a subsystem without a root.
  unfoldable pub initialize_each : ℕ → List String → ℤ → Walk env ℤ
  unfolding prime
  initialize_each fuel [] rc = pure rc
  initialize_each fuel (s ∷ ss) rc = elim (lookup s env.roots) [
    | none ↦ do modify (λ t. record t { errno = enotsup }); pure (negsuc 0)
    | some root ↦ do (rc', _) ← prime env fuel s root []; initialize_each fuel ss (rc +ℤ rc')
  ]

  unfoldable pub initialize : ℕ → Members → Walk env ℤ
  unfolding initialize_each
  initialize fuel m =
      if m.graph && m.roots && m.match_cb
      then initialize_each fuel env.matcher.subsystems (pos 0)
      else (do modify (λ s. record s { errno = einval }); pure (negsuc 0))
