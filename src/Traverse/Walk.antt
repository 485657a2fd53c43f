-- ===== src/Traverse/Walk.antt =====
-- The depth-first-and-up walk: `explore`, `aux_upv`, `dom_exp`, `cnt_slot`, `dom_slot`, `dom_dfv`.
pub mod Slots
use resource_query.Prelude.{
  to_signed, to_unsigned, ◌^◌, ℕ, zero, suc, ◌-◌, ◌/◌, ℤ, pos, negsuc, ◌+ℤ◌, ◌==ℤ◌, String, List,
  [], ◌∷◌, ◌++◌, Bool, true, false, ◌||◌, not, Option, none, some, lookup, string_key, ◌==◌, ◌=?◌,
  ltb, if◌then◌else◌, add32, u32, drop,
}
use resource_query.Run
use resource_query.Run.{Run, ok, fault, out_of_range, diverges}
use resource_query.Jobspec.{Resource, attrs}
use resource_query.Matcher.SelectCount.{to_u32, select_count}
use resource_query.Scoring.Evals.{EvalEdg, EvalEgroup}
use resource_query.Scoring.Api
use resource_query.Scoring.Api.{ScoringApi, new_scoring_api}
use resource_query.Policy.{dom_finish_vtx, dom_finish_slot}
use resource_query.ResourceData.Color
use resource_query.Traverse.State.{
  Env, JobMeta, ◌>>=◌, ◌>>◌, pure, run, get, modify, Walk, dom, paint, in_subsystem, stop_explore,
  append_err,
}
use resource_query.Traverse.Prune.{exclusivity, avail_during, prune}
use resource_query.Traverse.Match.{slot_match, test}
use resource_query.Traverse.Resolve.{resolve}

abbrev pub to_int : Bool → ℕ
to_int true = 1
to_int false = 0

-- The group that `explore` adds for a child, from what the child left in the evaluations.
abbrev pub child_group : ScoringApi → Bool → ℕ → EvalEgroup
child_group dfu x e = record {
  score = dfu.overall_score;
  count = dfu.avail;
  needs = 0;
  exclusive = to_int x;
  root = false;
  edges = record { count = dfu.avail; needs = dfu.avail; exclusive = to_int x; edge = some e } ∷ [];
}

-- `score += ...`, an `int` and an `int64_t`.
abbrev pub add_score : ℤ → ℤ → ℤ
add_score score more = to_signed (2 ^ 32) (to_unsigned (2 ^ 32) (score +ℤ more))

-- The inner loop of `dom_slot` for one resource of the slot: groups are taken from where the iterator
-- stands until `j` reaches the count. It gives their edges, their scores added to `score`, and how
-- many they are.
unfoldable pub fill_element : ℕ → ℕ → ℤ → List EvalEgroup → Run (List EvalEdg × ℤ × ℕ)
fill_element j count score [] = if ltb j count then fault out_of_range else ok ([], score, 0)
fill_element j count score (g ∷ gs) =
    if ltb j count
    then elim g.edges [
      | [] ↦ fault out_of_range
      | e ∷ _ ↦ Run.◌>>=◌ (fill_element (add32 j e.count) count (add_score score g.score) gs) λ r.
          ok (
            record { count = e.count; needs = e.count; exclusive = 1; edge = e.edge } ∷ r.0,
            r.1,
            suc r.2,
          )
    ]
    else ok ([], score, 0)

unfoldable pub advance : ScoringApi → String → String → ℕ → ScoringApi
advance dfu s t zero = dfu
advance dfu s t (suc n) = advance (Api.incr_iter_cur dfu s t) s t n

-- One slot: the loop over the resources of its shape.
unfoldable pub fill_slot :
    String → List Resource → ℤ → ScoringApi → Run (List EvalEdg × ℤ × ScoringApi)
unfolding fill_element advance
fill_slot s [] score dfu = ok ([], score, dfu)
fill_slot s (r ∷ rs) score dfu =
    let t = (attrs r).type in
    let (dfu₁, qc) = Api.qualified_count dfu s t in
    Run.◌>>=◌ (select_count r qc) λ count.
      let (dfu₂, e) = Api.reach dfu₁ s t in
      Run.◌>>=◌ (fill_element 0 count score (drop e.iter_cur e.egroups))
        λ f. Run.◌>>=◌ (fill_slot s rs f.1 (advance dfu₂ s t f.2)) λ q. ok (f.0 ++ q.0, q.1, q.2)

-- The loop over the slots, which adds one group for each.
unfoldable pub fill_slots : ℕ → String → List Resource → ScoringApi → ScoringApi → Run ScoringApi
unfolding fill_slot
fill_slots zero s shape dfu_slot dfu = ok dfu
fill_slots (suc n) s shape dfu_slot dfu = Run.◌>>=◌ (fill_slot s shape (pos 1) dfu_slot) λ q.
    fill_slots n s shape q.2
      (Api.add dfu s "slot"
        (record { score = q.1; count = 1; needs = 0; exclusive = 1; root = false; edges = q.0 })).0

-- The loop of `cnt_slot`, from `UINT_MAX` on.
unfoldable pub cnt_slot_from : ℕ → String → List Resource → ScoringApi → Run (ScoringApi × ℕ)
cnt_slot_from qual s [] dfu = ok (dfu, qual)
cnt_slot_from qual s (r ∷ rs) dfu =
    let t = (attrs r).type in
    let (dfu₁, qc) = Api.qualified_count dfu s t in
    Run.◌>>=◌ (select_count r qc) λ count.
      let fit = if count == 0 then count else qc / count in
      cnt_slot_from (if ltb fit qual then fit else qual) s rs (Api.rewind_iter_cur dfu₁ s t)

unfoldable pub cnt_slot : String → List Resource → ScoringApi → Run (ScoringApi × ℕ)
unfolding cnt_slot_from
cnt_slot s shape dfu = cnt_slot_from (u32 - 1) s shape dfu

module _ (env : Env) where
  -- What `explore` calls at a child: it takes the vertex, `*excl` and the evaluations, and gives the
  -- result and their new values.
  abbrev pub Visit : Type 0
  Visit = ℕ → Bool → ScoringApi → Walk env (ℤ × Bool × ScoringApi)

  -- The loop of `explore`; `rc2` is 0 as soon as one child matched.
  unfoldable pub explore_edges :
      Visit → String → List ℕ → Bool → ScoringApi → ℤ → Walk env (ℤ × ScoringApi)
  explore_edges visit subsystem [] excl dfu rc2 = pure (rc2, dfu)
  explore_edges visit subsystem (e ∷ es) excl dfu rc2 = do
    st ← get
    if not (in_subsystem st e subsystem) || stop_explore env st e subsystem
        then explore_edges visit subsystem es excl dfu rc2
        else (do
          (rc, x_inout, dfu') ← visit (env.target e) excl dfu
          st' ← get
          if rc ==ℤ pos 0
              then explore_edges visit subsystem es excl
                  (Api.add dfu' subsystem (st'.vtx (env.target e)).type
                    (child_group dfu' x_inout e)).0
                  (pos 0)
              else explore_edges visit subsystem es excl dfu' rc2)

  unfoldable pub explore : Visit → ℕ → String → Bool → ScoringApi → Walk env (ℤ × ScoringApi)
  unfolding explore_edges
  explore visit u subsystem excl dfu =
      explore_edges visit subsystem (env.out_edges u) excl dfu (negsuc 0)

  -- The tail of both visits: 0 or an error ends the visit, with the message of an error.
  unfoldable pub still_avail : String → JobMeta → ℕ → Walk env (Option ℕ)
  unfolding avail_during
  still_avail message meta u = do
    avail ← avail_during env meta u
    if avail ==ℤ pos 0
        then pure none
        else if avail ==ℤ negsuc 0
        then (do
          modify (λ s. record (append_err (message ∷ env.strerror s.errno ∷ ".\n" ∷ []) s) {
            errno = 0;
          })
          pure none)
        else pure (some (to_u32 avail))

  -- `(*m_roots)[aux]`
  abbrev pub root_of : String → ℕ
  root_of s = elim (lookup s env.roots) [ none ↦ 0 | some v ↦ v ]

  -- Neither visitor callback is overridden but `dom_finish_vtx`: the others count the level.
  unfoldable pub aux_upv : ℕ → JobMeta → String → List Resource → Visit
  unfolding explore still_avail
  aux_upv zero meta aux resources u excl to_parent = run (fault diverges)
  aux_upv (suc fuel) meta aux resources u excl to_parent = do
    pruned ← prune env meta aux u resources
    if pruned ==ℤ negsuc 0 then pure (negsuc 0, excl, to_parent) else (do
      modify (λ s. record s { match_level = s.match_level +ℤ pos 1 })
      upv ←
          (if u == root_of aux then pure new_scoring_api else (do
            r ← explore (aux_upv fuel meta aux resources) u aux excl new_scoring_api
            pure r.1))
      avail? ← still_avail "aux_upv: planner_avail_resources_during returned -1. " meta u
      elim avail? [
        | none ↦ pure (negsuc 0, excl, to_parent)
        | some _ ↦ do
          modify (λ s. record s { match_level = s.match_level +ℤ negsuc 0 })
          (rc, parent) ← resolve env upv to_parent
          pure (rc, excl, parent)
      ])

  unfoldable pub dom_exp_over :
      Visit
      → (String → Visit)
      → String
      → List String
      → ℕ
      → Bool
      → ScoringApi
      → ℤ
      → Walk env (ℤ × ScoringApi)
  unfolding explore
  dom_exp_over dfv upv d [] u excl dfu rc = pure (rc, dfu)
  dom_exp_over dfv upv d (s ∷ ss) u excl dfu rc = do
    r ← (if s =? d then explore dfv u s excl dfu else explore (upv s) u s excl dfu)
    dom_exp_over dfv upv d ss u excl r.1 r.0

  -- `dfv` and `upv` are the visits of the children.
  unfoldable pub dom_exp :
      Visit → (String → Visit) → ℕ → Bool → ScoringApi → Walk env (ℤ × ScoringApi)
  unfolding dom_exp_over
  dom_exp dfv upv u excl dfu = do
    d ← dom env
    dom_exp_over dfv upv d env.matcher.subsystems u excl dfu (negsuc 0)

  unfoldable pub dom_slot : Visit → List Resource → ℕ → ScoringApi → Walk env (ℤ × ScoringApi)
  unfolding explore cnt_slot fill_slots
  dom_slot dfv shape u dfu = do
    d ← dom env
    (rc, dfu_slot) ← explore dfv u d true new_scoring_api
    if rc ==ℤ pos 0
        then (do
          (sorted, rc') ← run (dom_finish_slot env.icl env.policy d dfu_slot)
          if rc' ==ℤ pos 0
              then (do
                (counted, slots) ← run (cnt_slot d shape sorted)
                filled ← run (fill_slots slots d shape counted dfu)
                pure ((if slots == 0 then negsuc 0 else pos 0), filled))
              else pure (negsuc 0, dfu))
        else pure (negsuc 0, dfu)

  unfoldable pub dom_dfv : ℕ → JobMeta → List Resource → Visit
  unfolding dom_slot dom_exp still_avail paint Color.gray Color.black
  dom_dfv zero meta resources u excl to_parent = run (fault diverges)
  dom_dfv (suc fuel) meta resources u excl to_parent = do
    d ← dom env
    st ← get
    let x_in = excl || exclusivity env resources (st.vtx u)
    let next = test env st u resources
    pruned ← prune env meta d u resources
    if pruned ==ℤ negsuc 0 then pure (negsuc 0, excl, to_parent) else (do
      modify (λ s. record s { match_level = s.match_level +ℤ pos 1 })
      modify (λ s. paint u d (Color.gray s.color_base) s)
      (_, dfu) ← elim next.1 [
        | slot_match ↦ dom_slot (dom_dfv fuel meta next.0) next.0 u new_scoring_api
        | _ ↦
            dom_exp (dom_dfv fuel meta next.0) (λ s. aux_upv fuel meta s next.0) u x_in
              new_scoring_api
      ]
      modify (λ s. paint u d (Color.black s.color_base) s)
      avail? ← still_avail "dom_dfv: planner_avail_resources_during returned -1.\n" meta u
      elim avail? [
        | none ↦ pure (negsuc 0, x_in, to_parent)
        | some avail ↦ do
          st' ← get
          (dfu', met) ←
              run
                (dom_finish_vtx env.icl env.policy (st'.vtx u).type (st'.vtx u).id d resources dfu)
          modify (λ s. record s { match_level = s.match_level +ℤ negsuc 0 })
          if met ==ℤ pos 0
              then (do
                (rc, parent) ← resolve env dfu' to_parent
                if rc ==ℤ pos 0
                    then pure (
                      rc,
                      x_in,
                      record parent { avail = avail; overall_score = dfu'.overall_score },
                    )
                    else pure (rc, x_in, parent))
              else pure (negsuc 0, x_in, to_parent)
      ])
