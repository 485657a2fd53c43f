-- ===== src/Traverse/Quiet/Search.antt =====
-- The walk of a match is quiet, and so is the search for a time.
use resource_query.Prelude.{
  ℕ, zero, suc, ℤ, pos, negsuc, ◌==ℤ◌, ◌≡◌, refl, String, List, [], ◌∷◌, Bool, true, false, ◌||◌,
  Option, none, some, Option-cases, inl, inr, insert, Dict, lookup, string_key, ◌==◌, ◌=?◌,
}
use resource_query.Run.{Run, ok}
use resource_query.ResourceData.Color
use resource_query.Jobspec.{Resource}
use resource_query.Scoring.Api.{ScoringApi, new_scoring_api}
use resource_query.Traverse.State.{
  Env, JobMeta, Store, tick, run, modify, ◌>>=◌, pure, set_vtx, map_idata, set_errno,
}
use resource_query.Traverse.Runs.{Preorder}
use resource_query.Traverse.Match.{MatchKind, slot_match, resource_match, none_match, test}
use resource_query.Traverse.Keeps.{
  Keeps, related, Keeps-pure, Keeps-get, Keeps-run, Keeps-modify, Keeps->>=, Keeps-if, Keeps-Option,
  keep_rules,
}
use resource_query.Traverse.Walk.{
  Visit, explore_edges, explore, still_avail, aux_upv, root_of, dom_exp_over, dom_exp, dom_slot,
  dom_dfv,
}
use resource_query.Traverse.Traverser.{MatchOp, select, avail_time, reserve, schedule}
use resource_query.Traverse.Quiet.{
  TimeCall, first, next, after_search, Quiet, Quiet-Preorder, same_graph, paint-Quiet,
  subplan-Quiet, set_errno-Quiet,
}
use resource_query.Traverse.Quiet.Parts.{
  Keeps-get->>=, dom-Keeps, avail_during-Keeps, prune-Keeps, resolve-Keeps, resolve_root-Keeps,
}

module _ (env : Env) where
  abbrev order : Preorder (Quiet env.planner)
  order = Quiet-Preorder

  abbrev QuietVisit : Visit env → Type 0
  QuietVisit visit =
      (u : ℕ) (x : Bool) (dfu : ScoringApi) → Keeps (Quiet env.planner) (visit u x dfu)

  explore_edges-Keeps :
      (visit : Visit env)
      → QuietVisit visit
      → (s : String) (es : List ℕ) (x : Bool) (dfu : ScoringApi) (rc : ℤ)
      → Keeps (Quiet env.planner) (explore_edges env visit s es x dfu rc)
  unfolding explore_edges
  explore_edges-Keeps visit h s [] x dfu rc = Keeps-pure order _
  explore_edges-Keeps visit h s (e ∷ es) x dfu rc =
      search (keep_rules, order, h, explore_edges-Keeps visit h s es) depth 10

  explore-Keeps :
      (visit : Visit env)
      → QuietVisit visit
      → (u : ℕ) (s : String) (x : Bool) (dfu : ScoringApi)
      → Keeps (Quiet env.planner) (explore env visit u s x dfu)
  unfolding explore
  explore-Keeps visit h u s x dfu = explore_edges-Keeps visit h s (env.out_edges u) x dfu (negsuc 0)

  still_avail-Keeps :
      (message : String) (meta : JobMeta) (u : ℕ)
      → Keeps (Quiet env.planner) (still_avail env message meta u)
  unfolding still_avail
  still_avail-Keeps message meta u =
      search (keep_rules, order, avail_during-Keeps, same_graph) depth 10

  aux_upv-Keeps :
      (fuel : ℕ) (meta : JobMeta) (aux : String) (resources : List Resource)
      → QuietVisit (aux_upv env fuel meta aux resources)
  unfolding aux_upv
  aux_upv-Keeps zero meta aux resources u x dfu = Keeps-run order _
  aux_upv-Keeps (suc fuel) meta aux resources u x dfu =
      Keeps->>= order (prune-Keeps env meta aux u resources) λ pruned.
        Keeps-if order (pruned ==ℤ negsuc 0) (Keeps-pure order _) (
          Keeps->>= order (Keeps-modify order λ s. same_graph s _ refl refl refl) λ _.
            Keeps->>= order
              (Keeps-if order (u == root_of env aux) (Keeps-pure order _) (
                Keeps->>= order
                  (explore-Keeps _ (aux_upv-Keeps fuel meta aux resources) u aux x new_scoring_api)
                  λ _. Keeps-pure order _))
              λ upv. Keeps->>= order (still_avail-Keeps _ meta u) λ avail.
                Keeps-Option order avail (Keeps-pure order _)
                  λ _. search (keep_rules, order, same_graph, resolve-Keeps) depth 8)

  dom_exp_over-Keeps :
      (dfv : Visit env) (upv : String → Visit env)
      → QuietVisit dfv
      → ((s : String) → QuietVisit (upv s))
      → (d : String) (ss : List String) (u : ℕ) (x : Bool) (dfu : ScoringApi) (rc : ℤ)
      → Keeps (Quiet env.planner) (dom_exp_over env dfv upv d ss u x dfu rc)
  unfolding dom_exp_over
  dom_exp_over-Keeps dfv upv h k d [] u x dfu rc = Keeps-pure order _
  dom_exp_over-Keeps dfv upv h k d (s ∷ ss) u x dfu rc =
      Keeps->>= order
        (Keeps-if order (s =? d) (explore-Keeps dfv h u s x dfu)
          (explore-Keeps (upv s) (k s) u s x dfu))
        λ r. dom_exp_over-Keeps dfv upv h k d ss u x r.1 r.0

  dom_exp-Keeps :
      (dfv : Visit env) (upv : String → Visit env)
      → QuietVisit dfv
      → ((s : String) → QuietVisit (upv s))
      → (u : ℕ) (x : Bool) (dfu : ScoringApi)
      → Keeps (Quiet env.planner) (dom_exp env dfv upv u x dfu)
  unfolding dom_exp
  dom_exp-Keeps dfv upv h k u x dfu =
      Keeps->>= order (dom-Keeps env)
        λ d. dom_exp_over-Keeps dfv upv h k d env.matcher.subsystems u x dfu (negsuc 0)

  dom_slot-Keeps :
      (dfv : Visit env)
      → QuietVisit dfv
      → (shape : List Resource) (u : ℕ) (dfu : ScoringApi)
      → Keeps (Quiet env.planner) (dom_slot env dfv shape u dfu)
  unfolding dom_slot
  dom_slot-Keeps dfv h shape u dfu =
      search (keep_rules, order, dom-Keeps env, explore-Keeps dfv h) depth 14

  -- A walk that depends on the kind of the match.
  Keeps-kind :
      {A : Type 0} (kind : MatchKind)
      {m n : Store env.planner.Plan → Run (A × Store env.planner.Plan)}
      → Keeps (Quiet env.planner) m
      → Keeps (Quiet env.planner) n
      → Keeps (Quiet env.planner) (elim kind [ slot_match ↦ m | _ ↦ n ])
  Keeps-kind slot_match h k = h
  Keeps-kind resource_match h k = k
  Keeps-kind none_match h k = k

  dom_dfv-Keeps :
      (fuel : ℕ) (meta : JobMeta) (resources : List Resource)
      → QuietVisit (dom_dfv env fuel meta resources)
  unfolding dom_dfv
  dom_dfv-Keeps zero meta resources u x dfu = Keeps-run order _
  dom_dfv-Keeps (suc fuel) meta resources u x dfu = Keeps->>= order (dom-Keeps env) λ d.
      Keeps->>= order (Keeps-get order) λ st.
        let next = test env st u resources in
        let below = dom_dfv-Keeps fuel meta next.0 in
        Keeps->>= order (prune-Keeps env meta d u resources) λ pruned.
          Keeps-if order (pruned ==ℤ negsuc 0) (Keeps-pure order _) (
            Keeps->>= order (Keeps-modify order λ s. same_graph s _ refl refl refl) λ _.
              Keeps->>= order (Keeps-modify order λ s. paint-Quiet u d (Color.gray s.color_base) s)
                λ _.
                  Keeps->>= order
                    (Keeps-kind next.1 (dom_slot-Keeps _ below next.0 u new_scoring_api) (
                      dom_exp-Keeps _ _ below (λ s. aux_upv-Keeps fuel meta s next.0) u _
                        new_scoring_api))
                    λ r.
                      Keeps->>= order
                        (Keeps-modify order λ s. paint-Quiet u d (Color.black s.color_base) s)
                        λ _. Keeps->>= order (still_avail-Keeps _ meta u) λ avail.
                          Keeps-Option order avail (Keeps-pure order _)
                            λ _. search (keep_rules, order, same_graph, resolve-Keeps) depth 12)

  select-Keeps :
      (fuel : ℕ) (meta : JobMeta) (resources : List Resource) (root : ℕ) (excl : Bool)
      → Keeps (Quiet env.planner) (select env fuel meta resources root excl)
  unfolding select tick
  select-Keeps fuel meta resources root excl =
      search (keep_rules, order, dom-Keeps env, dom_dfv-Keeps, resolve_root-Keeps, same_graph) depth
        14

  -- The call only looks for a time.
  abbrev IsTimeCall : (Option env.planner.Plan → Option env.planner.Plan × ℤ × Option ℕ) → Type 0
  IsTimeCall call =
      (p : Option env.planner.Plan) → (c : TimeCall) × ((call p).0 ≡ after_search env.planner c p)

  searched_subplan :
      (d : String) (root : ℕ) (s : Store env.planner.Plan) (p q : Option env.planner.Plan)
      (e : Option ℕ) (c : TimeCall)
      → lookup d (s.vtx root).idata.subplans ≡ some p
      → q ≡ after_search env.planner c p
      → Quiet env.planner s (
          set_vtx root
            (map_idata (λ i. record i { subplans = insert d q i.subplans }))
            (set_errno e s))
  searched_subplan d root s p q none c h k =
      subplan-Quiet root d q s (rw (h, k) (inr (c ∷ [], refl)))
  searched_subplan d root s p q (some e) c h k =
      Quiet-Preorder.transitive s (set_errno (some e) s) _ (set_errno-Quiet (some e) s)
        (subplan-Quiet root d q (set_errno (some e) s) (rw (h, k) (inr (c ∷ [], refl))))

  avail_time-Keeps :
      (call : Option env.planner.Plan → Option env.planner.Plan × ℤ × Option ℕ) (root : ℕ)
      → IsTimeCall call
      → Keeps (Quiet env.planner) (avail_time env call root)
  unfolding avail_time modify ◌>>=◌ pure run
  avail_time-Keeps call root search_only = Keeps->>= order (dom-Keeps env) λ d.
      Keeps-get->>= env _ λ st. elim (Option-cases (lookup d (st.vtx root).idata.subplans)) [
        | inl e ↦ rw e tt
        | inr (p, e) ↦ rw e (
            searched_subplan d root st p (call p).0 (call p).2 (search_only p).0 e
              (search_only p).1)
      ]

  Keeps-test :
      {A : Type 0} (b : Bool) {m n : Store env.planner.Plan → Run (A × Store env.planner.Plan)}
      → Keeps (Quiet env.planner) m
      → Keeps (Quiet env.planner) n
      → Keeps (Quiet env.planner) (elim b [ true ↦ m | false ↦ n ])
  Keeps-test true h k = h
  Keeps-test false h k = k

  reserve-Keeps :
      (rounds fuel : ℕ) (meta : JobMeta) (resources : List Resource) (root : ℕ) (excl : Bool)
      (t : ℤ) (r : ℤ × ℕ)
      → Keeps (Quiet env.planner) (reserve env rounds fuel meta resources root excl t r)
  unfolding reserve
  reserve-Keeps zero fuel meta resources root excl t r = Keeps-run order _
  reserve-Keeps (suc rounds) fuel meta resources root excl t (rc, needs) =
      Keeps-test (t ==ℤ negsuc 0 || rc ==ℤ pos 0) (Keeps-pure order _) (
        Keeps->>= order (select-Keeps fuel _ resources root excl) λ r.
          Keeps->>= order (avail_time-Keeps _ root λ p. (next, refl))
            λ t'. reserve-Keeps rounds fuel _ resources root excl t' r)

  first_time-Keeps :
      (at : ℤ) (duration : ℕ) (counts : Option env.planner.Plan → List ℕ) (root : ℕ)
      → Keeps
          (Quiet env.planner)
          (avail_time env (λ p. env.planner.planner_avail_time_first p at duration (counts p)) root)
  first_time-Keeps at duration counts root =
      avail_time-Keeps _ root λ p. (first at duration (counts p), refl)

  schedule-Keeps :
      (rounds fuel : ℕ) (meta : JobMeta) (resources : List Resource) (root : ℕ) (x : Bool)
      (op : MatchOp) (dfv : Dict String ℕ)
      → Keeps (Quiet env.planner) (schedule env rounds fuel meta resources root x op dfv)
  unfolding schedule
  schedule-Keeps rounds fuel meta resources root x op dfv =
      search (keep_rules, order, dom-Keeps env, select-Keeps, first_time-Keeps, reserve-Keeps) depth
        12

  -- A search for resources that returns, now or for a reservation, whatever it found and however
  -- often it tried, has booked nothing: every vertex is the same resource, with the schedule it had,
  -- its tables and planners, and the table of spans it had; the planner of a subtree is as it was, or
  -- what calls of planner_avail_time_first and planner_avail_time_next have made of it, and no other
  -- call; every edge is a member of the same subsystems; no resource was emitted.
  pub schedule-Quiet :
      (rounds fuel : ℕ) (meta : JobMeta) (resources : List Resource) (root : ℕ) (x : Bool)
      (op : MatchOp) (dfv : Dict String ℕ) (s : Store env.planner.Plan)
      (r : (JobMeta × ℤ × ℕ) × Store env.planner.Plan)
      → schedule env rounds fuel meta resources root x op dfv s ≡ ok r
      → Quiet env.planner s r.1
  schedule-Quiet rounds fuel meta resources root x op dfv s r e =
      related (schedule-Keeps rounds fuel meta resources root x op dfv) s r e
