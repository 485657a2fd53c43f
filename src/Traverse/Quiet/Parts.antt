-- ===== src/Traverse/Quiet/Parts.antt =====
-- The pruning, the resolution and the priming of a match are quiet.
use resource_query.Prelude.{
  ℕ, refl, ◌+◌, ◌+ℤ◌, ℤ, zero, suc, String, List, [], ◌∷◌, ◌==ℤ◌, pos, lookup, string_key,
  Option-cases, none, insert, ◌≡◌, inl, inr,
}
use resource_query.Matcher.Subsystems.{dom_subsystem}
use resource_query.Jobspec.{Resource}
use resource_query.Scoring.Evals.{EvalEdg}
use resource_query.Scoring.Api
use resource_query.Scoring.Api.{ScoringApi}
use resource_query.Traverse.State.{
  Env, JobMeta, Store, M, ◌>>=◌, get, modify, pure, dom, set_vtx, map_idata,
}
use resource_query.Traverse.Runs.{Preorder}
use resource_query.Traverse.Keeps.{
  After, Keeps, keeps, Keeps-pure, Keeps-get, Keeps-run, Keeps-modify, Keeps->>=, Keeps-if,
  Keeps-Option, keep_rules,
}
use resource_query.Traverse.Prune.{
  avail_during, by_avail, by_excl, subplan, by_subplan, prune_each, prune,
}
use resource_query.Traverse.Resolve.{
  select_edge, enforce_edges, enforce_groups, enforce_types, enforce, enforce_all, resolve,
  resolve_root,
}
use resource_query.Traverse.Quiet.{
  Quiet, Quiet-Preorder, same_graph, subplan-Quiet, set_edg-Quiet, set_errno-Quiet,
  report_errno-Quiet,
}

module _ (env : Env) where
  abbrev order : Preorder (Quiet env.planner)
  order = Quiet-Preorder

  pub dom-Keeps : Keeps (Quiet env.planner) (dom env)
  unfolding dom
  dom-Keeps = keeps λ s. elim (Option-cases (dom_subsystem env.matcher)) [
    | inl e ↦ rw (dom, e) tt
    | inr (d, e) ↦ rw (dom, e) (Quiet-Preorder.reflexive s)
  ]

  pub avail_during-Keeps :
      (meta : JobMeta) (u : ℕ) → Keeps (Quiet env.planner) (avail_during env meta u)
  unfolding avail_during
  avail_during-Keeps meta u = search (keep_rules, order, set_errno-Quiet) depth 8

  by_avail-Keeps : (meta : JobMeta) (u : ℕ) → Keeps (Quiet env.planner) (by_avail env meta u)
  unfolding by_avail
  by_avail-Keeps meta u =
      search (keep_rules, order, avail_during-Keeps, report_errno-Quiet, same_graph) depth 10

  by_excl-Keeps :
      (meta : JobMeta) (u : ℕ) (r : Resource) → Keeps (Quiet env.planner) (by_excl env meta u r)
  unfolding by_excl
  by_excl-Keeps meta u r =
      search (keep_rules, order, set_errno-Quiet, report_errno-Quiet, same_graph) depth 12

  pub Keeps-get->>= :
      {A : Type 0} (f : Store env.planner.Plan → M (Store env.planner.Plan) A)
      → ((s : Store env.planner.Plan) → After (f s s) (λ r. Quiet env.planner s r.1))
      → Keeps (Quiet env.planner) (get >>= f)
  unfolding ◌>>=◌ get
  Keeps-get->>= f h = keeps h

  no_subplan :
      (u : ℕ) (s : String) (st : Store env.planner.Plan)
      → lookup s (st.vtx u).idata.subplans ≡ none
      → Quiet env.planner st
          (set_vtx u (map_idata (λ i. record i { subplans = insert s none i.subplans })) st)
  no_subplan u s st e = subplan-Quiet u s none st (rw e (inr ([], refl)))

  subplan-Keeps : (u : ℕ) (s : String) → Keeps (Quiet env.planner) (subplan env u s)
  unfolding subplan modify ◌>>=◌ pure
  subplan-Keeps u s = Keeps-get->>= _ λ st.
      elim (Option-cases (lookup s (st.vtx u).idata.subplans)) [
        | inl e ↦ rw e (no_subplan u s st e)
        | inr (p, e) ↦ rw e (Quiet-Preorder.reflexive st)
      ]

  by_subplan-Keeps :
      (meta : JobMeta) (s : String) (u : ℕ) (r : Resource)
      → Keeps (Quiet env.planner) (by_subplan env meta s u r)
  unfolding by_subplan
  by_subplan-Keeps meta s u r =
      search (keep_rules, order, subplan-Keeps, set_errno-Quiet, same_graph) depth 12

  prune_each-Keeps :
      (meta : JobMeta) (s : String) (u : ℕ) (rs : List Resource) (rc : ℤ)
      → Keeps (Quiet env.planner) (prune_each env meta s u rs rc)
  unfolding prune_each
  prune_each-Keeps meta s u [] rc = Keeps-pure order rc
  prune_each-Keeps meta s u (r ∷ rs) rc =
      search (keep_rules, order, by_excl-Keeps, by_subplan-Keeps, prune_each-Keeps meta s u rs)
        depth 12

  pub prune-Keeps :
      (meta : JobMeta) (s : String) (u : ℕ) (rs : List Resource)
      → Keeps (Quiet env.planner) (prune env meta s u rs)
  unfolding prune
  prune-Keeps meta s u rs = search (keep_rules, order, by_avail-Keeps, prune_each-Keeps) depth 8

  enforce_edges-Keeps : (es : List EvalEdg) → Keeps (Quiet env.planner) (enforce_edges env es)
  unfolding enforce_edges
  enforce_edges-Keeps [] = Keeps-pure order tt
  enforce_edges-Keeps (e ∷ es) =
      Keeps->>= order
        (Keeps-Option order e.edge (Keeps-run order _)
          (λ d. Keeps-modify order λ s. set_edg-Quiet d (select_edge e s.best_k_cnt) (λ r. refl) s))
        λ _. enforce_edges-Keeps es

  enforce_groups-Keeps :
      (s t : String) (n i : ℕ) (dfu : ScoringApi)
      → Keeps (Quiet env.planner) (enforce_groups env s t n i dfu)
  unfolding enforce_groups
  enforce_groups-Keeps s t zero i dfu = Keeps-pure order _
  enforce_groups-Keeps s t (suc n) i dfu =
      Keeps-Option order (Api.at dfu s t i).1 (Keeps-pure order _) λ g.
        Keeps-if order g.root (enforce_groups-Keeps s t n (i + 1) _)
          (Keeps->>= order (enforce_edges-Keeps g.edges) λ _. enforce_groups-Keeps s t n (i + 1) _)

  enforce_types-Keeps :
      (s : String) (ts : List String) (dfu : ScoringApi)
      → Keeps (Quiet env.planner) (enforce_types env s ts dfu)
  unfolding enforce_types
  enforce_types-Keeps s [] dfu = Keeps-pure order _
  enforce_types-Keeps s (t ∷ ts) dfu =
      Keeps->>= order (enforce_groups-Keeps s t _ 0 _)
        λ r. Keeps-Option order r (Keeps-pure order _) λ d. enforce_types-Keeps s ts d

  enforce-Keeps : (s : String) (dfu : ScoringApi) → Keeps (Quiet env.planner) (enforce env s dfu)
  unfolding enforce
  enforce-Keeps s dfu = Keeps->>= order (enforce_types-Keeps s _ _) λ r.
      Keeps-Option order r (search (keep_rules, order, same_graph) depth 6) λ d. Keeps-pure order _

  pub enforce_all-Keeps :
      (ss : List String) (dfu : ScoringApi) (rc : ℤ)
      → Keeps (Quiet env.planner) (enforce_all env ss dfu rc)
  unfolding enforce_all
  enforce_all-Keeps [] dfu rc = Keeps-pure order _
  enforce_all-Keeps (s ∷ ss) dfu rc =
      Keeps->>= order (enforce-Keeps s dfu) λ r. enforce_all-Keeps ss r.0 (rc +ℤ r.1)

  pub resolve-Keeps :
      (dfu to_parent : ScoringApi) → Keeps (Quiet env.planner) (resolve env dfu to_parent)
  unfolding resolve
  resolve-Keeps dfu to_parent = search (keep_rules, order, enforce_all-Keeps) depth 8

  pub resolve_root-Keeps :
      (root : ℕ) (resources : List Resource) (dfu : ScoringApi)
      → Keeps (Quiet env.planner) (resolve_root env root resources dfu)
  unfolding resolve_root
  resolve_root-Keeps root resources dfu = Keeps->>= order dom-Keeps λ d.
      Keeps->>= order (Keeps-run order _) λ f. Keeps->>= order (Keeps-get order) λ st.
        Keeps-if order (f.1 ==ℤ pos 0)
          (Keeps->>= order (Keeps-run order _) λ needs.
            Keeps-Option order needs (Keeps-pure order _) λ n.
              Keeps->>= order (Keeps-run order _) λ rest.
                Keeps-Option order rest (Keeps-pure order _)
                  λ e. search (keep_rules, order, enforce_all-Keeps) depth 6)
          (Keeps-pure order _)
