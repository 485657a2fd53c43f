-- ===== src/Traverse/Update/Local.antt =====
-- What a step at one vertex leaves alone: the other vertices altogether, the edges, and the other jobs'
-- entries at the vertex itself.
use resource_query.Prelude.{
  ℕ, ◌≡◌, refl, ◌∙◌, String, List, false, Option, none, some, lookup, string_key, ◌==◌, ==_iff,
  Bool-cases, inl, inr,
}
use resource_query.ResourceData.{ResourcePool}
use resource_query.Traverse.State.{Env, Store, set_vtx, append_err, set_errno, report_errno, paint}
use resource_query.Traverse.Prune.{subplan}
use resource_query.Traverse.Runs.{Preorder}
use resource_query.Traverse.Keeps.{
  Keeps, Keeps-get, Keeps-pure, Keeps-modify, Keeps->>=, Keeps-Option, keep_rules,
}
use resource_query.Traverse.Frame.{
  TagOrder, PoolFrame, PoolFrame-refl, PoolFrame-trans, Frame, subplan-PoolFrame, colors-PoolFrame,
}

module _ {P : Type 0} (jobid : ℕ) (tags : TagOrder) (u : ℕ) where
  pub record Local (s t : Store P) : Type 0 where
    pub here : PoolFrame jobid tags (s.vtx u) (t.vtx u)
    pub elsewhere : (v : ℕ) → (v == u) ≡ false → t.vtx v ≡ s.vtx v
    pub same_edg : t.edg ≡ s.edg
    pub same_round : t.best_k_cnt ≡ s.best_k_cnt

  pub Local-Preorder : Preorder Local
  Local-Preorder = record {
    reflexive = λ s. record {
      here = PoolFrame-refl jobid tags (s.vtx u);
      elsewhere = λ v n. refl;
      same_edg = refl;
      same_round = refl;
    };
    transitive = λ s t w f g. record {
      here = PoolFrame-trans jobid tags (s.vtx u) (t.vtx u) (w.vtx u) f.here g.here;
      elsewhere = λ v n. g.elsewhere v n ∙ f.elsewhere v n;
      same_edg = g.same_edg ∙ f.same_edg;
      same_round = g.same_round ∙ f.same_round;
    };
  }

  pub same_graph-Local :
      (s t : Store P) → t.vtx ≡ s.vtx → t.edg ≡ s.edg → t.best_k_cnt ≡ s.best_k_cnt → Local s t
  same_graph-Local s t a b c = record {
    here = rw a (PoolFrame-refl jobid tags (s.vtx u));
    elsewhere = λ v n. rw a refl;
    same_edg = b;
    same_round = c;
  }

  pub set_vtx-Local :
      (f : ResourcePool P → ResourcePool P)
      → ((p : ResourcePool P) → PoolFrame jobid tags p (f p))
      → (s : Store P) → Local s (set_vtx u f s)
  unfolding set_vtx
  set_vtx-Local f h s = record {
    here = elim (Bool-cases (u == u)) [
      | inl e ↦ rw e (h (s.vtx u))
      | inr e ↦ rw e (PoolFrame-refl jobid tags (s.vtx u))
    ];
    elsewhere = λ v n. rw n refl;
    same_edg = refl;
    same_round = refl;
  }

  pub set_errno-Local : (e : Option ℕ) (s : Store P) → Local s (set_errno e s)
  set_errno-Local none s = Local-Preorder.reflexive s
  set_errno-Local (some e) s = same_graph-Local s _ refl refl refl

  pub append_err-Local : (msg : List String) (s : Store P) → Local s (append_err msg s)
  append_err-Local msg s = same_graph-Local s _ refl refl refl

  pub Local-Frame : (s t : Store P) → Local s t → Frame jobid tags s t
  Local-Frame s t f = record {
    at_vtx = λ v. elim (Bool-cases (v == u)) [
      | inl e ↦ rw ((==_iff v u).0 e) f.here
      | inr e ↦ rw (f.elsewhere v e) (PoolFrame-refl jobid tags (s.vtx v))
    ];
    same_edg = λ e. rw (f.same_edg) refl;
    same_round = f.same_round;
  }

pub ruleset local_rules = (keep_rules, set_vtx-Local, set_errno-Local, append_err-Local)

module _ (env : Env) (jobid : ℕ) (tags : TagOrder) (u : ℕ) where
  abbrev order : Preorder (Local {P = env.planner.Plan} jobid tags u)
  order = Local-Preorder jobid tags u

  pub report_errno-Local :
      (end : List String) (s : Store env.planner.Plan)
      → Local jobid tags u s (report_errno env end s)
  unfolding report_errno
  report_errno-Local end s = elim (Bool-cases (s.errno == 0)) [
    | inl e ↦ rw e (order.reflexive s)
    | inr e ↦ rw e (same_graph-Local jobid tags u s _ refl refl refl)
  ]

  pub subplan-Keeps : (name : String) → Keeps (Local jobid tags u) (subplan env u name)
  unfolding subplan
  subplan-Keeps name = Keeps->>= order (Keeps-get order) λ st.
      Keeps-Option order (lookup name (st.vtx u).idata.subplans)
        (Keeps->>= order
          (Keeps-modify order
            (set_vtx-Local jobid tags u _ (subplan-PoolFrame jobid tags name none)))
          λ _. Keeps-pure order _)
        (λ p. Keeps-pure order _)

  pub paint-Local :
      (name : String) (c : ℕ) (s : Store env.planner.Plan) → Local jobid tags u s (paint u name c s)
  unfolding paint
  paint-Local name c s = set_vtx-Local jobid tags u _ (colors-PoolFrame jobid tags name c) s
