-- ===== src/Traverse/Quiet.antt =====
-- What a match attempt may change: colours, what edges select, messages, and a subtree planner by calls
-- that look for a time.
pub mod Parts
pub mod Search
use resource_query.Prelude.{
  ℕ, ℤ, ◌≡◌, refl, ap, ◌∙◌, String, List, [], ◌∷◌, ◌++◌, Option, none, some, ◌==◌, ==_iff, ◌=?◌,
  Dict, insert, lookup, string_key, lookup-insert, Bool-cases, inl, inr, ◌⊎◌, if◌then◌else◌,
}
use resource_query.ResourceData.{ResourcePool, ResourceRelation, identity}
use resource_query.Planner.{Planner}
use resource_query.Traverse.State.{
  Env, Store, set_vtx, set_edg, map_idata, append_err, set_errno, report_errno, paint,
}
use resource_query.Traverse.Runs.{Preorder}

-- A call that looks for a time: it may change a planner, but asks for no span.
pub data TimeCall : Type 0 where
  first : ℤ → ℕ → List ℕ → TimeCall
  next : TimeCall

module _ (planner : Planner) where
  -- The planner that a call leaves, and the one that several leave.
  abbrev pub after_search : TimeCall → Option planner.Plan → Option planner.Plan
  after_search (first at duration counts) p =
      (planner.planner_avail_time_first p at duration counts).0
  after_search next p = (planner.planner_avail_time_next p).0

  abbrev pub after_searches : List TimeCall → Option planner.Plan → Option planner.Plan
  after_searches [] p = p
  after_searches (c ∷ cs) p = after_searches cs (after_search c p)

  -- The entry of a table of planners: null where there is none.
  abbrev entry : Option (Option planner.Plan) → Option planner.Plan
  entry none = none
  entry (some p) = p

  -- An entry is as it was, or what calls that look for a time have made of it.
  abbrev pub Searched : Option (Option planner.Plan) → Option (Option planner.Plan) → Type 0
  Searched p q = (q ≡ p) ⊎ ((calls : List TimeCall) × (q ≡ some (after_searches calls (entry p))))

  -- The vertex is the same resource, its schedule is as it was, and so is its table of spans; its
  -- subtree planners were searched at most.
  pub record QuietPool (p q : ResourcePool planner.Plan) : Type 0 where
    pub same_resource : identity q ≡ identity p
    pub same_schedule : q.schedule ≡ p.schedule
    pub same_spans : q.idata.job2span ≡ p.idata.job2span
    pub searched : (s : String) → Searched (lookup s p.idata.subplans) (lookup s q.idata.subplans)

  -- Every vertex is, every edge is a member of what it was, and nothing was emitted.
  pub record Quiet (s t : Store planner.Plan) : Type 0 where
    pub at_vtx : (v : ℕ) → QuietPool (s.vtx v) (t.vtx v)
    pub same_member : (e : ℕ) → (t.edg e).idata.member_of ≡ (s.edg e).idata.member_of
    pub same_emitted : t.emitted ≡ s.emitted

  after_searches-++ :
      (cs ds : List TimeCall) (p : Option planner.Plan)
      → after_searches (cs ++ ds) p ≡ after_searches ds (after_searches cs p)
  after_searches-++ [] ds p = refl
  after_searches-++ (c ∷ cs) ds p = after_searches-++ cs ds (after_search c p)

  Searched-trans :
      (p q r : Option (Option planner.Plan)) → Searched p q → Searched q r → Searched p r
  Searched-trans p q r (inl e) h = rw e at h
  Searched-trans p q r (inr (cs, e)) (inl f) = inr (cs, f ∙ e)
  Searched-trans p q r (inr (cs, e)) (inr (ds, f)) =
      inr (cs ++ ds, f ∙ rw (e, after_searches-++ cs ds (entry p)) refl)

module _ {planner : Planner} where
  QuietPool-refl : (p : ResourcePool planner.Plan) → QuietPool planner p p
  QuietPool-refl p = record {
    same_resource = refl;
    same_schedule = refl;
    same_spans = refl;
    searched = λ s. inl refl;
  }

  QuietPool-trans :
      (p q r : ResourcePool planner.Plan)
      → QuietPool planner p q
      → QuietPool planner q r
      → QuietPool planner p r
  QuietPool-trans p q r f g = record {
    same_resource = g.same_resource ∙ f.same_resource;
    same_schedule = g.same_schedule ∙ f.same_schedule;
    same_spans = g.same_spans ∙ f.same_spans;
    searched = λ s.
        Searched-trans planner (lookup s p.idata.subplans) (lookup s q.idata.subplans)
          (lookup s r.idata.subplans) (f.searched s) (g.searched s);
  }

  pub Quiet-Preorder : Preorder (Quiet planner)
  Quiet-Preorder = record {
    reflexive = λ s. record {
      at_vtx = λ v. QuietPool-refl (s.vtx v);
      same_member = λ e. refl;
      same_emitted = refl;
    };
    transitive = λ s t u f g. record {
      at_vtx = λ v. QuietPool-trans (s.vtx v) (t.vtx v) (u.vtx v) (f.at_vtx v) (g.at_vtx v);
      same_member = λ e. g.same_member e ∙ f.same_member e;
      same_emitted = g.same_emitted ∙ f.same_emitted;
    };
  }

  pub same_graph :
      (s t : Store planner.Plan)
      → t.vtx ≡ s.vtx
      → t.edg ≡ s.edg
      → t.emitted ≡ s.emitted
      → Quiet planner s t
  same_graph s t a b c = record {
    at_vtx = λ v. rw a (QuietPool-refl (s.vtx v));
    same_member = λ e. rw b refl;
    same_emitted = c;
  }

  set_vtx-Quiet :
      (u : ℕ) (f : ResourcePool planner.Plan → ResourcePool planner.Plan) (s : Store planner.Plan)
      → QuietPool planner (s.vtx u) (f (s.vtx u))
      → Quiet planner s (set_vtx u f s)
  unfolding set_vtx
  set_vtx-Quiet u f s h = record {
    at_vtx = λ v. elim (Bool-cases (v == u)) [
      | inl e ↦ rw (e, (==_iff v u).0 e) h
      | inr e ↦ rw e (QuietPool-refl (s.vtx v))
    ];
    same_member = λ e. refl;
    same_emitted = refl;
  }

  -- A new entry for a subtree planner.
  pub subplan-Quiet :
      (u : ℕ) (name : String) (q : Option planner.Plan) (s : Store planner.Plan)
      → Searched planner (lookup name (s.vtx u).idata.subplans) (some q)
      → Quiet planner s
          (set_vtx u (map_idata (λ i. record i { subplans = insert name q i.subplans })) s)
  subplan-Quiet u name q s h =
      set_vtx-Quiet u (map_idata (λ i. record i { subplans = insert name q i.subplans })) s
        (record {
          same_resource = refl;
          same_schedule = refl;
          same_spans = refl;
          searched = λ other.
              rw (lookup-insert name other q (s.vtx u).idata.subplans)
                (elim (Bool-cases (name =? other)) [
                  | inl e ↦ rw e (rw ((string_key.beq_iff name other).0 e) at h)
                  | inr e ↦ rw e (inl refl)
                ]);
        })

  pub paint-Quiet :
      (u : ℕ) (name : String) (c : ℕ) (s : Store planner.Plan) → Quiet planner s (paint u name c s)
  unfolding paint
  paint-Quiet u name c s =
      set_vtx-Quiet u (map_idata (λ i. record i { colors = insert name c i.colors })) s (record {
        same_resource = refl;
        same_schedule = refl;
        same_spans = refl;
        searched = λ other. inl refl;
      })

  pub set_edg-Quiet :
      (d : ℕ) (f : ResourceRelation → ResourceRelation)
      → ((r : ResourceRelation) → (f r).idata.member_of ≡ r.idata.member_of)
      → (s : Store planner.Plan) → Quiet planner s (set_edg d f s)
  unfolding set_edg
  set_edg-Quiet d f h s = record {
    at_vtx = λ v. QuietPool-refl (s.vtx v);
    same_member =
        λ e. elim (Bool-cases (e == d)) [ inl k ↦ rw k (h (s.edg e)) | inr k ↦ rw k refl ];
    same_emitted = refl;
  }

  pub set_errno-Quiet : (e : Option ℕ) (s : Store planner.Plan) → Quiet planner s (set_errno e s)
  set_errno-Quiet none s = Quiet-Preorder.reflexive s
  set_errno-Quiet (some e) s = same_graph s _ refl refl refl

pub report_errno-Quiet :
    (env : Env) (end : List String) (s : Store env.planner.Plan)
    → Quiet env.planner s (report_errno env end s)
unfolding report_errno
report_errno-Quiet env end s = elim (Bool-cases (s.errno == 0)) [
  | inl e ↦ rw e (Quiet-Preorder.reflexive s)
  | inr e ↦ rw e (same_graph s _ refl refl refl)
]
