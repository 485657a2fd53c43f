-- ===== src/Traverse/Frame.antt =====
-- What a walk for one job leaves alone: the resources, the edges, and the other jobs' entries. What it
-- may do to the tags of the job itself is a parameter.
use resource_query.Prelude.{
  ℕ, ℤ, ◌≡◌, refl, ap, ◌∙◌, String, List, Bool, false, Option, none, some, Dict, lookup, insert,
  erase, contains, nat_key, string_key, ◌==◌, lookup-erase, lookup-insert, Bool-cases, inl, inr,
}
use resource_query.ResourceData.{Schedule, ResourcePool, identity}
use resource_query.Traverse.State.{
  Env, Store, set_vtx, map_schedule, map_idata, append_err, set_errno, report_errno, paint,
}
use resource_query.Traverse.Prune.{subplan}
use resource_query.Traverse.Runs.{
  Preorder, Runs, Runs-pure, Runs-get, Runs-modify, Runs->>=, Runs-if, Runs-Option,
}

-- How the job's tag at a vertex before the walk is related to the one after it.
pub record TagOrder : Type 1 where
  pub Rel : Bool → Bool → Type 0
  pub reflexive : (a : Bool) → Rel a a
  pub transitive : (a b c : Bool) → Rel a b → Rel b c → Rel a c

pub erase-keeps :
    {V : Type 0} (jobid : ℕ) (m : Dict ℕ V) (j : ℕ)
    → (jobid == j) ≡ false
    → lookup j (erase jobid m) ≡ lookup j m
erase-keeps jobid m j h = lookup-erase jobid j m ∙ rw h

pub insert-keeps :
    {V : Type 0} (jobid : ℕ) (v : V) (m : Dict ℕ V) (j : ℕ)
    → (jobid == j) ≡ false
    → lookup j (insert jobid v m) ≡ lookup j m
insert-keeps jobid v m j h = lookup-insert jobid j v m ∙ rw h

module _ {P : Type 0} (jobid : ℕ) (tags : TagOrder) where
  -- The vertex is the same resource, every other job has the same entries in its tables, and the job
  -- itself has a tag as the order allows.
  pub record PoolFrame (p q : ResourcePool P) : Type 0 where
    pub same_resource : identity q ≡ identity p
    pub same_tag :
        (j : ℕ) → (jobid == j) ≡ false → lookup j q.schedule.tags ≡ lookup j p.schedule.tags
    pub same_allocation :
        (j : ℕ)
        → (jobid == j) ≡ false
        → lookup j q.schedule.allocations ≡ lookup j p.schedule.allocations
    pub same_reservation :
        (j : ℕ)
        → (jobid == j) ≡ false
        → lookup j q.schedule.reservations ≡ lookup j p.schedule.reservations
    pub same_x_span :
        (j : ℕ) → (jobid == j) ≡ false → lookup j q.schedule.x_spans ≡ lookup j p.schedule.x_spans
    pub same_span :
        (j : ℕ) → (jobid == j) ≡ false → lookup j q.idata.job2span ≡ lookup j p.idata.job2span
    pub own_tag : tags.Rel (contains jobid p.schedule.tags) (contains jobid q.schedule.tags)

  pub PoolFrame-refl : (p : ResourcePool P) → PoolFrame p p
  PoolFrame-refl p = record {
    same_resource = refl;
    same_tag = λ j h. refl;
    same_allocation = λ j h. refl;
    same_reservation = λ j h. refl;
    same_x_span = λ j h. refl;
    same_span = λ j h. refl;
    own_tag = tags.reflexive (contains jobid p.schedule.tags);
  }

  pub PoolFrame-trans : (p q r : ResourcePool P) → PoolFrame p q → PoolFrame q r → PoolFrame p r
  PoolFrame-trans p q r f g = record {
    same_resource = g.same_resource ∙ f.same_resource;
    same_tag = λ j h. g.same_tag j h ∙ f.same_tag j h;
    same_allocation = λ j h. g.same_allocation j h ∙ f.same_allocation j h;
    same_reservation = λ j h. g.same_reservation j h ∙ f.same_reservation j h;
    same_x_span = λ j h. g.same_x_span j h ∙ f.same_x_span j h;
    same_span = λ j h. g.same_span j h ∙ f.same_span j h;
    own_tag = tags.transitive _ (contains jobid q.schedule.tags) _ f.own_tag g.own_tag;
  }

  -- The whole graph: each vertex, and every edge as it was.
  pub record Frame (s t : Store P) : Type 0 where
    pub at_vtx : (v : ℕ) → PoolFrame (s.vtx v) (t.vtx v)
    pub same_edg : (e : ℕ) → t.edg e ≡ s.edg e
    pub same_round : t.best_k_cnt ≡ s.best_k_cnt

  pub Frame-Preorder : Preorder Frame
  Frame-Preorder = record {
    reflexive = λ s. record {
      at_vtx = λ v. PoolFrame-refl (s.vtx v);
      same_edg = λ e. refl;
      same_round = refl;
    };
    transitive = λ s t u f g. record {
      at_vtx = λ v. PoolFrame-trans (s.vtx v) (t.vtx v) (u.vtx v) (f.at_vtx v) (g.at_vtx v);
      same_edg = λ e. g.same_edg e ∙ f.same_edg e;
      same_round = g.same_round ∙ f.same_round;
    };
  }

  -- A change at one vertex.
  pub set_vtx-Frame :
      (u : ℕ) (f : ResourcePool P → ResourcePool P)
      → ((p : ResourcePool P) → PoolFrame p (f p))
      → (s : Store P) → Frame s (set_vtx u f s)
  unfolding set_vtx
  set_vtx-Frame u f h s = record {
    at_vtx = λ v. elim (Bool-cases (v == u)) [
      | inl e ↦ rw e (h (s.vtx v))
      | inr e ↦ rw e (PoolFrame-refl (s.vtx v))
    ];
    same_edg = λ e. refl;
    same_round = refl;
  }

  -- A change of nothing but the messages or `errno`.
  pub set_errno-Frame : (e : Option ℕ) (s : Store P) → Frame s (set_errno e s)
  set_errno-Frame none s = Frame-Preorder.reflexive s
  set_errno-Frame (some e) s = record {
    at_vtx = λ v. PoolFrame-refl (s.vtx v);
    same_edg = λ d. refl;
    same_round = refl;
  }

  pub append_err-Frame : (msg : List String) (s : Store P) → Frame s (append_err msg s)
  append_err-Frame msg s = record {
    at_vtx = λ v. PoolFrame-refl (s.vtx v);
    same_edg = λ d. refl;
    same_round = refl;
  }

  -- A vertex with the same tables.
  kept-PoolFrame :
      (p q : ResourcePool P)
      → identity q ≡ identity p
      → q.schedule.tags ≡ p.schedule.tags
      → q.schedule.allocations ≡ p.schedule.allocations
      → q.schedule.reservations ≡ p.schedule.reservations
      → q.schedule.x_spans ≡ p.schedule.x_spans
      → ((j : ℕ) → (jobid == j) ≡ false → lookup j q.idata.job2span ≡ lookup j p.idata.job2span)
      → PoolFrame p q
  kept-PoolFrame p q same t al re x span = record {
    same_resource = same;
    same_tag = λ j h. ap (lookup j) t;
    same_allocation = λ j h. ap (lookup j) al;
    same_reservation = λ j h. ap (lookup j) re;
    same_x_span = λ j h. ap (lookup j) x;
    same_span = span;
    own_tag = rw t (tags.reflexive (contains jobid p.schedule.tags));
  }

  -- Changes at a vertex that concern no table.
  pub plans-PoolFrame :
      (q : Option P) (p : ResourcePool P)
      → PoolFrame p (map_schedule (λ c. record c { plans = q }) p)
  plans-PoolFrame q p = kept-PoolFrame p _ refl refl refl refl refl (λ j h. refl)

  pub x_checker-PoolFrame :
      (q : Option P) (p : ResourcePool P)
      → PoolFrame p (map_schedule (λ c. record c { x_checker = q }) p)
  x_checker-PoolFrame q p = kept-PoolFrame p _ refl refl refl refl refl (λ j h. refl)

  pub colors-PoolFrame :
      (s : String) (c : ℕ) (p : ResourcePool P)
      → PoolFrame p (map_idata (λ i. record i { colors = insert s c i.colors }) p)
  colors-PoolFrame s c p = kept-PoolFrame p _ refl refl refl refl refl (λ j h. refl)

  pub job2span-PoolFrame :
      (span : ℤ) (p : ResourcePool P)
      → PoolFrame p (map_idata (λ i. record i { job2span = insert jobid span i.job2span }) p)
  job2span-PoolFrame span p =
      kept-PoolFrame p _ refl refl refl refl refl (insert-keeps jobid span p.idata.job2span)

  pub subplan-PoolFrame :
      (s : String) (q : Option P) (p : ResourcePool P)
      → PoolFrame p (map_idata (λ i. record i { subplans = insert s q i.subplans }) p)
  subplan-PoolFrame s q p = kept-PoolFrame p _ refl refl refl refl refl (λ j h. refl)

module _ {P : Type 0} (jobid : ℕ) (tags : TagOrder) where
  -- Another schedule, with the same entries for the other jobs.
  pub schedule-PoolFrame :
      (p : ResourcePool P) (c : Schedule P)
      → ((j : ℕ) → (jobid == j) ≡ false → lookup j c.tags ≡ lookup j p.schedule.tags)
      → ((j : ℕ) → (jobid == j) ≡ false → lookup j c.allocations ≡ lookup j p.schedule.allocations)
      → ((j : ℕ)
          → (jobid == j) ≡ false
          → lookup j c.reservations ≡ lookup j p.schedule.reservations)
      → ((j : ℕ) → (jobid == j) ≡ false → lookup j c.x_spans ≡ lookup j p.schedule.x_spans)
      → tags.Rel (contains jobid p.schedule.tags) (contains jobid c.tags)
      → PoolFrame jobid tags p (map_schedule (λ _. c) p)
  schedule-PoolFrame p c t a r x n = record {
    same_resource = refl;
    same_tag = t;
    same_allocation = a;
    same_reservation = r;
    same_x_span = x;
    same_span = λ j h. refl;
    own_tag = n;
  }

pub ruleset frame_rules = (
  Runs-pure, Runs-get, Runs-modify, Runs->>=, Runs-if, Runs-Option, set_vtx-Frame, set_errno-Frame,
  append_err-Frame,
)

pub report_errno-Frame :
    (env : Env) (jobid : ℕ) (tags : TagOrder) (end : List String) (s : Store env.planner.Plan)
    → Frame jobid tags s (report_errno env end s)
unfolding report_errno
report_errno-Frame env jobid tags end s = elim (Bool-cases (s.errno == 0)) [
  | inl e ↦ rw e ((Frame-Preorder jobid tags).reflexive s)
  | inr e ↦ rw e (record {
    at_vtx = λ v. PoolFrame-refl jobid tags (s.vtx v);
    same_edg = λ d. refl;
    same_round = refl;
  })
]

module _ (env : Env) (jobid : ℕ) (tags : TagOrder) where
  abbrev order : Preorder (Frame {P = env.planner.Plan} jobid tags)
  order = Frame-Preorder jobid tags

  pub subplan-Runs : (u : ℕ) (s : String) → Runs (Frame jobid tags) (subplan env u s)
  unfolding subplan
  subplan-Runs u s = Runs->>= order (Runs-get order) λ st.
      Runs-Option order (lookup s (st.vtx u).idata.subplans)
        (Runs->>= order
          (Runs-modify order (set_vtx-Frame jobid tags u _ (subplan-PoolFrame jobid tags s none)))
          λ _. Runs-pure order _)
        (λ p. Runs-pure order _)

  pub paint-Frame :
      (u : ℕ) (subsystem : String) (c : ℕ) (s : Store env.planner.Plan)
      → Frame jobid tags s (paint u subsystem c s)
  unfolding paint
  paint-Frame u subsystem c s =
      set_vtx-Frame jobid tags u _ (colors-PoolFrame jobid tags subsystem c) s
