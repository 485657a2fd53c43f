-- ===== src/Traverse/Update/Total.antt =====
-- How the walk of an update ends.
use resource_query.Prelude.{
  ℕ, zero, suc, ◌+◌, ◌<◌, pos, negsuc, ◌≡◌, refl, ap, ◌∙◌, String, List, [], ◌∷◌, Bool, true, false,
  ◌||◌, not, some, Dict, string_key, ◌==◌, ==_iff, ◌=?◌, ltb, add32, if◌then◌else◌, All, arith, inl,
  inr, ◌⊎◌, Bool-cases,
}
use resource_query.Run.{Settles}
use resource_query.ResourceData.Color
use resource_query.Matcher.Subsystems.{dom_subsystem}
use resource_query.Traverse.State.{
  Env, JobMeta, Store, Walk, in_subsystem, stop_explore, tick_color_base, paint, set_vtx,
}
use resource_query.Traverse.Ends.{
  Ends, Ends-pure, Ends-get->>=, Ends-modify->>=, Ends->>=, Ends-if, Ends-weaken, Ends-Settles,
  Ends-dom,
}
use resource_query.Traverse.Remove.{is_tagged}
use resource_query.Traverse.Frame.{Frame, Frame-Preorder}
use resource_query.Traverse.Update.{upd_upv, upd_edges, upd_subsystems, upd_sched, upd_dfv, update}
use resource_query.Traverse.Update.Local.{
  Local, Local-Preorder, Local-Frame, paint-Local, same_graph-Local,
}
use resource_query.Traverse.Update.Frame.{tagging}
use resource_query.Traverse.Update.Tag.{IsCallFault, Refuses, upd_sched-Tags}

module _ (env : Env) (meta : JobMeta) where
  -- The edges that the selection of this round wrote.
  abbrev pub is_selected : Store env.planner.Plan → ℕ → Bool
  is_selected s e = (s.edg e).idata.best_k_cnt == s.best_k_cnt

  -- Selected edges go down in rank, so that they make no cycle.
  abbrev pub Descends : (ℕ → ℕ) → Store env.planner.Plan → ℕ → List ℕ → Type 0
  Descends rank s u es = All (λ e. is_selected s e ≡ true → rank (env.target e) < rank u) es

  abbrev IsFrame : Store env.planner.Plan → Store env.planner.Plan → Type 0
  IsFrame s t = Frame meta.jobid tagging s t

  Descends-Frame :
      (rank : ℕ → ℕ) (s t : Store env.planner.Plan) (u : ℕ) (es : List ℕ)
      → IsFrame s t
      → Descends rank s u es
      → Descends rank t u es
  Descends-Frame rank s t u [] f h = tt
  Descends-Frame rank s t u (e ∷ es) f h =
      (λ k. h.0 (rw (sym_edg, sym_round) k), Descends-Frame rank s t u es f h.1)
    where
      sym_edg : s.edg e ≡ t.edg e
      sym_edg = cc (f.same_edg e)

      sym_round : s.best_k_cnt ≡ t.best_k_cnt
      sym_round = cc f.same_round

  module _ (rank : ℕ → ℕ) where
    -- The step keeps the frame, and no vertex of this rank or a greater one changes.
    record Moves (k : ℕ) (s t : Store env.planner.Plan) : Type 0 where
      frame : IsFrame s t
      above : (v : ℕ) → k < suc (rank v) → t.vtx v ≡ s.vtx v

    Moves-refl : (k : ℕ) (s : Store env.planner.Plan) → Moves k s s
    Moves-refl k s = record {
      frame = (Frame-Preorder meta.jobid tagging).reflexive s;
      above = λ v h. refl;
    }

    Moves-trans : (k : ℕ) (s t u : Store env.planner.Plan) → Moves k s t → Moves k t u → Moves k s u
    Moves-trans k s t u f g = record {
      frame = (Frame-Preorder meta.jobid tagging).transitive s t u f.frame g.frame;
      above = λ v h. g.above v h ∙ f.above v h;
    }

    Moves-weaken : (j k : ℕ) (s t : Store env.planner.Plan) → j < suc k → Moves j s t → Moves k s t
    Moves-weaken j k s t h f = record { frame = f.frame; above = λ v l. f.above v (omega arith) }

    -- A step that concerns nothing of the graph.
    Moves-same :
        (k : ℕ) (s t : Store env.planner.Plan)
        → t.vtx ≡ s.vtx
        → t.edg ≡ s.edg
        → t.best_k_cnt ≡ s.best_k_cnt
        → Moves k s t
    Moves-same k s t a b c = record {
      frame =
          Local-Frame meta.jobid tagging 0 s t (same_graph-Local meta.jobid tagging 0 s t a b c);
      above = λ v h. rw a refl;
    }

    Local-Moves :
        (u : ℕ) (s t : Store env.planner.Plan)
        → Local meta.jobid tagging u s t
        → Moves (suc (rank u)) s t
    Local-Moves u s t f = record {
      frame = Local-Frame meta.jobid tagging u s t f;
      above = λ v h. elim (Bool-cases (v == u)) [
        | inl e ↦ absurd (below v h ((==_iff v u).0 e))
        | inr e ↦ f.elsewhere v e
      ];
    }
      where
        below : (v : ℕ) → suc (rank u) < suc (rank v) → v ≡ u → ⊥
        below v h e = omega (arith, ap rank e)

    module _ (visit : ℕ → ℕ → Bool → Dict String ℕ → Walk env (ℕ × Dict String ℕ))
        (start : Store env.planner.Plan) (u : ℕ) where
      -- A visit of a vertex of lower rank ends.
      abbrev Visits : Type 0
      Visits =
          (v needs : ℕ) (excl : Bool) (dfu : Dict String ℕ) (s : Store env.planner.Plan)
          → rank v < rank u
          → Moves (rank u) start s
          → Ends (IsCallFault env meta) (visit v needs excl dfu) s (λ _ t. Moves (rank u) s t)

      upd_edges-Ends :
          Visits
          → (d subsystem : String) (es : List ℕ) (n : ℕ) (dfu : Dict String ℕ)
            (s : Store env.planner.Plan)
          → Moves (rank u) start s
          → Descends rank start u es
          → Ends
              (IsCallFault env meta)
              (upd_edges env visit d subsystem es n dfu)
              s
              (λ _ t. Moves (rank u) s t)
      unfolding upd_edges
      upd_edges-Ends visits d subsystem [] n dfu s f h = Ends-pure _ s (Moves-refl (rank u) s)
      upd_edges-Ends visits d subsystem (e ∷ es) n dfu s f h = Ends-get->>= _ (
          Ends-if
            (not (in_subsystem s e subsystem)
              || stop_explore env s e subsystem
              || not (is_selected s e))
            (λ _. upd_edges-Ends visits d subsystem es n dfu s f h.1)
            (λ k.
              Ends-if (subsystem =? d)
                (λ _.
                  Ends->>= (visits (env.target e) _ _ dfu s (lower (followed k)) f) λ (m, dfu') t g.
                    Ends-weaken (λ _ t'. Moves-trans (rank u) s t t' g)
                      (upd_edges-Ends visits d subsystem es (n + m) dfu' t
                        (Moves-trans (rank u) start s t f g) h.1))
                (λ _. upd_edges-Ends visits d subsystem es (n + upd_upv env) dfu s f h.1)))
        where
          followed :
              (not (in_subsystem s e subsystem)
                  || stop_explore env s e subsystem
                  || not (is_selected s e))
                ≡ false
              → is_selected s e ≡ true
          followed k = ground arith

          lower : is_selected s e ≡ true → rank (env.target e) < rank u
          lower k = (Descends-Frame rank start s u (e ∷ es) f.frame h).0 k

      upd_subsystems-Ends :
          Visits
          → (d : String) (ss : List String) (es : List ℕ) (n : ℕ) (dfu : Dict String ℕ)
            (s : Store env.planner.Plan)
          → Moves (rank u) start s
          → Descends rank start u es
          → Ends
              (IsCallFault env meta)
              (upd_subsystems env visit d ss es n dfu)
              s
              (λ _ t. Moves (rank u) s t)
      unfolding upd_subsystems
      upd_subsystems-Ends visits d [] es n dfu s f h = Ends-pure _ s (Moves-refl (rank u) s)
      upd_subsystems-Ends visits d (a ∷ ss) es n dfu s f h =
          Ends->>= (upd_edges-Ends visits d a es n dfu s f h) λ (m, own) t g.
            Ends-weaken (λ _ t'. Moves-trans (rank u) s t t' g)
              (upd_subsystems-Ends visits d ss es m own t (Moves-trans (rank u) start s t f g) h)

  abbrev pub OneWay : (ℕ → ℕ) → Store env.planner.Plan → Type 0
  OneWay rank s = (u : ℕ) → Descends rank s u (env.out_edges u)

  -- The planner of a vertex is as it was after the visits below and the painting of the vertex.
  paint_plans :
      (u : ℕ) (d : String) (c : ℕ) (s t : Store env.planner.Plan)
      → t.vtx u ≡ s.vtx u
      → ((paint u d c t).vtx u).schedule.plans ≡ (s.vtx u).schedule.plans
  unfolding paint set_vtx
  paint_plans u d c s t e = elim (Bool-cases (u == u)) [
    | inl k ↦ rw (k, e) refl
    | inr k ↦ rw (k, e) refl
  ]

  -- How the visit of a vertex may end.
  abbrev Outcome : ℕ → ℕ → Bool → Store env.planner.Plan → Type 0 → Type 0 → Type 0
  Outcome u needs excl s tagged none_made =
      tagged ⊎ none_made ⊎ ((excl ≡ true) × Refuses env meta (s.vtx u).schedule.plans needs)

  -- After the visits below: the vertex is painted, and `upd_sched` runs.
  finish-Ends :
      (rank : ℕ → ℕ) (d : String) (u needs n : ℕ) (excl : Bool) (dfu to_parent : Dict String ℕ)
      (s t : Store env.planner.Plan)
      → Moves rank (rank u) s t
      → Ends
          (IsCallFault env meta)
          (upd_sched env u d needs excl n meta dfu to_parent)
          (paint u d (Color.black t.color_base) t)
          (λ r t'.
            Outcome u needs excl s (is_tagged env t' meta.jobid u ≡ true) (r.0 ≡ 0)
            × Moves rank (suc (rank u)) s t')
  finish-Ends rank d u needs n excl dfu to_parent s t f =
      let c = Color.black t.color_base in
      Ends-weaken
        (λ r t₂ p. (
          rw (paint_plans u d c s t (f.above u (omega arith))) at p.0,
          Moves-trans rank (suc (rank u)) s t t₂
              (Moves-weaken rank (rank u) (suc (rank u)) s t (omega arith) f)
              (Local-Moves rank u t t₂ (
                (Local-Preorder meta.jobid tagging u).transitive t (paint u d c t) t₂
                  (paint-Local env meta.jobid tagging u d c t) p.1)),
        ))
        (upd_sched-Tags env meta u d needs excl n dfu to_parent (paint u d c t))

  upd_dfv-Ends :
      (rank : ℕ → ℕ) (d : String) (fuel u needs : ℕ) (excl : Bool) (to_parent : Dict String ℕ)
      (s : Store env.planner.Plan)
      → dom_subsystem env.matcher ≡ some d
      → OneWay rank s
      → rank u < fuel
      → Ends (IsCallFault env meta) (upd_dfv env fuel meta u needs excl to_parent) s (λ r t.
        Outcome u needs excl s (is_tagged env t meta.jobid u ≡ true) (r.0 ≡ 0)
        × Moves rank (suc (rank u)) s t)
  unfolding upd_dfv
  upd_dfv-Ends rank d zero u needs excl to_parent s e down h = absurd (omega arith)
  upd_dfv-Ends rank d (suc fuel) u needs excl to_parent s e down h =
      let s₁ : Store env.planner.Plan = record s { trav_level = add32 s.trav_level 1 } in
      Ends->>= (Ends-dom env d s e) λ _ _ same.
        rw (same.0, same.1)
          (Ends-modify->>= _ _ (
            Ends->>=
              (upd_subsystems-Ends rank (upd_dfv env fuel meta) s₁ u
                (λ v m x own t lower f.
                  Ends-weaken
                    (λ _ t' p. Moves-weaken rank (suc (rank v)) (rank u) t t' (omega arith) p.1)
                    (upd_dfv-Ends rank d fuel v m x own t e
                      (λ w. Descends-Frame rank s₁ t w (env.out_edges w) f.frame (down w))
                      (omega arith)))
                d env.matcher.subsystems (env.out_edges u) 0 [] s₁ (Moves-refl rank (rank u) s₁)
                (down u))
              λ (n, dfu) t f.
                Ends-modify->>= (λ s'. paint u d (Color.black s'.color_base) s')
                  (λ _. upd_sched env u d needs excl n meta dfu to_parent)
                  (finish-Ends rank d u needs n excl dfu to_parent s t (
                    Moves-trans rank (rank u) s s₁ t (Moves-same rank (rank u) s s₁ refl refl refl)
                      f))))

  -- On a graph in which the edges of the selection descend in rank, whatever the planners answer: an
  -- update with more fuel than the rank of the root ends, and if in a fault, then in one that a call of
  -- planner_add_span comes to. Else the root carries the job's tag afterwards, or the update gives -1,
  -- or the root was to be exclusive and its planner as it was before answered -1 to the span of the
  -- job. No job loses a tag, every vertex is the same resource, each edge is as it was, and the tags,
  -- allocations, reservations, exclusive spans and subtree spans of every other job are untouched.
  pub update-Tags :
      (rank : ℕ → ℕ) (d : String) (fuel root needs : ℕ) (exclusive : Bool)
      (s : Store env.planner.Plan)
      → dom_subsystem env.matcher ≡ some d
      → OneWay rank s
      → rank root < fuel
      → Settles (IsCallFault env meta) (update env fuel root meta needs exclusive s) (λ r.
        ((is_tagged env r.1 meta.jobid root ≡ true)
          ⊎ (r.0 ≡ negsuc 0)
          ⊎ ((exclusive ≡ true) × Refuses env meta (s.vtx root).schedule.plans needs))
        × Frame meta.jobid tagging s r.1)
  unfolding update tick_color_base
  update-Tags rank d fuel root needs exclusive s e down h =
      let s₁ : Store env.planner.Plan = record s { color_base = Color.reset s.color_base } in
      Ends-Settles (
        Ends-modify->>= _ _ (
          Ends->>= (upd_dfv-Ends rank d fuel root needs exclusive [] s₁ e down h) λ (n, dfu) t p.
            let moved =
              Moves-trans rank (suc (rank root)) s s₁ t
                (Moves-same rank (suc (rank root)) s s₁ refl refl refl) p.1 in
            Ends-pure _ t (answer n p.0, moved.frame)))
    where
      answer :
          {T R : Type 0} (n : ℕ)
          → T ⊎ (n ≡ 0) ⊎ R
          → T ⊎ ((if ltb 0 n then pos 0 else negsuc 0) ≡ negsuc 0) ⊎ R
      answer n (inl t) = inl t
      answer n (inr (inl z)) = inr (inl (rw z refl))
      answer n (inr (inr r)) = inr (inr r)
