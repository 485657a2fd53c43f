-- ===== src/Traverse/Update/Tag.antt =====
-- Where `upd_sched` leaves the job's tag at its vertex.
use resource_query.Prelude.{
  ℕ, ◌+◌, ℤ, negsuc, ◌==ℤ◌, ◌≡◌, refl, String, List, [], ◌∷◌, Bool, true, false, Option, some, Dict,
  insert, contains, nat_key, string_key, ltb, lookup-insert, arith, inl, inr, ◌⊎◌, Bool-cases, ◌==◌,
  length,
}
use resource_query.Run.{Run, Fault, ok, fault, Settles}
use resource_query.Traverse.State.{Env, JobMeta, Store, Walk, set_vtx, map_schedule}
use resource_query.Traverse.Keeps.{Keeps}
use resource_query.Traverse.Ends.{
  Ends, Ends-pure, Ends-run, Ends-get->>=, Ends-modify->>=, Ends-modify, Ends->>=, Ends-if,
  Ends-Option, Ends-weaken, Ends-both,
}
use resource_query.Traverse.Prune.{subplan}
use resource_query.Traverse.Remove.{is_tagged}
use resource_query.Traverse.Update.{
  add_to_plans, add_to_x_checker, add_to_subplan, upd_plan, emit_vertex, tag_vertex, tag_counted,
  upd_sched,
}
use resource_query.Traverse.Update.Local.{Local}
use resource_query.Traverse.Update.Frame.{
  tagging, upd_sched-Keeps, add_to_x_checker-Keeps, add_to_subplan-Keeps, emit_vertex-Keeps,
}

module _ (env : Env) (meta : JobMeta) where
  -- The fault is one that some call of `planner_add_span` comes to.
  abbrev pub IsCallFault : Fault → Type 0
  IsCallFault f =
      (p : Option env.planner.Plan) × (at : ℤ) × (duration : ℕ) × (counts : List ℕ)
      × (env.planner.planner_add_span p at duration counts ≡ fault f)

  -- The planner answers -1 to the span of the job.
  abbrev pub Refuses : Option env.planner.Plan → ℕ → Type 0
  Refuses p needs =
      (q : Option env.planner.Plan) × (span : ℤ) × (e : Option ℕ) × (env.planner.planner_add_span p
          meta.at meta.duration (needs ∷ [])
        ≡ ok (q, span, e))
      × ((span ==ℤ negsuc 0) ≡ true)

  call-Settles :
      (p : Option env.planner.Plan) (at : ℤ) (duration : ℕ) (counts : List ℕ)
      → Settles IsCallFault
          (env.planner.planner_add_span p at duration counts)
          (λ a. env.planner.planner_add_span p at duration counts ≡ ok a)
  call-Settles p at duration counts = go (env.planner.planner_add_span p at duration counts) refl
    where
      go :
          (x : Run (Option env.planner.Plan × ℤ × Option ℕ))
          → env.planner.planner_add_span p at duration counts ≡ x
          → Settles IsCallFault x (λ a. env.planner.planner_add_span p at duration counts ≡ ok a)
      go (ok a) e = e
      go (fault f) e = (p, at, duration, counts, e)

  any_result :
      {A : Type 0} (P : A → Type 0) (x : Run A)
      → Settles IsCallFault x P
      → Settles IsCallFault x (λ a. Unit {0})
  any_result P (ok a) h = tt
  any_result P (fault f) h = h

  any_call :
      (p : Option env.planner.Plan) (at : ℤ) (duration : ℕ) (counts : List ℕ)
      → Settles IsCallFault (env.planner.planner_add_span p at duration counts) (λ a. Unit {0})
  any_call p at duration counts =
      any_result (λ a. env.planner.planner_add_span p at duration counts ≡ ok a)
        (env.planner.planner_add_span p at duration counts) (call-Settles p at duration counts)

  module _ (u : ℕ) where
    abbrev HasTag : Store env.planner.Plan → Type 0
    HasTag t = is_tagged env t meta.jobid u ≡ true

    stays_tagged :
        (s t : Store env.planner.Plan) → Local meta.jobid tagging u s t → HasTag s → HasTag t
    unfolding is_tagged
    stays_tagged s t f h = f.here.own_tag h

    contains-insert :
        (s : Store env.planner.Plan)
        → HasTag (
            set_vtx u
              (map_schedule (λ c. record c { tags = insert meta.jobid meta.jobid c.tags }))
              s)
    unfolding is_tagged set_vtx contains
    contains-insert s =
        ground (arith, lookup-insert meta.jobid meta.jobid meta.jobid (s.vtx u).schedule.tags)

    -- What ends, and keeps the rest, leaves the tag.
    still_tagged :
        {A : Type 0} {m : Walk env A} (s : Store env.planner.Plan)
        → HasTag s
        → Ends IsCallFault m s (λ a t. Unit)
        → Keeps (Local meta.jobid tagging u) m
        → Ends IsCallFault m s (λ a t. HasTag t)
    still_tagged s h e k = Ends-weaken (λ a t p. stays_tagged s t p.1 h) (Ends-both e k)

    add_to_plans-Ends :
        (needs : ℕ) (st : Store env.planner.Plan)
        → Ends IsCallFault
            (add_to_plans env u meta needs)
            st
            (λ span t. ((span ==ℤ negsuc 0) ≡ false) ⊎ Refuses (st.vtx u).schedule.plans needs)
    unfolding add_to_plans
    add_to_plans-Ends needs st =
        let plans = (st.vtx u).schedule.plans in
        let call = env.planner.planner_add_span plans meta.at meta.duration (needs ∷ []) in
        Ends-get->>= _ (
          Ends->>= {P = λ a t. call ≡ ok a}
            (Ends-run call st (call-Settles plans meta.at meta.duration (needs ∷ [])))
            λ (p, span, e) t answer. Ends-modify->>= _ _ (
              Ends-modify->>= _ _ (
                Ends-pure span _ (elim (Bool-cases (span ==ℤ negsuc 0)) [
                  | inl minus ↦ inr (p, span, e, answer, minus)
                  | inr taken ↦ inl taken
                ]))))

    add_to_x_checker-Ends :
        (st : Store env.planner.Plan)
        → Ends IsCallFault (add_to_x_checker env u meta) st (λ a t. Unit)
    unfolding add_to_x_checker
    add_to_x_checker-Ends st =
        let plans = (st.vtx u).schedule.x_checker in
        Ends-get->>= _ (
          Ends->>= {P = λ a t. Unit}
            (Ends-run (env.planner.planner_add_span plans meta.at meta.duration (1 ∷ [])) st
              (any_call plans meta.at meta.duration (1 ∷ [])))
            λ (p, span, e) t _. Ends-modify->>= _ _ (Ends-modify _ _ tt))

    subplan-Ends :
        (name : String) (st : Store env.planner.Plan)
        → Ends IsCallFault (subplan env u name) st (λ p t. Unit)
    unfolding subplan
    subplan-Ends name st =
        Ends-get->>= _
          (Ends-Option _ (Ends-modify->>= _ _ (Ends-pure _ _ tt)) (λ p. Ends-pure _ _ tt))

    add_to_subplan-Ends :
        (s : String) (dfu : Dict String ℕ) (st : Store env.planner.Plan)
        → Ends IsCallFault (add_to_subplan env u s meta dfu) st (λ a t. Unit)
    unfolding add_to_subplan
    add_to_subplan-Ends s dfu st = Ends->>= (subplan-Ends s st) λ p t _.
        Ends-Option p (Ends-pure _ _ tt) λ q.
          Ends-if (length dfu == 0) (λ _. Ends-pure _ _ tt)
            λ _.
              Ends->>= {P = λ a t. Unit} (Ends-run _ t (any_call (some q) meta.at meta.duration _))
                λ (p', span, e) t' _. Ends-modify->>= _ _ (
                  Ends-modify->>= _ _ (
                    Ends-if (span ==ℤ negsuc 0)
                      (λ _. Ends-modify->>= _ _ (Ends-modify->>= _ _ (Ends-pure _ _ tt)))
                      (λ _. Ends-modify->>= _ _ (Ends-pure _ _ tt))))

    upd_plan-Ends :
        (s : String) (needs : ℕ) (to_parent : Dict String ℕ) (st : Store env.planner.Plan)
        → Ends IsCallFault
            (upd_plan env u s needs meta to_parent)
            st
            (λ r t. ((r.0 ==ℤ negsuc 0) ≡ false) ⊎ Refuses (st.vtx u).schedule.plans needs)
    unfolding upd_plan
    upd_plan-Ends s needs to_parent st = Ends->>= (add_to_plans-Ends needs st) λ span t h.
        Ends-if (span ==ℤ negsuc 0)
          (λ e. Ends-modify->>= _ _ (Ends-modify->>= _ _ (Ends-pure _ _ h)))
          (λ e. Ends-get->>= _ (Ends-modify->>= _ _ (Ends-pure _ _ h)))

    tag_vertex-Tags :
        (s : String) (needs : ℕ) (excl : Bool) (dfu to_parent : Dict String ℕ)
        (st : Store env.planner.Plan)
        → Ends IsCallFault (tag_vertex env u s needs excl meta dfu to_parent) st (λ r t. HasTag t)
    unfolding tag_vertex emit_vertex
    tag_vertex-Tags s needs excl dfu to_parent st =
        let st₁ =
          set_vtx u (map_schedule (λ c. record c { tags = insert meta.jobid meta.jobid c.tags }))
            st in
        Ends-modify->>= _ _ (
          Ends->>=
            (still_tagged st₁ (contains-insert st) (add_to_x_checker-Ends st₁)
              (add_to_x_checker-Keeps env meta u))
            λ _ t₂ h₂.
              Ends->>=
                (still_tagged t₂ h₂ (add_to_subplan-Ends s dfu t₂)
                  (add_to_subplan-Keeps env meta u s dfu))
                λ span t₃ h₃.
                  Ends-if (span ==ℤ negsuc 0) (λ _. Ends-pure _ t₃ h₃)
                    (λ _.
                      Ends->>=
                        (still_tagged t₃ h₃ (Ends-modify _ t₃ tt)
                          (emit_vertex-Keeps env meta u needs excl))
                        λ _ t₄ h₄. Ends-pure _ t₄ h₄))

    tag_counted-Tags :
        (s : String) (needs : ℕ) (excl : Bool) (n : ℕ) (dfu own : Dict String ℕ)
        (st : Store env.planner.Plan)
        → Ends IsCallFault
            (tag_counted env u s needs excl n meta dfu own)
            st
            (λ r t. HasTag t ⊎ (r.0 ≡ 0))
    unfolding tag_counted is_tagged
    tag_counted-Tags s needs excl n dfu own st =
        Ends->>= {P = λ r t. HasTag t ⊎ (n ≡ 0)}
          (Ends-if (ltb 0 n)
            (λ e. Ends-weaken (λ _ _ h. inl h) (tag_vertex-Tags s needs excl dfu own st))
            (λ e. Ends-pure _ st (inr (ground arith))))
          λ (done, total) t h.
            Ends-if done (λ _. Ends-modify->>= _ _ (Ends-pure _ _ h)) (λ _. Ends-pure _ t h)

    pub upd_sched-Tags :
        (s : String) (needs : ℕ) (excl : Bool) (n : ℕ) (dfu own : Dict String ℕ)
        (st : Store env.planner.Plan)
        → Ends IsCallFault (upd_sched env u s needs excl n meta dfu own) st (λ r t.
          ((is_tagged env t meta.jobid u ≡ true)
            ⊎ (r.0 ≡ 0)
            ⊎ ((excl ≡ true) × Refuses (st.vtx u).schedule.plans needs))
          × Local meta.jobid tagging u st t)
    unfolding upd_sched
    upd_sched-Tags s needs excl n dfu own st =
        Ends-both
          (Ends-if excl
            (λ x. Ends->>= (upd_plan-Ends s needs own st) λ (span, own') t h.
              Ends-if (span ==ℤ negsuc 0) (λ e. Ends-pure _ t (inr (inr (x, refused span e h))))
                (λ _.
                  Ends-weaken (λ _ _ k. either k)
                    (tag_counted-Tags s needs excl (n + 1) dfu own' t)))
            (λ _. Ends-weaken (λ _ _ k. either k) (tag_counted-Tags s needs excl n dfu own st)))
          (upd_sched-Keeps env meta u s needs excl n dfu own)
      where
        refused :
            {R : Type 0} (span : ℤ)
            → (span ==ℤ negsuc 0) ≡ true
            → ((span ==ℤ negsuc 0) ≡ false) ⊎ R
            → R
        refused span e (inl h) = absurd (cc)
        refused span e (inr r) = r

        either : {A B C : Type 0} → A ⊎ B → A ⊎ B ⊎ C
        either (inl a) = inl a
        either (inr b) = inr (inl b)
