-- ===== src/Traverse/Remove/Total.antt =====
-- A removal ends, and what it leaves alone.
use resource_query.Prelude.{
  ℕ, zero, suc, ◌+◌, ◌≤◌, ◌<◌, ℤ, pos, ◌+ℤ◌, ◌==ℤ◌, ◌≡◌, refl, String, List, [], ◌∷◌, true, false,
  ◌||◌, not, some, contains, nat_key, string_key, ◌==◌, ◌=?◌, if◌then◌else◌, lookup-erase, arith,
  Bool-cases, inl, inr,
}
use resource_query.Run.{Returns}
use resource_query.ResourceData.Color
use resource_query.Matcher.Subsystems.{dom_subsystem}
use resource_query.Traverse.State.{
  Env, Store, ◌>>=◌, pure, run, get, modify, Walk, dom, set_vtx, in_subsystem, stop_explore,
  tick_color_base,
}
use resource_query.Traverse.Runs.{at_state}
use resource_query.Traverse.Remove.{rem_edges, rem_subsystems, is_tagged, untag, rem_dfv, remove}
use resource_query.Traverse.Frame.{Frame, Frame-Preorder, set_vtx-Frame}
use resource_query.Traverse.Remove.Frame.{removal, untag-PoolFrame, rem_vertex-Runs}

-- The vertices below `n` that carry the job's tag.
unfoldable pub tagged_below : (env : Env) → Store env.planner.Plan → ℕ → ℕ → ℕ
tagged_below env s jobid zero = 0
tagged_below env s jobid (suc n) =
    (if is_tagged env s jobid n then 1 else 0) + tagged_below env s jobid n

module _ (env : Env) (jobid : ℕ) where
  is_tagged-Frame :
      (s t : Store env.planner.Plan) (v : ℕ)
      → Frame jobid removal s t
      → is_tagged env t jobid v ≡ true
      → is_tagged env s jobid v ≡ true
  unfolding is_tagged
  is_tagged-Frame s t v f h = (f.at_vtx v).own_tag h

  untagged-Frame :
      (s t : Store env.planner.Plan) (v : ℕ)
      → Frame jobid removal s t
      → is_tagged env s jobid v ≡ false
      → is_tagged env t jobid v ≡ false
  untagged-Frame s t v f h = elim (Bool-cases (is_tagged env t jobid v)) [
    | inl e ↦ absurd (cc (is_tagged-Frame s t v f e))
    | inr e ↦ e
  ]

  tagged_below-le :
      (s t : Store env.planner.Plan) (n : ℕ)
      → Frame jobid removal s t
      → tagged_below env t jobid n ≤ tagged_below env s jobid n
  unfolding tagged_below
  tagged_below-le s t zero f = omega arith
  tagged_below-le s t (suc n) f = ground (arith, tagged_below-le s t n f, is_tagged-Frame s t n f)

  tagged_below-lt :
      (s t : Store env.planner.Plan) (u n : ℕ)
      → Frame jobid removal s t
      → u < n
      → is_tagged env s jobid u ≡ true
      → is_tagged env t jobid u ≡ false
      → tagged_below env t jobid n < tagged_below env s jobid n
  unfolding tagged_below
  tagged_below-lt s t u zero f h a b = absurd (omega arith)
  tagged_below-lt s t u (suc n) f h a b = elim (Bool-cases (n == u)) [
    | inl e ↦
        let here : n ≡ u = ground arith in ground (arith, tagged_below-le s t n f, ap_tagged here)
    | inr e ↦ ground (arith, tagged_below-lt s t u n f, is_tagged-Frame s t n f)
  ]
    where
      ap_tagged : n ≡ u → (is_tagged env s jobid n ≡ true) × (is_tagged env t jobid n ≡ false)
      ap_tagged e = (rw e a, rw e b)

  -- The walk from a state ends, and keeps the frame.
  abbrev Ends : Walk env ℤ → Store env.planner.Plan → Type 0
  Ends m s = Returns (m s) (λ r. Frame jobid removal s r.1)

  module _ (n fuel : ℕ) (visit : ℕ → Walk env ℤ) where
    abbrev VisitEnds : Type 0
    VisitEnds =
        (u : ℕ) (s : Store env.planner.Plan)
        → u < n
        → tagged_below env s jobid n < fuel
        → Ends (visit u) s

    rem_edges-Ends :
        VisitEnds
        → ((e : ℕ) → env.target e < n)
        → (d subsystem : String) (es : List ℕ) (rc : ℤ) (s : Store env.planner.Plan)
        → tagged_below env s jobid n < fuel
        → Ends (rem_edges env visit d subsystem es rc) s
    unfolding rem_edges ◌>>=◌ get pure
    rem_edges-Ends ends inside d subsystem [] rc s h =
        ((rc, s), refl, (Frame-Preorder jobid removal).reflexive s)
    rem_edges-Ends ends inside d subsystem (e ∷ es) rc s h =
        elim (Bool-cases (not (in_subsystem s e subsystem) || stop_explore env s e subsystem)) [
          | inl skip ↦ rw skip (rem_edges-Ends ends inside d subsystem es rc s h)
          | inr follow ↦ elim (Bool-cases (subsystem =? d)) [
            | inr aux ↦ rw (follow, aux) (rem_edges-Ends ends inside d subsystem es rc s h)
            | inl same ↦
                let (r, run, f) = ends (env.target e) s (inside e) h in
                let (r', run', f') =
                  rem_edges-Ends ends inside d subsystem es (rc +ℤ r.0) r.1
                    (omega (arith, tagged_below-le s r.1 n f)) in
                (
                  r',
                  rw (follow, same, ◌>>=◌, run) run',
                  (Frame-Preorder jobid removal).transitive s r.1 r'.1 f f',
                )
          ]
        ]

    rem_subsystems-Ends :
        VisitEnds
        → ((e : ℕ) → env.target e < n)
        → (d : String) (ss : List String) (es : List ℕ) (rc : ℤ) (s : Store env.planner.Plan)
        → tagged_below env s jobid n < fuel
        → Ends (rem_subsystems env visit d ss es rc) s
    unfolding rem_subsystems ◌>>=◌ pure
    rem_subsystems-Ends ends inside d [] es rc s h =
        ((rc, s), refl, (Frame-Preorder jobid removal).reflexive s)
    rem_subsystems-Ends ends inside d (a ∷ ss) es rc s h =
        let (r, run, f) = rem_edges-Ends ends inside d a es rc s h in
        let (r', run', f') =
          rem_subsystems-Ends ends inside d ss es r.0 r.1
            (omega (arith, tagged_below-le s r.1 n f)) in
        (
          r',
          rw (rem_subsystems, ◌>>=◌, run) run',
          (Frame-Preorder jobid removal).transitive s r.1 r'.1 f f',
        )

  untag-Frame : (u : ℕ) (s : Store env.planner.Plan) → Frame jobid removal s (untag env u jobid s)
  untag-Frame u s = set_vtx-Frame jobid removal u _ (untag-PoolFrame jobid) s

  is_tagged-untag :
      (u : ℕ) (s : Store env.planner.Plan) → is_tagged env (untag env u jobid s) jobid u ≡ false
  unfolding is_tagged set_vtx contains
  is_tagged-untag u s = ground (arith, lookup-erase jobid jobid (s.vtx u).schedule.tags)

  -- What a removal promises: the frame, and that its start has no tag left.
  abbrev Removes : ℕ → Walk env ℤ → Store env.planner.Plan → Type 0
  Removes u m s =
      Returns (m s) (λ r. Frame jobid removal s r.1 × (is_tagged env r.1 jobid u ≡ false))

  rem_dfv-Removes :
      (n : ℕ) (d : String) (fuel u : ℕ) (s : Store env.planner.Plan)
      → dom_subsystem env.matcher ≡ some d
      → ((e : ℕ) → env.target e < n)
      → u < n
      → tagged_below env s jobid n < fuel
      → Removes u (rem_dfv env fuel jobid u) s
  unfolding rem_dfv ◌>>=◌ get pure modify dom
  rem_dfv-Removes n d zero u s e inside b h = absurd (omega arith)
  rem_dfv-Removes n d (suc fuel) u s e inside b h = elim (Bool-cases (is_tagged env s jobid u)) [
    | inr t ↦ (
      (pos 0, s),
      rw (rem_dfv, ◌>>=◌, dom, e, t),
      ((Frame-Preorder jobid removal).reflexive s, t),
    )
    | inl t ↦
        let s₁ = untag env u jobid s in
        let f₁ = untag-Frame u s in
        let (r, run, f₂) = at_state (rem_vertex-Runs env jobid u d) s₁ in
        let f = (Frame-Preorder jobid removal).transitive s s₁ r.1 f₁ f₂ in
        let gone : is_tagged env r.1 jobid u ≡ false =
          untagged-Frame s₁ r.1 u f₂ (is_tagged-untag u s) in
        elim (Bool-cases (r.0 ==ℤ pos 0)) [
          | inr bad ↦ (r, rw (rem_dfv, ◌>>=◌, dom, e, t, run, bad), (f, gone))
          | inl good ↦
              let (r', run', f') =
                rem_subsystems-Ends n fuel (rem_dfv env fuel jobid)
                  (λ v s' v< k.
                    let (q, qrun, p) = rem_dfv-Removes n d fuel v s' e inside v< k in
                    (q, qrun, p.0))
                  inside d env.matcher.subsystems (env.out_edges u) r.0 r.1
                  (omega (arith, tagged_below-lt s r.1 u n f b t gone)) in
              (
                r',
                rw (rem_dfv, ◌>>=◌, dom, e, t, run, good) run',
                (
                  (Frame-Preorder jobid removal).transitive s r.1 r'.1 f f',
                  untagged-Frame r.1 r'.1 u f' gone,
                ),
              )
        ]
  ]

  tick-Frame :
      (s : Store env.planner.Plan)
      → Frame jobid removal s (record s { color_base = Color.reset s.color_base })
  tick-Frame s = record { at_vtx = (Frame-refl s).at_vtx; same_edg = λ e. refl; same_round = refl }
    where
      Frame-refl : (t : Store env.planner.Plan) → Frame jobid removal t t
      Frame-refl = (Frame-Preorder jobid removal).reflexive

  tagged_below_tick :
      (s : Store env.planner.Plan) (n : ℕ)
      → tagged_below env (record s { color_base = Color.reset s.color_base }) jobid n
        ≤ tagged_below env s jobid n
  tagged_below_tick s n = tagged_below-le s _ n (tick-Frame s)

  -- On a graph whose vertices are the numbers below `n`, a removal with more fuel than there are
  -- vertices tagged with the job ends without a fault, whatever the planners answer. The root has lost
  -- its tag, no vertex has got one, every vertex is the same resource, each edge is as it was, and the
  -- tags, allocations, reservations, exclusive spans and subtree spans of every other job are untouched.
  pub remove-Removes :
      (n : ℕ) (d : String) (fuel root : ℕ) (s : Store env.planner.Plan)
      → dom_subsystem env.matcher ≡ some d
      → ((e : ℕ) → env.target e < n)
      → root < n
      → tagged_below env s jobid n < fuel
      → Returns
          (remove env fuel root jobid s)
          (λ r. Frame jobid removal s r.1 × (is_tagged env r.1 jobid root ≡ false))
  unfolding remove tick_color_base ◌>>=◌ modify
  remove-Removes n d fuel root s e inside b h =
      let (r, run, (f, gone)) =
        rem_dfv-Removes n d fuel root (record s { color_base = Color.reset s.color_base }) e inside
          b (omega (arith, tagged_below_tick s n)) in
      (r, run, ((Frame-Preorder jobid removal).transitive s _ r.1 (tick-Frame s) f, gone))
