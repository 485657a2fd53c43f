-- ===== src/Traverse/Remove/Frame.antt =====
-- The removals at one vertex: they end, and leave the other jobs alone.
use resource_query.Prelude.{
  ℕ, ◌≡◌, refl, String, List, true, false, lookup, erase, contains, nat_key, string_key,
  lookup-erase, arith,
}
use resource_query.ResourceData.{ResourcePool}
use resource_query.Traverse.State.{Env, map_schedule}
use resource_query.Traverse.Runs.{Preorder, Runs, Runs-pure, Runs-get, Runs->>=, Runs-Option}
use resource_query.Traverse.Frame.{
  TagOrder, PoolFrame, Frame, Frame-Preorder, plans-PoolFrame, x_checker-PoolFrame,
  subplan-PoolFrame, schedule-PoolFrame, erase-keeps, report_errno-Frame, frame_rules, subplan-Runs,
}
use resource_query.Traverse.Remove.{
  report_rem, take_span, rem_plan, rem_x_checker, rem_subtree_plan, rem_vertex,
}

-- No tag is new.
abbrev pub removal : TagOrder
removal = record {
  Rel = λ a b. b ≡ true → a ≡ true;
  reflexive = λ a h. h;
  transitive = λ a b c h k e. h (k e);
}

module _ {P : Type 0} (jobid : ℕ) where
  pub unallocate-PoolFrame :
      (p : ResourcePool P)
      → PoolFrame jobid removal p
          (map_schedule (λ c. record c { allocations = erase jobid c.allocations }) p)
  unallocate-PoolFrame p =
      schedule-PoolFrame jobid removal p _ (λ j h. refl) (erase-keeps jobid p.schedule.allocations)
        (λ j h. refl) (λ j h. refl) (λ h. h)

  pub unreserve-PoolFrame :
      (p : ResourcePool P)
      → PoolFrame jobid removal p
          (map_schedule (λ c. record c { reservations = erase jobid c.reservations }) p)
  unreserve-PoolFrame p =
      schedule-PoolFrame jobid removal p _ (λ j h. refl) (λ j h. refl)
        (erase-keeps jobid p.schedule.reservations) (λ j h. refl) (λ h. h)

  pub unspan-PoolFrame :
      (p : ResourcePool P)
      → PoolFrame jobid removal p
          (map_schedule (λ c. record c { x_spans = erase jobid c.x_spans }) p)
  unspan-PoolFrame p =
      schedule-PoolFrame jobid removal p _ (λ j h. refl) (λ j h. refl) (λ j h. refl)
        (erase-keeps jobid p.schedule.x_spans) (λ h. h)

  untagged : (p : ResourcePool P) → contains jobid (erase jobid p.schedule.tags) ≡ false
  unfolding contains
  untagged p = ground (arith, lookup-erase jobid jobid p.schedule.tags)

  pub untag-PoolFrame :
      (p : ResourcePool P)
      → PoolFrame jobid removal p (map_schedule (λ c. record c { tags = erase jobid c.tags }) p)
  untag-PoolFrame p =
      schedule-PoolFrame jobid removal p _ (erase-keeps jobid p.schedule.tags) (λ j h. refl)
        (λ j h. refl) (λ j h. refl) (λ h. cc (untagged p))

module _ (env : Env) (jobid : ℕ) where
  order : Preorder (Frame {P = env.planner.Plan} jobid removal)
  order = Frame-Preorder jobid removal

  report_rem-Runs :
      (who : String) (u : ℕ) (end : List String)
      → Runs (Frame jobid removal) (report_rem env who u end)
  unfolding report_rem
  report_rem-Runs who u end = search (frame_rules, order, report_errno-Frame) depth 8

  take_span-Runs : (u : ℕ) → Runs (Frame jobid removal) (take_span env u jobid)
  unfolding take_span
  take_span-Runs u = Runs->>= order (Runs-get order) λ st.
      Runs-Option order (lookup jobid (st.vtx u).schedule.allocations)
        (Runs-Option order (lookup jobid (st.vtx u).schedule.reservations) (Runs-pure order _)
          (λ span. search (frame_rules, order, unreserve-PoolFrame) depth 8))
        (λ span. search (frame_rules, order, unallocate-PoolFrame) depth 8)

  rem_plan-Runs : (u : ℕ) → Runs (Frame jobid removal) (rem_plan env u jobid)
  unfolding rem_plan
  rem_plan-Runs u =
      search (frame_rules, order, take_span-Runs, report_rem-Runs, plans-PoolFrame) depth 14

  rem_x_checker-Runs : (u : ℕ) → Runs (Frame jobid removal) (rem_x_checker env u jobid)
  unfolding rem_x_checker
  rem_x_checker-Runs u = Runs->>= order (Runs-get order) λ st.
      Runs-Option order (lookup jobid (st.vtx u).schedule.x_spans)
        (search (frame_rules, order) depth 8)
        (λ span.
          search (frame_rules, order, unspan-PoolFrame, report_rem-Runs, x_checker-PoolFrame) depth
            14)

  rem_subtree_plan-Runs :
      (u : ℕ) (s : String) → Runs (Frame jobid removal) (rem_subtree_plan env u jobid s)
  unfolding rem_subtree_plan
  rem_subtree_plan-Runs u s = Runs->>= order (subplan-Runs env jobid removal u s) λ p.
      Runs->>= order (Runs-get order) λ st. Runs-Option order p (Runs-pure order _) λ q.
        Runs-Option order (lookup jobid (st.vtx u).idata.job2span) (Runs-pure order _)
          λ span. search (frame_rules, order, report_rem-Runs, subplan-PoolFrame) depth 14

  -- The removals at one vertex always end.
  pub rem_vertex-Runs : (u : ℕ) (d : String) → Runs (Frame jobid removal) (rem_vertex env u jobid d)
  unfolding rem_vertex
  rem_vertex-Runs u d =
      search (frame_rules, order, rem_x_checker-Runs, rem_plan-Runs, rem_subtree_plan-Runs) depth 10
