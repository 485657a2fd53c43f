-- ===== src/Traverse/Update/Frame.antt =====
-- The updates at one vertex leave the other vertices and the other jobs alone.
use resource_query.Prelude.{
  ℕ, ℤ, ◌≡◌, refl, String, Bool, Option, true, false, Dict, insert, contains, nat_key, string_key,
  if◌then◌else◌, lookup-insert, arith,
}
use resource_query.ResourceData.{ResourcePool}
use resource_query.Traverse.State.{Env, JobMeta, Store, map_schedule}
use resource_query.Traverse.Runs.{Preorder}
use resource_query.Traverse.Keeps.{Keeps, Keeps-pure, Keeps-modify, Keeps->>=, Keeps-Option}
use resource_query.Traverse.Frame.{
  TagOrder, PoolFrame, plans-PoolFrame, subplan-PoolFrame, job2span-PoolFrame, schedule-PoolFrame,
  insert-keeps,
}
use resource_query.Traverse.Update.Local.{
  Local, Local-Preorder, same_graph-Local, report_errno-Local, subplan-Keeps, local_rules,
}
use resource_query.Traverse.Update.{
  add_to_plans, add_to_x_checker, add_to_subplan, upd_plan, emit_vertex, tag_vertex, tag_counted,
  upd_sched,
}

-- No tag is lost.
abbrev pub tagging : TagOrder
tagging = record {
  Rel = λ a b. a ≡ true → b ≡ true;
  reflexive = λ a h. h;
  transitive = λ a b c h k e. k (h e);
}

module _ {P : Type 0} (jobid : ℕ) where
  allocate-PoolFrame :
      (b : Bool) (span : ℤ) (p : ResourcePool P)
      → PoolFrame jobid tagging p (
          map_schedule
            (λ c.
              if b
              then record c { allocations = insert jobid span c.allocations }
              else record c { reservations = insert jobid span c.reservations })
            p)
  allocate-PoolFrame true span p =
      schedule-PoolFrame jobid tagging p _ (λ j h. refl)
        (insert-keeps jobid span p.schedule.allocations) (λ j h. refl) (λ j h. refl) (λ h. h)
  allocate-PoolFrame false span p =
      schedule-PoolFrame jobid tagging p _ (λ j h. refl) (λ j h. refl)
        (insert-keeps jobid span p.schedule.reservations) (λ j h. refl) (λ h. h)

  check-PoolFrame :
      (q : Option P) (span : ℤ) (p : ResourcePool P)
      → PoolFrame jobid tagging p
          (map_schedule (λ c. record c { x_checker = q; x_spans = insert jobid span c.x_spans }) p)
  check-PoolFrame q span p =
      schedule-PoolFrame jobid tagging p _ (λ j h. refl) (λ j h. refl) (λ j h. refl)
        (insert-keeps jobid span p.schedule.x_spans) (λ h. h)

  contains-insert :
      (p : ResourcePool P) → contains jobid (insert jobid jobid p.schedule.tags) ≡ true
  unfolding contains
  contains-insert p = ground (arith, lookup-insert jobid jobid jobid p.schedule.tags)

  tag-PoolFrame :
      (p : ResourcePool P)
      → PoolFrame jobid tagging p
          (map_schedule (λ c. record c { tags = insert jobid jobid c.tags }) p)
  tag-PoolFrame p =
      schedule-PoolFrame jobid tagging p _ (insert-keeps jobid jobid p.schedule.tags) (λ j h. refl)
        (λ j h. refl) (λ j h. refl) (λ h. contains-insert p)

module _ (env : Env) (meta : JobMeta) (u : ℕ) where
  abbrev Kept : Store env.planner.Plan → Store env.planner.Plan → Type 0
  Kept = Local meta.jobid tagging u

  abbrev order : Preorder Kept
  order = Local-Preorder meta.jobid tagging u

  add_to_plans-Keeps : (needs : ℕ) → Keeps Kept (add_to_plans env u meta needs)
  unfolding add_to_plans
  add_to_plans-Keeps needs = search (local_rules, order, plans-PoolFrame) depth 12

  pub add_to_x_checker-Keeps : Keeps Kept (add_to_x_checker env u meta)
  unfolding add_to_x_checker
  add_to_x_checker-Keeps = search (local_rules, order, check-PoolFrame) depth 12

  pub add_to_subplan-Keeps :
      (s : String) (dfu : Dict String ℕ) → Keeps Kept (add_to_subplan env u s meta dfu)
  unfolding add_to_subplan
  add_to_subplan-Keeps s dfu = Keeps->>= order (subplan-Keeps env meta.jobid tagging u s) λ p.
      Keeps-Option order p (Keeps-pure order _) λ q.
        search (local_rules, order, subplan-PoolFrame, job2span-PoolFrame, report_errno-Local) depth
          16

  pub upd_plan-Keeps :
      (s : String) (needs : ℕ) (to_parent : Dict String ℕ)
      → Keeps Kept (upd_plan env u s needs meta to_parent)
  unfolding upd_plan
  upd_plan-Keeps s needs to_parent =
      search (local_rules, order, add_to_plans-Keeps, allocate-PoolFrame, report_errno-Local) depth
        14

  pub emit_vertex-Keeps : (needs : ℕ) (excl : Bool) → Keeps Kept (emit_vertex env u needs excl)
  unfolding emit_vertex
  emit_vertex-Keeps needs excl =
      Keeps-modify order λ s. same_graph-Local meta.jobid tagging u s _ refl refl refl

  pub tag_vertex-Keeps :
      (s : String) (needs : ℕ) (excl : Bool) (dfu to_parent : Dict String ℕ)
      → Keeps Kept (tag_vertex env u s needs excl meta dfu to_parent)
  unfolding tag_vertex
  tag_vertex-Keeps s needs excl dfu to_parent =
      search
        (
          local_rules, order, tag-PoolFrame, add_to_x_checker-Keeps, add_to_subplan-Keeps,
          emit_vertex-Keeps,
        )
        depth 14

  tag_counted-Keeps :
      (s : String) (needs : ℕ) (excl : Bool) (n : ℕ) (dfu to_parent : Dict String ℕ)
      → Keeps Kept (tag_counted env u s needs excl n meta dfu to_parent)
  unfolding tag_counted
  tag_counted-Keeps s needs excl n dfu to_parent =
      search (local_rules, order, tag_vertex-Keeps, same_graph-Local) depth 14

  pub upd_sched-Keeps :
      (s : String) (needs : ℕ) (excl : Bool) (n : ℕ) (dfu to_parent : Dict String ℕ)
      → Keeps Kept (upd_sched env u s needs excl n meta dfu to_parent)
  unfolding upd_sched
  upd_sched-Keeps s needs excl n dfu to_parent =
      search (local_rules, order, upd_plan-Keeps, tag_counted-Keeps) depth 16
