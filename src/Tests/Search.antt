-- ===== src/Tests/Search.antt =====
-- A search for one core of the small graph.
use resource_query.Prelude.{
  ℕ, ℤ, ◌+ℤ◌, pos, ◌≡◌, refl, [], ◌∷◌, false, insert, nat_key, string_key, contains, All, lookup,
}
use resource_query.Matcher.Subsystems.{dom_subsystem}
use resource_query.Matcher.SelectCount.{select_count}
use resource_query.Scoring.Api
use resource_query.Policy.{dom_finish_vtx, dom_finish_graph}
use resource_query.Traverse.Prune.{prune}
use resource_query.Traverse.Match.{test}
use resource_query.Traverse.Resolve.{resolve, resolve_root}
use resource_query.Run.{Run, ok, fault}
use resource_query.Jobspec.{Resource, node, nil, unspecified}
use resource_query.Traverse.State.{Store, JobMeta, monad, dom, in_subsystem, stop_explore}
use resource_query.Traverse.Traverser.{match_allocate, schedule}
use resource_query.Traverse.Quiet.{Quiet}
use resource_query.Traverse.Quiet.Search.{schedule-Quiet}
use resource_query.Scoring.Api.{ScoringApi}
use resource_query.Traverse.Walk.{cnt_slot}
use resource_query.Traverse.Walk.Slots.{Fits, cnt_slot-Fits}
use resource_query.Tests.Scoring.{one_type}
use resource_query.Tests.Traverse.{node_env, selected, job}

-- What the search computes with.
program : Unit {0}
unfolding schedule monad dom dom_subsystem prune test in_subsystem stop_explore dom_finish_vtx
    dom_finish_graph resolve resolve_root contains insert select_count ◌+ℤ◌ Api.add Api.merge
    Api.qualified_count Api.choose_accum_best_k Api.choose_accum_all Api.best_k Api.best_i Api.at
    Api.resrc_types
program = tt

abbrev one_core : Resource
one_core =
    node
      (record {
        type = "core";
        count = record { min = 1; max = 1; oper = b'+'; operand = pos 1 };
        unit = "";
        label = "";
        id = "";
        exclusive = unspecified;
        user_data = [];
      })
      nil

abbrev answer : {A : Type 0} → Run A → A → A
answer (ok a) b = a
answer (fault e) b = b

abbrev found : (JobMeta × ℤ × ℕ) × Store ℕ
found =
    answer (schedule node_env 1 3 job (one_core ∷ []) 0 false match_allocate [] selected)
      ((job, pos 1, 0), selected)

found_is : schedule node_env 1 3 job (one_core ∷ []) 0 false match_allocate [] selected ≡ ok found
unfolding program
found_is = refl

schedule-Quiet_example : Quiet node_env.planner selected found.1
schedule-Quiet_example =
    schedule-Quiet node_env 1 3 job (one_core ∷ []) 0 false match_allocate [] selected found
      found_is

-- The core is found, and the root is needed once.
found_core : found.0 ≡ (job, pos 0, 1)
unfolding program
found_core = refl

-- A slot with one core, over the evaluations of five cores.
abbrev counted : ScoringApi × ℕ
counted = answer (cnt_slot "containment" (one_core ∷ []) one_type) (one_type, 0)

counted_is : cnt_slot "containment" (one_core ∷ []) one_type ≡ ok counted
unfolding cnt_slot lookup select_count Api.qualified_count Api.rewind_iter_cur insert
counted_is = refl

five_slots : counted.1 ≡ 5
unfolding cnt_slot lookup select_count Api.qualified_count Api.rewind_iter_cur insert
five_slots = refl

cnt_slot-Fits_example : All (Fits "containment" one_type counted.1) (one_core ∷ [])
cnt_slot-Fits_example = cnt_slot-Fits "containment" (one_core ∷ []) one_type counted counted_is
