-- ===== src/Tests/Policy.antt =====
-- The policies at fixed inputs.
use resource_query.Prelude.{pos, ◌≡◌, refl, true, [], ◌∷◌, All, lookup, insert}
use resource_query.Run.{ok}
use resource_query.Matcher.SelectCount.{select_count}
use resource_query.Scoring.Evals.{Evals, greater}
use resource_query.Scoring.Api.{ScoringApi, new_scoring_api, qualified_count, choose_accum_best_k}
use resource_query.Policy.{high_first, match_met, dom_finish_graph}
use resource_query.Policy.Graph.{Selected, dom_finish_graph-Selected}
use resource_query.Tests.Matcher.{stepped}
use resource_query.Tests.Scoring.{scored, two_groups}
use resource_query.Tests.Traverse.{flat}

-- Five cores in two groups; a request for 2, 5, 8 of them takes five.
abbrev five_cores : ScoringApi
five_cores = record new_scoring_api { ssys_map = ("containment", ("core", two_groups) ∷ []) ∷ [] }

abbrev all_chosen : Evals
all_chosen = record two_groups {
  egroups = record (scored (pos 5) 3) { needs = 3 } ∷ record (scored (pos 1) 2) { needs = 2 } ∷ [];
  best_k = 5;
  best_i = 2;
}

abbrev accepted : ScoringApi
accepted = record five_cores {
  ssys_map = ("containment", ("core", all_chosen) ∷ []) ∷ [];
  hier_constrain_now = true;
  overall_score = match_met;
}

five_cores-accepted :
    dom_finish_graph flat high_first "containment" (stepped ∷ []) five_cores ≡ ok (accepted, pos 0)
unfolding dom_finish_graph select_count qualified_count lookup choose_accum_best_k greater insert
five_cores-accepted = refl

dom_finish_graph-Selected_example : All (Selected "containment" five_cores) (stepped ∷ [])
dom_finish_graph-Selected_example =
    dom_finish_graph-Selected flat high_first "containment" (stepped ∷ []) five_cores accepted
      five_cores-accepted
