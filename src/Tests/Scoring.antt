-- ===== src/Tests/Scoring.antt =====
-- Evaluations at fixed inputs.
use mathlib.Core.List.{Perm}
use resource_query.Prelude.{
  string_key, ℕ, ℤ, pos, ltb_ℤ, ◌≡◌, refl, false, [], ◌∷◌, ◌++◌, ◌+◌, map, arith, string_key,
}
use resource_query.Run.{ok, Returns}
use resource_query.Scoring.Evals.{EvalEgroup, Evals, new_evals, add, merge, choose_best_k, greater}
use resource_query.Scoring.Api
use resource_query.Scoring.Api.{ScoringApi, new_scoring_api, evals_of}
use resource_query.Scoring.Api.Keyed.{merged, merge-merged}
use resource_query.Scoring.Evals.Counts.{
  IsCounted, qualified, needed, WithinCount, add-IsCounted, merge-IsCounted, choose_best_k-Chosen,
}
use resource_query.Scoring.Evals.Best.{
  by_score, strip, InOrder, BestFirst, greater-StrictWeak, choose_best_k-BestFirst,
}

abbrev pub scored : ℤ → ℕ → EvalEgroup
scored s n = record { score = s; count = n; needs = 0; exclusive = 0; root = false; edges = [] }

abbrev pub two_groups : Evals
two_groups = record (new_evals "core") {
  egroups = scored (pos 1) 2 ∷ scored (pos 5) 3 ∷ [];
  qual_count = 5;
  total_count = 5;
}

two_groups-IsCounted : IsCounted two_groups
two_groups-IsCounted = record { total_counted = omega arith; qual_counted = ground arith }

-- The better group gives all its three units, the other one of its two.
abbrev chosen : Evals
chosen = record two_groups {
  egroups = record (scored (pos 5) 3) { needs = 3 } ∷ record (scored (pos 1) 2) { needs = 1 } ∷ [];
  best_k = 4;
  best_i = 2;
}

two_groups_4 : choose_best_k two_groups 4 (by_score (λ a b. ltb_ℤ b a)) ≡ ok (chosen, pos 0)
unfolding choose_best_k
two_groups_4 = refl

add-IsCounted_example :
    IsCounted (add two_groups (scored (pos 2) 4)).0
    × ((add two_groups (scored (pos 2) 4)).1
        ≡ qualified (pos 0) (two_groups.egroups ++ scored (pos 2) 4 ∷ []))
    × ((add two_groups (scored (pos 2) 4)).0.total_count ≡ 5 + 4)
add-IsCounted_example =
    add-IsCounted two_groups (scored (pos 2) 4) two_groups-IsCounted (omega arith)

merge-IsCounted_example :
    ((merge two_groups two_groups).1 ≡ pos 0)
    × ((merge two_groups two_groups).0.egroups ≡ two_groups.egroups ++ two_groups.egroups)
    × IsCounted (merge two_groups two_groups).0
merge-IsCounted_example =
    merge-IsCounted two_groups two_groups two_groups-IsCounted two_groups-IsCounted (omega arith)
      refl refl

choose_best_k-Chosen_example : Returns (choose_best_k two_groups 4 greater) λ r.
    (r.1 ≡ pos 0)
    × (r.0.best_k ≡ 4)
    × (needed r.0.best_i r.0.egroups ≡ 4)
    × WithinCount r.0.best_i r.0.egroups
    × IsCounted r.0
choose_best_k-Chosen_example =
    choose_best_k-Chosen two_groups 4 greater two_groups-IsCounted (omega arith) (omega arith)
      (omega arith)

choose_best_k-BestFirst_example :
    Perm (map strip chosen.egroups) (map strip two_groups.egroups)
    × InOrder (λ a b. ltb_ℤ b a) chosen.egroups
    × BestFirst (λ a b. ltb_ℤ b a) 2 chosen.egroups
choose_best_k-BestFirst_example =
    choose_best_k-BestFirst (λ a b. ltb_ℤ b a) two_groups 4 (chosen, pos 0) greater-StrictWeak
      two_groups_4 (λ e. cc)

-- An object that has evaluations of one type.
abbrev pub one_type : ScoringApi
one_type = record new_scoring_api { ssys_map = ("containment", ("core", two_groups) ∷ []) ∷ [] }

merge-merged_example :
    evals_of (Api.merge one_type one_type) ≡ merged one_type.ssys_map (evals_of one_type)
merge-merged_example = merge-merged one_type one_type
