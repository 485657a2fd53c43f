-- ===== src/Policy.antt =====
-- `dfu_match_id_based.hpp` and the callbacks of `dfu_match_cb.hpp` that it inherits.
pub mod Graph
use resource_query.Prelude.{
  ℤ, pos, negsuc, ◌+ℤ◌, ◌==ℤ◌, String, List, [], ◌∷◌, Bool, ◌==◌, ◌=?◌, string_key, if◌then◌else◌,
}
use resource_query.Run.{Run, ok, ◌>>=◌}
use resource_query.Jobspec.{Resource, attrs, children}
use resource_query.Matcher.SelectCount.{select_count}
use resource_query.Scoring.Evals.{EvalEgroup, greater, less, plus}
use resource_query.Scoring.Api.{
  ScoringApi, qualified_count, choose_accum_best_k, choose_accum_all, resrc_types, transform,
}

pub data Policy : Type 0 where
  high_first low_first greater_interval_first : Policy

-- `boost::icl::interval_set<int64_t>`: built by inserting the closed intervals [s, s], and asked
-- whether the interval that holds one score is greater than the one that holds another.
pub record IntervalSet : Type 1 where
  pub Ivset : Type 0
  pub empty : Ivset
  pub insert : ℤ → Ivset → Ivset
  pub find_greater : Ivset → ℤ → ℤ → Bool

abbrev pub match_unmet : ℤ
match_unmet = pos 0

abbrev pub match_met : ℤ
match_met = pos 1

abbrev pub is_met : ℤ → Bool
is_met score = score ==ℤ match_met

module _ (icl : IntervalSet) where
  abbrev Order : Type 0
  Order = EvalEgroup → EvalEgroup → Bool

  insert_all : List ℤ → icl.Ivset → icl.Ivset
  insert_all [] v = v
  insert_all (s ∷ ss) v = insert_all ss (icl.insert s v)

  interval_greater : icl.Ivset → Order
  interval_greater v a b = icl.find_greater v a.score b.score

  -- What the three policies hand to `choose_accum_best_k`; the interval set collects the scores of
  -- every type that was compared before.
  unfoldable pub prefer :
      Policy → icl.Ivset → ScoringApi → String → String → icl.Ivset × ScoringApi × Order
  unfolding insert_all interval_greater
  prefer high_first v dfu s t = (v, dfu, greater)
  prefer low_first v dfu s t = (v, dfu, less)
  prefer greater_interval_first v dfu s t =
      let (dfu', scores) = transform dfu s t (λ g. g.score) in
      let v' = insert_all scores v in (v', dfu', interval_greater v')

  -- The loop over the resources of one level, ended by a count of 0: it gives the score.
  unfoldable pub choose_each :
      Policy → icl.Ivset → String → List Resource → ScoringApi → Run (icl.Ivset × ScoringApi × ℤ)
  unfolding prefer
  choose_each policy v s [] dfu = ok (v, dfu, match_met)
  choose_each policy v s (r ∷ rs) dfu =
      let t = (attrs r).type in
      let (dfu₁, qc) = qualified_count dfu s t in
      select_count r qc >>= λ count.
      if count == 0
      then ok (v, dfu₁, match_unmet)
      else (let (v', dfu₂, comp) = prefer policy v dfu₁ s t in
          choose_accum_best_k dfu₂ s t count comp plus >>= λ c. choose_each policy v' s rs c.0)

  -- 0 or -1, as `(score == MATCH_MET)? 0 : -1`.
  abbrev pub verdict : ℤ → ℤ
  verdict score = if is_met score then pos 0 else negsuc 0

  unfoldable pub dom_finish_graph :
      Policy → String → List Resource → ScoringApi → Run (ScoringApi × ℤ)
  unfolding choose_each
  dom_finish_graph policy s resources dfu = choose_each policy icl.empty s resources dfu >>= λ c.
      ok (record c.1 { overall_score = c.2 }, verdict c.2)

  -- The loop over the resources of the visited type. A count of 0 ends the inner loop only, and the
  -- score that it sets stays.
  unfoldable pub choose_children :
      Policy → icl.Ivset → String → String → List Resource → ScoringApi → ℤ → Run (ScoringApi × ℤ)
  unfolding choose_each
  choose_children policy v s type [] dfu score = ok (dfu, score)
  choose_children policy v s type (r ∷ rs) dfu score =
      if (attrs r).type =? type
      then (choose_each policy v s (children r) dfu >>= λ c.
          choose_children policy c.0 s type rs c.1 (if is_met c.2 then score else c.2))
      else choose_children policy v s type rs dfu score

  -- `decr` lowers the level of the traversal, which the traverser keeps.
  unfoldable pub dom_finish_vtx :
      Policy → String → ℤ → String → List Resource → ScoringApi → Run (ScoringApi × ℤ)
  unfolding choose_children
  dom_finish_vtx policy type id s resources dfu =
      choose_children policy icl.empty s type resources dfu match_met >>= λ c.
      ok
        (record c.0 { overall_score = if is_met c.1 then c.1 +ℤ id +ℤ pos 1 else c.1 }, verdict c.1)

  unfoldable pub choose_all : String → List String → ScoringApi → Run ScoringApi
  choose_all s [] dfu = ok dfu
  choose_all s (t ∷ ts) dfu = choose_accum_all dfu s t greater plus >>= λ c. choose_all s ts c.0

  -- Only `high_first_t` overrides the callback: the functions of this name in the other two classes
  -- take other arguments, so those classes inherit the base's, which does nothing.
  unfoldable pub dom_finish_slot : Policy → String → ScoringApi → Run (ScoringApi × ℤ)
  unfolding choose_all
  dom_finish_slot high_first s dfu =
      let (dfu₁, types) = resrc_types dfu s in choose_all s types dfu₁ >>= λ dfu₂. ok (dfu₂, pos 0)
  dom_finish_slot _ s dfu = ok (dfu, pos 0)
