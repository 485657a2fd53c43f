-- ===== src/Scoring/Api.antt =====
-- `scoring_api_t`: evaluations for each subsystem and resource type. The heap objects that its two
-- maps point to have one owner each, so the maps hold the values.
pub mod Keyed
use resource_query.Prelude.{
  ℕ, ◌+◌, ℤ, negsuc, ◌==ℤ◌, String, List, [], ◌∷◌, map, Bool, true, false, not, Option, none, some,
  Dict, lookup, insert, string_key, if◌then◌else◌, get_elem?,
}
use resource_query.Run.{Run, ok, fault, out_of_range, ◌>>=◌}
use resource_query.Scoring.Evals.{EvalEgroup, Evals, new_evals}
use resource_query.Scoring.Evals

pub record ScoringApi : Type 0 where
  pub ssys_map : Dict String (Dict String Evals)
  pub hier_constrain_now : Bool
  pub overall_score : ℤ
  pub avail : ℕ

abbrev pub new_scoring_api : ScoringApi
new_scoring_api = record {
  ssys_map = [];
  hier_constrain_now = false;
  overall_score = negsuc 0;
  avail = 0;
}

unfoldable pub handle_new_subsystem : ScoringApi → String → ScoringApi
handle_new_subsystem a s = elim (lookup s a.ssys_map) [
  | none ↦ record a { ssys_map = insert s [] a.ssys_map }
  | some _ ↦ a
]

abbrev pub types_of : ScoringApi → String → Dict String Evals
types_of a s = elim (lookup s a.ssys_map) [ none ↦ [] | some m ↦ m ]

unfoldable pub handle_new_resrc_type : ScoringApi → String → String → ScoringApi
handle_new_resrc_type a s r = elim (lookup r (types_of a s)) [
  | none ↦ record a { ssys_map = insert s (insert r (new_evals r) (types_of a s)) a.ssys_map }
  | some _ ↦ a
]

unfoldable pub handle_new_keys : ScoringApi → String → String → ScoringApi
unfolding handle_new_subsystem handle_new_resrc_type
handle_new_keys a s r = handle_new_resrc_type (handle_new_subsystem a s) s r

-- `(*m_ssys_map[s])[r]`, which `handle_new_keys` has made.
abbrev pub evals_of : ScoringApi → String → String → Evals
evals_of a s r = elim (lookup r (types_of a s)) [ none ↦ new_evals r | some e ↦ e ]

abbrev pub put_evals : ScoringApi → String → String → Evals → ScoringApi
put_evals a s r e = record a { ssys_map = insert s (insert r e (types_of a s)) a.ssys_map }

-- The two steps that every operation begins with, and what it reads then.
unfoldable pub reach : ScoringApi → String → String → ScoringApi × Evals
unfolding handle_new_keys
reach a s r = let b = handle_new_keys a s r in (b, evals_of b s r)

unfoldable pub cutline : ScoringApi → String → String → ScoringApi × ℤ
unfolding reach
cutline a s r = let (b, e) = reach a s r in (b, e.cutline)

unfoldable pub set_cutline : ScoringApi → String → String → ℤ → ScoringApi × ℤ
unfolding reach Evals.set_cutline
set_cutline a s r c =
    let (b, e) = reach a s r in let (e', old) = Evals.set_cutline e c in (put_evals b s r e', old)

unfoldable pub rewind_iter_cur : ScoringApi → String → String → ScoringApi
unfolding reach Evals.rewind_iter_cur
rewind_iter_cur a s r = let (b, e) = reach a s r in put_evals b s r (Evals.rewind_iter_cur e)

-- The group that the iterator stands at.
unfoldable pub iter_cur : ScoringApi → String → String → Run (ScoringApi × EvalEgroup)
unfolding reach
iter_cur a s r =
    let (b, e) = reach a s r in
    elim (get_elem? e.egroups e.iter_cur) [ none ↦ fault out_of_range | some g ↦ ok (b, g) ]

unfoldable pub incr_iter_cur : ScoringApi → String → String → ScoringApi
unfolding reach
incr_iter_cur a s r =
    let (b, e) = reach a s r in put_evals b s r (record e { iter_cur = e.iter_cur + 1 })

unfoldable pub add : ScoringApi → String → String → EvalEgroup → ScoringApi × ℕ
unfolding reach Evals.add
add a s r eg = let (b, e) = reach a s r in let (e', n) = Evals.add e eg in (put_evals b s r e', n)

-- `std::vector::at`, whose `out_of_range` the callers may catch: `none`.
unfoldable pub at : ScoringApi → String → String → ℕ → ScoringApi × Option EvalEgroup
unfolding reach
at a s r i = let (b, e) = reach a s r in (b, get_elem? e.egroups i)

unfoldable pub qualified_count : ScoringApi → String → String → ScoringApi × ℕ
unfolding reach
qualified_count a s r = let (b, e) = reach a s r in (b, e.qual_count)

unfoldable pub total_count : ScoringApi → String → String → ScoringApi × ℕ
unfolding reach
total_count a s r = let (b, e) = reach a s r in (b, e.total_count)

-- The common end of `choose_accum_best_k` and `choose_accum_all`.
unfoldable pub choose_accum :
    ScoringApi
    → Evals
    → String
    → String
    → ℕ
    → (EvalEgroup → EvalEgroup → Bool)
    → (ℤ → EvalEgroup → ℤ)
    → Run (ScoringApi × ℤ)
unfolding Evals.choose_best_k Evals.accum_best_k
choose_accum b e s r k comp accum = Evals.choose_best_k e k comp >>= λ c.
    if not (c.1 ==ℤ negsuc 0)
    then (Evals.accum_best_k c.0 accum >>= λ rc.
        ok (record (put_evals b s r c.0) { hier_constrain_now = true }, rc))
    else ok (put_evals b s r c.0, c.1)

unfoldable pub choose_accum_best_k :
    ScoringApi
    → String
    → String
    → ℕ
    → (EvalEgroup → EvalEgroup → Bool)
    → (ℤ → EvalEgroup → ℤ)
    → Run (ScoringApi × ℤ)
unfolding reach choose_accum
choose_accum_best_k a s r k comp accum =
    let (b, e) = reach a s r in choose_accum b e s r k comp accum

unfoldable pub choose_accum_all :
    ScoringApi
    → String
    → String
    → (EvalEgroup → EvalEgroup → Bool)
    → (ℤ → EvalEgroup → ℤ)
    → Run (ScoringApi × ℤ)
unfolding reach choose_accum
choose_accum_all a s r comp accum =
    let (b, e) = reach a s r in choose_accum b e s r e.qual_count comp accum

-- What `transform` hands to the output iterator.
unfoldable pub transform {ℓ} :
    {A : Type ℓ} → ScoringApi → String → String → (EvalEgroup → A) → ScoringApi × List A
unfolding reach
transform a s r uop = let (b, e) = reach a s r in (b, map uop e.egroups)

unfoldable pub best_k : ScoringApi → String → String → ScoringApi × ℕ
unfolding reach
best_k a s r = let (b, e) = reach a s r in (b, e.best_k)

unfoldable pub best_i : ScoringApi → String → String → ScoringApi × ℕ
unfolding reach
best_i a s r = let (b, e) = reach a s r in (b, e.best_i)

-- The loops of `merge`, over the other object's types and subsystems.
unfoldable pub merge_types : ScoringApi → String → Dict String Evals → ScoringApi
unfolding reach Evals.merge
merge_types a s [] = a
merge_types a s ((r, ev) ∷ rest) =
    merge_types (put_evals (reach a s r).0 s r (Evals.merge (reach a s r).1 ev).0) s rest

unfoldable pub merge_subsystems : ScoringApi → Dict String (Dict String Evals) → ScoringApi
unfolding merge_types
merge_subsystems a [] = a
merge_subsystems a ((s, types) ∷ rest) = merge_subsystems (merge_types a s types) rest

unfoldable pub merge : ScoringApi → ScoringApi → ScoringApi
unfolding merge_subsystems
merge a o = merge_subsystems a o.ssys_map

abbrev pub keys {ℓ κ} : {K : Type ℓ} {V : Type κ} → Dict K V → List K
keys [] = []
keys ((k, v) ∷ m) = k ∷ keys m

unfoldable pub resrc_types : ScoringApi → String → ScoringApi × List String
unfolding handle_new_subsystem
resrc_types a s = let b = handle_new_subsystem a s in (b, keys (types_of b s))
