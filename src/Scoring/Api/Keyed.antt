-- ===== src/Scoring/Api/Keyed.antt =====
-- `scoring_api_t` is a total map from subsystems and types to evaluations.
use resource_query.Prelude.{
  ◌≡◌, refl, ap, ◌∙◌, String, [], ◌∷◌, ◌&&◌, Dict, lookup, insert, string_key, ◌=?◌, if◌then◌else◌,
  lookup-insert, arith, Option-cases, inl, inr,
}
use text.Mathlib.TextEquality.{eq_iff}
use resource_query.Scoring.Evals.{EvalEgroup, Evals, new_evals}
use resource_query.Scoring.Evals
use resource_query.Scoring.Api.{
  ScoringApi, handle_new_subsystem, types_of, handle_new_resrc_type, handle_new_keys, evals_of,
  put_evals, reach,
}
use resource_query.Scoring.Api

types_of-put :
    (a : ScoringApi) (s t : String) (m : Dict String Evals)
    → types_of (record a { ssys_map = insert s m a.ssys_map }) t
      ≡ (if s =? t then m else types_of a t)
types_of-put a s t m = ground (arith, lookup-insert s t m a.ssys_map)

pub evals_of-put :
    (a : ScoringApi) (s t r q : String) (e : Evals)
    → evals_of (put_evals a s r e) t q ≡ (if s =? t && r =? q then e else evals_of a t q)
evals_of-put a s t r q e = ground (
  arith,
  eq_iff s t,
  lookup-insert s t (insert r e (types_of a s)) a.ssys_map,
  lookup-insert r q e (types_of a s),
)

evals_of-subsystem :
    (a : ScoringApi) (s t q : String) → evals_of (handle_new_subsystem a s) t q ≡ evals_of a t q
unfolding handle_new_subsystem
evals_of-subsystem a s t q = elim (Option-cases (lookup s a.ssys_map)) [
  | inl e ↦
      rw (handle_new_subsystem, e) (ground (arith, eq_iff s t, e, lookup-insert s t [] a.ssys_map))
  | inr (m, e) ↦ rw (handle_new_subsystem, e) refl
]

evals_of-type :
    (a : ScoringApi) (s r t q : String)
    → evals_of (handle_new_resrc_type a s r) t q ≡ evals_of a t q
unfolding handle_new_resrc_type
evals_of-type a s r t q = elim (Option-cases (lookup r (types_of a s))) [
  | inl e ↦
      rw (handle_new_resrc_type, e)
        (ground (arith, eq_iff s t, eq_iff r q, e, evals_of-put a s t r q (new_evals r)))
  | inr (m, e) ↦ rw (handle_new_resrc_type, e) refl
]

pub evals_of-keys :
    (a : ScoringApi) (s r t q : String) → evals_of (handle_new_keys a s r) t q ≡ evals_of a t q
unfolding handle_new_keys
evals_of-keys a s r t q =
    evals_of-type (handle_new_subsystem a s) s r t q ∙ evals_of-subsystem a s t q

pub reach-value : (a : ScoringApi) (s r : String) → (reach a s r).1 ≡ evals_of a s r
unfolding reach
reach-value a s r = evals_of-keys a s r s r

-- The evaluations of one subsystem and type change by `f`, all others are as they were.
abbrev pub Updates : (Evals → Evals) → ScoringApi → String → String → ScoringApi → Type 0
Updates f a s r b =
    (t q : String)
    → evals_of b t q ≡ (if s =? t && r =? q then f (evals_of a s r) else evals_of a t q)

pub put-Updates :
    (f : Evals → Evals) (a : ScoringApi) (s r : String)
    → Updates f a s r (put_evals (reach a s r).0 s r (f (reach a s r).1))
unfolding reach
put-Updates f a s r t q =
    evals_of-put (handle_new_keys a s r) s t r q (f (evals_of (handle_new_keys a s r) s r))
    ∙ rw (evals_of-keys a s r s r, evals_of-keys a s r t q) refl

-- The reference for `merge`, over what the object maps each subsystem and type to.
abbrev pub merged_types :
    String → Dict String Evals → (String → String → Evals) → String → String → Evals
merged_types s [] f = f
merged_types s ((r, ev) ∷ rest) f =
    merged_types s rest (λ t q. if s =? t && r =? q then (Evals.merge (f s r) ev).0 else f t q)

abbrev pub merged :
    Dict String (Dict String Evals) → (String → String → Evals) → String → String → Evals
merged [] f = f
merged ((s, types) ∷ rest) f = merged rest (merged_types s types f)

merge_types-merged :
    (a : ScoringApi) (s : String) (types : Dict String Evals)
    → evals_of (Api.merge_types a s types) ≡ merged_types s types (evals_of a)
unfolding Api.merge_types
merge_types-merged a s [] = refl
merge_types-merged a s ((r, ev) ∷ rest) =
    merge_types-merged (put_evals (reach a s r).0 s r (Evals.merge (reach a s r).1 ev).0) s rest
    ∙ ap (merged_types s rest) (λ i t q. put-Updates (λ e. (Evals.merge e ev).0) a s r t q i)

merge_subsystems-merged :
    (a : ScoringApi) (types : Dict String (Dict String Evals))
    → evals_of (Api.merge_subsystems a types) ≡ merged types (evals_of a)
unfolding Api.merge_subsystems
merge_subsystems-merged a [] = refl
merge_subsystems-merged a ((s, types) ∷ rest) =
    merge_subsystems-merged (Api.merge_types a s types) rest
    ∙ ap (merged rest) (merge_types-merged a s types)

-- Merging two objects merges each of the other's evaluations, in the order of its maps, by the merge of
-- `evals_t` into the evaluations of the same subsystem and type, and changes no others.
pub merge-merged : (a o : ScoringApi) → evals_of (Api.merge a o) ≡ merged o.ssys_map (evals_of a)
unfolding Api.merge
merge-merged a o = merge_subsystems-merged a o.ssys_map
