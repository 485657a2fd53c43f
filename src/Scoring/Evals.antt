-- ===== src/Scoring/Evals.antt =====
-- `eval_edg_t`, `eval_egroup_t`, `evals_t` and the orders of `fold`.
pub mod Counts
pub mod Best
use resource_query.Prelude.{
  to_signed, ℕ, zero, suc, ◌+◌, ◌-◌, ◌%◌, ◌/◌, ◌^◌, ◌<◌, ℤ, pos, negsuc, ◌+ℤ◌, ltb_ℤ, ◌==ℤ◌, String,
  List, [], ◌∷◌, ◌++◌, Bool, true, false, ◌&&◌, ◌||◌, not, Option, none, some, ltb, leb, ◌==◌, ◌=?◌,
  if◌then◌else◌, add32, sub32, get_elem?, take, string_key,
}
use resource_query.Run.{Run, ok, fault, out_of_range, ◌>>=◌}

-- `edge` is `none` for the evaluation of the root, which is built without an edge.
pub record EvalEdg : Type 0 where
  pub count : ℕ
  pub needs : ℕ
  pub exclusive : ℕ
  pub edge : Option ℕ

pub record EvalEgroup : Type 0 where
  pub score : ℤ
  pub count : ℕ
  pub needs : ℕ
  pub exclusive : ℕ
  pub root : Bool
  pub edges : List EvalEdg

-- `iter_cur` is the iterator's position.
pub record Evals : Type 0 where
  pub egroups : List EvalEgroup
  pub resrc_type : String
  pub cutline : ℤ
  pub qual_count : ℕ
  pub total_count : ℕ
  pub best_k : ℕ
  pub best_i : ℕ
  pub iter_cur : ℕ

abbrev pub new_evals : String → Evals
new_evals t = record {
  egroups = [];
  resrc_type = t;
  cutline = pos 0;
  qual_count = 0;
  total_count = 0;
  best_k = 0;
  best_i = 0;
  iter_cur = 0;
}

unfoldable pub greater : EvalEgroup → EvalEgroup → Bool
greater a b = ltb_ℤ b.score a.score

unfoldable pub less : EvalEgroup → EvalEgroup → Bool
less a b = ltb_ℤ a.score b.score

unfoldable pub plus : ℤ → EvalEgroup → ℤ
plus result a = result +ℤ a.score

unfoldable pub add : Evals → EvalEgroup → Evals × ℕ
add e eg =
    let total = add32 e.total_count eg.count in
    let qual = if ltb_ℤ e.cutline eg.score then add32 e.qual_count eg.count else e.qual_count in
    (record e { egroups = e.egroups ++ eg ∷ []; qual_count = qual; total_count = total }, qual)

unfoldable pub set_cutline : Evals → ℤ → Evals × ℤ
set_cutline e c = (record e { cutline = c }, e.cutline)

-- `std::sort`: the entries in the order of `comp`, equal ones as they stood.
unfoldable pub insert_sorted :
    (EvalEgroup → EvalEgroup → Bool) → EvalEgroup → List EvalEgroup → List EvalEgroup
insert_sorted comp x [] = x ∷ []
insert_sorted comp x (y ∷ ys) = if comp y x then y ∷ insert_sorted comp x ys else x ∷ y ∷ ys

unfoldable pub sort : (EvalEgroup → EvalEgroup → Bool) → List EvalEgroup → List EvalEgroup
unfolding insert_sorted
sort comp [] = []
sort comp (x ∷ xs) = insert_sorted comp x (sort comp xs)

-- The sign of an `int`, kept as its residue modulo 2 ^ 32.
abbrev pub is_positive : ℕ → Bool
is_positive t = ltb 0 t && ltb t (2 ^ 31)

-- The loop of `choose_best_k`: the groups with their needs, and the value of `i` at its end.
unfoldable pub assign_needs : ℕ → List EvalEgroup → Run (List EvalEgroup × ℕ)
assign_needs left [] = if is_positive left then fault out_of_range else ok ([], 0)
assign_needs left (g ∷ gs) =
    let rest = assign_needs (sub32 left g.count) gs in
    if is_positive left
    then (rest >>= λ r.
        ok (record g { needs = if leb left g.count then left else g.count } ∷ r.0, suc r.1))
    else ok (g ∷ gs, 0)

unfoldable pub choose_best_k : Evals → ℕ → (EvalEgroup → EvalEgroup → Bool) → Run (Evals × ℤ)
unfolding sort assign_needs
choose_best_k e k comp =
    if k == 0 || ltb e.qual_count k
    then ok (e, negsuc 0)
    else assign_needs k (sort comp e.egroups) >>= λ r.
        ok (record e { egroups = r.0; best_k = k; best_i = r.1 }, to_signed (2 ^ 32) e.best_k)

-- `m_eval_egroups[i]` for `i < m_best_i`.
unfoldable pub accumulate : (ℤ → EvalEgroup → ℤ) → ℤ → ℕ → List EvalEgroup → Run ℤ
accumulate accum acc zero gs = ok acc
accumulate accum acc (suc n) [] = fault out_of_range
accumulate accum acc (suc n) (g ∷ gs) = accumulate accum (accum acc g) n gs

unfoldable pub accum_best_k : Evals → (ℤ → EvalEgroup → ℤ) → Run ℤ
unfolding accumulate
accum_best_k e accum =
    if e.best_k == 0 || e.best_i == 0
    then ok (negsuc 0)
    else accumulate accum (pos 0) e.best_i e.egroups

unfoldable pub merge : Evals → Evals → Evals × ℤ
merge e o =
    if not (e.cutline ==ℤ o.cutline) || not (e.resrc_type =? o.resrc_type) then (e, negsuc 0) else (
      record e {
        egroups = e.egroups ++ o.egroups;
        cutline = o.cutline;
        qual_count = add32 e.qual_count o.qual_count;
        total_count = add32 e.total_count o.total_count;
      },
      pos 0,
    )

unfoldable pub rewind_iter_cur : Evals → Evals
rewind_iter_cur e = record e { iter_cur = 0 }
