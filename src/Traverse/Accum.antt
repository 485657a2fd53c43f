-- ===== src/Traverse/Accum.antt =====
-- The aggregates by resource type: `accum_if` and `count`.
use resource_query.Prelude.{
  ℕ, ◌+◌, ◌%◌, String, List, [], ◌∷◌, Bool, false, none, some, Dict, lookup, insert, string_key,
  ◌=?◌, any, if◌then◌else◌, u32, ◌≡◌, refl, arith, length, lookup-insert, ℤ, pos, negsuc,
}
use resource_query.Matcher.Subsystems.{MatcherData}

-- `sdau_resource_types[subsystem].find (type) != end`
abbrev pub is_aggregated : MatcherData → String → String → Bool
is_aggregated m subsystem type = elim (lookup subsystem m.sdau_resource_types) [
  | none ↦ false
  | some ts ↦ any (λ t. t =? type) ts
]

-- The entry of a type, 0 where there is none.
abbrev pub amount : String → Dict String ℕ → ℕ
amount type accum = elim (lookup type accum) [ none ↦ 0 | some n ↦ n ]

-- `counts` is an `unsigned int`: what a caller passes is reduced.
unfoldable pub accum_if : MatcherData → String → String → ℕ → Dict String ℕ → Dict String ℕ × ℤ
accum_if m subsystem type counts accum =
    if is_aggregated m subsystem type
    then (insert type (amount type accum + counts % u32) accum, pos 0)
    else (accum, negsuc 0)

-- `for (auto &kv : from) accum_if (subsystem, kv.first, kv.second, accum)`
unfoldable pub accum_all : MatcherData → String → Dict String ℕ → Dict String ℕ → Dict String ℕ
unfolding accum_if
accum_all m subsystem [] accum = accum
accum_all m subsystem ((t, n) ∷ rest) accum =
    accum_all m subsystem rest (accum_if m subsystem t n accum).0

-- `count`: the amounts of the planner's types, in its order.
unfoldable pub count : List String → Dict String ℕ → List ℕ
count [] found = []
count (t ∷ ts) found = amount t found ∷ count ts found

-- Only an aggregated type's entry grows, by what is added, and every other type's stays.
pub amount-accum_if :
    (m : MatcherData) (s type other : String) (n : ℕ) (accum : Dict String ℕ)
    → amount other (accum_if m s type n accum).0 ≡ (
        if is_aggregated m s type
        then (if type =? other then amount type accum + n % u32 else amount other accum)
        else amount other accum)
unfolding accum_if
amount-accum_if m s type other n accum =
    ground (arith, lookup-insert type other (amount type accum + n % u32) accum)

pub length-count : (ts : List String) (found : Dict String ℕ) → length (count ts found) ≡ length ts
unfolding count
length-count [] found = refl
length-count (t ∷ ts) found = omega (arith, length-count ts found)
