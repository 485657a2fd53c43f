-- ===== src/Matcher/Subsystems.antt =====
-- The subsystem table of `matcher_data_t`.
use text.Mathlib.TextEquality.{eq_iff}
use resource_query.Prelude.{
  ℤ, pos, negsuc, ◌≡◌, String, List, [], ◌∷◌, ◌++◌, Bool, true, false, Option, none, some, Dict,
  ◌=?◌, ◌||◌, ◌↔◌, insert, contains, lookup-insert, Bool-cases, inl, inr, if◌then◌else◌, arith,
  string_key,
}

pub record MatcherData : Type 0 where
  pub name : String
  pub subsystems : List String
  pub subsystems_map : Dict String (List String)
  pub sdau_resource_types : Dict String (List String)

-- `multi_subsystemsS` maps a subsystem to the set of relations; a new subsystem has one.
unfoldable pub add_subsystem : MatcherData → String → String → MatcherData × ℤ
add_subsystem m s tf = if contains s m.subsystems_map then (m, negsuc 0) else (
  record m {
    subsystems = m.subsystems ++ s ∷ [];
    subsystems_map = insert s (tf ∷ []) m.subsystems_map;
  },
  pos 0,
)

abbrev pub first : List String → Option String
first [] = none
first (s ∷ _) = some s

-- `*(m_subsystems.begin ())`: `none` if no subsystem was added.
unfoldable pub dom_subsystem : MatcherData → Option String
dom_subsystem m = first m.subsystems

-- Every subsystem of the list has an entry in the table, and the other way round.
abbrev pub listed : String → List String → Bool
listed s [] = false
listed s (t ∷ ts) = t =? s || listed s ts

abbrev pub IsConsistent : MatcherData → Type 0
IsConsistent m = (s : String) → contains s m.subsystems_map ≡ listed s m.subsystems

listed-append :
    (s t : String) (ts : List String) → listed s (ts ++ t ∷ []) ≡ (listed s ts || t =? s)
listed-append s t [] = ground arith
listed-append s t (u ∷ ts) = ground (arith, listed-append s t ts)

first-append : (ts : List String) (s d : String) → first ts ≡ some d → first (ts ++ s ∷ []) ≡ some d
first-append [] s d h = cc
first-append (t ∷ ts) s d h = h

-- A new subsystem is put at the end of the list and into the table, and 0 is returned; one that the
-- table has is refused with -1. The list and the table stay consistent, and the dominant subsystem,
-- once there is one, does not change.
pub add_subsystem-IsConsistent :
    (m : MatcherData) (s tf : String)
    → IsConsistent m
    → IsConsistent (add_subsystem m s tf).0
      × (((add_subsystem m s tf).1 ≡ pos 0) ↔ (listed s m.subsystems ≡ false))
      × (listed s (add_subsystem m s tf).0.subsystems ≡ true)
      × ((d : String) → dom_subsystem m ≡ some d → dom_subsystem (add_subsystem m s tf).0 ≡ some d)
unfolding add_subsystem contains dom_subsystem
add_subsystem-IsConsistent m s tf c = elim (Bool-cases (contains s m.subsystems_map)) [
  | inl e ↦ rw (e, add_subsystem) (c, ground (arith, c s), ground (arith, c s), λ d h. h)
  | inr e ↦
      rw (e, add_subsystem)
        (
          λ t. ground (
            arith,
            c t,
            listed-append t s m.subsystems,
            lookup-insert s t (tf ∷ []) m.subsystems_map,
          ),
          ground (arith, c s),
          ground (arith, listed-append s s m.subsystems, eq_iff s s),
          first-append m.subsystems s,
        )
]
