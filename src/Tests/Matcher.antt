-- ===== src/Tests/Matcher.antt =====
-- Counts and subsystems at fixed inputs.
use resource_query.Prelude.{
  ℕ, ℤ, pos, ◌≡◌, refl, String, [], true, ◌≤◌, add32, mul32, arith, string_key, ◌↔◌, false, some,
  contains,
}
use resource_query.Run.{ok, fault, diverges, Returns}
use resource_query.Jobspec.{Resource, node, nil, unspecified, attrs}
use resource_query.Matcher.SelectCount.{select_count}
use resource_query.Matcher.SelectCount.Progression.{
  LastWithin, Stuck, select_count-le, select_count-plus, select_count-times, select_count-diverges,
}
use resource_query.Matcher.Subsystems.{
  MatcherData, add_subsystem, add_subsystem-IsConsistent, IsConsistent, listed, dom_subsystem,
}
use resource_query.ResourceData.Color.{
  is_white, is_gray, is_black, reset, gray, black, reset-whitens,
}

abbrev cores : ℕ → ℕ → ℕ → ℤ → Resource
cores min max oper operand =
    node
      (record {
        type = "core";
        count = record { min = min; max = max; oper = oper; operand = operand };
        unit = "";
        label = "";
        id = "";
        exclusive = unspecified;
        user_data = [];
      })
      nil

-- From 2 to 10 cores, three more at a time.
abbrev pub stepped : Resource
stepped = cores 2 10 b'+' (pos 3)

abbrev doubled : Resource
doubled = cores 1 16 b'*' (pos 2)

abbrev squared : Resource
squared = cores 2 300 b'^' (pos 2)

stepped_7 : select_count stepped 7 ≡ ok 5
unfolding select_count
stepped_7 = refl

squared_300 : select_count squared 300 ≡ ok 256
unfolding select_count
squared_300 = refl

select_count-le_example : (5 ≤ 7) × (5 ≤ (attrs stepped).count.max)
select_count-le_example = select_count-le stepped 7 5 stepped_7

select_count-plus_example :
    Returns (select_count stepped 7) (LastWithin (λ cur. add32 cur 3) 7 10 2)
select_count-plus_example =
    select_count-plus stepped 7 3 refl refl (omega arith) (omega arith) (omega arith) (omega arith)
      (omega arith)

select_count-times_example :
    Returns (select_count doubled 12) (LastWithin (λ cur. mul32 cur 2) 12 16 1)
select_count-times_example =
    select_count-times doubled 12 2 refl refl (omega arith) (omega arith) (omega arith)
      (omega arith) (omega arith) (omega arith)

select_count-diverges_example : select_count (cores 1 4 b'+' (pos 0)) 4 ≡ fault diverges
select_count-diverges_example =
    select_count-diverges (cores 1 4 b'+' (pos 0)) 4 (Stuck.plus_zero refl refl) (omega arith)
      (omega arith) (omega arith)

abbrev no_subsystems : MatcherData
no_subsystems = record {
  name = "CA";
  subsystems = [];
  subsystems_map = [];
  sdau_resource_types = [];
}

no_subsystems-IsConsistent : IsConsistent no_subsystems
unfolding contains
no_subsystems-IsConsistent s = refl

add_subsystem-IsConsistent_example :
    IsConsistent (add_subsystem no_subsystems "containment" "*").0
    × (((add_subsystem no_subsystems "containment" "*").1 ≡ pos 0)
        ↔ (listed "containment" no_subsystems.subsystems ≡ false))
    × (listed "containment" (add_subsystem no_subsystems "containment" "*").0.subsystems ≡ true)
    × ((d : String)
        → dom_subsystem no_subsystems ≡ some d
        → dom_subsystem (add_subsystem no_subsystems "containment" "*").0 ≡ some d)
add_subsystem-IsConsistent_example =
    add_subsystem-IsConsistent no_subsystems "containment" "*" no_subsystems-IsConsistent

reset-whitens_example :
    (is_white 7 (reset 5) ≡ true)
    × (is_gray 7 (reset 5) ≡ false)
    × (is_black 7 (reset 5) ≡ false)
    × (is_white (gray 5) 5 ≡ false)
    × (is_black (gray 5) 5 ≡ false)
    × (is_gray (black 5) 5 ≡ false)
unfolding black
reset-whitens_example = reset-whitens 5 7 (omega arith) (omega arith)
