-- ===== src/Jobspec.antt =====
-- The data that `jobspec.hpp` declares.
pub mod Result
pub mod Yaml
pub mod Parse
use resource_query.Prelude.{ℕ, ℤ, String, List, [], ◌∷◌, Dict, Bool, true, false}

pub data Tristate : Type 0 where
  no_exclusive exclusive unspecified : Tristate

-- `count`: `min` and `max` are `unsigned`, `oper` is a `char` and `operand` an `int`.
pub record Count : Type 0 where
  pub min : ℕ
  pub max : ℕ
  pub oper : ℕ
  pub operand : ℤ

-- The members of `Resource` but `with`. The traverser keeps counts in `user_data`, none negative.
pub record Attrs : Type 0 where
  pub type : String
  pub count : Count
  pub unit : String
  pub label : String
  pub id : String
  pub exclusive : Tristate
  pub user_data : Dict String ℕ

mutual
  pub data Resource : Type 0 where
    node : Attrs → Resources → Resource

  pub data Resources : Type 0 where
    nil : Resources
    cons : Resource → Resources → Resources

abbrev pub attrs : Resource → Attrs
attrs (node a _) = a

abbrev pub to_list : Resources → List Resource
to_list nil = []
to_list (cons r rs) = r ∷ to_list rs

abbrev pub of_list : List Resource → Resources
of_list [] = nil
of_list (r ∷ rs) = cons r (of_list rs)

-- The member `with`.
abbrev pub children : Resource → List Resource
children (node _ rs) = to_list rs

abbrev pub is_exclusive : Tristate → Bool
is_exclusive exclusive = true
is_exclusive _ = false

pub record Task : Type 0 where
  pub command : List String
  pub slot : String
  pub count : Dict String String
  pub distribution : String
  pub attributes : Dict String String

pub record Jobspec : Type 0 where
  pub version : ℕ
  pub resources : List Resource
  pub tasks : List Task
  pub attributes : Dict String (Dict String String)
