-- ===== src/ResourceData.antt =====
-- `resource_data.hpp`: what the resource graph stores at its vertices and edges. `P` is the type of a
-- planner, and a planner pointer is an `Option`.
pub mod Color
use resource_query.Prelude.{
  ℕ, ◌+◌, ◌%◌, ◌^◌, ℤ, String, List, [], ◌∷◌, Bool, Option, none, some, Dict, leb, ◌==◌, ◌≡◌, arith,
  ◌<◌, false, true,
}

module _ (P : Type 0) where
  -- `schedule_t`, its tables from jobs to spans.
  pub record Schedule : Type 0 where
    pub tags : Dict ℕ ℕ
    pub allocations : Dict ℕ ℤ
    pub reservations : Dict ℕ ℤ
    pub x_spans : Dict ℕ ℤ
    pub plans : Option P
    pub x_checker : Option P

  -- `pool_infra_t` with `infra_base_t`. A null pointer in `subplans` is `none`.
  pub record PoolInfra : Type 0 where
    pub member_of : Dict String String
    pub job2span : Dict ℕ ℤ
    pub subplans : Dict String (Option P)
    pub colors : Dict String ℕ

  pub record ResourcePool : Type 0 where
    pub type : String
    pub paths : Dict String String
    pub basename : String
    pub name : String
    pub properties : Dict String String
    pub id : ℤ
    pub size : ℕ
    pub unit : String
    pub schedule : Schedule
    pub idata : PoolInfra

-- `relation_infra_t` with `infra_base_t`.
pub record RelationInfra : Type 0 where
  pub member_of : Dict String String
  pub needs : ℕ
  pub best_k_cnt : ℕ
  pub exclusive : ℕ

pub record ResourceRelation : Type 0 where
  pub name : String
  pub idata : RelationInfra

-- `relation_infra_t::scrub`
unfoldable pub scrub_relation : RelationInfra → RelationInfra
scrub_relation r = record r { needs = 0; best_k_cnt = 0; exclusive = 0 }

-- All of a vertex but its schedule and what the walks keep at it.
abbrev pub identity :
    {P : Type 0}
    → ResourcePool P
    → String
      × Dict String String
      × String
      × String
      × Dict String String
      × ℤ
      × ℕ
      × String
      × Dict String String
identity p =
    (p.type, p.paths, p.basename, p.name, p.properties, p.id, p.size, p.unit, p.idata.member_of)

-- `pool_infra_t::scrub`, which leaves the planners' entries with the null pointers that
-- `planner_destroy` writes.
module _ {P : Type 0} where
  abbrev pub destroy_all : Dict String (Option P) → Dict String (Option P)
  destroy_all [] = []
  destroy_all ((s, _) ∷ rest) = (s, none) ∷ destroy_all rest

  unfoldable pub scrub_pool : PoolInfra P → PoolInfra P
  scrub_pool i = record i { job2span = []; subplans = destroy_all i.subplans; colors = [] }
