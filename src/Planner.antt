-- ===== src/Planner.antt =====
-- The calls of `planner/planner.h` that the traverser makes, as an interface. A call gives
-- its result and the value that it sets `errno` to, if any. A null planner is `none`; the calls that can
-- read through a null pointer or past the end of an array give a `Run`.
pub mod Points
pub mod Mintime
pub mod Context
pub mod Tracked
pub mod Spans
pub mod Windows
pub mod Api
pub mod Reads
pub mod Fits
pub mod Times
pub mod First
pub mod Overbook
pub mod Exact
pub mod Booking
pub mod Play
use resource_query.Prelude.{ℕ, ℤ, String, List, Option}
use resource_query.Run.{Run}

pub record Planner : Type 1 where
  pub Plan : Type 0
  pub planner_new : ℤ → ℕ → List ℕ → List String → Option Plan × Option ℕ
  pub planner_base_time : Option Plan → ℤ
  pub planner_duration : Option Plan → ℕ
  pub planner_resource_types : Option Plan → List String
  pub planner_avail_resources_during : Option Plan → ℤ → ℕ → ℕ → Run (ℤ × Option ℕ)
  pub planner_avail_resources_during_by_type : Option Plan → ℤ → ℕ → String → Run (ℤ × Option ℕ)
  pub planner_avail_during : Option Plan → ℤ → ℕ → List ℕ → ℤ × Option ℕ
  pub planner_add_span : Option Plan → ℤ → ℕ → List ℕ → Run (Option Plan × ℤ × Option ℕ)
  pub planner_rem_span : Option Plan → ℤ → Option Plan × ℤ × Option ℕ
  pub planner_avail_time_first : Option Plan → ℤ → ℕ → List ℕ → Option Plan × ℤ × Option ℕ
  pub planner_avail_time_next : Option Plan → Option Plan × ℤ × Option ℕ
