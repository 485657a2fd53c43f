-- ===== src/Scoring.antt =====
-- `scoring_api.hpp`: the evaluations that a walk collects, and the choice of the best among them.
pub mod Evals
pub mod Api
