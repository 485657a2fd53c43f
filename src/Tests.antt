-- ===== src/Tests.antt =====
-- Runs of the model at fixed inputs.
mod Jobspec
mod Matcher
mod Scoring
mod Command
mod Traverse
mod Search
mod Policy
mod Planner
