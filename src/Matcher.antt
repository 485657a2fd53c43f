-- ===== src/Matcher.antt =====
-- `matcher_data.hpp`: the subsystems that a matcher walks, and the count that it selects.
pub mod SelectCount
pub mod Subsystems
