-- ===== src/Traverse.antt =====
-- `dfu_traverse_impl.hpp`, `dfu_traverse_impl.cpp` and `dfu_traverse.cpp`: the walks of the graph.
pub mod State
pub mod Runs
pub mod Keeps
pub mod Ends
pub mod Frame
pub mod Quiet
pub mod Accum
pub mod Prune
pub mod Match
pub mod Resolve
pub mod Walk
pub mod Prime
pub mod Update
pub mod Remove
pub mod Traverser
