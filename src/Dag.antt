-- ===== src/Dag.antt =====
-- internal/dag: the parallel traversal of a directed graph.
pub mod State
pub mod Invariant
pub mod System
pub mod Running
pub mod Cycles
pub mod Outcome
pub mod Known
pub mod Progress
pub mod Checks
pub mod Reachable
pub mod Trace
pub mod Tests
