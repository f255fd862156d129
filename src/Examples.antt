-- ===== src/Examples.antt =====
-- Tests, and applications of the theorems at concrete inputs.
pub mod Maps
pub mod Events
pub mod Graphs
pub mod Schedulers
pub mod Contexts
pub mod Runs
pub mod Batches
pub mod Durations
pub mod Assembly
pub mod Trees
pub mod Turns
pub mod Banks
