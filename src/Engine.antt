-- ===== src/Engine.antt =====
-- crates/cuepool/src/engine.rs: `ShowEngine`, the part of the program that runs a show.
pub mod State
pub mod Stops
pub mod Transport
pub mod Play
pub mod Dispatch
pub mod Ticks
pub mod Run
pub mod Total
pub mod Answered
pub mod Keeps
pub mod Preserve
pub mod Checks
pub mod Outer
pub mod Invariants
pub mod Clock
pub mod Halves
pub mod Quiet
pub mod Seeks
pub mod Single
pub mod Pauses
