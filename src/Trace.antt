-- ===== src/Trace.antt =====
-- The live request trace of `ArchitectureView` in frontend/src/App.tsx: five stages that run in order
-- and stop at the first failure.
pub mod Defs
pub mod Runner
pub mod Stages
pub mod Outcome
pub mod Report
pub mod Panel
pub mod Whole
pub mod Carousel
pub mod Shown
pub mod Rows
mod Examples
