-- ===== src/MiniGraph.antt =====
-- `FloatingMiniGraph` of frontend/src/App.tsx: whether it is collapsed and in which corner it stands,
-- with their storage.
pub mod Defs
pub mod Reload
pub mod Shown
pub mod Figures
mod Examples
