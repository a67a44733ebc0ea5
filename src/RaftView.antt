-- ===== src/RaftView.antt =====
-- `RaftView` of frontend/src/App.tsx: the buttons of each node, and the lines of the consensus stream.
pub mod Defs
pub mod Stream
mod Examples
