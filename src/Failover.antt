-- ===== src/Failover.antt =====
-- The failover page of frontend/src/pages/Raft.tsx: killing and restarting a node, and the watch for
-- the election that follows a kill.
pub mod Defs
pub mod Limit
pub mod Rounds
pub mod Verdict
pub mod Whole
pub mod Page
pub mod Bounds
pub mod Shown
mod Examples
