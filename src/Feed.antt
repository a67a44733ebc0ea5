-- ===== src/Feed.antt =====
-- The live connection of hooks.ts: `useSimulatedMetrics` with its web socket, its reconnect timer and
-- its poll timer, as a machine that the browser drives.
pub mod Defs
pub mod Invariant
pub mod Recovery
mod Examples
