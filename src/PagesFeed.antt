-- ===== src/PagesFeed.antt =====
-- The live connection of the pages: `useClusterWS` in frontend/src/hooks/useClusterWS.ts, as a machine
-- that the browser drives, beside that of hooks.ts.
pub mod Defs
pub mod Matching
pub mod Sound
pub mod Recovery
mod Examples
