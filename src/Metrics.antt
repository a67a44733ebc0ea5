-- ===== src/Metrics.antt =====
-- The samples that the console derives from the gateway's snapshots: `consumeSnapshot` of
-- frontend/src/hooks.ts, and `ingest` of frontend/src/hooks/useClusterWS.ts with its stores.
pub mod Snapshot
pub mod Consume
pub mod Ingest
pub mod Agreement
pub mod Rates
mod Examples
