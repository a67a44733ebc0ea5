-- ===== src/Store.antt =====
-- frontend/src/store.ts: the state of the console and its actions. `N` is the type of the numbers
-- that the store only carries (times, latencies, rates); identifiers and counters are naturals.
pub mod Defs
pub mod Actions
pub mod Masking
pub mod Rollback
pub mod EventLoop
mod Examples
