-- ===== src/Engine.antt =====
-- The storage engine: src/storage_engine.cpp on src/memtable.cpp, src/wal.cpp, src/sstable.cpp and
-- src/compaction.cpp.
pub mod Keys
pub mod Status
pub mod MemTable
pub mod Sstable
pub mod Replication
pub mod Log
pub mod Compaction
pub mod Defs
pub mod Layers
pub mod Sound
pub mod Runs
pub mod Serving
mod Examples
