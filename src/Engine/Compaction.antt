-- ===== src/Engine/Compaction.antt =====
-- src/compaction.cpp. The tables are given from the newest to the oldest.
pub mod Keeps
use vault_vk.Common.{Bool, not, List, [], ◌∷◌, ◌++◌, Option, none, some, filter}
use vault_vk.Text.{codes}
use vault_vk.Engine.Keys.{Table, sort}
use vault_vk.Engine.Status.{Status, success, failure, code_invalid_argument}
use vault_vk.Engine.MemTable.{MemValue}
use vault_vk.Engine.Sstable.{SstableRecord, SstableReader, Failure, latest, build, leaves_partial}

-- `AllRecords` of each table, from the oldest to the newest.
abbrev pub all_records : List SstableReader → List SstableRecord
all_records [] = []
all_records (r ∷ rs) = all_records rs ++ r.index

abbrev pub latest_by_key : List SstableReader → Table MemValue
latest_by_key tables = latest (all_records tables) []

abbrev pub live : Table MemValue → Table MemValue
live t = filter (λ e. not e.1.tombstone) t

-- The status, and the file where one is written: none when no record is left.
unfoldable pub write_records : Option Failure → Table MemValue → Status × Option SstableReader
unfolding sort build
write_records failed [] = (success 0, none)
write_records failed (e ∷ t) = let made = build failed (sort (e ∷ t)) in (made.status, made.value)

-- Whether compaction ends in an error with a file in level 1 that it has not finished.
abbrev pub compact_leaves_partial : Option Failure → List SstableReader → Bool
compact_leaves_partial failed tables = leaves_partial failed (sort (live (latest_by_key tables)))

unfoldable pub compact_level0_to_level1 :
    Option Failure → List SstableReader → Status × Option SstableReader
unfolding latest write_records
compact_level0_to_level1 failed [] =
    (failure code_invalid_argument (codes "no L0 tables to compact"), none)
compact_level0_to_level1 failed (r ∷ rs) = write_records failed (live (latest_by_key (r ∷ rs)))
