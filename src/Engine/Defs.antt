-- ===== src/Engine/Defs.antt =====
-- src/storage_engine.cpp: the engine's state and its operations, one at a time. The tables of a level
-- are kept from the newest to the oldest; `push_back` is at the front.
use vault_vk.Common.{
  ℕ, Bool, true, false, not, ◌&&◌, ◌||◌, List, [], ◌∷◌, Option, none, some, length, ltb,
  if◌then◌else◌,
}
use vault_vk.Text.{Text, codes}
use vault_vk.Engine.Keys.{Table}
use vault_vk.Engine.Status.{
  Status, is_ok, success, failure, code_io_error, code_corruption, code_invalid_argument,
  code_not_found, code_no_quorum, code_unsupported, Result, ok_of, err,
}
use vault_vk.Engine.MemTable.{
  MemValue, MemTable, empty_memtable, mem_set, mem_delete, mem_get, drain_sorted,
}
use vault_vk.Engine.Sstable.{SstableReader, Failure, build, leaves_partial, sst_get}
use vault_vk.Engine.Compaction.{compact_level0_to_level1, compact_leaves_partial}
use vault_vk.Engine.Replication.{replicate_to_quorum}
use vault_vk.Engine.Log.{
  WalOp, kind_set, kind_delete, WalRecord, Wal, next_record, append_refused, pushed, find_end,
  replay,
}

pub record EngineOptions : Type 0 where
  pub wal_segment_size_bytes : ℕ
  pub memtable_budget_bytes : ℕ
  pub mem_value_size : ℕ
  pub enable_replication : Bool
  pub quorum_size : ℕ

-- What one call meets: the clock, the peers, and what goes wrong with files and encryption: for each of
-- the two `Build`s, its failure and whether the file had been made. A file that is finished is opened,
-- and those that compaction has read are removed.
pub record World : Type 0 where
  pub now : ℕ
  pub transport : Bool
  pub acks : List Bool
  pub encrypts : Bool
  pub build_failed : Option Failure
  pub compact_failed : Option Failure

-- The log and the tables are also what is on disk; `partial_file` tells that there is beside them a file
-- that `Build` has begun and not finished.
pub record StorageEngine : Type 0 where
  pub is_open : Bool
  pub memtable : MemTable
  pub l0_tables : List SstableReader
  pub l1_tables : List SstableReader
  pub partial_file : Bool
  pub wal : Wal

unfoldable pub status_to_error_code : Status → ℕ
status_to_error_code s = elim s.code [
  | code_invalid_argument ↦ 400
  | code_not_found ↦ 404
  | code_no_quorum ↦ 503
  | code_unsupported ↦ 501
  | _ ↦ 500
]

module _ (options : EngineOptions) (world : World) where
  -- `MaybeCompact`: the file that compaction is to have written is opened.
  unfoldable pub maybe_compact : StorageEngine → StorageEngine × Status
  unfolding compact_level0_to_level1
  maybe_compact e =
      if ltb (length e.l0_tables) 4
      then (e, success 0)
      else let (status, file) = compact_level0_to_level1 world.compact_failed e.l0_tables in
        let left = compact_leaves_partial world.compact_failed e.l0_tables in
        if not (is_ok status)
        then (record e { partial_file = e.partial_file || left }, status)
        else elim file [
          | none ↦ (e, failure code_io_error (codes "failed opening sstable for read"))
          | some reader ↦ (record e { l1_tables = reader ∷ e.l1_tables; l0_tables = [] }, success 0)
        ]

  -- `FlushMemTable` behind the draining of the table in memory.
  unfoldable pub write_level0 : Table MemValue → StorageEngine → StorageEngine × Status
  unfolding build maybe_compact
  write_level0 [] e = (e, success 0)
  write_level0 (r ∷ rs) e =
      let built = build world.build_failed (r ∷ rs) in
      elim built.value [
        | none ↦ (
          record e { partial_file = e.partial_file || leaves_partial world.build_failed (r ∷ rs) },
          built.status,
        )
        | some reader ↦ maybe_compact (record e { l0_tables = reader ∷ e.l0_tables })
      ]

  unfoldable pub flush_memtable : StorageEngine → StorageEngine × Status
  unfolding drain_sorted write_level0
  flush_memtable e =
      if not e.is_open
      then (e, failure code_io_error (codes "engine not open"))
      else let (records, memtable) = drain_sorted e.memtable in
        write_level0 records (record e { memtable = memtable })

  -- The status of the replication of a record.
  unfoldable pub replication_of : WalRecord → Status
  unfolding replicate_to_quorum
  replication_of rec =
      if options.enable_replication && ltb 1 options.quorum_size
      then (replicate_to_quorum world.transport rec.seq options.quorum_size world.acks).status
      else success 0

  -- `Set` behind the append: replication, the table in memory, and the flush of one that is full.
  unfoldable pub applied_set : WalRecord → StorageEngine → StorageEngine × Status
  unfolding replication_of mem_set flush_memtable
  applied_set rec e =
      if not (is_ok (replication_of rec))
      then (e, replication_of rec)
      else let (m, status) = mem_set options.mem_value_size rec.key rec.value rec.seq e.memtable in
        let after : StorageEngine = record e { memtable = m } in
        if not (is_ok status)
        then (after, status)
        else if ltb m.approx_bytes options.memtable_budget_bytes
        then (after, success rec.seq)
        else let (flushed, st) = flush_memtable after in
          (flushed, if is_ok st then success rec.seq else st)

  unfoldable pub applied_delete : WalRecord → StorageEngine → StorageEngine × Status
  unfolding replication_of mem_delete
  applied_delete rec e =
      if not (is_ok (replication_of rec))
      then (e, replication_of rec)
      else let (m, status) = mem_delete options.mem_value_size rec.key rec.seq e.memtable in
        (record e { memtable = m }, status)

  -- The append, which may have been refused, and what `Set` or `Delete` does then.
  abbrev pub appended :
      (WalRecord → StorageEngine → StorageEngine × Status)
      → WalRecord
      → StorageEngine
      → Option Status
      → StorageEngine × Status
  appended finish rec e (some status) = (e, status)
  appended finish rec e none = finish rec (record e { wal = pushed rec e.wal })

  -- `Set` and `Delete` up to the append, with what each does then.
  unfoldable pub update :
      (WalRecord → StorageEngine → StorageEngine × Status)
      → WalOp
      → (key value : Text) → StorageEngine
      → StorageEngine × Status
  update finish op [] value e =
      if not e.is_open
      then (e, failure code_io_error (codes "engine not open"))
      else (e, failure code_invalid_argument (codes "key must not be empty"))
  update finish op (c ∷ cs) value e =
      if not e.is_open
      then (e, failure code_io_error (codes "engine not open"))
      else let rec = next_record world.now op (c ∷ cs) value e.wal in
        appended finish rec e
          (append_refused options.wal_segment_size_bytes world.encrypts rec e.wal)

  unfoldable pub set : Text → Text → StorageEngine → StorageEngine × Status
  unfolding update
  set key value e = update applied_set kind_set key value e

  unfoldable pub delete : Text → StorageEngine → StorageEngine × Status
  unfolding update
  delete key e = update applied_delete kind_delete key [] e

abbrev pub or_else {ℓ} : {A : Type ℓ} → Option A → Option A → Option A
or_else none b = b
or_else (some a) b = some a

-- The loops of `Get` over the tables of a level.
unfoldable pub first_hit : Text → List SstableReader → Option MemValue
unfolding sst_get
first_hit key [] = none
first_hit key (r ∷ rs) = or_else (sst_get key r).value (first_hit key rs)

abbrev pub answered : Option MemValue → Result Text
answered none = err (failure code_not_found (codes "key not found"))
answered (some v) =
    if v.tombstone then err (failure code_not_found (codes "deleted")) else ok_of v.value v.seq

unfoldable pub get : Text → StorageEngine → Result Text
unfolding mem_get first_hit
get [] e =
    if e.is_open
    then err (failure code_invalid_argument (codes "key must not be empty"))
    else err (failure code_io_error (codes "engine not open"))
get (c ∷ cs) e =
    let key = c ∷ cs in
    if not e.is_open
    then err (failure code_io_error (codes "engine not open"))
    else answered (
        or_else (mem_get key e.memtable).value
          (or_else (first_hit key e.l0_tables) (first_hit key e.l1_tables)))

-- A new engine on what is on disk, before `Open`.
abbrev pub constructed : StorageEngine → StorageEngine
constructed e = record e { is_open = false; memtable = empty_memtable }

-- `LoadSstablesFromDisk`, by whether there is a partial file: its `Open` answers an error, or `reserve`
-- throws at the entry count that it reads there; both count as this failure.
abbrev pub load_sstables_from_disk : Bool → Status
load_sstables_from_disk true = failure code_corruption (codes "failed reading sstable header")
load_sstables_from_disk false = success 0

-- `Open`: the log, the tables, and the replay.
unfoldable pub open_engine : EngineOptions → StorageEngine → StorageEngine × Status
unfolding find_end replay
open_engine options e =
    if e.is_open
    then (e, success 0)
    else let (offset, last) = find_end e.wal.records 0 0 in
      let found : StorageEngine = record e {
        wal = record (e.wal) { write_offset = offset; last_seq = last };
      } in
      let loaded = load_sstables_from_disk e.partial_file in
      if not (is_ok loaded)
      then (found, loaded)
      else let (m, status) = replay options.mem_value_size e.wal.records e.memtable in
        let read : StorageEngine = record found { memtable = m } in
        if is_ok status then (record read { is_open = true }, success 0) else (read, status)

abbrev pub close_engine : StorageEngine → StorageEngine
close_engine e = record e { is_open = false }
