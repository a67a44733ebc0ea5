-- ===== src/Engine/Examples.antt =====
-- Runs of a small engine.
use vault_vk.Common.{
  ◌≡◌, ◌≤◌, length, All, ◌⊎◌, refl, Bool, not, if◌then◌else◌, true, false, List, [], ◌∷◌, ◌&&◌,
  ◌||◌, leb, ◌+◌, some, none, arith,
}
use vault_vk.Text.{Text, text_eq, starts_with}
use vault_vk.Wire.Bytes.{Bytes, append_le}
use vault_vk.Wire.Frames.{Frame, try_parse_frames}
use vault_vk.Wire.Commands.{set_key, send, payload_of, encode_set_payload, frame_bytes}
use vault_vk.Engine.Keys.{lookup, put, without, less, insert, sort, lower_bound, search}
use vault_vk.Engine.Status.{is_ok, failure, code_io_error}
use vault_vk.Engine.MemTable.{
  empty_memtable, released, store, mem_set, mem_delete, mem_get, snapshot_sorted, drain_sorted,
}
use vault_vk.Engine.MemTable.Counts.{CountsRight, updates-CountsRight}
use vault_vk.Engine.Sstable.{latest, build, sst_get, sst_scan_prefix, with_prefix}
use vault_vk.Engine.Sstable.Filter.{
  xor, hash_bytes, hash64, bit_of, fresh, add_loop, add, test_loop, might_contain, add_all,
}
use vault_vk.Engine.Compaction.{write_records, compact_level0_to_level1}
use vault_vk.Engine.Compaction.Keeps.{alive}
use vault_vk.Engine.Replication.{
  replicate_to_quorum, count_acks, positives, replicate_to_quorum-is_ok,
}
use vault_vk.Engine.Log.{append_refused, find_end, replayed, replay}
use vault_vk.Engine.Defs.{
  EngineOptions, World, StorageEngine, maybe_compact, write_level0, flush_memtable, replication_of,
  applied_set, applied_delete, update, set, delete, first_hit, or_else, get, open_engine,
}
use vault_vk.Engine.Runs as Runs
use vault_vk.Engine.Runs.{Event, delete_key, flush, restart, step, run, blank_engine, restarted}
use vault_vk.Engine.Runs.Current.{near, far}
use vault_vk.Engine.Runs.Durable.{
  run-set-get, run-delete-get, run-restarted-get, run-maybe_compact-far,
}
use vault_vk.Engine.Serving.{handle_frame, scan_prefix, candidates}
use vault_vk.Engine.Serving.Rows.{row_count, scan_prefix-rows}
use vault_vk.Engine.Serving.Commands.{asked, send-handle_frame}

abbrev single : EngineOptions
single = record {
  wal_segment_size_bytes = 10000;
  memtable_budget_bytes = 10000;
  mem_value_size = 48;
  enable_replication = false;
  quorum_size = 2;
}

abbrev replicated : EngineOptions
replicated = record single { enable_replication = true }

abbrev fine : World
fine = record {
  now = 7;
  transport = true;
  acks = false ∷ [];
  encrypts = true;
  build_failed = none;
  compact_failed = none;
}

abbrev k : Text
k = 107 ∷ []

abbrev v : Text
v = 118 ∷ []

abbrev other : Event
other = Runs.set_key fine (97 ∷ []) v

updates-CountsRight_example :
    CountsRight 48 (mem_set 48 k v 1 empty_memtable).0
    × CountsRight 48 (mem_delete 48 k 1 empty_memtable).0
updates-CountsRight_example =
    updates-CountsRight 48 empty_memtable (record { distinct = tt; counted = refl }) k v 1

replicate_to_quorum-is_ok_example :
    is_ok (replicate_to_quorum true 1 3 (true ∷ false ∷ [])).status
    ≡ (leb 3 1 || (true && leb 3 (1 + positives (true ∷ false ∷ []))))
replicate_to_quorum-is_ok_example = replicate_to_quorum-is_ok true 1 3 (true ∷ false ∷ [])

run-set-get_example :
    (get k (
      run single
        (other ∷ flush fine ∷ restart ∷ [])
        (set single fine k v (run single (restart ∷ []) blank_engine)).0)).value
    ≡ some v
unfolding step set update append_refused applied_set replication_of mem_set store released put
    without lookup text_eq less flush_memtable drain_sorted write_level0 build latest insert sort
    maybe_compact open_engine find_end replay replayed
run-set-get_example =
    run-set-get single (restart ∷ []) fine 107 [] v refl refl (other ∷ flush fine ∷ restart ∷ [])
      ((refl, refl), (refl, (tt, tt))) refl

run-delete-get_example :
    (get k (
      run single
        (other ∷ flush fine ∷ [])
        (delete single fine k (run single (restart ∷ []) blank_engine)).0)).value
    ≡ none
unfolding step set delete update append_refused applied_set applied_delete replication_of mem_set
    mem_delete store released put without lookup text_eq less flush_memtable drain_sorted
    write_level0 build latest insert sort maybe_compact open_engine find_end replay replayed
    first_hit
run-delete-get_example =
    run-delete-get single (restart ∷ []) fine 107 [] refl refl refl (other ∷ flush fine ∷ [])
      ((refl, refl), (refl, tt)) refl

-- The set is refused, for its peer has not answered, and it is there after a restart.
run-restarted-get_example :
    let e = run replicated (restart ∷ Runs.set_key fine k v ∷ []) blank_engine in
    let started = restarted replicated e in
    (is_ok started.1 ≡ not e.partial_file)
    × ((get k started.0).value ≡ (if e.partial_file then none else some v))
unfolding step set update append_refused applied_set replication_of replicate_to_quorum count_acks
    mem_set store released put without lookup text_eq open_engine find_end replay replayed
run-restarted-get_example =
    run-restarted-get replicated (restart ∷ Runs.set_key fine k v ∷ []) 107 []
      (record { value = v; seq = 1; tombstone = false }) refl

run-maybe_compact-far_example :
    ((b : Bool) × ((maybe_compact single fine (run single (restart ∷ []) blank_engine)).0
        ≡ record (run single (restart ∷ []) blank_engine) { partial_file = b }))
    ⊎ ((key : Text)
        → (near key (maybe_compact single fine (run single (restart ∷ []) blank_engine)).0
            ≡ lookup key (run single (restart ∷ []) blank_engine).memtable.table)
          × (far key (maybe_compact single fine (run single (restart ∷ []) blank_engine)).0
              ≡ or_else
                  (alive (first_hit key (run single (restart ∷ []) blank_engine).l0_tables))
                  (far key (run single (restart ∷ []) blank_engine))))
run-maybe_compact-far_example = run-maybe_compact-far single (restart ∷ []) fine

abbrev k_row : List (Text × Text)
k_row = (k, v) ∷ []

abbrev with_k : StorageEngine
with_k = run single (restart ∷ Runs.set_key fine k v ∷ []) blank_engine

scan_prefix-rows_example :
    (length k_row ≤ row_count k 5) × All (λ (row : Text × Text). starts_with k row.0 ≡ true) k_row
unfolding step set update append_refused applied_set replication_of mem_set store released put
    without lookup text_eq less latest insert sort open_engine find_end replay replayed scan_prefix
    candidates snapshot_sorted sst_scan_prefix with_prefix lower_bound starts_with
scan_prefix-rows_example = scan_prefix-rows k 5 with_k k_row refl

abbrev sent : Bytes
sent = 2 ∷ 0 ∷ 8 ∷ 0 ∷ 0 ∷ 0 ∷ 1 ∷ 0 ∷ 107 ∷ 1 ∷ 0 ∷ 0 ∷ 0 ∷ 118 ∷ []

send-handle_frame_example :
    (f : Frame) × (try_parse_frames sent
      ≡ record { out_frames = f ∷ []; read_buffer = []; good = true })
    × (handle_frame single fine f blank_engine ≡ asked single fine (set_key k v) blank_engine)
unfolding send payload_of encode_set_payload frame_bytes append_le
send-handle_frame_example =
    send-handle_frame single fine (set_key k v) sent blank_engine refl (omega arith)

-- A key that stands in level 1 is deleted, and found again after the next compaction.
abbrev rounds : List Event → List Event
rounds last = flush fine ∷ other ∷ flush fine ∷ other ∷ flush fine ∷ other ∷ flush fine ∷ last

deleted_comes_back :
    (get k (
      run single
        (restart ∷ Runs.set_key fine k v ∷ rounds (delete_key fine k ∷ rounds []))
        blank_engine)).value
    ≡ some v
unfolding step set delete update append_refused applied_set applied_delete replication_of mem_set
    mem_delete mem_get store released put without lookup text_eq less flush_memtable drain_sorted
    write_level0 build latest insert sort maybe_compact compact_level0_to_level1 write_records
    open_engine find_end replay replayed first_hit get sst_get search lower_bound might_contain
    test_loop add_all add add_loop bit_of hash64 hash_bytes xor fresh
deleted_comes_back = refl

-- A scan of one row skips two tombstones of the newest table and shows the row that its third deletes.
deleted_is_scanned :
    (scan_prefix [] 1 (
      run single
        (restart
          ∷ Runs.set_key fine (99 ∷ []) v
          ∷ flush fine
          ∷ delete_key fine (97 ∷ [])
          ∷ delete_key fine (98 ∷ [])
          ∷ delete_key fine (99 ∷ [])
          ∷ flush fine
          ∷ [])
        blank_engine)).value
    ≡ some ((99 ∷ [], v) ∷ [])
unfolding step set delete update append_refused applied_set applied_delete replication_of mem_set
    mem_delete store released put without lookup text_eq less flush_memtable drain_sorted
    write_level0 build latest insert sort maybe_compact open_engine find_end replay replayed
    scan_prefix candidates snapshot_sorted sst_scan_prefix with_prefix lower_bound starts_with
deleted_is_scanned = refl

-- A disk that is full: the file of a flush is begun and not finished.
abbrev full_disk : World
full_disk = record fine {
  build_failed = some (record { status = failure code_io_error []; file_made = true });
}

abbrev after_full_disk : StorageEngine
after_full_disk = run single (restart ∷ Runs.set_key fine k v ∷ flush full_disk ∷ []) blank_engine

-- A flush whose file cannot be written loses what was in memory.
lost_by_flush : (get k after_full_disk).value ≡ none
unfolding step set update append_refused applied_set replication_of mem_set mem_get store released
    put without lookup text_eq less flush_memtable drain_sorted write_level0 build latest insert
    sort open_engine find_end replay replayed get first_hit
lost_by_flush = refl

-- It is not found again at the next start, which fails at the unfinished file.
refused_at_restart : is_ok (restarted single after_full_disk).1 ≡ false
unfolding step set update append_refused applied_set replication_of mem_set mem_get store released
    put without lookup text_eq less flush_memtable drain_sorted write_level0 build latest insert
    sort open_engine find_end replay replayed get first_hit
refused_at_restart = refl
