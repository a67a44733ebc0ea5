-- ===== src/Engine/Serving.antt =====
-- `ScanPrefix` and `HandleFrame` of src/storage_engine.cpp.
pub mod Commands
pub mod Rows
use vault_vk.Common.{
  ℕ, Bool, true, false, not, List, [], ◌∷◌, ◌++◌, Option, none, some, filter, take, map, ◌==◌, ◌*◌,
  if◌then◌else◌,
}
use vault_vk.Text.{Text, codes, starts_with}
use vault_vk.Wire.Bytes.{Bytes, Read, ok, refused, beyond}
use vault_vk.Wire.Frames.{Frame}
use vault_vk.Wire.Commands.{Command, decode_command}
use vault_vk.Wire.Replies.{Entries, encode_ack, encode_error, encode_value, encode_scan_result}
use vault_vk.Engine.Keys.{sort}
use vault_vk.Engine.Status.{Status, is_ok, failure, code_io_error, Result, ok_of, err}
use vault_vk.Engine.MemTable.{snapshot_sorted}
use vault_vk.Engine.Sstable.{SstableRecord, SstableReader, latest, sst_scan_prefix}
use vault_vk.Engine.Compaction.{live}
use vault_vk.Engine.Defs.{
  StorageEngine, EngineOptions, World, set, delete, get, status_to_error_code,
}

abbrev pub scanned : Text → ℕ → List SstableReader → List SstableRecord
scanned prefix limit [] = []
scanned prefix limit (r ∷ rs) = sst_scan_prefix prefix limit r ++ scanned prefix limit rs

-- The records that are merged, in their order: of each table the first `limit * 2` with the prefix.
unfoldable pub candidates : Text → ℕ → StorageEngine → List SstableRecord
unfolding snapshot_sorted sst_scan_prefix starts_with
candidates prefix limit e =
    filter (λ r. starts_with prefix r.0) (snapshot_sorted e.memtable)
    ++ (scanned prefix (limit * 2) e.l0_tables ++ scanned prefix (limit * 2) e.l1_tables)

unfoldable pub scan_prefix : Text → ℕ → StorageEngine → Result Entries
unfolding candidates latest sort
scan_prefix prefix limit e =
    if not e.is_open
    then err (failure code_io_error (codes "engine not open"))
    else let count = if limit == 0 then 100 else limit in
      let merged = sort (latest (candidates prefix count e) []) in
      ok_of (map (λ r. (r.0, r.1.value)) (take count (live merged))) 0

-- The reply to an update, and to a read.
abbrev pub reply_to : StorageEngine × Status → StorageEngine × Bytes
reply_to (e, st) = (
  e,
  if is_ok st
      then encode_ack st.seq (codes "OK")
      else encode_error (status_to_error_code st) st.message,
)

abbrev pub reply_with : {A : Type 0} → (A → Bytes) → Result A → Bytes
reply_with encode r = elim r.value [
  | none ↦ encode_error (status_to_error_code r.status) r.status.message
  | some a ↦ encode a
]

unfoldable pub perform : EngineOptions → World → Command → StorageEngine → StorageEngine × Bytes
unfolding set delete get scan_prefix
perform o w cmd e =
    if cmd.type == 1
    then (e, encode_ack e.wal.last_seq (codes "PONG"))
    else if cmd.type == 2
    then reply_to (set o w cmd.key cmd.value e)
    else if cmd.type == 3
    then (e, reply_with encode_value (get cmd.key e))
    else if cmd.type == 4
    then reply_to (delete o w cmd.key e)
    else if cmd.type == 5
    then (e, reply_with encode_scan_result (scan_prefix cmd.prefix cmd.limit e))
    else (e, encode_error 501 (codes "unsupported opcode"))

-- A read past the end of the payload, which C++ leaves undefined, has no reply here.
abbrev pub performed : EngineOptions → World → StorageEngine → Read Command → StorageEngine × Bytes
performed o w e (ok cmd) = perform o w cmd e
performed o w e (refused parse_err) = (e, encode_error 400 parse_err)
performed o w e beyond = (e, [])

unfoldable pub handle_frame : EngineOptions → World → Frame → StorageEngine → StorageEngine × Bytes
handle_frame o w frame e = performed o w e (decode_command frame)
