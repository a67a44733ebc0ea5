-- ===== src/Engine/Log.antt =====
-- src/wal.cpp: the log as the records that its bytes hold, up to its end. The layout of a record, its
-- encryption and its check sum are not modelled.
pub mod History
use vault_vk.Common.{
  ℕ, suc, ◌+◌, Bool, true, false, not, List, [], ◌∷◌, ◌++◌, length, ltb, if◌then◌else◌, Option,
  none, some, ◌⊎◌, inl, inr, zero,
}
use vault_vk.Text.{Text, codes}
use vault_vk.Engine.Status.{
  Status, is_ok, success, failure, code_invalid_argument, code_io_error, code_crypto_error,
}
use vault_vk.Engine.MemTable.{MemTable, mem_set, mem_delete}

-- Checkpoints have no effect, and no code writes one.
pub data WalOp : Type 0 where
  kind_set kind_delete kind_checkpoint_begin kind_checkpoint_end : WalOp

pub record WalRecord : Type 0 where
  pub op : WalOp
  pub seq : ℕ
  pub timestamp_ns : ℕ
  pub key : Text
  pub value : Text

pub record Wal : Type 0 where
  pub records : List WalRecord
  pub write_offset : ℕ
  pub last_seq : ℕ

-- The header, and a ciphertext that is as long as the key with the value (src/crypto.cpp).
abbrev pub encoded_size : WalRecord → ℕ
encoded_size rec = 59 + (length rec.key + length rec.value)

abbrev pub next_record : (now : ℕ) (op : WalOp) (key value : Text) → Wal → WalRecord
next_record now op key value w = record {
  op = op;
  seq = suc w.last_seq;
  timestamp_ns = now;
  key = key;
  value = value;
}

-- `Append` to a log that is open: why a record is not appended, and the log behind it otherwise.
unfoldable pub append_refused : (capacity : ℕ) (encrypts : Bool) → WalRecord → Wal → Option Status
append_refused capacity encrypts rec w =
    if ltb 65535 (length rec.key)
    then some (failure code_invalid_argument (codes "key too large"))
    else if ltb 4294967295 (length rec.value)
    then some (failure code_invalid_argument (codes "value too large"))
    else if not encrypts
    then some (failure code_crypto_error (codes "wal encrypt failed"))
    else if ltb capacity (w.write_offset + encoded_size rec)
    then some (failure code_io_error (codes "wal segment full (rotation not yet implemented)"))
    else none

abbrev pub pushed : WalRecord → Wal → Wal
pushed rec w = record {
  records = w.records ++ rec ∷ [];
  write_offset = w.write_offset + encoded_size rec;
  last_seq = rec.seq;
}

-- `FindEndAndLastSeq`
unfoldable pub find_end : List WalRecord → (offset last : ℕ) → ℕ × ℕ
find_end [] offset last = (offset, last)
find_end (rec ∷ recs) offset last = find_end recs (offset + encoded_size rec) rec.seq

-- What `ReplayWal` does with one record.
unfoldable pub replayed :
    (value_size : ℕ) → WalOp → (key value : Text) (seq : ℕ) → MemTable → MemTable × Status
unfolding mem_set mem_delete
replayed value_size kind_set key value seq m = mem_set value_size key value seq m
replayed value_size kind_delete key value seq m = mem_delete value_size key seq m
replayed value_size kind_checkpoint_begin key value seq m = (m, success 0)
replayed value_size kind_checkpoint_end key value seq m = (m, success 0)

-- `Replay`, which a record that is refused ends.
unfoldable pub replay : (value_size : ℕ) → List WalRecord → MemTable → MemTable × Status
unfolding replayed
replay value_size [] m = (m, success 0)
replay value_size (rec ∷ recs) m =
    let (after, status) = replayed value_size rec.op rec.key rec.value rec.seq m in
    let rest = replay value_size recs after in if is_ok status then rest else (after, status)
