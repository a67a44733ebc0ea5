-- ===== src/Engine/Sstable.antt =====
-- src/sstable.cpp: a table on disk as its index with the records behind it, and its Bloom filter. The
-- layout of the file and its encryption are not modelled.
pub mod Filter
pub mod Reads
pub mod Fits
use vault_vk.Common.{
  ℕ, ◌+◌, ◌*◌, Bool, true, false, ◌&&◌, ◌||◌, List, [], ◌∷◌, Option, none, some, length, max, ltb,
  if◌then◌else◌, take,
}
use vault_vk.Text.{Text, codes, starts_with}
use vault_vk.Engine.Keys.{Table, lookup, put, sort, lower_bound, search}
use vault_vk.Engine.Status.{
  Status, failure, code_invalid_argument, code_not_found, Result, ok_of, err,
}
use vault_vk.Engine.MemTable.{MemValue}
use vault_vk.Engine.Sstable.Filter.{BloomFilter, fresh, add_all, might_contain}

-- `SstableRecord`: a key and the fields of a `MemValue`.
abbrev pub SstableRecord : Type 0
SstableRecord = Text × MemValue

-- The loop that keeps the latest record of each key: a record with the same number does not replace.
abbrev pub keep_latest : Option MemValue → MemValue → Bool
keep_latest none v = true
keep_latest (some old) v = ltb old.seq v.seq

unfoldable pub latest : List SstableRecord → Table MemValue → Table MemValue
unfolding lookup put
latest [] t = t
latest ((k, v) ∷ rs) t = latest rs (if keep_latest (lookup k t) v then put k v t else t)

-- What `Open` reads of a table that `Build` has written.
pub record SstableReader : Type 0 where
  pub index : Table MemValue
  pub bloom : BloomFilter

abbrev pub oversized : Table MemValue → Bool
oversized [] = false
oversized ((k, v) ∷ t) = ltb 65535 (length k) || ltb 4294967295 (length v.value) || oversized t

abbrev pub written : Table MemValue → SstableReader
written sorted = record {
  index = sorted;
  bloom = add_all sorted (fresh (max 64 (length sorted * 10)) 7);
}

-- A failure of `Build`, and whether the file had been made before it.
pub record Failure : Type 0 where
  pub status : Status
  pub file_made : Bool

-- Whether `Build` comes to the records that it writes.
abbrev pub makes_file : Option Failure → Bool
makes_file none = true
makes_file (some f) = f.file_made

-- Whether `Build` ends in an error with a file on disk that it has not finished.
abbrev pub leaves_partial : Option Failure → List SstableRecord → Bool
leaves_partial failed [] = false
leaves_partial none (r ∷ rs) = oversized (sort (latest (r ∷ rs) []))
leaves_partial (some f) (r ∷ rs) = f.file_made

-- `Build`, and `Open` on a file that is finished; the failure of `Build` is an argument.
unfoldable pub build : Option Failure → List SstableRecord → Result SstableReader
unfolding sort latest add_all
build failed [] = err (failure code_invalid_argument (codes "cannot build empty sstable"))
build failed (r ∷ rs) =
    let sorted = sort (latest (r ∷ rs) []) in
    if oversized sorted && makes_file failed
    then err (failure code_invalid_argument (codes "key too large for sstable"))
    else elim failed [ some f ↦ err f.status | none ↦ ok_of (written sorted) 0 ]

unfoldable pub sst_get : Text → SstableReader → Result MemValue
unfolding might_contain search
sst_get key r =
    if might_contain key r.bloom
    then elim (search key r.index) [
      | none ↦ err (failure code_not_found (codes "key not found"))
      | some v ↦ ok_of v v.seq
    ]
    else err (failure code_not_found (codes "bloom miss"))

-- The loop of `ScanPrefix`, behind `lower_bound`.
unfoldable pub with_prefix : Text → Table MemValue → Table MemValue
unfolding starts_with
with_prefix prefix [] = []
with_prefix prefix (e ∷ t) = if starts_with prefix e.0 then e ∷ with_prefix prefix t else []

unfoldable pub sst_scan_prefix : Text → ℕ → SstableReader → List SstableRecord
unfolding lower_bound with_prefix
sst_scan_prefix prefix limit r = take limit (with_prefix prefix (lower_bound prefix r.index))
