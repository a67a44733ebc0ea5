-- ===== src/Engine/MemTable.antt =====
-- src/memtable.cpp. The estimate of its size is kept in 64 bits.
pub mod Counts
use vault_vk.Common.{
  ℕ, ◌+◌, ◌-◌, ◌^◌, ◌%◌, Bool, true, false, not, List, [], ◌∷◌, Option, none, some, length, filter,
}
use vault_vk.Text.{Text, codes}
use vault_vk.Engine.Keys.{Table, lookup, put, sort}
use vault_vk.Engine.Status.{
  Status, success, failure, code_invalid_argument, code_not_found, Result, ok_of, err,
}

pub record MemValue : Type 0 where
  pub value : Text
  pub seq : ℕ
  pub tombstone : Bool

pub record MemTable : Type 0 where
  pub table : Table MemValue
  pub approx_bytes : ℕ

abbrev pub empty_memtable : MemTable
empty_memtable = record { table = []; approx_bytes = 0 }

-- The size of a `MemValue` is the compiler's.
module _ (value_size : ℕ) where
  abbrev pub estimate : Text → MemValue → ℕ
  estimate key v = value_size + length key + length v.value

  -- The estimate without the entry that the key has.
  unfoldable pub released : Text → MemTable → ℕ
  unfolding lookup
  released key m = elim (lookup key m.table) [
    | none ↦ m.approx_bytes
    | some old ↦ (m.approx_bytes + 2 ^ 64 - estimate key old % 2 ^ 64) % 2 ^ 64
  ]

  -- What `Set` and `Delete` do with the value that they have made.
  unfoldable pub store : Text → MemValue → MemTable → MemTable
  unfolding released put
  store key mv m = record {
    table = put key mv m.table;
    approx_bytes = (released key m + estimate key mv) % 2 ^ 64;
  }

  unfoldable pub mem_set : Text → Text → ℕ → MemTable → MemTable × Status
  unfolding store
  mem_set [] value seq m = (m, failure code_invalid_argument (codes "key must not be empty"))
  mem_set (c ∷ cs) value seq m =
      (store (c ∷ cs) (record { value = value; seq = seq; tombstone = false }) m, success seq)

  unfoldable pub mem_delete : Text → ℕ → MemTable → MemTable × Status
  unfolding store
  mem_delete [] seq m = (m, failure code_invalid_argument (codes "key must not be empty"))
  mem_delete (c ∷ cs) seq m =
      (store (c ∷ cs) (record { value = []; seq = seq; tombstone = true }) m, success seq)

unfoldable pub mem_get : Text → MemTable → Result MemValue
unfolding lookup
mem_get key m = elim (lookup key m.table) [
  | none ↦ err (failure code_not_found (codes "key not found"))
  | some v ↦ ok_of v v.seq
]

-- `SnapshotSorted` and `DrainSorted` with the tombstones, as `FlushMemTable` and `ScanPrefix` call them.
unfoldable pub snapshot_sorted : MemTable → Table MemValue
unfolding sort
snapshot_sorted m = sort m.table

unfoldable pub drain_sorted : MemTable → Table MemValue × MemTable
unfolding sort
drain_sorted m = (sort m.table, empty_memtable)
