-- ===== src/Engine/Serving/Rows.antt =====
-- The rows of a scan.
use vault_vk.Common.{
  ℕ, ◌≤◌, ◌≡◌, sym, subst, true, List, [], ◌∷◌, ◌++◌, some, filter, take, map, length, length-map,
  length-take-le, All, All-append, All-take, ◌==◌, ◌*◌, if◌then◌else◌, arith,
}
use vault_vk.Text.{Text, starts_with}
use vault_vk.Wire.Replies.{Entries}
use vault_vk.Engine.Keys.{Table, lookup, put, without, sort, insert, lower_bound}
use vault_vk.Engine.MemTable.{MemValue, snapshot_sorted}
use vault_vk.Engine.Sstable.{
  SstableRecord, SstableReader, latest, keep_latest, with_prefix, sst_scan_prefix,
}
use vault_vk.Engine.Compaction.{live}
use vault_vk.Engine.Defs.{StorageEngine}
use vault_vk.Engine.Serving.{scanned, candidates, scan_prefix}

module _ (prefix : Text) where
  abbrev Starts : SstableRecord → Type 0
  Starts r = starts_with prefix r.0 ≡ true

  filter-Starts : (t : List SstableRecord) → All Starts (filter (λ r. starts_with prefix r.0) t)
  filter-Starts [] = tt
  filter-Starts (r ∷ t) = ground (arith, filter-Starts t)

  with_prefix-Starts : (t : Table MemValue) → All Starts (with_prefix prefix t)
  unfolding with_prefix
  with_prefix-Starts [] = tt
  with_prefix-Starts (r ∷ t) = ground (arith, with_prefix-Starts t)

  scanned-Starts : (n : ℕ) (rs : List SstableReader) → All Starts (scanned prefix n rs)
  unfolding sst_scan_prefix
  scanned-Starts n [] = tt
  scanned-Starts n (r ∷ rs) =
      let rows = with_prefix prefix (lower_bound prefix r.index) in
      All-append Starts (take n rows) (scanned prefix n rs)
        (All-take Starts n rows (with_prefix-Starts (lower_bound prefix r.index)))
        (scanned-Starts n rs)

  candidates-Starts : (n : ℕ) (e : StorageEngine) → All Starts (candidates prefix n e)
  unfolding candidates
  candidates-Starts n e =
      let mem = snapshot_sorted e.memtable in
      let l0 = scanned prefix (n * 2) e.l0_tables in
      let l1 = scanned prefix (n * 2) e.l1_tables in
      All-append Starts (filter (λ r. starts_with prefix r.0) mem) (l0 ++ l1) (filter-Starts mem) (
        All-append Starts l0 l1 (scanned-Starts (n * 2) e.l0_tables)
          (scanned-Starts (n * 2) e.l1_tables))

  without-Starts : (k : Text) (t : Table MemValue) → All Starts t → All Starts (without k t)
  unfolding without
  without-Starts k [] h = tt
  without-Starts k (r ∷ t) h = ground (arith, without-Starts k t h.1)

  put-Starts :
      (k : Text) (v : MemValue) (t : Table MemValue)
      → starts_with prefix k ≡ true
      → All Starts t
      → All Starts (put k v t)
  unfolding put
  put-Starts k v t p h = (p, without-Starts k t h)

  latest-Starts :
      (rs : List SstableRecord) (t : Table MemValue)
      → All Starts rs
      → All Starts t
      → All Starts (latest rs t)
  unfolding latest
  latest-Starts [] t h g = g
  latest-Starts ((k, v) ∷ rs) t h g =
      latest-Starts rs (if keep_latest (lookup k t) v then put k v t else t) h.1
        (ground (arith, put-Starts k v t h.0 g))

  insert-Starts :
      (r : SstableRecord) (t : Table MemValue) → Starts r → All Starts t → All Starts (insert r t)
  unfolding insert
  insert-Starts r [] p h = (p, tt)
  insert-Starts r (x ∷ t) p h = ground (arith, insert-Starts r t p h.1)

  sort-Starts : (t : Table MemValue) → All Starts t → All Starts (sort t)
  unfolding sort
  sort-Starts [] h = tt
  sort-Starts (r ∷ t) h = insert-Starts r (sort t) h.0 (sort-Starts t h.1)

  live-Starts : (t : Table MemValue) → All Starts t → All Starts (live t)
  live-Starts [] h = tt
  live-Starts (r ∷ t) h = ground (arith, live-Starts t h.1)

  rows-Starts :
      (t : List SstableRecord)
      → All Starts t
      → All
          (λ (row : Text × Text). starts_with prefix row.0 ≡ true)
          (map (λ (r : SstableRecord). (r.0, r.1.value)) t)
  rows-Starts [] h = tt
  rows-Starts (r ∷ t) h = (h.0, rows-Starts t h.1)

  abbrev pub row_count : ℕ → ℕ
  row_count limit = if limit == 0 then 100 else limit

  -- A scan of an engine that is open, whatever its tables hold, gives at most as many rows as its limit
  -- says, or 100 when that is zero, and the key of each row starts with the prefix.
  pub scan_prefix-rows :
      (limit : ℕ) (e : StorageEngine) (rows : Entries)
      → (scan_prefix prefix limit e).value ≡ some rows
      → (length rows ≤ row_count limit)
        × All (λ (row : Text × Text). starts_with prefix row.0 ≡ true) rows
  unfolding scan_prefix
  scan_prefix-rows limit e rows got =
      let merged = live (sort (latest (candidates prefix (row_count limit) e) [])) in
      let taken = take (row_count limit) merged in
      let out : Entries = map (λ (r : SstableRecord). (r.0, r.1.value)) taken in
      let starts =
        live-Starts _
          (sort-Starts _ (latest-Starts _ [] (candidates-Starts (row_count limit) e) tt)) in
      let q : out ≡ rows = ground (arith, got) in
      subst
        (λ rows.
          (length rows ≤ row_count limit)
          × All (λ (row : Text × Text). starts_with prefix row.0 ≡ true) rows)
        q
        (
          subst (λ n. n ≤ row_count limit)
              (sym (length-map (λ (r : SstableRecord). (r.0, r.1.value)) taken))
              (length-take-le (row_count limit) merged),
          rows-Starts taken (All-take Starts (row_count limit) merged starts),
        )
