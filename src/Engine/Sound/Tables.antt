-- ===== src/Engine/Sound/Tables.antt =====
-- The invariant under changes of the tables: in memory, from memory to level 0, and from there to level 1.
use vault_vk.Common.{
  ◌≡◌, ◌≢◌, refl, ap, sym, subst, Bool, ◌||◌, true, false, not, List, [], ◌∷◌, Option, none, some,
  if◌then◌else◌, arith, ltb, length, Option-cases, Bool-cases, inl, inr, ◌⊎◌,
}
use vault_vk.Text.{Text, codes}
use vault_vk.Engine.Status.{is_ok, failure, code_io_error}
use vault_vk.Engine.Keys.{AreDistinct, lookup, sort}
use vault_vk.Engine.MemTable.{MemTable, empty_memtable, drain_sorted}
use vault_vk.Engine.Sstable.{SstableRecord, SstableReader, Failure, build, leaves_partial}
use vault_vk.Engine.Sstable.Fits.{AreFitting, latest-oversized, sort-AreFitting}
use vault_vk.Engine.Compaction.{
  compact_level0_to_level1, compact_leaves_partial, write_records, live, latest_by_key,
}
use vault_vk.Engine.Defs.{
  StorageEngine, EngineOptions, World, maybe_compact, write_level0, flush_memtable,
}
use vault_vk.Engine.Sound.{Sound, logged, Chain, Chain-renew}

pub stored-Sound :
    (e : StorageEngine) (m : MemTable)
    → Sound e
    → AreDistinct m.table
    → AreFitting m.table
    → ((key : Text)
        → (lookup key m.table ≡ lookup key e.memtable.table) ⊎ (lookup key m.table ≡ logged key e))
    → Sound (record e { memtable = m })
stored-Sound e m s d g f = record {
  log = s.log;
  distinct = d;
  fits = g;
  written0 = s.written0;
  written1 = s.written1;
  chain = λ key.
      let h = logged key e in
      elim (f key) [
        | inl q ↦ subst (λ x. Chain h x key e.l0_tables) (sym q) (s.chain key)
        | inr q ↦
            subst (λ x. Chain h x key e.l0_tables) (sym q)
              (Chain-renew h (lookup key e.memtable.table) key e.l0_tables (s.chain key))
      ];
}

build_went :
    (f : Option Failure) (rs : List SstableRecord) (r : SstableReader)
    → (build f rs).value ≡ some r
    → (build none rs).value ≡ some r
unfolding build
build_went none rs r e = e
build_went (some st) [] r e = e
build_went (some st) (x ∷ rs) r e = ground arith

write_went :
    (f : Option Failure) (t : List SstableRecord) (r : SstableReader)
    → (write_records f t).1 ≡ some r
    → (write_records none t).1 ≡ some r
unfolding write_records
write_went f [] r e = e
write_went f (x ∷ t) r e = build_went f (sort (x ∷ t)) r e

pub compact_went :
    (f : Option Failure) (rs : List SstableReader) (r : SstableReader)
    → (compact_level0_to_level1 f rs).1 ≡ some r
    → (compact_level0_to_level1 none rs).1 ≡ some r
unfolding compact_level0_to_level1
compact_went f [] r e = e
compact_went f (x ∷ rs) r e = write_went f (live (latest_by_key (x ∷ rs))) r e

abbrev pub with_partial : Bool → StorageEngine → StorageEngine
with_partial b e = record e { partial_file = b }

-- Whether an engine is open and what is unfinished on disk does not matter to what it holds.
pub flags-Sound :
    (up partial : Bool) (e : StorageEngine)
    → Sound e
    → Sound (record e { is_open = up; partial_file = partial })
flags-Sound up partial e s = record {
  log = s.log;
  distinct = s.distinct;
  fits = s.fits;
  written0 = s.written0;
  written1 = s.written1;
  chain = s.chain;
}

-- Compaction leaves the engine as it is, but perhaps with an unfinished file on disk, or moves level 0
-- into a file of level 1.
pub maybe_compact_cases :
    (o : EngineOptions) (w : World) (e : StorageEngine)
    → ((b : Bool) × ((maybe_compact o w e).0 ≡ with_partial b e))
      ⊎ (r : SstableReader) × ((compact_level0_to_level1 none e.l0_tables).1 ≡ some r)
        × ((maybe_compact o w e).0 ≡ record e { l1_tables = r ∷ e.l1_tables; l0_tables = [] })
unfolding maybe_compact
maybe_compact_cases o w e =
    let (status, file) = compact_level0_to_level1 w.compact_failed e.l0_tables in
    elim (Bool-cases (ltb (length e.l0_tables) 4)) [
      | inl p ↦ inl (e.partial_file, rw (p, if◌then◌else◌) refl)
      | inr p ↦ elim (Bool-cases (is_ok status)) [
        | inr q ↦ inl (
          e.partial_file || compact_leaves_partial w.compact_failed e.l0_tables,
          rw (p, q, if◌then◌else◌, not) refl,
        )
        | inl q ↦ elim (Option-cases file) [
          | inl n ↦ inl (e.partial_file, rw (p, q, n, if◌then◌else◌, not) refl)
          | inr (r, n) ↦ inr (
            r,
            compact_went w.compact_failed e.l0_tables r n,
            rw (p, q, n, if◌then◌else◌, not) refl,
          )
        ]
      ]
    ]

abbrev pub flushed_to : StorageEngine → SstableReader → StorageEngine
flushed_to e r = record e { memtable = empty_memtable; l0_tables = r ∷ e.l0_tables }

abbrev pub emptied : StorageEngine → StorageEngine
emptied e = record e { memtable = empty_memtable }

build_failing :
    (f : Option Failure) (r : SstableRecord) (rs : List SstableRecord)
    → AreFitting (r ∷ rs)
    → (build f (r ∷ rs)).value ≡ none
    → f ≢ none
unfolding build
build_failing none r rs h e q = ground (arith, latest-oversized (r ∷ rs) h)
build_failing (some st) r rs h e q = ground arith

-- A flush leaves the engine as it is, or drains the table in memory into a file of level 0, which may
-- be compacted, or loses it when the file cannot be made, which may stay unfinished.
abbrev pub Flushed :
    EngineOptions → World → StorageEngine → List SstableRecord → StorageEngine → Type 0
Flushed o w e records after =
    ((b : Bool) × (after ≡ with_partial b (emptied e)) × ((records ≡ []) ⊎ (w.build_failed ≢ none)))
    ⊎ (r : SstableReader) × ((build none records).value ≡ some r)
      × (after ≡ (maybe_compact o w (flushed_to e r)).0)

write_level0-Flushed :
    (o : EngineOptions) (w : World) (e : StorageEngine) (records : List SstableRecord)
    → AreFitting records
    → Flushed o w e records (write_level0 o w records (emptied e)).0
unfolding write_level0
write_level0-Flushed o w e [] h = inl (e.partial_file, refl, inl refl)
write_level0-Flushed o w e (r ∷ rs) h = elim (Option-cases (build w.build_failed (r ∷ rs)).value) [
  | inl n ↦ inl (
    e.partial_file || leaves_partial w.build_failed (r ∷ rs),
    rw (write_level0, n) refl,
    inr (build_failing w.build_failed r rs h n),
  )
  | inr (reader, n) ↦
      inr (reader, build_went w.build_failed (r ∷ rs) reader n, rw (write_level0, n) refl)
]

flush_open :
    (o : EngineOptions) (w : World) (e : StorageEngine)
    → e.is_open ≡ true
    → flush_memtable o w e ≡ write_level0 o w (sort e.memtable.table) (emptied e)
unfolding flush_memtable drain_sorted
flush_open o w e p =
    ap
      (λ b.
        if not b
        then (e, failure code_io_error (codes "engine not open"))
        else write_level0 o w (sort e.memtable.table) (emptied e))
      p

pub flush_closed :
    (o : EngineOptions) (w : World) (e : StorageEngine)
    → e.is_open ≡ false
    → (flush_memtable o w e).0 ≡ e
unfolding flush_memtable drain_sorted
flush_closed o w e p =
    ap
      (λ b.
        (if not b
          then (e, failure code_io_error (codes "engine not open"))
          else write_level0 o w (sort e.memtable.table) (emptied e)).0)
      p

pub flush_cases :
    (o : EngineOptions) (w : World) (e : StorageEngine)
    → AreFitting e.memtable.table
    → ((flush_memtable o w e).0 ≡ e)
      ⊎ Flushed o w e (sort e.memtable.table) (flush_memtable o w e).0
flush_cases o w e f = elim (Bool-cases e.is_open) [
  | inr p ↦ inl (flush_closed o w e p)
  | inl p ↦ inr (
      subst (Flushed o w e (sort e.memtable.table)) (ap (λ x. x.0) (sym (flush_open o w e p)))
        (write_level0-Flushed o w e (sort e.memtable.table) (sort-AreFitting e.memtable.table f)))
]
