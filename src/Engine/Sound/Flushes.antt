-- ===== src/Engine/Sound/Flushes.antt =====
-- The invariant under `FlushMemTable` and `MaybeCompact` of src/storage_engine.cpp.
use vault_vk.Common.{◌≡◌, sym, subst, [], ◌∷◌, none, some, inl, inr}
use vault_vk.Engine.Keys.{lookup, sort}
use vault_vk.Engine.Sstable.{SstableReader, build}
use vault_vk.Engine.Compaction.{compact_level0_to_level1}
use vault_vk.Engine.Defs.{
  StorageEngine, EngineOptions, World, or_else, maybe_compact, flush_memtable,
}
use vault_vk.Engine.Layers.{Below, Descends, Descends-raise, build-IsWritten, build_of_sorted}
use vault_vk.Engine.Layers.Compacted.{compact-IsWritten}
use vault_vk.Engine.Sound.{Sound, logged, top}
use vault_vk.Engine.Sound.Tables.{
  flags-Sound, flushed_to, emptied, flush_cases, maybe_compact_cases,
}

pub emptied-Sound : (e : StorageEngine) → Sound e → Sound (emptied e)
unfolding lookup
emptied-Sound e s = record {
  log = s.log;
  distinct = tt;
  fits = tt;
  written0 = s.written0;
  written1 = s.written1;
  chain = λ key.
      let h = logged key e in
      let x = lookup key e.memtable.table in
      let (b, d) = s.chain key in
      (tt, Descends-raise h (or_else x h) key e.l0_tables (top h x b) d);
}

pub flushed_to-Sound :
    (e : StorageEngine) (r : SstableReader)
    → Sound e
    → (build none (sort e.memtable.table)).value ≡ some r
    → Sound (flushed_to e r)
unfolding lookup
flushed_to-Sound e r s built = record {
  log = s.log;
  distinct = tt;
  fits = tt;
  written0 = (build-IsWritten (sort e.memtable.table) r built, s.written0);
  written1 = s.written1;
  chain = λ key.
      let h = logged key e in
      (
        tt,
        subst (λ x. Below h x × Descends (or_else x h) key e.l0_tables)
            (sym (build_of_sorted e.memtable.table r key s.distinct built)) (s.chain key),
      );
}

abbrev pub compacted : StorageEngine → SstableReader → StorageEngine
compacted e r = record e { l1_tables = r ∷ e.l1_tables; l0_tables = [] }

compacted-Sound :
    (e : StorageEngine) (r : SstableReader)
    → Sound e
    → (compact_level0_to_level1 none e.l0_tables).1 ≡ some r
    → Sound (compacted e r)
compacted-Sound e r s made = record {
  log = s.log;
  distinct = s.distinct;
  fits = s.fits;
  written0 = tt;
  written1 = (compact-IsWritten e.l0_tables r made, s.written1);
  chain = λ key. ((s.chain key).0, tt);
}

maybe_compact-Sound :
    (o : EngineOptions) (w : World) (e : StorageEngine) → Sound e → Sound (maybe_compact o w e).0
maybe_compact-Sound o w e s = elim (maybe_compact_cases o w e) [
  | inl (b, q) ↦ subst Sound (sym q) (flags-Sound e.is_open b e s)
  | inr (r, made, q) ↦ subst Sound (sym q) (compacted-Sound e r s made)
]

pub flush-Sound :
    (o : EngineOptions) (w : World) (e : StorageEngine) → Sound e → Sound (flush_memtable o w e).0
flush-Sound o w e s = elim (flush_cases o w e s.fits) [
  | inl q ↦ subst Sound (sym q) s
  | inr (inl (b, q, why)) ↦
      subst Sound (sym q) (flags-Sound e.is_open b (emptied e) (emptied-Sound e s))
  | inr (inr (r, built, q)) ↦
      subst Sound (sym q) (maybe_compact-Sound o w (flushed_to e r) (flushed_to-Sound e r s built))
]
