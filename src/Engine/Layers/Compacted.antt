-- ===== src/Engine/Layers/Compacted.antt =====
-- The file that a compaction of level 0 writes (src/compaction.cpp), and the reads of it.
use vault_vk.Common.{◌≡◌, refl, ap, sym, ◌∙◌, List, [], ◌∷◌, Option, none, some, arith, All}
use vault_vk.Text.{Text}
use vault_vk.Engine.Keys.{Table, lookup, sort, AreDistinct}
use vault_vk.Engine.MemTable.{MemValue}
use vault_vk.Engine.Sstable.{SstableReader, sst_get, latest}
use vault_vk.Engine.Sstable.Reads.{latest-AreDistinct}
use vault_vk.Engine.Compaction.{
  all_records, latest_by_key, live, write_records, compact_level0_to_level1,
}
use vault_vk.Engine.Compaction.Keeps.{
  pick, latest-append, lookup-latest, lookup-live, live-AreDistinct, alive,
}
use vault_vk.Engine.Defs.{first_hit, or_else}
use vault_vk.Engine.Layers.{
  IsWritten, Below, Descends, Descends-first, build-IsWritten, build_of_sorted,
}

pick_newer : (o x y : Option MemValue) → Below (or_else x o) y → pick y x ≡ or_else x y
pick_newer o none y h = refl
pick_newer o (some v) none h = refl
pick_newer o (some v) (some u) h = ground arith

latest_by_key-first_hit :
    (o : Option MemValue) (key : Text) (rs : List SstableReader)
    → All IsWritten rs
    → Descends o key rs
    → lookup key (latest_by_key rs) ≡ first_hit key rs
unfolding first_hit latest lookup
latest_by_key-first_hit o key [] w d = refl
latest_by_key-first_hit o key (r ∷ rs) w d =
    let x = (sst_get key r).value in
    ap (lookup key) (latest-append (all_records rs) r.index [])
    ∙ lookup-latest key r.index (latest_by_key rs) w.0.distinct
    ∙ ap (pick (lookup key (latest_by_key rs))) (sym (w.0.reads key))
    ∙ ap (λ y. pick y x) (latest_by_key-first_hit (or_else x o) key rs w.1 d.1)
    ∙ pick_newer o x (first_hit key rs) (Descends-first (or_else x o) key rs d.1)

write_records-get :
    (t : Table MemValue) (r : SstableReader) (key : Text)
    → AreDistinct t
    → (write_records none t).1 ≡ some r
    → (sst_get key r).value ≡ lookup key t
unfolding write_records
write_records-get [] r key d e = ground arith
write_records-get (x ∷ t) r key d e = build_of_sorted (x ∷ t) r key d e

write_records-IsWritten :
    (t : Table MemValue) (r : SstableReader) → (write_records none t).1 ≡ some r → IsWritten r
unfolding write_records
write_records-IsWritten [] r e = ground arith
write_records-IsWritten (x ∷ t) r e = build-IsWritten (sort (x ∷ t)) r e

pub compact-IsWritten :
    (rs : List SstableReader) (r : SstableReader)
    → (compact_level0_to_level1 none rs).1 ≡ some r
    → IsWritten r
unfolding compact_level0_to_level1
compact-IsWritten [] r e = ground arith
compact-IsWritten (x ∷ xs) r e = write_records-IsWritten (live (latest_by_key (x ∷ xs))) r e

-- The file that a compaction of level 0 writes gives for a key the record that reads of level 0 gave,
-- or none where that is a tombstone.
pub compact-first_hit :
    (o : Option MemValue) (key : Text) (rs : List SstableReader) (r : SstableReader)
    → All IsWritten rs
    → Descends o key rs
    → (compact_level0_to_level1 none rs).1 ≡ some r
    → (sst_get key r).value ≡ alive (first_hit key rs)
unfolding compact_level0_to_level1
compact-first_hit o key [] r w d e = ground arith
compact-first_hit o key (x ∷ xs) r w d e =
    let t = latest_by_key (x ∷ xs) in
    let k = latest-AreDistinct (all_records (x ∷ xs)) [] tt in
    write_records-get (live t) r key (live-AreDistinct t k) e
    ∙ lookup-live key t k
    ∙ ap alive (latest_by_key-first_hit o key (x ∷ xs) w d)
