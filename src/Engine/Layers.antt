-- ===== src/Engine/Layers.antt =====
-- The layers that a read goes through, from the newest to the oldest.
pub mod Compacted
use vault_vk.Common.{
  ℕ, ◌<◌, ◌≡◌, refl, ap, sym, subst, ◌∙◌, Bool, true, false, List, [], ◌∷◌, Option, none, some,
  if◌then◌else◌, arith, Option-cases, inl, inr, ◌⊎◌, All,
}
use vault_vk.Text.{Text}
use vault_vk.Engine.Keys.{AreDistinct, lookup, sort}
use vault_vk.Engine.MemTable.{MemValue}
use vault_vk.Engine.Status.{Status, Result}
use vault_vk.Engine.Sstable.{SstableRecord, SstableReader, latest, build, written, sst_get}
use vault_vk.Engine.Sstable.Reads.{build-written, written-get, latest-AreDistinct}
use vault_vk.Engine.Compaction.Keeps.{lookup-sort, sort-AreDistinct, lookup-latest_of_distinct}
use vault_vk.Engine.Defs.{first_hit, or_else}

-- A table gives for each key what its index holds.
pub record IsWritten (r : SstableReader) : Type 0 where
  pub distinct : AreDistinct r.index
  pub reads : (key : Text) → (sst_get key r).value ≡ lookup key r.index

pub build-IsWritten :
    (rs : List SstableRecord) (r : SstableReader) → (build none rs).value ≡ some r → IsWritten r
build-IsWritten rs r e =
    let t = latest rs [] in
    let d = latest-AreDistinct rs [] tt in
    subst IsWritten (sym (build-written rs r e)) (record {
      distinct = sort-AreDistinct t d;
      reads = λ key. written-get t key d ∙ sym (lookup-sort key t d);
    })

-- What is written of a table in memory reads as that table.
pub build_of_sorted :
    (t : List SstableRecord) (r : SstableReader) (key : Text)
    → AreDistinct t
    → (build none (sort t)).value ≡ some r
    → (sst_get key r).value ≡ lookup key t
build_of_sorted t r key d e =
    ap (λ r. (sst_get key r).value) (build-written (sort t) r e)
    ∙ written-get (latest (sort t) []) key (latest-AreDistinct (sort t) [] tt)
    ∙ lookup-latest_of_distinct key (sort t) (sort-AreDistinct t d)
    ∙ lookup-sort key t d

-- The second record is older than the first, or the same.
abbrev pub Below : Option MemValue → Option MemValue → Type 0
Below o none = Unit
Below none (some v) = ⊥
Below (some w) (some v) = (v.seq < w.seq) ⊎ (w ≡ v)

abbrev pub Descends : Option MemValue → Text → List SstableReader → Type 0
Descends o key [] = Unit
Descends o key (r ∷ rs) =
    Below o (sst_get key r).value × Descends (or_else (sst_get key r).value o) key rs

pub Below-trans : (a b c : Option MemValue) → Below a b → Below b c → Below a c
Below-trans a b none h k = tt
Below-trans a none (some v) h k = absurd k
Below-trans none (some w) (some v) h k = absurd h
Below-trans (some u) (some w) (some v) h k = elim h [
  | inr e ↦ subst (λ x. Below (some x) (some v)) (sym e) k
  | inl l ↦ elim k [ inl m ↦ inl (omega arith) | inr e ↦ inl (subst (λ x. x.seq < u.seq) e l) ]
]

pub or_else-Below : (x a b : Option MemValue) → Below a b → Below (or_else x a) (or_else x b)
or_else-Below none a b h = h
or_else-Below (some v) a b h = inr refl

pub Descends-raise :
    (a b : Option MemValue) (key : Text) (rs : List SstableReader)
    → Below a b
    → Descends b key rs
    → Descends a key rs
Descends-raise a b key [] h d = tt
Descends-raise a b key (r ∷ rs) h d =
    let x = (sst_get key r).value in
    (
      Below-trans a b x h d.0,
      Descends-raise (or_else x a) (or_else x b) key rs (or_else-Below x a b h) d.1,
    )

either-Below : (o x y : Option MemValue) → Below o x → Below (or_else x o) y → Below o (or_else x y)
either-Below o none y h k = k
either-Below o (some v) y h k = h

pub Descends-first :
    (o : Option MemValue) (key : Text) (rs : List SstableReader)
    → Descends o key rs
    → Below o (first_hit key rs)
unfolding first_hit
Descends-first o key [] d = tt
Descends-first o key (r ∷ rs) d =
    either-Below o (sst_get key r).value (first_hit key rs) d.0
      (Descends-first (or_else (sst_get key r).value o) key rs d.1)
