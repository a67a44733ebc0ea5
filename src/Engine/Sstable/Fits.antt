-- ===== src/Engine/Sstable/Fits.antt =====
-- Records whose key and value have lengths that a table on disk can hold.
use vault_vk.Common.{◌≤◌, ◌≡◌, refl, false, List, [], ◌∷◌, length, if◌then◌else◌, arith, All}
use vault_vk.Text.{Text}
use vault_vk.Engine.Keys.{Table, lookup, without, put, insert, sort}
use vault_vk.Engine.MemTable.{MemValue}
use vault_vk.Engine.Sstable.{SstableRecord, latest, keep_latest, oversized}

abbrev pub FitsTable : SstableRecord → Type 0
FitsTable e = (length e.0 ≤ 65535) × (length e.1.value ≤ 4294967295)

abbrev pub AreFitting : List SstableRecord → Type 0
AreFitting t = All FitsTable t

without-AreFitting : (k : Text) (t : Table MemValue) → AreFitting t → AreFitting (without k t)
unfolding without
without-AreFitting k [] h = tt
without-AreFitting k (e ∷ t) h = ground (arith, without-AreFitting k t h.1)

pub put-AreFitting :
    (k : Text) (v : MemValue) (t : Table MemValue)
    → FitsTable (k, v)
    → AreFitting t
    → AreFitting (put k v t)
unfolding put
put-AreFitting k v t f h = (f, without-AreFitting k t h)

insert-AreFitting :
    (e : SstableRecord) (t : Table MemValue) → FitsTable e → AreFitting t → AreFitting (insert e t)
unfolding insert
insert-AreFitting e [] f h = (f, tt)
insert-AreFitting e (x ∷ t) f h = ground (arith, insert-AreFitting e t f h.1)

pub sort-AreFitting : (t : Table MemValue) → AreFitting t → AreFitting (sort t)
unfolding sort
sort-AreFitting [] h = tt
sort-AreFitting (e ∷ t) h = insert-AreFitting e (sort t) h.0 (sort-AreFitting t h.1)

latest-AreFitting :
    (rs : List SstableRecord) (t : Table MemValue)
    → AreFitting rs
    → AreFitting t
    → AreFitting (latest rs t)
unfolding latest
latest-AreFitting [] t h k = k
latest-AreFitting ((key, v) ∷ rs) t h k =
    latest-AreFitting rs (if keep_latest (lookup key t) v then put key v t else t) h.1
      (ground (arith, put-AreFitting key v t h.0 k))

oversized-AreFitting : (t : Table MemValue) → AreFitting t → oversized t ≡ false
oversized-AreFitting [] h = refl
oversized-AreFitting ((k, v) ∷ t) h = ground (arith, oversized-AreFitting t h.1)

-- Nothing that `Build` is given is too large.
pub latest-oversized :
    (rs : List SstableRecord) → AreFitting rs → oversized (sort (latest rs [])) ≡ false
latest-oversized rs h =
    oversized-AreFitting (sort (latest rs []))
      (sort-AreFitting (latest rs []) (latest-AreFitting rs [] h tt))
