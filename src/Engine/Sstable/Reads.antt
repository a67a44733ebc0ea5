-- ===== src/Engine/Sstable/Reads.antt =====
-- What is read of a table that `Build` has written.
use vault_vk.Common.{
  ℕ, ◌+◌, ◌*◌, ◌/◌, ◌≡◌, refl, ap, subst, ◌∙◌, true, List, [], ◌∷◌, none, some, length, max,
  if◌then◌else◌, arith, Bool-cases, Option-cases, inl, inr, zero, suc,
}
use vault_vk.Text.{Text, text_eq, text_eq_iff}
use vault_vk.Engine.Keys.{
  Table, lookup, put, sort, search, search-sort, search-cons, search-nil, AreDistinct,
  put-AreDistinct,
}
use vault_vk.Engine.MemTable.{MemValue}
use vault_vk.Engine.Sstable.{
  SstableRecord, SstableReader, latest, build, written, sst_get, keep_latest,
}
use vault_vk.Engine.Sstable.Filter.{
  BloomFilter, fresh, zeros, add_all, add, might_contain, HasRoom, add-HasRoom, add-might_contain,
  add_other,
}

length-zeros : (n : ℕ) → length (zeros n) ≡ n
length-zeros zero = refl
length-zeros (suc n) = ap suc (length-zeros n)

fresh-HasRoom : (n h : ℕ) → HasRoom (fresh n h)
unfolding fresh
fresh-HasRoom n h = omega (arith, length-zeros ((n + 7) / 8 * 8))

module _ {ℓ} {V : Type ℓ} where
  add_all_other :
      (key : Text) (t : Table V) (b : BloomFilter)
      → might_contain key b ≡ true
      → might_contain key (add_all t b) ≡ true
  unfolding add_all
  add_all_other key [] b e = e
  add_all_other key (x ∷ t) b e = add_all_other key t (add x.0 b) (add_other x.0 key b e)

  -- The filter lets each key of the table through.
  add_all-might_contain :
      (key : Text) (t : Table V) (b : BloomFilter) {v : V}
      → HasRoom b
      → search key t ≡ some v
      → might_contain key (add_all t b) ≡ true
  unfolding add_all
  add_all-might_contain key [] b h e = ground (arith, search-nil {V = V} key)
  add_all-might_contain key (x ∷ t) b {v} h e = elim (Bool-cases (text_eq x.0 key)) [
    | inl p ↦
        let q = (text_eq_iff x.0 key).0 p in
        add_all_other key t (add x.0 b)
          (subst (λ k. might_contain k (add x.0 b) ≡ true) q (add-might_contain x.0 b h))
    | inr p ↦
        add_all-might_contain key t (add x.0 b) {v = v} (add-HasRoom x.0 b h)
          (ground (arith, search-cons key x t))
  ]

pub latest-AreDistinct :
    (rs : List SstableRecord) (t : Table MemValue) → AreDistinct t → AreDistinct (latest rs t)
unfolding latest
latest-AreDistinct [] t d = d
latest-AreDistinct ((k, v) ∷ rs) t d =
    latest-AreDistinct rs (if keep_latest (lookup k t) v then put k v t else t)
      (ground (arith, put-AreDistinct k v t d))

pub written-get :
    (t : Table MemValue) (key : Text)
    → AreDistinct t
    → (sst_get key (written (sort t))).value ≡ lookup key t
unfolding sst_get
written-get t key d =
    let n = max 64 (length (sort t) * 10) in
    let e = search-sort key t d in
    elim (Option-cases (lookup key t)) [
      | inl o ↦ ground (arith, e)
      | inr (v, o) ↦
          let m =
            add_all-might_contain key (sort t) (fresh n 7) {v = v} (fresh-HasRoom n 7) (e ∙ o) in
          ground (arith, e, m)
    ]

pub build-written :
    (rs : List SstableRecord) (r : SstableReader)
    → (build none rs).value ≡ some r
    → r ≡ written (sort (latest rs []))
unfolding build
build-written [] r e = ground arith
build-written (x ∷ rs) r e = ground arith

-- What the file of these records gives for a key is its latest record.
pub build-get :
    (rs : List SstableRecord) (r : SstableReader) (key : Text)
    → (build none rs).value ≡ some r
    → (sst_get key r).value ≡ lookup key (latest rs [])
build-get rs r key e =
    ap (λ r. (sst_get key r).value) (build-written rs r e)
    ∙ written-get (latest rs []) key (latest-AreDistinct rs [] tt)
