-- ===== src/Engine/Compaction/Keeps.antt =====
-- Maps that are filled with the records of tables, filtered and sorted, as src/compaction.cpp does.
use vault_vk.Common.{
  ◌≡◌, refl, ap, sym, ◌∙◌, List, [], ◌∷◌, ◌++◌, Option, none, some, if◌then◌else◌, arith,
  Bool-cases, Option-cases, inl, inr,
}
use vault_vk.Text.{Text, text_eq, text_eq_iff}
use vault_vk.Engine.Keys.{
  Table, lookup, put, lookup-put, sort, insert, AreDistinct, text_eq_left, text_eq_sym,
}
use vault_vk.Engine.MemTable.{MemValue}
use vault_vk.Engine.Sstable.{SstableRecord, latest, keep_latest}
use vault_vk.Engine.Compaction.{live}

-- The record of a key after another one has come.
abbrev pub pick : Option MemValue → Option MemValue → Option MemValue
pick old none = old
pick old (some v) = if keep_latest old v then some v else old

pub latest-append :
    (xs ys : List SstableRecord) (t : Table MemValue)
    → latest (xs ++ ys) t ≡ latest ys (latest xs t)
unfolding latest
latest-append [] ys t = refl
latest-append ((k, v) ∷ xs) ys t =
    latest-append xs ys (if keep_latest (lookup k t) v then put k v t else t)

latest-absent :
    (key : Text) (xs : Table MemValue) (t : Table MemValue)
    → lookup key xs ≡ none
    → lookup key (latest xs t) ≡ lookup key t
unfolding latest lookup
latest-absent key [] t e = refl
latest-absent key ((k, v) ∷ xs) t e =
    let after = if keep_latest (lookup k t) v then put k v t else t in
    latest-absent key xs after (ground arith) ∙ ground (arith, lookup-put k key v t)

abbrev kept : SstableRecord → Table MemValue → Table MemValue
kept (k, v) t = if keep_latest (lookup k t) v then put k v t else t

lookup-kept :
    (key k : Text) (v : MemValue) (t : Table MemValue)
    → lookup key (kept (k, v) t)
      ≡ (if text_eq k key then pick (lookup key t) (some v) else lookup key t)
lookup-kept key k v t = elim (Bool-cases (text_eq k key)) [
  | inl p ↦ ground (arith, lookup-put k key v t, ap (λ s. lookup s t) ((text_eq_iff k key).0 p))
  | inr p ↦ ground (arith, lookup-put k key v t)
]

pub lookup-latest :
    (key : Text) (xs t : Table MemValue)
    → AreDistinct xs
    → lookup key (latest xs t) ≡ pick (lookup key t) (lookup key xs)
unfolding latest lookup
lookup-latest key [] t d = refl
lookup-latest key ((k, v) ∷ xs) t d = elim (Bool-cases (text_eq k key)) [
  | inl p ↦
      let absent = ap (λ s. lookup s xs) (sym ((text_eq_iff k key).0 p)) ∙ d.0 in
      latest-absent key xs (kept (k, v) t) absent ∙ ground (arith, lookup-kept key k v t)
  | inr p ↦
      lookup-latest key xs (kept (k, v) t) d.1
      ∙ ground (arith, ap (λ o. pick o (lookup key xs)) (lookup-kept key k v t))
]

-- A tombstone stands for no record.
abbrev pub alive : Option MemValue → Option MemValue
alive none = none
alive (some v) = if v.tombstone then none else some v

pub lookup-live :
    (key : Text) (t : Table MemValue) → AreDistinct t → lookup key (live t) ≡ alive (lookup key t)
unfolding lookup
lookup-live key [] d = refl
lookup-live key ((k, v) ∷ t) d = elim (Bool-cases (text_eq k key)) [
  | inl p ↦
      let absent = ap (λ s. lookup s t) (sym ((text_eq_iff k key).0 p)) ∙ d.0 in
      ground (arith, lookup-live key t d.1, absent)
  | inr p ↦ ground (arith, lookup-live key t d.1)
]

pub live-AreDistinct : (t : Table MemValue) → AreDistinct t → AreDistinct (live t)
live-AreDistinct [] d = tt
live-AreDistinct (e ∷ t) d = ground (arith, live-AreDistinct t d.1, lookup-live e.0 t d.1)

module _ {ℓ} {V : Type ℓ} where
  lookup-insert :
      (e : Text × V) (k : Text) (t : Table V)
      → lookup e.0 t ≡ none
      → lookup k (insert e t) ≡ (if text_eq e.0 k then some e.1 else lookup k t)
  unfolding lookup insert
  lookup-insert e k [] h = refl
  lookup-insert e k (x ∷ t) h =
      ground
        (arith, lookup-insert e k t, text_eq_left e.0 k x.0, text_eq_sym x.0 k, text_eq_sym x.0 e.0)

  insert-AreDistinct :
      (e : Text × V) (t : Table V) → lookup e.0 t ≡ none → AreDistinct t → AreDistinct (insert e t)
  unfolding insert lookup
  insert-AreDistinct e [] h d = (refl, tt)
  insert-AreDistinct e (x ∷ t) h d =
      ground (arith, insert-AreDistinct e t, lookup-insert e x.0 t, text_eq_sym x.0 e.0)

  pub lookup-sort : (k : Text) (t : Table V) → AreDistinct t → lookup k (sort t) ≡ lookup k t
  unfolding sort lookup
  lookup-sort k [] d = refl
  lookup-sort k (e ∷ t) d =
      lookup-insert e k (sort t) (lookup-sort e.0 t d.1 ∙ d.0)
      ∙ ap (λ o. if text_eq e.0 k then some e.1 else o) (lookup-sort k t d.1)

  pub sort-AreDistinct : (t : Table V) → AreDistinct t → AreDistinct (sort t)
  unfolding sort
  sort-AreDistinct [] d = tt
  sort-AreDistinct (e ∷ t) d =
      insert-AreDistinct e (sort t) (lookup-sort e.0 t d.1 ∙ d.0) (sort-AreDistinct t d.1)

pub lookup-latest_of_distinct :
    (key : Text) (t : Table MemValue) → AreDistinct t → lookup key (latest t []) ≡ lookup key t
unfolding lookup
lookup-latest_of_distinct key t d =
    lookup-latest key t [] d
    ∙ elim (Option-cases (lookup key t)) [ inl e ↦ ground arith | inr (v, e) ↦ ground arith ]
