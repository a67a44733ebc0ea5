-- ===== src/Engine/MemTable/Counts.antt =====
-- The estimate that src/memtable.cpp keeps of its size.
use vault_vk.Common.{
  ℕ, ◌+◌, ◌^◌, ◌%◌, ◌≡◌, refl, ap, [], ◌∷◌, none, some, arith, Option-cases, inl, inr, length,
  Bool-cases,
}
use vault_vk.Text.{Text, text_eq, text_eq_iff}
use vault_vk.Engine.Keys.{Table, lookup, put, without, AreDistinct, put-AreDistinct}
use vault_vk.Engine.MemTable.{MemValue, MemTable, estimate, released, store, mem_set, mem_delete}

module _ (value_size : ℕ) where
  abbrev pub total : Table MemValue → ℕ
  total [] = 0
  total (e ∷ t) = estimate value_size e.0 e.1 + total t

  abbrev held : Text → Table MemValue → ℕ
  held key t = elim (lookup key t) [ none ↦ 0 | some old ↦ estimate value_size key old ]

  -- The keys are distinct, and the estimate is the sum, in 64 bits.
  pub record CountsRight (m : MemTable) : Type 0 where
    pub distinct : AreDistinct m.table
    pub counted : m.approx_bytes ≡ total m.table % 2 ^ 64

  total-without :
      (key : Text) (t : Table MemValue)
      → AreDistinct t
      → total (without key t) + held key t ≡ total t
  unfolding without lookup
  total-without key [] d = refl
  total-without key (e ∷ t) d = elim (Bool-cases (text_eq e.0 key)) [
    | inl p ↦
        let q = (text_eq_iff e.0 key).0 p in
        ground (arith, total-without key t d.1, ap length q, ap (λ s. lookup s t) q)
    | inr p ↦ ground (arith, total-without key t d.1)
  ]

  pub store-CountsRight :
      (key : Text) (mv : MemValue) (m : MemTable)
      → CountsRight m
      → CountsRight (store value_size key mv m)
  unfolding store put released
  store-CountsRight key mv m h = record {
    distinct = put-AreDistinct key mv m.table h.distinct;
    counted = elim (Option-cases (lookup key m.table)) [
      | inl e ↦ ground (arith, total-without key m.table h.distinct)
      | inr (old, e) ↦ ground (arith, total-without key m.table h.distinct)
    ];
  }

  -- From a table whose estimate is the sum of its entries' estimates in 64 bits, each key standing once,
  -- `Set` and `Delete` of any key lead to such a table.
  pub updates-CountsRight :
      (m : MemTable)
      → CountsRight m
      → (key value : Text) (seq : ℕ)
      → CountsRight (mem_set value_size key value seq m).0
        × CountsRight (mem_delete value_size key seq m).0
  unfolding mem_set mem_delete
  updates-CountsRight m h [] value seq = (h, h)
  updates-CountsRight m h (c ∷ cs) value seq =
      (store-CountsRight (c ∷ cs) _ m h, store-CountsRight (c ∷ cs) _ m h)
