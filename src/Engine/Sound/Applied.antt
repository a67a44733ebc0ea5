-- ===== src/Engine/Sound/Applied.antt =====
-- What `Set` and `Delete` of src/storage_engine.cpp do behind the append.
use vault_vk.Common.{
  suc, ◌≡◌, refl, ap, sym, subst, ◌∙◌, true, false, not, [], none, some, inl, inr, ◌⊎◌,
  if◌then◌else◌, Bool-cases, ltb,
}
use vault_vk.Text.{Text, text_eq}
use vault_vk.Engine.Status.{Status, is_ok, success}
use vault_vk.Engine.Keys.{lookup}
use vault_vk.Engine.MemTable.{MemValue, MemTable, mem_set, mem_delete}
use vault_vk.Engine.Log.{kind_set, kind_delete, WalRecord, next_record}
use vault_vk.Engine.Log.History.{
  history-append, mem_set-Applied, mem_delete-Applied, Applied, IsNamed,
}
use vault_vk.Engine.Defs.{
  StorageEngine, EngineOptions, World, replication_of, applied_set, applied_delete, set, delete,
  flush_memtable,
}
use vault_vk.Engine.Sound.{Sound, logged, IsNext, pushed-Sound, recorded_is}
use vault_vk.Engine.Sound.Tables.{stored-Sound}
use vault_vk.Engine.Sound.Flushes.{flush-Sound}
use vault_vk.Engine.Sound.Updates.{with_log, with_memtable, update_cases}

module _ (o : EngineOptions) (w : World) where
  abbrev pub set_in : WalRecord → StorageEngine → MemTable × Status
  set_in rec e = mem_set o.mem_value_size rec.key rec.value rec.seq e.memtable

  abbrev pub deleted_in : WalRecord → StorageEngine → MemTable × Status
  deleted_in rec e = mem_delete o.mem_value_size rec.key rec.seq e.memtable

  -- Refused by the replication, or stored, and perhaps flushed.
  abbrev pub Stored : MemTable → StorageEngine → StorageEngine × Status → Type 0
  Stored m e after =
      ((after.0 ≡ e) × (is_ok after.1 ≡ false))
      ⊎ ((after.0 ≡ with_memtable m e) ⊎ (after.0 ≡ (flush_memtable o w (with_memtable m e)).0))

  pub applied_set_cases :
      (rec : WalRecord) (e : StorageEngine)
      → is_ok (set_in rec e).1 ≡ true
      → Stored (set_in rec e).0 e (applied_set o w rec e)
  unfolding applied_set
  applied_set_cases rec e went =
      let m = (set_in rec e).0 in
      let status = (set_in rec e).1 in
      let after = with_memtable m e in
      let flush = flush_memtable o w after in
      let refused : StorageEngine × Status = (e, replication_of o w rec) in
      let plain : StorageEngine × Status = (after, success rec.seq) in
      let flushed : StorageEngine × Status =
        (flush.0, if is_ok flush.1 then success rec.seq else flush.1) in
      let fits = ltb m.approx_bytes o.memtable_budget_bytes in
      let stored = if fits then plain else flushed in
      let tested : StorageEngine × Status =
        if not (is_ok status) then (after, status) else stored in
      let t : tested ≡ stored = ap (λ b. if not b then (after, status) else stored) went in
      elim (Bool-cases (is_ok (replication_of o w rec))) [
        | inr p ↦ inl (
          ap (λ b. (if not b then refused else tested).0) p,
          ap (λ b. is_ok (if not b then refused else tested).1) p ∙ p,
        )
        | inl p ↦
            let q = ap (λ b. if not b then refused else tested) p ∙ t in
            elim (Bool-cases fits) [
              | inl f ↦ inr (inl (ap (λ x. x.0) (q ∙ ap (λ b. if b then plain else flushed) f)))
              | inr f ↦ inr (inr (ap (λ x. x.0) (q ∙ ap (λ b. if b then plain else flushed) f)))
            ]
      ]

  pub applied_delete_cases :
      (rec : WalRecord) (e : StorageEngine)
      → Stored (deleted_in rec e).0 e (applied_delete o w rec e)
  unfolding applied_delete
  applied_delete_cases rec e =
      let refused : StorageEngine × Status = (e, replication_of o w rec) in
      let stored : StorageEngine × Status =
        (with_memtable (deleted_in rec e).0 e, (deleted_in rec e).1) in
      elim (Bool-cases (is_ok (replication_of o w rec))) [
        | inr p ↦ inl (
          ap (λ b. (if not b then refused else stored).0) p,
          ap (λ b. is_ok (if not b then refused else stored).1) p ∙ p,
        )
        | inl p ↦ inr (inl (ap (λ b. (if not b then refused else stored).0) p))
      ]

  Stored-Sound :
      (m : MemTable) (e : StorageEngine) (after : StorageEngine × Status)
      → Sound e
      → Sound (with_memtable m e)
      → Stored m e after
      → Sound after.0
  Stored-Sound m e after s t (inl (q, f)) = subst Sound (sym q) s
  Stored-Sound m e after s t (inr (inl q)) = subst Sound (sym q) t
  Stored-Sound m e after s t (inr (inr q)) =
      subst Sound (sym q) (flush-Sound o w (with_memtable m e) t)

abbrev pub next_set : World → (key value : Text) → StorageEngine → WalRecord
next_set w key value e = next_record w.now kind_set key value e.wal

abbrev pub set_value : (value : Text) → StorageEngine → MemValue
set_value value e = record { value = value; seq = suc e.wal.last_seq; tombstone = false }

abbrev pub next_delete : World → (key : Text) → StorageEngine → WalRecord
next_delete w key e = next_record w.now kind_delete key [] e.wal

abbrev pub deleted_value : StorageEngine → MemValue
deleted_value e = record { value = []; seq = suc e.wal.last_seq; tombstone = true }

pub next_set-IsNext :
    (w : World) (key value : Text) (e : StorageEngine)
    → IsNamed key value
    → IsNext e.wal (next_set w key value e) (set_value value e)
next_set-IsNext w key value e n = record {
  named = n;
  seq_is = refl;
  made_is = λ o. refl;
  seq_made = refl;
}

pub next_delete-IsNext :
    (w : World) (key : Text) (e : StorageEngine)
    → IsNamed key []
    → IsNext e.wal (next_delete w key e) (deleted_value e)
next_delete-IsNext w key e n = record {
  named = n;
  seq_is = refl;
  made_is = λ o. refl;
  seq_made = refl;
}

-- The table in memory takes the record that the log has just taken.
pub taken-Sound :
    (e : StorageEngine) (rec : WalRecord) (m : MemValue) (n : IsNext e.wal rec m)
    (after : MemTable × Status)
    → Sound e
    → ((key : Text)
        → Applied key (if text_eq rec.key key then some m else lookup key e.memtable.table) after)
    → Sound (with_memtable after.0 (with_log rec e))
taken-Sound e rec m n after s a =
    stored-Sound (with_log rec e) after.0 (pushed-Sound e rec m s n) (a []).distinct (a []).fits
      (λ key.
        let x = lookup key e.memtable.table in
        let h = logged key e in
        let l = history-append key e.wal.records rec none ∙ recorded_is e.wal rec m key h n in
        elim (Bool-cases (text_eq rec.key key)) [
          | inl p ↦ inr (
              (a key).holds
              ∙ ap (λ b. if b then some m else x) p
              ∙ sym (l ∙ ap (λ b. if b then some m else h) p))
          | inr p ↦ inl ((a key).holds ∙ ap (λ b. if b then some m else x) p)
        ])

module _ (o : EngineOptions) (w : World) where
  pub set-Sound : (key value : Text) (e : StorageEngine) → Sound e → Sound (set o w key value e).0
  unfolding set
  set-Sound key value e s = elim (update_cases o w (applied_set o w) kind_set key value e) [
    | inl (q, f) ↦ subst Sound (sym q) s
    | inr (up, (named, q)) ↦
        let rec = next_set w key value e in
        let n = next_set-IsNext w key value e named in
        let e1 = with_log rec e in
        let a : (k : Text)
            → Applied k
                (if text_eq key k then some (set_value value e) else lookup k e.memtable.table)
                (set_in o w rec e1) =
          λ k.
            mem_set-Applied o.mem_value_size k key value rec.seq e.memtable named s.distinct
              s.fits in
        subst Sound (ap (λ x. x.0) (sym q)) (
          Stored-Sound o w (set_in o w rec e1).0 e1 (applied_set o w rec e1)
            (pushed-Sound e rec (set_value value e) s n)
            (taken-Sound e rec (set_value value e) n (set_in o w rec e1) s a)
            (applied_set_cases o w rec e1 (a []).went))
  ]

  pub delete-Sound : (key : Text) (e : StorageEngine) → Sound e → Sound (delete o w key e).0
  unfolding delete
  delete-Sound key e s = elim (update_cases o w (applied_delete o w) kind_delete key [] e) [
    | inl (q, f) ↦ subst Sound (sym q) s
    | inr (up, (named, q)) ↦
        let rec = next_delete w key e in
        let n = next_delete-IsNext w key e named in
        let e1 = with_log rec e in
        let a : (k : Text)
            → Applied k
                (if text_eq key k then some (deleted_value e) else lookup k e.memtable.table)
                (deleted_in o w rec e1) =
          λ k.
            mem_delete-Applied o.mem_value_size k key [] rec.seq e.memtable named s.distinct
              s.fits in
        subst Sound (ap (λ x. x.0) (sym q)) (
          Stored-Sound o w (deleted_in o w rec e1).0 e1 (applied_delete o w rec e1)
            (pushed-Sound e rec (deleted_value e) s n)
            (taken-Sound e rec (deleted_value e) n (deleted_in o w rec e1) s a)
            (applied_delete_cases o w rec e1))
  ]
