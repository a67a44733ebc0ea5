-- ===== src/Engine/Sound/Updates.antt =====
-- The cases of `Set` and `Delete` of src/storage_engine.cpp up to the append.
use vault_vk.Common.{
  ℕ, ◌≤◌, ◌≡◌, refl, ap, sym, subst, Bool, true, false, not, [], ◌∷◌, Option, none, some, inl, inr,
  ◌⊎◌, arith, length, if◌then◌else◌, Bool-cases,
}
use vault_vk.Text.{Text, codes}
use vault_vk.Engine.Status.{Status, is_ok, failure, code_io_error}
use vault_vk.Engine.MemTable.{MemTable}
use vault_vk.Engine.Log.{WalOp, WalRecord, Wal, next_record, append_refused, pushed}
use vault_vk.Engine.Log.History.{IsNamed}
use vault_vk.Engine.Defs.{StorageEngine, EngineOptions, World, appended, update}

abbrev pub with_log : WalRecord → StorageEngine → StorageEngine
with_log rec e = record e { wal = pushed rec e.wal }

abbrev pub with_memtable : MemTable → StorageEngine → StorageEngine
with_memtable m e = record e { memtable = m }

append_refused-fails :
    (capacity : ℕ) (encrypts : Bool) (rec : WalRecord) (w : Wal) (st : Status)
    → append_refused capacity encrypts rec w ≡ some st
    → is_ok st ≡ false
unfolding append_refused
append_refused-fails capacity encrypts rec w st e = ground arith

append_refused-fits :
    (capacity : ℕ) (encrypts : Bool) (rec : WalRecord) (w : Wal)
    → append_refused capacity encrypts rec w ≡ none
    → (length rec.key ≤ 65535) × (length rec.value ≤ 4294967295)
unfolding append_refused
append_refused-fits capacity encrypts rec w e = ground arith

-- An update leaves the engine as it is and fails, or is appended to the log of an engine that is open.
abbrev pub Updated :
    World
    → (WalRecord → StorageEngine → StorageEngine × Status)
    → WalOp
    → (key value : Text) → StorageEngine
    → StorageEngine × Status
    → Type 0
Updated w finish op key value e after =
    ((after.0 ≡ e) × (is_ok after.1 ≡ false))
    ⊎ ((e.is_open ≡ true)
        × (IsNamed key value
            × (after
                ≡ finish (next_record w.now op key value e.wal)
                    (with_log (next_record w.now op key value e.wal) e))))

appended-Updated :
    (o : EngineOptions) (w : World) (finish : WalRecord → StorageEngine → StorageEngine × Status)
    (op : WalOp) (c : ℕ) (cs value : Text) (e : StorageEngine) (x : Option Status)
    → append_refused o.wal_segment_size_bytes w.encrypts
        (next_record w.now op (c ∷ cs) value e.wal)
        e.wal
      ≡ x
    → e.is_open ≡ true
    → Updated w finish op
        (c ∷ cs)
        value
        e
        (appended o w finish (next_record w.now op (c ∷ cs) value e.wal) e x)
appended-Updated o w finish op c cs value e none q p =
    inr (p, ((tt, append_refused-fits _ _ _ _ q), refl))
appended-Updated o w finish op c cs value e (some st) q p =
    inl (refl, append_refused-fails _ _ _ _ st q)

pub update_cases :
    (o : EngineOptions) (w : World) (finish : WalRecord → StorageEngine → StorageEngine × Status)
    (op : WalOp) (key value : Text) (e : StorageEngine)
    → Updated w finish op key value e (update o w finish op key value e)
unfolding update
update_cases o w finish op [] value e = inl (elim (Bool-cases e.is_open) [
  | inl p ↦ (rw (p, if◌then◌else◌, not) refl, rw (p, if◌then◌else◌, not) refl)
  | inr p ↦ (rw (p, if◌then◌else◌, not) refl, rw (p, if◌then◌else◌, not) refl)
])
update_cases o w finish op (c ∷ cs) value e =
    let rec = next_record w.now op (c ∷ cs) value e.wal in
    let x = append_refused o.wal_segment_size_bytes w.encrypts rec e.wal in
    let closed : StorageEngine × Status = (e, failure code_io_error (codes "engine not open")) in
    let opened = appended o w finish rec e x in
    elim (Bool-cases e.is_open) [
      | inr p ↦ inl (
        ap (λ b. (if not b then closed else opened).0) p,
        ap (λ b. is_ok (if not b then closed else opened).1) p,
      )
      | inl p ↦
          subst (Updated w finish op (c ∷ cs) value e)
            (sym (ap (λ b. if not b then closed else opened) p))
            (appended-Updated o w finish op c cs value e x refl p)
    ]
