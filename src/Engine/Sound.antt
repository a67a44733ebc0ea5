-- ===== src/Engine/Sound.antt =====
-- The invariant of the engine: its log is numbered to its end, its tables can be read, and each layer is
-- older than the log and the layers in front of it.
pub mod Tables
pub mod Flushes
pub mod Updates
pub mod Applied
use vault_vk.Common.{
  ℕ, suc, ◌+◌, ◌≤◌, ◌<◌, ◌≡◌, refl, ap, sym, subst, ◌∙◌, Bool, true, false, List, [], ◌∷◌, ◌++◌,
  Option, none, some, if◌then◌else◌, arith, Option-cases, Bool-cases, inl, inr, ◌⊎◌, All,
  All-append,
}
use vault_vk.Text.{Text, text_eq}
use vault_vk.Engine.Keys.{AreDistinct, lookup}
use vault_vk.Engine.MemTable.{MemValue, MemTable}
use vault_vk.Engine.Log.{
  WalOp, kind_set, kind_delete, WalRecord, Wal, pushed, find_end, encoded_size,
}
use vault_vk.Engine.Log.History.{made, recorded, history, history-append, IsNamed, AreNamed}
use vault_vk.Engine.Sstable.Fits.{AreFitting}
use vault_vk.Engine.Sstable.{SstableReader, sst_get}
use vault_vk.Engine.Defs.{StorageEngine, or_else}
use vault_vk.Engine.Layers.{IsWritten, Below, Below-trans, or_else-Below, Descends, Descends-raise}

abbrev pub logged : Text → StorageEngine → Option MemValue
logged key e = history key e.wal.records none

abbrev pub AtMost : ℕ → Option MemValue → Type 0
AtMost n none = Unit
AtMost n (some v) = v.seq ≤ n

-- The layers of a key under what the log says of it.
abbrev pub Chain : Option MemValue → Option MemValue → Text → List SstableReader → Type 0
Chain h x key l0 = Below h x × Descends (or_else x h) key l0

pub record LogSound (w : Wal) : Type 0 where
  pub named : AreNamed w.records
  pub ended : find_end w.records 0 0 ≡ (w.write_offset, w.last_seq)
  pub numbered : (key : Text) → AtMost w.last_seq (history key w.records none)

pub record Sound (e : StorageEngine) : Type 0 where
  pub log : LogSound e.wal
  pub distinct : AreDistinct e.memtable.table
  pub fits : AreFitting e.memtable.table
  pub written0 : All IsWritten e.l0_tables
  pub written1 : All IsWritten e.l1_tables
  pub chain : (key : Text) → Chain (logged key e) (lookup key e.memtable.table) key e.l0_tables

pub Below-refl : (h : Option MemValue) → Below h h
Below-refl none = tt
Below-refl (some v) = inr refl

pub Chain-raise :
    (g h x : Option MemValue) (key : Text) (l0 : List SstableReader)
    → Below g h
    → Chain h x key l0
    → Chain g x key l0
Chain-raise g h x key l0 b (c, d) = (
  Below-trans g h x b c,
  Descends-raise (or_else x g) (or_else x h) key l0 (or_else-Below x g h b) d,
)

pub top : (h x : Option MemValue) → Below h x → Below h (or_else x h)
top h none b = Below-refl h
top h (some v) b = b

doubled : (h : Option MemValue) → Below (or_else h h) h
doubled none = tt
doubled (some v) = inr refl

-- The table in memory is brought up to the log.
pub Chain-renew :
    (h x : Option MemValue) (key : Text) (l0 : List SstableReader)
    → Chain h x key l0
    → Chain h h key l0
Chain-renew h x key l0 (b, d) = (
  Below-refl h,
  Descends-raise (or_else h h) (or_else x h) key l0
      (Below-trans (or_else h h) h (or_else x h) (doubled h) (top h x b)) d,
)

find_end-append :
    (rs : List WalRecord) (r : WalRecord) (offset last : ℕ)
    → find_end (rs ++ r ∷ []) offset last ≡ ((find_end rs offset last).0 + encoded_size r, r.seq)
unfolding find_end
find_end-append [] r offset last = refl
find_end-append (s ∷ rs) r offset last = find_end-append rs r (offset + encoded_size s) s.seq

-- A set or a deletion that comes next in the log.
pub record IsNext (w : Wal) (rec : WalRecord) (m : MemValue) : Type 0 where
  pub named : IsNamed rec.key rec.value
  pub seq_is : rec.seq ≡ suc w.last_seq
  pub made_is : (o : Option MemValue) → made rec.op rec.value rec.seq o ≡ some m
  pub seq_made : m.seq ≡ rec.seq

pub recorded_is :
    (w : Wal) (rec : WalRecord) (m : MemValue) (key : Text) (h : Option MemValue)
    → (n : IsNext w rec m) → recorded key rec h ≡ (if text_eq rec.key key then some m else h)
recorded_is w rec m key h n = ap (λ o. if text_eq rec.key key then o else h) (n.made_is h)

newer :
    (b : Bool) (last : ℕ) (m : MemValue) (h : Option MemValue)
    → m.seq ≡ suc last
    → AtMost last h
    → AtMost (suc last) (if b then some m else h) × Below (if b then some m else h) h
newer true last m none e a = (omega arith, tt)
newer true last m (some v) e a = (omega arith, inl (omega arith))
newer false last m none e a = (tt, tt)
newer false last m (some v) e a = (omega arith, inr refl)

recorded_next :
    (w : Wal) (rec : WalRecord) (m : MemValue) (key : Text) (h : Option MemValue)
    → IsNext w rec m
    → AtMost w.last_seq h
    → AtMost rec.seq (recorded key rec h) × Below (recorded key rec h) h
recorded_next w rec m key h n a =
    subst (λ o. AtMost rec.seq o × Below o h) (sym (recorded_is w rec m key h n))
      (subst
        (λ q.
          AtMost q (if text_eq rec.key key then some m else h)
          × Below (if text_eq rec.key key then some m else h) h)
        (sym n.seq_is) (newer (text_eq rec.key key) w.last_seq m h (n.seq_made ∙ n.seq_is) a))

pub pushed-LogSound :
    (w : Wal) (rec : WalRecord) (m : MemValue)
    → LogSound w
    → IsNext w rec m
    → LogSound (pushed rec w)
pushed-LogSound w rec m s n = record {
  named = All-append (λ r. IsNamed r.key r.value) w.records (rec ∷ []) s.named (n.named, tt);
  ended = find_end-append w.records rec 0 0 ∙ ap (λ p. (p.0 + encoded_size rec, rec.seq)) s.ended;
  numbered = λ key.
      subst (AtMost rec.seq) (sym (history-append key w.records rec none))
        (recorded_next w rec m key (history key w.records none) n (s.numbered key)).0;
}

-- What is in the log and not yet anywhere else does no harm.
pub pushed-Sound :
    (e : StorageEngine) (rec : WalRecord) (m : MemValue)
    → Sound e
    → IsNext e.wal rec m
    → Sound (record e { wal = pushed rec e.wal })
pushed-Sound e rec m s n = record {
  log = pushed-LogSound e.wal rec m s.log n;
  distinct = s.distinct;
  fits = s.fits;
  written0 = s.written0;
  written1 = s.written1;
  chain = λ key.
      let h = logged key e in
      let b =
        subst (λ o. Below o h) (sym (history-append key e.wal.records rec none))
          (recorded_next e.wal rec m key h n (s.log.numbered key)).1 in
      Chain-raise (history key (e.wal.records ++ rec ∷ []) none) h (lookup key e.memtable.table) key
        e.l0_tables b (s.chain key);
}
