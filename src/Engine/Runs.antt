-- ===== src/Engine/Runs.antt =====
-- Runs of the engine: its calls with what each meets, and processes that end at any time between them
-- and start again on what is on disk.
pub mod Current
pub mod Kept
pub mod Durable
use vault_vk.Common.{
  ℕ, ◌≡◌, refl, ap, sym, subst, ◌∙◌, Bool, true, false, not, List, [], ◌∷◌, Option, none, some, inl,
  inr, ◌⊎◌, if◌then◌else◌, All, Bool-cases,
}
use vault_vk.Text.{Text}
use vault_vk.Engine.Status.{Status, is_ok, success}
use vault_vk.Engine.Keys.{lookup, AreDistinct}
use vault_vk.Engine.MemTable.{MemValue, MemTable, empty_memtable}
use vault_vk.Engine.Log.{WalRecord, Wal, find_end, replay}
use vault_vk.Engine.Log.History.{history, replay-Applied, Applied}
use vault_vk.Engine.Defs.{
  StorageEngine, EngineOptions, World, set, delete, flush_memtable, open_engine, constructed,
  close_engine, load_sstables_from_disk,
}
use vault_vk.Engine.Sound.{Sound, logged, Chain, Chain-renew}
use vault_vk.Engine.Sound.Tables.{stored-Sound, flags-Sound, emptied}
use vault_vk.Engine.Sound.Flushes.{flush-Sound, emptied-Sound}
use vault_vk.Engine.Sound.Applied.{set-Sound, delete-Sound}

pub data Event : Type 0 where
  set_key : World → (key value : Text) → Event
  delete_key : World → (key : Text) → Event
  flush : World → Event
  stop restart : Event

-- An empty data directory.
abbrev pub blank_engine : StorageEngine
blank_engine = record {
  is_open = false;
  memtable = empty_memtable;
  l0_tables = [];
  l1_tables = [];
  partial_file = false;
  wal = record { records = []; write_offset = 0; last_seq = 0 };
}

pub blank-Sound : Sound blank_engine
unfolding lookup find_end
blank-Sound = record {
  log = record { named = tt; ended = refl; numbered = λ key. tt };
  distinct = tt;
  fits = tt;
  written0 = tt;
  written1 = tt;
  chain = λ key. (tt, tt);
}

module _ (o : EngineOptions) where
  abbrev pub restarted : StorageEngine → StorageEngine × Status
  restarted e = open_engine o (constructed e)

  unfoldable pub step : Event → StorageEngine → StorageEngine
  step (set_key w key value) e = (set o w key value e).0
  step (delete_key w key) e = (delete o w key e).0
  step (flush w) e = (flush_memtable o w e).0
  step stop e = close_engine e
  step restart e = (restarted e).0

  abbrev pub run : List Event → StorageEngine → StorageEngine
  run [] e = e
  run (v ∷ vs) e = run vs (step v e)

  -- The table in memory after a replay of the log.
  abbrev pub replayed_table : StorageEngine → MemTable × Status
  replayed_table e = replay o.mem_value_size e.wal.records empty_memtable

  pub replayed-logged :
      (key : Text) (e : StorageEngine) → Sound e → Applied key (logged key e) (replayed_table e)
  unfolding lookup
  replayed-logged key e s =
      replay-Applied o.mem_value_size key e.wal.records empty_memtable s.log.named tt tt

  abbrev pub recovered : StorageEngine → StorageEngine
  recovered e = record e { is_open = true; memtable = (replayed_table e).0 }

  -- Where `Open` comes to a partial file.
  abbrev pub refused : StorageEngine → StorageEngine × Status
  refused e = (constructed e, load_sstables_from_disk true)

  -- A new process finds the log's end where it was, and its table in memory holds the log, unless it
  -- finds a partial file.
  pub restarted_lem :
      (e : StorageEngine)
      → Sound e
      → restarted e ≡ (
          if not (is_ok (load_sstables_from_disk e.partial_file))
          then (constructed e, load_sstables_from_disk e.partial_file)
          else (recovered e, success 0))
  unfolding open_engine
  restarted_lem e s =
      let wal_of : ℕ × ℕ → Wal =
        λ p. record { records = e.wal.records; write_offset = p.0; last_seq = p.1 } in
      let (m, status) = replayed_table e in
      let found : ℕ × ℕ → StorageEngine = λ p. record (constructed e) { wal = wal_of p } in
      let at_end : ℕ × ℕ → StorageEngine = λ p. record (found p) { memtable = m } in
      let opened : ℕ × ℕ → StorageEngine × Status =
        λ p. (record (at_end p) { is_open = true }, success 0) in
      let answered : Bool → ℕ × ℕ → StorageEngine × Status = λ b p.
        if not (is_ok (load_sstables_from_disk e.partial_file))
        then (found p, load_sstables_from_disk e.partial_file)
        else if b
        then opened p
        else (at_end p, status) in
      ap (λ b. answered b (find_end e.wal.records 0 0)) (replayed-logged [] e s).went
      ∙ ap (answered true) s.log.ended

  pub restarted_cases :
      (e : StorageEngine)
      → Sound e
      → ((e.partial_file ≡ true) × (restarted e ≡ refused e))
        ⊎ ((e.partial_file ≡ false) × (restarted e ≡ (recovered e, success 0)))
  restarted_cases e s =
      let answered : Bool → StorageEngine × Status = λ b.
        if not (is_ok (load_sstables_from_disk b))
        then (constructed e, load_sstables_from_disk b)
        else (recovered e, success 0) in
      elim (Bool-cases e.partial_file) [
        | inl p ↦ inl (p, restarted_lem e s ∙ ap answered p)
        | inr p ↦ inr (p, restarted_lem e s ∙ ap answered p)
      ]

  restarted-Sound : (e : StorageEngine) → Sound e → Sound (restarted e).0
  restarted-Sound e s = elim (restarted_cases e s) [
    | inl (p, q) ↦
        subst Sound (ap (λ x. x.0) (sym q))
          (flags-Sound false e.partial_file (emptied e) (emptied-Sound e s))
    | inr (p, q) ↦
        let opened : StorageEngine = record e { is_open = true } in
        subst Sound (ap (λ x. x.0) (sym q)) (
          stored-Sound opened (replayed_table e).0 (flags-Sound true e.partial_file e s)
            (replayed-logged [] e s).distinct (replayed-logged [] e s).fits
            (λ key. inr (replayed-logged key e s).holds))
  ]

  pub step-Sound : (v : Event) (e : StorageEngine) → Sound e → Sound (step v e)
  unfolding step
  step-Sound (set_key w key value) e s = set-Sound o w key value e s
  step-Sound (delete_key w key) e s = delete-Sound o w key e s
  step-Sound (flush w) e s = flush-Sound o w e s
  step-Sound stop e s = flags-Sound false e.partial_file e s
  step-Sound restart e s = restarted-Sound e s

  pub run-Sound : (vs : List Event) (e : StorageEngine) → Sound e → Sound (run vs e)
  run-Sound [] e s = s
  run-Sound (v ∷ vs) e s = run-Sound vs (step v e) (step-Sound v e s)
