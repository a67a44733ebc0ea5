-- ===== src/Engine/Log/History.antt =====
-- What a log says of each key, and its replay (`ReplayWal` of src/storage_engine.cpp).
use vault_vk.Common.{
  ℕ, ◌≡◌, ◌≤◌, refl, sym, subst, true, false, List, [], ◌∷◌, ◌++◌, Option, none, some,
  if◌then◌else◌, arith, length, All,
}
use vault_vk.Text.{Text, text_eq}
use vault_vk.Engine.Keys.{lookup, lookup-put, AreDistinct, put-AreDistinct}
use vault_vk.Engine.Status.{Status, is_ok}
use vault_vk.Engine.MemTable.{MemValue, MemTable, mem_set, mem_delete, store}
use vault_vk.Engine.Sstable.Fits.{AreFitting, put-AreFitting}
use vault_vk.Engine.Log.{
  WalOp, kind_set, kind_delete, kind_checkpoint_begin, kind_checkpoint_end, WalRecord, replayed,
  replay,
}

-- What a record of this operation leaves for its own key, where it was `o` before.
abbrev pub made : WalOp → Text → ℕ → Option MemValue → Option MemValue
made kind_set value seq o = some (record { value = value; seq = seq; tombstone = false })
made kind_delete value seq o = some (record { value = []; seq = seq; tombstone = true })
made kind_checkpoint_begin value seq o = o
made kind_checkpoint_end value seq o = o

abbrev pub recorded : Text → WalRecord → Option MemValue → Option MemValue
recorded key r o = if text_eq r.key key then made r.op r.value r.seq o else o

-- The last that the log has for a key, where it was `o` before.
abbrev pub history : Text → List WalRecord → Option MemValue → Option MemValue
history key [] o = o
history key (r ∷ rs) o = history key rs (recorded key r o)

pub history-append :
    (key : Text) (rs : List WalRecord) (r : WalRecord) (o : Option MemValue)
    → history key (rs ++ r ∷ []) o ≡ recorded key r (history key rs o)
history-append key [] r o = refl
history-append key (s ∷ rs) r o = history-append key rs r (recorded key s o)

abbrev IsNonEmpty : Text → Type 0
IsNonEmpty [] = ⊥
IsNonEmpty (c ∷ cs) = Unit

-- A key that is not empty, with lengths that a table can hold.
abbrev pub IsNamed : Text → Text → Type 0
IsNamed key value = IsNonEmpty key × ((length key ≤ 65535) × (length value ≤ 4294967295))

abbrev pub AreNamed : List WalRecord → Type 0
AreNamed rs = All (λ r. IsNamed r.key r.value) rs

pub record Applied (key : Text) (o : Option MemValue) (after : MemTable × Status) : Type 0 where
  pub went : is_ok after.1 ≡ true
  pub distinct : AreDistinct after.0.table
  pub fits : AreFitting after.0.table
  pub holds : lookup key after.0.table ≡ o

module _ (value_size : ℕ) where
  pub mem_set-Applied :
      (key k value : Text) (seq : ℕ) (m : MemTable)
      → IsNamed k value
      → AreDistinct m.table
      → AreFitting m.table
      → Applied key
          (if text_eq k key then made kind_set value seq none else lookup key m.table)
          (mem_set value_size k value seq m)
  unfolding mem_set store
  mem_set-Applied key [] value seq m h d f = absurd h.0
  mem_set-Applied key (c ∷ cs) value seq m h d f = record {
    went = refl;
    distinct =
        put-AreDistinct (c ∷ cs) (record { value = value; seq = seq; tombstone = false }) m.table d;
    fits =
        put-AreFitting (c ∷ cs) (record { value = value; seq = seq; tombstone = false }) m.table h.1
          f;
    holds =
        lookup-put (c ∷ cs) key (record { value = value; seq = seq; tombstone = false }) m.table;
  }

  pub mem_delete-Applied :
      (key k value : Text) (seq : ℕ) (m : MemTable)
      → IsNamed k value
      → AreDistinct m.table
      → AreFitting m.table
      → Applied key
          (if text_eq k key then made kind_delete value seq none else lookup key m.table)
          (mem_delete value_size k seq m)
  unfolding mem_delete store
  mem_delete-Applied key [] value seq m h d f = absurd h.0
  mem_delete-Applied key (c ∷ cs) value seq m h d f = record {
    went = refl;
    distinct =
        put-AreDistinct (c ∷ cs) (record { value = []; seq = seq; tombstone = true }) m.table d;
    fits =
        put-AreFitting (c ∷ cs) (record { value = []; seq = seq; tombstone = true }) m.table
          (h.1.0, omega arith) f;
    holds = lookup-put (c ∷ cs) key (record { value = []; seq = seq; tombstone = true }) m.table;
  }

  replayed-Applied :
      (key : Text) (op : WalOp) (k value : Text) (seq : ℕ) (m : MemTable)
      → IsNamed k value
      → AreDistinct m.table
      → AreFitting m.table
      → Applied key
          (if text_eq k key then made op value seq (lookup key m.table) else lookup key m.table)
          (replayed value_size op k value seq m)
  unfolding replayed
  replayed-Applied key kind_set k value seq m h d f = mem_set-Applied key k value seq m h d f
  replayed-Applied key kind_delete k value seq m h d f = mem_delete-Applied key k value seq m h d f
  replayed-Applied key kind_checkpoint_begin k value seq m h d f = record {
    went = refl;
    distinct = d;
    fits = f;
    holds = ground arith;
  }
  replayed-Applied key kind_checkpoint_end k value seq m h d f = record {
    went = refl;
    distinct = d;
    fits = f;
    holds = ground arith;
  }

  pub replay-Applied :
      (key : Text) (rs : List WalRecord) (m : MemTable)
      → AreNamed rs
      → AreDistinct m.table
      → AreFitting m.table
      → Applied key (history key rs (lookup key m.table)) (replay value_size rs m)
  unfolding replay
  replay-Applied key [] m h d f = record { went = refl; distinct = d; fits = f; holds = refl }
  replay-Applied key (r ∷ rs) m h d f =
      let (after, status) = replayed value_size r.op r.key r.value r.seq m in
      let a = replayed-Applied key r.op r.key r.value r.seq m h.0 d f in
      let b = replay-Applied key rs after h.1 a.distinct a.fits in
      let c = subst (λ o. Applied key (history key rs o) (replay value_size rs after)) a.holds b in
      subst
        (λ went.
          Applied key (history key rs (recorded key r (lookup key m.table)))
            (if went then replay value_size rs after else (after, status)))
        (sym a.went) c
