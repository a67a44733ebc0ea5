-- ===== src/Engine/Runs/Current.antt =====
-- When what is read of a key is the last that the log has of it.
use vault_vk.Common.{
  ℕ, ◌≡◌, refl, ap, sym, subst, ◌∙◌, true, not, ◌∷◌, Option, none, some, inl, inr, ◌⊎◌,
  if◌then◌else◌, arith, Bool-cases, Option-cases,
}
use vault_vk.Text.{Text, codes}
use vault_vk.Engine.Status.{err, failure, code_io_error}
use vault_vk.Engine.Keys.{lookup}
use vault_vk.Engine.MemTable.{MemValue, MemTable, mem_get}
use vault_vk.Engine.Sstable.{SstableReader, sst_get}
use vault_vk.Engine.Compaction.{compact_level0_to_level1}
use vault_vk.Engine.Compaction.Keeps.{alive, lookup-sort}
use vault_vk.Engine.Defs.{
  StorageEngine, EngineOptions, World, first_hit, or_else, flush_memtable, maybe_compact, get,
  answered,
}
use vault_vk.Engine.Layers.{build_of_sorted}
use vault_vk.Engine.Layers.Compacted.{compact-first_hit}
use vault_vk.Engine.Sound.{Sound, logged}
use vault_vk.Engine.Sound.Tables.{flushed_to, emptied, flush_cases, maybe_compact_cases}
use vault_vk.Engine.Sound.Flushes.{compacted, flushed_to-Sound}

-- What memory and level 0 give for a key.
abbrev pub near : Text → StorageEngine → Option MemValue
near key e = or_else (lookup key e.memtable.table) (first_hit key e.l0_tables)

abbrev pub far : Text → StorageEngine → Option MemValue
far key e = first_hit key e.l1_tables

-- The value stands in front of level 1, which has no other where it is a tombstone; or it stands
-- there, unless it is a tombstone.
abbrev pub Shown : MemValue → Option MemValue → Option MemValue → Type 0
Shown v near far =
    ((near ≡ some v) × (v.tombstone ≡ true → far ≡ none)) ⊎ ((near ≡ none) × (far ≡ alive (some v)))

abbrev pub Current : MemValue → Text → StorageEngine → Type 0
Current v key e = (logged key e ≡ some v) × Shown v (near key e) (far key e)

-- Two engines that have the same layers for a key.
abbrev pub Alike : Text → StorageEngine → StorageEngine → Type 0
Alike key d e =
    (logged key d ≡ logged key e) × ((near key d ≡ near key e) × (far key d ≡ far key e))

pub Alike-Current :
    (v : MemValue) (key : Text) (d e : StorageEngine)
    → Alike key d e
    → Current v key e
    → Current v key d
Alike-Current v key d e (l, (n, f)) (c, s) =
    (l ∙ c, subst (λ x. Shown v x (far key d)) (sym n) (subst (Shown v (near key e)) (sym f) s))

-- A tombstone that is dropped uncovers what level 1 has.
shown_in_level1 :
    (v : MemValue) (near far : Option MemValue)
    → Shown v near far
    → Shown v none (or_else (alive near) far)
shown_in_level1 v near far (inl (n, t)) = inr (
  refl,
  subst (λ x. or_else (alive x) far ≡ alive (some v)) (sym n)
      (elim (Bool-cases v.tombstone) [ inl b ↦ ground (arith, t b) | inr b ↦ ground arith ]),
)
shown_in_level1 v near far (inr (n, f)) =
    inr (refl, subst (λ x. or_else (alive x) far ≡ alive (some v)) (sym n) f)

-- The value that a reader gets of a record.
abbrev pub visible : MemValue → Option Text
visible v = if v.tombstone then none else some v.value

shown_answer :
    (v : MemValue) (near far : Option MemValue)
    → Shown v near far
    → (answered (or_else near far)).value ≡ visible v
shown_answer v near far (inl (n, t)) =
    subst (λ x. (answered (or_else x far)).value ≡ visible v) (sym n) (ground arith)
shown_answer v near far (inr (n, f)) =
    subst (λ x. (answered (or_else x far)).value ≡ visible v) (sym n)
      (subst (λ x. (answered x).value ≡ visible v) (sym f) (ground arith))

or_else_assoc : (x y z : Option MemValue) → or_else x (or_else y z) ≡ or_else (or_else x y) z
or_else_assoc none y z = refl
or_else_assoc (some v) y z = refl

mem_get-lookup : (key : Text) (m : MemTable) → (mem_get key m).value ≡ lookup key m.table
unfolding mem_get
mem_get-lookup key m = elim (Option-cases (lookup key m.table)) [
  | inl e ↦ ground arith
  | inr (v, e) ↦ ground arith
]

pub get-near :
    (c : ℕ) (cs : Text) (e : StorageEngine)
    → e.is_open ≡ true
    → get (c ∷ cs) e ≡ answered (or_else (near (c ∷ cs) e) (far (c ∷ cs) e))
unfolding get
get-near c cs e p =
    let key = c ∷ cs in
    let read =
      answered (
        or_else (mem_get key e.memtable).value (or_else (first_hit key e.l0_tables) (far key e))) in
    ap (λ b. if not b then err (failure code_io_error (codes "engine not open")) else read) p
    ∙ ap (λ x. answered (or_else x (or_else (first_hit key e.l0_tables) (far key e))))
        (mem_get-lookup key e.memtable)
    ∙ ap answered
        (or_else_assoc (lookup key e.memtable.table) (first_hit key e.l0_tables) (far key e))

-- A current value is read.
pub Current-get :
    (v : MemValue) (c : ℕ) (cs : Text) (e : StorageEngine)
    → Current v (c ∷ cs) e
    → e.is_open ≡ true
    → (get (c ∷ cs) e).value ≡ visible v
Current-get v c cs e (l, s) p =
    ap (λ r. r.value) (get-near c cs e p) ∙ shown_answer v (near (c ∷ cs) e) (far (c ∷ cs) e) s

-- Compaction of level 0, where the key is not in memory.
compacted-Current :
    (v : MemValue) (key : Text) (e : StorageEngine) (r : SstableReader)
    → Sound e
    → lookup key e.memtable.table ≡ none
    → (compact_level0_to_level1 none e.l0_tables).1 ≡ some r
    → Current v key e
    → Current v key (compacted e r)
unfolding first_hit
compacted-Current v key e r s absent made (l, shown) =
    let x = first_hit key e.l0_tables in
    let hit = compact-first_hit _ key e.l0_tables r s.written0 (s.chain key).1 made in
    let n : near key e ≡ x = ap (λ o. or_else o x) absent in
    let here : Shown v x (far key e) = subst (λ o. Shown v o (far key e)) n shown in
    let there : Shown v none (or_else (sst_get key r).value (far key e)) =
      subst (λ o. Shown v none (or_else o (far key e))) (sym hit)
        (shown_in_level1 v x (far key e) here) in
    (
      l,
      subst (λ o. Shown v (or_else o none) (or_else (sst_get key r).value (far key e))) (sym absent)
          there,
    )

maybe_compact-Current :
    (o : EngineOptions) (w : World) (v : MemValue) (key : Text) (e : StorageEngine)
    → Sound e
    → lookup key e.memtable.table ≡ none
    → Current v key e
    → Current v key (maybe_compact o w e).0
maybe_compact-Current o w v key e s absent c = elim (maybe_compact_cases o w e) [
  | inl (b, q) ↦ subst (Current v key) (sym q) c
  | inr (r, made, q) ↦ subst (Current v key) (sym q) (compacted-Current v key e r s absent made c)
]

-- A flush whose file can be made.
pub flush-Current :
    (o : EngineOptions) (w : World) (v : MemValue) (key : Text) (e : StorageEngine)
    → w.build_failed ≡ none
    → Sound e
    → Current v key e
    → Current v key (flush_memtable o w e).0
unfolding first_hit lookup
flush-Current o w v key e b s c = elim (flush_cases o w e s.fits) [
  | inl q ↦ subst (Current v key) (sym q) c
  | inr (inl (x, q, inr bad)) ↦ absurd (bad b)
  | inr (inl (x, q, inl nil)) ↦ subst (Current v key) (sym q) (
      Alike-Current v key (emptied e) e
        (
          refl,
          (
            ap (λ o. or_else o (first_hit key e.l0_tables))
                (ap (lookup key) (sym nil) ∙ lookup-sort key e.memtable.table s.distinct),
            refl,
          ),
        )
        c)
  | inr (inr (r, built, q)) ↦ subst (Current v key) (sym q) (
      maybe_compact-Current o w v key (flushed_to e r) (flushed_to-Sound e r s built) refl (
        Alike-Current v key (flushed_to e r) e
          (
            refl,
            (
              ap (λ o. or_else o (first_hit key e.l0_tables))
                  (build_of_sorted e.memtable.table r key s.distinct built),
              refl,
            ),
          )
          c))
]
