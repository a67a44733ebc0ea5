-- ===== src/Engine/Runs/Durable.antt =====
-- Reads of the engine of src/storage_engine.cpp after a run.
use vault_vk.Common.{
  ℕ, ◌≡◌, refl, ap, sym, ◌∙◌, Bool, true, not, if◌then◌else◌, List, ◌∷◌, Option, none, some, inl,
  inr, ◌⊎◌, All, arith,
}
use vault_vk.Text.{Text}
use vault_vk.Engine.Status.{is_ok}
use vault_vk.Engine.Keys.{lookup}
use vault_vk.Engine.MemTable.{MemValue}
use vault_vk.Engine.Compaction.Keeps.{alive}
use vault_vk.Engine.Defs.{
  StorageEngine, EngineOptions, World, first_hit, or_else, set, delete, get, maybe_compact,
  answered,
}
use vault_vk.Engine.Layers.Compacted.{compact-first_hit}
use vault_vk.Engine.Sound.{Sound, logged}
use vault_vk.Engine.Sound.Tables.{maybe_compact_cases}
use vault_vk.Engine.Sound.Applied.{set-Sound, delete-Sound}
use vault_vk.Engine.Runs.{
  Event, run, blank_engine, blank-Sound, run-Sound, restarted, restarted_cases, replayed-logged,
  recovered,
}
use vault_vk.Engine.Runs.Current.{near, far, visible, Current-get, get-near}
use vault_vk.Engine.Runs.Kept.{Leaves, set_own-Current, delete_own-Current, Holds, run-Holds}

or_else-none : (x : Option MemValue) → or_else x none ≡ x
or_else-none none = refl
or_else-none (some v) = refl

Holds-get :
    {v : MemValue} (c : ℕ) (cs : Text) (e : StorageEngine)
    → Holds v (c ∷ cs) e
    → e.is_open ≡ true
    → (get (c ∷ cs) e).value ≡ visible v
Holds-get c cs e (inl stuck) up = absurd (ground (arith, stuck.0, up))
Holds-get {v} c cs e (inr now) up = Current-get v c cs e now up

-- From an empty data directory and after any run: when a set of a key is acknowledged and its flush, if
-- there is one, can write its file, then after any further run that does not update the key, whose
-- flushes can write theirs, with restarts at any point, an engine that is open answers a get of the key
-- with the value that was set. Compactions may fail.
pub run-set-get :
    (o : EngineOptions) (before : List Event) (w : World) (c : ℕ) (cs value : Text)
    → w.build_failed ≡ none
    → is_ok (set o w (c ∷ cs) value (run o before blank_engine)).1 ≡ true
    → (after : List Event) → All (Leaves (c ∷ cs)) after
    → (run o after (set o w (c ∷ cs) value (run o before blank_engine)).0).is_open ≡ true
    → (get (c ∷ cs) (run o after (set o w (c ∷ cs) value (run o before blank_engine)).0)).value
      ≡ some value
run-set-get o before w c cs value fine ok after leaves up =
    let e = run o before blank_engine in
    let s = run-Sound o before blank_engine blank-Sound in
    let own = set_own-Current o w fine (c ∷ cs) value e s ok in
    let d = (set o w (c ∷ cs) value e).0 in
    Holds-get c cs (run o after d)
      (run-Holds o _ (c ∷ cs) after d leaves (set-Sound o w (c ∷ cs) value e s) (inr own)) up

-- The same of a deletion that is acknowledged: the key is not found, when level 1 had no value of it at
-- the time of the deletion.
pub run-delete-get :
    (o : EngineOptions) (before : List Event) (w : World) (c : ℕ) (cs : Text)
    → w.build_failed ≡ none
    → far (c ∷ cs) (run o before blank_engine) ≡ none
    → is_ok (delete o w (c ∷ cs) (run o before blank_engine)).1 ≡ true
    → (after : List Event) → All (Leaves (c ∷ cs)) after
    → (run o after (delete o w (c ∷ cs) (run o before blank_engine)).0).is_open ≡ true
    → (get (c ∷ cs) (run o after (delete o w (c ∷ cs) (run o before blank_engine)).0)).value ≡ none
run-delete-get o before w c cs fine absent ok after leaves up =
    let e = run o before blank_engine in
    let s = run-Sound o before blank_engine blank-Sound in
    let own = delete_own-Current o w fine (c ∷ cs) e absent s ok in
    let d = (delete o w (c ∷ cs) e).0 in
    Holds-get c cs (run o after d)
      (run-Holds o _ (c ∷ cs) after d leaves (delete-Sound o w (c ∷ cs) e s) (inr own)) up

recovered-get :
    (o : EngineOptions) (c : ℕ) (cs : Text) (v : MemValue) (e : StorageEngine)
    → Sound e
    → logged (c ∷ cs) e ≡ some v
    → (get (c ∷ cs) (recovered o e)).value ≡ visible v
recovered-get o c cs v e s l =
    let level0 = first_hit (c ∷ cs) e.l0_tables in
    ap (λ r. r.value) (get-near c cs (recovered o e) refl)
    ∙ ap (λ y. (answered (or_else (or_else y level0) (far (c ∷ cs) e))).value)
        ((replayed-logged o (c ∷ cs) e s).holds ∙ l)
    ∙ ground arith

-- After any run, whatever failed in it, a new process opens exactly if no `Build` has left an unfinished
-- file on disk; it then answers a get of a key that the log has with the last value that the log has
-- for it, or finds nothing where that is a deletion. While there is such a file, no key is found.
pub run-restarted-get :
    (o : EngineOptions) (before : List Event) (c : ℕ) (cs : Text) (v : MemValue)
    → logged (c ∷ cs) (run o before blank_engine) ≡ some v
    → let e = run o before blank_engine in
      let started = restarted o e in
      (is_ok started.1 ≡ not e.partial_file)
      × ((get (c ∷ cs) started.0).value ≡ (if e.partial_file then none else visible v))
unfolding get
run-restarted-get o before c cs v l =
    let e = run o before blank_engine in
    let s = run-Sound o before blank_engine blank-Sound in
    let shown = λ (b : Bool). if b then none else visible v in
    elim (restarted_cases o e s) [
      | inl (p, q) ↦ (
        ap (λ r. is_ok r.1) q ∙ ap not (sym p),
        ap (λ r. (get (c ∷ cs) r.0).value) q ∙ ap shown (sym p),
      )
      | inr (p, q) ↦ (
        ap (λ r. is_ok r.1) q ∙ ap not (sym p),
        ap (λ r. (get (c ∷ cs) r.0).value) q ∙ recovered-get o c cs v e s l ∙ ap shown (sym p),
      )
    ]

-- A compaction after any run leaves the engine as it is, but perhaps with an unfinished file on disk, or
-- moves level 0 into level 1, where for each key the record that level 0 gave stands in front of what
-- level 1 had; but a tombstone is dropped, and what level 1 had is read again.
pub run-maybe_compact-far :
    (o : EngineOptions) (before : List Event) (w : World)
    → ((b : Bool) × ((maybe_compact o w (run o before blank_engine)).0
          ≡ record (run o before blank_engine) { partial_file = b }))
      ⊎ ((key : Text)
          → (near key (maybe_compact o w (run o before blank_engine)).0
              ≡ lookup key (run o before blank_engine).memtable.table)
            × (far key (maybe_compact o w (run o before blank_engine)).0
                ≡ or_else
                    (alive (first_hit key (run o before blank_engine).l0_tables))
                    (far key (run o before blank_engine))))
unfolding first_hit
run-maybe_compact-far o before w =
    let e = run o before blank_engine in
    let s = run-Sound o before blank_engine blank-Sound in
    elim (maybe_compact_cases o w e) [
      | inl q ↦ inl q
      | inr (r, made, q) ↦ inr (λ key. (
        ap (near key) q ∙ or_else-none (lookup key e.memtable.table),
        ap (far key) q
            ∙ ap (λ x. or_else x (far key e))
                (compact-first_hit _ key e.l0_tables r s.written0 (s.chain key).1 made),
      ))
    ]
