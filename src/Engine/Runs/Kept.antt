-- ===== src/Engine/Runs/Kept.antt =====
-- A key under the updates of src/storage_engine.cpp that are about it, and those that are not.
use vault_vk.Common.{
  ◌≡◌, refl, ap, sym, subst, ◌∙◌, true, false, List, [], ◌∷◌, none, some, inl, inr, ◌⊎◌,
  if◌then◌else◌, All, arith,
}
use vault_vk.Text.{Text, text_eq}
use vault_vk.Engine.Status.{Status, is_ok}
use vault_vk.Engine.Keys.{lookup, text_eq_refl}
use vault_vk.Engine.MemTable.{MemValue, MemTable}
use vault_vk.Engine.Log.{WalOp, WalRecord, kind_set, kind_delete}
use vault_vk.Engine.Log.History.{history-append, mem_set-Applied, mem_delete-Applied, Applied}
use vault_vk.Engine.Defs.{
  StorageEngine, EngineOptions, World, first_hit, or_else, set, delete, update, applied_set,
  applied_delete,
}
use vault_vk.Engine.Sound.{Sound, logged, IsNext, recorded_is}
use vault_vk.Engine.Sound.Tables.{flush_closed}
use vault_vk.Engine.Sound.Updates.{with_log, with_memtable, update_cases}
use vault_vk.Engine.Sound.Applied.{
  set_in, deleted_in, Stored, applied_set_cases, applied_delete_cases, next_set, next_delete,
  set_value, deleted_value, next_set-IsNext, next_delete-IsNext, taken-Sound,
}
use vault_vk.Engine.Runs.{
  Event, set_key, delete_key, flush, stop, restart, step, run, restarted_cases, replayed-logged,
  recovered, step-Sound,
}
use vault_vk.Engine.Runs.Current.{Current, Alike-Current, far, flush-Current}

-- What an update leaves in the table in memory.
abbrev Takes : WalRecord → MemValue → StorageEngine → MemTable × Status → Type 0
Takes rec m e after =
    (key : Text)
    → Applied key (if text_eq rec.key key then some m else lookup key e.memtable.table) after

logged_after :
    (e : StorageEngine) (rec : WalRecord) (m : MemValue) (key : Text)
    → IsNext e.wal rec m
    → logged key (with_log rec e) ≡ (if text_eq rec.key key then some m else logged key e)
logged_after e rec m key n =
    history-append key e.wal.records rec none ∙ recorded_is e.wal rec m key (logged key e) n

module _ (o : EngineOptions) (w : World) (fine : w.build_failed ≡ none) where
  -- The rest of an update that is about another key.
  other-Current :
      (v : MemValue) (key : Text) (e : StorageEngine) (rec : WalRecord) (m : MemValue)
      (taken : MemTable × Status) (after : StorageEngine × Status)
      → text_eq rec.key key ≡ false
      → Sound e
      → IsNext e.wal rec m
      → Takes rec m e taken
      → Stored o w taken.0 (with_log rec e) after
      → Current v key e
      → Current v key after.0
  other-Current v key e rec m taken after p s n a stored c =
      let e1 = with_log rec e in
      let e2 = with_memtable taken.0 e1 in
      let l = logged_after e rec m key n ∙ ap (λ b. if b then some m else logged key e) p in
      let x = (a key).holds ∙ ap (λ b. if b then some m else lookup key e.memtable.table) p in
      let c1 = Alike-Current v key e1 e (l, (refl, refl)) c in
      let c2 =
        Alike-Current v key e2 e (l, (ap (λ y. or_else y (first_hit key e.l0_tables)) x, refl)) c in
      elim stored [
        | inl (q, f) ↦ subst (Current v key) (sym q) c1
        | inr (inl q) ↦ subst (Current v key) (sym q) c2
        | inr (inr q) ↦
            subst (Current v key) (sym q)
              (flush-Current o w v key e2 fine (taken-Sound e rec m n taken s a) c2)
      ]

  -- The rest of an update of the key that succeeds.
  own-Current :
      (e : StorageEngine) (rec : WalRecord) (m : MemValue) (taken : MemTable × Status)
      (after : StorageEngine × Status)
      → (m.tombstone ≡ true → far rec.key e ≡ none)
      → Sound e
      → IsNext e.wal rec m
      → Takes rec m e taken
      → Stored o w taken.0 (with_log rec e) after
      → is_ok after.1 ≡ true
      → Current m rec.key after.0
  own-Current e rec m taken after t s n a stored ok =
      let key = rec.key in
      let p = text_eq_refl key in
      let e2 = with_memtable taken.0 (with_log rec e) in
      let x = (a key).holds ∙ ap (λ b. if b then some m else lookup key e.memtable.table) p in
      let c2 : Current m key e2 = (
        logged_after e rec m key n ∙ ap (λ b. if b then some m else logged key e) p,
        inl (ap (λ y. or_else y (first_hit key e.l0_tables)) x, t),
      ) in
      elim stored [
        | inl (q, f) ↦ ground (arith, f, ok)
        | inr (inl q) ↦ subst (Current m key) (sym q) c2
        | inr (inr q) ↦
            subst (Current m key) (sym q)
              (flush-Current o w m key e2 fine (taken-Sound e rec m n taken s a) c2)
      ]

  set_other-Current :
      (v : MemValue) (key : Text) (e : StorageEngine) (k value : Text)
      → text_eq k key ≡ false
      → Sound e
      → Current v key e
      → Current v key (set o w k value e).0
  unfolding set
  set_other-Current v key e k value p s c =
      elim (update_cases o w (applied_set o w) kind_set k value e) [
        | inl (q, f) ↦ subst (Current v key) (sym q) c
        | inr (up, (named, q)) ↦
            let rec = next_set w k value e in
            let m = set_value value e in
            let taken = set_in o w rec (with_log rec e) in
            let a : Takes rec m e taken = λ j.
              mem_set-Applied o.mem_value_size j k value rec.seq e.memtable named s.distinct
                s.fits in
            subst (Current v key) (ap (λ x. x.0) (sym q)) (
              other-Current v key e rec m taken (applied_set o w rec (with_log rec e)) p s
                (next_set-IsNext w k value e named) a
                (applied_set_cases o w rec (with_log rec e) (a []).went) c)
      ]

  pub set_own-Current :
      (key value : Text) (e : StorageEngine)
      → Sound e
      → is_ok (set o w key value e).1 ≡ true
      → Current (set_value value e) key (set o w key value e).0
  unfolding set
  set_own-Current key value e s ok =
      elim (update_cases o w (applied_set o w) kind_set key value e) [
        | inl (q, f) ↦ ground (arith, f, ok)
        | inr (up, (named, q)) ↦
            let rec = next_set w key value e in
            let m = set_value value e in
            let taken = set_in o w rec (with_log rec e) in
            let a : Takes rec m e taken = λ j.
              mem_set-Applied o.mem_value_size j key value rec.seq e.memtable named s.distinct
                s.fits in
            subst (Current m key) (ap (λ x. x.0) (sym q)) (
              own-Current e rec m taken (applied_set o w rec (with_log rec e))
                (λ t. ground (arith, t)) s (next_set-IsNext w key value e named) a
                (applied_set_cases o w rec (with_log rec e) (a []).went)
                (ap (λ x. is_ok x.1) (sym q) ∙ ok))
      ]

  delete_other-Current :
      (v : MemValue) (key : Text) (e : StorageEngine) (k : Text)
      → text_eq k key ≡ false
      → Sound e
      → Current v key e
      → Current v key (delete o w k e).0
  unfolding delete
  delete_other-Current v key e k p s c =
      elim (update_cases o w (applied_delete o w) kind_delete k [] e) [
        | inl (q, f) ↦ subst (Current v key) (sym q) c
        | inr (up, (named, q)) ↦
            let rec = next_delete w k e in
            let m = deleted_value e in
            let taken = deleted_in o w rec (with_log rec e) in
            let a : Takes rec m e taken = λ j.
              mem_delete-Applied o.mem_value_size j k [] rec.seq e.memtable named s.distinct
                s.fits in
            subst (Current v key) (ap (λ x. x.0) (sym q)) (
              other-Current v key e rec m taken (applied_delete o w rec (with_log rec e)) p s
                (next_delete-IsNext w k e named) a (applied_delete_cases o w rec (with_log rec e))
                c)
      ]

  pub delete_own-Current :
      (key : Text) (e : StorageEngine)
      → far key e ≡ none
      → Sound e
      → is_ok (delete o w key e).1 ≡ true
      → Current (deleted_value e) key (delete o w key e).0
  unfolding delete
  delete_own-Current key e none_far s ok =
      elim (update_cases o w (applied_delete o w) kind_delete key [] e) [
        | inl (q, f) ↦ ground (arith, f, ok)
        | inr (up, (named, q)) ↦
            let rec = next_delete w key e in
            let m = deleted_value e in
            let taken = deleted_in o w rec (with_log rec e) in
            let a : Takes rec m e taken = λ j.
              mem_delete-Applied o.mem_value_size j key [] rec.seq e.memtable named s.distinct
                s.fits in
            subst (Current m key) (ap (λ x. x.0) (sym q)) (
              own-Current e rec m taken (applied_delete o w rec (with_log rec e)) (λ t. none_far) s
                (next_delete-IsNext w key e named) a (applied_delete_cases o w rec (with_log rec e))
                (ap (λ x. is_ok x.1) (sym q) ∙ ok))
      ]

-- An event that is not an update of the key, and at which no file of level 0 fails.
abbrev pub Leaves : Text → Event → Type 0
Leaves key (set_key w k value) = (text_eq k key ≡ false) × (w.build_failed ≡ none)
Leaves key (delete_key w k) = (text_eq k key ≡ false) × (w.build_failed ≡ none)
Leaves key (flush w) = w.build_failed ≡ none
Leaves key stop = Unit
Leaves key restart = Unit

-- A process that cannot open for a partial file; it stays so.
abbrev IsStuck : StorageEngine → Type 0
IsStuck e = (e.is_open ≡ false) × (e.partial_file ≡ true)

abbrev pub Holds : MemValue → Text → StorageEngine → Type 0
Holds v key e = IsStuck e ⊎ Current v key e

module _ (o : EngineOptions) where
  restarted-Current :
      (v : MemValue) (key : Text) (e : StorageEngine)
      → Sound e
      → Current v key e
      → Current v key (recovered o e)
  restarted-Current v key e s (l, shown) =
      let x = (replayed-logged o key e s).holds ∙ l in
      (
        l,
        inl (
          ap (λ y. or_else y (first_hit key e.l0_tables)) x,
          λ t. elim shown [
            | inl (n, f) ↦ f t
            | inr (n, f) ↦ f ∙ ap (λ b. if b then none else some v) t
          ],
        ),
      )

  step-Current :
      (v : MemValue) (key : Text) (ev : Event) (e : StorageEngine)
      → Leaves key ev
      → Sound e
      → Current v key e
      → Holds v key (step o ev e)
  unfolding step
  step-Current v key (set_key w k value) e h s c =
      inr (set_other-Current o w h.1 v key e k value h.0 s c)
  step-Current v key (delete_key w k) e h s c = inr (delete_other-Current o w h.1 v key e k h.0 s c)
  step-Current v key (flush w) e h s c = inr (flush-Current o w v key e h s c)
  step-Current v key stop e h s c = inr c
  step-Current v key restart e h s c = elim (restarted_cases o e s) [
    | inl (p, q) ↦ inl (subst IsStuck (ap (λ x. x.0) (sym q)) (refl, p))
    | inr (p, q) ↦
        inr (subst (Current v key) (ap (λ x. x.0) (sym q)) (restarted-Current v key e s c))
  ]

  update-IsStuck :
      (w : World) (finish : WalRecord → StorageEngine → StorageEngine × Status) (op : WalOp)
      (key value : Text) (e : StorageEngine)
      → IsStuck e
      → IsStuck (update o w finish op key value e).0
  update-IsStuck w finish op key value e h = elim (update_cases o w finish op key value e) [
    | inl (q, f) ↦ subst IsStuck (sym q) h
    | inr (up, rest) ↦ absurd (ground (arith, h.0, up))
  ]

  step-IsStuck : (ev : Event) (e : StorageEngine) → Sound e → IsStuck e → IsStuck (step o ev e)
  unfolding step set delete
  step-IsStuck (set_key w k value) e s h = update-IsStuck w (applied_set o w) kind_set k value e h
  step-IsStuck (delete_key w k) e s h = update-IsStuck w (applied_delete o w) kind_delete k [] e h
  step-IsStuck (flush w) e s h = subst IsStuck (sym (flush_closed o w e h.0)) h
  step-IsStuck stop e s h = (refl, h.1)
  step-IsStuck restart e s h = elim (restarted_cases o e s) [
    | inl (p, q) ↦ subst IsStuck (ap (λ x. x.0) (sym q)) (refl, h.1)
    | inr (p, q) ↦ absurd (ground (arith, h.1, p))
  ]

  step-Holds :
      (v : MemValue) (key : Text) (ev : Event) (e : StorageEngine)
      → Leaves key ev
      → Sound e
      → Holds v key e
      → Holds v key (step o ev e)
  step-Holds v key ev e h s (inl stuck) = inl (step-IsStuck ev e s stuck)
  step-Holds v key ev e h s (inr c) = step-Current v key ev e h s c

  pub run-Holds :
      (v : MemValue) (key : Text) (evs : List Event) (e : StorageEngine)
      → All (Leaves key) evs
      → Sound e
      → Holds v key e
      → Holds v key (run o evs e)
  run-Holds v key [] e h s c = c
  run-Holds v key (ev ∷ evs) e h s c =
      run-Holds v key evs (step o ev e) h.1 (step-Sound o ev e s) (step-Holds v key ev e h.0 s c)
