-- ===== src/Store/EventLoop/Sticks.antt =====
-- A kill against the snapshots that come after it.
use vault_vk.Common.{
  ℕ, ◌==◌, ◌≡◌, ◌∙◌, Bool, true, false, ◌&&◌, ◌||◌, List, [], ◌∷◌, includes, All, arith, ◌++◌, map,
  refl, ap, if◌then◌else◌,
}
use vault_vk.Store.Defs.{NodeMeta, down, set_nodes}
use vault_vk.Store.Actions.{kill, restart}
use vault_vk.Store.Masking.{IsMasked, mask, apply_forced_down_lem}
use vault_vk.Store.EventLoop.{Loop, Event, snapshot, sample, status, start, answer, step, run}
use vault_vk.Store.EventLoop.Invariant.{Inv, run-Inv}
use vault_vk.Store.EventLoop.Forced.{after, held_by, IsAccepted, run-held_by}

module _ {N : Type 0} (a : ℕ) where
  -- No restart of the node starts.
  abbrev pub LeavesDown : Event N → Type 0
  LeavesDown (start restart id) = (id == a) ≡ false
  LeavesDown e = Unit

  -- The node is not in the list, or shown neither healthy nor as leader.
  abbrev pub IsShownDown : NodeMeta N → Type 0
  IsShownDown n = (n.node_id == a && (n.healthy || n.is_leader)) ≡ false

  held_by_stays :
      (held : ℕ → Bool) (es : List (Event N))
      → held a ≡ true
      → All LeavesDown es
      → held_by held es a ≡ true
  unfolding held_by
  held_by_stays held [] h ok = h
  held_by_stays held (snapshot nodes ∷ es) h ok = held_by_stays held es h ok.1
  held_by_stays held (sample pt ∷ es) h ok = held_by_stays held es h ok.1
  held_by_stays held (status s ∷ es) h ok = held_by_stays held es h ok.1
  held_by_stays held (answer place reply ∷ es) h ok = held_by_stays held es h ok.1
  held_by_stays held (start kill id ∷ es) h ok =
      held_by_stays (after kill id held) es (ground arith) ok.1
  held_by_stays held (start restart id ∷ es) h ok =
      held_by_stays (after restart id held) es (ground (arith, ok.0)) ok.1

  pub masked-IsShownDown :
      (forced : List ℕ) (nodes : List (NodeMeta N))
      → includes forced a ≡ true
      → All (IsMasked forced) nodes
      → All IsShownDown nodes
  masked-IsShownDown forced [] h m = tt
  masked-IsShownDown forced (n ∷ nodes) h m = (ground arith, masked-IsShownDown forced nodes h m.1)

-- The kill of a node outlasts every snapshot: from a loop that is in order, after the kill's start and
-- any events that refuse no action and start no restart of that node, each node with its id is shown
-- neither healthy nor as leader, whatever the gateway's snapshots say of it.
run-kill-AreShownDown :
    {N : Type 0} (l : Loop N) (a : ℕ) (es : List (Event N))
    → Inv l
    → All IsAccepted es
    → All (LeavesDown a) es
    → All (IsShownDown a) (run l (start kill a ∷ es)).store.nodes
unfolding held_by
run-kill-AreShownDown l a es v ok stays =
    let killed = start kill a ∷ es in
    masked-IsShownDown a (run l killed).store.forced_down_node_ids (run l killed).store.nodes
      (run-held_by l killed a (tt, ok)
        ∙ held_by_stays a (after kill a (includes l.store.forced_down_node_ids)) es (ground arith)
            stays)
      (run-Inv l killed v).now.masked

module _ {N : Type 0} where
  pub run-append : (l : Loop N) (es fs : List (Event N)) → run l (es ++ fs) ≡ run (run l es) fs
  unfolding run
  run-append l [] fs = refl
  run-append l (e ∷ es) fs = run-append (step l e) es fs

  map-mask :
      (forced : List ℕ) (held : ℕ → Bool) (nodes : List (NodeMeta N))
      → ((a : ℕ) → includes forced a ≡ held a)
      → map (mask forced) nodes ≡ map (λ n. if held n.node_id then down n else n) nodes
  map-mask forced held [] h = refl
  map-mask forced held (n ∷ nodes) h = rw (h n.node_id, map-mask forced held nodes h) refl

  -- Where no answer refuses its action, a snapshot that arrives after any events, in any order of
  -- starts and answers, is shown as it was sent, but for the nodes that the starts before it leave held
  -- down: those, whatever the gateway says of them, neither healthy nor as leader.
  pub run-snapshot :
      (l : Loop N) (es : List (Event N)) (nodes : List (NodeMeta N))
      → All IsAccepted es
      → (run l (es ++ snapshot nodes ∷ [])).store.nodes
        ≡ map
            (λ n.
              if held_by (includes l.store.forced_down_node_ids) es n.node_id then down n else n)
            nodes
  unfolding run step set_nodes
  run-snapshot l es nodes ok =
      ap (λ m. m.store.nodes) (run-append l es (snapshot nodes ∷ []))
      ∙ apply_forced_down_lem nodes (run l es).store.forced_down_node_ids
      ∙ map-mask (run l es).store.forced_down_node_ids
          (held_by (includes l.store.forced_down_node_ids) es) nodes (λ a. run-held_by l es a ok)
