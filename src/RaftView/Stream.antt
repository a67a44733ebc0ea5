-- ===== src/RaftView/Stream.antt =====
-- What the consensus stream tells of the store.
use vault_vk.Common.{
  ℕ, ◌≡◌, refl, Bool, List, [], ◌∷◌, Option, none, some, take, length, length-append,
  length-remove_at, get_elem?, get_elem?_of_lt, zero, suc, ◌<◌, arith, if◌then◌else◌,
}
use vault_vk.Text.{Text, codes, starts_with}
use vault_vk.Store.Defs.{ClusterState}
use vault_vk.Store.Actions.{
  Action, kill, restart, Reply, NodeActionResult, outcome, begin, begin_kill, begin_restart, settle,
  kill_node, restart_node,
}
use vault_vk.Store.EventLoop as EventLoop
use vault_vk.Store.EventLoop.{Loop, Pending}
use vault_vk.RaftView.Defs.{
  RaftView, Event, clicked, answered, snapshot, line, push, step, run, mounted, clicked_on, told,
  answered_at,
}

-- A line says that the action was done if it begins with the node.
abbrev pub says_done : Text → Bool
says_done l = starts_with (codes "Node ") l

line-ok :
    (action : Action) (id : ℕ) (result : NodeActionResult)
    → says_done (line action id result) ≡ result.ok
unfolding line starts_with
line-ok kill id result = ground arith
line-ok restart id result = ground arith

lt_of_get_elem? :
    {A : Type 0} (n : ℕ) (xs : List A) {a : A} → get_elem? xs n ≡ some a → n < length xs
lt_of_get_elem? n [] e = cc
lt_of_get_elem? zero (x ∷ xs) e = omega arith
lt_of_get_elem? (suc n) (x ∷ xs) e = omega (arith, lt_of_get_elem? n xs e)

module _ {N : Type 0} where
  abbrev acted : Action → ℕ → Reply → ClusterState N → ClusterState N × NodeActionResult
  acted kill id reply s = kill_node id reply s
  acted restart id reply s = restart_node id reply s

  -- Where nothing else runs while the action waits, the line that the stream adds tells the store: if
  -- it begins with the node, the store has the action's change, and if not, it is as before the click.
  pub line_tells :
      (action : Action) (id : ℕ) (reply : Reply) (s : ClusterState N)
      → let a = acted action id reply s in
        a.0 ≡ (if says_done (line action id a.1) then begin action id s else s)
  unfolding kill_node restart_node settle begin begin_kill begin_restart
  line_tells kill id reply s = rw (line-ok kill id (outcome kill reply)) (ground arith)
  line_tells restart id reply s = rw (line-ok restart id (outcome restart reply)) (ground arith)

  abbrev IsPaired : RaftView N → Type 0
  IsPaired v = length v.ids ≡ length v.loop.pending

  answered-IsPaired :
      (place : ℕ) (reply : Reply) (o : Option (Pending N)) (i : Option ℕ) (v : RaftView N)
      → get_elem? v.loop.pending place ≡ o
      → get_elem? v.ids place ≡ i
      → IsPaired v
      → IsPaired (answered_at place reply o i v)
  unfolding told EventLoop.step
  answered-IsPaired place reply (some p) (some id) v e k h =
      rw (e, EventLoop.step)
        (omega (arith, length-remove_at place v.loop.pending e, length-remove_at place v.ids k))
  answered-IsPaired place reply (some p) none v e k h = h
  answered-IsPaired place reply none i v e k h = h

  step-IsPaired : (e : Event N) (v : RaftView N) → IsPaired v → IsPaired (step e v)
  unfolding step clicked_on EventLoop.step
  step-IsPaired (clicked action node) v h = ground (
    arith,
    length-append v.loop.pending (record { action = action; previous = v.loop.store } ∷ []),
    length-append v.ids (node.node_id ∷ []),
  )
  step-IsPaired (answered place reply) v h = answered-IsPaired place reply _ _ v refl refl h
  step-IsPaired (snapshot nodes) v h = h

  run-IsPaired : (es : List (Event N)) (v : RaftView N) → IsPaired v → IsPaired (run v es)
  run-IsPaired [] v h = h
  run-IsPaired (e ∷ es) v h = run-IsPaired es (step e v) (step-IsPaired e v h)

  mounted-IsPaired : (l : Loop N) → IsPaired (mounted l)
  unfolding mounted
  mounted-IsPaired l = refl

  -- The nodes and the forced list of a call's start, put back.
  abbrev pub restored : ClusterState N → ClusterState N → ClusterState N
  restored previous s = record s {
    nodes = previous.nodes;
    forced_down_node_ids = previous.forced_down_node_ids;
  }

  -- What an answer adds to the stream, and what that tells of the store.
  abbrev pub Tells : Pending N → RaftView N → RaftView N → Type 0
  Tells p v w =
      (t : Text) × (w.events ≡ t ∷ take 29 v.events)
      × (w.loop.store ≡ (if says_done t then v.loop.store else restored p.previous v.loop.store))

  told-Tells :
      (place : ℕ) (reply : Reply) (p : Pending N) (id : ℕ) (v : RaftView N)
      → get_elem? v.loop.pending place ≡ some p
      → Tells p v (told place reply p id v)
  unfolding told push EventLoop.step settle
  told-Tells place reply p id v e = (
    line p.action id (outcome p.action reply),
    refl,
    rw (e, EventLoop.step, line-ok p.action id (outcome p.action reply)) (ground arith),
  )

  answered-Tells :
      (place : ℕ) (reply : Reply) (p : Pending N) (v : RaftView N)
      → IsPaired v
      → get_elem? v.loop.pending place ≡ some p
      → Tells p v (step (answered place reply) v)
  unfolding step
  answered-Tells place reply p v h e =
      let k =
        get_elem?_of_lt v.ids place (omega (arith, h, lt_of_get_elem? place v.loop.pending e)) in
      rw (e, k.1) (told-Tells place reply p k.0 v e)

  -- However the calls of the view overlap with each other and with snapshots: when a waiting call is
  -- answered, the stream takes one line, on top, and that line tells the store. If it begins with the
  -- node, the answer has changed nothing, and if not, the nodes and the forced list are those of the
  -- call's start again.
  pub run-Tells :
      (l : Loop N) (es : List (Event N)) (place : ℕ) (reply : Reply) (p : Pending N)
      → get_elem? (run (mounted l) es).loop.pending place ≡ some p
      → Tells p (run (mounted l) es) (step (answered place reply) (run (mounted l) es))
  run-Tells l es place reply p e =
      answered-Tells place reply p (run (mounted l) es)
        (run-IsPaired es (mounted l) (mounted-IsPaired l)) e
