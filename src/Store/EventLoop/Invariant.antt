-- ===== src/Store/EventLoop/Invariant.antt =====
-- What holds of the store between any two steps, whatever runs while actions wait.
use vault_vk.Common.{
  ℕ, ◌≡◌, refl, ap, ◌∙◌, inl, inr, List, [], ◌∷◌, ◌++◌, append-nil, append_assoc, arith, get_elem?,
  slice_last, push-slice_last, All, All-append, All-remove_at, All-get_elem?, Option-cases,
}
use vault_vk.Store.Defs.{MetricsPoint, ClusterState, initial, set_nodes, push_metrics, set_status}
use vault_vk.Store.Actions.{Action, kill, restart, Reply, begin, begin_kill, begin_restart, settle}
use vault_vk.Store.Masking.{IsConsistent, set_nodes-IsConsistent, begin-IsConsistent}
use vault_vk.Store.EventLoop.{
  Pending, Loop, Event, snapshot, sample, status, start, answer, step, run,
}

module _ {N : Type 0} where
  abbrev IsConsistentState : ClusterState N → Type 0
  IsConsistentState s = IsConsistent s.nodes s.forced_down_node_ids

  -- The store is consistent, and so is every state that a waiting action may put back.
  pub record Inv (l : Loop N) : Type 0 where
    pub now : IsConsistentState l.store
    pub kept : All (λ p. IsConsistentState p.previous) l.pending

  settle-IsConsistent :
      (p : Pending N) (reply : Reply) (s : ClusterState N)
      → IsConsistentState p.previous
      → IsConsistentState s
      → IsConsistentState (settle p.action p.previous reply s).0
  unfolding settle
  settle-IsConsistent p reply s h k = ground arith

  step-Inv : (l : Loop N) (e : Event N) → Inv l → Inv (step l e)
  unfolding step set_nodes push_metrics set_status
  step-Inv l (snapshot nodes) v = record {
    now = set_nodes-IsConsistent nodes l.store.forced_down_node_ids v.now.distinct;
    kept = v.kept;
  }
  step-Inv l (sample pt) v = record { now = v.now; kept = v.kept }
  step-Inv l (status s) v = record { now = v.now; kept = v.kept }
  step-Inv l (start action id) v = record {
    now = begin-IsConsistent action id l.store v.now;
    kept = All-append (λ p. IsConsistentState p.previous) l.pending _ v.kept (v.now, tt);
  }
  step-Inv l (answer place reply) v = elim (Option-cases (get_elem? l.pending place)) [
    | inl e ↦ rw (e, step) v
    | inr (p, e) ↦
        rw (e, step)
          (record {
            now =
                settle-IsConsistent p reply l.store
                  (All-get_elem? (λ p. IsConsistentState p.previous) place l.pending v.kept e)
                  v.now;
            kept = All-remove_at (λ p. IsConsistentState p.previous) place l.pending v.kept;
          })
  ]

  pub run-Inv : (l : Loop N) (es : List (Event N)) → Inv l → Inv (run l es)
  unfolding run
  run-Inv l [] v = v
  run-Inv l (e ∷ es) v = run-Inv (step l e) es (step-Inv l e v)

  -- The samples among the events.
  abbrev pub samples : List (Event N) → List (MetricsPoint N)
  samples [] = []
  samples (sample pt ∷ es) = pt ∷ samples es
  samples (e ∷ es) = samples es

  history-begin :
      (action : Action) (id : ℕ) (s : ClusterState N) → (begin action id s).history ≡ s.history
  unfolding begin begin_kill begin_restart
  history-begin kill id s = refl
  history-begin restart id s = refl

  history-settle :
      (action : Action) (previous : ClusterState N) (reply : Reply) (s : ClusterState N)
      → (settle action previous reply s).0.history ≡ s.history
  unfolding settle
  history-settle action previous reply s = ground arith

  history-answer :
      (l : Loop N) (place : ℕ) (reply : Reply)
      → (step l (answer place reply)).store.history ≡ l.store.history
  unfolding step
  history-answer l place reply = elim (Option-cases (get_elem? l.pending place)) [
    | inl e ↦ rw (e, step) refl
    | inr (p, e) ↦ rw (e, step) (history-settle p.action p.previous reply l.store)
  ]

  -- One step appends the event's sample, if it has one, and cuts to the newest 120.
  step-history :
      (l : Loop N) (e : Event N) (past : List (MetricsPoint N))
      → l.store.history ≡ slice_last 120 past
      → (step l e).store.history ≡ slice_last 120 (past ++ samples (e ∷ []))
  unfolding step set_nodes push_metrics set_status
  step-history l (snapshot nodes) past h = rw append-nil h
  step-history l (sample pt) past h =
      ap (λ xs. slice_last 119 xs ++ pt ∷ []) h ∙ push-slice_last 119 past pt
  step-history l (status s) past h = rw append-nil h
  step-history l (start action id) past h = rw append-nil (history-begin action id l.store ∙ h)
  step-history l (answer place reply) past h = rw append-nil (history-answer l place reply ∙ h)

  samples-cons :
      (e : Event N) (es : List (Event N)) → samples (e ∷ []) ++ samples es ≡ samples (e ∷ es)
  samples-cons (snapshot nodes) es = refl
  samples-cons (sample pt) es = refl
  samples-cons (status s) es = refl
  samples-cons (start action id) es = refl
  samples-cons (answer place reply) es = refl

  run-history :
      (l : Loop N) (es : List (Event N)) (past : List (MetricsPoint N))
      → l.store.history ≡ slice_last 120 past
      → (run l es).store.history ≡ slice_last 120 (past ++ samples es)
  unfolding run
  run-history l [] past h = rw append-nil h
  run-history l (e ∷ es) past h =
      run-history (step l e) es (past ++ samples (e ∷ [])) (step-history l e past h)
      ∙ ap (slice_last 120)
          (append_assoc past (samples (e ∷ [])) (samples es) ∙ ap (◌++◌ past) (samples-cons e es))

module _ {N : Type 0} (num : ℕ → N) where
  -- The page when it opens.
  abbrev pub opening : Loop N
  opening = record { store = initial num; pending = [] }

  opening-Inv : Inv opening
  unfolding initial
  opening-Inv = record {
    now = record { masked = (refl, (refl, (refl, tt))); distinct = tt };
    kept = tt;
  }

  -- From the opening state, after any events in any order, with any actions waiting: a node on the
  -- forced list is shown neither healthy nor as leader, the forced list names no node twice, and the
  -- same holds of every state that a waiting action may put back.
  pub run-opening-Inv : (es : List (Event N)) → Inv (run opening es)
  run-opening-Inv es = run-Inv opening es opening-Inv

  -- From the opening state, after any events, the history is the newest 120 of the samples that were
  -- pushed, oldest first, whatever else ran.
  pub run-opening-history :
      (es : List (Event N)) → (run opening es).store.history ≡ slice_last 120 (samples es)
  unfolding initial
  run-opening-history es = run-history opening es [] refl
