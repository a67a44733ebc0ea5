-- ===== src/Store/EventLoop/Forced.antt =====
-- What the forced list promises, with its order forgotten: the set of nodes held down, and for each
-- waiting action the set that a refusal puts back.
use mathlib.Core.Path.{fun_ext}
use mathlib.Core.Option.{some-injective}
use vault_vk.Common.{
  ℕ, zero, suc, ◌≡◌, refl, ap, ◌∙◌, inl, inr, Bool, true, false, ◌==◌, ◌||◌, List, [], ◌∷◌, ◌++◌,
  map, none, some, get_elem?, remove_at, includes, includes-with_id, includes-without,
  if◌then◌else◌, All, Option-cases, arith,
}
use vault_vk.Store.Defs.{ClusterState, set_nodes, push_metrics, set_status}
use vault_vk.Store.Actions.{
  Action, kill, restart, Reply, outcome, begin, begin_kill, begin_restart, settle,
}
use vault_vk.Store.EventLoop.{
  Pending, Loop, Event, snapshot, sample, status, start, answer, step, run,
}

-- A waiting action with the set of its start, and the set held down now.
pub record Kept : Type 0 where
  pub action : Action
  pub back : ℕ → Bool

pub record HeldDown : Type 0 where
  pub held : ℕ → Bool
  pub waiting : List Kept

abbrev pub after : Action → ℕ → (ℕ → Bool) → ℕ → Bool
after kill id held a = held a || id == a
after restart id held a = if id == a then false else held a

module _ {N : Type 0} where
  abbrev set_of : ClusterState N → ℕ → Bool
  set_of s a = includes s.forced_down_node_ids a

  abbrev kept_of : Pending N → Kept
  kept_of p = record { action = p.action; back = set_of p.previous }

  abbrev pub held_down : Loop N → HeldDown
  held_down l = record { held = set_of l.store; waiting = map kept_of l.pending }

  -- The events on the sets alone. A snapshot, a sample and a status are not seen.
  unfoldable pub held_step : HeldDown → Event N → HeldDown
  held_step h (start action id) = record {
    held = after action id h.held;
    waiting = h.waiting ++ record { action = action; back = h.held } ∷ [];
  }
  held_step h (answer place reply) = elim (get_elem? h.waiting place) [
    | none ↦ h
    | some k ↦ record {
      held = if (outcome k.action reply).ok then h.held else k.back;
      waiting = remove_at place h.waiting;
    }
  ]
  held_step h e = h

  pub held_run : HeldDown → List (Event N) → HeldDown
  held_run h [] = h
  held_run h (e ∷ es) = held_run (held_step h e) es

  set_of-begin :
      (action : Action) (id : ℕ) (s : ClusterState N)
      → set_of (begin action id s) ≡ after action id (set_of s)
  unfolding begin begin_kill begin_restart
  set_of-begin kill id s = fun_ext (includes-with_id id s.forced_down_node_ids)
  set_of-begin restart id s = fun_ext λ a. includes-without id a s.forced_down_node_ids

  set_of-settle :
      (action : Action) (previous : ClusterState N) (reply : Reply) (s : ClusterState N)
      → set_of (settle action previous reply s).0
        ≡ (if (outcome action reply).ok then set_of s else set_of previous)
  unfolding settle
  set_of-settle action previous reply s = ground arith

module _ {ℓ κ} {A : Type ℓ} {B : Type κ} (f : A → B) where
  map-concat : (xs : List A) (x : A) → map f (xs ++ x ∷ []) ≡ map f xs ++ f x ∷ []
  map-concat [] x = refl
  map-concat (y ∷ xs) x = ap (◌∷◌ (f y)) (map-concat xs x)

  map-remove_at : (n : ℕ) (xs : List A) → map f (remove_at n xs) ≡ remove_at n (map f xs)
  map-remove_at n [] = ground arith
  map-remove_at zero (x ∷ xs) = refl
  map-remove_at (suc n) (x ∷ xs) = ap (◌∷◌ (f x)) (map-remove_at n xs)

  none_at_map : (n : ℕ) (xs : List A) → get_elem? xs n ≡ none → get_elem? (map f xs) n ≡ none
  none_at_map n [] h = ground arith
  none_at_map zero (x ∷ xs) h = cc
  none_at_map (suc n) (x ∷ xs) h = none_at_map n xs h

  some_at_map :
      (n : ℕ) (xs : List A) {a : A} → get_elem? xs n ≡ some a → get_elem? (map f xs) n ≡ some (f a)
  some_at_map n [] h = cc
  some_at_map zero (x ∷ xs) {a} h = ap (λ b. some (f b)) (some-injective x a h)
  some_at_map (suc n) (x ∷ xs) h = some_at_map n xs h

module _ {N : Type 0} where
  pub step-held : (l : Loop N) (e : Event N) → held_down (step l e) ≡ held_step (held_down l) e
  unfolding step held_step set_nodes push_metrics set_status
  step-held l (snapshot nodes) = refl
  step-held l (sample pt) = refl
  step-held l (status s) = refl
  step-held l (start action id) =
      rw (set_of-begin action id l.store, map-concat kept_of l.pending) refl
  step-held l (answer place reply) = elim (Option-cases (get_elem? l.pending place)) [
    | inl e ↦ rw (e, step, none_at_map kept_of place l.pending e, held_step) refl
    | inr (p, e) ↦
        rw
          (
            e,
            step,
            some_at_map kept_of place l.pending e,
            held_step,
            set_of-settle p.action p.previous reply l.store,
            map-remove_at kept_of place l.pending,
          )
          refl
  ]

  -- From any state, after any events in any order, the forced list and what each waiting action would
  -- put back, taken as sets of nodes, are what the same events make of the sets alone: a kill adds its
  -- node, a restart takes it away, a refusal puts the set of its action's start back, an accepted
  -- answer leaves it, and nothing else changes it.
  pub run-held :
      (l : Loop N) (es : List (Event N)) → held_down (run l es) ≡ held_run (held_down l) es
  unfolding run held_run
  run-held l [] = refl
  run-held l (e ∷ es) = run-held (step l e) es ∙ ap (λ h. held_run h es) (step-held l e)

  -- The starts alone, in order.
  unfoldable pub held_by : (ℕ → Bool) → List (Event N) → ℕ → Bool
  held_by held [] = held
  held_by held (start action id ∷ es) = held_by (after action id held) es
  held_by held (e ∷ es) = held_by held es

  -- No answer refuses its action, whichever of the two it is.
  abbrev pub IsAccepted : Event N → Type 0
  IsAccepted (answer place reply) = (a : Action) → (outcome a reply).ok ≡ true
  IsAccepted e = Unit

pub answer-held :
    (N : Type 0) (h : HeldDown) (place : ℕ) (reply : Reply)
    → ((a : Action) → (outcome a reply).ok ≡ true)
    → (held_step {N = N} h (answer place reply)).held ≡ h.held
unfolding held_step
answer-held N h place reply ok = elim (Option-cases (get_elem? h.waiting place)) [
  | inl e ↦ rw (e, held_step) refl
  | inr (k, e) ↦ rw (e, held_step, ok k.action) refl
]

module _ {N : Type 0} where
  held_run_of_accepted :
      (h : HeldDown) (es : List (Event N))
      → All IsAccepted es
      → (held_run h es).held ≡ held_by h.held es
  unfolding held_run held_by held_step
  held_run_of_accepted h [] ok = refl
  held_run_of_accepted h (snapshot nodes ∷ es) ok = held_run_of_accepted h es ok.1
  held_run_of_accepted h (sample pt ∷ es) ok = held_run_of_accepted h es ok.1
  held_run_of_accepted h (status s ∷ es) ok = held_run_of_accepted h es ok.1
  held_run_of_accepted h (start action id ∷ es) ok =
      held_run_of_accepted (held_step {N = N} h (start action id)) es ok.1
  held_run_of_accepted h (answer place reply ∷ es) ok =
      held_run_of_accepted (held_step {N = N} h (answer place reply)) es ok.1
      ∙ ap (λ f. held_by f es) (answer-held N h place reply ok.0)

  -- Where no answer refuses its action, the nodes held down after any events, in any order of starts
  -- and answers, are those that the starts alone make: a node is on the forced list exactly if the
  -- last action started on it was a kill, or none was and it was on the list before.
  pub run-held_by :
      (l : Loop N) (es : List (Event N)) (a : ℕ)
      → All IsAccepted es
      → includes (run l es).store.forced_down_node_ids a
        ≡ held_by (includes l.store.forced_down_node_ids) es a
  run-held_by l es a ok =
      ap (λ h. h.held a) (run-held l es) ∙ ap (λ f. f a) (held_run_of_accepted (held_down l) es ok)
