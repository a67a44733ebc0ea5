-- ===== src/Explorers/Drain.antt =====
-- The end of all waiting calls of the page.
use vault_vk.Common.{ℕ, ◌≡◌, refl, false, List, [], ◌∷◌, map, arith, length}
use vault_vk.Explorers.Page.{Call, Clock, Outcome, Explorer, Event, answer, step, opening, run}
use vault_vk.Explorers.PageLog.{Accounts, run-opening-Accounts, run-Accounts}

module _ {N : Type 0} where
  -- The answers to the calls that wait, the oldest first.
  abbrev pub answers : List (Clock N × Outcome N) → List (Event N)
  answers = map (λ o. answer 0 o.0 o.1)

  step-pending :
      (e : Explorer N) (clock : Clock N) (outcome : Outcome N) (c : Call) (cs : List Call)
      → e.pending ≡ c ∷ cs
      → (step (answer 0 clock outcome) e).pending ≡ cs
  unfolding step
  step-pending e clock outcome c cs h = ground arith

  run-answers :
      (os : List (Clock N × Outcome N)) (e : Explorer N) (cs : List Call)
      → e.pending ≡ cs
      → length os ≡ length cs
      → (run e (answers os)).pending ≡ []
  run-answers [] e [] h k = h
  run-answers [] e (c ∷ cs) h k = absurd (omega arith)
  run-answers (o ∷ os) e [] h k = absurd (omega arith)
  run-answers (o ∷ os) e (c ∷ cs) h k =
      run-answers os (step (answer 0 o.0 o.1) e) cs (step-pending e o.0 o.1 c cs h) (omega arith)

  idle_of :
      (e : Explorer N) {log : _} {n : ℕ} → Accounts e log n → e.pending ≡ [] → e.loading ≡ false
  idle_of e v h = ground (arith, v.busy)

  -- From the opening of the page, after any events: once each call that waits has been answered, by a
  -- reply or an exception, no call waits and the page is not shown as loading.
  pub run-answers_idle :
      (es : List (Event N)) (os : List (Clock N × Outcome N))
      → length os ≡ length (run opening es).pending
      → let after = run (run opening es) (answers os) in
        (after.pending ≡ []) × (after.loading ≡ false)
  run-answers_idle es os k =
      let drained = run-answers os (run opening es) (run opening es).pending refl k in
      (
        drained,
        idle_of (run (run opening es) (answers os))
            (run-Accounts (answers os) (run opening es) _ _ (run-opening-Accounts es)) drained,
      )
