-- ===== src/Failover/Whole.antt =====
-- All that a watch can log whose polls come back one at a time, and its end.
use vault_vk.Common.{
  ℕ, zero, suc, ◌+◌, ◌<◌, ◌≡◌, refl, ap, ◌∙◌, true, false, List, [], ◌∷◌, Option, none, some, arith,
  length, inl, inr, Option-cases,
}
use vault_vk.Failover.Limit.{IsFresh}
use vault_vk.Failover.Defs.{
  Failover, EventRow, log_elected, log_timeout, new_leader, on_polled, found,
}
use vault_vk.Failover.Rounds.{Poll, rounds}
use vault_vk.Failover.Verdict.{
  tried, rounds_stopped, rounds_step, on_polled_nothing, on_polled_leader, on_polled_last,
}

module _ {N : Type 0} where
  -- The log after the polls, with this many that may still fail before the last: the first new leader
  -- ends it, and the last poll ends it with a timeout, after the election if it finds one.
  unfoldable pub verdict : Option ℕ → ℕ → List (Poll N) → List (EventRow N) → List (EventRow N)
  verdict prev n [] events = events
  verdict prev zero (p ∷ ps) events = elim (new_leader prev p.1) [
    | none ↦ log_timeout p.0 events
    | some id ↦ log_timeout p.0 (log_elected p.0 id events)
  ]
  verdict prev (suc n) (p ∷ ps) events =
      let rest = verdict prev n ps events in
      elim (new_leader prev p.1) [ none ↦ rest | some id ↦ log_elected p.0 id events ]

  -- A poll that ends the interval is the last.
  rounds_ending :
      (f g : Failover N) (p : Poll N) (ps : List (Poll N))
      → f.watch.polling ≡ true
      → on_polled p.0 p.1 f ≡ g
      → g.watch.polling ≡ false
      → rounds f (p ∷ ps) ≡ g
  rounds_ending f g p ps h e off =
      rounds_step f p ps h ∙ ap (λ g. rounds g ps) e ∙ rounds_stopped g ps off

  rounds_going_on :
      (f : Failover N) (p : Poll N) (ps : List (Poll N))
      → f.watch.polling ≡ true
      → new_leader f.watch.prev_leader p.1 ≡ none
      → f.watch.attempts < 20
      → rounds f (p ∷ ps) ≡ rounds (tried f) ps
  rounds_going_on f p ps h e l =
      rounds_step f p ps h ∙ ap (λ g. rounds g ps) (on_polled_nothing p.0 p.1 f e l)

  rounds-verdict :
      (n : ℕ) (f : Failover N) (ps : List (Poll N))
      → f.watch.polling ≡ true
      → f.watch.attempts + n ≡ 20
      → ((rounds f ps).events ≡ verdict f.watch.prev_leader n ps f.events)
        × (n < length ps → (rounds f ps).watch.polling ≡ false)
  unfolding verdict
  rounds-verdict n f [] h l = (refl, λ k. absurd (omega arith))
  rounds-verdict zero f (p ∷ ps) h l = elim (Option-cases (new_leader f.watch.prev_leader p.1)) [
    | inl e ↦
        let (events, off) = on_polled_last p.0 p.1 f none e (omega arith) in
        let s = rounds_ending f (on_polled p.0 p.1 f) p ps h refl off in
        rw (e, verdict) (ap (λ g. g.events) s ∙ events, λ k. ap (λ g. g.watch.polling) s ∙ off)
    | inr (id, e) ↦
        let (events, off) = on_polled_last p.0 p.1 f (some id) e (omega arith) in
        let s = rounds_ending f (on_polled p.0 p.1 f) p ps h refl off in
        rw (e, verdict) (ap (λ g. g.events) s ∙ events, λ k. ap (λ g. g.watch.polling) s ∙ off)
  ]
  rounds-verdict (suc n) f (p ∷ ps) h l = elim (Option-cases (new_leader f.watch.prev_leader p.1)) [
    | inl e ↦
        let s = rounds_going_on f p ps h e (omega arith) in
        let (events, ends) = rounds-verdict n (tried f) ps h (omega arith) in
        rw (e, verdict)
          (ap (λ g. g.events) s ∙ events, λ k. ap (λ g. g.watch.polling) s ∙ ends (omega arith))
    | inr (id, e) ↦
        let s =
          rounds_ending f (tried (found p.0 (some id) f)) p ps h
            (on_polled_leader p.0 p.1 f e (omega arith)) refl in
        rw (e, verdict) (ap (λ g. g.events) s, λ k. ap (λ g. g.watch.polling) s)
  ]

  -- Where each poll comes back before the next goes out, all that the watch adds to the log is one
  -- verdict: the election, at the first poll that finds a new leader, if that is one of the first
  -- twenty; a timeout at the 21st, if none of the 21 finds one; the election and then a timeout, if the
  -- 21st is the first; and nothing so far, if fewer polls are back and none of them finds one.
  pub fresh-verdict :
      (f : Failover N) (ps : List (Poll N))
      → IsFresh f.watch
      → (rounds f ps).events ≡ verdict f.watch.prev_leader 20 ps f.events
  fresh-verdict f ps v = (rounds-verdict 20 f ps v.1 (omega (arith, v.0))).0

  -- Where each poll comes back before the next goes out, the watch is over once 21 are back, whatever
  -- they find.
  pub fresh-ends :
      (f : Failover N) (ps : List (Poll N))
      → IsFresh f.watch
      → 20 < length ps
      → (rounds f ps).watch.polling ≡ false
  fresh-ends f ps v = (rounds-verdict 20 f ps v.1 (omega (arith, v.0))).1
