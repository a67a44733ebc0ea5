-- ===== src/Failover/Limit.antt =====
-- When the watch stops, whatever the order in which its polls come back.
use vault_vk.Common.{
  ℕ, zero, suc, ◌≤◌, ◌≡◌, refl, ◌⊎◌, inr, true, false, ◌&&◌, List, Option, some, arith, is_some,
  subst,
}
use mathlib.Core.Option.{some-injective}
use vault_vk.Store.Defs.{NodeMeta}
use vault_vk.Failover.Defs.{
  EventRow, Reply, threw, answered, Watch, Failover, after_kill, counted, landed, on_polled, Event,
  tick, polled, step, Reach, here, next,
}

-- The watch of a kill that has just been answered.
abbrev pub IsFresh : Watch → Type 0
IsFresh w = (w.attempts ≡ 0) × (w.polling ≡ true) × (w.in_flight ≡ 0)

module _ {N : Type 0} where
  -- A watch begins exactly when the reply is ok and its body says so too; it begins with no attempt
  -- made and the interval running.
  pub after_kill_watches :
      (ts : N) (id : ℕ) (nodes : List (NodeMeta N)) (reply : Reply) (events : List (EventRow N))
      → (is_some (after_kill ts id nodes reply events).1
          ≡ elim reply [ threw message ↦ false | answered ok data_ok reason ↦ ok && data_ok ])
        × ((w : Watch) → (after_kill ts id nodes reply events).1 ≡ some w → IsFresh w)
  unfolding after_kill
  after_kill_watches ts id nodes (threw message) events = (refl, λ w e. absurd (ground arith))
  after_kill_watches ts id nodes (answered ok data_ok reason) events =
      (ground arith, λ w e. ground arith)

  -- While the interval runs, at most twenty polls have come back.
  abbrev pub IsLimited : Failover N → Type 0
  IsLimited f = (f.watch.polling ≡ false) ⊎ (f.watch.attempts ≤ 20)

  counted-IsLimited : (ts : N) (f : Failover N) → IsLimited (counted ts f)
  counted-IsLimited ts f = ground arith

  on_polled-IsLimited :
      (ts : N) (reply : Option (List (NodeMeta N))) (f : Failover N)
      → IsLimited (on_polled ts reply f)
  unfolding on_polled
  on_polled-IsLimited ts reply f = counted-IsLimited ts _

  landed-IsLimited :
      (n : ℕ) (ts : N) (reply : Option (List (NodeMeta N))) (f : Failover N) {g : Failover N}
      → landed n ts reply f ≡ some g
      → IsLimited g
  landed-IsLimited zero ts reply f h = absurd (ground arith)
  landed-IsLimited (suc n) ts reply f h =
      subst IsLimited (some-injective _ _ h) (on_polled-IsLimited ts reply _)

  pub step-IsLimited :
      (e : Event N) (f : Failover N) {g : Failover N}
      → IsLimited f
      → step e f ≡ some g
      → IsLimited g
  unfolding step
  step-IsLimited tick f v h = ground arith
  step-IsLimited (polled ts reply) f v h = landed-IsLimited f.watch.in_flight ts reply f h

  Reach-IsLimited : {f g : Failover N} → IsLimited f → Reach f g → IsLimited g
  Reach-IsLimited v here = v
  Reach-IsLimited v (next {g} {h} e r s) = step-IsLimited e g (Reach-IsLimited v r) s

  -- From a watch that has just begun, in whatever order its polls go out and come back: while the
  -- interval runs, at most twenty of them have come back.
  pub fresh-IsLimited : {f g : Failover N} → IsFresh f.watch → Reach f g → IsLimited g
  fresh-IsLimited v r = Reach-IsLimited (inr (omega (arith, v.0))) r
