-- ===== src/Failover/Rounds.antt =====
-- Polls that come back one at a time, and the first of them that finds a new leader.
use vault_vk.Common.{
  ℕ, suc, ◌≡◌, refl, Bool, true, false, List, [], ◌∷◌, Option, none, some, arith, if◌then◌else◌,
}
use vault_vk.Store.Defs.{NodeMeta}
use vault_vk.Failover.Defs.{Failover, new_leader, on_polled, tick, polled, step, Reach, here, next}

-- A poll's reply, and the time when it comes.
abbrev pub Poll : Type 0 → Type 0
Poll N = N × Option (List (NodeMeta N))

-- The first poll that finds a new leader: its place, its time and the leader.
pub data Elects {N : Type 0} (prev : Option ℕ) : ℕ → N → ℕ → List (Poll N) → Type 0 where
  now :
      {ts : N} {reply : Option (List (NodeMeta N))} {id : ℕ} {ps : List (Poll N)}
      → new_leader prev reply ≡ some id
      → Elects prev 0 ts id ((ts, reply) ∷ ps)
  later :
      {k : ℕ} {ts : N} {id : ℕ} {p : Poll N} {ps : List (Poll N)}
      → new_leader prev p.1 ≡ none
      → Elects prev k ts id ps
      → Elects prev (suc k) ts id (p ∷ ps)

module _ {N : Type 0} where
  -- The polls of a quiet network: each comes back before the next goes out.
  abbrev pub rounds : Failover N → List (Poll N) → Failover N
  rounds f [] = f
  rounds f (p ∷ ps) =
      let rest = rounds (on_polled p.0 p.1 f) ps in if f.watch.polling then rest else f

  Reach-trans : {f g h : Failover N} → Reach f g → Reach g h → Reach f h
  Reach-trans r here = r
  Reach-trans r (next e s t) = next e (Reach-trans r s) t

  abbrev out : Failover N → Failover N
  out f = record f { watch = record f.watch { in_flight = suc f.watch.in_flight } }

  tick_step : (f : Failover N) → f.watch.polling ≡ true → step tick f ≡ some (out f)
  unfolding step
  tick_step f h = ground arith

  polled_step :
      (p : Poll N) (f : Failover N) → step (polled p.0 p.1) (out f) ≡ some (on_polled p.0 p.1 f)
  unfolding step
  polled_step p f = refl

  round-Reach :
      (p : Poll N) (f : Failover N) → f.watch.polling ≡ true → Reach f (on_polled p.0 p.1 f)
  round-Reach p f h =
      next (polled p.0 p.1) (next {h = out f} tick here (tick_step f h)) (polled_step p f)

  Reach-if : (b : Bool) (f g : Failover N) → (b ≡ true → Reach f g) → Reach f (if b then g else f)
  Reach-if true f g r = r refl
  Reach-if false f g r = here

  -- The rounds are steps of the watch.
  pub rounds-Reach : (ps : List (Poll N)) (f : Failover N) → Reach f (rounds f ps)
  rounds-Reach [] f = here
  rounds-Reach (p ∷ ps) f =
      Reach-if f.watch.polling f (rounds (on_polled p.0 p.1 f) ps)
        (λ h. Reach-trans (round-Reach p f h) (rounds-Reach ps (on_polled p.0 p.1 f)))
