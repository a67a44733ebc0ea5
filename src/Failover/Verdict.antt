-- ===== src/Failover/Verdict.antt =====
-- What a watch logs whose polls come back one at a time, and when two of them overlap.
use vault_vk.Common.{
  ℕ, zero, suc, ◌+◌, ◌<◌, ◌≡◌, refl, ap, ◌∙◌, true, false, List, [], ◌∷◌, Option, none, some, arith,
  length, if◌then◌else◌, All,
}
use vault_vk.Store.Defs.{NodeMeta}
use vault_vk.Failover.Limit.{IsFresh}
use vault_vk.Failover.Defs.{Failover, log_elected, log_timeout, new_leader, on_polled, found}
use vault_vk.Failover.Rounds.{Poll, Elects, now, later, rounds}

module _ {N : Type 0} where
  abbrev pub tried : Failover N → Failover N
  tried f = record f { watch = record f.watch { attempts = f.watch.attempts + 1 } }

  pub rounds_stopped :
      (f : Failover N) (ps : List (Poll N)) → f.watch.polling ≡ false → rounds f ps ≡ f
  rounds_stopped f [] h = refl
  rounds_stopped f (p ∷ ps) h = ground arith

  pub on_polled_nothing :
      (ts : N) (reply : Option (List (NodeMeta N))) (f : Failover N)
      → new_leader f.watch.prev_leader reply ≡ none
      → f.watch.attempts < 20
      → on_polled ts reply f ≡ tried f
  unfolding on_polled
  on_polled_nothing ts reply f e h = rw e (ground arith)

  pub on_polled_leader :
      (ts : N) (reply : Option (List (NodeMeta N))) (f : Failover N) {id : ℕ}
      → new_leader f.watch.prev_leader reply ≡ some id
      → f.watch.attempts < 20
      → on_polled ts reply f ≡ tried (found ts (some id) f)
  unfolding on_polled
  on_polled_leader ts reply f e h = rw e (ground arith)

  -- The last poll that is waited for.
  pub on_polled_last :
      (ts : N) (reply : Option (List (NodeMeta N))) (f : Failover N) (o : Option ℕ)
      → new_leader f.watch.prev_leader reply ≡ o
      → f.watch.attempts ≡ 20
      → ((on_polled ts reply f).events ≡ log_timeout ts (found ts o f).events)
        × ((on_polled ts reply f).watch.polling ≡ false)
  unfolding on_polled
  on_polled_last ts reply f none e h = rw e (ground arith)
  on_polled_last ts reply f (some id) e h = rw e (ground arith)

  pub rounds_step :
      (f : Failover N) (p : Poll N) (ps : List (Poll N))
      → f.watch.polling ≡ true
      → rounds f (p ∷ ps) ≡ rounds (on_polled p.0 p.1 f) ps
  rounds_step f p ps h = rw (h, if◌then◌else◌) refl

  looks :
      {p q : Option ℕ} (reply : Option (List (NodeMeta N))) {o : Option ℕ}
      → p ≡ q
      → new_leader q reply ≡ o
      → new_leader p reply ≡ o
  looks reply h e = ap (λ q. new_leader q reply) h ∙ e

  elected :
      {prev : Option ℕ} {k : ℕ} {ts : N} {id : ℕ} {ps : List (Poll N)}
      → Elects prev k ts id ps
      → (f : Failover N) → f.watch.prev_leader ≡ prev
      → f.watch.polling ≡ true
      → f.watch.attempts + k < 20
      → (rounds f ps).events ≡ log_elected ts id f.events
  elected (now {ts} {reply} {id} {ps} e) f q h l =
      ap (λ g. g.events)
        (rounds_step f (ts, reply) ps h
          ∙ ap (λ g. rounds g ps) (on_polled_leader ts reply f (looks reply q e) (omega (arith, l)))
          ∙ rounds_stopped (tried (found ts (some id) f)) ps refl)
  elected (later {k} {ts} {id} {p} {ps} e r) f q h l =
      ap (λ g. g.events)
        (rounds_step f p ps h
          ∙ ap (λ g. rounds g ps) (on_polled_nothing p.0 p.1 f (looks p.1 q e) (omega (arith, l))))
      ∙ elected r (tried f) q h (omega (arith, l))

  elected_last :
      {prev : Option ℕ} {k : ℕ} {ts : N} {id : ℕ} {ps : List (Poll N)}
      → Elects prev k ts id ps
      → (f : Failover N) → f.watch.prev_leader ≡ prev
      → f.watch.polling ≡ true
      → f.watch.attempts + k ≡ 20
      → (rounds f ps).events ≡ log_timeout ts (log_elected ts id f.events)
  elected_last (now {ts} {reply} {id} {ps} e) f q h l =
      let (events, off) =
        on_polled_last ts reply f (some id) (looks reply q e) (omega (arith, l)) in
      ap (λ g. g.events)
        (rounds_step f (ts, reply) ps h ∙ rounds_stopped (on_polled ts reply f) ps off)
      ∙ events
  elected_last (later {k} {ts} {id} {p} {ps} e r) f q h l =
      ap (λ g. g.events)
        (rounds_step f p ps h
          ∙ ap (λ g. rounds g ps) (on_polled_nothing p.0 p.1 f (looks p.1 q e) (omega (arith, l))))
      ∙ elected_last r (tried f) q h (omega (arith, l))

  abbrev pub FindsNone : Option ℕ → Poll N → Type 0
  FindsNone prev p = new_leader prev p.1 ≡ none

  timed_out :
      (n : ℕ) (f : Failover N) (ps : List (Poll N))
      → All (FindsNone f.watch.prev_leader) ps
      → f.watch.polling ≡ true
      → f.watch.attempts + n ≡ 20
      → n < length ps
      → (ts : N) × ((rounds f ps).events ≡ log_timeout ts f.events)
  timed_out n f [] a h l k = absurd (omega arith)
  timed_out zero f (p ∷ ps) a h l k =
      let (events, off) = on_polled_last p.0 p.1 f none a.0 (omega arith) in
      (
        p.0,
        ap (λ g. g.events) (rounds_step f p ps h ∙ rounds_stopped (on_polled p.0 p.1 f) ps off)
            ∙ events,
      )
  timed_out (suc n) f (p ∷ ps) a h l k =
      let (ts, e) = timed_out n (tried f) ps a.1 h (omega arith) (omega arith) in
      (
        ts,
        ap (λ g. g.events)
              (rounds_step f p ps h
                ∙ ap (λ g. rounds g ps) (on_polled_nothing p.0 p.1 f a.0 (omega arith)))
            ∙ e,
      )

  -- Where each poll comes back before the next goes out, and one of the first twenty is the first to
  -- find a new leader, the watch logs that election, once, and nothing else.
  pub fresh_elected :
      {k : ℕ} {ts : N} {id : ℕ} {ps : List (Poll N)} (f : Failover N)
      → IsFresh f.watch
      → Elects f.watch.prev_leader k ts id ps
      → k < 20
      → (rounds f ps).events ≡ log_elected ts id f.events
  fresh_elected f v r l = elected r f refl v.1 (omega (arith, v.0))

  -- Where each poll comes back before the next goes out, and at least 21 do with no new leader in any,
  -- the watch logs one timeout and nothing else.
  pub fresh_timed_out :
      (f : Failover N) (ps : List (Poll N))
      → IsFresh f.watch
      → All (FindsNone f.watch.prev_leader) ps
      → 20 < length ps
      → (ts : N) × ((rounds f ps).events ≡ log_timeout ts f.events)
  fresh_timed_out f ps v a l = timed_out 20 f ps a v.1 (omega (arith, v.0)) l

  -- Where each poll comes back before the next goes out, and the 21st is the first to find a new
  -- leader, the watch logs the election and then a timeout as well.
  pub fresh_elected_last :
      {ts : N} {id : ℕ} {ps : List (Poll N)} (f : Failover N)
      → IsFresh f.watch
      → Elects f.watch.prev_leader 20 ts id ps
      → (rounds f ps).events ≡ log_timeout ts (log_elected ts id f.events)
  fresh_elected_last f v r = elected_last r f refl v.1 (omega (arith, v.0))

  -- Polls are not waited for: where two that are out at once both find the new leader, before the last
  -- attempts, the election is logged twice.
  pub election_logged_twice :
      (ts ts' : N) (reply reply' : Option (List (NodeMeta N))) (f : Failover N) {id : ℕ}
      → new_leader f.watch.prev_leader reply ≡ some id
      → new_leader f.watch.prev_leader reply' ≡ some id
      → f.watch.attempts < 19
      → (on_polled ts' reply' (on_polled ts reply f)).events
        ≡ log_elected ts' id (log_elected ts id f.events)
  election_logged_twice ts ts' reply reply' f {id} e e' l =
      ap (λ g. (on_polled ts' reply' g).events) (on_polled_leader ts reply f e (omega arith))
      ∙ ap (λ g. g.events)
          (on_polled_leader ts' reply' (tried (found ts (some id) f)) e' (omega arith))
