-- ===== src/Feed/Recovery.antt =====
-- What the browser can still lead to: a new connection of the mounted hook, and the end of one that
-- is disposed.
use vault_vk.Feed.Invariant.{Shows}
use vault_vk.Common.{subst, ◌≤◌, ◌≡◌, refl, inl, inr, true, false, none, some, arith}
use vault_vk.Numbers.Defs.{Arith}
use vault_vk.Store.Defs.{connecting, opened, closed, set_status}
use vault_vk.Metrics.Consume.{Console}
use vault_vk.Feed.Defs.{
  Socket, absent, dialling, up, closing, gone, Feed, Event, opens, fails, closes, message, fetched,
  reconnect_fires, poll_fires, unmounts, report, mount, step, Reach, here, next,
}
use vault_vk.Feed.Invariant.{
  IsSound, Mounted, Disposed, mount-Reach-IsSound, ws_status-consume_snapshot,
}

module _ (F : Arith) where
  open F use {Num, nat}

  abbrev pub Connects : Feed Num → Type 0
  Connects f = (g : Feed Num) × Reach F f g × (g.socket ≡ up) × (g.console.store.ws_status ≡ opened)

  -- What an attempt to connect leaves, and what it comes to when it succeeds.
  abbrev dialled : Feed Num → Feed Num
  dialled f = record (report connecting f) { socket = dialling; reconnect_armed = false }

  abbrev linked : Feed Num → Feed Num
  linked f = record (report opened f) { socket = up }

  opens_step : (f : Feed Num) → f.socket ≡ dialling → step F (nat 0) opens f ≡ some (linked f)
  unfolding step
  opens_step f h = ground arith

  reconnect_step :
      (f : Feed Num)
      → f.disposed ≡ false
      → f.reconnect_armed ≡ true
      → step F (nat 0) reconnect_fires f ≡ some (dialled f)
  unfolding step
  reconnect_step f d h = ground arith

  abbrev lost : Feed Num → Feed Num
  lost f = record (report closed f) { socket = gone; reconnect_armed = true }

  closes_step :
      (f : Feed Num)
      → f.disposed ≡ false
      → f.socket ≡ closing
      → step F (nat 0) closes f ≡ some (lost f)
  unfolding step
  closes_step f d h = ground arith

  from_timer :
      (f g : Feed Num) → Reach F f g → g.disposed ≡ false → g.reconnect_armed ≡ true → Connects f
  unfolding set_status
  from_timer f g r d h = (
    linked (dialled g),
    next (nat 0) opens (next (nat 0) reconnect_fires r (reconnect_step g d h))
        (opens_step (dialled g) refl),
    refl,
    refl,
  )

  Connects-at :
      (s : Socket) (f : Feed Num) → f.socket ≡ s → f.disposed ≡ false → Mounted f → Connects f
  unfolding set_status
  Connects-at absent f e d v = absurd (subst (λ t. Shows t f.console.store.ws_status) e v.2)
  Connects-at dialling f e d v = (linked f, next (nat 0) opens here (opens_step f e), refl, refl)
  Connects-at up f e d v = (f, here, e, subst (λ t. Shows t f.console.store.ws_status) e v.2)
  Connects-at closing f e d v =
      from_timer f (lost f) (next (nat 0) closes here (closes_step f d e)) d refl
  Connects-at gone f e d v = from_timer f f here d (ground arith)

  pub IsSound-Connects : (f : Feed Num) → IsSound f → f.disposed ≡ false → Connects f
  IsSound-Connects f (inl (_, v)) d = Connects-at f.socket f refl d v
  IsSound-Connects f (inr (e, _)) d = absurd (ground arith)

  -- From every state that the mounted hook comes to before it is disposed, the browser can still lead
  -- to an open socket that is shown as open.
  pub mount-Connects :
      (c : Console Num) {f : Feed Num} → Reach F (mount c) f → f.disposed ≡ false → Connects f
  mount-Connects c {f} r d = IsSound-Connects f (mount-Reach-IsSound F c r) d

  -- What stays as it is once the hook is disposed.
  pub record IsOver (f g : Feed Num) : Type 0 where
    pub disposed : g.disposed ≡ true
    pub quiet : Disposed g
    pub status : g.console.store.ws_status ≡ f.console.store.ws_status
    pub fewer : g.in_flight ≤ f.in_flight

  step-IsOver :
      (f : Feed Num) (now : Num) (e : Event Num) (g : Feed Num) {h : Feed Num}
      → IsOver f g
      → step F now e g ≡ some h
      → IsOver f h
  unfolding step set_status
  step-IsOver f now opens g v s = ground arith
  step-IsOver f now fails g v s = ground arith
  step-IsOver f now closes g v s = ground arith
  step-IsOver f now (message none) g v s = ground arith
  step-IsOver f now (message (some d)) g v s = ground arith
  step-IsOver f now (fetched none) g v s = ground arith
  step-IsOver f now (fetched (some d)) g v s =
      ground (arith, ws_status-consume_snapshot F now d g.console)
  step-IsOver f now reconnect_fires g v s = ground arith
  step-IsOver f now poll_fires g v s = ground arith
  step-IsOver f now unmounts g v s = ground arith

  Reach-IsOver : {f g : Feed Num} → IsOver f f → Reach F f g → IsOver f g
  Reach-IsOver v here = v
  Reach-IsOver {f} v (next {g} {h} now e r s) = step-IsOver f now e g (Reach-IsOver v r) s

  -- Once the hook is disposed, nothing that the browser leads to connects, arms a timer, changes the
  -- status shown, or starts a poll; only polls that were waiting can still come in.
  pub Disposed-IsOver :
      (c : Console Num) {f g : Feed Num}
      → Reach F (mount c) f
      → f.disposed ≡ true
      → Reach F f g
      → IsOver f g
  Disposed-IsOver c {f} r d s = elim (mount-Reach-IsSound F c r) [
    | inl (e, _) ↦ absurd (ground arith)
    | inr (_, v) ↦
        Reach-IsOver (record { disposed = d; quiet = v; status = refl; fewer = omega arith }) s
  ]
