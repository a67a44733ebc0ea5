-- ===== src/PagesFeed/Recovery.antt =====
-- What the browser can still lead the hook of the pages to: a new connection with its greeting.
use vault_vk.Common.{subst, if◌then◌else◌, ◌+◌, ◌≡◌, refl, ap, inl, inr, true, false, some, arith}
use vault_vk.Numbers.Defs.{Arith}
use vault_vk.Store.Defs.{connecting, opened, closed}
use vault_vk.Metrics.Ingest.{Pages, set_cluster_status}
use vault_vk.Feed.Defs.{Socket, absent, dialling, up, closing, gone, is_up}
use vault_vk.Feed.Invariant.{Shows}
use vault_vk.PagesFeed.Matching.{Notes}
use vault_vk.PagesFeed.Defs.{
  PagesFeed, opens, closes, reconnect_fires, report, mount, step, Reach, here, next,
}
use vault_vk.PagesFeed.Sound.{IsMounted, mount_is_sound}

module _ (F : Arith) where
  open F use {Num, nat}

  -- The browser can lead on to an open socket that is shown and noted as open.
  abbrev pub Links : PagesFeed Num → Type 0
  Links f =
      (g : PagesFeed Num) × Reach F f g
      × (g.socket ≡ up)
      × (g.ws_open ≡ true)
      × (g.pages.cluster.ws_status ≡ opened)
      × (g.hellos ≡ f.hellos + (if is_up f.socket then 0 else 1))

  abbrev dialled : PagesFeed Num → PagesFeed Num
  dialled f = record (report connecting f) {
    socket = dialling;
    ws_open = false;
    reconnect_armed = false;
  }

  abbrev linked : PagesFeed Num → PagesFeed Num
  linked f = record (report opened f) { socket = up; ws_open = true; hellos = f.hellos + 1 }

  abbrev lost : PagesFeed Num → PagesFeed Num
  lost f = record (report closed f) { socket = gone; ws_open = false; reconnect_armed = true }

  opens_step :
      (f : PagesFeed Num)
      → f.disposed ≡ false
      → f.socket ≡ dialling
      → step F (nat 0) (nat 0) opens f ≡ some (linked f)
  unfolding step
  opens_step f d h = ground arith

  reconnect_step :
      (f : PagesFeed Num)
      → f.disposed ≡ false
      → f.reconnect_armed ≡ true
      → step F (nat 0) (nat 0) reconnect_fires f ≡ some (dialled f)
  unfolding step
  reconnect_step f d h = ground arith

  closes_step :
      (f : PagesFeed Num)
      → f.disposed ≡ false
      → f.socket ≡ closing
      → step F (nat 0) (nat 0) closes f ≡ some (lost f)
  unfolding step
  closes_step f d h = ground arith

  from_timer :
      (f g : PagesFeed Num)
      → Reach F f g
      → g.disposed ≡ false
      → g.reconnect_armed ≡ true
      → g.hellos ≡ f.hellos
      → is_up f.socket ≡ false
      → Links f
  unfolding set_cluster_status
  from_timer f g r d h e u = (
    linked (dialled g),
    next (nat 0) (nat 0) opens (next (nat 0) (nat 0) reconnect_fires r (reconnect_step g d h))
        (opens_step (dialled g) d refl),
    refl,
    refl,
    refl,
    rw (u, if◌then◌else◌) (ap (λ n. n + 1) e),
  )

  Links-at :
      (s : Socket) (f : PagesFeed Num) → f.socket ≡ s → f.disposed ≡ false → IsMounted f → Links f
  unfolding set_cluster_status
  Links-at absent f e d v = absurd (subst (λ t. Shows t f.pages.cluster.ws_status) e v.2)
  Links-at dialling f e d v = (
    linked f,
    next (nat 0) (nat 0) opens here (opens_step f d e),
    refl,
    refl,
    refl,
    rw (e, is_up, if◌then◌else◌) refl,
  )
  Links-at up f e d v = (
    f,
    here,
    e,
    subst (λ t. Notes t f.ws_open) e v.3,
    subst (λ t. Shows t f.pages.cluster.ws_status) e v.2,
    rw (e, is_up, if◌then◌else◌) (omega arith),
  )
  Links-at closing f e d v =
      from_timer f (lost f) (next (nat 0) (nat 0) closes here (closes_step f d e)) d refl refl
        (ap is_up e)
  Links-at gone f e d v = from_timer f f here d (ground arith) refl (ap is_up e)

  -- From every state that the mounted hook of the pages comes to before it is disposed, the browser can
  -- lead on to an open socket that the store shows and the hook notes as open, with one more greeting
  -- sent where the socket was not open before and none where it was.
  pub mount-Reach-Links :
      (pages : Pages Num) {f : PagesFeed Num}
      → Reach F (mount pages) f
      → f.disposed ≡ false
      → Links f
  mount-Reach-Links pages {f} r d = elim (mount_is_sound F pages r) [
    | inl (_, v) ↦ Links-at f.socket f refl d v
    | inr (e, _) ↦ absurd (ground arith)
  ]
