-- ===== src/PagesFeed/Sound.antt =====
-- What holds of the hook of the pages in every state, by way of the hook of hooks.ts.
use vault_vk.Common.{
  ◌≡◌, refl, subst, ◌∙◌, sym, ap, ◌⊎◌, inl, inr, true, false, not, none, [], arith,
}
use vault_vk.Numbers.Defs.{Arith}
use vault_vk.Store.Defs.{set_status, connecting}
use vault_vk.Metrics.Consume.{Console}
use vault_vk.Metrics.Ingest.{Pages, set_cluster_status}
use vault_vk.Feed.Defs.{Feed, is_live, is_up, is_dialling}
use vault_vk.Feed.Defs
use vault_vk.Feed.Invariant.{Shows, IsSound, mount-Reach-IsSound}
use vault_vk.PagesFeed.Defs.{PagesFeed, mount, Reach, here, next}
use vault_vk.PagesFeed.Matching.{Notes, Matches, plain_event, step-Follows}

-- While the hook is mounted: the reconnect timer is pending exactly when no event can come from the
-- socket any more, the poll timer runs, the status and the note fit the socket. Once it is disposed: no
-- timer is pending and the socket is neither open nor being opened.
abbrev pub IsMounted : {N : Type 0} → PagesFeed N → Type 0
IsMounted p =
    (p.reconnect_armed ≡ not (is_live p.socket))
    × (p.poll_armed ≡ true)
    × Shows p.socket p.pages.cluster.ws_status
    × Notes p.socket p.ws_open

abbrev pub IsDisposed : {N : Type 0} → PagesFeed N → Type 0
IsDisposed p =
    (p.reconnect_armed ≡ false)
    × (p.poll_armed ≡ false)
    × (is_up p.socket ≡ false)
    × (is_dialling p.socket ≡ false)

module _ (F : Arith) where
  open F use {Num}

  mount-Matches : (c : Console Num) (pages : Pages Num) → Matches (Defs.mount c) (mount pages)
  unfolding mount Defs.mount set_status set_cluster_status
  mount-Matches c pages = record {
    disposed = refl;
    socket = refl;
    reconnect_armed = refl;
    poll_armed = refl;
    status = refl;
    fewer = omega arith;
    note = refl;
    over = λ e. absurd (ground arith);
  }

  -- Whatever the browser leads the hook of the pages to, it can lead the hook of hooks.ts to a state
  -- with the same socket, timers and status, and at least as many polls out.
  pub mount-Reach-Matches :
      (c : Console Num) (pages : Pages Num) {p : PagesFeed Num}
      → Reach F (mount pages) p
      → (f : Feed Num) × Defs.Reach F (Defs.mount c) f × Matches f p
  mount-Reach-Matches c pages here = (Defs.mount c, Defs.here, mount-Matches c pages)
  mount-Reach-Matches c pages (next {g} {h} now now_ms e r s) =
      let (f, reached, v) = mount-Reach-Matches c pages r in
      let (f', stepped, v') = step-Follows F now now_ms e f g v s in
      (f', Defs.next now (plain_event e) reached stepped, v')

  IsSound-Matches :
      (f : Feed Num) (p : PagesFeed Num)
      → Matches f p
      → IsSound f
      → ((p.disposed ≡ false) × IsMounted p) ⊎ ((p.disposed ≡ true) × IsDisposed p)
  IsSound-Matches f p v (inl (d, m)) = inl (
    sym v.disposed ∙ d,
    (
      sym v.reconnect_armed ∙ m.0 ∙ ap (λ s. not (is_live s)) v.socket,
      sym v.poll_armed ∙ m.1,
      subst (Shows p.socket) v.status (subst (λ s. Shows s f.console.store.ws_status) v.socket m.2),
      v.note,
    ),
  )
  IsSound-Matches f p v (inr (d, m)) = inr (
    sym v.disposed ∙ d,
    (
      sym v.reconnect_armed ∙ m.0,
      sym v.poll_armed ∙ m.1,
      sym (ap is_up v.socket) ∙ m.2,
      sym (ap is_dialling v.socket) ∙ m.3,
    ),
  )

  -- The hook of hooks.ts reads only its own part of the page; any will do here.
  abbrev blank : Console Num
  blank = record {
    store = record { nodes = []; history = []; forced_down_node_ids = []; ws_status = connecting };
    previous = none;
  }

  -- In every state that the browser can lead to from the mounted hook of the pages: while it is
  -- mounted, the reconnect timer is pending exactly when no event can come from the socket any more,
  -- the poll timer runs, the status shown fits the socket, and the note of an open socket is set while
  -- it is open and not set while it is being opened or is gone; once it is disposed no timer is
  -- pending and the socket is neither open nor being opened.
  pub mount_is_sound :
      (pages : Pages Num) {p : PagesFeed Num}
      → Reach F (mount pages) p
      → ((p.disposed ≡ false) × IsMounted p) ⊎ ((p.disposed ≡ true) × IsDisposed p)
  mount_is_sound pages {p} r =
      let (f, reached, v) = mount-Reach-Matches blank pages r in
      IsSound-Matches f p v (mount-Reach-IsSound F blank reached)
