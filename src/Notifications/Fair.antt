-- ===== src/Notifications/Fair.antt =====
-- What the notices of App.tsx may tell of nodes some of which the operator holds down.
use mathlib.Core.List.{Mem, mem-cons_self, mem-cons_of_mem}
use vault_vk.Common.{
  ℕ, ◌≡◌, ◌⊎◌, inl, inr, sym, subst, true, false, List, [], ◌∷◌, ◌++◌, Option, none, some, includes,
  All, All-append, arith, length, leb, Bool-cases, Option-cases, ◌==◌,
}
use vault_vk.Quorum.{quorum, healthy_count}
use vault_vk.Store.Defs.{NodeMeta, WsStatus}
use vault_vk.Store.Masking.{IsMasked}
use vault_vk.Notifications.Centre.{Notice}
use vault_vk.Notifications.Watch.{
  gateway_notice, status_notices, map_get, same_status, same_bool, recovered, unreachable,
  node_notice, node_notices, leader_id, leader_notices, leader_updated, leader_unavailable, same_id,
  quorum_notices, quorum_restored, quorum_lost, nodes_notices,
}

-- What may be announced of the nodes and the status that the page shows, beside the forced list: that a
-- node that is not held is healthy again, that a node that is not healthy stopped responding, a leader
-- that is not held, that there is none, the quorum as it is, and the gateway as it is.
pub data Fair {N : Type 0} (forced : List ℕ) (status : WsStatus) (nodes : List (NodeMeta N))
    : Notice → Type 0 where
  gateway : Fair forced status nodes (gateway_notice status)
  healthy_again :
      (n : NodeMeta N)
      → Mem n nodes
      → n.healthy ≡ true
      → includes forced n.node_id ≡ false
      → Fair forced status nodes (recovered n)
  stopped :
      (n : NodeMeta N) → Mem n nodes → n.healthy ≡ false → Fair forced status nodes (unreachable n)
  leads :
      (id : ℕ)
      → leader_id nodes ≡ some id
      → includes forced id ≡ false
      → Fair forced status nodes (leader_updated id)
  leaderless :
      (leader_id nodes ≡ none) ⊎ (leader_id nodes ≡ some 0)
      → Fair forced status nodes leader_unavailable
  restored :
      leb (quorum (length nodes)) (healthy_count nodes) ≡ true
      → Fair forced status nodes (quorum_restored (healthy_count nodes) (length nodes))
  lost :
      leb (quorum (length nodes)) (healthy_count nodes) ≡ false
      → Fair forced status nodes (quorum_lost (healthy_count nodes) (length nodes))

module _ {N : Type 0} (forced : List ℕ) (status : WsStatus) (nodes : List (NodeMeta N)) where
  abbrev pub AreFair : List Notice → Type 0
  AreFair ns = All (Fair forced status nodes) ns

  node_notice-AreFair :
      (prev : List (NodeMeta N)) (n : NodeMeta N)
      → Mem n nodes
      → IsMasked forced n
      → AreFair (node_notice prev n)
  unfolding node_notice
  node_notice-AreFair prev n m h = elim (Option-cases (map_get n.node_id prev)) [
    | inl e ↦ let q : node_notice prev n ≡ [] = ground (arith, e) in subst AreFair (sym q) tt
    | inr (old, e) ↦ elim (Bool-cases (same_bool old.healthy n.healthy)) [
      | inl same ↦
          let q : node_notice prev n ≡ [] = ground (arith, e, same) in subst AreFair (sym q) tt
      | inr other ↦ elim (Bool-cases n.healthy) [
        | inl up ↦
            let q : node_notice prev n ≡ recovered n ∷ [] = ground (arith, e, other, up) in
            subst AreFair (sym q) (healthy_again n m up (ground (arith, h, up)), tt)
        | inr down ↦
            let q : node_notice prev n ≡ unreachable n ∷ [] = ground (arith, e, other, down) in
            subst AreFair (sym q) (stopped n m down, tt)
      ]
    ]
  ]

  node_notices-AreFair :
      (prev ns : List (NodeMeta N))
      → All (λ n. Mem n nodes) ns
      → All (IsMasked forced) ns
      → AreFair (node_notices prev ns)
  unfolding node_notices
  node_notices-AreFair prev [] m h = tt
  node_notices-AreFair prev (n ∷ ns) m h =
      All-append (Fair forced status nodes) (node_notice prev n) (node_notices prev ns)
        (node_notice-AreFair prev n m.0 h.0) (node_notices-AreFair prev ns m.1 h.1)

  leader_not_held :
      (ns : List (NodeMeta N)) (id : ℕ)
      → All (IsMasked forced) ns
      → leader_id ns ≡ some id
      → includes forced id ≡ false
  leader_not_held [] id h e = absurd (ground (arith, e))
  leader_not_held (n ∷ ns) id h e = ground (arith, leader_not_held ns id h.1)

  leader_notices-AreFair :
      (previous : Option ℕ)
      → All (IsMasked forced) nodes
      → AreFair (leader_notices previous (leader_id nodes))
  unfolding leader_notices
  leader_notices-AreFair previous h = elim (Bool-cases (same_id previous (leader_id nodes))) [
    | inl same ↦
        let q : leader_notices previous (leader_id nodes) ≡ [] = ground (arith, same) in
        subst AreFair (sym q) tt
    | inr other ↦ elim (Option-cases (leader_id nodes)) [
      | inl e ↦
          let q : leader_notices previous (leader_id nodes) ≡ leader_unavailable ∷ [] =
            ground (arith, other, e) in
          subst AreFair (sym q) (leaderless (inl e), tt)
      | inr (id, e) ↦ elim (Bool-cases (id == 0)) [
        | inl z ↦
            let q : leader_notices previous (leader_id nodes) ≡ leader_unavailable ∷ [] =
              ground (arith, other, e, z) in
            let e0 : leader_id nodes ≡ some 0 = ground (arith, e, z) in
            subst AreFair (sym q) (leaderless (inr e0), tt)
        | inr nz ↦
            let q : leader_notices previous (leader_id nodes) ≡ leader_updated id ∷ [] =
              ground (arith, other, e, nz) in
            subst AreFair (sym q) (leads id e (leader_not_held nodes id h e), tt)
      ]
    ]
  ]

  quorum_notices-AreFair : (prev : List (NodeMeta N)) → AreFair (quorum_notices prev nodes)
  unfolding quorum_notices
  quorum_notices-AreFair prev =
      let now = leb (quorum (length nodes)) (healthy_count nodes) in
      let before = leb (quorum (length nodes)) (healthy_count prev) in
      elim (Bool-cases (same_bool before now)) [
        | inl same ↦
            let q : quorum_notices prev nodes ≡ [] = ground (arith, same) in
            subst AreFair (sym q) tt
        | inr other ↦ elim (Bool-cases now) [
          | inl up ↦
              let q : quorum_notices prev nodes
                  ≡ quorum_restored (healthy_count nodes) (length nodes) ∷ [] =
                ground (arith, other, up) in
              subst AreFair (sym q) (restored up, tt)
          | inr down ↦
              let q : quorum_notices prev nodes
                  ≡ quorum_lost (healthy_count nodes) (length nodes) ∷ [] =
                ground (arith, other, down) in
              subst AreFair (sym q) (lost down, tt)
        ]
      ]

module _ {ℓ κ} {A : Type ℓ} where
  pub All-of-Mem : (P : A → Type κ) (xs : List A) → ((x : A) → Mem x xs → P x) → All P xs
  All-of-Mem P [] f = tt
  All-of-Mem P (x ∷ xs) f = (f x mem-cons_self, All-of-Mem P xs (λ y m. f y (mem-cons_of_mem x m)))

module _ {N : Type 0} where
  pub status_notices-AreFair :
      (prev status : WsStatus) (forced : List ℕ) (nodes : List (NodeMeta N))
      → AreFair forced status nodes (status_notices prev status)
  unfolding status_notices
  status_notices-AreFair prev status forced nodes = elim (Bool-cases (same_status prev status)) [
    | inl same ↦
        let q : status_notices prev status ≡ [] = ground (arith, same) in
        subst (AreFair forced status nodes) (sym q) tt
    | inr other ↦
        let q : status_notices prev status ≡ gateway_notice status ∷ [] = ground (arith, other) in
        subst (AreFair forced status nodes) (sym q) (gateway, tt)
  ]

  pub nodes_notices-AreFair :
      (prev nodes : List (NodeMeta N)) (forced : List ℕ) (status : WsStatus)
      → All (IsMasked forced) nodes
      → AreFair forced status nodes (nodes_notices prev nodes)
  unfolding nodes_notices
  nodes_notices-AreFair prev nodes forced status h =
      let P = Fair forced status nodes in
      let a = node_notices prev nodes in
      let b = leader_notices (leader_id prev) (leader_id nodes) in
      let c = quorum_notices prev nodes in
      All-append P (a ++ b) c
        (All-append P a b
          (node_notices-AreFair forced status nodes prev nodes
            (All-of-Mem (λ n. Mem n nodes) nodes (λ n m. m)) h)
          (leader_notices-AreFair forced status nodes (leader_id prev) h))
        (quorum_notices-AreFair forced status nodes prev)
