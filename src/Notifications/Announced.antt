-- ===== src/Notifications/Announced.antt =====
-- What is announced, and when: unchanged nodes, the quorum, the leader.
use vault_vk.Common.{
  ℕ, zero, suc, ◌≢◌, ◌↔◌, ◌⊎◌, ◌<◌, ◌≡◌, refl, ap, true, false, List, [], ◌∷◌, map, Option, none,
  some, arith, length, includes, Distinct, if◌then◌else◌, All,
}
use vault_vk.Store.Defs.{NodeMeta}
use vault_vk.Notifications.Centre.{Notice}
use vault_vk.Quorum.{quorum, quorum_reached-majority, healthy_count, has_majority}
use vault_vk.Notifications.Watch.{
  same_bool, map_get, node_notices, leader_id, same_id, leader_notices, leader_unavailable,
  leader_updated, quorum_restored, quorum_lost, quorum_notices, nodes_notices,
}

same_id_refl : (o : Option ℕ) → same_id o o ≡ true
same_id_refl none = refl
same_id_refl (some a) = ground arith

leader_notices_self : (o : Option ℕ) → leader_notices o o ≡ []
unfolding leader_notices
leader_notices_self o = rw (same_id_refl o) refl

module _ {N : Type 0} where
  abbrev pub ids : List (NodeMeta N) → List ℕ
  ids nodes = map (λ n. n.node_id) nodes

  map_get-none :
      (id : ℕ) (nodes : List (NodeMeta N))
      → includes (ids nodes) id ≡ false
      → map_get id nodes ≡ none
  unfolding map_get
  map_get-none id [] h = refl
  map_get-none id (n ∷ nodes) h = ground (arith, map_get-none id nodes)

  abbrev IsFound : List (NodeMeta N) → NodeMeta N → Type 0
  IsFound nodes n = map_get n.node_id nodes ≡ some n

  IsFound-cons :
      (m : NodeMeta N) (nodes ns : List (NodeMeta N))
      → All (IsFound nodes) ns
      → All (IsFound (m ∷ nodes)) ns
  unfolding map_get
  IsFound-cons m nodes [] h = tt
  IsFound-cons m nodes (n ∷ ns) h = (rw h.0, IsFound-cons m nodes ns h.1)

  All-IsFound : (nodes : List (NodeMeta N)) → Distinct (ids nodes) → All (IsFound nodes) nodes
  unfolding map_get
  All-IsFound [] d = tt
  All-IsFound (n ∷ nodes) d = (
    ground (arith, map_get-none n.node_id nodes d.0),
    IsFound-cons n nodes nodes (All-IsFound nodes d.1),
  )

  node_notices-found :
      (prev nodes : List (NodeMeta N)) → All (IsFound prev) nodes → node_notices prev nodes ≡ []
  unfolding node_notices
  node_notices-found prev [] h = refl
  node_notices-found prev (n ∷ nodes) h = ground (arith, node_notices-found prev nodes h.1)

  quorum_notices_self : (nodes : List (NodeMeta N)) → quorum_notices nodes nodes ≡ []
  unfolding quorum_notices
  quorum_notices_self nodes = ground arith

  -- Where no two nodes share an id, a snapshot equal to the one before announces nothing.
  pub nodes_notices_self :
      (nodes : List (NodeMeta N)) → Distinct (ids nodes) → nodes_notices nodes nodes ≡ []
  unfolding nodes_notices
  nodes_notices_self nodes d = ground (
    arith,
    node_notices-found nodes nodes (All-IsFound nodes d),
    leader_notices_self (leader_id nodes),
    quorum_notices_self nodes,
  )

  -- Between two snapshots of as many nodes, the quorum is announced exactly when having more than half
  -- of the nodes healthy changes, as restored or as lost according to the new snapshot.
  pub quorum_notices-majority :
      (prev nodes : List (NodeMeta N))
      → length prev ≡ length nodes
      → quorum_notices prev nodes ≡ (
          if same_bool (has_majority prev) (has_majority nodes)
          then []
          else if has_majority nodes
          then quorum_restored (healthy_count nodes) (length nodes) ∷ []
          else quorum_lost (healthy_count nodes) (length nodes) ∷ [])
  unfolding quorum_notices
  quorum_notices-majority prev nodes h =
      rw
        (
          quorum_reached-majority (length nodes) (healthy_count nodes),
          quorum_reached-majority (length nodes) (healthy_count prev),
        )
        (ground arith)

  -- The quorum of the new snapshot is asked of the old one too: where both had more than half of their
  -- nodes healthy, but the old one fewer than the new quorum, it is announced as restored.
  pub quorum_notices_of_growth :
      (prev nodes : List (NodeMeta N))
      → has_majority prev ≡ true
      → has_majority nodes ≡ true
      → healthy_count prev < quorum (length nodes)
      → quorum_notices prev nodes ≡ quorum_restored (healthy_count nodes) (length nodes) ∷ []
  unfolding quorum_notices quorum
  quorum_notices_of_growth prev nodes h k l = ground arith

title_length : List Notice → ℕ
title_length [] = 0
title_length (n ∷ ns) = length n.title

updated_differs : (id : ℕ) → leader_updated id ∷ [] ≢ leader_unavailable ∷ []
unfolding title_length
updated_differs id e = let h : ◌≡◌ {A = ℕ} 14 18 = ap title_length e in absurd (omega arith)

leader_notices-none :
    (prev cur : Option ℕ)
    → (leader_notices prev cur ≡ leader_unavailable ∷ [])
      ↔ ((same_id prev cur ≡ false) × ((cur ≡ none) ⊎ (cur ≡ some 0)))
unfolding leader_notices
leader_notices-none prev none = ground arith
leader_notices-none prev (some zero) = ground arith
leader_notices-none prev (some (suc id)) = ground (arith, updated_differs (suc id))

module _ {N : Type 0} where
  -- A change of leader is announced as no leader exactly when the new snapshot has no healthy leader,
  -- or one with id 0.
  pub leader_unavailable_iff :
      (prev nodes : List (NodeMeta N))
      → (leader_notices (leader_id prev) (leader_id nodes) ≡ leader_unavailable ∷ []) ↔ (
          (same_id (leader_id prev) (leader_id nodes) ≡ false)
          × ((leader_id nodes ≡ none) ⊎ (leader_id nodes ≡ some 0)))
  leader_unavailable_iff prev nodes = leader_notices-none (leader_id prev) (leader_id nodes)
