-- ===== src/Quorum.antt =====
-- The quorum and the leader as frontend/src/App.tsx reads them off a list of nodes.
use vault_vk.Common.{
  ℕ, ◌+◌, ◌*◌, ◌/◌, ◌≡◌, Bool, ◌&&◌, List, Option, arith, ltb, leb, length, filter, find?,
}
use vault_vk.Store.Defs.{NodeMeta}

-- `Math.floor(nodes.length / 2) + 1`
unfoldable pub quorum : ℕ → ℕ
quorum n = n / 2 + 1

module _ {N : Type 0} where
  -- `nodes.filter((n) => n.healthy).length`
  abbrev pub healthy_count : List (NodeMeta N) → ℕ
  healthy_count nodes = length (filter (λ n. n.healthy) nodes)

  -- `nodes.find((n) => n.is_leader && n.healthy)`
  abbrev pub find_leader : List (NodeMeta N) → Option (NodeMeta N)
  find_leader nodes = find? (λ n. n.is_leader && n.healthy) nodes

  -- More than half of the nodes are healthy.
  abbrev pub has_majority : List (NodeMeta N) → Bool
  has_majority nodes = ltb (length nodes) (2 * healthy_count nodes)

-- Reaching the quorum is having more than half.
pub quorum_reached-majority : (n h : ℕ) → leb (quorum n) h ≡ ltb n (2 * h)
unfolding quorum
quorum_reached-majority n h = ground arith
