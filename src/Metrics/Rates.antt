-- ===== src/Metrics/Rates.antt =====
-- What the derived samples of hooks.ts depend on, and their bounds.
use native.Mathlib.Decide.{dec_le}
use vault_vk.Common.{ℕ, ◌≡◌, refl, inl, inr, Option, some, List, arith, get_or_else, Option-cases}
use vault_vk.Numbers.Defs.{Arith, Laws}
use vault_vk.Store.Defs.{NodeMeta, set_nodes, push_metrics}
use vault_vk.Metrics.Snapshot.{
  Snapshot, Totals, direct_metrics, totals, totals-healthy, healthy_nodes, elapsed, estimate,
  base_ms, base_ms-healthy,
}
use vault_vk.Metrics.Consume.{Console, derived, consume_snapshot}

module _ (F : Arith) where
  open F use {Num, nat, dec, sub, div, max_of, round, le}

  derived-healthy :
      (prev : Totals Num) (ts : Num) (nodes : List (NodeMeta Num))
      → derived F prev (totals ts (healthy_nodes nodes)) (healthy_nodes nodes)
        ≡ derived F prev (totals ts nodes) nodes
  unfolding derived
  derived-healthy prev ts nodes = rw (totals-healthy ts nodes, base_ms-healthy F nodes)

  direct_metrics-nodes :
      (ts : Num) (d : Snapshot (NodeMeta Num) Num) (nodes : Option (List (NodeMeta Num)))
      → direct_metrics ts (record d { nodes = nodes }) ≡ direct_metrics ts d
  unfolding direct_metrics
  direct_metrics-nodes ts d nodes = refl

  -- Unhealthy nodes do not count: with them left out of the snapshot, `consume_snapshot` remembers the
  -- same totals and leads to the same history.
  pub consume_snapshot-healthy :
      (now : Num) (d : Snapshot (NodeMeta Num) Num) (nodes : List (NodeMeta Num)) (c : Console Num)
      → d.nodes ≡ some nodes
      → let full = consume_snapshot F now d c in
        let part = consume_snapshot F now (record d { nodes = some (healthy_nodes nodes) }) c in
        (part.previous ≡ full.previous) × (part.store.history ≡ full.store.history)
  unfolding consume_snapshot push_metrics set_nodes
  consume_snapshot-healthy now d nodes c h =
      let ts = get_or_else d.ts now in
      let direct = direct_metrics-nodes ts d (some (healthy_nodes nodes)) in
      elim (Option-cases (direct_metrics ts d)) [
        | inr (pt, e) ↦ ground (arith, direct)
        | inl e ↦ elim (Option-cases c.previous) [
          | inl ep ↦ ground (arith, direct, totals-healthy ts nodes)
          | inr (prev, ep) ↦
              ground (arith, direct, totals-healthy ts nodes, derived-healthy prev ts nodes)
        ]
      ]

  -- In every derived sample each p50 is at least 0.01, each p99 at least 0.02 and at least its p50, and
  -- the rates are not negative: given the laws of numbers, a mean latency that is not negative, and a time since
  -- the remembered snapshot that is not NaN.
  pub derived_bounds :
      Laws F
      → (prev now : Totals Num) (nodes : List (NodeMeta Num)) → le (nat 0) (base_ms F nodes)
      → le (sub now.ts prev.ts) (sub now.ts prev.ts)
      → let pt = derived F prev now nodes in
        le (nat 0) pt.set_ops_per_sec
        × le (nat 0) pt.get_ops_per_sec
        × le (dec 1 2) pt.set_p50_ms
        × le (dec 2 2) pt.set_p99_ms
        × le pt.set_p50_ms pt.set_p99_ms
        × le (dec 1 2) pt.get_p50_ms
        × le (dec 2 2) pt.get_p99_ms
        × le pt.get_p50_ms pt.get_p99_ms
  unfolding derived estimate elapsed
  derived_bounds laws prev now nodes h k =
      let pos =
        laws.le_max_left (dec 1 3) (sub now.ts prev.ts) (laws.dec_mono 1 1 3 (omega arith)) k in
      let base = base_ms F nodes in
      let one = laws.dec_mono 1 1 2 (omega arith) in
      let two = laws.dec_mono 1 2 2 (omega arith) in
      let floor = laws.dec_mono 2 2 2 (omega arith) in
      let factors = λ (m m' : ℕ). laws.mul_mono base m m' h in
      (
        rate_nonneg now.set prev.set _ pos,
        rate_nonneg now.get prev.get _ pos,
        laws.le_max_left _ _ one (factors 95 95 (omega arith) (omega arith) (omega arith)),
        laws.le_max_left _ _ floor (factors 175 175 (omega arith) (omega arith) (omega arith)),
        laws.max_mono _ _ _ _ two (factors 95 175 (omega arith) (omega arith) (omega arith)),
        laws.le_max_left _ _ one (factors 70 70 (omega arith) (omega arith) (omega arith)),
        laws.le_max_left _ _ floor (factors 135 135 (omega arith) (omega arith) (omega arith)),
        laws.max_mono _ _ _ _ two (factors 70 135 (omega arith) (omega arith) (omega arith)),
      )
    where
      rate_nonneg :
          (a b : ℕ) (dt : Num)
          → le (dec 1 3) dt
          → le (nat 0) (max_of (nat 0) (round (div (sub (nat a) (nat b)) dt)))
      rate_nonneg a b dt p = elim (dec_le b a) [
        | yes more ↦
            let r = laws.round_nonneg _ (laws.div_nonneg a b dt p (laws.sub_nonneg a b more)) in
            rw (laws.max_of_le _ _ r) r
        | no fewer ↦
            let r =
              laws.round_nonpos _ (laws.div_nonpos a b dt p (laws.sub_nonpos a b (omega arith))) in
            rw (laws.max_of_ge _ _ r) (laws.nat_mono 0 0 (omega arith))
      ]
