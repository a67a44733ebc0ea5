-- ===== src/Metrics/Agreement.antt =====
-- The samples of the two hooks side by side: hooks.ts cuts a rate off at zero after the rounding,
-- useClusterWS.ts cuts the difference off before the division.
use native.Mathlib.Decide.{dec_le}
use mathlib.Core.Option
use vault_vk.Common.{
  ℕ, ◌≡◌, refl, subst, inl, inr, List, map, Option, none, some, arith, get_or_else, Option-cases,
}
use vault_vk.Numbers.Defs.{Arith, Laws}
use vault_vk.Store.Defs.{NodeMeta, set_nodes, push_metrics}
use vault_vk.Metrics.Snapshot.{Snapshot, Totals, direct_metrics, totals, elapsed}
use vault_vk.Metrics.Consume.{Console, consume_snapshot}
use vault_vk.Metrics.Consume
use vault_vk.Metrics.Ingest.{ClusterNode, Pages, push, ingest}
use vault_vk.Metrics.Ingest

-- The snapshot as hooks.ts reads it: the two optional fields of a node are not looked at.
abbrev pub plain : {N : Type 0} → Snapshot (ClusterNode N) N → Snapshot (NodeMeta N) N
plain d = record {
  nodes = Option.map (map (λ n. n.meta)) d.nodes;
  ts = d.ts;
  set_ops_per_sec = d.set_ops_per_sec;
  get_ops_per_sec = d.get_ops_per_sec;
  set_p50_ms = d.set_p50_ms;
  set_p99_ms = d.set_p99_ms;
  get_p50_ms = d.get_p50_ms;
  get_p99_ms = d.get_p99_ms;
}

-- Both remember the same totals and hold the same history.
pub record Agree (N : Type 0) (c : Console N) (p : Pages N) : Type 0 where
  pub previous : p.prev_totals ≡ c.previous
  pub history : p.metrics.history ≡ c.store.history

module _ (F : Arith) (laws : Laws F) where
  open F use {Num, nat, dec, sub, div, max_of, round, le}

  rate_agrees :
      (a b : ℕ) (dt : Num)
      → le (dec 1 3) dt
      → max_of (nat 0) (round (div (sub (nat a) (nat b)) dt))
        ≡ round (div (max_of (nat 0) (sub (nat a) (nat b))) dt)
  rate_agrees a b dt h = elim (dec_le b a) [
    | yes more ↦
        let s = laws.sub_nonneg a b more in
        rw (laws.max_of_le _ _ s)
          (laws.max_of_le _ _ (laws.round_nonneg _ (laws.div_nonneg a b dt h s)))
    | no fewer ↦
        let s = laws.sub_nonpos a b (omega arith) in
        rw (laws.max_of_ge _ _ s, laws.zero_div dt h, laws.round_zero)
          (laws.max_of_ge _ _ (laws.round_nonpos _ (laws.div_nonpos a b dt h s)))
  ]

  derived_agrees :
      (prev now : Totals Num) (nodes : List (NodeMeta Num))
      → le (sub now.ts prev.ts) (sub now.ts prev.ts)
      → Consume.derived F prev now nodes ≡ Ingest.derived F prev now nodes
  unfolding Consume.derived Ingest.derived elapsed
  derived_agrees prev now nodes h =
      let pos =
        laws.le_max_left (dec 1 3) (sub now.ts prev.ts) (laws.dec_mono 1 1 3 (omega arith)) h in
      rw (rate_agrees now.set prev.set _ pos, rate_agrees now.get prev.get _ pos)

  direct_metrics-plain :
      (ts : Num) (d : Snapshot (ClusterNode Num) Num)
      → direct_metrics ts (plain d) ≡ direct_metrics ts d
  unfolding direct_metrics
  direct_metrics-plain ts d = refl

  -- The time since the remembered snapshot is a number, where there is one.
  abbrev pub IsTimed : Option (Totals Num) → Num → Type 0
  IsTimed none ts = Unit {0}
  IsTimed (some prev) ts = le (sub ts prev.ts) (sub ts prev.ts)

  -- Given the laws of numbers, and that the time since the remembered snapshot is not NaN: from states
  -- that remember the same totals and hold the same history, `consume_snapshot` and `ingest` lead to
  -- such states again, on every snapshot.
  pub ingest-Agree :
      (now now_ms : Num) (d : Snapshot (ClusterNode Num) Num) (c : Console Num) (p : Pages Num)
      → IsTimed c.previous (get_or_else d.ts now)
      → Agree Num c p
      → Agree Num (consume_snapshot F now (plain d) c) (ingest F now now_ms d p)
  unfolding consume_snapshot ingest push push_metrics set_nodes totals
  ingest-Agree now now_ms d c p h a =
      let ts = get_or_else d.ts now in
      elim (Option-cases (direct_metrics ts d)) [
        | inr (pt, e) ↦ ground (arith, direct_metrics-plain ts d)
        | inl e ↦ elim (Option-cases d.nodes) [
          | inl en ↦ ground (arith, direct_metrics-plain ts d)
          | inr (nodes, en) ↦ elim (Option-cases c.previous) [
            | inl ep ↦ ground (arith, direct_metrics-plain ts d)
            | inr (prev, ep) ↦
                let metas = map (λ (n : ClusterNode Num). n.meta) nodes in
                let same =
                  derived_agrees prev (totals ts metas) metas (subst (λ o. IsTimed o ts) ep h) in
                ground (arith, direct_metrics-plain ts d, same)
          ]
        ]
      ]
