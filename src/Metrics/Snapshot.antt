-- ===== src/Metrics/Snapshot.antt =====
-- The data of a snapshot, and the sums that both hooks take over the healthy nodes.
use vault_vk.Common.{
  ℕ, ◌+◌, max, ◌≡◌, refl, ap, List, [], ◌∷◌, Option, none, some, arith, length, filter,
  filter-filter, if◌then◌else◌,
}
use vault_vk.Numbers.Defs.{Arith}
use vault_vk.Store.Defs.{NodeMeta, MetricsPoint}

-- `Record<string, unknown>`: a field is none where the code's test of its type fails, `Array.isArray`
-- for the nodes (of type `M`) and `typeof x === "number"` for the others.
pub record Snapshot (M N : Type 0) : Type 0 where
  pub nodes : Option (List M)
  pub ts : Option N
  pub set_ops_per_sec : Option N
  pub get_ops_per_sec : Option N
  pub set_p50_ms : Option N
  pub set_p99_ms : Option N
  pub get_p50_ms : Option N
  pub get_p99_ms : Option N

-- `{ ts, set, get }`, what is kept of the snapshot before.
pub record Totals (N : Type 0) : Type 0 where
  pub ts : N
  pub set : ℕ
  pub get : ℕ

infixl 5 ◌>>=◌
abbrev ◌>>=◌ {ℓ κ} : {A : Type ℓ} {B : Type κ} → Option A → (A → Option B) → Option B
none >>= f = none
some a >>= f = f a

module _ {M N : Type 0} where
  -- The sample that the snapshot itself holds, if all its six fields are there.
  unfoldable pub direct_metrics : N → Snapshot M N → Option (MetricsPoint N)
  direct_metrics ts d = do
    set_ops ← d.set_ops_per_sec
    get_ops ← d.get_ops_per_sec
    set_p50 ← d.set_p50_ms
    set_p99 ← d.set_p99_ms
    get_p50 ← d.get_p50_ms
    get_p99 ← d.get_p99_ms
    some (record {
      ts = ts;
      set_ops_per_sec = set_ops;
      get_ops_per_sec = get_ops;
      set_p50_ms = set_p50;
      set_p99_ms = set_p99;
      get_p50_ms = get_p50;
      get_p99_ms = get_p99;
    })

module _ {N : Type 0} where
  -- `nodes.reduce((acc, n) => …, { set: 0, get: 0 })`
  abbrev add_ops : ℕ × ℕ → NodeMeta N → ℕ × ℕ
  add_ops acc n = if n.healthy then (acc.0 + n.ops_set, acc.1 + n.ops_get) else acc

  unfoldable pub totals_from : ℕ × ℕ → List (NodeMeta N) → ℕ × ℕ
  totals_from acc [] = acc
  totals_from acc (n ∷ nodes) = totals_from (add_ops acc n) nodes

  unfoldable pub totals : N → List (NodeMeta N) → Totals N
  unfolding totals_from
  totals ts nodes =
      let acc = totals_from (0, 0) nodes in record { ts = ts; set = acc.0; get = acc.1 }

  abbrev pub healthy_nodes : List (NodeMeta N) → List (NodeMeta N)
  healthy_nodes = filter (λ n. n.healthy)

  totals_from-healthy :
      (acc : ℕ × ℕ) (nodes : List (NodeMeta N))
      → totals_from acc (healthy_nodes nodes) ≡ totals_from acc nodes
  unfolding totals_from
  totals_from-healthy acc [] = refl
  totals_from-healthy acc (n ∷ nodes) = ground (arith, totals_from-healthy (add_ops acc n) nodes)

  pub totals-healthy :
      (ts : N) (nodes : List (NodeMeta N)) → totals ts (healthy_nodes nodes) ≡ totals ts nodes
  unfolding totals
  totals-healthy ts nodes =
      ap (λ (acc : ℕ × ℕ). record { ts = ts; set = acc.0; get = acc.1 })
        (totals_from-healthy (0, 0) nodes)

module _ (F : Arith) where
  open F use {Num, nat, dec, add, sub, mul, div, max_of, round}

  unfoldable pub sum_latency : Num → List (NodeMeta Num) → Num
  sum_latency sum [] = sum
  sum_latency sum (n ∷ nodes) = sum_latency (add sum n.latency_us) nodes

  -- `avgLatencyUs / 1000`, the mean over the healthy nodes.
  unfoldable pub base_ms : List (NodeMeta Num) → Num
  unfolding sum_latency
  base_ms nodes =
      let healthy = healthy_nodes nodes in
      let avg_latency_us = div (sum_latency (nat 0) healthy) (nat (max 1 (length healthy))) in
      div avg_latency_us (nat 1000)

  pub base_ms-healthy :
      (nodes : List (NodeMeta Num)) → base_ms (healthy_nodes nodes) ≡ base_ms nodes
  unfolding base_ms
  base_ms-healthy nodes =
      ap (λ ns. div (div (sum_latency (nat 0) ns) (nat (max 1 (length ns)))) (nat 1000))
        (filter-filter (λ n. n.healthy) nodes)

  -- The estimates that are made from the mean latency.
  unfoldable pub estimate : Num → Num → Num → Num → MetricsPoint Num
  estimate ts set_ops get_ops base = record {
    ts = ts;
    set_ops_per_sec = set_ops;
    get_ops_per_sec = get_ops;
    set_p50_ms = max_of (dec 1 2) (mul base (dec 95 2));
    set_p99_ms = max_of (dec 2 2) (mul base (dec 175 2));
    get_p50_ms = max_of (dec 1 2) (mul base (dec 70 2));
    get_p99_ms = max_of (dec 2 2) (mul base (dec 135 2));
  }

  -- `Math.max(0.001, ts - prev.ts)`
  unfoldable pub elapsed : Totals Num → Num → Num
  elapsed prev ts = max_of (dec 1 3) (sub ts prev.ts)
