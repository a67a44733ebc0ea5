-- ===== src/MiniGraph/Figures.antt =====
-- The figure of the mini graph and the throughput of the dashboard after a sample.
use vault_vk.Common.{
  ◌≡◌, refl, ap, sym, ◌∙◌, List, [], ◌∷◌, ◌++◌, map, some, slice_last, slice_last-concat,
}
use vault_vk.Numbers.Defs.{Arith}
use vault_vk.Store.Defs.{MetricsPoint, ClusterState, push_metrics}
use vault_vk.Dashboards.{Printer, latest}
use vault_vk.Dashboards.Overview.{throughput}
use vault_vk.MiniGraph.Shown.{mini_point, mini_data, latest_total}

module _ {A : Type 0} where
  latest-concat : (xs : List A) (x : A) → latest (xs ++ x ∷ []) ≡ some x
  latest-concat [] x = refl
  latest-concat (y ∷ []) x = refl
  latest-concat (y ∷ z ∷ xs) x = latest-concat (z ∷ xs) x

module _ {A B : Type 0} (f : A → B) where
  map-concat : (xs : List A) (x : A) → map f (xs ++ x ∷ []) ≡ map f xs ++ f x ∷ []
  map-concat [] x = refl
  map-concat (y ∷ xs) x = ap (◌∷◌ (f y)) (map-concat xs x)

module _ (F : Arith) (p : Printer F.Num) where
  open F use {Num, nat, add}

  latest-mini_data :
      (xs : List (MetricsPoint Num)) (pt : MetricsPoint Num)
      → latest (mini_data F p (xs ++ pt ∷ [])) ≡ some (mini_point F p pt)
  unfolding mini_data
  latest-mini_data xs pt =
      ap (λ ys. latest (map (mini_point F p) ys)) (sym (slice_last-concat 19 xs pt))
      ∙ ap latest (map-concat (mini_point F p) (slice_last 19 xs) pt)
      ∙ latest-concat (map (mini_point F p) (slice_last 19 xs)) (mini_point F p pt)

  -- After a sample, whatever the history before, the figure of the mini graph and the throughput of the
  -- dashboard are one: the sum of the sample's two rates.
  pub push_metrics-figures :
      (pt : MetricsPoint Num) (s : ClusterState Num)
      → let history = (push_metrics pt s).history in
        (latest_total F p history ≡ add pt.set_ops_per_sec pt.get_ops_per_sec)
        × (throughput F history ≡ add pt.set_ops_per_sec pt.get_ops_per_sec)
  unfolding push_metrics latest_total throughput mini_point
  push_metrics-figures pt s = (
    rw (latest_total, latest-mini_data (slice_last 119 s.history) pt) refl,
    rw (throughput, latest-concat (slice_last 119 s.history) pt) refl,
  )
