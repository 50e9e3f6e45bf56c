-- ===== src/Prometheus/Collision.antt =====
-- The key of the metrics cache runs the name and the label values together.
use sg_core.Prelude.{ℕ, ◌≡◌, ap, ◌∙◌, String, eq_refl, none, some, lookup}
use sg_core.Data.{Metric}
use sg_core.Prometheus.Expiry.{ExpiryProc}
use sg_core.Prometheus.Collector.{PromCollector, cache_key, new_process, refresh, update_metrics}
use sg_core.Prometheus.Tracking.{Tracked}
use sg_core.Prometheus.Staleness.{Updated, updated, update_metrics-Updated}

module _ {F : Type 0} where
  found_self :
      (now : ℕ) (m : Metric F) (key : String) (pc : PromCollector F) (ep : ExpiryProc String)
      (r : PromCollector F × ExpiryProc String)
      → Updated now m key pc ep r
      → lookup key r.0.m_proc ≡ some (updated now m (lookup key pc.m_proc))
  found_self now m key pc ep r u = u.found key ∙ (rw eq_refl)

  -- Two metrics whose name and label values run together to the same text, whatever their label names,
  -- share one entry: the second is not added, it replaces the values of the first, and the entry keeps
  -- the description, with the name and the label names, of the first.
  pub update_metrics-collision :
      (now later : ℕ) (m m' : Metric F) (pc : PromCollector F) (ep : ExpiryProc String)
      → cache_key "" m.name m.label_vals ≡ cache_key "" m'.name m'.label_vals
      → pc.cache_index_builder ≡ ""
      → Tracked pc ep
      → lookup (cache_key "" m.name m.label_vals) pc.m_proc ≡ none
      → (lookup
            (cache_key "" m.name m.label_vals)
            (update_metrics later m' (update_metrics now m (pc, ep))).0.m_proc
          ≡ some (refresh later m' (new_process now m)))
        × ((update_metrics later m' (update_metrics now m (pc, ep))).1.entries
            ≡ (update_metrics now m (pc, ep)).1.entries)
  update_metrics-collision now later m m' pc ep same empty t new = (
    rw same (found_self later m' key' _ _ _ second ∙ ap (λ o. some (updated later m' o)) there),
    second.enlisted ∙ (rw there),
  )
    where
      first : Updated now m (cache_key "" m.name m.label_vals) pc ep (update_metrics now m (pc, ep))
      first = update_metrics-Updated now m pc ep empty t

      key' : String
      key' = cache_key "" m'.name m'.label_vals

      second :
          Updated later m' key'
            (update_metrics now m (pc, ep)).0
            (update_metrics now m (pc, ep)).1
            (update_metrics later m' (update_metrics now m (pc, ep)))
      second = update_metrics-Updated later m' _ _ first.emptied first.tracked

      there : lookup key' (update_metrics now m (pc, ep)).0.m_proc ≡ some (new_process now m)
      there = rw (← same) (found_self now m _ pc ep _ first ∙ ap (λ o. some (updated now m o)) new)
