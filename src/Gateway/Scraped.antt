-- ===== src/Gateway/Scraped.antt =====
-- A metric that Prometheus serves, in a scrape of its collector.
use sg_core.Prelude.{
  ◌≡◌, refl, sym, ap, subst, ◌∙◌, Bool, true, String, str_eq, List, [], ◌∷◌, ◌++◌, length, Option,
  none, some, Dict, lookup, Option-cases, Bool-cases, inl, inr,
}
use sg_core.Data.{Metric, MetricType}
use sg_core.Prometheus.Collector.{Desc, MetricProcess, PromCollector, sample, samples, collect}
use sg_core.Prometheus.Application.{Prometheus, load}
use sg_core.Gateway.Prometheus.{key_of, is_served}

-- An element of a list, with what stands before and behind it.
pub record Within {A : Type 0} (x : A) (xs : List A) : Type 0 where
  pub before : List A
  pub after : List A
  pub parts : xs ≡ before ++ x ∷ after

behind : {A : Type 0} {x : A} {xs : List A} (y : A) → Within x xs → Within x (y ∷ xs)
behind y w = record { before = y ∷ w.before; after = w.after; parts = ap (λ l. y ∷ l) w.parts }

module _ {F Sample : Type 0}
    (new_const_metric : Desc → MetricType → F → List String → Option Sample)
    (new_metric_with_timestamp : F → Sample → Sample) (is_zero : F → Bool) where
  -- What prometheus.NewConstMetric makes of an entry.
  abbrev pub made : MetricProcess F → Option Sample
  made k = new_const_metric k.description k.metric.type k.metric.value k.metric.label_vals

  -- The sample of an entry that it takes.
  abbrev pub shown : Bool → MetricProcess F → Sample → Sample
  shown = sample new_const_metric new_metric_with_timestamp is_zero

  -- The collector of the metric has an entry under the key of the metric, which a scrape shows.
  pub record Scraped (m : Metric F) (p : Prometheus F) : Type 0 where
    pub collector : PromCollector F
    pub process : MetricProcess F
    pub found : load (length m.label_keys) p.collectors ≡ some collector
    pub there : lookup (key_of m) collector.m_proc ≡ some process
    pub scrape :
        (s : Sample)
        → made process ≡ some s
        → Within
            (shown collector.with_timestamp process s)
            (collect new_const_metric new_metric_with_timestamp is_zero collector).1

  abbrev all_samples : Bool → Dict (MetricProcess F) → List Sample
  all_samples = samples new_const_metric new_metric_with_timestamp is_zero

  samples-made :
      (b : Bool) (j : String) (k : MetricProcess F) (s : Sample) (m : Dict (MetricProcess F))
      → made k ≡ some s
      → all_samples b ((j, k) ∷ m) ≡ shown b k s ∷ all_samples b m
  unfolding samples
  samples-made b j k s m e = rw (e, samples) refl

  samples-unmade :
      (b : Bool) (j : String) (k : MetricProcess F) (m : Dict (MetricProcess F))
      → made k ≡ none
      → all_samples b ((j, k) ∷ m) ≡ all_samples b m
  unfolding samples
  samples-unmade b j k m e = rw (e, samples) refl

  samples-Within :
      (b : Bool) (key : String) (k : MetricProcess F) (s : Sample) (m : Dict (MetricProcess F))
      → lookup key m ≡ some k
      → made k ≡ some s
      → Within (shown b k s) (all_samples b m)
  unfolding lookup
  samples-Within b key k s [] h e = cc
  samples-Within b key k s ((j, first) ∷ m) h e = elim (Bool-cases (str_eq j key)) [
    | inl own ↦
        let same : first ≡ k = cc (rw own at h) in
        record {
          before = [];
          after = all_samples b m;
          parts =
              samples-made b j first s m (ap made same ∙ e)
              ∙ ap (λ (q : MetricProcess F). shown b q s ∷ all_samples b m) same;
        }
    | inr other ↦
        let w = samples-Within b key k s m (rw other at h) e in
        elim (Option-cases (made first)) [
          | inl unmade ↦ subst (Within (shown b k s)) (sym (samples-unmade b j first m unmade)) w
          | inr (t, taken) ↦
              subst (Within (shown b k s)) (sym (samples-made b j first t m taken))
                (behind (shown b first t) w)
        ]
  ]

  -- What is served is in a scrape.
  pub is_served-Scraped : (m : Metric F) (p : Prometheus F) → is_served m p ≡ true → Scraped m p
  unfolding collect
  is_served-Scraped m p h = elim (Option-cases (load (length m.label_keys) p.collectors)) [
    | inl absent ↦ cc (rw absent at h)
    | inr (pc, there) ↦ elim (Option-cases (lookup (key_of m) pc.m_proc)) [
      | inl absent ↦ cc (rw absent at (rw there at h))
      | inr (k, found) ↦ record {
        collector = pc;
        process = k;
        found = there;
        there = found;
        scrape = λ s e. samples-Within pc.with_timestamp (key_of m) k s pc.m_proc found e;
      }
    ]
  ]
