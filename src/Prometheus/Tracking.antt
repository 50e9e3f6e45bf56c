-- ===== src/Prometheus/Tracking.antt =====
-- The expiry entries of a collector and its metrics: they name the same keys, and a check takes exactly
-- the metrics that are stale and scraped.
use sg_core.Prelude.{
  is_some, ℕ, ◌-◌, ◌≡◌, refl, ◌∙◌, Bool, true, false, ◌&&◌, String, str_eq, eq_iff, eq_refl, List,
  [], ◌∷◌, map, Option, none, some, Dict, lookup, lookup-remove, contains, Distinct, ℤ, pos, lebℤ,
  if◌then◌else◌, arith,
}
use sg_core.Prometheus.Expiry.{ExpiryProc, check_loop, check_entry}
use sg_core.Prometheus.Collector.{MetricProcess, PromCollector, metric_expired, metric_delete}

-- A key that is in the rest of a list without repeats is another than the first.
str_eq-contains :
    (k j : String) (ks : List String)
    → contains k ks ≡ false
    → contains j ks ≡ true
    → str_eq k j ≡ false
str_eq-contains k j ks h h' = ground (arith, eq_iff k j)

module _ {F : Type 0} where
  -- The entries are the keys of the metrics, each once.
  pub record Tracked (pc : PromCollector F) (ep : ExpiryProc String) : Type 0 where
    pub keys : List String
    pub listed : ep.entries ≡ map some keys
    pub distinct : Distinct keys
    pub matching : (k : String) → contains k keys ≡ is_some (lookup k pc.m_proc)

  -- Stale for the interval, and scraped.
  abbrev pub doom : ℕ → ℤ → Option (MetricProcess F) → Bool
  doom now interval none = false
  doom now interval (some p) = lebℤ interval (pos (now - p.last_arrival)) && p.scrapped

  unfoldable pub kept : ℕ → ℤ → Dict (MetricProcess F) → List String → List String
  kept now interval m [] = []
  kept now interval m (k ∷ ks) =
      let rest = kept now interval m ks in if doom now interval (lookup k m) then rest else k ∷ rest

  -- One turn of the loop.
  abbrev after : ℕ → ℤ → String → PromCollector F → PromCollector F × Bool
  after now interval k pc = check_entry (metric_expired now) metric_delete interval (some k) pc

  after-removed :
      (now : ℕ) (interval : ℤ) (k : String) (pc : PromCollector F)
      → (after now interval k pc).1 ≡ doom now interval (lookup k pc.m_proc)
  unfolding check_entry metric_expired metric_delete
  after-removed now interval k pc = ground arith

  after-lookup :
      (now : ℕ) (interval : ℤ) (k j : String) (pc : PromCollector F)
      → lookup j (after now interval k pc).0.m_proc ≡ (
          if str_eq k j && doom now interval (lookup k pc.m_proc) then none else lookup j pc.m_proc)
  unfolding check_entry metric_expired metric_delete
  after-lookup now interval k j pc = ground (arith, lookup-remove k j pc.m_proc)

  kept_same :
      (now : ℕ) (interval : ℤ) (m m' : Dict (MetricProcess F)) (ks : List String)
      → ((j : String) → contains j ks ≡ true → lookup j m' ≡ lookup j m)
      → kept now interval m' ks ≡ kept now interval m ks
  unfolding kept
  kept_same now interval m m' [] h = refl
  kept_same now interval m m' (k ∷ ks) h =
      ground (
        arith,
        h k (rw (eq_refl k)),
        kept_same now interval m m' ks (λ j e. h j (ground (arith, e))),
      )

  -- What the loop does to the entries `ks`: the doomed ones go, and their metrics with them.
  abbrev pub Checked : ℕ → ℤ → List String → PromCollector F → Type 0
  Checked now interval ks pc =
      let r = check_loop (metric_expired now) metric_delete interval (map some ks) pc in
      (r.0 ≡ map some (kept now interval pc.m_proc ks))
      × ((j : String)
          → lookup j r.1.m_proc ≡ (
              if contains j ks && doom now interval (lookup j pc.m_proc)
              then none
              else lookup j pc.m_proc))

  check_step :
      (now : ℕ) (interval : ℤ) (k : String) (ks : List String) (pc : PromCollector F)
      → contains k ks ≡ false
      → Checked now interval ks (after now interval k pc).0
      → Checked now interval (k ∷ ks) pc
  unfolding check_loop kept
  check_step now interval k ks pc d ih = (
    ground (arith, after-removed now interval k pc, same),
    λ j. ground (
      arith,
      eq_iff k j,
      after-removed now interval k pc,
      after-lookup now interval k j pc,
      ih.1 j,
    ),
  )
    where
      same :
          kept now interval (after now interval k pc).0.m_proc ks ≡ kept now interval pc.m_proc ks
      same =
          kept_same now interval pc.m_proc (after now interval k pc).0.m_proc ks
            λ j e. after-lookup now interval k j pc ∙ (rw (str_eq-contains k j ks d e))

  pub check_loop-Checked :
      (now : ℕ) (interval : ℤ) (ks : List String) (pc : PromCollector F)
      → Distinct ks
      → Checked now interval ks pc
  unfolding check_loop kept
  check_loop-Checked now interval [] pc d = (refl, λ j. refl)
  check_loop-Checked now interval (k ∷ ks) pc d =
      check_step now interval k ks pc d.0
        (check_loop-Checked now interval ks (after now interval k pc).0 d.1)
