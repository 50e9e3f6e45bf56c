-- ===== src/Prometheus/Emptied.antt =====
-- A check of the expiry process of the collectors.
use sg_core.Prelude.{
  is_some, ℕ, ◌==◌, ==_iff, ◌≡◌, refl, sym, subst, ◌∙◌, Bool, false, ◌&&◌, List, [], ◌∷◌, map,
  Option, none, some, ℤ, if◌then◌else◌, arith,
}
use sg_core.Prometheus.Expiry.{check_loop, check_entry}
use sg_core.Prometheus.Collector.{PromCollector}
use sg_core.Prometheus.Application.{
  Prometheus, load, unregisters, is_empty, collector_expired, collector_delete, check_collectors,
}
use sg_core.Prometheus.Collectors.{
  load-delete, among, requested, after_call, requested-append, Enlisted, staying, among-staying,
  OnceEach-staying,
}

module _ {F : Type 0} (interval : ℤ) where
  abbrev empty : ℕ → Prometheus F → Bool
  empty d p = is_empty (load d p.collectors)

  abbrev after : ℕ → Prometheus F → Prometheus F × Bool
  after k p = check_entry collector_expired collector_delete interval (some k) p

  after-removed : (k : ℕ) (p : Prometheus F) → (after k p).1 ≡ empty k p
  unfolding check_entry collector_expired collector_delete
  after-removed k p = ground arith

  after-load :
      (k d : ℕ) (p : Prometheus F)
      → load d (after k p).0.collectors ≡ (
          if k == d then (if empty k p then none else load d p.collectors) else load d p.collectors)
  unfolding check_entry collector_expired collector_delete
  after-load k d p = ground (arith, load-delete k d p.collectors)

  after-empty : (k d : ℕ) (p : Prometheus F) → empty d (after k p).0 ≡ empty d p
  after-empty k d p = ground (arith, after-load k d p, ==_iff k d)

  after-requested :
      (k d : ℕ) (p : Prometheus F)
      → requested d false (after k p).0.registry_calls ≡ (
          if k == d
          then (if empty k p then false else requested d false p.registry_calls)
          else requested d false p.registry_calls)
  unfolding check_entry collector_expired collector_delete after_call
  after-requested k d p = ground (arith, requested-append d false p.registry_calls (unregisters k))

  staying_same :
      (cs cs' : List (ℕ × PromCollector F)) (ds : List ℕ)
      → ((d : ℕ) → is_empty (load d cs') ≡ is_empty (load d cs))
      → staying cs' ds ≡ staying cs ds
  unfolding staying
  staying_same cs cs' [] h = refl
  staying_same cs cs' (k ∷ ds) h = ground (arith, h k, staying_same cs cs' ds h)

  -- What the loop does to the entries `ds`: those of empty collectors go, with the collectors.
  record Checked (ds : List ℕ) (p : Prometheus F) (r : List (Option ℕ) × Prometheus F)
      : Type 0 where
    left : r.0 ≡ map some (staying p.collectors ds)
    found :
        (d : ℕ)
        → load d r.1.collectors ≡ (if among d ds && empty d p then none else load d p.collectors)
    asked :
        (d : ℕ)
        → requested d false r.1.registry_calls
          ≡ (if among d ds && empty d p then false else requested d false p.registry_calls)

  abbrev loop : List ℕ → Prometheus F → List (Option ℕ) × Prometheus F
  loop ds p = check_loop collector_expired collector_delete interval (map some ds) p

  check_step :
      (k : ℕ) (ds : List ℕ) (p : Prometheus F)
      → Checked ds (after k p).0 (loop ds (after k p).0)
      → Checked (k ∷ ds) p (loop (k ∷ ds) p)
  unfolding check_loop staying
  check_step k ds p ih = record {
    left = ground (
      arith,
      after-removed k p,
      ih.left,
      staying_same p.collectors (after k p).0.collectors ds (λ d. after-empty k d p),
    );
    found = λ d.
        ground
          (arith, ==_iff k d, after-removed k p, after-load k d p, after-empty k d p, ih.found d);
    asked = λ d. ground (
      arith,
      ==_iff k d,
      after-removed k p,
      after-requested k d p,
      after-empty k d p,
      ih.asked d,
    );
  }

  check_loop-Checked : (ds : List ℕ) (p : Prometheus F) → Checked ds p (loop ds p)
  unfolding check_loop staying
  check_loop-Checked [] p = record { left = refl; found = λ d. refl; asked = λ d. refl }
  check_loop-Checked (k ∷ ds) p = check_step k ds p (check_loop-Checked ds (after k p).0)

module _ {F : Type 0} where
  among_absent :
      (b : Bool) (o : Option (PromCollector F))
      → b ≡ is_some o
      → (if b && is_empty o then none else o) ≡ (if is_empty o then none else o)
  among_absent b none h = ground arith
  among_absent b (some pc) h = ground arith

  -- If the entries that expire collectors are the collectors, each once, and these are the numbers of labels
  -- for which the last call of the registry is MustRegister, so it is after a check of the collectors during
  -- which no metric is received: a collector is gone exactly if it held no metric, every other is as it
  -- was, and Unregister is the last call exactly for those that are gone now.
  pub check_collectors-exact :
      (p : Prometheus F)
      → Enlisted p
      → ((d : ℕ)
          → load d (check_collectors p).collectors
            ≡ (if is_empty (load d p.collectors) then none else load d p.collectors))
        × Enlisted (check_collectors p)
  unfolding check_collectors
  check_collectors-exact p e = (
    exact,
    record {
      dims = staying p.collectors e.dims;
      listed = c.left;
      once_each = OnceEach-staying p.collectors e.dims e.once_each;
      matching = λ d. ground (arith, among-staying p.collectors d e.dims, exact d, e.matching d);
      requests = λ d. ground (arith, c.asked d, exact d, e.matching d, e.requests d);
    },
  )
    where
      c : Checked p.collector_expiry_proc.interval e.dims p (
          check_loop collector_expired collector_delete p.collector_expiry_proc.interval
            p.collector_expiry_proc.entries p)
      c =
          subst
            (λ es.
              Checked p.collector_expiry_proc.interval e.dims p (
                check_loop collector_expired collector_delete p.collector_expiry_proc.interval es
                  p))
            (sym e.listed) (check_loop-Checked p.collector_expiry_proc.interval e.dims p)

      exact :
          (d : ℕ)
          → load d (check_collectors p).collectors
            ≡ (if is_empty (load d p.collectors) then none else load d p.collectors)
      exact d = c.found d ∙ among_absent (among d e.dims) (load d p.collectors) (e.matching d)
