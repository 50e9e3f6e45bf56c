-- ===== src/Collectd/Valid.antt =====
-- What the validation of a collectd metric tests, and what the handler does with what passes it.

use sg_core.Prelude.{
  ℕ, zero, suc, ◌+◌, ◌≤◌, ◌<◌, ◌≡◌, ◌↔◌, refl, ap, ◌∙◌, true, false, String, str_eq, List, [], ◌∷◌,
  ◌++◌, length, arith, inl, inr, ℤ, returns, panics, index, inc64, bit_xor_cancel, bit_xor-zero_iff,
  append-nil, append_assoc, drop, Bool-cases, ltb, ltb→lt, ltb_false→ge,
}
use sg_core.Data.{Metric}
use sg_core.Handler.{publish_metric}
use sg_core.Collectd.Metrics.{
  CollectdMetric, Handler, elements, is_nil, validate_metric, source_metric, write_sources,
  write_metrics,
}

module _ {F T : Type 0} where
  -- Every field that must be there is there.
  pub record Complete (m : CollectdMetric F T) : Type 0 where
    pub dsnames : is_nil m.dsnames ≡ false
    pub dstypes : is_nil m.dstypes ≡ false
    pub values : is_nil m.values ≡ false
    pub host : str_eq m.host "" ≡ false
    pub plugin : str_eq m.plugin "" ≡ false
    pub type : str_eq m.type "" ≡ false

  -- A metric is valid exactly if it is complete and has as many types as values. The number of its
  -- names is not tested.
  pub validate_metric_iff :
      (m : CollectdMetric F T)
      → (validate_metric m ≡ true)
        ↔ (Complete m × (length (elements m.dstypes) ≡ length (elements m.values)))
  unfolding validate_metric
  validate_metric_iff m = (
    λ e. ground (arith, bit_xor_cancel a b c, bit_xor-zero_iff b c),
    λ h. ground (arith, bit_xor_cancel a b c, bit_xor-zero_iff b c),
  )
    where
      a : ℕ
      a = length (elements m.dsnames)

      b : ℕ
      b = length (elements m.dstypes)

      c : ℕ
      c = length (elements m.values)

-- Reading a slice at an index that lies in it, and at one that does not.
module _ {ℓ} {A : Type ℓ} where
  index-drop :
      (xs : List A) (i : ℕ)
      → i < length xs
      → (x : A) × (index xs i ≡ returns x) × (drop i xs ≡ x ∷ drop (i + 1) xs)
  index-drop [] i h = absurd (omega arith)
  index-drop (x ∷ xs) zero h = (x, refl, refl)
  index-drop (x ∷ xs) (suc i) h =
      let r = index-drop xs i (omega arith) in
      (r.0, r.1, r.2 ∙ ap (λ k. r.0 ∷ drop k (x ∷ xs)) {x = suc (i + 1)} (omega arith))

  index-panics : (xs : List A) (i : ℕ) → length xs ≤ i → index xs i ≡ panics
  index-panics [] i h = refl
  index-panics (x ∷ xs) zero h = absurd (omega arith)
  index-panics (x ∷ xs) (suc i) h = index-panics xs i (omega arith)

-- A counter that goes up `k` times.
abbrev pub bump : ℕ → ℕ → ℕ
bump zero n = n
bump (suc k) n = bump k (inc64 n)

module _ {F : Type 0} where
  -- The handler once it has published some metrics.
  abbrev pub with_metrics : List (Metric F) → Handler F → Handler F
  with_metrics ms c = record c {
    out = record c.out { metrics = c.out.metrics ++ ms };
    total_metrics_decoded = bump (length ms) c.total_metrics_decoded;
  }

  with_metrics-cons :
      (x : Metric F) (ms : List (Metric F)) (c : Handler F)
      → with_metrics ms (record c {
        out = publish_metric x c.out;
        total_metrics_decoded = inc64 c.total_metrics_decoded;
      })
        ≡ with_metrics (x ∷ ms) c
  unfolding publish_metric
  with_metrics-cons x ms c =
      ap
        (λ (l : List (Metric F)).
          with_total (bump (length ms) (inc64 c.total_metrics_decoded)) (with_list l c))
        (append_assoc c.out.metrics (x ∷ []) ms)
    where
      with_list : List (Metric F) → Handler F → Handler F
      with_list l h = record h { out = record h.out { metrics = l } }

      with_total : ℕ → Handler F → Handler F
      with_total n h = record h { total_metrics_decoded = n }

module _ {F T : Type 0} (float64 : ℕ → F) (to_float : T → F) (to_duration : F → ℤ) where
  -- The metrics of names, types and values side by side.
  abbrev pub side_by_side :
      CollectdMetric F T → List String → List String → List F → List (Metric F)
  side_by_side m (n ∷ ns) (t ∷ ts) (v ∷ vs) =
      source_metric float64 to_float to_duration m n t v ∷ side_by_side m ns ts vs
  side_by_side m _ _ _ = []

  write_sources-writes :
      (m : CollectdMetric F T) (names : List String) (i : ℕ) (c : Handler F)
      → i + length names ≤ length (elements m.dstypes)
      → i + length names ≤ length (elements m.values)
      → write_sources float64 to_float to_duration m i names c
        ≡ returns (
            with_metrics
              (side_by_side m names (drop i (elements m.dstypes)) (drop i (elements m.values)))
              c)
  unfolding write_sources
  write_sources-writes m [] i c ht hv = rw append-nil
  write_sources-writes m (n ∷ ns) i c ht hv =
      let (t, rt, dt) = index-drop (elements m.dstypes) i (omega arith) in
      let (v, rv, dv) = index-drop (elements m.values) i (omega arith) in
      rw (rt, write_sources)
        (rw (rv, write_sources)
          (rw (dt, dv)
            (write_sources-writes m ns (i + 1) _ (omega arith) (omega arith)
              ∙ ap returns (
                  with_metrics-cons (source_metric float64 to_float to_duration m n t v)
                    (side_by_side m ns (drop (i + 1) (elements m.dstypes))
                      (drop (i + 1) (elements m.values)))
                    c))))

  write_sources-panics :
      (m : CollectdMetric F T) (names : List String) (i : ℕ) (c : Handler F)
      → length (elements m.dstypes) < i + length names
      → i ≤ length (elements m.dstypes)
      → length (elements m.dstypes) ≡ length (elements m.values)
      → write_sources float64 to_float to_duration m i names c ≡ panics
  unfolding write_sources
  write_sources-panics m [] i c h hi e = absurd (omega arith)
  write_sources-panics m (n ∷ ns) i c h hi e =
      elim (Bool-cases (ltb i (length (elements m.dstypes)))) [
        | inr out ↦ rw (index-panics (elements m.dstypes) i (ltb_false→ge _ _ out), write_sources)
        | inl inside ↦
            let (t, rt, dt) = index-drop (elements m.dstypes) i (ltb→lt _ _ inside) in
            let (v, rv, dv) = index-drop (elements m.values) i (omega (arith, ltb→lt _ _ inside)) in
            rw (rt, write_sources)
              (rw (rv, write_sources)
                (write_sources-panics m ns (i + 1) _ (omega arith)
                  (omega (arith, ltb→lt _ _ inside)) e))
      ]

  -- A valid metric with no more names than types is written: one metric for each name, in order, with
  -- the type and the value at the same index, and each is counted.
  pub write_metrics-writes :
      (m : CollectdMetric F T) (c : Handler F)
      → validate_metric m ≡ true
      → length (elements m.dsnames) ≤ length (elements m.dstypes)
      → write_metrics float64 to_float to_duration m c
        ≡ returns (
          with_metrics
              (side_by_side m (elements m.dsnames) (elements m.dstypes) (elements m.values))
              c,
          true,
        )
  unfolding write_metrics
  write_metrics-writes m c valid h =
      rw (valid, write_metrics)
        (rw (
          write_sources-writes m (elements m.dsnames) 0 c (omega arith)
            (omega (arith, ((validate_metric_iff m).0 valid).1))))

  -- A valid metric with more names than types makes the handler panic: the validation lets it pass,
  -- and the loop over the names reads the types past their end.
  pub write_metrics-panics :
      (m : CollectdMetric F T) (c : Handler F)
      → validate_metric m ≡ true
      → length (elements m.dstypes) < length (elements m.dsnames)
      → write_metrics float64 to_float to_duration m c ≡ panics
  unfolding write_metrics
  write_metrics-panics m c valid h =
      rw (valid, write_metrics)
        (rw (
          write_sources-panics m (elements m.dsnames) 0 c (omega arith) (omega arith)
            ((validate_metric_iff m).0 valid).1))
