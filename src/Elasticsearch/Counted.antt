-- ===== src/Elasticsearch/Counted.antt =====
-- The indices of the buffer, and how often a document is in batches.
use sg_core.Prelude.{
  ℕ, suc, ◌+◌, ◌≡◌, refl, sym, ap, ◌∙◌, arith, false, String, str_eq, eq_iff, List, [], ◌∷◌, ◌++◌,
  append-nil, Dict, lookup, contains, Distinct, keys, if◌then◌else◌, Bool-cases, inl, inr,
}
use sg_core.Elasticsearch.Buffer.{EsIndex, records, flushed}
use sg_core.Elasticsearch.Order.{batched}

flushed-absent :
    (i : String) (m : Dict (List String)) → contains i (keys m) ≡ false → batched i (flushed m) ≡ []
unfolding flushed
flushed-absent i [] h = refl
flushed-absent i ((j, rs) ∷ m) h = ground (arith, flushed-absent i m, h)

pub flushed-lookup :
    (i : String) (m : Dict (List String))
    → Distinct (keys m)
    → batched i (flushed m) ≡ records (lookup i m)
unfolding flushed lookup
flushed-lookup i [] d = refl
flushed-lookup i ((j, rs) ∷ m) d = elim (Bool-cases (str_eq j i)) [
  | inl h ↦
      let absent =
        flushed-absent i m (ap (λ k. contains k (keys m)) (sym ((eq_iff j i).0 h)) ∙ d.0) in
      rw h (ap (λ l. rs ++ l) absent ∙ append-nil rs)
  | inr h ↦ rw h (flushed-lookup i m d.1)
]

abbrev pub count : String → List String → ℕ
count d [] = 0
count d (x ∷ xs) = if str_eq x d then suc (count d xs) else count d xs

pub count-append : (d : String) (xs ys : List String) → count d (xs ++ ys) ≡ count d xs + count d ys
count-append d [] ys = omega arith
count-append d (x ∷ xs) ys = ground (arith, count-append d xs ys)

pub count-batched :
    (i d : String) (xs ys : List EsIndex)
    → count d (batched i (xs ++ ys)) ≡ count d (batched i xs) + count d (batched i ys)
count-batched i d [] ys = omega arith
count-batched i d (b ∷ xs) ys = elim (Bool-cases (str_eq b.index i)) [
  | inl h ↦ rw h (
      omega (
        arith,
        count-append d b.record_list (batched i (xs ++ ys)),
        count-append d b.record_list (batched i xs),
        count-batched i d xs ys,
      ))
  | inr h ↦ rw h (count-batched i d xs ys)
]
