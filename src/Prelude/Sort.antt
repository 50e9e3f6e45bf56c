-- ===== src/Prelude/Sort.antt =====
-- Go's order of texts (by their bytes, which in UTF-8 is the order of their characters) and sort.Strings.

use Prim.Native.Char.{code}
use Prim.Native.String.{String}
use mathlib.Core.Path.{◌≡◌, refl, sym, ap, ◌∙◌}
use mathlib.Core.Logic.{inl, inr}
use mathlib.Core.Bool.{Bool, true, false, ◌&&◌, ◌||◌, not}
use mathlib.Core.List.{List, [], ◌∷◌}
use native.Mathlib.Omega.{arith}
use text.Mathlib.Text.{◌==◌ as str_eq}
use text.Mathlib.TextEquality.{eq_iff, Char-path}
use text.Mathlib.TextPositions.{eq_refl}
use sg_core.Prelude.Tests.{ltb, ◌==◌, if◌then◌else◌, Bool-cases}
use sg_core.Prelude.Maps.{contains, Distinct}

-- s <= t
unfoldable pub le_text : String → String → Bool
le_text String.[] t = true
le_text (String.◌∷◌ c s) String.[] = false
le_text (String.◌∷◌ c s) (String.◌∷◌ d t) =
    ltb (code c) (code d) || ((code c == code d) && le_text s t)

unfoldable pub insert_sorted : String → List String → List String
unfolding le_text
insert_sorted s [] = s ∷ []
insert_sorted s (t ∷ ts) =
    let rest = insert_sorted s ts in if le_text s t then s ∷ t ∷ ts else t ∷ rest

-- sort.Strings
unfoldable pub sort : List String → List String
unfolding insert_sorted
sort [] = []
sort (s ∷ ss) = insert_sorted s (sort ss)

le_text_total : (s t : String) → (le_text s t || le_text t s) ≡ true
unfolding le_text
le_text_total String.[] t = refl
le_text_total (String.◌∷◌ c s) String.[] = refl
le_text_total (String.◌∷◌ c s) (String.◌∷◌ d t) = ground (arith, le_text_total s t)

le_text_trans : (s t u : String) → le_text s t ≡ true → le_text t u ≡ true → le_text s u ≡ true
unfolding le_text
le_text_trans String.[] t u h k = refl
le_text_trans (String.◌∷◌ c s) String.[] u h k = cc
le_text_trans (String.◌∷◌ c s) (String.◌∷◌ d t) String.[] h k = cc
le_text_trans (String.◌∷◌ c s) (String.◌∷◌ d t) (String.◌∷◌ e u) h k =
    ground (arith, le_text_trans s t u, h, k)

le_text_antisym : (s t : String) → le_text s t ≡ true → le_text t s ≡ true → s ≡ t
unfolding le_text
le_text_antisym String.[] String.[] h k = refl
le_text_antisym String.[] (String.◌∷◌ d t) h k = cc
le_text_antisym (String.◌∷◌ c s) String.[] h k = cc
le_text_antisym (String.◌∷◌ c s) (String.◌∷◌ d t) h k =
    let same : code c ≡ code d = ground (arith, h, k) in
    let rest : s ≡ t = le_text_antisym s t (ground (arith, h)) (ground (arith, k)) in
    λ i. String.◌∷◌ (Char-path c d same i) (rest i)

-- The order in which two texts are inserted makes no difference, in any list.
insert_sorted_comm :
    (s t : String) (us : List String)
    → insert_sorted s (insert_sorted t us) ≡ insert_sorted t (insert_sorted s us)
unfolding insert_sorted
insert_sorted_comm s t [] = ground (arith, le_text_total s t, le_text_antisym s t)
insert_sorted_comm s t (u ∷ us) = ground (
  arith,
  le_text_total s t,
  le_text_antisym s t,
  insert_sorted_comm s t us,
  le_text_trans s t u,
  le_text_trans t s u,
  le_text_total s u,
  le_text_total t u,
)

-- A list without the first occurrence of a text.
abbrev erase : String → List String → List String
erase s [] = []
erase s (t ∷ ts) = if str_eq t s then ts else t ∷ erase s ts

sort-erase :
    (s : String) (ts : List String)
    → contains s ts ≡ true
    → sort ts ≡ insert_sorted s (sort (erase s ts))
unfolding sort
sort-erase s [] h = cc
sort-erase s (t ∷ ts) h = elim (Bool-cases (str_eq t s)) [
  | inl e ↦ rw e (ap (λ u. insert_sorted u (sort ts)) ((eq_iff t s).0 e))
  | inr e ↦ rw e (
      ap (insert_sorted t) (sort-erase s ts (rw e at h))
      ∙ insert_sorted_comm t s (sort (erase s ts)))
]

contains-erase :
    (s k : String) (ts : List String)
    → Distinct ts
    → contains k (erase s ts) ≡ (contains k ts && not (str_eq s k))
contains-erase s k [] d = refl
contains-erase s k (t ∷ ts) d = ground (
  arith,
  contains-erase s k ts d.1,
  eq_iff t s,
  eq_iff t k,
  eq_iff s k,
  d.0,
  ap (λ u. contains u ts) {x = t} {y = s},
  ap (λ u. contains u ts) {x = t} {y = k},
)

erase-Distinct : (s : String) (ts : List String) → Distinct ts → Distinct (erase s ts)
erase-Distinct s [] d = tt
erase-Distinct s (t ∷ ts) d = elim (Bool-cases (str_eq t s)) [
  | inl e ↦ rw e d.1
  | inr e ↦ rw e (ground (arith, contains-erase s t ts d.1, d.0), erase-Distinct s ts d.1)
]

-- Sorting forgets the order: lists without repeats that have the same texts are sorted to one list.
pub sort_same :
    (ss ts : List String)
    → Distinct ss
    → Distinct ts
    → ((k : String) → contains k ss ≡ contains k ts)
    → sort ss ≡ sort ts
unfolding sort
sort_same [] [] d e h = refl
sort_same [] (t ∷ ts) d e h = ground (arith, h t, eq_refl t)
sort_same (s ∷ ss) ts d e h =
    let there : contains s ts ≡ true = sym (h s) ∙ ground (arith, eq_refl s) in
    ap (insert_sorted s) (
      sort_same ss (erase s ts) d.1 (erase-Distinct s ts e) (λ k. ground (
        arith,
        h k,
        contains-erase s k ts e,
        eq_iff s k,
        d.0,
        ap (λ u. contains u ss) {x = s} {y = k},
      )))
    ∙ sym (sort-erase s ts there)
