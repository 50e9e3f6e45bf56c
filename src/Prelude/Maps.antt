-- ===== src/Prelude/Maps.antt =====
-- Go's map with text keys, as an association list; the order of the entries stands for the order
-- of a `range` over it.
use mathlib.Core.Path.{◌≡◌, refl}
use mathlib.Core.Bool.{Bool, true, false, ◌||◌, ◌&&◌, not}
use mathlib.Core.List.{List, [], ◌∷◌, ◌++◌}
use mathlib.Core.Option.{Option, none, some}
use Prim.Native.String.{String}
use native.Mathlib.Omega.{arith}
use text.Mathlib.Text.{◌==◌ as str_eq}
use text.Mathlib.TextEquality.{eq_iff}
use sg_core.Prelude.Tests.{if◌then◌else◌}

abbrev pub Dict {ℓ} : Type ℓ → Type ℓ
Dict V = List (String × V)

abbrev pub is_some {ℓ} : {A : Type ℓ} → Option A → Bool
is_some none = false
is_some (some a) = true

module _ {ℓ} {V : Type ℓ} where
  -- v, ok := m[key]
  unfoldable pub lookup : String → Dict V → Option V
  lookup key [] = none
  lookup key ((first, v) ∷ rest) = if str_eq first key then some v else lookup key rest

  -- m[key] = v
  unfoldable pub insert : String → V → Dict V → Dict V
  insert key v [] = (key, v) ∷ []
  insert key v ((first, old) ∷ rest) =
      let later = insert key v rest in
      if str_eq first key then (first, v) ∷ rest else (first, old) ∷ later

  -- delete(m, key)
  unfoldable pub remove : String → Dict V → Dict V
  remove key [] = []
  remove key ((first, old) ∷ rest) =
      let later = remove key rest in if str_eq first key then later else (first, old) ∷ later

  pub lookup-remove :
      (gone key : String) (entries : Dict V)
      → lookup key (remove gone entries) ≡ (if str_eq gone key then none else lookup key entries)
  unfolding remove lookup
  lookup-remove gone key [] = ground arith
  lookup-remove gone key ((first, old) ∷ rest) =
      ground
        (arith, lookup-remove gone key rest, eq_iff first gone, eq_iff first key, eq_iff gone key)

  pub lookup-insert :
      (new key : String) (v : V) (entries : Dict V)
      → lookup key (insert new v entries) ≡ (if str_eq new key then some v else lookup key entries)
  unfolding insert lookup
  lookup-insert new key v [] = refl
  lookup-insert new key v ((first, old) ∷ rest) =
      ground
        (arith, lookup-insert new key v rest, eq_iff first new, eq_iff first key, eq_iff new key)

module _ {ℓ κ} {V : Type ℓ} {W : Type κ} where
  -- An update of every value.
  unfoldable pub map_values : (V → W) → Dict V → Dict W
  map_values f [] = []
  map_values f ((k, v) ∷ m) = (k, f v) ∷ map_values f m

-- Whether a text is in a list of texts.
abbrev pub contains : String → List String → Bool
contains k [] = false
contains k (j ∷ js) = str_eq j k || contains k js

-- No text is in the list twice.
abbrev pub Distinct : List String → Type 0
Distinct [] = Unit
Distinct (k ∷ ks) = (contains k ks ≡ false) × Distinct ks

pub contains-append :
    (k j : String) (ks : List String) → contains k (ks ++ j ∷ []) ≡ (contains k ks || str_eq j k)
contains-append k j [] = ground arith
contains-append k j (i ∷ ks) = ground (arith, contains-append k j ks)

-- A new text at the end of a list without repeats.
pub Distinct-append :
    (k : String) (ks : List String) → contains k ks ≡ false → Distinct ks → Distinct (ks ++ k ∷ [])
Distinct-append k [] h d = (refl, tt)
Distinct-append k (j ∷ ks) h d = (
  ground (arith, contains-append j k ks, eq_iff j k, eq_iff k j),
  Distinct-append k ks (ground (arith, h)) d.1,
)

module _ {ℓ κ} {V : Type ℓ} {W : Type κ} where
  -- Looking up in a map whose values are all updated.
  abbrev pub map_option : (V → W) → Option V → Option W
  map_option f none = none
  map_option f (some v) = some (f v)

  pub lookup-map_values :
      (k : String) (f : V → W) (m : Dict V) → lookup k (map_values f m) ≡ map_option f (lookup k m)
  unfolding lookup map_values
  lookup-map_values k f [] = refl
  lookup-map_values k f ((j, v) ∷ m) = ground (arith, lookup-map_values k f m)

module _ {ℓ} {V : Type ℓ} where
  abbrev pub keys : Dict V → List String
  keys [] = []
  keys ((k, v) ∷ m) = k ∷ keys m

  pub contains-insert :
      (j k : String) (v : V) (m : Dict V)
      → contains j (keys (insert k v m)) ≡ (contains j (keys m) || str_eq k j)
  unfolding insert
  contains-insert j k v [] = ground arith
  contains-insert j k v ((i, old) ∷ m) =
      ground (arith, contains-insert j k v m, eq_iff i k, eq_iff k j)

  pub Distinct-insert :
      (k : String) (v : V) (m : Dict V) → Distinct (keys m) → Distinct (keys (insert k v m))
  unfolding insert
  Distinct-insert k v [] d = (refl, tt)
  Distinct-insert k v ((i, old) ∷ m) d =
      ground
        (arith, Distinct-insert k v m d.1, contains-insert i k v m, eq_iff i k, eq_iff k i, d.0)

  contains-remove :
      (j k : String) (m : Dict V)
      → contains j (keys (remove k m)) ≡ (contains j (keys m) && not (str_eq k j))
  unfolding remove
  contains-remove j k [] = refl
  contains-remove j k ((i, old) ∷ m) =
      ground (arith, contains-remove j k m, eq_iff i k, eq_iff i j, eq_iff k j)

  pub Distinct-remove : (k : String) (m : Dict V) → Distinct (keys m) → Distinct (keys (remove k m))
  unfolding remove
  Distinct-remove k [] d = d
  Distinct-remove k ((i, old) ∷ m) d =
      ground (arith, Distinct-remove k m d.1, contains-remove i k m, d.0)

  pub contains-keys : (k : String) (m : Dict V) → contains k (keys m) ≡ is_some (lookup k m)
  unfolding lookup
  contains-keys k [] = refl
  contains-keys k ((j, v) ∷ m) = ground (arith, contains-keys k m)
