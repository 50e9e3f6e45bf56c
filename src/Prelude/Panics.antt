-- ===== src/Prelude/Panics.antt =====
-- Go code that may panic, and the sums of its unsigned counters.
use Prim.Native.Nat.{ℕ, zero, suc, ◌+◌, ◌%◌, ◌^◌, ◌≤◌, ◌<◌}
use mathlib.Core.Path.{◌≡◌, refl, ap, ◌∙◌}
use native.Mathlib.Omega.{arith}
use sg_core.Prelude.Lists.{length}
use mathlib.Core.List.{List, [], ◌∷◌}
use mathlib.Core.Option.{Option, none, some}

pub data Outcome {ℓ} (A : Type ℓ) : Type ℓ where
  returns : A → Outcome A
  panics : Outcome A

infixl 5 ◌>>=◌
abbrev pub ◌>>=◌ {ℓ κ} : {A : Type ℓ} {B : Type κ} → Outcome A → (A → Outcome B) → Outcome B
returns a >>= f = f a
panics >>= f = panics

-- What an index into a table found.
abbrev pub in_range {ℓ} : {A : Type ℓ} → Option A → Outcome A
in_range none = panics
in_range (some s) = returns s

-- l[i]
abbrev pub index {ℓ} : {A : Type ℓ} → List A → ℕ → Outcome A
index [] i = panics
index (x ∷ xs) zero = returns x
index (x ∷ xs) (suc i) = index xs i

-- A uint64 counter goes up.
abbrev pub inc64 : ℕ → ℕ
inc64 n = (n + 1) % 2 ^ 64

-- A computation that does not panic, with what it returns.
pub record Returns {ℓ} {A : Type ℓ} (o : Outcome A) : Type ℓ where
  pub value : A
  pub result : o ≡ returns value

pub bind-Returns {ℓ κ} :
    {A : Type ℓ} {B : Type κ} {o : Outcome A} {f : A → Outcome B}
    → Returns o
    → ((a : A) → o ≡ returns a → Returns (f a))
    → Returns (o >>= f)
bind-Returns {f} r h =
    let s = h r.value r.result in
    record { value = s.value; result = ap (λ z. z >>= f) r.result ∙ s.result }

-- An index within a list.
pub index-Returns {ℓ} : {A : Type ℓ} (l : List A) (i : ℕ) → i < length l → Returns (index l i)
index-Returns [] i h = absurd (omega (arith, h))
index-Returns (x ∷ xs) zero h = record { value = x; result = refl }
index-Returns (x ∷ xs) (suc i) h = index-Returns xs i (omega (arith, h))

-- An index behind a list.
pub index-panics {ℓ} : {A : Type ℓ} (l : List A) (i : ℕ) → length l ≤ i → index l i ≡ panics
index-panics [] i h = refl
index-panics (x ∷ xs) zero h = absurd (omega (arith, h))
index-panics (x ∷ xs) (suc i) h = index-panics xs i (omega (arith, h))

abbrev value_or {ℓ} : {A : Type ℓ} → A → Outcome A → A
value_or a (returns b) = b
value_or a panics = a

pub returns-injective {ℓ} : {A : Type ℓ} {x y : A} → returns x ≡ returns y → x ≡ y
returns-injective {x} h = ap (value_or x) h
