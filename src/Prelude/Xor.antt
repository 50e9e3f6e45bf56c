-- ===== src/Prelude/Xor.antt =====
-- Exclusive or at variables: two numbers differ by nothing exactly when they are equal.
use Prim.Native.Nat.{
  ℕ, zero, suc, ◌+◌, ◌*◌, ◌/◌, ◌%◌, ◌≤◌, ◌<◌, bit_xor, digits, bit_xor-bitwise, differ,
}
use mathlib.Core.Path.{◌≡◌, refl, sym, ap, ap₂, ◌∙◌}
use mathlib.Core.Logic.{◌↔◌}
use native.Mathlib.Omega.{arith}
use native.Mathlib.Nat.{le_refl}

differ_bits : (x y : ℕ) → x < 2 → y < 2 → differ x y ≡ (x + y) % 2
differ_bits zero y p q = omega arith
differ_bits (suc zero) zero p q = refl
differ_bits (suc zero) (suc zero) p q = refl
differ_bits (suc zero) (suc (suc y)) p q = absurd (omega arith)
differ_bits (suc (suc x)) y p q = absurd (omega arith)

abbrev xor_digits : ℕ → ℕ → ℕ → ℕ
xor_digits = digits (λ b. b) differ

-- Any fuel that covers the first number gives the same digits.
xor_digits_fuel : (n m a b : ℕ) → a ≤ n → a ≤ m → xor_digits n a b ≡ xor_digits m a b
xor_digits_fuel zero zero a b p q = refl
xor_digits_fuel zero (suc m) zero b p q = refl
xor_digits_fuel zero (suc m) (suc a) b p q = absurd (omega arith)
xor_digits_fuel (suc n) zero zero b p q = refl
xor_digits_fuel (suc n) zero (suc a) b p q = absurd (omega arith)
xor_digits_fuel (suc n) (suc m) zero b p q = refl
xor_digits_fuel (suc n) (suc m) (suc a) b p q =
    omega (arith, xor_digits_fuel n m (suc a / 2) (b / 2) (omega arith) (omega arith))

zero-bit_xor : (b : ℕ) → bit_xor 0 b ≡ b
zero-bit_xor b = bit_xor-bitwise 0 b

-- The lowest digit.
bit_xor_step : (a b : ℕ) → bit_xor a b ≡ bit_xor (a / 2) (b / 2) * 2 + (a % 2 + b % 2) % 2
bit_xor_step zero b = omega (arith, zero-bit_xor b, zero-bit_xor (b / 2))
bit_xor_step (suc a) b = omega (
  arith,
  bit_xor-bitwise (suc a) b,
  bit_xor-bitwise (suc a / 2) (b / 2),
  xor_digits_fuel a (suc a / 2) (suc a / 2) (b / 2) (omega arith) (omega arith),
  differ_bits (suc a % 2) (b % 2) (omega arith) (omega arith),
)

bit_xor-self_fuel : (n a : ℕ) → a ≤ n → bit_xor a a ≡ 0
bit_xor-self_fuel n zero h = refl
bit_xor-self_fuel zero (suc a) h = absurd (omega arith)
bit_xor-self_fuel (suc n) (suc a) h =
    omega (arith, bit_xor_step (suc a) (suc a), bit_xor-self_fuel n (suc a / 2) (omega arith))

bit_xor-eq_fuel : (n a b : ℕ) → a ≤ n → bit_xor a b ≡ 0 → a ≡ b
bit_xor-eq_fuel n zero b h e = omega (arith, zero-bit_xor b)
bit_xor-eq_fuel zero (suc a) b h e = absurd (omega arith)
bit_xor-eq_fuel (suc n) (suc a) b h e = omega (
  arith,
  bit_xor_step (suc a) b,
  bit_xor-eq_fuel n (suc a / 2) (b / 2) (omega arith) (omega (arith, bit_xor_step (suc a) b)),
)

pub bit_xor-zero_iff : (a b : ℕ) → (bit_xor a b ≡ 0) ↔ (a ≡ b)
bit_xor-zero_iff a b = (
  bit_xor-eq_fuel a a b (le_refl a),
  λ e. ap (bit_xor a) (sym e) ∙ bit_xor-self_fuel a a (le_refl a),
)

bit_xor_cancel_fuel :
    (n a b c : ℕ) → a + b + c ≤ n → bit_xor (bit_xor a b) (bit_xor a c) ≡ bit_xor b c
bit_xor_cancel_fuel n zero b c h = ap₂ bit_xor (zero-bit_xor b) (zero-bit_xor c)
bit_xor_cancel_fuel zero (suc a) b c h = absurd (omega arith)
bit_xor_cancel_fuel (suc n) (suc a) b c h =
    bit_xor_step x y
    ∙ ap₂ (λ s t. s * 2 + t)
        (ap₂ bit_xor half_x half_y ∙ bit_xor_cancel_fuel n a' (b / 2) (c / 2) (omega arith)) low
    ∙ sym (bit_xor_step b c)
  where
    x : ℕ
    x = bit_xor (suc a) b

    y : ℕ
    y = bit_xor (suc a) c

    a' : ℕ
    a' = suc a / 2

    half_x : x / 2 ≡ bit_xor a' (b / 2)
    half_x = omega (arith, bit_xor_step (suc a) b)

    half_y : y / 2 ≡ bit_xor a' (c / 2)
    half_y = omega (arith, bit_xor_step (suc a) c)

    low : (x % 2 + y % 2) % 2 ≡ (b % 2 + c % 2) % 2
    low = omega (arith, bit_xor_step (suc a) b, bit_xor_step (suc a) c)

-- What two differences from one number have in common cancels.
pub bit_xor_cancel : (a b c : ℕ) → bit_xor (bit_xor a b) (bit_xor a c) ≡ bit_xor b c
bit_xor_cancel a b c = bit_xor_cancel_fuel (a + b + c) a b c (le_refl (a + b + c))
