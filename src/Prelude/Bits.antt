-- ===== src/Prelude/Bits.antt =====
-- `|` on words whose bits do not overlap is a sum. The C code writes a word as shifted bytes
-- joined by `|`, and takes it apart by `>>` and `& 0xff`.
use Prim.Native.Nat.{
  ℕ, zero, suc, ◌+◌, ◌*◌, ◌/◌, ◌%◌, ◌^◌, ◌≤◌, ◌<◌, max, bit_or, digits, bit_or-bitwise,
}
use mathlib.Core.Path.{◌≡◌, refl, subst}
use native.Mathlib.Nat.{pow-suc}
use native.Mathlib.Omega.{arith}

-- `x >> k` and `x & (2 ^ k - 1)`
abbrev pub shr : ℕ → ℕ → ℕ
shr x k = x / 2 ^ k

abbrev pub low_bits : ℕ → ℕ → ℕ
low_bits x k = x % 2 ^ k

-- `x << k`, where nothing is shifted out
abbrev pub shl : ℕ → ℕ → ℕ
shl x k = x * 2 ^ k

abbrev or_digits : ℕ → ℕ → ℕ → ℕ
or_digits n a b = digits (λ b. b) max n a b

or_digits_fuel : (n m a b : ℕ) → a ≤ n → a ≤ m → or_digits n a b ≡ or_digits m a b
or_digits_fuel zero zero a b p q = refl
or_digits_fuel zero (suc m) zero b p q = refl
or_digits_fuel zero (suc m) (suc a) b p q = absurd (omega arith)
or_digits_fuel (suc n) zero zero b p q = refl
or_digits_fuel (suc n) zero (suc a) b p q = absurd (omega arith)
or_digits_fuel (suc n) (suc m) zero b p q = refl
or_digits_fuel (suc n) (suc m) (suc a) b p q =
    omega (arith, or_digits_fuel n m (suc a / 2) (b / 2) (omega arith) (omega arith))

pub zero-bit_or : (b : ℕ) → bit_or 0 b ≡ b
zero-bit_or b = bit_or-bitwise 0 b

pub bit_or_step : (a b : ℕ) → bit_or a b ≡ bit_or (a / 2) (b / 2) * 2 + max (a % 2) (b % 2)
bit_or_step zero b = omega (arith, zero-bit_or b, zero-bit_or (b / 2))
bit_or_step (suc a) b = omega (
  arith,
  bit_or-bitwise (suc a) b,
  bit_or-bitwise (suc a / 2) (b / 2),
  or_digits_fuel a (suc a / 2) (suc a / 2) (b / 2) (omega arith) (omega arith),
)

bit_or-zero_fuel : (n a : ℕ) → a ≤ n → bit_or a 0 ≡ a
bit_or-zero_fuel n zero h = refl
bit_or-zero_fuel zero (suc a) h = absurd (omega arith)
bit_or-zero_fuel (suc n) (suc a) h =
    omega (arith, bit_or_step (suc a) 0, bit_or-zero_fuel n (suc a / 2) (omega arith))

pub bit_or-zero : (a : ℕ) → bit_or a 0 ≡ a
bit_or-zero a = bit_or-zero_fuel a a (omega arith)

-- One digit of the law below, `p` standing for `2 ^ k`.
bit_or_double :
    (p a b : ℕ) → bit_or (a * p) (b / 2) ≡ a * p + b / 2 → bit_or (a * p * 2) b ≡ a * p * 2 + b
bit_or_double p a b h = omega (arith, bit_or_step (a * p * 2) b, half)
  where
    half : bit_or (a * p * 2 / 2) (b / 2) ≡ a * p + b / 2
    half = subst (λ x. bit_or x (b / 2) ≡ a * p + b / 2) (omega arith) h

-- Bits from `k` on joined with bits below `k`.
pub bit_or-shl : (k a b : ℕ) → b < 2 ^ k → bit_or (a * 2 ^ k) b ≡ a * 2 ^ k + b
bit_or-shl zero a zero h = rw bit_or-zero (omega arith)
bit_or-shl zero a (suc b) h = absurd (omega arith)
bit_or-shl (suc k) a b h =
    subst (λ x. bit_or x b ≡ x + b) (rw pow-suc (omega arith))
      (bit_or_double (2 ^ k) a b (bit_or-shl k a (b / 2) (omega (arith, pow-suc 2 k))))
