-- ===== src/Prelude/Bits.antt =====
-- Shifts and masks of Python's ints, and the law that joins two fields by `|`.
use Prim.Native.Nat.{
  ℕ, zero, suc, ◌+◌, ◌*◌, ◌/◌, ◌%◌, ◌^◌, ◌≤◌, ◌<◌, max, bit_or, digits, bit_or-bitwise,
}
use mathlib.Core.Path.{◌≡◌, refl}
use native.Mathlib.Omega.{arith}
use native.Mathlib.Nat.{pow-suc}

-- `x << k`, `x >> k` and `x & (2 ** k - 1)`
abbrev pub shl : ℕ → ℕ → ℕ
shl x k = x * 2 ^ k

abbrev pub shr : ℕ → ℕ → ℕ
shr x k = x / 2 ^ k

abbrev pub low_bits : ℕ → ℕ → ℕ
low_bits x k = x % 2 ^ k

-- The recursion that `bit_or` stands for: more fuel than the first number changes nothing.
abbrev or_digits : ℕ → ℕ → ℕ → ℕ
or_digits n a b = digits (λ b. b) max n a b

or_digits_enough : (n m a b : ℕ) → a ≤ n → a ≤ m → or_digits n a b ≡ or_digits m a b
or_digits_enough zero zero a b p q = refl
or_digits_enough zero (suc m) zero b p q = refl
or_digits_enough zero (suc m) (suc a) b p q = absurd (omega arith)
or_digits_enough (suc n) zero zero b p q = refl
or_digits_enough (suc n) zero (suc a) b p q = absurd (omega arith)
or_digits_enough (suc n) (suc m) zero b p q = refl
or_digits_enough (suc n) (suc m) (suc a) b p q =
    omega (arith, or_digits_enough n m (suc a / 2) (b / 2) (omega arith) (omega arith))

zero-bit_or : (b : ℕ) → bit_or 0 b ≡ b
zero-bit_or b = bit_or-bitwise 0 b

-- The lowest binary digit of `a | b`, and the rest.
bit_or_digit : (a b : ℕ) → bit_or a b ≡ bit_or (a / 2) (b / 2) * 2 + max (a % 2) (b % 2)
bit_or_digit zero b = omega (arith, zero-bit_or b, zero-bit_or (b / 2))
bit_or_digit (suc a) b = omega (
  arith,
  bit_or-bitwise (suc a) b,
  bit_or-bitwise (suc a / 2) (b / 2),
  or_digits_enough a (suc a / 2) (suc a / 2) (b / 2) (omega arith) (omega arith),
)

bit_or-zero_upto : (n a : ℕ) → a ≤ n → bit_or a 0 ≡ a
bit_or-zero_upto n zero h = refl
bit_or-zero_upto zero (suc a) h = absurd (omega arith)
bit_or-zero_upto (suc n) (suc a) h =
    omega (arith, bit_or_digit (suc a) 0, bit_or-zero_upto n (suc a / 2) (omega arith))

pub shl-suc : (k high : ℕ) → shl high (suc k) ≡ shl high k * 2
shl-suc k high = rw pow-suc (omega arith)

halve-shl : (k high : ℕ) → (shl high (suc k) / 2 ≡ shl high k) × (shl high (suc k) % 2 ≡ 0)
halve-shl k high = (omega (arith, shl-suc k high), omega (arith, shl-suc k high))

-- A field above `k` bits and one within them do not overlap, so `|` adds them.
pub bit_or-shl : (k high low : ℕ) → low < 2 ^ k → bit_or (shl high k) low ≡ high * 2 ^ k + low
bit_or-shl zero high low h = ground (arith, bit_or-zero_upto high high)
bit_or-shl (suc k) high low h = ground (
  arith,
  pow-suc 2 k,
  shl-suc k high,
  bit_or_digit (shl high (suc k)) low,
  bit_or-shl k high (low / 2),
  halve-shl k high,
)
