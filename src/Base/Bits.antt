-- ===== src/Base/Bits.antt =====
-- Laws of the native bit operations at variables: one digit at a time, fields joined by `|`, the
-- mask 0xFF, and exclusive or as an operation with cancellation.
pub mod Step
use Step.{bit_or_step, bit_and_step}
pub mod Xor
use Prim.Native.Nat.{ℕ, zero, suc, ◌+◌, ◌*◌, ◌/◌, ◌%◌, ◌^◌, ◌≤◌, ◌<◌, bit_and, bit_or, min}
use mathlib.Core.Path.{◌≡◌, refl, ap}
use native.Mathlib.Nat.{pow-suc}
use native.Mathlib.Numerals.{towards_suc}
use native.Mathlib.Omega.{arith}

bit_or-zero_upto : (fuel x : ℕ) → x ≤ fuel → bit_or x 0 ≡ x
bit_or-zero_upto fuel zero h = refl
bit_or-zero_upto zero (suc x) h = absurd (omega arith)
bit_or-zero_upto (suc fuel) (suc x) h =
    omega (arith, bit_or_step (suc x) 0, bit_or-zero_upto fuel (suc x / 2) (omega arith))

bit_and-zero_upto : (fuel x : ℕ) → x ≤ fuel → bit_and x 0 ≡ 0
bit_and-zero_upto fuel zero h = refl
bit_and-zero_upto zero (suc x) h = absurd (omega arith)
bit_and-zero_upto (suc fuel) (suc x) h =
    omega (arith, bit_and_step (suc x) 0, bit_and-zero_upto fuel (suc x / 2) (omega arith))

bit_and-zero : (a : ℕ) → bit_and a 0 ≡ 0
bit_and-zero a = bit_and-zero_upto a a (omega arith)

times-two-pow-suc : (q k : ℕ) → q * 2 ^ suc k ≡ 2 * (q * 2 ^ k)
times-two-pow-suc q k = omega (arith, ap (λ (t : ℕ). q * t) (pow-suc 2 k))

-- A field below `2 ^ k` is joined to a multiple of `2 ^ k` by addition.
pub bit_or_join : (k q r : ℕ) → r < 2 ^ k → bit_or (q * 2 ^ k) r ≡ q * 2 ^ k + r
bit_or_join zero q r h = ground (arith, bit_or-zero_upto q q)
bit_or_join (suc k) q r h = ground (
  arith,
  bit_or_step (q * 2 ^ suc k) r,
  times-two-pow-suc q k,
  bit_or_join k q (r / 2) (omega arith),
)

-- A mask whose last digit is 1 keeps the last digit.
bit_and-odd : (a m b : ℕ) → b ≡ 2 * m + 1 → bit_and a b ≡ bit_and (a / 2) m * 2 + a % 2
bit_and-odd a m b e =
    let half : b / 2 ≡ m = omega arith in
    let last : min (a % 2) (b % 2) ≡ a % 2 = omega arith in rw (bit_and_step a b, half, last) refl

-- `x & 0xFF` is the low byte.
pub bit_and_byte : (a : ℕ) → bit_and a 0xFF ≡ a % 256
bit_and_byte a = omega (
  arith,
  bit_and-odd a 127 255 refl,
  bit_and-odd (a / 2) 63 127 refl,
  bit_and-odd (a / 2 / 2) 31 63 refl,
  bit_and-odd (a / 2 / 2 / 2) 15 31 refl,
  bit_and-odd (a / 2 / 2 / 2 / 2) 7 15 refl,
  bit_and-odd (a / 2 / 2 / 2 / 2 / 2) 3 7 refl,
  bit_and-odd (a / 2 / 2 / 2 / 2 / 2 / 2) 1 3 refl,
  bit_and-odd (a / 2 / 2 / 2 / 2 / 2 / 2 / 2) 0 1 refl,
  bit_and-zero (a / 2 / 2 / 2 / 2 / 2 / 2 / 2 / 2),
)

-- `x & 1` is the last digit.
pub bit_and_one : (a : ℕ) → bit_and a 1 ≡ a % 2
bit_and_one a = omega (arith, bit_and_step a 1, bit_and-zero (a / 2))

-- Multiplication by 256 for each byte of shift.
pub two-pow-byte : (k : ℕ) → 2 ^ (8 * suc k) ≡ 256 * 2 ^ (8 * k)
two-pow-byte k =
    let e : 8 * suc k ≡ 8 * k + 8 = omega arith in rw e (simp towards_suc (omega arith))
