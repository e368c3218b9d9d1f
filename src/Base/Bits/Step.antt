-- ===== src/Base/Bits/Step.antt =====
-- The native operations run over binary digits with fuel; here is the equation for the last digit.
use Prim.Native.Nat.{ℕ, zero, suc, ◌+◌, ◌*◌, ◌/◌, ◌%◌, ◌≤◌, ◌<◌, min, max, digits, bitwise, differ}
use Prim.Native.Nat.{bit_and, bit_or, bit_xor, bit_and-bitwise, bit_or-bitwise, bit_xor-bitwise}
use mathlib.Core.Path.{◌≡◌, refl}
use native.Mathlib.Nat.{le_refl}
use native.Mathlib.Omega.{arith}

module _ (last : ℕ → ℕ) (op : ℕ → ℕ → ℕ) where
  -- Two amounts of fuel that both cover the first argument give one result.
  enough :
      (x y fuel more : ℕ) → x ≤ fuel → x ≤ more → digits last op fuel x y ≡ digits last op more x y
  enough zero y zero zero h h' = refl
  enough zero y zero (suc more) h h' = refl
  enough zero y (suc fuel) zero h h' = refl
  enough zero y (suc fuel) (suc more) h h' = refl
  enough (suc x) y zero more h h' = absurd (omega arith)
  enough (suc x) y (suc fuel) zero h h' = absurd (omega arith)
  enough (suc x) y (suc fuel) (suc more) h h' =
      let half = enough (suc x / 2) (y / 2) fuel more (omega arith) (omega arith) in rw half refl

  bitwise_step :
      (x y : ℕ)
      → bitwise last op (suc x) y ≡ bitwise last op (suc x / 2) (y / 2) * 2 + op (suc x % 2) (y % 2)
  bitwise_step x y =
      omega (arith, enough (suc x / 2) (y / 2) x (suc x / 2) (omega arith) (le_refl _))

pub bit_and_step : (x y : ℕ) → bit_and x y ≡ bit_and (x / 2) (y / 2) * 2 + min (x % 2) (y % 2)
bit_and_step zero y = simp bit_and-bitwise (omega arith)
bit_and_step (suc x) y = simp bit_and-bitwise (bitwise_step (λ d. 0) min x y)

pub bit_or_step : (x y : ℕ) → bit_or x y ≡ bit_or (x / 2) (y / 2) * 2 + max (x % 2) (y % 2)
bit_or_step zero y = simp bit_or-bitwise (omega arith)
bit_or_step (suc x) y = simp bit_or-bitwise (bitwise_step (λ d. d) max x y)

differ_digits : (x y : ℕ) → x < 2 → y < 2 → differ x y ≡ (x + y) % 2
differ_digits zero zero h k = refl
differ_digits zero (suc zero) h k = refl
differ_digits (suc zero) zero h k = refl
differ_digits (suc zero) (suc zero) h k = refl
differ_digits (suc (suc x)) y h k = absurd (omega arith)
differ_digits zero (suc (suc y)) h k = absurd (omega arith)
differ_digits (suc zero) (suc (suc y)) h k = absurd (omega arith)

raw_xor_step : (a b : ℕ) → bit_xor a b ≡ bit_xor (a / 2) (b / 2) * 2 + differ (a % 2) (b % 2)
raw_xor_step zero b = simp bit_xor-bitwise (omega arith)
raw_xor_step (suc a) b = simp bit_xor-bitwise (bitwise_step (λ y. y) differ a b)

pub bit_xor_step : (a b : ℕ) → bit_xor a b ≡ bit_xor (a / 2) (b / 2) * 2 + (a + b) % 2
bit_xor_step a b =
    omega (arith, raw_xor_step a b, differ_digits (a % 2) (b % 2) (omega arith) (omega arith))
