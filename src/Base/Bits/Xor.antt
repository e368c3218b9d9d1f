-- ===== src/Base/Bits/Xor.antt =====
-- Exclusive or is a commutative group operation on the natural numbers, in which every element is
-- its own inverse, and it stays below a power of two.
use Prim.Native.Nat.{ℕ, zero, suc, ◌+◌, ◌/◌, ◌%◌, ◌^◌, ◌≤◌, ◌<◌, bit_xor}
use mathlib.Core.Path.{◌≡◌, refl, sym, ap, ◌∙◌}
use native.Mathlib.Nat.{pow-suc}
use native.Mathlib.Omega.{arith}
use net_transfer.Base.Bits.Step.{bit_xor_step}

pub half-bit_xor : (a b : ℕ) → bit_xor a b / 2 ≡ bit_xor (a / 2) (b / 2)
half-bit_xor a b = omega (arith, bit_xor_step a b)

pub last-bit_xor : (a b : ℕ) → bit_xor a b % 2 ≡ (a + b) % 2
last-bit_xor a b = omega (arith, bit_xor_step a b)

self_fuel : (n a : ℕ) → a ≤ n → bit_xor a a ≡ 0
self_fuel n zero h = refl
self_fuel zero (suc a) h = absurd (omega arith)
self_fuel (suc n) (suc a) h =
    omega (arith, bit_xor_step (suc a) (suc a), self_fuel n (suc a / 2) (omega arith))

pub bit_xor_self : (a : ℕ) → bit_xor a a ≡ 0
bit_xor_self a = self_fuel a a (omega arith)

zero_fuel : (n a : ℕ) → a ≤ n → bit_xor a 0 ≡ a
zero_fuel n zero h = refl
zero_fuel zero (suc a) h = absurd (omega arith)
zero_fuel (suc n) (suc a) h =
    omega (arith, bit_xor_step (suc a) 0, zero_fuel n (suc a / 2) (omega arith))

pub bit_xor-zero : (a : ℕ) → bit_xor a 0 ≡ a
bit_xor-zero a = zero_fuel a a (omega arith)

comm_fuel : (n a b : ℕ) → a + b ≤ n → bit_xor a b ≡ bit_xor b a
comm_fuel zero a b h = let p : a ≡ 0 = omega arith in let q : b ≡ 0 = omega arith in rw (p, q) refl
comm_fuel (suc n) zero zero h = refl
comm_fuel (suc n) (suc a) b h = omega (
  arith,
  bit_xor_step (suc a) b,
  bit_xor_step b (suc a),
  comm_fuel n (suc a / 2) (b / 2) (omega arith),
)
comm_fuel (suc n) zero (suc b) h = omega (
  arith,
  bit_xor_step zero (suc b),
  bit_xor_step (suc b) zero,
  comm_fuel n (zero / 2) (suc b / 2) (omega arith),
)

pub bit_xor_comm : (a b : ℕ) → bit_xor a b ≡ bit_xor b a
bit_xor_comm a b = comm_fuel (a + b) a b (omega arith)

pub zero-bit_xor : (a : ℕ) → bit_xor 0 a ≡ a
zero-bit_xor a = bit_xor_comm 0 a ∙ bit_xor-zero a

assoc_fuel : (n a b c : ℕ) → a + b + c ≤ n → bit_xor (bit_xor a b) c ≡ bit_xor a (bit_xor b c)
assoc_fuel zero a b c h =
    let p : a ≡ 0 = omega arith in
    let q : b ≡ 0 = omega arith in let r : c ≡ 0 = omega arith in rw (p, q, r) refl
assoc_fuel (suc n) zero b c h = rw (zero-bit_xor b, zero-bit_xor (bit_xor b c)) refl
assoc_fuel (suc n) (suc a) b c h =
    let ih = assoc_fuel n (suc a / 2) (b / 2) (c / 2) (omega arith) in
    bit_xor_step (bit_xor (suc a) b) c
    ∙ (rw (half-bit_xor (suc a) b, ih)
        (omega (
          arith,
          bit_xor_step (suc a) (bit_xor b c),
          ap (bit_xor (suc a / 2)) (half-bit_xor b c),
          last-bit_xor (suc a) b,
          last-bit_xor b c,
        )))

pub bit_xor_assoc : (a b c : ℕ) → bit_xor (bit_xor a b) c ≡ bit_xor a (bit_xor b c)
bit_xor_assoc a b c = assoc_fuel (a + b + c) a b c (omega arith)

pub bit_xor_cancel : (a b : ℕ) → bit_xor (bit_xor a b) b ≡ a
bit_xor_cancel a b = bit_xor_assoc a b b ∙ ap (bit_xor a) (bit_xor_self b) ∙ bit_xor-zero a

pub bit_xor_left_injective : (a b c : ℕ) → bit_xor a c ≡ bit_xor b c → a ≡ b
bit_xor_left_injective a b c h =
    sym (bit_xor_cancel a c) ∙ ap (λ (t : ℕ). bit_xor t c) h ∙ bit_xor_cancel b c

pub bit_xor-lt : (k a b : ℕ) → a < 2 ^ k → b < 2 ^ k → bit_xor a b < 2 ^ k
bit_xor-lt zero a b h k' =
    let p : a ≡ 0 = omega arith in let q : b ≡ 0 = omega arith in rw (p, q) (omega arith)
bit_xor-lt (suc k) a b h k' = omega (
  arith,
  pow-suc 2 k,
  bit_xor_step a b,
  bit_xor-lt k (a / 2) (b / 2) (omega (arith, pow-suc 2 k)) (omega (arith, pow-suc 2 k)),
)
