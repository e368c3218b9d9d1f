-- ===== src/Protocol/Crc/Reference.antt =====
-- crc32 of src/core/protocol.cpp beside a checksum that works bit by bit, without a table.
use net_transfer.Base.{
  ℕ, zero, suc, ◌+◌, ◌*◌, ◌/◌, ◌%◌, ◌^◌, ◌<◌, bit_xor, ◌≡◌, refl, sym, ap, ◌∙◌, arith, List, [],
  ◌∷◌, length, All, ◌⊎◌, inl, inr,
}
use net_transfer.Base.Bits.{bit_and_byte, bit_and_one}
use net_transfer.Base.Bits.Step.{bit_xor_step}
use net_transfer.Base.Bits.Xor.{
  half-bit_xor, last-bit_xor, bit_xor_comm, bit_xor_assoc, bit_xor-zero,
}
use native.Mathlib.Nat.{pow-suc}
use net_transfer.Protocol.{IsByte}
use net_transfer.Protocol.Crc.{polynomial, crc_round, crc_rounds, crc_step, crc_loop, crc32}
use net_transfer.Protocol.Crc.Bounds.{get_or-crc_table}

-- One byte without the table: it is added to the register, which goes through eight rounds.
abbrev pub byte_step : ℕ → ℕ → ℕ
byte_step crc byte = crc_rounds 8 (bit_xor crc byte)

abbrev pub byte_loop : List ℕ → ℕ → ℕ
byte_loop [] crc = crc
byte_loop (b ∷ bytes) crc = byte_loop bytes (byte_step crc b)

-- What a round adds to half of the register.
abbrev pub feedback : ℕ → ℕ
feedback zero = 0
feedback (suc d) = polynomial

pub mod-two-cases : (x : ℕ) → (x % 2 ≡ 0) ⊎ (x % 2 ≡ 1)
mod-two-cases x = ground arith

pub crc_round_lem : (x : ℕ) → crc_round x ≡ bit_xor (x / 2) (feedback (x % 2))
unfolding crc_round
crc_round_lem x = elim (mod-two-cases x) [
  | inl even ↦ rw (bit_and_one x, even, crc_round) (sym (bit_xor-zero (x / 2)))
  | inr odd ↦ rw (bit_and_one x, odd, crc_round) refl
]

feedback_digits :
    (d e : ℕ) → d < 2 → e < 2 → feedback ((d + e) % 2) ≡ bit_xor (feedback d) (feedback e)
feedback_digits zero zero h h' = refl
feedback_digits zero (suc zero) h h' = refl
feedback_digits (suc zero) zero h h' = refl
feedback_digits (suc zero) (suc zero) h h' = refl
feedback_digits (suc (suc d)) e h h' = absurd (omega arith)
feedback_digits zero (suc (suc e)) h h' = absurd (omega arith)
feedback_digits (suc zero) (suc (suc e)) h h' = absurd (omega arith)

feedback_add : (x y : ℕ) → feedback ((x + y) % 2) ≡ bit_xor (feedback (x % 2)) (feedback (y % 2))
feedback_add x y =
    let e : (x + y) % 2 ≡ (x % 2 + y % 2) % 2 = omega arith in
    ap feedback e ∙ feedback_digits (x % 2) (y % 2) (omega arith) (omega arith)

exchange : (a b c d : ℕ) → bit_xor (bit_xor a b) (bit_xor c d) ≡ bit_xor (bit_xor a c) (bit_xor b d)
exchange a b c d =
    bit_xor_assoc a b (bit_xor c d)
    ∙ ap (bit_xor a) (
        sym (bit_xor_assoc b c d)
        ∙ ap (λ (t : ℕ). bit_xor t d) (bit_xor_comm b c)
        ∙ bit_xor_assoc c b d)
    ∙ sym (bit_xor_assoc a c (bit_xor b d))

-- Two registers in one: exclusive or goes through a round.
crc_round-bit_xor : (x y : ℕ) → crc_round (bit_xor x y) ≡ bit_xor (crc_round x) (crc_round y)
crc_round-bit_xor x y =
    rw
      (
        crc_round_lem (bit_xor x y),
        crc_round_lem x,
        crc_round_lem y,
        half-bit_xor x y,
        last-bit_xor x y,
        feedback_add x y,
      )
      (exchange (x / 2) (y / 2) (feedback (x % 2)) (feedback (y % 2)))

crc_rounds-bit_xor :
    (j x y : ℕ) → crc_rounds j (bit_xor x y) ≡ bit_xor (crc_rounds j x) (crc_rounds j y)
unfolding crc_rounds
crc_rounds-bit_xor zero x y = refl
crc_rounds-bit_xor (suc j) x y =
    ap (crc_rounds j) (crc_round-bit_xor x y) ∙ crc_rounds-bit_xor j (crc_round x) (crc_round y)

twice : (q k : ℕ) → q * 2 ^ suc k ≡ 2 * (q * 2 ^ k)
twice q k = omega (arith, ap (λ (t : ℕ). q * t) (pow-suc 2 k))

crc_round-even : (x : ℕ) → crc_round (2 * x) ≡ x
crc_round-even x =
    let half : 2 * x / 2 ≡ x = omega arith in
    let last : 2 * x % 2 ≡ 0 = omega arith in
    crc_round_lem (2 * x) ∙ rw (half, last) (bit_xor-zero x)

-- A register whose low digits are zero is shifted.
crc_rounds-shift : (j h : ℕ) → crc_rounds j (h * 2 ^ j) ≡ h
unfolding crc_rounds
crc_rounds-shift zero h = omega arith
crc_rounds-shift (suc j) h =
    ap (λ (t : ℕ). crc_rounds j (crc_round t)) (twice h j)
    ∙ ap (crc_rounds j) (crc_round-even (h * 2 ^ j))
    ∙ crc_rounds-shift j h

-- A field below `2 ^ k` and a multiple of `2 ^ k` have no digit in common.
bit_xor_join : (k q r : ℕ) → r < 2 ^ k → bit_xor (q * 2 ^ k) r ≡ q * 2 ^ k + r
bit_xor_join zero q r h = let e : r ≡ 0 = omega arith in rw e (bit_xor-zero (q * 1) ∙ omega arith)
bit_xor_join (suc k) q r h = omega (
  arith,
  bit_xor_step (q * 2 ^ suc k) r,
  twice q k,
  pow-suc 2 k,
  ap (λ (t : ℕ). bit_xor t (r / 2)) (halved (q * 2 ^ suc k) (q * 2 ^ k) (twice q k)),
  bit_xor_join k q (r / 2) (omega (arith, pow-suc 2 k)),
)
  where
    halved : (x y : ℕ) → x ≡ 2 * y → x / 2 ≡ y
    halved x y e = omega arith

abbrev halves : ℕ → ℕ → ℕ
halves zero x = x
halves (suc k) x = halves k (x / 2)

halves-bit_xor : (k x y : ℕ) → halves k (bit_xor x y) ≡ bit_xor (halves k x) (halves k y)
halves-bit_xor zero x y = refl
halves-bit_xor (suc k) x y = ap (halves k) (half-bit_xor x y) ∙ halves-bit_xor k (x / 2) (y / 2)

halves-eight : (x : ℕ) → halves 8 x ≡ x / 2 ^ 8
halves-eight x = omega arith

high-bit_xor : (crc byte : ℕ) → byte < 256 → bit_xor crc byte / 2 ^ 8 ≡ crc / 2 ^ 8
high-bit_xor crc byte h =
    let gone : halves 8 byte ≡ 0 = omega arith in
    sym (halves-eight (bit_xor crc byte))
    ∙ halves-bit_xor 8 crc byte
    ∙ ap (bit_xor (halves 8 crc)) gone
    ∙ bit_xor-zero (halves 8 crc)
    ∙ halves-eight crc

-- The eight rounds act on the low byte alone, which is what the table has, and shift the rest.
rounds-split : (x : ℕ) → crc_rounds 8 x ≡ bit_xor (x / 2 ^ 8) (crc_rounds 8 (x % 256))
rounds-split x =
    let join : bit_xor (x / 2 ^ 8 * 2 ^ 8) (x % 256) ≡ x =
      bit_xor_join 8 (x / 2 ^ 8) (x % 256) (omega arith) ∙ omega arith in
    ap (crc_rounds 8) (sym join)
    ∙ crc_rounds-bit_xor 8 (x / 2 ^ 8 * 2 ^ 8) (x % 256)
    ∙ ap (λ (t : ℕ). bit_xor t (crc_rounds 8 (x % 256))) (crc_rounds-shift 8 (x / 2 ^ 8))

crc_step_lem : (crc byte : ℕ) → byte < 256 → crc_step crc byte ≡ byte_step crc byte
unfolding crc_step
crc_step_lem crc byte h =
    let x : ℕ = bit_xor crc byte in
    let entry = get_or-crc_table (x % 256) (omega arith) in
    sym (rounds-split x ∙ rw (bit_and_byte x, entry, high-bit_xor crc byte h) refl)

crc_loop_lem :
    (crc : ℕ) (bytes : List ℕ)
    → All IsByte bytes
    → crc_loop (length bytes) crc bytes ≡ byte_loop bytes crc
unfolding crc_loop
crc_loop_lem crc [] h = refl
crc_loop_lem crc (b ∷ bytes) h =
    crc_loop_lem (crc_step crc b) bytes h.1 ∙ ap (byte_loop bytes) (crc_step_lem crc b h.0)

-- On bytes, crc32 with its table is the checksum that takes eight rounds for each byte and has no table.
pub crc32_lem :
    (bytes : List ℕ)
    → All IsByte bytes
    → crc32 bytes (length bytes) ≡ bit_xor (byte_loop bytes 0xFFFFFFFF) 0xFFFFFFFF
unfolding crc32
crc32_lem bytes h = ap (λ (t : ℕ). bit_xor t 0xFFFFFFFF) (crc_loop_lem 0xFFFFFFFF bytes h)
