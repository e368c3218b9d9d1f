-- ===== src/Protocol/Crc/Detects.antt =====
-- crc32 of src/core/protocol.cpp on data that differ in one byte.
use net_transfer.Base.{
  ℕ, zero, suc, ◌/◌, ◌%◌, ◌^◌, ◌<◌, bit_xor, ◌≡◌, ◌≢◌, refl, sym, ap, ◌∙◌, arith, List, [], ◌∷◌,
  ◌++◌, length, All, All-append, inl, inr,
}
use net_transfer.Base.Bits.Xor.{
  bit_xor_left_injective, bit_xor-lt, bit_xor_comm, bit_xor-zero, bit_xor_cancel,
}
use net_transfer.Protocol.{IsByte}
use net_transfer.Protocol.Crc.{polynomial, crc_round, crc_rounds, crc32}
use net_transfer.Protocol.Crc.Bounds.{rounds-lt}
use net_transfer.Protocol.Crc.Reference.{
  feedback, crc_round_lem, mod-two-cases, byte_step, byte_loop, crc32_lem,
}

-- The polynomial's highest bit tells whether it was added.
feedback-apart : (a b : ℕ) → a < 2 ^ 31 → b < 2 ^ 31 → bit_xor a 0 ≢ bit_xor b polynomial
feedback-apart a b ha hb e =
    let whole : bit_xor a b ≡ polynomial =
      ap (λ (t : ℕ). bit_xor t b) (sym (bit_xor-zero a) ∙ e ∙ bit_xor_comm b polynomial)
      ∙ bit_xor_cancel polynomial b in
    absurd (omega (arith, whole, bit_xor-lt 31 a b ha hb))

round_injective : (x y : ℕ) → x < 2 ^ 32 → y < 2 ^ 32 → crc_round x ≡ crc_round y → x ≡ y
round_injective x y hx hy e =
    let halves : bit_xor (x / 2) (feedback (x % 2)) ≡ bit_xor (y / 2) (feedback (y % 2)) =
      sym (crc_round_lem x) ∙ e ∙ crc_round_lem y in
    elim (mod-two-cases x) [
      | inl even ↦ elim (mod-two-cases y) [
        | inl even' ↦
            let h : x / 2 ≡ y / 2 =
              bit_xor_left_injective (x / 2) (y / 2) 0 (rw (even, even') at halves) in
            omega (arith, h)
        | inr odd' ↦
            absurd (
              feedback-apart (x / 2) (y / 2) (omega arith) (omega arith)
                (rw (even, odd') at halves))
      ]
      | inr odd ↦ elim (mod-two-cases y) [
        | inl even' ↦ absurd (
            feedback-apart (y / 2) (x / 2) (omega arith) (omega arith)
              (sym (rw (odd, even') at halves)))
        | inr odd' ↦
            let h : x / 2 ≡ y / 2 =
              bit_xor_left_injective (x / 2) (y / 2) polynomial (rw (odd, odd') at halves) in
            omega (arith, h)
      ]
    ]

rounds_injective : (j x y : ℕ) → x < 2 ^ 32 → y < 2 ^ 32 → crc_rounds j x ≡ crc_rounds j y → x ≡ y
unfolding crc_rounds
rounds_injective zero x y hx hy e = e
rounds_injective (suc j) x y hx hy e =
    round_injective x y hx hy
      (rounds_injective j (crc_round x) (crc_round y) (rounds-lt 1 x hx) (rounds-lt 1 y hy) e)

step-small : (r b : ℕ) → r < 2 ^ 32 → IsByte b → bit_xor r b < 2 ^ 32
step-small r b hr hb = bit_xor-lt 32 r b hr (omega arith)

byte_step-lt : (r b : ℕ) → r < 2 ^ 32 → IsByte b → byte_step r b < 2 ^ 32
byte_step-lt r b hr hb = rounds-lt 8 (bit_xor r b) (step-small r b hr hb)

-- From one checksum, one register.
byte_loop_injective :
    (bytes : List ℕ) (r r' : ℕ)
    → All IsByte bytes
    → r < 2 ^ 32
    → r' < 2 ^ 32
    → byte_loop bytes r ≡ byte_loop bytes r'
    → r ≡ r'
byte_loop_injective [] r r' h hr hr' e = e
byte_loop_injective (b ∷ bytes) r r' h hr hr' e =
    let ih =
      byte_loop_injective bytes (byte_step r b) (byte_step r' b) h.1 (byte_step-lt r b hr h.0)
        (byte_step-lt r' b hr' h.0) e in
    bit_xor_left_injective r r' b (
      rounds_injective 8 (bit_xor r b) (bit_xor r' b) (step-small r b hr h.0)
        (step-small r' b hr' h.0) ih)

byte_loop-append :
    (front back : List ℕ) (r : ℕ) → byte_loop (front ++ back) r ≡ byte_loop back (byte_loop front r)
byte_loop-append [] back r = refl
byte_loop-append (b ∷ front) back r = byte_loop-append front back (byte_step r b)

byte_loop-lt : (bytes : List ℕ) (r : ℕ) → All IsByte bytes → r < 2 ^ 32 → byte_loop bytes r < 2 ^ 32
byte_loop-lt [] r h hr = hr
byte_loop-lt (b ∷ bytes) r h hr = byte_loop-lt bytes (byte_step r b) h.1 (byte_step-lt r b hr h.0)

-- Data of bytes that differ in one byte, at any place, have different checksums.
pub crc32-ne :
    (front back : List ℕ) (x y : ℕ)
    → All IsByte front
    → All IsByte back
    → IsByte x
    → IsByte y
    → x ≢ y
    → crc32 (front ++ x ∷ back) (length (front ++ x ∷ back))
      ≢ crc32 (front ++ y ∷ back) (length (front ++ y ∷ back))
crc32-ne front back x y hf hb hx hy other e =
    let r : ℕ = byte_loop front 0xFFFFFFFF in
    let small : r < 2 ^ 32 = byte_loop-lt front 0xFFFFFFFF hf (omega arith) in
    let all = λ (z : ℕ) (hz : IsByte z). All-append IsByte front (z ∷ back) hf (hz, hb) in
    let sums =
      sym (crc32_lem (front ++ x ∷ back) (all x hx))
      ∙ e
      ∙ crc32_lem (front ++ y ∷ back) (all y hy) in
    let loops =
      sym (byte_loop-append front (x ∷ back) 0xFFFFFFFF)
      ∙ bit_xor_left_injective _ _ 0xFFFFFFFF sums
      ∙ byte_loop-append front (y ∷ back) 0xFFFFFFFF in
    let steps =
      byte_loop_injective back (byte_step r x) (byte_step r y) hb (byte_step-lt r x small hx)
        (byte_step-lt r y small hy) loops in
    let inputs =
      rounds_injective 8 (bit_xor r x) (bit_xor r y) (step-small r x small hx)
        (step-small r y small hy) steps in
    absurd (other (bit_xor_left_injective x y r (bit_xor_comm x r ∙ inputs ∙ bit_xor_comm r y)))
