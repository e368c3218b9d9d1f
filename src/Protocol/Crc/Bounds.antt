-- ===== src/Protocol/Crc/Bounds.antt =====
-- crc32 of src/core/protocol.cpp: its range, its table entries, and the data it looks at.
use net_transfer.Base.{
  ℕ, zero, suc, ◌+◌, ◌/◌, ◌^◌, ◌≤◌, ◌<◌, bit_and, bit_xor, ◌≡◌, refl, ap, ◌∙◌, arith, List, [], ◌∷◌,
  ◌++◌, length, get_or,
}
use net_transfer.Base.Bits.{bit_and_byte}
use net_transfer.Base.Bits.Xor.{bit_xor-lt}
use net_transfer.Protocol.Crc.{
  polynomial, crc_round, crc_rounds, fill_table, crc_table, crc_step, crc_loop, crc32,
}

round-lt : (x : ℕ) → x < 2 ^ 32 → crc_round x < 2 ^ 32
unfolding crc_round
round-lt x h = ground (arith, bit_xor-lt 32 (x / 2 ^ 1) polynomial (omega arith) (omega arith))

pub rounds-lt : (j x : ℕ) → x < 2 ^ 32 → crc_rounds j x < 2 ^ 32
unfolding crc_rounds
rounds-lt zero x h = h
rounds-lt (suc j) x h = rounds-lt j (crc_round x) (round-lt x h)

-- The table's entry at an index is the eight rounds from that index.
get_or-fill_table : (n i k : ℕ) → k < n → get_or (fill_table n i) k 0 ≡ crc_rounds 8 (i + k)
unfolding fill_table
get_or-fill_table zero i k h = absurd (omega arith)
get_or-fill_table (suc n) i zero h = let e : i + 0 ≡ i = omega arith in rw e refl
get_or-fill_table (suc n) i (suc k) h =
    let e : i + suc k ≡ i + 1 + k = omega arith in
    rw e (get_or-fill_table n (i + 1) k (omega arith))

pub get_or-crc_table : (k : ℕ) → k < 256 → get_or crc_table k 0 ≡ crc_rounds 8 k
unfolding crc_table
get_or-crc_table k h = get_or-fill_table 256 0 k h ∙ ap (crc_rounds 8) (omega arith)

step-lt : (crc b : ℕ) → crc < 2 ^ 32 → crc_step crc b < 2 ^ 32
unfolding crc_step
step-lt crc b h =
    let index : ℕ = bit_and (bit_xor crc b) 0xFF in
    let small : index < 256 = omega (arith, bit_and_byte (bit_xor crc b)) in
    let entry : get_or crc_table index 0 < 2 ^ 32 =
      rw (get_or-crc_table index small) (rounds-lt 8 index (omega arith)) in
    bit_xor-lt 32 (crc / 2 ^ 8) (get_or crc_table index 0) (omega arith) entry

loop-lt : (n crc : ℕ) (bytes : List ℕ) → crc < 2 ^ 32 → crc_loop n crc bytes < 2 ^ 32
unfolding crc_loop
loop-lt zero crc bytes h = h
loop-lt (suc n) crc [] h = h
loop-lt (suc n) crc (b ∷ bytes) h = loop-lt n (crc_step crc b) bytes (step-lt crc b h)

-- A checksum is a number of 32 bits, also where the data holds numbers that are no bytes.
pub crc32-lt : (bytes : List ℕ) (len : ℕ) → crc32 bytes len < 2 ^ 32
unfolding crc32
crc32-lt bytes len =
    bit_xor-lt 32 (crc_loop len 0xFFFFFFFF bytes) 0xFFFFFFFF
      (loop-lt len 0xFFFFFFFF bytes (omega arith)) (omega arith)

loop-append :
    (n crc : ℕ) (bytes more : List ℕ)
    → n ≤ length bytes
    → crc_loop n crc (bytes ++ more) ≡ crc_loop n crc bytes
unfolding crc_loop
loop-append zero crc bytes more h = refl
loop-append (suc n) crc [] more h = absurd (omega arith)
loop-append (suc n) crc (b ∷ bytes) more h = loop-append n (crc_step crc b) bytes more (omega arith)

pub crc32-append :
    (bytes more : List ℕ) (len : ℕ)
    → len ≤ length bytes
    → crc32 (bytes ++ more) len ≡ crc32 bytes len
unfolding crc32
crc32-append bytes more len h = rw (loop-append len 0xFFFFFFFF bytes more h) refl
